-- ===== src/Repositories/Order.antt =====
-- Slices of a list, and how a sorted list and its selections go together.
use life_merge.Base.{
  ◌<◌, ℕ, zero, suc, ◌≤◌, ◌≡◌, refl, ap, inl, inr, Bool, true, false, ◌&&◌, List, [], ◌∷◌, arith,
  length, select, Bool-cases, All,
}

module _ {A : Type 0} where
  -- `xs[:n]`
  abbrev pub take : ℕ → List A → List A
  take zero xs = []
  take (suc n) [] = []
  take (suc n) (x ∷ xs) = x ∷ take n xs

  pub length-take : (n : ℕ) (xs : List A) → length (take n xs) ≤ n
  length-take zero xs = omega arith
  length-take (suc n) [] = omega arith
  length-take (suc n) (x ∷ xs) = omega (arith, length-take n xs)

  pub take-all : (n : ℕ) (xs : List A) → length xs ≤ n → take n xs ≡ xs
  take-all zero [] h = refl
  take-all zero (x ∷ xs) h = absurd (omega arith)
  take-all (suc n) [] h = refl
  take-all (suc n) (x ∷ xs) h = ap (λ ys. x ∷ ys) (take-all n xs (omega arith))

  pub All-take : (P : A → Type 0) (n : ℕ) (xs : List A) → All P xs → All P (take n xs)
  All-take P zero xs h = tt
  All-take P (suc n) [] h = tt
  All-take P (suc n) (x ∷ xs) h = (h.0, All-take P n xs h.1)

  pub select-All : (p : A → Bool) (xs : List A) → All (λ x. p x ≡ true) (select p xs)
  select-All p [] = tt
  select-All p (x ∷ xs) = elim (Bool-cases (p x)) [
    | inl e ↦ rw e (e, select-All p xs)
    | inr e ↦ rw e (select-All p xs)
  ]

  pub select-and :
      (p q : A → Bool) (xs : List A) → select (λ x. p x && q x) xs ≡ select q (select p xs)
  select-and p q [] = refl
  select-and p q (x ∷ xs) = ground (arith, select-and p q xs)

  -- A second selection that implies the first.
  pub select-select :
      (p q : A → Bool)
      → ((x : A) → q x ≡ true → p x ≡ true)
      → (xs : List A) → select q (select p xs) ≡ select q xs
  select-select p q imp [] = refl
  select-select p q imp (x ∷ xs) = ground (arith, imp x, select-select p q imp xs)

  pub select-true : (p : A → Bool) (xs : List A) → All (λ x. p x ≡ true) xs → select p xs ≡ xs
  select-true p [] h = refl
  select-true p (x ∷ xs) h = ground (arith, h.0, select-true p xs h.1)

  pub select-false : (p : A → Bool) (xs : List A) → All (λ x. p x ≡ false) xs → select p xs ≡ []
  select-false p [] h = refl
  select-false p (x ∷ xs) h = ground (arith, h.0, select-false p xs h.1)

  pub All-both : (P Q : A → Type 0) (xs : List A) → All P xs → All Q xs → All (λ x. P x × Q x) xs
  All-both P Q [] h k = tt
  All-both P Q (x ∷ xs) h k = ((h.0, k.0), All-both P Q xs h.1 k.1)

  pub select-always : (rows : List A) → select (λ row. true) rows ≡ rows
  select-always [] = refl
  select-always (x ∷ rows) = ap (λ ys. x ∷ ys) (select-always rows)

  pub length-take_more : (n : ℕ) (xs : List A) → n < length (take (suc n) xs) → n < length xs
  length-take_more zero [] h = h
  length-take_more zero (x ∷ xs) h = omega arith
  length-take_more (suc n) [] h = absurd (omega (arith, h))
  length-take_more (suc n) (x ∷ xs) h = omega (arith, h, length-take_more n xs (omega (arith, h)))

  pub length-take_less : (n : ℕ) (xs : List A) → length (take (suc n) xs) ≤ n → length xs ≤ n
  length-take_less n [] h = omega arith
  length-take_less zero (x ∷ xs) h = absurd (omega (arith, h))
  length-take_less (suc n) (x ∷ xs) h = omega (arith, h, length-take_less n xs (omega (arith, h)))
