-- ===== src/Base/Sort.antt =====
-- Python's `sorted` and `list.sort`, which are stable, as an insertion sort over a Boolean order.
use mathlib.Core.List.Perm
use life_merge.Base.{
  Pairs, length, suc, ◌≡◌, refl, sym, ap, ◌∙◌, inl, inr, Bool, true, false, ◌||◌, List, [], ◌∷◌,
  Perm, arith, if◌then◌else◌, Bool-cases, any, All, All-map, All-select, select,
}

module _ {ℓ} {A : Type ℓ} (le : A → A → Bool) where
  -- Before the first entry that is not smaller. The list is built from its end, so an entry that
  -- stands earlier in the input stays in front of those with an equal key.
  insert : A → List A → List A
  insert x [] = x ∷ []
  insert x (y ∷ ys) = let rest = insert x ys in if le x y then x ∷ y ∷ ys else y ∷ rest

  unfoldable pub sort : List A → List A
  unfolding insert
  sort [] = []
  sort (x ∷ xs) = insert x (sort xs)

  abbrev pub IsSorted : List A → Type 0
  IsSorted [] = Unit
  IsSorted (x ∷ xs) = All (λ y. le x y ≡ true) xs × IsSorted xs

  insert-perm : (x : A) (xs : List A) → Perm (insert x xs) (x ∷ xs)
  unfolding insert
  insert-perm x [] = Perm.rfl
  insert-perm x (y ∷ ys) = elim (Bool-cases (le x y)) [
    | inl e ↦ rw (e, insert) Perm.rfl
    | inr e ↦ rw (e, insert) (Perm.trans (Perm.cons y (insert-perm x ys)) (Perm.swap x y ys))
  ]

  pub sort-perm : (xs : List A) → Perm (sort xs) xs
  unfolding sort
  sort-perm [] = Perm.rfl
  sort-perm (x ∷ xs) = Perm.trans (insert-perm x (sort xs)) (Perm.cons x (sort-perm xs))

  any-insert : (p : A → Bool) (x : A) (xs : List A) → any p (insert x xs) ≡ any p (x ∷ xs)
  unfolding insert
  any-insert p x [] = refl
  any-insert p x (y ∷ ys) = ground (arith, any-insert p x ys)

  pub any-sort : (p : A → Bool) (xs : List A) → any p (sort xs) ≡ any p xs
  unfolding sort
  any-sort p [] = refl
  any-sort p (x ∷ xs) = ground (arith, any-insert p x (sort xs), any-sort p xs)

  All-insert {κ} : (P : A → Type κ) (x : A) (xs : List A) → P x → All P xs → All P (insert x xs)
  unfolding insert
  All-insert P x [] h k = (h, tt)
  All-insert P x (y ∷ ys) h k = elim (Bool-cases (le x y)) [
    | inl e ↦ rw (e, insert) (h, k)
    | inr e ↦ rw (e, insert) (k.0, All-insert P x ys h k.1)
  ]

  pub All-sort {κ} : (P : A → Type κ) (xs : List A) → All P xs → All P (sort xs)
  unfolding sort
  All-sort P [] h = tt
  All-sort P (x ∷ xs) h = All-insert P x (sort xs) h.0 (All-sort P xs h.1)

  insert-All {κ} : (P : A → Type κ) (x : A) (xs : List A) → All P (insert x xs) → P x × All P xs
  unfolding insert
  insert-All P x [] h = h
  insert-All P x (y ∷ ys) h = elim (Bool-cases (le x y)) [
    | inl e ↦ rw (e, insert) at h
    | inr e ↦
        let k : P y × All P (insert x ys) = rw (e, insert) at h in
        let (here, rest) = insert-All P x ys k.1 in (here, (k.0, rest))
  ]

  -- What holds of every entry of the sorted list holds of every entry of the list.
  pub sort-All {κ} : (P : A → Type κ) (xs : List A) → All P (sort xs) → All P xs
  unfolding sort
  sort-All P [] h = tt
  sort-All P (x ∷ xs) h =
      let (here, rest) = insert-All P x (sort xs) h in (here, sort-All P xs rest)

  module _ (R : A → A → Type 0) (symmetric : (x y : A) → R x y → R y x) where
    insert-Pairs : (x : A) (xs : List A) → All (R x) xs → Pairs R xs → Pairs R (insert x xs)
    unfolding insert
    insert-Pairs x [] h k = (h, k)
    insert-Pairs x (y ∷ ys) h k = elim (Bool-cases (le x y)) [
      | inl e ↦ rw (e, insert) (h, k)
      | inr e ↦
          rw (e, insert) (All-insert (R y) x ys (symmetric x y h.0) k.0, insert-Pairs x ys h.1 k.1)
    ]

    pub sort-Pairs : (xs : List A) → Pairs R xs → Pairs R (sort xs)
    unfolding sort
    sort-Pairs [] h = tt
    sort-Pairs (x ∷ xs) h = insert-Pairs x (sort xs) (All-sort (R x) xs h.0) (sort-Pairs xs h.1)

  length-insert : (x : A) (xs : List A) → length (insert x xs) ≡ suc (length xs)
  unfolding insert
  length-insert x [] = refl
  length-insert x (y ∷ ys) = ground (arith, length-insert x ys)

  pub length-sort : (xs : List A) → length (sort xs) ≡ length xs
  unfolding sort
  length-sort [] = refl
  length-sort (x ∷ xs) = omega (arith, length-insert x (sort xs), length-sort xs)

  insert-first : (x : A) (xs : List A) → All (λ y. le x y ≡ true) xs → insert x xs ≡ x ∷ xs
  unfolding insert
  insert-first x [] h = refl
  insert-first x (y ∷ ys) h = ground (arith, h.0)

  -- A list that is sorted stays as it is.
  pub sort-sorted : (xs : List A) → IsSorted xs → sort xs ≡ xs
  unfolding sort
  sort-sorted [] h = refl
  sort-sorted (x ∷ xs) h = rw (sort-sorted xs h.1) (insert-first x xs h.0)

  select-insert_drop :
      (p : A → Bool) (x : A) (xs : List A) → p x ≡ false → select p (insert x xs) ≡ select p xs
  unfolding insert
  select-insert_drop p x [] e = ground arith
  select-insert_drop p x (y ∷ ys) e = ground (arith, select-insert_drop p x ys e)

  module _ (total : (x y : A) → (le x y || le y x) ≡ true)
      (trans : (x y z : A) → le x y ≡ true → le y z ≡ true → le x z ≡ true) where
    insert-IsSorted : (x : A) (xs : List A) → IsSorted xs → IsSorted (insert x xs)
    unfolding insert
    insert-IsSorted x [] s = (tt, tt)
    insert-IsSorted x (y ∷ ys) s = elim (Bool-cases (le x y)) [
      | inl e ↦
          rw (e, insert) ((e, All-map _ (λ z. le x z ≡ true) (λ z h. trans x y z e h) ys s.0), s)
      | inr e ↦
          let below : le y x ≡ true = ground (arith, total x y) in
          rw (e, insert) (All-insert (λ z. le y z ≡ true) x ys below s.0, insert-IsSorted x ys s.1)
    ]

    pub sort-IsSorted : (xs : List A) → IsSorted (sort xs)
    unfolding sort
    sort-IsSorted [] = tt
    sort-IsSorted (x ∷ xs) = insert-IsSorted x (sort xs) (sort-IsSorted xs)

    select-insert_keep :
        (p : A → Bool) (x : A) (xs : List A)
        → p x ≡ true
        → IsSorted xs
        → select p (insert x xs) ≡ insert x (select p xs)
    unfolding insert
    select-insert_keep p x [] e s = ground arith
    select-insert_keep p x (y ∷ ys) e s = elim (Bool-cases (le x y)) [
      | inl h ↦
          let above : All (λ z. le x z ≡ true) (y ∷ ys) =
            (h, All-map _ (λ z. le x z ≡ true) (λ z k. trans x y z h k) ys s.0) in
          rw (h, e) (sym (insert-first x (select p (y ∷ ys)) (All-select _ p (y ∷ ys) above)))
      | inr h ↦ elim (Bool-cases (p y)) [
        | inl k ↦ rw (h, k, insert, h) (ap (λ zs. y ∷ zs) (select-insert_keep p x ys e s.1))
        | inr k ↦ rw (h, k) (select-insert_keep p x ys e s.1)
      ]
    ]

    pub select-sort : (p : A → Bool) (xs : List A) → select p (sort xs) ≡ sort (select p xs)
    unfolding sort
    select-sort p [] = refl
    select-sort p (x ∷ xs) = elim (Bool-cases (p x)) [
      | inl e ↦
          rw e (
            select-insert_keep p x (sort xs) e (sort-IsSorted xs)
            ∙ ap (insert x) (select-sort p xs))
      | inr e ↦ rw e (select-insert_drop p x (sort xs) e ∙ select-sort p xs)
    ]
