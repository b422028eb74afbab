-- ===== src/Repositories/Behind.antt =====
-- Rows that no two of were changed at the same instant, and what is behind a page of them
-- (Backend/app/repositories).
use life_merge.Base.{
  Pairs, ℕ, zero, suc, ◌+◌, ◌<◌, ◌≡◌, refl, ap, ◌≢◌, Bool, true, false, some, List, [], ◌∷◌, ◌++◌,
  arith, ltb, length, select, All, All-map,
}
use life_merge.Base.Sort.{IsSorted}
use life_merge.Repositories.{Columns, newest_first, last_shown}
use life_merge.Repositories.Order.{take, select-true, All-both}

module _ {A : Type 0} (columns : Columns A) where
  -- No two rows were changed at the same instant.
  abbrev pub Distinct : List A → Type 0
  Distinct = Pairs (λ x y. columns.updated_at x ≢ columns.updated_at y)

  -- Each row was changed before those in front of it.
  abbrev pub Decreasing : List A → Type 0
  Decreasing [] = Unit
  Decreasing (x ∷ xs) =
      All (λ y. ltb (columns.updated_at y) (columns.updated_at x) ≡ true) xs × Decreasing xs

  newest_first-strict :
      (x y : A)
      → (newest_first columns x y ≡ true) × (columns.updated_at x ≢ columns.updated_at y)
      → ltb (columns.updated_at y) (columns.updated_at x) ≡ true
  unfolding newest_first
  newest_first-strict x y h = ground (arith, h.0, h.1)

  pub Decreasing-sorted :
      (xs : List A) → IsSorted (newest_first columns) xs → Distinct xs → Decreasing xs
  Decreasing-sorted [] s d = tt
  Decreasing-sorted (x ∷ xs) s d = (
    All-map _ _ (newest_first-strict x) xs (All-both _ _ xs s.0 d.0),
    Decreasing-sorted xs s.1 d.1,
  )

  abbrev pub before : A → A → Bool
  before last row = ltb (columns.updated_at row) (columns.updated_at last)

  -- The last row of a page, and what is behind the page.
  pub record Behind (n : ℕ) (rows : List A) : Type 1 where
    pub last : A
    pub rest : List A
    pub shown : last_shown (suc n) (take (suc (suc n)) rows) ≡ some last
    pub joined : take (suc n) (take (suc (suc n)) rows) ++ rest ≡ rows
    pub chosen : select (before last) rows ≡ rest
    pub counted : suc n + length rest ≡ length rows
    pub member : (P : A → Type 0) → All P rows → P last
    pub below : Decreasing rest

  ltb_irrefl : (n : ℕ) → ltb n n ≡ false
  ltb_irrefl n = ground arith

  ltb_asym : (x y : A) → before x y ≡ true → before y x ≡ false
  ltb_asym x y h = ground arith

  -- Behind the last row of a page, the rest of the rows is what was changed before it.
  pub behind : (n : ℕ) (rows : List A) → Decreasing rows → suc n < length rows → Behind n rows
  unfolding last_shown
  behind n [] d h = absurd (omega arith)
  behind zero (x ∷ []) d h = absurd (omega arith)
  behind zero (x ∷ y ∷ rows) d h = record {
    last = x;
    rest = y ∷ rows;
    shown = refl;
    joined = refl;
    chosen = rw (ltb_irrefl (columns.updated_at x)) (select-true (before x) (y ∷ rows) d.0);
    counted = omega arith;
    member = λ P k. k.0;
    below = d.1;
  }
  behind (suc n) (x ∷ rows) d h =
      let b = behind n rows d.1 (omega (arith, h)) in
      record {
        last = b.last;
        rest = b.rest;
        shown = b.shown;
        joined = ap (λ ys. x ∷ ys) b.joined;
        chosen = rw (ltb_asym x b.last (b.member _ d.0)) b.chosen;
        counted = omega (arith, b.counted);
        member = λ P k. b.member P k.1;
        below = b.below;
      }
