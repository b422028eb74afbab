-- ===== src/Productivity/Rows.antt =====
-- Backend/app/api/v1/productivity.py: what adding and saving a row leave in a table.
use life_merge.Base.{
  ℕ, ◌≡◌, ◌≢◌, refl, sym, ap, ◌∙◌, true, false, ◌&&◌, Option, none, some, List, [], ◌∷◌, ◌++◌,
  arith, ◌==◌, ==_iff, any, All, All-append, All-map, Pairs, select, select-append, inl, inr,
  Bool-cases, and_true, some_eq, any-false-All, subst, map, ap₂,
}
use life_merge.Base.Result.{Ensures}
use life_merge.Repositories.{Columns}
use life_merge.Repositories.Lists.{repositories_program}
use life_merge.Productivity.{owned_row, check_live, live_row, add, save}

module _ {A : Type 0} (columns : Columns A) where
  -- No two rows have one key.
  abbrev pub IsKeyed : List A → Type 0
  IsKeyed = Pairs (λ x y. (columns.id x == columns.id y) ≡ false)

  -- The rows of a user.
  abbrev pub rows_of : ℕ → List A → List A
  rows_of user_id = select (λ row. columns.user_id row == user_id)

  -- The table keeps its keys apart and the rows of a user.
  abbrev pub Keeps : ℕ → List A → List A → Type 0
  Keeps user_id db after = IsKeyed after × (rows_of user_id after ≡ rows_of user_id db)

  pub add-All {κ} :
      (P : A → Type κ) (row : A) (db : List A)
      → P row
      → All P db
      → Ensures (All P) (add columns row db)
  unfolding add
  add-All P row db h k = elim (Bool-cases (any (λ r. columns.id r == columns.id row) db)) [
    | inl e ↦ rw e tt
    | inr e ↦ rw e (All-append P db (row ∷ []) k (h, tt))
  ]

  pub save-All {κ} :
      (P : A → Type κ) (row : A) (db : List A) → P row → All P db → All P (save columns row db)
  unfolding save repositories_program
  save-All P row [] h k = tt
  save-All P row (r ∷ db) h k = elim (Bool-cases (columns.id r == columns.id row)) [
    | inl e ↦ rw e (h, save-All P row db h k.1)
    | inr e ↦ rw e (k.0, save-All P row db h k.1)
  ]

  Pairs-append_one :
      (row : A) (db : List A)
      → All (λ r. (columns.id r == columns.id row) ≡ false) db
      → IsKeyed db
      → IsKeyed (db ++ row ∷ [])
  Pairs-append_one row [] h k = (tt, tt)
  Pairs-append_one row (r ∷ db) h k =
      (All-append _ db (row ∷ []) k.0 (h.0, tt), Pairs-append_one row db h.1 k.1)

  pub add-Keeps :
      (user_id : ℕ) (row : A) (db : List A)
      → columns.user_id row ≢ user_id
      → IsKeyed db
      → Ensures (Keeps user_id db) (add columns row db)
  unfolding add
  add-Keeps user_id row db other keyed =
      elim (Bool-cases (any (λ r. columns.id r == columns.id row) db)) [
        | inl e ↦ rw e tt
        | inr e ↦
            let absent : rows_of user_id (row ∷ []) ≡ [] = ground arith in
            rw e (
              Pairs-append_one row db (any-false-All _ db e) keyed,
              select-append _ db (row ∷ [])
                  ∙ ap (λ rows. rows_of user_id db ++ rows) absent
                  ∙ append_nil (rows_of user_id db),
            )
      ]
    where
      append_nil : (rows : List A) → rows ++ [] ≡ rows
      append_nil [] = refl
      append_nil (r ∷ rows) = ap (λ rest. r ∷ rest) (append_nil rows)

  -- A row that is found stands in the table, with the key and the owner that were asked for.
  pub owned_row-found {κ} :
      (P : A → Type κ) (user_id i : ℕ) (db : List A) (row : A)
      → All P db
      → owned_row columns user_id i db ≡ some row
      → P row × (columns.id row ≡ i) × (columns.user_id row ≡ user_id)
  unfolding owned_row
  owned_row-found P user_id i [] row h e = cc
  owned_row-found P user_id i (r ∷ db) row h e =
      elim (Bool-cases ((columns.id r == i) && (columns.user_id r == user_id))) [
        | inl hit ↦
            let same : r ≡ row = some_eq (rw hit at e) in
            let (by_id, by_user) = and_true _ _ hit in
            rw (← same) (h.0, (==_iff _ i).0 by_id, (==_iff _ user_id).0 by_user)
        | inr miss ↦ owned_row-found P user_id i db row h.1 (rw miss at e)
      ]

  -- A row that a route may change is found, and is not deleted.
  pub live_row-found :
      (user_id i : ℕ) (db : List A)
      → Ensures
          (λ row. (owned_row columns user_id i db ≡ some row) × (columns.deleted row ≡ false))
          (live_row columns user_id i db)
  unfolding live_row check_live
  live_row-found user_id i db = checked (owned_row columns user_id i db)
    where
      checked :
          (found : Option A)
          → Ensures
              (λ row. (found ≡ some row) × (columns.deleted row ≡ false))
              (check_live columns found)
      checked none = tt
      checked (some row) = elim (Bool-cases (columns.deleted row)) [
        | inl e ↦ rw e tt
        | inr e ↦ rw e (refl, e)
      ]

  -- What holds of the keys of all rows.
  save-keys {κ} :
      (Q : ℕ → Type κ) (row : A) (db : List A)
      → All (λ r. Q (columns.id r)) db
      → All (λ r. Q (columns.id r)) (save columns row db)
  unfolding save repositories_program
  save-keys Q row [] h = tt
  save-keys Q row (r ∷ db) h = elim (Bool-cases (columns.id r == columns.id row)) [
    | inl e ↦ rw e (subst Q ((==_iff _ _).0 e) h.0, save-keys Q row db h.1)
    | inr e ↦ rw e (h.0, save-keys Q row db h.1)
  ]

  -- Saving a row adds none.
  pub map-save : (row : A) (db : List A) → map columns.id (save columns row db) ≡ map columns.id db
  unfolding save repositories_program
  map-save row [] = refl
  map-save row (r ∷ db) = elim (Bool-cases (columns.id r == columns.id row)) [
    | inl e ↦ rw e (ap₂ (λ k ks. k ∷ ks) (sym ((==_iff _ _).0 e)) (map-save row db))
    | inr e ↦ rw e (ap (λ ks. columns.id r ∷ ks) (map-save row db))
  ]

  save-IsKeyed : (row : A) (db : List A) → IsKeyed db → IsKeyed (save columns row db)
  unfolding save repositories_program
  save-IsKeyed row [] keyed = tt
  save-IsKeyed row (r ∷ db) keyed = elim (Bool-cases (columns.id r == columns.id row)) [
    | inl e ↦
        let same = (==_iff (columns.id r) (columns.id row)).0 e in
        let apart = save-keys (λ k. (columns.id r == k) ≡ false) row db keyed.0 in
        rw e (
          subst (λ k. All (λ s. (k == columns.id s) ≡ false) (save columns row db)) same apart,
          save-IsKeyed row db keyed.1,
        )
    | inr e ↦
        rw e
          (save-keys (λ k. (columns.id r == k) ≡ false) row db keyed.0, save-IsKeyed row db keyed.1)
  ]

  -- Where keys are apart, the rows with the key of a row that is found are its owner's.
  owned_row-owner :
      (user_id i : ℕ) (db : List A) (row : A)
      → IsKeyed db
      → owned_row columns user_id i db ≡ some row
      → All (λ r. (columns.id r == i) ≡ true → columns.user_id r ≡ user_id) db
  unfolding owned_row
  owned_row-owner user_id i [] row keyed e = tt
  owned_row-owner user_id i (r ∷ db) row keyed e =
      elim (Bool-cases ((columns.id r == i) && (columns.user_id r == user_id))) [
        | inl hit ↦
            let (by_id, by_user) = and_true _ _ hit in
            let alone =
              subst (λ k. All (λ s. (k == columns.id s) ≡ false) db) ((==_iff _ i).0 by_id)
                keyed.0 in
            (
              λ h. (==_iff _ user_id).0 by_user,
              All-map _ (λ s. (columns.id s == i) ≡ true → columns.user_id s ≡ user_id)
                  (λ s (apart : (i == columns.id s) ≡ false) k.
                    absurd (clash i (columns.id s) apart k))
                  db alone,
            )
        | inr miss ↦
            let later : owned_row columns user_id i db ≡ some row = rw miss at e in
            let found =
              owned_row-found (λ s. (columns.id r == columns.id s) ≡ false) user_id i db row keyed.0
                later in
            (
              λ h. absurd (
                  clash i (columns.id r)
                    (flipped (columns.id r) i
                      (subst (λ k. (columns.id r == k) ≡ false) found.1 found.0))
                    h),
              owned_row-owner user_id i db row keyed.1 later,
            )
      ]
    where
      clash : (j k : ℕ) → (j == k) ≡ false → (k == j) ≡ true → ⊥
      clash j k apart same = ground arith

      flipped : (j k : ℕ) → (j == k) ≡ false → (k == j) ≡ false
      flipped j k h = ground arith

  save-rows_of :
      (user_id : ℕ) (row : A) (db : List A)
      → columns.user_id row ≢ user_id
      → All
          (λ r. (columns.id r == columns.id row) ≡ true → columns.user_id r ≡ columns.user_id row)
          db
      → rows_of user_id (save columns row db) ≡ rows_of user_id db
  unfolding save repositories_program
  save-rows_of user_id row [] other owner = refl
  save-rows_of user_id row (r ∷ db) other owner =
      elim (Bool-cases (columns.id r == columns.id row)) [
        | inl e ↦
            let same : columns.user_id r ≡ columns.user_id row = owner.0 e in
            ground (arith, save-rows_of user_id row db other owner.1)
        | inr e ↦ ground (arith, save-rows_of user_id row db other owner.1)
      ]

  -- A change of a row that its owner was found to have.
  pub save-Keeps :
      (user_id by : ℕ) (old row : A) (db : List A)
      → by ≢ user_id
      → IsKeyed db
      → owned_row columns by (columns.id old) db ≡ some old
      → columns.id row ≡ columns.id old
      → columns.user_id row ≡ columns.user_id old
      → Keeps user_id db (save columns row db)
  save-Keeps user_id by old row db other keyed found same_id same_user =
      let mine =
        (owned_row-found (λ r. Unit {0}) by (columns.id old) db old (everything db) found).2 in
      let owner = owned_row-owner by (columns.id old) db old keyed found in
      (
        save-IsKeyed row db keyed,
        save-rows_of user_id row db (λ e. other (sym (same_user ∙ mine) ∙ e))
            (subst
              (λ u. All (λ r. (columns.id r == columns.id row) ≡ true → columns.user_id r ≡ u) db)
              (sym (same_user ∙ mine))
              (subst (λ k. All (λ r. (columns.id r == k) ≡ true → columns.user_id r ≡ by) db)
                (sym same_id) owner)),
      )
    where
      everything : (rows : List A) → All (λ r. Unit {0}) rows
      everything [] = tt
      everything (r ∷ rows) = (tt, everything rows)
