-- ===== src/Productivity/Changes.antt =====
-- Backend/app/api/v1/productivity.py: the ways in which its routes write, and whose rows they leave.
use life_merge.Base.{
  ℕ, ◌≡◌, ◌≢◌, refl, sym, ◌∙◌, Bool, true, false, some, List, [], ◌∷◌, All, subst, inl, inr,
  Bool-cases, ==_refl, ==_iff, ◌==◌, select,
}
use life_merge.Base.Result.{Result, ok, ◌>>=◌, Ensures, Ensures-bind}
use life_merge.Auth.{scalar_one_or_none}
use life_merge.Auth.Tokens.{tokens_program}
use life_merge.Repositories.{Columns}
use life_merge.Productivity.{owned_row, live_row, add, save}
use life_merge.Productivity.Rows.{
  IsKeyed, Keeps, add-Keeps, save-Keeps, live_row-found, owned_row-found,
}

module _ {A : Type 0} (columns : Columns A) (v by : ℕ) (other : by ≢ v) where
  -- What a route leaves that answers and gives a new table.
  abbrev pub Done : {B : Type 0} → List A → B × List A → Type 0
  Done db done = Keeps columns v db done.1

  -- A change that leaves a row its key and its owner.
  abbrev pub Same : A → A → Type 0
  Same row changed =
      (columns.id changed ≡ columns.id row) × (columns.user_id changed ≡ columns.user_id row)

  pub save_found-Keeps :
      (i : ℕ) (old row : A) (db : List A)
      → IsKeyed columns db
      → owned_row columns by i db ≡ some old
      → Same old row
      → Keeps columns v db (save columns row db)
  save_found-Keeps i old row db keyed found same =
      let at = (owned_row-found columns (λ r. Unit {0}) by i db old (everything db) found).1 in
      save-Keeps columns v by old row db other keyed
        (subst (λ k. owned_row columns by k db ≡ some old) (sym at) found) same.0 same.1
    where
      everything : (rows : List A) → All (λ r. Unit {0}) rows
      everything [] = tt
      everything (r ∷ rows) = (tt, everything rows)

  -- A route that changes a row of the sender.
  pub update-Keeps :
      {B : Type 0} (i : ℕ) (set : A → Result A) (out : A → B) (db : List A)
      → IsKeyed columns db
      → ((row : A) → Ensures (Same row) (set row))
      → Ensures (Done db) (
          live_row columns by i db >>= λ row.
          set row >>= λ changed. ok (out changed, save columns changed db))
  update-Keeps i set out db keyed same =
      Ensures-bind _ _ (live_row columns by i db) _ (live_row-found columns by i db) λ old found.
        Ensures-bind (Same old) _ (set old) _ (same old)
          λ row kept. save_found-Keeps i old row db keyed found.0 kept

  -- A route that adds a row of the sender.
  pub create-Keeps :
      {B : Type 0} (row : A) (out : B) (db : List A)
      → columns.user_id row ≡ by
      → IsKeyed columns db
      → Ensures (Done db) (add columns row db >>= λ after. ok (out, after))
  create-Keeps row out db mine keyed =
      Ensures-bind (Keeps columns v db) _ (add columns row db) _
        (add-Keeps columns v row db (λ e. other (sym mine ∙ e)) keyed) λ after kept. kept

-- The one row that a query for rows of a user gives is found by its key.
module _ {A : Type 0} (columns : Columns A) (user_id : ℕ) (wanted : A → Bool)
    (mine : (row : A) → wanted row ≡ true → columns.user_id row ≡ user_id) where
  only-owned :
      (db : List A) (row : A)
      → IsKeyed columns db
      → select wanted db ≡ row ∷ []
      → owned_row columns user_id (columns.id row) db ≡ some row
  unfolding owned_row
  only-owned [] row keyed e = cc
  only-owned (r ∷ db) row keyed e = elim (Bool-cases (wanted r)) [
    | inl hit ↦
        let one : r ∷ select wanted db ≡ row ∷ [] = rw hit at e in
        let same : r ≡ row = cc in
        rw (← same)
          (rw (==_refl (columns.id r), (==_iff (columns.user_id r) user_id).1 (mine r hit)) refl)
    | inr miss ↦
        let found = only-owned db row keyed.1 (rw miss at e) in
        let apart =
          (owned_row-found columns (λ s. (columns.id r == columns.id s) ≡ false) user_id
            (columns.id row) db row keyed.0 found).0 in
        rw apart found
  ]

  pub one-owned :
      (db : List A)
      → IsKeyed columns db
      → Ensures
          (λ found.
            (row : A) → found ≡ some row → owned_row columns user_id (columns.id row) db ≡ some row)
          (scalar_one_or_none (select wanted db))
  unfolding tokens_program
  one-owned db keyed = one (select wanted db) refl
    where
      one :
          (rows : List A)
          → select wanted db ≡ rows
          → Ensures
              (λ found.
                (row : A)
                → found ≡ some row
                → owned_row columns user_id (columns.id row) db ≡ some row)
              (scalar_one_or_none rows)
      one [] e = λ row found. cc
      one (r ∷ []) e = λ row found. only-owned db row keyed (cc)
      one (x ∷ y ∷ rows) e = tt
