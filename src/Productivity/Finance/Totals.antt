-- ===== src/Productivity/Finance/Totals.antt =====
-- Backend/app/api/v1/productivity.py: a transaction that is deleted and the totals of the summaries.
use life_merge.Base.{
  ℕ, sym, ◌∙◌, ==_iff, not, ◌≡◌, refl, ap, true, false, ◌&&◌, some, List, [], ◌∷◌, String, arith,
  ◌==◌, ==_refl, All, select, subst, inl, inr, Bool-cases, and_true, some_eq,
}
use life_merge.Base.Result.{ok, Ensures}
use life_merge.Repositories.{owned_by}
use life_merge.Repositories.Models.{FinanceTransaction, finance_transaction_columns}
use life_merge.Productivity.{owned_row, check_live, live_row, not_found, save, productivity_program}
use life_merge.Productivity.Rows.{IsKeyed, owned_row-found, live_row-found}
use life_merge.Productivity.Finance.{Floats, delete_found, delete_transaction, finance_summary}

-- The row as `delete_transaction` leaves it.
abbrev gone : ℕ → FinanceTransaction → FinanceTransaction
gone now t = record t { deleted = true; updated_at = now }

module _ (now user_id tx_id : ℕ) (t : FinanceTransaction) where
  save-absent :
      (db : List FinanceTransaction)
      → All (λ r. (t.id == r.id) ≡ false) db
      → save finance_transaction_columns (gone now t) db ≡ db
  unfolding productivity_program
  save-absent [] h = refl
  save-absent (r ∷ db) h =
      let apart : (r.id == t.id) ≡ false = ground (arith, h.0) in
      rw apart (ap (λ rest. r ∷ rest) (save-absent db h.1))

  owned_row-gone :
      (db : List FinanceTransaction)
      → IsKeyed finance_transaction_columns db
      → owned_row finance_transaction_columns user_id tx_id db ≡ some t
      → owned_row finance_transaction_columns user_id tx_id
          (save finance_transaction_columns (gone now t) db)
        ≡ some (gone now t)
  unfolding productivity_program
  owned_row-gone [] keyed e = cc
  owned_row-gone (r ∷ db) keyed e = elim (Bool-cases ((r.id == tx_id) && (r.user_id == user_id))) [
    | inl hit ↦
        let same : r ≡ t = some_eq (rw hit at e) in
        let found : ((t.id == tx_id) && (t.user_id == user_id)) ≡ true =
          subst (λ s. ((s.id == tx_id) && (s.user_id == user_id)) ≡ true) same hit in
        rw same (rw (==_refl t.id, found) refl)
    | inr miss ↦
        let later : owned_row finance_transaction_columns user_id tx_id db ≡ some t =
          rw miss at e in
        let apart : (r.id == t.id) ≡ false =
          (owned_row-found finance_transaction_columns (λ s. (r.id == s.id) ≡ false) user_id tx_id
            db t keyed.0 later).0 in
        rw (apart, miss) (owned_row-gone db keyed.1 later)
  ]

  -- What is left of a table without the transaction's key.
  select-absent :
      (db : List FinanceTransaction)
      → t.id ≡ tx_id
      → All (λ r. (t.id == r.id) ≡ false) db
      → select (λ r. not (r.id == tx_id)) db ≡ db
  select-absent [] at h = refl
  select-absent (r ∷ db) at h =
      let apart : (r.id == tx_id) ≡ false = rw (← at) (ground (arith, h.0)) in
      rw apart (ap (λ rest. r ∷ rest) (select-absent db at h.1))

  select-gone :
      (db : List FinanceTransaction)
      → t.id ≡ tx_id
      → t.deleted ≡ false
      → IsKeyed finance_transaction_columns db
      → owned_row finance_transaction_columns user_id tx_id db ≡ some t
      → select
          (owned_by finance_transaction_columns user_id)
          (save finance_transaction_columns (gone now t) db)
        ≡ select
            (owned_by finance_transaction_columns user_id)
            (select (λ r. not (r.id == tx_id)) db)
  unfolding productivity_program
  select-gone [] at live keyed e = cc
  select-gone (r ∷ db) at live keyed e =
      elim (Bool-cases ((r.id == tx_id) && (r.user_id == user_id))) [
        | inl hit ↦
            let same : r ≡ t = some_eq (rw hit at e) in
            let apart = subst (λ s. All (λ q. (s.id == q.id) ≡ false) db) same keyed.0 in
            let mine : (t.id == tx_id) ≡ true =
              subst (λ s. (s.id == tx_id) ≡ true) same (and_true _ _ hit).0 in
            let owner : (t.user_id == user_id) ≡ true =
              subst (λ s. (s.user_id == user_id) ≡ true) same (and_true _ _ hit).1 in
            rw same
              (rw (==_refl t.id, mine, owner, save-absent db apart, select-absent db at apart) refl)
        | inr miss ↦
            let later : owned_row finance_transaction_columns user_id tx_id db ≡ some t =
              rw miss at e in
            let apart =
              (owned_row-found finance_transaction_columns (λ s. (r.id == s.id) ≡ false) user_id
                tx_id db t keyed.0 later).0 in
            let other : (r.id == tx_id) ≡ false = rw (← at) apart in
            ground (arith, apart, other, select-gone db at live keyed.1 later)
      ]

  found-id :
      (db : List FinanceTransaction)
      → owned_row finance_transaction_columns user_id tx_id db ≡ some t
      → t.id ≡ tx_id
  unfolding productivity_program
  found-id [] e = cc
  found-id (r ∷ db) e = elim (Bool-cases ((r.id == tx_id) && (r.user_id == user_id))) [
    | inl hit ↦
        let same : r ≡ t = some_eq (rw hit at e) in
        ap (λ s. s.id) (sym same) ∙ (==_iff r.id tx_id).0 (and_true _ _ hit).0
    | inr miss ↦ found-id db (rw miss at e)
  ]

live_row-owned :
    (user_id tx_id : ℕ) (db : List FinanceTransaction) (t : FinanceTransaction)
    → live_row finance_transaction_columns user_id tx_id db ≡ ok t
    → (owned_row finance_transaction_columns user_id tx_id db ≡ some t) × (t.deleted ≡ false)
live_row-owned user_id tx_id db t live =
    subst
      (Ensures (λ row.
        (owned_row finance_transaction_columns user_id tx_id db ≡ some row)
        × (row.deleted ≡ false)))
      live (live_row-found finance_transaction_columns user_id tx_id db)

-- A transaction that is not deleted is deleted on its owner's request, and is not found by a change
-- from then on. The summary of any month is then what it would be if the transaction had never been in
-- the table, and is the same for every month but for the name, since the month is not looked at. No
-- other transaction has the key.
pub finance_summary-delete_transaction :
    {F : Type 0} (floats : Floats F) (now user_id tx_id : ℕ) (month other_month : String)
    (budgets : List (ℕ × String × ℕ)) (t : FinanceTransaction) (db : List FinanceTransaction)
    → IsKeyed finance_transaction_columns db
    → live_row finance_transaction_columns user_id tx_id db ≡ ok t
    → (after : List FinanceTransaction) × (delete_transaction now user_id tx_id db ≡ ok after)
      × (live_row finance_transaction_columns user_id tx_id after ≡ not_found)
      × (finance_summary floats user_id month budgets after
          ≡ record (finance_summary floats user_id other_month budgets
              (select (λ r. not (r.id == tx_id)) db)) { month = month })
unfolding live_row check_live delete_transaction delete_found finance_summary
finance_summary-delete_transaction floats now user_id tx_id month other_month budgets t db keyed
      live =
    let (found, is_live) = live_row-owned user_id tx_id db t live in
    let at = found-id now user_id tx_id t db found in
    (
      save finance_transaction_columns (gone now t) db,
      rw found refl,
      rw (owned_row-gone now user_id tx_id t db keyed found) refl,
      rw (select-gone now user_id tx_id t db at is_live keyed found) refl,
    )
