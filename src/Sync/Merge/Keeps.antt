-- ===== src/Sync/Merge/Keeps.antt =====
-- What a batch of Backend/app/services/batch_sync_service.py leaves of the rows that it finds.
use life_merge.Base.{
  ℕ, ◌≤◌, ◌≡◌, refl, sym, ap, ◌∙◌, inl, inr, subst, some_eq, ==_refl, true, false, Option, none,
  some, String, str_eq, ◌==◌, ==_iff, leb, leb-false, if◌then◌else◌, arith, Bool-cases,
}
use life_merge.Base.Result.{Result, ok, >>=-eq-ok, ok_inj}
use life_merge.Planner.Time.{utc, to_utc}
use life_merge.Sync.{
  TaskRow, Table, IsTable, TaskData, BatchSyncOperation, BatchSyncResult, got,
  normalize_optional_dt, normalize_created,
}
use life_merge.Sync.Merge.{
  assigned_due, assign, create_row, update_row, create_task, change_task, delete_found,
}

-- What a user's batch may make of a row.
pub record Kept (user_id : ℕ) (old new : TaskRow) : Type 0 where
  pub foreign : (old.user_id == user_id) ≡ false → new ≡ old
  pub same_id : new.id ≡ old.id
  pub same_user : new.user_id ≡ old.user_id
  pub same_created : new.created_at ≡ old.created_at
  pub not_older : to_utc old.updated_at ≤ to_utc new.updated_at

Kept-refl : (user_id : ℕ) (row : TaskRow) → Kept user_id row row
Kept-refl user_id row = record {
  foreign = λ h. refl;
  same_id = refl;
  same_user = refl;
  same_created = refl;
  not_older = omega arith;
}

Kept-trans :
    (user_id : ℕ) (a b c : TaskRow) → Kept user_id a b → Kept user_id b c → Kept user_id a c
Kept-trans user_id a b c h k = record {
  foreign = λ f. k.foreign (rw h.same_user f) ∙ h.foreign f;
  same_id = k.same_id ∙ h.same_id;
  same_user = k.same_user ∙ h.same_user;
  same_created = k.same_created ∙ h.same_created;
  not_older = omega (arith, h.not_older, k.not_older);
}

not_both :
    (user_id : ℕ) (row old : TaskRow) {found : Option TaskRow}
    → found ≡ none
    → found ≡ some old
    → Kept user_id old row
not_both user_id row old e f = cc

module _ (table : Table) (laws : IsTable table) (user_id : ℕ) where
  open table use {Db, find, add, flush}

  abbrev pub Keeps : Db → Db → Type 0
  Keeps db db' =
      (i : ℕ) (old : TaskRow)
      → find db i ≡ some old
      → (new : TaskRow) × (find db' i ≡ some new) × Kept user_id old new

  pub Keeps-refl : (db : Db) → Keeps db db
  Keeps-refl db i old h = (old, h, Kept-refl user_id old)

  pub Keeps-trans : (a b c : Db) → Keeps a b → Keeps b c → Keeps a c
  Keeps-trans a b c h k i old f =
      let (mid, g, x) = h i old f in
      let (new, g', y) = k i mid g in (new, g', Kept-trans user_id old mid new x y)

  written-Keeps :
      (db db' : Db) (row : TaskRow)
      → ((i : ℕ) → find db' i ≡ (if row.id == i then some row else find db i))
      → ((old : TaskRow) → find db row.id ≡ some old → Kept user_id old row)
      → Keeps db db'
  written-Keeps db db' row w k i old f = elim (Bool-cases (row.id == i)) [
    | inl e ↦
        let same = (==_iff row.id i).0 e in
        (row, w i ∙ rw e refl, k old (ap (λ j. find db j) same ∙ f))
    | inr e ↦ (old, w i ∙ rw e f, Kept-refl user_id old)
  ]

  pub same-Keeps :
      (db db' : Db) (s r : BatchSyncResult)
      → Path (Result (BatchSyncResult × Db)) (ok (s, db)) (ok (r, db'))
      → Keeps db db'
  same-Keeps db db' s r e = subst (λ x. Keeps db x.1) (ok_inj e) (Keeps-refl db)

  update_row-Keeps :
      (db db' : Db) (op : BatchSyncOperation) (old row : TaskRow) (r : BatchSyncResult)
      → find db row.id ≡ some old
      → Kept user_id old row
      → update_row table db op row ≡ ok (r, db')
      → Keeps db db'
  unfolding update_row
  update_row-Keeps db db' op old row r f k e =
      let (mid, g, h) = >>=-eq-ok (flush db row) _ e in
      let moved =
        written-Keeps db mid row (laws.find-flush db mid row g)
          (λ o p. subst (λ x. Kept user_id x row) (some_eq (sym f ∙ p)) k) in
      subst (λ x. Keeps db x.1) (ok_inj h) moved

  create_row-Keeps :
      (db db' : Db) (op : BatchSyncOperation) (row : TaskRow) (r : BatchSyncResult)
      → create_row table db op row ≡ ok (r, db')
      → Keeps db db'
  unfolding create_row
  create_row-Keeps db db' op row r e =
      let (mid, g, h) = >>=-eq-ok (add db row) _ e in
      let (last, g', h') = >>=-eq-ok (flush mid row) _ h in
      let here : find mid row.id ≡ some row = laws.find-add db mid row g row.id ∙ rw ==_refl refl in
      let added =
        written-Keeps db mid row (laws.find-add db mid row g)
          (λ o p. not_both user_id row o (laws.add-fresh db mid row g) p) in
      let moved =
        written-Keeps mid last row (laws.find-flush mid last row g') (λ o p.
          subst (λ x. Kept user_id x row) (some_eq (sym here ∙ p)) (Kept-refl user_id row)) in
      subst (λ x. Keeps db x.1) (ok_inj h') (Keeps-trans db mid last added moved)

  pub create_task-Keeps :
      (db db' : Db) (op : BatchSyncOperation) (fields : TaskData) (updated_at fresh : ℕ)
      (status title : Option String) (r : BatchSyncResult)
      → create_task table db user_id op fields updated_at fresh status title ≡ ok (r, db')
      → Keeps db db'
  unfolding create_task
  create_task-Keeps db db' op fields updated_at fresh status none r e = same-Keeps db db' _ r e
  create_task-Keeps db db' op fields updated_at fresh status (some title) r e =
      elim (Bool-cases (str_eq title "")) [
        | inl t ↦ same-Keeps db db' _ r (rw t at e)
        | inr t ↦
            let (due, g, h) = >>=-eq-ok (normalize_optional_dt (got fields.due_at)) _ (rw t at e) in
            let (created, g', h') =
              >>=-eq-ok (normalize_created (got fields.created_at) updated_at) _ h in
            create_row-Keeps db db' op _ r h'
      ]

  foreign_absurd :
      (old new : TaskRow)
      → (old.user_id == user_id) ≡ true
      → (old.user_id == user_id) ≡ false
      → new ≡ old
  foreign_absurd old new h k = cc

  pub change_task-Keeps :
      (db db' : Db) (op : BatchSyncOperation) (fields : TaskData) (updated_at : ℕ) (row : TaskRow)
      (r : BatchSyncResult)
      → find db row.id ≡ some row
      → (row.user_id == user_id) ≡ true
      → change_task table db op fields updated_at row ≡ ok (r, db')
      → Keeps db db'
  unfolding change_task assign
  change_task-Keeps db db' op fields updated_at row r f own e =
      elim (Bool-cases (leb updated_at (to_utc row.updated_at))) [
        | inl t ↦ same-Keeps db db' _ r (rw t at e)
        | inr t ↦
            let (due, g, h) = >>=-eq-ok (assigned_due row.due_at fields.due_at) _ (rw t at e) in
            update_row-Keeps db db' op row (assign fields updated_at row due) r f
              (record {
                foreign = foreign_absurd row (assign fields updated_at row due) own;
                same_id = refl;
                same_user = refl;
                same_created = refl;
                not_older = omega (arith, leb-false updated_at (to_utc row.updated_at) t);
              })
              h
      ]

  pub delete_found-Keeps :
      (db db' : Db) (op : BatchSyncOperation) (updated_at : ℕ) (row : TaskRow) (r : BatchSyncResult)
      → find db row.id ≡ some row
      → (row.user_id == user_id) ≡ true
      → delete_found table db op updated_at row ≡ ok (r, db')
      → Keeps db db'
  unfolding delete_found
  delete_found-Keeps db db' op updated_at row r f own e =
      let gone = record row { deleted = some true; updated_at = utc updated_at } in
      elim (Bool-cases (leb updated_at (to_utc row.updated_at))) [
        | inl t ↦ same-Keeps db db' _ r (rw t at e)
        | inr t ↦
            update_row-Keeps db db' op row gone r f
              (record {
                foreign = foreign_absurd row gone own;
                same_id = refl;
                same_user = refl;
                same_created = refl;
                not_older = omega (arith, leb-false updated_at (to_utc row.updated_at) t);
              })
              (rw t at e)
      ]
