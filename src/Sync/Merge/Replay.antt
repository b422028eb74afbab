-- ===== src/Sync/Merge/Replay.antt =====
-- A client that repeats a change which Backend/app/services/batch_sync_service.py has applied.
use life_merge.Base.{
  ℕ, ◌≡◌, refl, sym, ap, ◌∙◌, subst, ==_refl, ==_iff, true, Option, none, some, String, str_eq, leb,
  arith, inl, inr, Bool-cases, Option-cases,
}
use life_merge.Base.Result.{Result, ok, >>=-eq-ok, ok_inj}
use life_merge.Planner.Time.{DateTime, to_utc}
use life_merge.Sync.{
  TaskRow, Table, IsTable, TaskData, Field, missing, null, value, BatchSyncOperation,
  BatchSyncResult, is_allowed, assigned, or_text, applied, error, skipped, conflict, got,
  normalize_optional_dt, normalize_created,
}
use life_merge.Sync.Merge.{
  wanted_status, update_row, create_row, create_task, change_task, upsert_data, upsert_payload,
  apply_task_upsert, owned_by, select_task, new_row, assign, title_required, process_task_operation,
  process_action, process_entity, process_operation, assigned_due,
}
use life_merge.Sync.Merge.Batch.{owned_by-eq}
use life_merge.Sync.Merge.Stale.{upsert_op, process_operation-stale}

-- The status that an upsert leaves is allowed again, when the same upsert meets it.
assigned_again :
    (old : Option String) (field : Field String)
    → is_allowed (assigned old field) ≡ true
    → is_allowed (assigned (assigned old field) field) ≡ true
assigned_again old missing h = h
assigned_again old null h = h
assigned_again old (value s) h = h

created_again :
    (field : Field String)
    → is_allowed (assigned (some "todo") field) ≡ true
    → is_allowed (assigned (or_text (assigned (some "todo") field) "todo") field) ≡ true
created_again missing h = refl
created_again null h = refl
created_again (value s) h = h

module _ (table : Table) (laws : IsTable table) (user_id i : ℕ) (fields : TaskData)
    (updated_at : DateTime) where
  open table use {Db, find, add, flush}

  -- The table holds the user's row that the upsert has left.
  IsLanded : Db → TaskRow → Type 0
  IsLanded db row =
      (find db i ≡ some row)
      × (row.user_id ≡ user_id)
      × (to_utc row.updated_at ≡ to_utc updated_at)
      × (is_allowed (wanted_status fields (some row)) ≡ true)

  still_applied :
      (s r : BatchSyncResult) (db db' : Db)
      → Path (Result (BatchSyncResult × Db)) (ok (s, db)) (ok (r, db'))
      → r.status ≡ applied
      → s.status ≡ applied
  still_applied s r db db' e h = ap (λ x. x.0.status) (ok_inj e) ∙ h

  update_row-find :
      (db db' : Db) (op : BatchSyncOperation) (row : TaskRow) (r : BatchSyncResult)
      → update_row table db op row ≡ ok (r, db')
      → find db' row.id ≡ some row
  unfolding update_row
  update_row-find db db' op row r e =
      let (mid, g, h) = >>=-eq-ok (flush db row) _ e in
      subst (λ x. find x.1 row.id ≡ some row) (ok_inj h)
        (laws.find-flush db mid row g row.id ∙ rw ==_refl refl)

  create_row-find :
      (db db' : Db) (op : BatchSyncOperation) (row : TaskRow) (r : BatchSyncResult)
      → create_row table db op row ≡ ok (r, db')
      → find db' row.id ≡ some row
  unfolding create_row update_row
  create_row-find db db' op row r e =
      let (mid, g, h) = >>=-eq-ok (add db row) _ e in update_row-find mid db' op row r h

  create_task-IsLanded :
      (db db' : Db) (fresh : ℕ) (title : Option String) (r : BatchSyncResult)
      → create_task table db user_id
          (upsert_op i fields updated_at)
          fields
          (to_utc updated_at)
          fresh
          (wanted_status fields none)
          title
        ≡ ok (r, db')
      → r.status ≡ applied
      → is_allowed (wanted_status fields none) ≡ true
      → (row : TaskRow) × IsLanded db' row
  unfolding create_task title_required IsLanded new_row wanted_status
  create_task-IsLanded db db' fresh none r e h allowed =
      let no : error ≡ applied = still_applied _ r db db' e h in cc
  create_task-IsLanded db db' fresh (some title) r e h allowed =
      elim (Bool-cases (str_eq title "")) [
        | inl t ↦ let no : error ≡ applied = still_applied _ r db db' (rw t at e) h in cc
        | inr t ↦
            let (due, g, k) = >>=-eq-ok (normalize_optional_dt (got fields.due_at)) _ (rw t at e) in
            let (created, l, m) =
              >>=-eq-ok (normalize_created (got fields.created_at) (to_utc updated_at)) _ k in
            let row =
              new_row i user_id fields title (wanted_status fields none) (to_utc updated_at) due
                created in
            (
              row,
              (create_row-find db db' _ row r m, refl, refl, created_again fields.status allowed),
            )
      ]

  change_task-IsLanded :
      (db db' : Db) (old : TaskRow) (r : BatchSyncResult)
      → change_task table db (upsert_op i fields updated_at) fields (to_utc updated_at) old
        ≡ ok (r, db')
      → r.status ≡ applied
      → old.id ≡ i
      → old.user_id ≡ user_id
      → is_allowed (wanted_status fields (some old)) ≡ true
      → (row : TaskRow) × IsLanded db' row
  unfolding change_task IsLanded assign wanted_status
  change_task-IsLanded db db' old r e h same own allowed =
      elim (Bool-cases (leb (to_utc updated_at) (to_utc old.updated_at))) [
        | inl t ↦ let no : skipped ≡ applied = still_applied _ r db db' (rw t at e) h in cc
        | inr t ↦
            let (due, g, k) = >>=-eq-ok (assigned_due old.due_at fields.due_at) _ (rw t at e) in
            let row = assign fields (to_utc updated_at) old due in
            (
              row,
              (
                ap (find db') (sym same) ∙ update_row-find db db' _ row r k,
                own,
                refl,
                assigned_again old.status fields.status allowed,
              ),
            )
      ]

  upsert-IsLanded :
      (db db' : Db) (fresh : ℕ) (found : Option TaskRow) (r : BatchSyncResult)
      → upsert_data table db user_id found
          (upsert_op i fields updated_at)
          fields
          (to_utc updated_at)
          fresh
        ≡ ok (r, db')
      → r.status ≡ applied
      → owned_by table user_id (find db i) ≡ found
      → (row : TaskRow) × IsLanded db' row
  unfolding upsert_data
  upsert-IsLanded db db' fresh found r e h f =
      elim (Bool-cases (is_allowed (wanted_status fields found))) [
        | inr t ↦ let no : error ≡ applied = still_applied _ r db db' (rw t at e) h in cc
        | inl t ↦ elim (Option-cases found) [
          | inl n ↦ create_task-IsLanded db db' fresh _ r (rw n at (rw t at e)) h (rw n at t)
          | inr (old, n) ↦
              let (here, own) = owned_by-eq table laws user_id (find db i) old (f ∙ n) in
              change_task-IsLanded db db' old r (rw n at (rw t at e)) h (laws.find-id db i old here)
                ((==_iff old.user_id user_id).0 own) (rw n at t)
        ]
      ]

  -- An upsert that was applied and comes again is skipped as a conflict, with the row that it left
  -- for an answer, and changes nothing: whether it had made the task or changed it.
  pub process_operation-replay :
      (db db' : Db) (fresh again : ℕ) (r : BatchSyncResult)
      → process_operation table db user_id (upsert_op i fields updated_at) fresh ≡ ok (r, db')
      → r.status ≡ applied
      → (row : TaskRow) × (find db' i ≡ some row)
        × (process_operation table db' user_id (upsert_op i fields updated_at) again
            ≡ ok (conflict (upsert_op i fields updated_at) row, db'))
  unfolding process_operation process_entity process_task_operation process_action apply_task_upsert
      upsert_payload select_task IsLanded
  process_operation-replay db db' fresh again r e h =
      let (row, (here, own, same, allowed)) = upsert-IsLanded db db' fresh _ r e h refl in
      let old : leb (to_utc updated_at) (to_utc row.updated_at) ≡ true = rw same (ground arith) in
      (
        row,
        here,
        (process_operation-stale table laws user_id db' i again row none fields updated_at here own
            old allowed).1,
      )
