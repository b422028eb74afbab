-- ===== src/Sync/Merge/Batch.antt =====
-- What a whole batch of Backend/app/services/batch_sync_service.py leaves of the table.
use life_merge.Base.{
  ℕ, suc, ◌≡◌, refl, ap, ◌∙◌, inl, inr, subst, some_eq, true, Option, none, some, List, [], ◌∷◌,
  ◌==◌, Bool-cases, Option-cases,
}
use life_merge.Base.Result.{ok, >>=-eq-ok, ok_inj}
use life_merge.Planner.Time.{to_utc}
use life_merge.Sync.{
  TaskRow, Table, IsTable, TaskData, Entity, Action, BatchSyncOperation, BatchSyncResult, task,
  event, finance, upsert, delete, is_allowed,
}
use life_merge.Sync.Merge.{
  wanted_status, upsert_data, apply_task_upsert, upsert_payload, delete_id, process_action,
  process_entity, apply_task_delete, owned_by, select_task, process_task_operation,
  process_operation, process_batch_operations,
}
use life_merge.Sync.Merge.Keeps.{
  Kept, Keeps, Keeps-refl, Keeps-trans, same-Keeps, create_task-Keeps, change_task-Keeps,
  delete_found-Keeps,
}

module _ (table : Table) (laws : IsTable table) (user_id : ℕ) where
  open table use {Db, find, add, flush}

  -- What the service knows of a row that it has selected.
  pub IsSelected : Db → Option TaskRow → Type 0
  IsSelected db found =
      (row : TaskRow)
      → found ≡ some row
      → (find db row.id ≡ some row) × ((row.user_id == user_id) ≡ true)

  pub owned_by-eq :
      (found : Option TaskRow) (row : TaskRow)
      → owned_by table user_id found ≡ some row
      → (found ≡ some row) × ((row.user_id == user_id) ≡ true)
  unfolding owned_by
  owned_by-eq none row e = cc
  owned_by-eq (some r) row e = elim (Bool-cases (r.user_id == user_id)) [
    | inl t ↦
        let same : r ≡ row = some_eq (rw t at e) in
        (ap some same, subst (λ x. (x.user_id == user_id) ≡ true) same t)
    | inr t ↦ let no : Option.none ≡ some row = rw t at e in cc
  ]

  pub select_task-IsSelected :
      (db : Db) (id : Option ℕ) → IsSelected db (select_task table db user_id id)
  unfolding select_task IsSelected
  select_task-IsSelected db none row e = cc
  select_task-IsSelected db (some i) row e =
      let (f, own) = owned_by-eq (find db i) row e in
      (ap (find db) (laws.find-id db i row f) ∙ f, own)

  upsert_data-Keeps :
      (db db' : Db) (found : Option TaskRow) (op : BatchSyncOperation) (fields : TaskData)
      (updated_at fresh : ℕ) (r : BatchSyncResult)
      → IsSelected db found
      → upsert_data table db user_id found op fields updated_at fresh ≡ ok (r, db')
      → Keeps table laws user_id db db'
  unfolding upsert_data IsSelected
  upsert_data-Keeps db db' found op fields updated_at fresh r s e =
      elim (Bool-cases (is_allowed (wanted_status fields found))) [
        | inr t ↦ same-Keeps table laws user_id db db' _ r (rw t at e)
        | inl t ↦ elim (Option-cases found) [
          | inl n ↦
              create_task-Keeps table laws user_id db db' op fields updated_at fresh _ _ r
                (rw n at (rw t at e))
          | inr (row, n) ↦
              change_task-Keeps table laws user_id db db' op fields updated_at row r (s row n).0
                (s row n).1 (rw n at (rw t at e))
        ]
      ]

  upsert-Keeps :
      (db db' : Db) (found : Option TaskRow) (op : BatchSyncOperation) (updated_at fresh : ℕ)
      (payload : Option TaskData) (r : BatchSyncResult)
      → IsSelected db found
      → upsert_payload table db user_id found op updated_at fresh payload ≡ ok (r, db')
      → Keeps table laws user_id db db'
  unfolding upsert_payload
  upsert-Keeps db db' found op updated_at fresh none r s e =
      same-Keeps table laws user_id db db' _ r e
  upsert-Keeps db db' found op updated_at fresh (some fields) r s e =
      upsert_data-Keeps db db' found op fields updated_at fresh r s e

  delete-Keeps :
      (db db' : Db) (found : Option TaskRow) (op : BatchSyncOperation) (updated_at : ℕ)
      (id : Option ℕ) (r : BatchSyncResult)
      → IsSelected db found
      → delete_id table db op updated_at found id ≡ ok (r, db')
      → Keeps table laws user_id db db'
  unfolding delete_id IsSelected
  delete-Keeps db db' found op updated_at none r s e = same-Keeps table laws user_id db db' _ r e
  delete-Keeps db db' none op updated_at (some i) r s e = same-Keeps table laws user_id db db' _ r e
  delete-Keeps db db' (some row) op updated_at (some i) r s e =
      delete_found-Keeps table laws user_id db db' op updated_at row r (s row refl).0 (s row refl).1
        e

  action-Keeps :
      (db db' : Db) (found : Option TaskRow) (op : BatchSyncOperation) (fresh : ℕ) (action : Action)
      (r : BatchSyncResult)
      → IsSelected db found
      → process_action table db user_id found op fresh action ≡ ok (r, db')
      → Keeps table laws user_id db db'
  unfolding process_action apply_task_upsert apply_task_delete
  action-Keeps db db' found op fresh upsert r s e =
      upsert-Keeps db db' found op (to_utc op.updated_at) fresh op.payload r s e
  action-Keeps db db' found op fresh delete r s e =
      delete-Keeps db db' found op (to_utc op.updated_at) op.id r s e

  entity-Keeps :
      (db db' : Db) (op : BatchSyncOperation) (fresh : ℕ) (entity : Entity) (r : BatchSyncResult)
      → process_entity table db user_id op fresh entity ≡ ok (r, db')
      → Keeps table laws user_id db db'
  unfolding process_entity process_task_operation
  entity-Keeps db db' op fresh task r e =
      action-Keeps db db' _ op fresh op.action r (select_task-IsSelected db op.id) e
  entity-Keeps db db' op fresh event r e = same-Keeps table laws user_id db db' _ r e
  entity-Keeps db db' op fresh finance r e = same-Keeps table laws user_id db db' _ r e

  batch-Keeps :
      (uuid : ℕ → ℕ) (n : ℕ) (db db' : Db) (ops : List BatchSyncOperation)
      (results : List BatchSyncResult)
      → process_batch_operations table uuid n db user_id ops ≡ ok (results, db')
      → Keeps table laws user_id db db'
  unfolding process_batch_operations process_operation
  batch-Keeps uuid n db db' [] results e =
      subst (λ x. Keeps table laws user_id db x.1) (ok_inj e) (Keeps-refl table laws user_id db)
  batch-Keeps uuid n db db' (op ∷ ops) results e =
      let ((r, mid), g, h) = >>=-eq-ok (process_operation table db user_id op (uuid n)) _ e in
      let ((rs, last), g', h') =
        >>=-eq-ok (process_batch_operations table uuid (suc n) mid user_id ops) _ h in
      subst (λ x. Keeps table laws user_id db x.1) (ok_inj h')
        (Keeps-trans table laws user_id db mid last (entity-Keeps db mid op (uuid n) op.entity r g)
          (batch-Keeps uuid (suc n) mid last ops rs g'))

  -- A batch that returns loses no row: a row that was in the table is found under its key, with its
  -- owner and date of creation, changed no earlier than before, and as it was if it is another
  -- user's.
  pub process_batch_operations-Kept :
      (uuid : ℕ → ℕ) (n : ℕ) (db db' : Db) (ops : List BatchSyncOperation)
      (results : List BatchSyncResult)
      → process_batch_operations table uuid n db user_id ops ≡ ok (results, db')
      → (i : ℕ) (old : TaskRow) → find db i ≡ some old
      → (new : TaskRow) × (find db' i ≡ some new) × Kept user_id old new
  process_batch_operations-Kept uuid n db db' ops results e =
      batch-Keeps uuid n db db' ops results e
