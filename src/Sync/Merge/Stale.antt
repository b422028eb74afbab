-- ===== src/Sync/Merge/Stale.antt =====
-- Which of two writers wins in Backend/app/services/batch_sync_service.py.
use life_merge.Base.{ℕ, ◌≡◌, refl, ==_refl, true, false, Option, some, String, leb}
use life_merge.Base.Result.{ok, attribute_error, raise}
use life_merge.Planner.Time.{DateTime, to_utc}
use life_merge.Sync.{
  TaskRow, Table, IsTable, TaskData, BatchSyncOperation, task, upsert, delete, is_allowed, conflict,
  value, text,
}
use life_merge.Sync.Merge.{
  wanted_status, change_task, upsert_data, upsert_payload, delete_id, apply_task_upsert,
  delete_found, apply_task_delete, owned_by, select_task, process_task_operation, process_action,
  process_entity, process_operation, assigned_due,
}

abbrev pub delete_op : ℕ → Option TaskData → DateTime → BatchSyncOperation
delete_op i payload updated_at = record {
  entity = task;
  action = delete;
  id = some i;
  payload = payload;
  updated_at = updated_at;
}

abbrev pub upsert_op : ℕ → TaskData → DateTime → BatchSyncOperation
upsert_op i fields updated_at = record {
  entity = task;
  action = upsert;
  id = some i;
  payload = some fields;
  updated_at = updated_at;
}

module _ (table : Table) (laws : IsTable table) (user_id : ℕ) where
  open table use {Db, find, add, flush}

  select_task-own :
      (db : Db) (i : ℕ) (row : TaskRow)
      → find db i ≡ some row
      → row.user_id ≡ user_id
      → select_task table db user_id (some i) ≡ some row
  unfolding select_task owned_by
  select_task-own db i row f own = rw f (rw (own, ==_refl) refl)

  -- A change of a task that is not newer than the user's row of that task is skipped as a conflict,
  -- with the row for an answer, and the table stays as it is: a deletion in any case, an upsert if
  -- the status that it sets, or leaves, is allowed.
  pub process_operation-stale :
      (db : Db) (i fresh : ℕ) (row : TaskRow) (payload : Option TaskData) (fields : TaskData)
      (updated_at : DateTime)
      → find db i ≡ some row
      → row.user_id ≡ user_id
      → leb (to_utc updated_at) (to_utc row.updated_at) ≡ true
      → is_allowed (wanted_status fields (some row)) ≡ true
      → (process_operation table db user_id (delete_op i payload updated_at) fresh
          ≡ ok (conflict (delete_op i payload updated_at) row, db))
        × (process_operation table db user_id (upsert_op i fields updated_at) fresh
            ≡ ok (conflict (upsert_op i fields updated_at) row, db))
  unfolding process_operation process_entity process_task_operation process_action apply_task_delete
      apply_task_upsert delete_id delete_found upsert_payload upsert_data change_task
  process_operation-stale db i fresh row payload fields updated_at f own old allowed =
      rw (select_task-own db i row f own) (rw old refl, rw (allowed, old) refl)

  -- An upsert that is newer than the user's row, with a status that is allowed, raises
  -- `AttributeError` if its `due_at` is a text.
  process_operation-due_text :
      (db : Db) (i fresh : ℕ) (row : TaskRow) (fields : TaskData) (due : String)
      (updated_at : DateTime)
      → find db i ≡ some row
      → row.user_id ≡ user_id
      → leb (to_utc updated_at) (to_utc row.updated_at) ≡ false
      → is_allowed (wanted_status fields (some row)) ≡ true
      → fields.due_at ≡ value (text due)
      → process_operation table db user_id (upsert_op i fields updated_at) fresh
        ≡ raise attribute_error
  unfolding process_operation process_entity process_task_operation process_action apply_task_upsert
      upsert_payload upsert_data change_task assigned_due
  process_operation-due_text db i fresh row fields due updated_at f own new allowed d =
      rw (select_task-own db i row f own) (rw (allowed, new, d) refl)
