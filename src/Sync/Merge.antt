-- ===== src/Sync/Merge.antt =====
-- The operations of Backend/app/services/batch_sync_service.py on a table of tasks.
pub mod Keeps
pub mod Batch
pub mod Stale
pub mod Replay
use life_merge.Base.{
  ℕ, suc, Bool, true, false, Option, none, some, List, [], ◌∷◌, String, str_eq, ◌==◌, leb,
  if◌then◌else◌,
}
use life_merge.Base.Result.{Result, ok, raise, ◌>>=◌}
use life_merge.Planner.Time.{DateTime, utc, to_utc}
use life_merge.Sync.{
  Entity, Action, TaskRow, Table, TaskData, BatchSyncOperation, BatchSyncResult, applied, skipped,
  unsupported, error, task, event, finance, upsert, delete, got, assigned, missing, value, null,
  Field, is_allowed, status_of, normalize_optional_dt, normalize_created, answer, conflict, or_text,
  DateValue,
}

-- `data.get("status", task.status if task else "todo")`
pub wanted_status : TaskData → Option TaskRow → Option String
wanted_status fields row = assigned (status_of row) fields.status

-- The value of `due_at` after the loop over the fields.
pub assigned_due : Option DateTime → Field DateValue → Result (Option DateTime)
assigned_due old missing = ok old
assigned_due old null = normalize_optional_dt none
assigned_due old (value d) = normalize_optional_dt (some d)

-- The loop over the fields, which meets no status that is not allowed, and `task.updated_at`.
pub assign : TaskData → ℕ → TaskRow → Option DateTime → TaskRow
assign fields updated_at row due = record row {
  title = assigned row.title fields.title;
  description = assigned row.description fields.description;
  goal_id = assigned row.goal_id fields.goal_id;
  due_at = due;
  priority = assigned row.priority fields.priority;
  estimated_minutes = assigned row.estimated_minutes fields.estimated_minutes;
  energy_level = assigned row.energy_level fields.energy_level;
  status = assigned row.status fields.status;
  deleted = assigned row.deleted fields.deleted;
  updated_at = utc updated_at;
}

-- `Task(...)`; `id` is the operation's, or a new one.
pub new_row : ℕ → ℕ → TaskData → String → Option String → ℕ → Option DateTime → DateTime → TaskRow
new_row id user_id fields title status updated_at due created = record {
  id = id;
  user_id = user_id;
  title = some title;
  description = got fields.description;
  goal_id = got fields.goal_id;
  due_at = due;
  priority = got fields.priority;
  estimated_minutes = got fields.estimated_minutes;
  energy_level = got fields.energy_level;
  status = or_text status "todo";
  created_at = created;
  updated_at = utc updated_at;
  deleted = elim fields.deleted [ missing ↦ some false | null ↦ some false | value b ↦ some b ];
}

pub title_required : BatchSyncOperation → BatchSyncResult
title_required op = answer op op.id error (some "Title is required for creating tasks") none

module _ (table : Table) where
  open table use {Db, find, add, flush}

  abbrev pub Step : Type 0
  Step = Result (BatchSyncResult × Db)

  pub create_row : Db → BatchSyncOperation → TaskRow → Step
  create_row db op row = add db row >>= λ db'.
      flush db' row >>= λ db''. ok (answer op (some row.id) applied none (some row), db'')

  pub update_row : Db → BatchSyncOperation → TaskRow → Step
  update_row db op row =
      flush db row >>= λ db'. ok (answer op (some row.id) applied none (some row), db')

  pub create_task :
      Db → ℕ → BatchSyncOperation → TaskData → ℕ → ℕ → Option String → Option String → Step
  create_task db user_id op fields updated_at fresh status none = ok (title_required op, db)
  create_task db user_id op fields updated_at fresh status (some title) =
      if str_eq title ""
      then ok (title_required op, db)
      else normalize_optional_dt (got fields.due_at) >>= λ due.
          normalize_created (got fields.created_at) updated_at >>= λ created. create_row db op (
            new_row (elim op.id [ none ↦ fresh | some i ↦ i ]) user_id fields title status
              updated_at due created)

  pub change_task : Db → BatchSyncOperation → TaskData → ℕ → TaskRow → Step
  change_task db op fields updated_at row =
      if leb updated_at (to_utc row.updated_at)
      then ok (conflict op row, db)
      else assigned_due row.due_at fields.due_at >>= λ due.
          update_row db op (assign fields updated_at row due)

  pub upsert_data : Db → ℕ → Option TaskRow → BatchSyncOperation → TaskData → ℕ → ℕ → Step
  upsert_data db user_id row op fields updated_at fresh =
      if is_allowed (wanted_status fields row)
      then (elim row [
        | none ↦
            create_task db user_id op fields updated_at fresh (wanted_status fields none)
              (got fields.title)
        | some r ↦ change_task db op fields updated_at r
      ])
      else ok (answer op op.id error (some "Unsupported status value") none, db)

  pub upsert_payload : Db → ℕ → Option TaskRow → BatchSyncOperation → ℕ → ℕ → Option TaskData → Step
  upsert_payload db user_id row op updated_at fresh none =
      ok (answer op op.id error (some "Missing data for upsert") none, db)
  upsert_payload db user_id row op updated_at fresh (some fields) =
      upsert_data db user_id row op fields updated_at fresh

  -- `_apply_task_upsert`
  pub apply_task_upsert : Db → ℕ → Option TaskRow → BatchSyncOperation → ℕ → ℕ → Step
  apply_task_upsert db user_id row op updated_at fresh =
      upsert_payload db user_id row op updated_at fresh op.payload

  pub delete_found : Db → BatchSyncOperation → ℕ → TaskRow → Step
  delete_found db op updated_at row =
      if leb updated_at (to_utc row.updated_at)
      then ok (conflict op row, db)
      else update_row db op (record row { deleted = some true; updated_at = utc updated_at })

  pub delete_id : Db → BatchSyncOperation → ℕ → Option TaskRow → Option ℕ → Step
  delete_id db op updated_at row none =
      ok (answer op none error (some "Task id is required for delete") none, db)
  delete_id db op updated_at none (some i) =
      ok (answer op (some i) skipped (some "Task not found") none, db)
  delete_id db op updated_at (some row) (some i) = delete_found db op updated_at row

  -- `_apply_task_delete`
  pub apply_task_delete : Db → Option TaskRow → BatchSyncOperation → ℕ → Step
  apply_task_delete db row op updated_at = delete_id db op updated_at row op.id

  pub owned_by : ℕ → Option TaskRow → Option TaskRow
  owned_by user_id none = none
  owned_by user_id (some row) = if row.user_id == user_id then some row else none

  -- `select(Task).where(Task.id == op.id, Task.user_id == user_id)`, if there is an `op.id`.
  pub select_task : Db → ℕ → Option ℕ → Option TaskRow
  select_task db user_id none = none
  select_task db user_id (some i) = owned_by user_id (find db i)

  pub process_action : Db → ℕ → Option TaskRow → BatchSyncOperation → ℕ → Action → Step
  process_action db user_id row op fresh delete = apply_task_delete db row op (to_utc op.updated_at)
  process_action db user_id row op fresh upsert =
      apply_task_upsert db user_id row op (to_utc op.updated_at) fresh

  -- `_process_task_operation`; `fresh` is the `uuid4()` that a new task may take.
  pub process_task_operation : Db → ℕ → BatchSyncOperation → ℕ → Step
  process_task_operation db user_id op fresh =
      process_action db user_id (select_task db user_id op.id) op fresh op.action

  pub process_entity : Db → ℕ → BatchSyncOperation → ℕ → Entity → Step
  process_entity db user_id op fresh task = process_task_operation db user_id op fresh
  process_entity db user_id op fresh event =
      ok (answer op op.id unsupported (some "Unsupported entity type") none, db)
  process_entity db user_id op fresh finance =
      ok (answer op op.id unsupported (some "Unsupported entity type") none, db)

  -- One round of the loop over the operations.
  pub process_operation : Db → ℕ → BatchSyncOperation → ℕ → Step
  process_operation db user_id op fresh = process_entity db user_id op fresh op.entity

  -- `process_batch_operations`; `uuid n` is the identifier that round `n` may take.
  pub process_batch_operations :
      (ℕ → ℕ) → ℕ → Db → ℕ → List BatchSyncOperation → Result (List BatchSyncResult × Db)
  process_batch_operations uuid n db user_id [] = ok ([], db)
  process_batch_operations uuid n db user_id (op ∷ ops) =
      process_operation db user_id op (uuid n) >>= λ (result, db').
      process_batch_operations uuid (suc n) db' user_id ops >>= λ (results, db'').
      ok (result ∷ results, db'')

-- Opens the whole of this component, for evaluation.
unfoldable pub merge_program : Unit {0}
unfolding wanted_status assigned_due assign new_row title_required create_row update_row create_task
    change_task upsert_data upsert_payload apply_task_upsert delete_found delete_id
    apply_task_delete owned_by select_task process_action process_task_operation process_entity
    process_operation process_batch_operations
merge_program = tt
