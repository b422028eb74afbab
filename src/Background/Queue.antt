-- ===== src/Background/Queue.antt =====
-- Backend/app/services/background_tasks.py: `process_sync_queue`, over the table of tasks that
-- Sync has. The rows are those of the table in the order in which the query gives them, which has
-- no order of its own. A flush that fails leaves a session that refuses all that follows, the
-- commit included, so the call raises and nothing of it is written.
pub mod Handled
pub mod Stuck
use life_merge.Base.{
  ℕ, zero, suc, ◌+◌, ◌-◌, ◌*◌, ◌≡◌, Bool, true, false, not, ◌&&◌, ◌||◌, Option, none, some, List,
  [], ◌∷◌, String, str_eq, ltb, leb, if◌then◌else◌,
}
use life_merge.Base.Result.{Error, Result, ok, raise, integrity_error, ◌>>=◌}
use life_merge.Planner.Time.{minute_micros}
use life_merge.Sync.{Table, BatchSyncOperation, BatchSyncResult}
use life_merge.Sync.Merge.{process_batch_operations}

-- `payload` is the JSON of the operation.
pub record SyncOperation (Json : Type 0) : Type 0 where
  pub id : ℕ
  pub user_id : ℕ
  pub entity : String
  pub action : String
  pub payload : Json
  pub status : String
  pub attempts : ℕ
  pub last_error : Option String
  pub scheduled_at : ℕ
  pub updated_at : ℕ
  pub locked : Bool

pub record QueueSettings : Type 0 where
  pub sync_queue_batch_size : ℕ
  pub sync_retry_minutes : ℕ

-- `validate` makes a `BatchSyncOperation` of the row, `now` where it has no date, or raises; `show`
-- is `str` of an exception. `left` is what a call that raised otherwise than by a flush has left in
-- the session, which the commit writes.
pub record Worker (Json : Type 0) (Db : Type 0) : Type 0 where
  pub validate : ℕ → SyncOperation Json → Result BatchSyncOperation
  pub show : Error → String
  pub left : Db → SyncOperation Json → Db

pub is_flush_error : Error → Bool
is_flush_error integrity_error = true
is_flush_error other = false

module _ {Json : Type 0} (table : Table) (worker : Worker Json table.Db) (settings : QueueSettings)
    (uuid : ℕ → ℕ) (finished : ℕ) where
  -- The rows that the query is for: `updated_at <= now - SYNC_RETRY_MINUTES`, and so on.
  pub is_due : ℕ → SyncOperation Json → Bool
  is_due now op =
      (str_eq op.status "pending" || str_eq op.status "error")
      && (leb op.scheduled_at now
          && (not op.locked
              && leb (op.updated_at + settings.sync_retry_minutes * minute_micros) now))

  -- What the `try` and its `finally` leave of the row; `finished` is the clock at the end.
  pub finish : String → Option String → SyncOperation Json → SyncOperation Json
  finish status last_error op = record op {
    status = status;
    last_error = last_error;
    locked = false;
    attempts = op.attempts + 1;
    updated_at = finished;
  }

  -- The body of the `try`.
  pub attempt : ℕ → ℕ → table.Db → SyncOperation Json → Result (List BatchSyncResult × table.Db)
  attempt now n db op = worker.validate now op >>= λ payload.
      process_batch_operations table uuid n db op.user_id (payload ∷ [])

  pub settle :
      table.Db
      → SyncOperation Json
      → Result (List BatchSyncResult × table.Db)
      → Result (SyncOperation Json × table.Db)
  settle db op (ok (results, after)) = ok (finish "done" none op, after)
  settle db op (raise e) =
      if is_flush_error e
      then raise e
      else ok (finish "error" (some (worker.show e)) op, worker.left db op)

  -- The rows that are picked, `limit` at most, one after another; `n` of them are done.
  pub drain :
      ℕ
      → ℕ
      → ℕ
      → table.Db
      → List (SyncOperation Json)
      → Result (List (SyncOperation Json) × table.Db)
  drain now limit n db [] = ok ([], db)
  drain now limit n db (op ∷ ops) =
      let picked = settle db op (attempt now n db op) >>= λ (op', db').
      drain now (limit - 1) (suc n) db' ops >>= λ (rest, after). ok (op' ∷ rest, after) in
      let passed = drain now limit n db ops >>= λ (rest, after). ok (op ∷ rest, after) in
      if is_due now op && ltb 0 limit then picked else passed

  -- `process_sync_queue`
  pub process_sync_queue :
      ℕ → table.Db → List (SyncOperation Json) → Result (List (SyncOperation Json) × table.Db)
  process_sync_queue now db ops = drain now settings.sync_queue_batch_size 0 db ops

-- What a run unfolds.
unfoldable pub queue_program : Unit {0}
unfolding is_flush_error is_due finish attempt settle drain process_sync_queue
queue_program = tt
