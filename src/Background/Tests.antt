-- ===== src/Background/Tests.antt =====
-- The jobs at concrete rows.
use life_merge.Base.{
  ℕ, ◌*◌, ◌≡◌, refl, Bool, true, false, ◌&&◌, not, none, some, List, [], ◌∷◌, map, ◌==◌, is_some,
  select, if◌then◌else◌, arith,
}
use life_merge.Base.Result.{ok, raise, integrity_error}
use life_merge.Planner.Time.{hour_micros, utc}
use life_merge.Push.{Metric}
use life_merge.Sync.{Table, TaskRow, TaskData, BatchSyncOperation, missing, null, task, upsert}
use life_merge.Sync.Merge.{merge_program}
use life_merge.Background.Queue.{
  SyncOperation, QueueSettings, Worker, is_due, attempt, process_sync_queue, queue_program,
}
use life_merge.Background.Queue.Handled.{Handled, process_sync_queue-Handled}
use life_merge.Background.Queue.Stuck.{Raises, process_sync_queue-Raises}
use life_merge.Background.Digests.{DigestSchedule, dispatch_digests, digests_program}
use life_merge.Background.Digests.Once.{is_wanted, dispatch_digests-dispatch_digests}

abbrev read : TaskRow
read = record {
  id = 3;
  user_id = 7;
  title = some "Read";
  description = none;
  goal_id = none;
  due_at = none;
  priority = none;
  estimated_minutes = none;
  energy_level = none;
  status = some "todo";
  created_at = utc 10;
  updated_at = utc 20;
  deleted = some false;
}

-- A table that always has the one task, and refuses rows with columns that are missing.
abbrev one_task : Table
one_task = record {
  Db = Unit {0};
  find = λ db i. if i == 3 then some read else none;
  add = λ db row. raise integrity_error;
  flush = λ db row. if is_some row.title then ok tt else raise integrity_error;
}

abbrev fields : TaskData
fields = record {
  title = missing;
  description = missing;
  goal_id = missing;
  due_at = missing;
  priority = missing;
  estimated_minutes = missing;
  energy_level = missing;
  status = missing;
  created_at = missing;
  deleted = missing;
}

abbrev change : TaskData → BatchSyncOperation
change sent = record {
  entity = task;
  action = upsert;
  id = some 3;
  payload = some sent;
  updated_at = utc 30;
}

-- The payload is `true` for a change that takes the title away, and `false` for one that has none.
abbrev worker : Worker Bool (Unit {0})
worker = record {
  validate = λ now op. ok (change (if op.payload then record fields { title = null } else fields));
  show = λ e. "error";
  left = λ db op. db;
}

abbrev settings : QueueSettings
settings = record { sync_queue_batch_size = 50; sync_retry_minutes = 5 }

abbrev waiting : ℕ → Bool → SyncOperation Bool
waiting id no_title = record {
  id = id;
  user_id = 7;
  entity = "task";
  action = "upsert";
  payload = no_title;
  status = "pending";
  attempts = 0;
  last_error = none;
  scheduled_at = 0;
  updated_at = 0;
  locked = false;
}

abbrev now : ℕ
now = 400_000_000

abbrev served : SyncOperation Bool
served = record (waiting 1 false) { status = "done"; attempts = 1; updated_at = 401_000_000 }

process_sync_queue_test :
    process_sync_queue one_task worker settings (λ n. n) 401_000_000 now tt (waiting 1 false ∷ [])
    ≡ ok (served ∷ [], tt)
unfolding queue_program merge_program
process_sync_queue_test = refl

process_sync_queue-Handled_example :
    Handled one_task worker settings
      (λ n. n)
      401_000_000
      now
      50
      0
      tt
      (waiting 1 false ∷ [])
      (served ∷ [])
      tt
process_sync_queue-Handled_example =
    process_sync_queue-Handled one_task worker settings (λ n. n) 401_000_000 now tt
      (waiting 1 false ∷ []) (served ∷ [], tt) process_sync_queue_test

no_title_due : is_due one_task worker settings (λ n. n) 401_000_000 now (waiting 2 true) ≡ true
unfolding queue_program
no_title_due = refl

no_title_poison :
    (n : ℕ) (db : Unit {0})
    → attempt one_task worker settings (λ n. n) 401_000_000 now n db (waiting 2 true)
      ≡ raise integrity_error
unfolding queue_program merge_program
no_title_poison n db = refl

process_sync_queue-Raises_example :
    Raises one_task worker settings
      (λ n. n)
      401_000_000
      (process_sync_queue one_task worker settings
        (λ n. n)
        401_000_000
        now
        tt
        (waiting 1 false ∷ waiting 2 true ∷ waiting 3 false ∷ []))
process_sync_queue-Raises_example =
    process_sync_queue-Raises one_task worker settings (λ n. n) 401_000_000 now (waiting 2 true)
      no_title_due no_title_poison (waiting 3 false ∷ []) (waiting 1 false ∷ []) tt (omega arith)

abbrev daily : DigestSchedule
daily = record {
  id = 1;
  user_id = 7;
  cadence = "daily";
  channel = "push";
  last_sent_at = none;
  next_run_at = some (7 * hour_micros);
  updated_at = 0;
}

abbrev send : DigestSchedule → List (List Metric × Bool)
send schedule = ([], true) ∷ []

-- Sent at eight, and next at seven on the day after.
dispatch_digests_test : dispatch_digests send 7 (8 * hour_micros) (daily ∷ []) ≡ (
  record daily {
    last_sent_at = some (8 * hour_micros);
    next_run_at = some (31 * hour_micros);
    updated_at = 8 * hour_micros;
  }
      ∷ [],
  (([], true) ∷ []) ∷ [],
)
unfolding digests_program
dispatch_digests_test = refl

dispatch_digests-dispatch_digests_example :
    ((dispatch_digests send 7 (8 * hour_micros) (daily ∷ [])).1
      ≡ map send (select (is_wanted (8 * hour_micros)) (daily ∷ [])))
    × ((dispatch_digests send 7
          (30 * hour_micros)
          (dispatch_digests send 7 (8 * hour_micros) (daily ∷ [])).0).1
        ≡ map send (
            select
              (λ s. is_wanted (30 * hour_micros) s && not (is_wanted (8 * hour_micros) s))
              (daily ∷ [])))
dispatch_digests-dispatch_digests_example =
    dispatch_digests-dispatch_digests send 7 (8 * hour_micros) (30 * hour_micros) (daily ∷ [])
      (omega arith)
