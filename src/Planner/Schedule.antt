-- ===== src/Planner/Schedule.antt =====
-- `SlotGenerator._schedule_tasks` of Backend/app/services/planner/components.py: tasks go, by
-- deadline and priority, each into the first window that holds it. `uuid k` is the identifier
-- that the k-th call of `uuid.uuid4()` of the request draws.
pub mod Place
pub mod Slots
pub mod Outcomes
use life_merge.Base.{
  ℕ, ◌+◌, ◌*◌, ◌-◌, Bool, true, false, not, ◌||◌, ◌&&◌, Option, none, some, List, [], ◌∷◌, ◌++◌,
  String, ltb, leb, ◌==◌, if◌then◌else◌, length,
}
use life_merge.Base.Int.{ℤ, pos, leb_ℤ}
use life_merge.Base.Sort.{sort}
use life_merge.Planner.Time.{combine, to_utc, utc, day_micros, hour_micros, minute_micros}
use life_merge.Planner.Model.{Task, Slot, Conflict, error, Window}

-- 23:59 of the seventh day, for a task that has no due date.
pub deadline : ℕ → Task → ℕ
deadline start_date task = elim task.due_at [
  | some due ↦ to_utc due
  | none ↦ combine (start_date + 7) (23 * hour_micros + 59 * minute_micros)
]

-- The first part of the sort key: a task with no due date counts as due on the first day.
due_key : ℕ → Task → ℕ
due_key start_date task = elim task.due_at [
  | some due ↦ to_utc due
  | none ↦ combine start_date (day_micros - 1)
]

priority_key : Task → ℤ
priority_key task = elim task.priority [ none ↦ pos 0 | some p ↦ p ]

-- The order of the keys `(due, -(priority or 0))`.
pub task_order : ℕ → Task → Task → Bool
task_order start_date a b =
    ltb (due_key start_date a) (due_key start_date b)
    || (due_key start_date a == due_key start_date b) && leb_ℤ (priority_key b) (priority_key a)

abbrev pub duration : Task → ℕ
duration task = task.duration_minutes * minute_micros

-- `min(win_end, deadline)`
abbrev pub latest_end : ℕ → Window → ℕ
latest_end limit w = if ltb limit w.end_dt then limit else w.end_dt

-- Neither `continue` of the loop over the windows is taken.
pub fits : ℕ → ℕ → Window → Bool
fits limit length_of w =
    not (leb (latest_end limit w) w.start_dt) && leb (w.start_dt + length_of) (latest_end limit w)

-- What replaces the window that is used up to `slot_end`.
abbrev pub remaining : ℕ → Window → List Window
remaining slot_end w =
    if ltb slot_end w.end_dt then record { start_dt = slot_end; end_dt = w.end_dt } ∷ [] else []

abbrev pub keep : Window → Option (ℕ × List Window) → Option (ℕ × List Window)
keep w none = none
keep w (some (start, left)) = some (start, w ∷ left)

-- The loop over the windows: the start of the slot, and the windows that are left.
pub place : ℕ → ℕ → List Window → Option (ℕ × List Window)
place limit length_of [] = none
place limit length_of (w ∷ ws) =
    let rest = place limit length_of ws in
    if fits limit length_of w
    then some (w.start_dt, remaining (w.start_dt + length_of) w ++ ws)
    else keep w rest

pub record Scheduled : Type 0 where
  pub slots : List Slot
  pub conflicts : List Conflict
  pub available_windows : List Window

abbrev pub slot_for : ℕ → Task → ℕ → Slot
slot_for slot_id task start = record {
  slot_id = slot_id;
  task_id = some task.task_id;
  title = task.title;
  description = elim task.status [ none ↦ some "Suggested by AI" | some s ↦ some s ];
  start_at = utc start;
  end_at = utc (start + duration task);
}

abbrev pub no_available_window : Task → Conflict
no_available_window task = record {
  slot_id = none;
  reason = "no_available_window";
  severity = error;
  details = some "No free slot before the task deadline.";
  related_task_id = some task.task_id;
}

module _ (uuid : ℕ → ℕ) (start_date : ℕ) where
  -- The body of the loop over the tasks.
  pub schedule_task : Task → Scheduled → Scheduled
  schedule_task task st =
      elim (place (deadline start_date task) (duration task) st.available_windows) [
        | none ↦ record st { conflicts = st.conflicts ++ no_available_window task ∷ [] }
        | some (start, ws) ↦ record st {
          slots = st.slots ++ slot_for (uuid (length st.slots)) task start ∷ [];
          available_windows = ws;
        }
      ]

  pub schedule_sorted : List Task → Scheduled → Scheduled
  schedule_sorted [] st = st
  schedule_sorted (task ∷ tasks) st = schedule_sorted tasks (schedule_task task st)

  -- `_schedule_tasks`; the source returns the first two fields.
  pub schedule_tasks : List Window → List Task → Scheduled
  schedule_tasks windows tasks =
      schedule_sorted (sort (task_order start_date) tasks)
        (record { slots = []; conflicts = []; available_windows = windows })

-- Opens the whole of this component, for evaluation.
unfoldable pub schedule_program : Unit {0}
unfolding schedule_tasks schedule_sorted schedule_task place fits task_order due_key priority_key
    deadline sort
schedule_program = tt
