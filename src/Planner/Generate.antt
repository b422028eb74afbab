-- ===== src/Planner/Generate.antt =====
-- `SlotGenerator.generate_slots` and `validate_slots`, and the reading of the AI service's answer
-- by `AIOrchestrator`, of Backend/app/services/planner/components.py.
pub mod Free
use life_merge.Base.{ℕ, ◌+◌, not, Option, none, some, List, [], ◌∷◌, ◌++◌, String, mem, select}
use life_merge.Base.Result.{Result, ok, raise, ◌>>=◌}
use life_merge.Planner.Model.{Entry, Preferences, Event, Task, Slot, Conflict}
use life_merge.Planner.Values.{make_preferences, validate_task}
use life_merge.Planner.Windows.{build_available_windows}
use life_merge.Planner.Schedule.{Scheduled, schedule_tasks}
use life_merge.Planner.Conflicts.{
  detect_schedule_conflicts, detect_preference_conflicts, detect_resource_conflicts,
}

-- The argument `week_start`: absent or empty, a text that is no date, or a date.
pub data WeekStart : Type 0 where
  absent malformed : WeekStart
  day : ℕ → WeekStart

-- The argument `preferences`: a `PlannerPreferences`, or a dict that is still to be checked.
pub data PreferencesArg : Type 0 where
  value dict : Preferences → PreferencesArg

-- The payload of a run, as far as the generator reads it.
pub record Payload : Type 0 where
  pub week_start : WeekStart
  pub tasks : List Task
  pub work_schedule : List Entry
  pub preferences : Option PreferencesArg
  pub calendar_events : List Event
  pub completed_task_ids : List ℕ
  pub rescheduled_task_ids : List ℕ

abbrev pub start_date_of : ℕ → WeekStart → ℕ
start_date_of today absent = today
start_date_of today malformed = today
start_date_of today (day d) = d

or_none : Result Preferences → Option Preferences
or_none (ok p) = some p
or_none (raise e) = none

pub read_preferences : Option PreferencesArg → Option Preferences
read_preferences none = none
read_preferences (some (value p)) = some p
read_preferences (some (dict p)) = or_none (make_preferences p)

-- The raw tasks that pass `PlannerTaskIn.model_validate`.
parse_tasks : List Task → List Task
parse_tasks [] = []
parse_tasks (raw ∷ rest) = elim (validate_task raw) [
  | none ↦ parse_tasks rest
  | some task ↦ task ∷ parse_tasks rest
]

abbrev pub filler : ℕ → String → ℕ → Task
filler task_id title duration_minutes = record {
  task_id = task_id;
  title = title;
  duration_minutes = duration_minutes;
  due_at = none;
  priority = none;
  status = some "todo";
}

abbrev pub filler_tasks : (ℕ → ℕ) → List Task
filler_tasks uuid =
    filler (uuid 0) "Deep work" 90
    ∷ filler (uuid 1) "Focus session" 60
    ∷ filler (uuid 2) "Wrap-up" 45
    ∷ []

-- The tasks to place, and the draws of `uuid4` that are left for the slots.
pub tasks_to_place : (ℕ → ℕ) → List Task → List Task × (ℕ → ℕ)
tasks_to_place uuid [] = (filler_tasks uuid, λ k. uuid (3 + k))
tasks_to_place uuid (t ∷ ts) = (t ∷ ts, uuid)

-- What `_schedule_tasks` returns for a payload.
pub schedule_payload : (ℕ → ℕ) → ℕ → Payload → Scheduled
schedule_payload uuid today payload =
    let start_date = start_date_of today payload.week_start in
    let active_tasks =
      select (λ t. not (mem t.task_id payload.completed_task_ids)) (parse_tasks payload.tasks) in
    let (tasks, uuid') = tasks_to_place uuid active_tasks in
    schedule_tasks uuid' start_date
      (build_available_windows start_date payload.work_schedule
        (read_preferences payload.preferences) payload.calendar_events)
      tasks

-- `generate_slots`
pub generate_slots : (ℕ → ℕ) → ℕ → Payload → Result (List Slot × List Conflict)
generate_slots uuid today payload = do
  let placed = schedule_payload uuid today payload
  outside ← detect_schedule_conflicts placed.slots payload.work_schedule payload.calendar_events
  ok (
    placed.slots,
    placed.conflicts
        ++ (outside
            ++ (detect_preference_conflicts placed.slots (read_preferences payload.preferences)
                ++ detect_resource_conflicts placed.slots payload.completed_task_ids
                    payload.rescheduled_task_ids)),
  )

-- Opens the whole of this component, for evaluation.
unfoldable pub generate_program : Unit {0}
unfolding or_none read_preferences parse_tasks tasks_to_place schedule_payload generate_slots
generate_program = tt
