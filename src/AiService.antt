-- ===== src/AiService.antt =====
-- Backend/ai_service/main.py: the planning service behind the backend. Its requests are checked
-- data; its windows and its placing of tasks follow the backend's generator (`Planner`), whose
-- records it shares where the fields are the same.
pub mod Batch
pub mod Agreement
pub mod Checked
mod Tests
use life_merge.Base.{
  ℕ, ◌+◌, ◌*◌, Bool, true, false, ◌||◌, Option, none, some, List, [], ◌∷◌, String, ◌==◌, leb, ltb,
  any, length, flat_map, map, select, mem, if◌then◌else◌,
}
use life_merge.Base.Result.{Result, ok, raise, value_error, ◌>>=◌}
use life_merge.Base.Sort.{sort}
use life_merge.Planner.Time.{combine, to_utc, DateTime, weekday, before, hour_micros}
use life_merge.Planner.Model.{Break, Preferences, Task, Window}
use life_merge.Planner.Values.{make_preferences, validate_task}
use life_merge.Planner.Windows.{
  starts_before, subtract_interval, without_breaks, without_events, week,
}
use life_merge.Planner.Schedule.{Scheduled, schedule_sorted, task_order}

pub record WorkScheduleEntry : Type 0 where
  pub day_of_week : ℕ
  pub start_time : ℕ
  pub end_time : ℕ

pub record PlannerCalendarEvent : Type 0 where
  pub event_id : ℕ
  pub title : String
  pub start_at : DateTime
  pub end_at : DateTime

pub record PlannerRun : Type 0 where
  pub plan_request_id : ℕ
  pub week_start : Option ℕ
  pub work_schedule : List WorkScheduleEntry
  pub tasks : List Task
  pub calendar_events : List PlannerCalendarEvent
  pub preferences : Option Preferences
  pub previous_plan_version : Option ℕ
  pub completed_task_ids : List ℕ
  pub rescheduled_task_ids : List ℕ

-- `WorkScheduleEntry`, with `validate_range`.
pub check_entry : WorkScheduleEntry → Result WorkScheduleEntry
check_entry entry =
    if ltb 6 entry.day_of_week
    then raise (value_error "Input should be less than or equal to 6")
    else if leb entry.end_time entry.start_time
    then raise (value_error "end_time must be after start_time")
    else ok entry

-- `PlannerCalendarEvent.validate_range`
pub check_event : PlannerCalendarEvent → Result PlannerCalendarEvent
check_event event = before event.start_at event.end_at >>= λ later.
    if later then ok event else raise (value_error "end_at must be after start_at")

pub check_task : Task → Result Task
check_task task = elim (validate_task task) [ none ↦ raise (value_error "task") | some t ↦ ok t ]

pub check_preferences : Option Preferences → Result (Option Preferences)
check_preferences none = ok none
check_preferences (some p) = make_preferences p >>= λ q. ok (some q)

pub check_all : {A : Type 0} → (A → Result A) → List A → Result (List A)
check_all f [] = ok []
check_all f (x ∷ xs) = f x >>= λ y. check_all f xs >>= λ ys. ok (y ∷ ys)

-- The fields of a `PlannerRun`; tasks and preferences have the backend's rules.
pub check_run : PlannerRun → Result PlannerRun
check_run run = do
  work_schedule ← check_all check_entry run.work_schedule
  tasks ← check_all check_task run.tasks
  calendar_events ← check_all check_event run.calendar_events
  preferences ← check_preferences run.preferences
  ok run

-- `BatchPlannerRequest.validate_batch_size`; `max_batch` is `settings.PLANNER_MAX_BATCH`.
pub check_batch : ℕ → List PlannerRun → Result (List PlannerRun)
check_batch max_batch requests =
    if ltb max_batch (length requests)
    then raise (value_error "batch too large")
    else check_all check_run requests

abbrev office_entry : ℕ → WorkScheduleEntry
office_entry day = record {
  day_of_week = day;
  start_time = 9 * hour_micros;
  end_time = 17 * hour_micros;
}

-- `work_schedule or [...]`
pub or_office_week : List WorkScheduleEntry → List WorkScheduleEntry
or_office_week [] = map office_entry (0 ∷ 1 ∷ 2 ∷ 3 ∷ 4 ∷ [])
or_office_week (e ∷ es) = e ∷ es

pub clean_event : PlannerCalendarEvent → Window
clean_event event = record { start_dt = to_utc event.start_at; end_dt = to_utc event.end_at }

pub is_no_plan_day : Option Preferences → ℕ → Bool
is_no_plan_day none day = false
is_no_plan_day (some p) day = mem day p.no_plan_days

abbrev pub entry_on : ℕ → WorkScheduleEntry → Window
entry_on day entry = record {
  start_dt = combine day entry.start_time;
  end_dt = combine day entry.end_time;
}

-- The round of `for day_offset in range(7)`, which goes by the weekday of the date.
pub day_windows : ℕ → List WorkScheduleEntry → Option Preferences → ℕ → List Window
day_windows start_date schedule preferences day_offset =
    let current_date = start_date + day_offset in
    if is_no_plan_day preferences (weekday current_date)
    then []
    else map (entry_on current_date) (select (λ e. e.day_of_week == weekday current_date) schedule)

-- `_build_available_windows`; the breaks and the events are cut out as the backend does it.
pub build_available_windows :
    ℕ → List WorkScheduleEntry → Option Preferences → List PlannerCalendarEvent → List Window
build_available_windows start_date work_schedule preferences calendar_events =
    let windows =
      flat_map (day_windows start_date (or_office_week work_schedule) preferences) week in
    sort starts_before
      (without_events (map clean_event calendar_events) (without_breaks preferences windows))

-- `_schedule_tasks`, which is the backend's loop over the same keys.
pub schedule_tasks : (ℕ → ℕ) → ℕ → List Window → List Task → Scheduled
schedule_tasks uuid start_date windows tasks =
    schedule_sorted uuid start_date (sort (task_order start_date) tasks)
      (record { slots = []; conflicts = []; available_windows = windows })

-- Opens this module, for evaluation.
unfoldable pub ai_windows_program : Unit {0}
unfolding check_entry check_event check_task check_preferences check_all check_run check_batch
    or_office_week clean_event is_no_plan_day day_windows build_available_windows schedule_tasks
ai_windows_program = tt
