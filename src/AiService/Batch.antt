-- ===== src/AiService/Batch.antt =====
-- `_detect_conflicts`, `_generate_slots` and `batch_run` of Backend/ai_service/main.py. The loop
-- over the calendar events in `_detect_conflicts` stands for what its indentation is meant to be.
pub mod Answers
use Prim.Native.String.{◌++◌ as ◌+++◌}
use life_merge.Base.{
  ℕ, suc, Bool, false, not, ◌&&◌, Option, none, some, List, [], ◌∷◌, ◌++◌, String, str_eq, ◌==◌,
  leb, ltb, any, flat_map, select, mem, if◌then◌else◌,
}
use life_merge.Base.Result.{Result, ok, raise, http_error, ◌>>=◌, collect}
use life_merge.Planner.Time.{to_utc, utc, weekday, before, date_of, time_of, hour_of}
use life_merge.Planner.Model.{Break, Preferences, Slot, Conflict, Severity, info, warning, error}
use life_merge.Planner.Generate.{tasks_to_place}
use life_merge.Planner.Schedule.{Scheduled}
use life_merge.AiService.{
  WorkScheduleEntry, PlannerCalendarEvent, PlannerRun, check_batch, build_available_windows,
  schedule_tasks,
}

abbrev conflict_of : Slot → String → Severity → String → Option ℕ → Conflict
conflict_of slot reason severity details related = record {
  slot_id = some slot.slot_id;
  reason = reason;
  severity = severity;
  details = some details;
  related_task_id = related;
}

abbrev when : Bool → Conflict → List Conflict
when b c = if b then c ∷ [] else []

-- An entry's hours hold the slot.
pub entry_allows : Slot → WorkScheduleEntry → Bool
entry_allows slot entry =
    entry.day_of_week == weekday (date_of slot.start_at)
    && (leb entry.start_time (time_of slot.start_at) && leb (time_of slot.end_at) entry.end_time)

outside_hours : List WorkScheduleEntry → Slot → List Conflict
outside_hours [] slot = []
outside_hours (e ∷ es) slot = when (not (any (entry_allows slot) (e ∷ es))) (
    conflict_of slot "outside_work_schedule" warning "Slot falls outside configured working hours."
      none)

starts_late : Option ℕ → Slot → Bool
starts_late none slot = false
starts_late (some latest) slot = ltb latest (hour_of slot.start_at)

-- `start_time < br.end_time and end_time > br.start_time`
pub crosses : Slot → Break → Bool
crosses slot br = ltb (time_of slot.start_at) br.end_time && ltb br.start_time (time_of slot.end_at)

preference_conflicts : Option Preferences → Slot → List Conflict
preference_conflicts none slot = []
preference_conflicts (some p) slot =
    when (starts_late p.latest_start_hour slot)
      (conflict_of slot "after_hours" warning "Starts later than user preference allows." none)
    ++ (when (mem (weekday (date_of slot.start_at)) p.no_plan_days)
          (conflict_of slot "no_plan_day" info "User requested no planning on this day." none)
        ++ flat_map
            (λ br.
              when (crosses slot br)
                (conflict_of slot "break_time" warning "Overlaps with a planned break." none))
            p.breaks)

-- An event is cleaned before it is compared, so only a naive slot raises.
event_conflict : Slot → PlannerCalendarEvent → Result (List Conflict)
event_conflict slot event = do
  starts ← before (utc (to_utc event.start_at)) slot.end_at
  ends ← before slot.start_at (utc (to_utc event.end_at))
  ok (
      when (starts && ends) (
        conflict_of slot "calendar_conflict" error ("Overlaps with calendar event " +++ event.title)
          none))

task_conflicts : List ℕ → List ℕ → Slot → Option ℕ → List Conflict
task_conflicts completed rescheduled slot none = []
task_conflicts completed rescheduled slot (some task_id) =
    when (mem task_id completed) (
      conflict_of slot "task_already_completed" info "Task already completed before planning."
        (some task_id))
    ++ when (mem task_id rescheduled) (
        conflict_of slot "task_rescheduled" warning
          "Task has been rescheduled and may need re-planning." (some task_id))

slot_conflicts : PlannerRun → Slot → Result (List Conflict)
slot_conflicts run slot = do
  busy ← collect (event_conflict slot) run.calendar_events
  ok (
      outside_hours run.work_schedule slot
      ++ (preference_conflicts run.preferences slot
          ++ (busy
              ++ task_conflicts run.completed_task_ids run.rescheduled_task_ids slot slot.task_id)))

-- `_detect_conflicts`
pub detect_conflicts : PlannerRun → List Slot → Result (List Conflict)
detect_conflicts run slots = collect (slot_conflicts run) slots

abbrev pub start_of : ℕ → Option ℕ → ℕ
start_of today none = today
start_of today (some d) = d

-- What `_schedule_tasks` returns for a run.
pub schedule_run : (ℕ → ℕ) → ℕ → PlannerRun → Scheduled
schedule_run uuid today run =
    let start_date = start_of today run.week_start in
    let placed =
      tasks_to_place uuid (select (λ t. not (mem t.task_id run.completed_task_ids)) run.tasks) in
    schedule_tasks placed.1 start_date
      (build_available_windows start_date run.work_schedule run.preferences run.calendar_events)
      placed.0

-- `_generate_slots`
pub generate_slots : (ℕ → ℕ) → ℕ → PlannerRun → Result (List Slot × List Conflict)
generate_slots uuid today run = do
  let placed = schedule_run uuid today run
  found ← detect_conflicts run placed.slots
  ok (placed.slots, placed.conflicts ++ found)

pub record PlannerPlanOut : Type 0 where
  pub plan_request_id : ℕ
  pub status : String
  pub source : String
  pub slots : List Slot
  pub conflicts : List Conflict
  pub version : ℕ

-- `(item.previous_plan_version or 0) + 1`
abbrev pub next_version : Option ℕ → ℕ
next_version none = 1
next_version (some v) = suc v

-- The body of the loop of `batch_run`.
pub run_plan : (ℕ → ℕ) → ℕ → PlannerRun → Result PlannerPlanOut
run_plan uuid today run = generate_slots uuid today run >>= λ (slots, conflicts). ok (record {
  plan_request_id = run.plan_request_id;
  status = "ready";
  source = "ai";
  slots = slots;
  conflicts = conflicts;
  version = next_version run.previous_plan_version;
})

pub run_plans : (ℕ → ℕ → ℕ) → ℕ → ℕ → List PlannerRun → Result (List PlannerPlanOut)
run_plans uuid n today [] = ok []
run_plans uuid n today (run ∷ runs) = run_plan (uuid n) today run >>= λ plan.
    run_plans uuid (suc n) today runs >>= λ plans. ok (plan ∷ plans)

-- `ensure_internal_access`; `expected` is `settings.AI_INTERNAL_TOKEN`.
pub ensure_internal_access : String → String → Result (Unit {0})
ensure_internal_access expected token =
    if str_eq token expected then ok tt else raise (http_error "401" "unauthorized")

-- `batch_run`, behind its dependency; `uuid n` are the draws of `uuid4` of the run `n`.
pub batch_run :
    ℕ → String → String → (ℕ → ℕ → ℕ) → ℕ → List PlannerRun → Result (List PlannerPlanOut)
batch_run max_batch expected token uuid today requests = do
  granted ← ensure_internal_access expected token
  checked ← check_batch max_batch requests
  run_plans uuid 0 today checked

-- Opens the whole of this component, for evaluation.
unfoldable pub ai_program : Unit {0}
unfolding entry_allows outside_hours starts_late crosses preference_conflicts event_conflict
    task_conflicts slot_conflicts detect_conflicts schedule_run generate_slots run_plan run_plans
    ensure_internal_access batch_run
ai_program = tt
