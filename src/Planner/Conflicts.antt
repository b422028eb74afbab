-- ===== src/Planner/Conflicts.antt =====
-- `ConflictDetector` of Backend/app/services/planner/components.py.
use Prim.Native.String.{◌++◌ as ◌+++◌}
use life_merge.Base.{
  ℕ, Bool, true, false, ◌||◌, ◌&&◌, Option, none, some, List, [], ◌∷◌, ◌++◌, String, ltb, leb, mem,
  flat_map, if◌then◌else◌, is_some_eq,
}
use life_merge.Base.Result.{Result, ok, raise, type_error, attribute_error, ◌>>=◌, collect}
use life_merge.Planner.Time.{before, date_of, time_of, hour_of, weekday}
use life_merge.Planner.Model.{
  Entry, Break, Preferences, Event, Slot, Conflict, info, warning, error,
}

abbrev outside_work_schedule : Slot → Conflict
outside_work_schedule slot = record {
  slot_id = some slot.slot_id;
  reason = "outside_work_schedule";
  severity = warning;
  details = some "Slot falls outside configured working hours.";
  related_task_id = none;
}

abbrev calendar_conflict : Slot → String → Conflict
calendar_conflict slot title = record {
  slot_id = some slot.slot_id;
  reason = "calendar_conflict";
  severity = error;
  details = some ("Overlaps with calendar event " +++ title);
  related_task_id = none;
}

-- Whether an entry's hours hold the slot; an entry that lacks an end has no `isoformat`.
hours_hold : ℕ → ℕ → Entry → Result Bool
hours_hold start_time end_time entry = elim entry.start_time [
  | none ↦ raise attribute_error
  | some s ↦ elim entry.end_time [
    | none ↦ raise attribute_error
    | some e ↦ ok (leb s start_time && leb end_time e)
  ]
]

if_held : Result Bool → Result Bool → Result Bool
if_held (raise e) rest = raise e
if_held (ok true) rest = ok true
if_held (ok false) rest = rest

-- The loop over the work schedule, which breaks at the first entry that allows the slot.
pub allowed : ℕ → ℕ → ℕ → List Entry → Result Bool
allowed day start_time end_time [] = ok false
allowed day start_time end_time (entry ∷ entries) =
    let rest = allowed day start_time end_time entries in
    if is_some_eq entry.day_of_week day
    then if_held (hours_hold start_time end_time entry) rest
    else rest

schedule_conflicts : List Entry → Slot → Result (List Conflict)
schedule_conflicts work_schedule slot =
    allowed (weekday (date_of slot.start_at)) (time_of slot.start_at) (time_of slot.end_at)
      work_schedule
    >>= λ held. elim work_schedule [
      | [] ↦ ok []
      | _ ∷ _ ↦ ok (if held then [] else outside_work_schedule slot ∷ [])
    ]

-- `event_start < slot.end_at and slot.start_at < event_end`
overlaps : Slot → Event → Result Bool
overlaps slot event = elim event.start_at [
  | none ↦ raise type_error
  | some event_start ↦ before event_start slot.end_at >>= λ starts.
      if starts
      then elim event.end_at [
        | none ↦ raise type_error
        | some event_end ↦ before slot.start_at event_end
      ]
      else ok false
]

pub event_conflicts : Slot → Event → Result (List Conflict)
event_conflicts slot event = overlaps slot event >>= λ both.
    ok (if both then calendar_conflict slot event.title ∷ [] else [])

slot_conflicts : List Entry → List Event → Slot → Result (List Conflict)
slot_conflicts work_schedule calendar_events slot = do
  outside ← schedule_conflicts work_schedule slot
  busy ← collect (event_conflicts slot) calendar_events
  ok (outside ++ busy)

-- `detect_schedule_conflicts`
pub detect_schedule_conflicts : List Slot → List Entry → List Event → Result (List Conflict)
detect_schedule_conflicts slots work_schedule calendar_events =
    collect (slot_conflicts work_schedule calendar_events) slots

resource_conflicts : List ℕ → List ℕ → Slot → List Conflict
resource_conflicts completed_task_ids rescheduled_task_ids slot = elim slot.task_id [
  | none ↦ []
  | some task_id ↦
      (if mem task_id completed_task_ids
        then record {
          slot_id = some slot.slot_id;
          reason = "task_already_completed";
          severity = info;
          details = some "Task was marked as completed before planning.";
          related_task_id = some task_id;
        }
          ∷ []
        else [])
      ++ (if mem task_id rescheduled_task_ids
          then record {
            slot_id = some slot.slot_id;
            reason = "task_rescheduled";
            severity = warning;
            details = some "Task has been rescheduled and may need re-planning.";
            related_task_id = some task_id;
          }
            ∷ []
          else [])
]

-- `detect_resource_conflicts`
pub detect_resource_conflicts : List Slot → List ℕ → List ℕ → List Conflict
detect_resource_conflicts slots completed_task_ids rescheduled_task_ids =
    flat_map (resource_conflicts completed_task_ids rescheduled_task_ids) slots

abbrev noted : Slot → String → Conflict
noted slot reason = record {
  slot_id = some slot.slot_id;
  reason = reason;
  severity = warning;
  details = none;
  related_task_id = none;
}

after_hours : Preferences → Slot → List Conflict
after_hours p slot = elim p.latest_start_hour [
  | none ↦ []
  | some latest ↦
      if ltb latest (hour_of slot.start_at)
      then record (noted slot "after_hours") {
        details = some "Starts later than user preference allows.";
      }
        ∷ []
      else []
]

pub no_plan_day : Preferences → Slot → List Conflict
no_plan_day p slot =
    if mem (weekday (date_of slot.start_at)) p.no_plan_days
    then record (noted slot "no_plan_day") {
      severity = info;
      details = some "User requested no planning on this day.";
    }
      ∷ []
    else []

-- `start_break <= start_time < end_break or start_break < end_time <= end_break`
touches : Slot → Break → Bool
touches slot br =
    leb br.start_time (time_of slot.start_at) && ltb (time_of slot.start_at) br.end_time
    || ltb br.start_time (time_of slot.end_at) && leb (time_of slot.end_at) br.end_time

pub break_time : Slot → Break → List Conflict
break_time slot br =
    if touches slot br
    then record (noted slot "break_time") { details = some "Overlaps with a planned break." } ∷ []
    else []

preference_conflicts : Preferences → Slot → List Conflict
preference_conflicts p slot =
    after_hours p slot ++ (no_plan_day p slot ++ flat_map (break_time slot) p.breaks)

-- `detect_preference_conflicts`
pub detect_preference_conflicts : List Slot → Option Preferences → List Conflict
detect_preference_conflicts slots none = []
detect_preference_conflicts slots (some p) = flat_map (preference_conflicts p) slots

-- Opens the whole of this component, for evaluation.
unfoldable pub conflicts_program : Unit {0}
unfolding hours_hold if_held allowed schedule_conflicts overlaps event_conflicts slot_conflicts
    detect_schedule_conflicts resource_conflicts detect_resource_conflicts after_hours no_plan_day
    touches break_time preference_conflicts detect_preference_conflicts
conflicts_program = tt
