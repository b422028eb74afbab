-- ===== src/Planner/Values.antt =====
-- Construction and validation of the planner's values: Backend/app/domain/value_objects/planner.py,
-- and the field rules of `PlannerTaskIn` in Backend/app/schemas/planner.py. A constructor that
-- raises `ValueError` carries its message.
use life_merge.Base.{
  ℕ, ◌*◌, ◌-◌, ◌/◌, Bool, true, false, ◌||◌, ◌&&◌, Option, none, some, List, [], ◌∷◌, String,
  str_eq, ltb, leb, any, if◌then◌else◌,
}
use life_merge.Base.Result.{Result, ok, raise, value_error, type_error, ◌>>=◌}
use life_merge.Planner.Time.{DateTime, before, minute_micros}
use life_merge.Planner.Model.{Break, Preferences, Task, Slot, Severity, warning, Conflict}

-- `PlannerBreak.__post_init__`
pub make_break : Break → Result Break
make_break br =
    if leb br.end_time br.start_time
    then raise (value_error "end_time must be after start_time")
    else ok br

make_breaks : List Break → Result (List Break)
make_breaks [] = ok []
make_breaks (br ∷ brs) = make_break br >>= λ b. make_breaks brs >>= λ bs. ok (b ∷ bs)

abbrev late_hour : Option ℕ → Bool
late_hour none = false
late_hour (some h) = ltb 23 h

-- `PlannerPreferences.from_dict`, with `__post_init__`; numbers below 0 are not modelled.
pub make_preferences : Preferences → Result Preferences
make_preferences p =
    if late_hour p.latest_start_hour
    then raise (value_error "latest_start_hour must be between 0 and 23")
    else make_breaks p.breaks >>= λ breaks.
        if any (λ day. ltb 6 day) p.no_plan_days
        then raise (value_error "no_plan_days must contain values between 0 and 6")
        else ok (record p { breaks = breaks })

-- A slot as a dict, for `PlannerSlot.from_dict`.
pub record SlotData : Type 0 where
  pub slot_id : Option ℕ
  pub task_id : Option ℕ
  pub title : Option String
  pub description : Option String
  pub start_at : Option DateTime
  pub end_at : Option DateTime

-- `_ensure_datetime`: a missing value is no text that could be parsed.
abbrev pub ensure_datetime : Option DateTime → Result DateTime
ensure_datetime none = raise type_error
ensure_datetime (some d) = ok d

-- `PlannerSlot.from_dict`, with `__post_init__`; `fresh` is the identifier that `uuid4` would draw.
pub make_slot : ℕ → SlotData → Result Slot
make_slot fresh d = do
  start_at ← ensure_datetime d.start_at
  end_at ← ensure_datetime d.end_at
  later ← before start_at end_at
  if later
      then ok (record {
        slot_id = elim d.slot_id [ none ↦ fresh | some i ↦ i ];
        task_id = d.task_id;
        title = elim d.title [ none ↦ "" | some t ↦ t ];
        description = d.description;
        start_at = start_at;
        end_at = end_at;
      })
      else raise (value_error "end_at must be after start_at")

-- A conflict as a dict, for `PlannerConflict.from_dict`.
pub record ConflictData : Type 0 where
  pub slot_id : Option ℕ
  pub reason : Option String
  pub severity : Option Severity
  pub details : Option String
  pub related_task_id : Option ℕ

pub make_conflict : ConflictData → Conflict
make_conflict d = record {
  slot_id = d.slot_id;
  reason = elim d.reason [ none ↦ "" | some r ↦ r ];
  severity = elim d.severity [ none ↦ warning | some s ↦ s ];
  details = d.details;
  related_task_id = d.related_task_id;
}

-- `(end_at - start_at).total_seconds() // 60`, of a slot whose end is not before its start and
-- whose ends are both naive or both aware.
abbrev pub span_micros : DateTime → DateTime → Result ℕ
span_micros (DateTime.naive a) (DateTime.naive b) = ok (b - a)
span_micros (DateTime.aware a _ _) (DateTime.aware b _ _) = ok (b - a)
span_micros (DateTime.naive a) (DateTime.aware b _ _) = raise type_error
span_micros (DateTime.aware a _ _) (DateTime.naive b) = raise type_error

-- `TimeSlotCalculator.calculate_duration`, and `PlannerSlot.duration_minutes`.
pub calculate_duration : DateTime → DateTime → Result ℕ
calculate_duration start_at end_at = span_micros start_at end_at >>= λ d. ok (d / minute_micros)

task_status : Option String → Bool
task_status none = true
task_status (some s) =
    str_eq s "todo"
    || str_eq s "in_progress"
    || str_eq s "done"
    || str_eq s "moved"
    || str_eq s "skipped"

-- `PlannerTaskIn.model_validate(raw)`, or nothing where it raises.
pub validate_task : Task → Option Task
validate_task raw =
    if ltb 0 raw.duration_minutes && leb raw.duration_minutes (24 * 60) && task_status raw.status
    then some raw
    else none

-- Opens the whole of this component, for evaluation.
unfoldable pub values_program : Unit {0}
unfolding make_break make_breaks make_preferences make_slot make_conflict calculate_duration
    task_status validate_task
values_program = tt
