-- ===== src/Planner/Decision.antt =====
-- `PlannerService.apply_plan_decision` of Backend/app/services/planner_service.py: a user accepts
-- or declines a plan. The task service and its database are a parameter.
pub mod Laws
pub mod Foreign
mod Tests
use life_merge.Base.{
  ℕ, ◌+◌, Bool, true, false, not, ◌||◌, Option, none, some, List, [], ◌∷◌, ◌++◌, String, str_eq,
  ◌==◌, mem, map, length, if◌then◌else◌,
}
use life_merge.Base.Dict.{Dict, get, put}
use life_merge.Base.Result.{Error, Result, ok, raise, value_error, ◌>>=◌}
use life_merge.Planner.Time.{DateTime}
use life_merge.Planner.Model.{Slot}
use life_merge.Planner.Values.{calculate_duration}
use life_merge.Planner.Edits.{SlotEdit, validate_slots}
use life_merge.Planner.Answer.{AiPlan}
use life_merge.Planner.History.{Plan, append_version}
use life_merge.Planner.Service.{get_plan_by_request_id}

-- What the service writes to a task: the dict `patch`, or `task_data` for a new one.
pub record TaskPatch : Type 0 where
  pub title : String
  pub description : Option String
  pub due_at : DateTime
  pub estimated_minutes : ℕ
  pub status : Option String

-- `TaskService`, as the planner uses it: tasks are named by their identifiers, and a call that may
-- raise leaves a database behind in any case.
pub record TaskService : Type 1 where
  pub Db : Type 0
  -- `get_task(task_id, user_id)`
  pub get_task : Db → ℕ → ℕ → Option ℕ
  pub update_task : Db → ℕ → TaskPatch → Result ℕ × Db
  -- `create_task(user_id, data)`
  pub create_task : Db → ℕ → TaskPatch → Result ℕ × Db

pub record Decision : Type 0 where
  pub status : String
  pub created_task_ids : List ℕ
  pub updated_task_ids : List ℕ
  pub version : ℕ

-- The set of the numbers in a list.
set_of : List ℕ → List ℕ
set_of [] = []
set_of (x ∷ xs) = let rest = set_of xs in if mem x rest then rest else x ∷ rest

slot_ids : List Slot → List ℕ
slot_ids slots = set_of (map (λ s. s.slot_id) slots)

-- `accepted_slots if accepted_slots else {all of them}`: an empty set counts as no choice.
pub to_accept : Option (List ℕ) → List Slot → List ℕ
to_accept none slots = slot_ids slots
to_accept (some []) slots = slot_ids slots
to_accept (some (x ∷ xs)) slots = set_of (x ∷ xs)

pub is_closed : Plan → Bool
is_closed plan = str_eq plan.status "accepted" || str_eq plan.status "declined"

pub decision_of : Plan → List ℕ → List ℕ → Decision
decision_of plan created updated = record {
  status = plan.status;
  created_task_ids = created;
  updated_task_ids = updated;
  version = plan.version;
}

-- The tasks that a decision has made and changed so far.
pub record Applied : Type 0 where
  pub created : List ℕ
  pub updated : List ℕ

abbrev pub closed_plan : Plan → List ℕ → Applied → Plan
closed_plan plan chosen applied = record plan {
  status = if length chosen == length plan.slots then "accepted" else "partially_accepted";
  created_task_ids = applied.created;
  updated_task_ids = applied.updated;
  applied_slot_ids = chosen;
}

module _ (service : TaskService) (user_id : ℕ) where
  open service use {Db, get_task, update_task, create_task}

  after_call : Result ℕ × Db → (ℕ → Applied) → Result Applied × Db
  after_call (raise e, db) note = (raise e, db)
  after_call (ok i, db) note = (ok (note i), db)

  -- The task of one accepted slot, whose duration is `minutes`.
  write_task : Db → Applied → Slot → ℕ → Result Applied × Db
  write_task db applied slot minutes = elim slot.task_id [
    | none ↦
        after_call
          (create_task db user_id (record {
            title = slot.title;
            description = slot.description;
            due_at = slot.start_at;
            estimated_minutes = minutes;
            status = none;
          }))
          (λ i. record applied { created = applied.created ++ i ∷ [] })
    | some task_id ↦ elim (get_task db task_id user_id) [
      | none ↦ (ok applied, db)
      | some task ↦
          after_call
            (update_task db task (record {
              title = slot.title;
              description = slot.description;
              due_at = slot.start_at;
              estimated_minutes = minutes;
              status = some "todo";
            }))
            (λ i. record applied { updated = applied.updated ++ i ∷ [] })
    ]
  ]

  with_duration : Db → Applied → Slot → Result ℕ → Result Applied × Db
  with_duration db applied slot (raise e) = (raise e, db)
  with_duration db applied slot (ok minutes) = write_task db applied slot minutes

  accept_slot : List ℕ → Db → Applied → Slot → Result Applied × Db
  accept_slot chosen db applied slot =
      if mem slot.slot_id chosen
      then with_duration db applied slot (calculate_duration slot.start_at slot.end_at)
      else (ok applied, db)

  go_on : (Db → Applied → Result Applied × Db) → Result Applied × Db → Result Applied × Db
  go_on next (raise e, db) = (raise e, db)
  go_on next (ok applied, db) = next db applied

  -- The loop over the slots, which ends at the first exception.
  accept_slots : List ℕ → List Slot → Db → Applied → Result Applied × Db
  accept_slots chosen [] db applied = (ok applied, db)
  accept_slots chosen (slot ∷ slots) db applied =
      go_on (λ db' applied'. accept_slots chosen slots db' applied')
        (accept_slot chosen db applied slot)

  -- A decision's result, the plan as it is left, and the database.
  abbrev pub Outcome : Type 0
  Outcome = Result Decision × Plan × Db

  decline : ℕ → Plan → Db → Outcome
  decline now plan db =
      let declined = record plan { status = "declined"; applied_slot_ids = [] } in
      (ok (decision_of declined [] []), append_version now declined "declined" [] [], db)

  -- What follows the loop over the slots.
  close : ℕ → Plan → List ℕ → Result Applied × Db → Outcome
  close now plan chosen (raise e, db) = (raise e, plan, db)
  close now plan chosen (ok applied, db) =
      let closed = closed_plan plan chosen applied in
      (
        ok (decision_of closed applied.created applied.updated),
        append_version now closed closed.status applied.created applied.updated,
        db,
      )

  accept_edited : ℕ → Option (List ℕ) → Plan → Db → Result (List Slot) → Outcome
  accept_edited now accepted_slots plan db (raise e) = (raise e, plan, db)
  accept_edited now accepted_slots plan db (ok slots) =
      let edited = record plan { slots = slots } in
      let chosen = to_accept accepted_slots slots in
      close now edited chosen (accept_slots chosen slots db (record { created = []; updated = [] }))

  decide_plan : ℕ → String → Option (List ℕ) → List SlotEdit → Plan → Db → Outcome
  decide_plan now decision accepted_slots edits plan db =
      if is_closed plan
      then (ok (decision_of plan plan.created_task_ids plan.updated_task_ids), plan, db)
      else if str_eq decision "decline"
      then decline now plan db
      else accept_edited now accepted_slots plan db (validate_slots plan.slots edits)

  stored : ℕ → Dict Plan → Outcome → Result Decision × Dict Plan × Db
  stored plan_request_id plans (r, plan, db) = (r, put plan_request_id plan plans, db)

  decide_found :
      ℕ
      → String
      → Option (List ℕ)
      → List SlotEdit
      → ℕ
      → Dict Plan
      → Db
      → Option Plan
      → Result Decision × Dict Plan × Db
  decide_found now decision accepted_slots edits plan_request_id plans db none =
      (raise (value_error "plan_not_found"), plans, db)
  decide_found now decision accepted_slots edits plan_request_id plans db (some plan) =
      stored plan_request_id plans (decide_plan now decision accepted_slots edits plan db)

  -- `apply_plan_decision`
  pub apply_plan_decision :
      ℕ
      → ℕ
      → String
      → Option (List ℕ)
      → List SlotEdit
      → Dict Plan
      → Db
      → Result Decision × Dict Plan × Db
  apply_plan_decision now plan_request_id decision accepted_slots edits plans db =
      decide_found now decision accepted_slots edits plan_request_id plans db
        (get_plan_by_request_id plan_request_id user_id plans)

-- Opens the whole of this component, for evaluation.
unfoldable pub decision_program : Unit {0}
unfolding set_of slot_ids to_accept is_closed after_call write_task with_duration accept_slot go_on
    accept_slots decision_of decline close accept_edited decide_plan stored decide_found
    apply_plan_decision
decision_program = tt
