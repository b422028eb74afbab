-- ===== src/Planner/Orchestration.antt =====
-- Backend/app/services/planner_orchestration.py and api/ai_access.py: who may use the planner, and the
-- routes that run it, read a plan, plan again and decide. `request_ai_plan` is the argument `ask`;
-- the events and log lines are left out, and the mapping of slots to their schemas, which copies
-- every field.
pub mod Replan
mod Tests
use life_merge.Base.{
  ℕ, ◌≡◌, Bool, true, false, not, ◌||◌, Option, none, some, List, [], ◌∷◌, String, str_eq, ◌==◌,
  if◌then◌else◌,
}
use life_merge.Base.Dict.{Dict}
use life_merge.Base.Result.{Error, Result, ok, raise, value_error, http_error, ◌>>=◌}
use life_merge.Idempotency.{Session, IdempotencyKey, commit, enforce_idempotency}
use life_merge.Planner.Model.{Slot, Conflict, Task, Entry, Event}
use life_merge.Planner.Edits.{SlotEdit}
use life_merge.Planner.Generate.{Payload}
use life_merge.Planner.Answer.{AiPlan}
use life_merge.Planner.History.{Plan}
use life_merge.Planner.Service.{enqueue_planner_run, get_plan_by_request_id}
use life_merge.Planner.Decision.{TaskService, Decision, apply_plan_decision}

-- `PlannerRunIn` and `PlannerReplanIn`, where the generator's part of the payload is read as in
-- `Generate`.
pub record PlannerRunIn : Type 0 where
  pub request_id : String
  pub subscription_status : String
  pub previous_plan_version : Option ℕ
  pub applied_slot_ids : List ℕ
  pub payload : Payload

-- The dict of `build_run_payload` and `build_replan_payload`.
pub record RunPayload : Type 0 where
  pub subscription_status : String
  pub previous_plan_version : ℕ
  pub applied_slot_ids : List ℕ
  pub payload : Payload

-- What the routes answer with: a run, an upgrade that is required, or a plan.
pub data PlannerOut : Type 0 where
  upgrade_required : PlannerOut
  requested : (plan_request_id : ℕ) (status source : String) → PlannerOut
  plan_out :
      (plan_request_id : ℕ) (status : String) (slots : List Slot) (conflicts : List Conflict)
      (version : ℕ) (source : String)
      → PlannerOut

-- `subscription_status.lower() not in ALLOWED_AI_SUBSCRIPTIONS`
pub ensure_ai_access : (String → String) → String → Result (Unit {0})
ensure_ai_access lower subscription_status =
    if str_eq (lower subscription_status) "trial" || str_eq (lower subscription_status) "pro"
    then ok tt
    else raise (http_error "403" "ai_access_denied")

-- `exc.status_code == 403`
upgrade_or_raise : Error → Result Bool
upgrade_or_raise (http_error status code) =
    if str_eq status "403" then ok false else raise (http_error status code)
upgrade_or_raise e = raise e

allowed_by : Result (Unit {0}) → Result Bool
allowed_by (ok u) = ok true
allowed_by (raise e) = upgrade_or_raise e

-- `ensure_access`, the field `allowed` of its result.
pub ensure_access : (String → String) → String → Result Bool
ensure_access lower subscription_status = allowed_by (ensure_ai_access lower subscription_status)

pub build_run_payload : PlannerRunIn → RunPayload
build_run_payload body = record {
  subscription_status = body.subscription_status;
  previous_plan_version = elim body.previous_plan_version [ none ↦ 0 | some version ↦ version ];
  applied_slot_ids = body.applied_slot_ids;
  payload = body.payload;
}

or_list : List ℕ → List ℕ → List ℕ
or_list [] other = other
or_list (x ∷ xs) other = x ∷ xs

pub build_replan_payload : PlannerRunIn → Plan → RunPayload
build_replan_payload body plan = record {
  subscription_status = body.subscription_status;
  previous_plan_version = plan.version;
  applied_slot_ids = or_list body.applied_slot_ids plan.applied_slot_ids;
  payload = body.payload;
}

pub ensure_plan_exists : Option Plan → Result Plan
ensure_plan_exists none = raise (http_error "404" "not_found")
ensure_plan_exists (some plan) = ok plan

pub plan_payload : ℕ → Plan → PlannerOut
plan_payload plan_request_id plan =
    plan_out plan_request_id plan.status plan.slots plan.conflicts plan.version plan.source

-- `set(ids) if ids else None`; a set is the list of its members.
set_or_none : Option (List ℕ) → Option (List ℕ)
set_or_none none = none
set_or_none (some []) = none
set_or_none (some (x ∷ xs)) = some (x ∷ xs)

-- `except ValueError`
not_found_of : Error → Error
not_found_of (value_error message) = http_error "404" "not_found"
not_found_of e = e

-- `get_plan`
pub get_plan : ℕ → ℕ → Dict Plan → Result PlannerOut
get_plan plan_request_id user_id plans =
    ensure_plan_exists (get_plan_by_request_id plan_request_id user_id plans) >>= λ plan.
    ok (plan_payload plan_request_id plan)

-- The session and the store of plans that a call leaves.
abbrev pub State : Type 0 → Type 0
State Json = Session Json × Dict Plan

module _ {Json : Type 0} (lower : String → String) (ask : ℕ → RunPayload → Result AiPlan)
    (method path : String) (user_id now : ℕ) where
  asked : List ℕ → ℕ → State Json → Result AiPlan → Result AiPlan × State Json
  asked applied_slot_ids plan_request_id state (raise e) = (raise e, state)
  asked applied_slot_ids plan_request_id (session, plans) (ok plan) = (
    ok plan,
    (session, enqueue_planner_run now user_id applied_slot_ids plan plan_request_id plans),
  )

  -- `enqueue_planner_run` with a payload.
  enqueue : RunPayload → ℕ → State Json → Result AiPlan × State Json
  enqueue payload plan_request_id state =
      asked payload.applied_slot_ids plan_request_id state (ask plan_request_id payload)

  run_answer : ℕ → Result AiPlan × State Json → Result PlannerOut × State Json
  run_answer plan_request_id (raise e, state) = (raise e, state)
  run_answer plan_request_id (ok plan, state) =
      (ok (requested plan_request_id "ready" plan.source), state)

  run_claimed :
      PlannerRunIn
      → ℕ
      → Dict Plan
      → Result (Unit {0}) × Session Json
      → Result PlannerOut × State Json
  run_claimed body fresh plans (raise e, session) = (raise e, (session, plans))
  run_claimed body fresh plans (ok u, session) =
      run_answer fresh (enqueue (build_run_payload body) fresh (session, plans))

  run_allowed :
      PlannerRunIn → Option String → ℕ → State Json → Result Bool → Result PlannerOut × State Json
  run_allowed body idempotency_key fresh state (raise e) = (raise e, state)
  run_allowed body idempotency_key fresh state (ok false) = (ok upgrade_required, state)
  run_allowed body idempotency_key fresh (session, plans) (ok true) =
      run_claimed body fresh plans
        (enforce_idempotency user_id method path (some body.request_id) idempotency_key session)

  -- `run_planner`; `fresh` is what `uuid4` draws for the request.
  pub run_planner : PlannerRunIn → Option String → ℕ → State Json → Result PlannerOut × State Json
  run_planner body idempotency_key fresh state =
      run_allowed body idempotency_key fresh state (ensure_access lower body.subscription_status)

  replanned : ℕ → Result AiPlan × State Json → Result PlannerOut × State Json
  replanned plan_request_id (raise e, state) = (raise e, state)
  replanned plan_request_id (ok plan, (session, plans)) =
      (get_plan plan_request_id user_id plans, (session, plans))

  replan_claimed :
      PlannerRunIn
      → ℕ
      → Plan
      → Dict Plan
      → Result (Unit {0}) × Session Json
      → Result PlannerOut × State Json
  replan_claimed body plan_request_id plan plans (raise e, session) = (raise e, (session, plans))
  replan_claimed body plan_request_id plan plans (ok u, session) =
      replanned plan_request_id
        (enqueue (build_replan_payload body plan) plan_request_id (session, plans))

  replan_found :
      PlannerRunIn → Option String → ℕ → State Json → Result Plan → Result PlannerOut × State Json
  replan_found body idempotency_key plan_request_id state (raise e) = (raise e, state)
  replan_found body idempotency_key plan_request_id (session, plans) (ok plan) =
      replan_claimed body plan_request_id plan plans
        (enforce_idempotency user_id method path (some body.request_id) idempotency_key session)

  replan_allowed :
      PlannerRunIn → Option String → ℕ → State Json → Result Bool → Result PlannerOut × State Json
  replan_allowed body idempotency_key plan_request_id state (raise e) = (raise e, state)
  replan_allowed body idempotency_key plan_request_id state (ok false) =
      (ok upgrade_required, state)
  replan_allowed body idempotency_key plan_request_id state (ok true) =
      replan_found body idempotency_key plan_request_id state
        (ensure_plan_exists (get_plan_by_request_id plan_request_id user_id state.1))

  -- `replan`
  pub replan : PlannerRunIn → Option String → ℕ → State Json → Result PlannerOut × State Json
  replan body idempotency_key plan_request_id state =
      replan_allowed body idempotency_key plan_request_id state
        (ensure_access lower body.subscription_status)

-- `PlannerDecisionIn`
pub record PlannerDecisionIn : Type 0 where
  pub request_id : String
  pub decision : String
  pub accepted_slot_ids : Option (List ℕ)
  pub edits : List SlotEdit

module _ {Json : Type 0} (service : TaskService) (method path : String) (user_id now : ℕ) where
  decided :
      Session Json
      → Result Decision × Dict Plan × service.Db
      → Result Decision × Session Json × Dict Plan × service.Db
  decided session (raise e, plans, db) = (raise (not_found_of e), session, plans, db)
  decided session (ok decision, plans, db) = (ok decision, commit session, plans, db)

  decide_claimed :
      PlannerDecisionIn
      → ℕ
      → Dict Plan
      → service.Db
      → Result (Unit {0}) × Session Json
      → Result Decision × Session Json × Dict Plan × service.Db
  decide_claimed body plan_request_id plans db (raise e, session) = (raise e, session, plans, db)
  decide_claimed body plan_request_id plans db (ok u, session) = decided session (
      apply_plan_decision service user_id now plan_request_id body.decision
        (set_or_none body.accepted_slot_ids) body.edits plans db)

  -- `decide_plan`, with the decision from which the answer is read.
  pub decide_plan :
      PlannerDecisionIn
      → Option String
      → ℕ
      → Session Json
      → Dict Plan
      → service.Db
      → Result Decision × Session Json × Dict Plan × service.Db
  decide_plan body idempotency_key plan_request_id session plans db =
      decide_claimed body plan_request_id plans db
        (enforce_idempotency user_id method path (some body.request_id) idempotency_key session)
