-- ===== src/Planner/Service.antt =====
-- `PlannerService` of Backend/app/services/planner_service.py: the plans by request, their
-- creation (the decisions on them are in `Decision`). The process-wide `_GENERATED_PLANS` is a dict from requests
-- to plans; what the service writes into a plan's dict is put back into it at once.
pub mod Laws
use life_merge.Base.{
  ◌≡◌, arith, ℕ, ◌+◌, Bool, true, false, not, ◌||◌, Option, none, some, List, [], ◌∷◌, ◌++◌, String,
  str_eq, ◌==◌, mem, map, length, if◌then◌else◌, refl, sym, ap, ◌∙◌, ==_refl, some_eq, Bool-cases,
  inl, inr,
}
use life_merge.Base.Dict.{Dict, get, put, get-put}
use life_merge.Base.Result.{Error, Result, ok, raise, value_error, ◌>>=◌}
use life_merge.Planner.Time.{DateTime}
use life_merge.Planner.Model.{Slot}
use life_merge.Planner.Values.{calculate_duration}
use life_merge.Planner.Edits.{SlotEdit, validate_slots}
use life_merge.Planner.Answer.{AiPlan}
use life_merge.Planner.History.{Plan, append_version}

-- `existing_plan.get("created_at") if existing_plan else now`, and the history alike.
pub new_plan : ℕ → ℕ → List ℕ → AiPlan → Option Plan → Plan
new_plan now user_id applied_slot_ids plan existing_plan = record {
  user_id = user_id;
  status = plan.status;
  slots = plan.slots;
  conflicts = plan.conflicts;
  version = plan.version;
  created_at = elim existing_plan [ none ↦ now | some p ↦ p.created_at ];
  applied_slot_ids = applied_slot_ids;
  history = elim existing_plan [ none ↦ [] | some p ↦ p.history ];
  source = plan.source;
  created_task_ids = [];
  updated_task_ids = [];
}

-- `enqueue_planner_run`, after `request_ai_plan` has returned `plan` for the request.
pub enqueue_planner_run : ℕ → ℕ → List ℕ → AiPlan → ℕ → Dict Plan → Dict Plan
enqueue_planner_run now user_id applied_slot_ids plan plan_request_id plans =
    put plan_request_id
      (append_version now (new_plan now user_id applied_slot_ids plan (get plan_request_id plans))
        plan.status [] [])
      plans

owned : ℕ → Option Plan → Option Plan
owned user_id none = none
owned user_id (some plan) = if plan.user_id == user_id then some plan else none

-- `get_plan_by_request_id`
pub get_plan_by_request_id : ℕ → ℕ → Dict Plan → Option Plan
get_plan_by_request_id plan_request_id user_id plans = owned user_id (get plan_request_id plans)

pub get_plan-get :
    (request user_id : ℕ) (plans : Dict Plan) (plan : Plan)
    → get_plan_by_request_id request user_id plans ≡ some plan
    → get request plans ≡ some plan
unfolding get_plan_by_request_id owned
get_plan-get request user_id plans plan h = ground arith

owned_new :
    (user_id : ℕ) (found : Option Plan) (plan new : Plan)
    → owned user_id found ≡ some plan
    → new.user_id ≡ plan.user_id
    → owned user_id (some new) ≡ some new
unfolding owned
owned_new user_id none plan new h same = cc
owned_new user_id (some old) plan new h same = elim (Bool-cases (old.user_id == user_id)) [
  | inl mine ↦
      let found : some old ≡ some plan = rw mine at h in
      let owner : new.user_id ≡ old.user_id = same ∙ ap (λ q. q.user_id) (sym (some_eq found)) in
      rw (owner, mine) refl
  | inr e ↦ let no : none ≡ some plan = rw e at h in cc
]

-- Whoever finds a plan finds the plan of the same owner that takes its place.
pub get_plan-put :
    (request user_id : ℕ) (plans : Dict Plan) (plan new : Plan)
    → get_plan_by_request_id request user_id plans ≡ some plan
    → new.user_id ≡ plan.user_id
    → get_plan_by_request_id request user_id (put request new plans) ≡ some new
unfolding get_plan_by_request_id
get_plan-put request user_id plans plan new p same =
    rw (get-put request request new plans, ==_refl request)
      (owned_new user_id (get request plans) plan new p same)

-- Opens the whole of this component, for evaluation.
unfoldable pub service_program : Unit {0}
unfolding new_plan enqueue_planner_run owned get_plan_by_request_id get put
service_program = tt
