-- ===== src/Planner/Orchestration/Tests.antt =====
-- A new plan for one user, seen by another.
use life_merge.Base.{ℕ, ◌≡◌, refl, none, [], ◌∷◌, String}
use life_merge.Base.Result.{Result, ok}
use life_merge.Idempotency.{open_session}
use life_merge.Planner.Generate.{Payload, absent}
use life_merge.Planner.Answer.{AiPlan}
use life_merge.Planner.History.{Plan}
use life_merge.Planner.Service.{get_plan_by_request_id}
use life_merge.Planner.Orchestration.{PlannerRunIn, RunPayload, State, replan}
use life_merge.Planner.Orchestration.Replan.{get_plan-replan}

abbrev payload : Payload
payload = record {
  week_start = absent;
  tasks = [];
  work_schedule = [];
  preferences = none;
  calendar_events = [];
  completed_task_ids = [];
  rescheduled_task_ids = [];
}

abbrev body : PlannerRunIn
body = record {
  request_id = "r1";
  subscription_status = "trial";
  previous_plan_version = none;
  applied_slot_ids = [];
  payload = payload;
}

abbrev ask : ℕ → RunPayload → Result AiPlan
ask request run =
    ok record { status = "ready"; slots = []; conflicts = []; version = 2; source = "ai" }

abbrev plan_of : ℕ → Plan
plan_of user_id = record {
  user_id = user_id;
  status = "ready";
  slots = [];
  conflicts = [];
  version = 1;
  created_at = 5;
  applied_slot_ids = [];
  history = [];
  source = "ai";
  created_task_ids = [];
  updated_task_ids = [];
}

-- Request 1 is user 7's, request 2 user 8's.
abbrev state : State String
state = (open_session [], (1, plan_of 7) ∷ (2, plan_of 8) ∷ [])

get_plan-replan_example :
    get_plan_by_request_id 2 8 (replan (λ s. s) ask "POST" "/run" 7 100 body none 1 state).1.1
    ≡ get_plan_by_request_id 2 8 state.1
get_plan-replan_example =
    get_plan-replan (λ s. s) ask "POST" "/run" 7 100 body none 1 2 8 state refl
