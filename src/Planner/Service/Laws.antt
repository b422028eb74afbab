-- ===== src/Planner/Service/Laws.antt =====
-- What `enqueue_planner_run` leaves in the store of plans (Backend/app/services/planner_service.py).
use life_merge.Base.{
  ℕ, ◌≡◌, refl, Option, none, some, List, [], ◌∷◌, ◌++◌, ◌==◌, if◌then◌else◌, arith, Bool-cases,
  inl, inr, ==_iff, false,
}
use life_merge.Base.Dict.{Dict, get, get-put}
use life_merge.Planner.Answer.{AiPlan}
use life_merge.Planner.History.{Plan, HistoryEntry, append_version}
use life_merge.Planner.Service.{new_plan, owned, enqueue_planner_run, get_plan_by_request_id}

-- The history that a plan starts from.
abbrev pub old_history : Option Plan → List HistoryEntry
old_history none = []
old_history (some p) = p.history

-- After a run, the plan of the request is found by its user and by nobody else: it is the answer's
-- plan, its history is that of the plan which stood there before with one entry more, which
-- records the answer, and the plans of the other requests are found as before.
pub get_plan-enqueue :
    (now user_id : ℕ) (applied_slot_ids : List ℕ) (answer : AiPlan) (request other : ℕ) (reader : ℕ)
    (plans : Dict Plan)
    → get_plan_by_request_id other reader
        (enqueue_planner_run now user_id applied_slot_ids answer request plans)
      ≡ (if request == other
          then (if user_id == reader
              then some (record (new_plan now user_id applied_slot_ids answer (get request plans)) {
                history =
                    old_history (get request plans)
                    ++ record {
                      version = answer.version;
                      status = answer.status;
                      slots = answer.slots;
                      conflicts = answer.conflicts;
                      created_task_ids = [];
                      updated_task_ids = [];
                      logged_at = now;
                    }
                      ∷ [];
              })
              else none)
          else get_plan_by_request_id other reader plans)
unfolding get_plan_by_request_id enqueue_planner_run append_version owned new_plan
get_plan-enqueue now user_id applied_slot_ids answer request other reader plans =
    rw get-put
      (elim (Bool-cases (request == other)) [ inl e ↦ rw e (ground arith) | inr e ↦ rw e refl ])

owned-foreign :
    (user_id reader : ℕ) (o : Option Plan) (plan : Plan)
    → owned user_id o ≡ some plan
    → (user_id == reader) ≡ false
    → owned reader o ≡ none
unfolding owned
owned-foreign user_id reader none plan found differs = refl
owned-foreign user_id reader (some p) plan found differs =
    elim (Bool-cases (p.user_id == user_id)) [
      | inl e ↦ rw ((==_iff p.user_id user_id).0 e, differs) refl
      | inr e ↦ let no : none ≡ some plan = rw e at found in cc
    ]

-- A plan that a user finds is found by nobody else.
pub get_plan-foreign :
    (request user_id reader : ℕ) (plans : Dict Plan) (plan : Plan)
    → get_plan_by_request_id request user_id plans ≡ some plan
    → (user_id == reader) ≡ false
    → get_plan_by_request_id request reader plans ≡ none
unfolding get_plan_by_request_id
get_plan-foreign request user_id reader plans plan found differs =
    owned-foreign user_id reader (get request plans) plan found differs
