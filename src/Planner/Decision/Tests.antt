-- ===== src/Planner/Decision/Tests.antt =====
-- The theorems on plans and on decisions at concrete inputs.
use life_merge.Base.{◌+◌, ◌≡◌, refl, none, some, [], ◌∷◌, length, ◌==◌, if◌then◌else◌}
use life_merge.Base.Dict.{Dict, get, put}
use life_merge.Base.Result.{ok}
use life_merge.Planner.Edits.{edits_program}
use life_merge.Planner.Answer.{AiPlan}
use life_merge.Planner.History.{
  Plan, append_version, restore_version, history_program, restore_version-append_version,
  latest_entry, restored,
}
use life_merge.Planner.Service.{new_plan, service_program}
use life_merge.Planner.Decision.{TaskService, TaskPatch, apply_plan_decision, decision_program}
use life_merge.Planner.Decision.Foreign.{apply_plan_decision-foreign}
use life_merge.Planner.Values.{values_program}
use life_merge.Planner.Decision.Laws.{
  Extends, apply_plan_decision-decline, apply_plan_decision-Extends,
}
use life_merge.Planner.Tests.{two_slots}

abbrev answer : AiPlan
answer = record { status = "ready"; slots = two_slots; conflicts = []; version = 2; source = "ai" }

abbrev plan : Plan
plan = new_plan 50 7 [] answer none

abbrev accepted_plan : Plan
accepted_plan = record plan { status = "accepted"; created_task_ids = 90 ∷ [] }

abbrev logged_plan : Plan
logged_plan = record plan { history = (append_version 60 plan "ready" [] []).history; slots = [] }

restore_version-append_version_example : restore_version logged_plan 2 ≡ (
    if 2 == 2
    then some (record logged_plan {
      status = "ready";
      slots = plan.slots;
      conflicts = plan.conflicts;
      version = 2;
      created_task_ids = [];
      updated_task_ids = [];
    })
    else restored logged_plan 2 (latest_entry 2 plan.history))
unfolding service_program
restore_version-append_version_example =
    restore_version-append_version 60 plan logged_plan "ready" [] [] 2 refl

-- The tasks of a user, by identifier, of which none is another's.
abbrev memory : TaskService
memory = record {
  Db = Dict TaskPatch;
  get_task = λ db task_id user_id. elim (get task_id db) [ none ↦ none | some p ↦ some task_id ];
  update_task = λ db task_id patch. (ok task_id, put task_id patch db);
  create_task = λ db user_id patch. (ok (200 + length db), put (200 + length db) patch db);
}

abbrev empty_db : Dict TaskPatch
empty_db = []

abbrev plans : Dict Plan
plans = (3, plan) ∷ (4, accepted_plan) ∷ []

-- Both slots are accepted by default; the task of the first is gone, the second makes a task.
accept_test :
    (apply_plan_decision memory 7 70 3 "accept" none [] plans empty_db).0
    ≡ ok (record {
      status = "accepted";
      created_task_ids = 200 ∷ [];
      updated_task_ids = [];
      version = 2;
    })
unfolding decision_program service_program edits_program history_program
    life_merge.Planner.Values.values_program
accept_test = refl

-- After plan 3 is declined, it cannot be accepted.
apply_plan_decision-decline_example :
    ((apply_plan_decision memory 7 80 3 "accept" none []
        (apply_plan_decision memory 7 70 3 "decline" none [] plans empty_db).1
        (apply_plan_decision memory 7 70 3 "decline" none [] plans empty_db).2).0
      ≡ ok (record {
        status = "declined";
        created_task_ids = [];
        updated_task_ids = [];
        version = 2;
      }))
    × (get 4
          (apply_plan_decision memory 7 80 3 "accept" none []
            (apply_plan_decision memory 7 70 3 "decline" none [] plans empty_db).1
            (apply_plan_decision memory 7 70 3 "decline" none [] plans empty_db).2).1
        ≡ get 4 (apply_plan_decision memory 7 70 3 "decline" none [] plans empty_db).1)
    × ((apply_plan_decision memory 7 80 3 "accept" none []
          (apply_plan_decision memory 7 70 3 "decline" none [] plans empty_db).1
          (apply_plan_decision memory 7 70 3 "decline" none [] plans empty_db).2).2
        ≡ empty_db)
unfolding service_program decision_program life_merge.Planner.History.append_version
apply_plan_decision-decline_example =
    apply_plan_decision-decline memory 7 70 80 3 4 "accept" none none [] [] plans empty_db plan refl
      refl

apply_plan_decision-Extends_example :
    (new : Plan) × (get 3 (apply_plan_decision memory 7 70 3 "accept" none [] plans empty_db).1
      ≡ some new)
    × Extends plan new
unfolding service_program
apply_plan_decision-Extends_example =
    apply_plan_decision-Extends memory 7 70 3 "accept" none [] plans empty_db plan refl

-- The plan as it is stored after two identifiers are accepted that belong to no slot.
abbrev emptied_plan : Plan
emptied_plan = record (append_version 70 (record plan { status = "accepted" }) "accepted" [] []) {
  applied_slot_ids = 1 ∷ 2 ∷ [];
}

apply_plan_decision-foreign_example :
    ((apply_plan_decision memory 7 70 3 "accept" (some (1 ∷ 2 ∷ [])) [] plans empty_db).0
      ≡ ok (record {
        status = "accepted";
        created_task_ids = [];
        updated_task_ids = [];
        version = 2;
      }))
    × (get 3 (apply_plan_decision memory 7 70 3 "accept" (some (1 ∷ 2 ∷ [])) [] plans empty_db).1
        ≡ some emptied_plan)
    × ((apply_plan_decision memory 7 70 3 "accept" (some (1 ∷ 2 ∷ [])) [] plans empty_db).2
        ≡ empty_db)
unfolding service_program decision_program life_merge.Planner.History.append_version
apply_plan_decision-foreign_example =
    apply_plan_decision-foreign memory 7 70 3 3 "accept" (some (1 ∷ 2 ∷ [])) plans empty_db plan
      refl refl refl (refl, (refl, tt))
