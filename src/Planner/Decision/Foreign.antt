-- ===== src/Planner/Decision/Foreign.antt =====
-- A decision on slots that the plan does not have (Backend/app/services/planner_service.py).
use life_merge.Base.{
  ℕ, ◌≡◌, refl, false, Option, some, List, [], ◌∷◌, ◌++◌, String, str_eq, ◌==◌, mem, length, All,
  if◌then◌else◌,
}
use life_merge.Base.Dict.{Dict, get, get-put}
use life_merge.Base.Result.{ok}
use life_merge.Planner.Model.{Slot}
use life_merge.Planner.Edits.{validate_slots-no_edits}
use life_merge.Planner.History.{Plan, append_version}
use life_merge.Planner.Service.{get_plan_by_request_id}
use life_merge.Planner.Decision.{
  TaskService, Applied, is_closed, to_accept, accept_slot, go_on, accept_slots, close,
  accept_edited, decide_plan, stored, decide_found, apply_plan_decision, decision_of,
}

module _ (service : TaskService) (user_id : ℕ) where
  open service use {Db}

  accept_slots-foreign :
      (chosen : List ℕ) (slots : List Slot) (db : Db) (applied : Applied)
      → All (λ s. mem s.slot_id chosen ≡ false) slots
      → accept_slots service user_id chosen slots db applied ≡ (ok applied, db)
  unfolding accept_slots accept_slot go_on
  accept_slots-foreign chosen [] db applied h = refl
  accept_slots-foreign chosen (slot ∷ slots) db applied h =
      rw h.0 (accept_slots-foreign chosen slots db applied h.1)

  -- "accepted" just if as many slots are chosen as the plan has.
  abbrev pub status_by_number : Option (List ℕ) → Plan → String
  status_by_number accepted plan =
      if length (to_accept accepted plan.slots) == length plan.slots
      then "accepted"
      else "partially_accepted"

  -- Accepting slots of which the plan has none, without edits, writes no task, and yet it closes an open
  -- plan: the plan that is stored has the status "accepted" if as many slots were chosen as it has, and
  -- "partially_accepted" otherwise, with the chosen identifiers for the applied ones and one entry
  -- more in its history. The answer has that status and no tasks, and every other plan is kept.
  pub apply_plan_decision-foreign :
      (now request other : ℕ) (decision : String) (accepted : Option (List ℕ)) (plans : Dict Plan)
      (db : Db) (plan : Plan)
      → get_plan_by_request_id request user_id plans ≡ some plan
      → is_closed plan ≡ false
      → str_eq decision "decline" ≡ false
      → All (λ s. mem s.slot_id (to_accept accepted plan.slots) ≡ false) plan.slots
      → ((apply_plan_decision service user_id now request decision accepted [] plans db).0
          ≡ ok (record {
            status = status_by_number accepted plan;
            created_task_ids = [];
            updated_task_ids = [];
            version = plan.version;
          }))
        × (get other
              (apply_plan_decision service user_id now request decision accepted [] plans db).1
            ≡ (if request == other
                then some (record plan {
                  status = status_by_number accepted plan;
                  created_task_ids = [];
                  updated_task_ids = [];
                  applied_slot_ids = to_accept accepted plan.slots;
                  history =
                      plan.history
                      ++ record {
                        version = plan.version;
                        status = status_by_number accepted plan;
                        slots = plan.slots;
                        conflicts = plan.conflicts;
                        created_task_ids = [];
                        updated_task_ids = [];
                        logged_at = now;
                      }
                        ∷ [];
                })
                else get other plans))
        × ((apply_plan_decision service user_id now request decision accepted [] plans db).2 ≡ db)
  unfolding apply_plan_decision decide_found stored decide_plan accept_edited close decision_of
      append_version
  apply_plan_decision-foreign now request other decision accepted plans db plan p open_plan differs
        h =
      rw
        (
          p,
          open_plan,
          differs,
          validate_slots-no_edits plan.slots,
          accept_slots-foreign (to_accept accepted plan.slots) plan.slots db _ h,
        )
        (refl, get-put request other _ plans, refl)
