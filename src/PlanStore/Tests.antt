-- ===== src/PlanStore/Tests.antt =====
-- A plan that is saved over another one.
use life_merge.Base.{◌≡◌, refl, false, none, some, [], ◌∷◌, String}
use life_merge.Base.Result.{ok, raise, integrity_error}
use life_merge.PlanStore.Models.{
  DomainPlannerSlot, DomainPlannerPlan, SqlPlannerSlot, SqlPlannerPlan,
}
use life_merge.PlanStore.Repository.{save, plan_store_program}

abbrev read_row : SqlPlannerSlot
read_row = record {
  slot_id = 1;
  task_id = some 3;
  title = "Read";
  description = none;
  start_at = 100;
  end_at = 160;
  created_at = 10;
  updated_at = 10;
}

abbrev stored : SqlPlannerPlan String
stored = record {
  id = 5;
  user_id = 7;
  plan_request_id = 9;
  status = "requested";
  version = 1;
  source = "ai";
  request_payload = "{}";
  response_payload = none;
  created_at = 10;
  updated_at = 10;
  deleted = false;
  slots = record read_row { slot_id = 4; title = "Walk" } ∷ read_row ∷ [];
  conflicts = [];
}

abbrev read_slot : DomainPlannerSlot
read_slot = record {
  slot_id = 1;
  task_id = some 3;
  title = "Read on";
  description = none;
  start_at = 200;
  end_at = 260;
  created_at = 30;
  updated_at = 30;
}

abbrev plan : DomainPlannerPlan String
plan = record {
  plan_id = 5;
  user_id = 8;
  plan_request_id = 9;
  status = "accepted";
  version = 2;
  source = "ai";
  slots = record read_slot { slot_id = 2; title = "Run" } ∷ read_slot ∷ [];
  conflicts = [];
  request_payload = "{}";
  response_payload = "{}";
  created_at = 30;
  updated_at = 30;
  deleted = false;
}

-- The walk is gone, and the reading keeps its date of creation and its place.
save_test :
    save plan (stored ∷ [])
    ≡ ok (
        record stored {
          status = "accepted";
          version = 2;
          response_payload = some "{}";
          updated_at = 30;
          slots =
              record read_row { title = "Read on"; start_at = 200; end_at = 260; updated_at = 30 }
              ∷ record read_row {
                slot_id = 2;
                title = "Run";
                start_at = 200;
                end_at = 260;
                created_at = 30;
                updated_at = 30;
              }
              ∷ [];
        }
        ∷ [])
unfolding plan_store_program
save_test = refl

-- A slot of another plan.
save_clash_test :
    save plan (stored ∷ record stored { id = 6; slots = record read_row { slot_id = 2 } ∷ [] } ∷ [])
    ≡ raise integrity_error
unfolding plan_store_program
save_clash_test = refl
