-- ===== src/PlanStore/Models.antt =====
-- Backend/app/models/planner.py and planner_models.py.
use life_merge.Base.{ℕ, Bool, Option, List, String}

pub record DomainPlannerSlot : Type 0 where
  pub slot_id : ℕ
  pub task_id : Option ℕ
  pub title : String
  pub description : Option String
  pub start_at : ℕ
  pub end_at : ℕ
  pub created_at : ℕ
  pub updated_at : ℕ

pub record DomainPlannerConflict : Type 0 where
  pub conflict_id : ℕ
  pub slot_id : Option ℕ
  pub reason : String
  pub severity : String
  pub details : Option String
  pub related_task_id : Option ℕ
  pub created_at : ℕ

pub record DomainPlannerPlan (Json : Type 0) : Type 0 where
  pub plan_id : ℕ
  pub user_id : ℕ
  pub plan_request_id : ℕ
  pub status : String
  pub version : ℕ
  pub source : String
  pub slots : List DomainPlannerSlot
  pub conflicts : List DomainPlannerConflict
  pub request_payload : Json
  pub response_payload : Json
  pub created_at : ℕ
  pub updated_at : ℕ
  pub deleted : Bool

-- `id`, the key of the row, is drawn when the row is written and is read by nobody.
pub record SqlPlannerSlot : Type 0 where
  pub slot_id : ℕ
  pub task_id : Option ℕ
  pub title : String
  pub description : Option String
  pub start_at : ℕ
  pub end_at : ℕ
  pub created_at : ℕ
  pub updated_at : ℕ

pub record SqlPlannerConflict : Type 0 where
  pub conflict_id : ℕ
  pub slot_id : Option ℕ
  pub reason : String
  pub severity : String
  pub details : Option String
  pub related_task_id : Option ℕ
  pub created_at : ℕ

pub record SqlPlannerPlan (Json : Type 0) : Type 0 where
  pub id : ℕ
  pub user_id : ℕ
  pub plan_request_id : ℕ
  pub status : String
  pub version : ℕ
  pub source : String
  pub request_payload : Json
  pub response_payload : Option Json
  pub created_at : ℕ
  pub updated_at : ℕ
  pub deleted : Bool
  pub slots : List SqlPlannerSlot
  pub conflicts : List SqlPlannerConflict
