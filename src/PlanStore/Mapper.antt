-- ===== src/PlanStore/Mapper.antt =====
-- Backend/app/infrastructure/mappers/planner_domain_mapper.py: `PlannerDomainMapper`.
pub mod Updated
use life_merge.Base.{ℕ, Option, none, some, List, map}
use life_merge.PlanStore.Models.{
  DomainPlannerSlot, DomainPlannerConflict, DomainPlannerPlan, SqlPlannerSlot, SqlPlannerConflict,
  SqlPlannerPlan,
}
use life_merge.PlanStore.Rows.{update_rows, rows_program}

abbrev pub map_option : {A B : Type 0} → (A → B) → Option A → Option B
map_option f none = none
map_option f (some a) = some (f a)

pub slot_to_domain : SqlPlannerSlot → DomainPlannerSlot
slot_to_domain slot = record {
  slot_id = slot.slot_id;
  task_id = slot.task_id;
  title = slot.title;
  description = slot.description;
  start_at = slot.start_at;
  end_at = slot.end_at;
  created_at = slot.created_at;
  updated_at = slot.updated_at;
}

pub conflict_to_domain : SqlPlannerConflict → DomainPlannerConflict
conflict_to_domain conflict = record {
  conflict_id = conflict.conflict_id;
  slot_id = conflict.slot_id;
  reason = conflict.reason;
  severity = conflict.severity;
  details = conflict.details;
  related_task_id = conflict.related_task_id;
  created_at = conflict.created_at;
}

-- The row of a new slot.
pub new_slot : DomainPlannerSlot → SqlPlannerSlot
new_slot slot = record {
  slot_id = slot.slot_id;
  task_id = slot.task_id;
  title = slot.title;
  description = slot.description;
  start_at = slot.start_at;
  end_at = slot.end_at;
  created_at = slot.created_at;
  updated_at = slot.updated_at;
}

pub new_conflict : DomainPlannerConflict → SqlPlannerConflict
new_conflict conflict = record {
  conflict_id = conflict.conflict_id;
  slot_id = conflict.slot_id;
  reason = conflict.reason;
  severity = conflict.severity;
  details = conflict.details;
  related_task_id = conflict.related_task_id;
  created_at = conflict.created_at;
}

-- A slot that is there already keeps its date of creation, a conflict does not.
pub set_slot : DomainPlannerSlot → SqlPlannerSlot → SqlPlannerSlot
set_slot slot row = record row {
  task_id = slot.task_id;
  title = slot.title;
  description = slot.description;
  start_at = slot.start_at;
  end_at = slot.end_at;
  updated_at = slot.updated_at;
}

pub set_conflict : DomainPlannerConflict → SqlPlannerConflict → SqlPlannerConflict
set_conflict conflict row = record row {
  slot_id = conflict.slot_id;
  reason = conflict.reason;
  severity = conflict.severity;
  details = conflict.details;
  related_task_id = conflict.related_task_id;
  created_at = conflict.created_at;
}

abbrev pub slot_key : DomainPlannerSlot → ℕ
slot_key slot = slot.slot_id

abbrev pub conflict_key : DomainPlannerConflict → ℕ
conflict_key conflict = conflict.conflict_id

pub update_slots : List DomainPlannerSlot → List SqlPlannerSlot → List SqlPlannerSlot
update_slots = update_rows slot_key (λ row. row.slot_id) set_slot new_slot

pub update_conflicts :
    List DomainPlannerConflict → List SqlPlannerConflict → List SqlPlannerConflict
update_conflicts = update_rows conflict_key (λ row. row.conflict_id) set_conflict new_conflict

module _ {Json : Type 0} (empty : Json) where
  -- `payload or {}`
  pub or_empty : Option Json → Json
  or_empty none = empty
  or_empty (some payload) = payload

  pub to_domain : SqlPlannerPlan Json → DomainPlannerPlan Json
  to_domain plan = record {
    plan_id = plan.id;
    user_id = plan.user_id;
    plan_request_id = plan.plan_request_id;
    status = plan.status;
    version = plan.version;
    source = plan.source;
    slots = map slot_to_domain plan.slots;
    conflicts = map conflict_to_domain plan.conflicts;
    request_payload = plan.request_payload;
    response_payload = or_empty plan.response_payload;
    created_at = plan.created_at;
    updated_at = plan.updated_at;
    deleted = plan.deleted;
  }

module _ {Json : Type 0} where
  pub from_domain : DomainPlannerPlan Json → SqlPlannerPlan Json
  from_domain plan = record {
    id = plan.plan_id;
    user_id = plan.user_id;
    plan_request_id = plan.plan_request_id;
    status = plan.status;
    version = plan.version;
    source = plan.source;
    request_payload = plan.request_payload;
    response_payload = some plan.response_payload;
    created_at = plan.created_at;
    updated_at = plan.updated_at;
    deleted = plan.deleted;
    slots = map new_slot plan.slots;
    conflicts = map new_conflict plan.conflicts;
  }

  pub update_sql_from_domain : DomainPlannerPlan Json → SqlPlannerPlan Json → SqlPlannerPlan Json
  update_sql_from_domain plan row = record row {
    status = plan.status;
    version = plan.version;
    source = plan.source;
    request_payload = plan.request_payload;
    response_payload = some plan.response_payload;
    updated_at = plan.updated_at;
    deleted = plan.deleted;
    slots = update_slots plan.slots row.slots;
    conflicts = update_conflicts plan.conflicts row.conflicts;
  }

-- What a run unfolds.
unfoldable pub mapper_program : Unit {0}
unfolding slot_to_domain conflict_to_domain new_slot new_conflict set_slot set_conflict update_slots
    update_conflicts or_empty to_domain from_domain update_sql_from_domain rows_program
mapper_program = tt
