-- ===== src/PlanStore/Repository/Clashes.antt =====
-- The unique indexes on slots and conflicts (Backend/alembic/versions/0004_planner_slots_conflicts.py)
-- for a plan that is saved.
use life_merge.Base.{ℕ, map, mem, ◌≡◌, refl, Bool, false, List, [], ◌∷◌, any, arith}
use life_merge.PlanStore.Models.{DomainPlannerPlan, SqlPlannerPlan}
use life_merge.PlanStore.Mapper.{
  from_domain, update_sql_from_domain, slot_key, conflict_key, set_slot, set_conflict, new_slot,
  new_conflict, mapper_program,
}
use life_merge.PlanStore.Mapper.Updated.{DistinctSlots, DistinctConflicts}
use life_merge.PlanStore.Rows.{has_repeats}
use life_merge.PlanStore.Rows.Unique.{
  any-update_rows, keys-make, repeats-AreDistinct, repeats-update_rows,
}
use life_merge.PlanStore.Repository.{slot_keys, conflict_keys, is_taken, clashes}

module _ {Json : Type 0} where
  -- What the unique indexes hold of the table.
  abbrev pub IsIndexed : SqlPlannerPlan Json → Type 0
  IsIndexed row = (has_repeats (slot_keys row) ≡ false) × (has_repeats (conflict_keys row) ≡ false)

  pub clashes-from_domain :
      (plan : DomainPlannerPlan Json) (db : List (SqlPlannerPlan Json))
      → DistinctSlots plan.slots
      → DistinctConflicts plan.conflicts
      → is_taken slot_keys plan.plan_id (map slot_key plan.slots) db ≡ false
      → is_taken conflict_keys plan.plan_id (map conflict_key plan.conflicts) db ≡ false
      → clashes (from_domain plan) db ≡ false
  unfolding clashes slot_keys conflict_keys mapper_program
  clashes-from_domain plan db slots conflicts free_slots free_conflicts =
      rw
        (
          keys-make slot_key (λ row. row.slot_id) set_slot new_slot (λ d s. refl) (λ d. refl)
              plan.slots,
          keys-make conflict_key (λ row. row.conflict_id) set_conflict new_conflict (λ d s. refl)
              (λ d. refl) plan.conflicts,
          repeats-AreDistinct slot_key (λ row. row.slot_id) set_slot new_slot plan.slots slots,
          repeats-AreDistinct conflict_key (λ row. row.conflict_id) set_conflict new_conflict
              plan.conflicts conflicts,
          free_slots,
          free_conflicts,
        )
        refl

  -- Fewer keys are not taken either.
  is_taken-fewer :
      (keys_of : SqlPlannerPlan Json → List ℕ) (i : ℕ) (keys fewer : List ℕ)
      (db : List (SqlPlannerPlan Json))
      → ((p : ℕ → Bool) → any p keys ≡ false → any p fewer ≡ false)
      → is_taken keys_of i keys db ≡ false
      → is_taken keys_of i fewer db ≡ false
  unfolding is_taken
  is_taken-fewer keys_of i keys fewer [] sub h = refl
  is_taken-fewer keys_of i keys fewer (row ∷ db) sub h = ground (
    arith,
    h,
    sub (λ k. mem k (keys_of row)),
    is_taken-fewer keys_of i keys fewer db sub (ground (arith, h)),
  )

  pub clashes-update :
      (plan : DomainPlannerPlan Json) (row : SqlPlannerPlan Json) (db : List (SqlPlannerPlan Json))
      → row.id ≡ plan.plan_id
      → IsIndexed row
      → DistinctSlots plan.slots
      → DistinctConflicts plan.conflicts
      → is_taken slot_keys plan.plan_id (map slot_key plan.slots) db ≡ false
      → is_taken conflict_keys plan.plan_id (map conflict_key plan.conflicts) db ≡ false
      → clashes (update_sql_from_domain plan row) db ≡ false
  unfolding clashes slot_keys conflict_keys mapper_program
  clashes-update plan row db same indexed slots conflicts free_slots free_conflicts =
      rw
        (
          same,
          repeats-update_rows slot_key (λ r. r.slot_id) set_slot new_slot (λ d s. refl) (λ d. refl)
              plan.slots row.slots slots indexed.0,
          repeats-update_rows conflict_key (λ r. r.conflict_id) set_conflict new_conflict
              (λ d s. refl) (λ d. refl) plan.conflicts row.conflicts conflicts indexed.1,
          is_taken-fewer slot_keys plan.plan_id (map slot_key plan.slots) _ db
              (λ p.
                any-update_rows slot_key (λ r. r.slot_id) set_slot new_slot p plan.slots row.slots)
              free_slots,
          is_taken-fewer conflict_keys plan.plan_id (map conflict_key plan.conflicts) _ db
              (λ p.
                any-update_rows conflict_key (λ r. r.conflict_id) set_conflict new_conflict p
                  plan.conflicts row.conflicts)
              free_conflicts,
        )
        refl
