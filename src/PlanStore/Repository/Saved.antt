-- ===== src/PlanStore/Repository/Saved.antt =====
-- Backend/app/infrastructure/repositories/planner_repository.py: a plan that is saved and read back.
use life_merge.Base.{ℕ, ◌≡◌, Bool, false, ◌&&◌, List, ◌==◌, Pairs}
use life_merge.PlanStore.Models.{SqlPlannerPlan}

module _ {Json : Type 0} (empty : Json) where
  -- The key of the table.
  abbrev pub PlansDistinct : List (SqlPlannerPlan Json) → Type 0
  PlansDistinct = Pairs (λ a b. (a.id == b.id) ≡ false)

  -- The key of a plan that is deleted.
  abbrev pub is_buried : ℕ → SqlPlannerPlan Json → Bool
  is_buried i row = (row.id == i) && row.deleted
