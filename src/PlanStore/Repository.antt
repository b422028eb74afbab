-- ===== src/PlanStore/Repository.antt =====
-- Backend/app/infrastructure/repositories/planner_repository.py: `SQLPlannerRepository`, on the rows
-- of the table `ai_plan_runs`, with the unique indexes of
-- Backend/alembic/versions/0004_planner_slots_conflicts.py. `now` is the clock.
mod Clashes
pub mod Saved
use life_merge.Base.{
  ℕ, zero, suc, ◌+◌, Bool, true, false, not, ◌&&◌, ◌||◌, mem, Option, none, some, List, [], ◌∷◌,
  ◌++◌, map, String, str_eq, ◌==◌, leb, any, select, if◌then◌else◌, is_some,
}
use life_merge.Base.Result.{Result, ok, raise, integrity_error, ◌>>=◌}
use life_merge.Base.Sort.{sort}
use life_merge.Auth.{scalar_one_or_none}
use life_merge.Auth.Tokens.{tokens_program}
use life_merge.Repositories.Order.{take}
use life_merge.PlanStore.Models.{DomainPlannerPlan, SqlPlannerPlan}
use life_merge.PlanStore.Rows.{has_repeats}
use life_merge.PlanStore.Mapper.{
  map_option, to_domain, from_domain, update_sql_from_domain, mapper_program,
}

-- `if given: where(test)`
abbrev pub if_given : {A : Type 0} → Option A → (A → Bool) → Bool
if_given none test = true
if_given (some given) test = test given

abbrev pub drop : {A : Type 0} → ℕ → List A → List A
drop zero rows = rows
drop (suc n) [] = []
drop (suc n) (row ∷ rows) = drop n rows

module _ {Json : Type 0} where
  pub is_plan : ℕ → SqlPlannerPlan Json → Bool
  is_plan plan_id row = (row.id == plan_id) && not row.deleted

  -- `_get_sql_plan_by_id`
  pub get_sql_plan_by_id : ℕ → List (SqlPlannerPlan Json) → Result (Option (SqlPlannerPlan Json))
  get_sql_plan_by_id plan_id db = scalar_one_or_none (select (is_plan plan_id) db)

  pub is_request : ℕ → ℕ → SqlPlannerPlan Json → Bool
  is_request plan_request_id user_id row =
      (row.plan_request_id == plan_request_id) && ((row.user_id == user_id) && not row.deleted)

  -- `_get_sql_plan_by_request_id`
  pub get_sql_plan_by_request_id :
      ℕ → ℕ → List (SqlPlannerPlan Json) → Result (Option (SqlPlannerPlan Json))
  get_sql_plan_by_request_id plan_request_id user_id db =
      scalar_one_or_none (select (is_request plan_request_id user_id) db)

  -- The change of the rows with a key.
  pub change :
      ℕ
      → (SqlPlannerPlan Json → SqlPlannerPlan Json)
      → List (SqlPlannerPlan Json)
      → List (SqlPlannerPlan Json)
  change plan_id set [] = []
  change plan_id set (row ∷ db) =
      let rest = change plan_id set db in if row.id == plan_id then set row ∷ rest else row ∷ rest

  pub slot_keys : SqlPlannerPlan Json → List ℕ
  slot_keys row = map (λ slot. slot.slot_id) row.slots

  pub conflict_keys : SqlPlannerPlan Json → List ℕ
  conflict_keys row = map (λ conflict. conflict.conflict_id) row.conflicts

  -- Another plan has one of the keys.
  pub is_taken : (SqlPlannerPlan Json → List ℕ) → ℕ → List ℕ → List (SqlPlannerPlan Json) → Bool
  is_taken keys_of plan_id keys db =
      any (λ row. not (row.id == plan_id) && any (λ k. mem k (keys_of row)) keys) db

  -- The unique indexes on `slot_id` and `conflict_id`, over all plans, deleted or not.
  pub clashes : SqlPlannerPlan Json → List (SqlPlannerPlan Json) → Bool
  clashes plan db =
      (has_repeats (slot_keys plan) || is_taken slot_keys plan.id (slot_keys plan) db)
      || (has_repeats (conflict_keys plan)
          || is_taken conflict_keys plan.id (conflict_keys plan) db)

  -- `session.add` and the flush of a new plan.
  pub insert_plan :
      SqlPlannerPlan Json → List (SqlPlannerPlan Json) → Result (List (SqlPlannerPlan Json))
  insert_plan plan db =
      if any (λ row. row.id == plan.id) db || clashes plan db
      then raise integrity_error
      else ok (db ++ plan ∷ [])

  pub save_over :
      DomainPlannerPlan Json
      → Option (SqlPlannerPlan Json)
      → List (SqlPlannerPlan Json)
      → Result (List (SqlPlannerPlan Json))
  save_over plan none db = insert_plan (from_domain plan) db
  save_over plan (some existing) db =
      if clashes (update_sql_from_domain plan existing) db
      then raise integrity_error
      else ok (change existing.id (λ row. update_sql_from_domain plan existing) db)

  pub save :
      DomainPlannerPlan Json → List (SqlPlannerPlan Json) → Result (List (SqlPlannerPlan Json))
  save plan db = get_sql_plan_by_id plan.plan_id db >>= λ existing. save_over plan existing db

  pub update_status : ℕ → ℕ → String → List (SqlPlannerPlan Json) → List (SqlPlannerPlan Json)
  update_status now plan_id status =
      change plan_id (λ row. record row { status = status; updated_at = now })

  pub increment_version : ℕ → ℕ → List (SqlPlannerPlan Json) → List (SqlPlannerPlan Json)
  increment_version now plan_id =
      change plan_id (λ row. record row { version = row.version + 1; updated_at = now })

  pub soft_delete : ℕ → ℕ → List (SqlPlannerPlan Json) → List (SqlPlannerPlan Json)
  soft_delete now plan_id = change plan_id (λ row. record row { deleted = true; updated_at = now })

  pub exists_by_request_id : ℕ → ℕ → List (SqlPlannerPlan Json) → Bool
  exists_by_request_id plan_request_id user_id db = any (is_request plan_request_id user_id) db

module _ {Json : Type 0} (empty : Json) where
  pub get_by_id : ℕ → List (SqlPlannerPlan Json) → Result (Option (DomainPlannerPlan Json))
  get_by_id plan_id db =
      get_sql_plan_by_id plan_id db >>= λ found. ok (map_option (to_domain empty) found)

  pub get_by_request_id :
      ℕ → ℕ → List (SqlPlannerPlan Json) → Result (Option (DomainPlannerPlan Json))
  get_by_request_id plan_request_id user_id db =
      get_sql_plan_by_request_id plan_request_id user_id db >>= λ found.
      ok (map_option (to_domain empty) found)

  -- `get_by_user`: the latest first.
  pub get_by_user :
      ℕ
      → Option String
      → Option ℕ
      → Option ℕ
      → ℕ
      → ℕ
      → List (SqlPlannerPlan Json)
      → List (DomainPlannerPlan Json)
  get_by_user user_id status from_date to_date limit offset db =
      let wanted =
        select
          (λ row.
            (row.user_id == user_id)
            && (not row.deleted
                && (if_given status (λ s. if str_eq s "" then true else str_eq row.status s)
                    && (if_given from_date (λ t. leb t row.created_at)
                        && if_given to_date (λ t. leb row.created_at t)))))
          db in
      map (to_domain empty)
        (take limit (drop offset (sort (λ x y. leb y.created_at x.created_at) wanted)))

-- What a run unfolds.
unfoldable pub plan_store_program : Unit {0}
unfolding is_plan get_sql_plan_by_id is_request get_sql_plan_by_request_id change slot_keys
    conflict_keys is_taken clashes insert_plan save_over save update_status increment_version
    soft_delete exists_by_request_id get_by_id get_by_request_id get_by_user mapper_program
    tokens_program
plan_store_program = tt
