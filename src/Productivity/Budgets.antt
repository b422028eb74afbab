-- ===== src/Productivity/Budgets.antt =====
-- Backend/app/api/v1/productivity.py: the routes of budgets and of the trial, with the budgets of
-- Backend/app/models/finance.py.
use life_merge.Base.{
  ℕ, Bool, true, false, ◌&&◌, Option, none, some, List, [], ◌∷◌, String, str_eq, ◌==◌, ltb, select,
  if◌then◌else◌,
}
use life_merge.Base.Result.{Result, ok, raise, type_error, http_error, ◌>>=◌}
use life_merge.Access.{
  User, Settings, SubscriptionStatusOut, CurrentPlan, free, trial, pro, subscription_status,
  activate_trial,
}
use life_merge.Auth.{scalar_one_or_none}
use life_merge.Repositories.{Columns}
use life_merge.Productivity.{Orm, invalid_body, add, save}

-- `activate_trial_plan`: the answer and the user, whom nothing commits.
pub activate_trial_plan : Settings → ℕ → User → Result (SubscriptionStatusOut × User)
activate_trial_plan settings now user =
    let (status, resolved) = subscription_status settings now user in
    elim status.current_plan [
      | pro ↦ raise (http_error "400" "already_pro")
      | other ↦
          ok (subscription_status settings now (activate_trial settings.trial_period now resolved))
    ]

pub record Budget : Type 0 where
  pub id : ℕ
  pub user_id : ℕ
  pub month : String
  pub amount : ℕ
  pub created_at : ℕ
  pub updated_at : ℕ

abbrev pub budget_attributes : List String
budget_attributes = "id" ∷ "user_id" ∷ "month" ∷ "amount" ∷ "created_at" ∷ "updated_at" ∷ []

-- A budget has no column `deleted`, and counts as never deleted.
abbrev pub budget_columns : Columns Budget
budget_columns = record {
  id = λ row. row.id;
  user_id = λ row. row.user_id;
  updated_at = λ row. row.updated_at;
  deleted = λ row. false;
}

-- The keywords of `Budget(...)` in the route; that of `deleted` stands there whatever its value.
abbrev pub budget_keywords : List String
budget_keywords =
    "id" ∷ "user_id" ∷ "month" ∷ "amount" ∷ "created_at" ∷ "updated_at" ∷ "deleted" ∷ []

pub record BudgetIn : Type 0 where
  pub month : String
  pub amount : ℕ

pub record BudgetOut : Type 0 where
  pub month : String
  pub amount : ℕ
  pub limited : Bool

-- `FREE_BUDGET_LIMIT`
abbrev pub free_budget_limit : ℕ
free_budget_limit = 100_000

pub is_limited : CurrentPlan → ℕ → Bool
is_limited free amount = ltb free_budget_limit amount
is_limited trial amount = false
is_limited pro amount = false

pub new_budget : ℕ → ℕ → ℕ → String → ℕ → Budget
new_budget now uuid user_id month amount = record {
  id = uuid;
  user_id = user_id;
  month = month;
  amount = amount;
  created_at = now;
  updated_at = now;
}

module _ (orm : Orm) (now uuid user_id : ℕ) where
  pub write_budget : String → ℕ → List Budget → Option Budget → Result (List Budget)
  write_budget month amount db none =
      if orm.accepts budget_attributes budget_keywords
      then add budget_columns (new_budget now uuid user_id month amount) db
      else raise type_error
  write_budget month amount db (some b) =
      ok (save budget_columns (record b { amount = amount; updated_at = now }) db)

  -- The budgets of a user for a month.
  pub is_budget : String → Budget → Bool
  is_budget month b = (b.user_id == user_id) && str_eq b.month month

  pub put_amount : String → ℕ → Bool → List Budget → Result (BudgetOut × List Budget)
  put_amount month amount limited db = scalar_one_or_none (select (is_budget month) db) >>= λ found.
      write_budget month amount db found >>= λ after.
      ok (record { month = month; amount = amount; limited = limited }, after)

  -- `set_budget`, for the plan that the user has.
  pub set_budget : CurrentPlan → BudgetIn → List Budget → Result (BudgetOut × List Budget)
  set_budget plan body db =
      if ltb 0 body.amount
      then (if is_limited plan body.amount
          then put_amount body.month free_budget_limit true db
          else put_amount body.month body.amount false db)
      else invalid_body

-- What a run unfolds.
unfoldable pub budgets_program : Unit {0}
unfolding is_limited new_budget write_budget is_budget put_amount set_budget activate_trial_plan
budgets_program = tt
