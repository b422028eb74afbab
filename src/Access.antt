-- ===== src/Access.antt =====
-- Backend/app/services/subscription_service.py and feature_flags.py: what a user's plan allows.
-- Dates are instants in UTC; the settings and the tables that are counted are arguments. The texts
-- `notes` of the limits are left out.
pub mod Trial
mod Tests
use life_merge.Base.{
  ℕ, ◌+◌, Bool, true, false, not, ◌&&◌, ◌||◌, Option, none, some, List, String, ◌==◌, ltb, leb,
  length, select, if◌then◌else◌, is_some,
}
use life_merge.Base.Result.{Result, ok, raise, permission_error, ◌>>=◌}

pub record User : Type 0 where
  pub id : ℕ
  pub is_pro : Bool
  pub created_at : Option ℕ
  pub trial_started_at : Option ℕ
  pub trial_ends_at : Option ℕ

-- The settings that are read; `trial_period` is `TRIAL_PERIOD`.
pub record Settings : Type 0 where
  pub trial_period : ℕ
  pub free_max_goals : ℕ
  pub free_max_tasks : ℕ
  pub free_max_finance_accounts : ℕ
  pub ai_planner_max_batch : ℕ

abbrev pub or_else : Option ℕ → Option ℕ → Option ℕ
or_else (some t) other = some t
or_else none other = other

pub trial_end : ℕ → Option ℕ → Option ℕ → Option ℕ
trial_end trial_period (some end) start = some end
trial_end trial_period none (some start) = some (start + trial_period)
trial_end trial_period none none = none

-- `_resolve_trial_dates`, and the user that it leaves.
pub resolve_trial_dates : ℕ → User → (Option ℕ × Option ℕ) × User
resolve_trial_dates trial_period user =
    let start = or_else user.trial_started_at user.created_at in
    (
      (start, trial_end trial_period user.trial_ends_at start),
      record user { trial_started_at = start },
    )

-- `activate_trial`; `now` is the clock.
pub activate_trial : ℕ → ℕ → User → User
activate_trial trial_period now user = record user {
  trial_started_at = some now;
  trial_ends_at = some (now + trial_period);
  is_pro = false;
}

pub record PlanLimits : Type 0 where
  pub ai_planner_access : Bool
  pub analytics_access : Bool
  pub max_ai_plans_per_week : Option ℕ
  pub max_goals : Option ℕ
  pub max_tasks : Option ℕ
  pub max_finance_accounts : Option ℕ

pub data CurrentPlan : Type 0 where
  free trial pro : CurrentPlan

-- The dict `limits`.
pub limits : Settings → CurrentPlan → PlanLimits
limits settings free = record {
  ai_planner_access = false;
  analytics_access = false;
  max_ai_plans_per_week = some 0;
  max_goals = some settings.free_max_goals;
  max_tasks = some settings.free_max_tasks;
  max_finance_accounts = some settings.free_max_finance_accounts;
}
limits settings trial = record {
  ai_planner_access = true;
  analytics_access = true;
  max_ai_plans_per_week = some settings.ai_planner_max_batch;
  max_goals = some settings.free_max_goals;
  max_tasks = some settings.free_max_tasks;
  max_finance_accounts = some settings.free_max_finance_accounts;
}
limits settings pro = record {
  ai_planner_access = true;
  analytics_access = true;
  max_ai_plans_per_week = none;
  max_goals = none;
  max_tasks = none;
  max_finance_accounts = none;
}

pub record SubscriptionStatusOut : Type 0 where
  pub current_plan : CurrentPlan
  pub trial_started_at : Option ℕ
  pub trial_ends_at : Option ℕ
  pub trial_active : Bool
  pub limits : CurrentPlan → PlanLimits

-- `trial_start <= now < trial_end`, of two dates that are there.
pub is_trial_active : ℕ → Option ℕ → Option ℕ → Bool
is_trial_active now none end = false
is_trial_active now (some start) none = false
is_trial_active now (some start) (some end) = leb start now && ltb now end

-- `subscription_status`, and the user that it leaves.
pub subscription_status : Settings → ℕ → User → SubscriptionStatusOut × User
subscription_status settings now user =
    let resolved = resolve_trial_dates settings.trial_period user in
    let active = is_trial_active now resolved.0.0 resolved.0.1 in
    (
      record {
        current_plan = if user.is_pro then pro else if active then trial else free;
        trial_started_at = resolved.0.0;
        trial_ends_at = resolved.0.1;
        trial_active = active;
        limits = limits settings;
      },
      resolved.1,
    )

-- `ai_access_allowed`
pub ai_access_allowed : User → Bool
ai_access_allowed user = user.is_pro || is_some user.trial_ends_at

-- A row that is counted: a goal, a task or an account.
pub record Owned : Type 0 where
  pub user_id : ℕ
  pub deleted : Bool

pub count_of : ℕ → List Owned → ℕ
count_of user_id rows = length (select (λ r. (r.user_id == user_id) && not r.deleted) rows)

-- `_enforce_goal_limit` and its two like.
pub enforce_limit : ℕ → ℕ → String → List Owned → Result (Unit {0})
enforce_limit limit user_id code rows =
    if leb limit (count_of user_id rows) then raise (permission_error code) else ok tt

-- `ensure_within_limits`, of the tables of goals, tasks and accounts.
pub ensure_within_limits :
    Settings → List Owned → List Owned → List Owned → User → Result (Unit {0})
ensure_within_limits settings goals tasks accounts user =
    let checks = enforce_limit settings.free_max_goals user.id "goal_limit_reached" goals >>= λ _.
    enforce_limit settings.free_max_tasks user.id "task_limit_reached" tasks >>= λ _.
    enforce_limit settings.free_max_finance_accounts user.id "finance_account_limit_reached"
      accounts in
    if user.is_pro then ok tt else checks
