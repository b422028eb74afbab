-- ===== src/Access/Trial.antt =====
-- Trials and limits (Backend/app/services/subscription_service.py and feature_flags.py).
use life_merge.Base.{
  ℕ, ◌+◌, ◌<◌, ◌≡◌, refl, ◌⊎◌, ◌↔◌, true, ◌&&◌, List, leb, ltb, if◌then◌else◌, arith,
}
use life_merge.Base.Result.{ok}
use life_merge.Access.{
  User, Settings, Owned, free, trial, activate_trial, resolve_trial_dates, trial_end,
  is_trial_active, subscription_status, ai_access_allowed, limits, enforce_limit,
  ensure_within_limits, count_of,
}

-- A user whose trial starts has the plan "trial" from then on for the trial's period, and "free"
-- before and after it, with access to the planner just while it lasts; and yet `ai_access_allowed`
-- holds at any time.
pub subscription_status-activate_trial :
    (settings : Settings) (now later : ℕ) (user : User)
    → ((subscription_status settings later
          (activate_trial settings.trial_period now user)).0.current_plan
        ≡ (if leb now later && ltb later (now + settings.trial_period) then trial else free))
      × ((limits settings
            (subscription_status settings later
              (activate_trial settings.trial_period now user)).0.current_plan).ai_planner_access
          ≡ (leb now later && ltb later (now + settings.trial_period)))
      × (ai_access_allowed (activate_trial settings.trial_period now user) ≡ true)
unfolding subscription_status activate_trial resolve_trial_dates trial_end is_trial_active limits
    ai_access_allowed
subscription_status-activate_trial settings now later user = (refl, ground arith, refl)

-- A user is within the limits exactly if the user is pro, or has fewer goals, tasks and accounts
-- than each limit, those that are deleted not counted.
ensure_within_limits_iff :
    (settings : Settings) (goals tasks accounts : List Owned) (user : User)
    → (ensure_within_limits settings goals tasks accounts user ≡ ok tt) ↔ (
        (user.is_pro ≡ true)
        ⊎ ((count_of user.id goals < settings.free_max_goals)
            × (count_of user.id tasks < settings.free_max_tasks)
            × (count_of user.id accounts < settings.free_max_finance_accounts)))
unfolding ensure_within_limits enforce_limit
ensure_within_limits_iff settings goals tasks accounts user = ground arith
