-- ===== src/Access/Tests.antt =====
-- The theorem on trials at a concrete user.
use life_merge.Base.{◌+◌, ◌≡◌, ◌&&◌, true, false, none, some, leb, ltb, if◌then◌else◌}
use life_merge.Access.{
  User, Settings, free, trial, limits, activate_trial, subscription_status, ai_access_allowed,
}
use life_merge.Access.Trial.{subscription_status-activate_trial}

abbrev settings : Settings
settings = record {
  trial_period = 14;
  free_max_goals = 3;
  free_max_tasks = 2;
  free_max_finance_accounts = 1;
  ai_planner_max_batch = 5;
}

abbrev ann : User
ann = record {
  id = 7;
  is_pro = false;
  created_at = some 10;
  trial_started_at = none;
  trial_ends_at = none;
}

subscription_status-activate_trial_example :
    ((subscription_status settings 110 (activate_trial 14 100 ann)).0.current_plan
      ≡ (if leb 100 110 && ltb 110 (100 + 14) then trial else free))
    × ((limits settings
          (subscription_status settings 110
            (activate_trial 14 100 ann)).0.current_plan).ai_planner_access
        ≡ (leb 100 110 && ltb 110 (100 + 14)))
    × (ai_access_allowed (activate_trial 14 100 ann) ≡ true)
subscription_status-activate_trial_example = subscription_status-activate_trial settings 100 110 ann
