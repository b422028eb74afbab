-- ===== src/Productivity/Goals/Progress.antt =====
-- Backend/app/api/v1/productivity.py: the answer of `goal_progress` and its schema.
use life_merge.Base.{ℕ, ◌*◌, ◌≤◌, ◌≡◌, ◌↔◌, List, arith, subst}
use life_merge.Base.Result.{ok, Ensures, Ensures-then}
use life_merge.Repositories.Models.{Goal, goal_columns}
use life_merge.Productivity.{live_row}
use life_merge.Productivity.Goals.{GoalProgressOut, percent, goal_progress}

-- A fraction with a denominator above zero, from 0 to 100, which is 100 just if at least as many
-- tasks are completed as there are, and one at least.
abbrev pub IsProgress : GoalProgressOut → Type 0
IsProgress out =
    (1 ≤ out.percent_complete.1)
    × (out.percent_complete.0 ≤ 100 * out.percent_complete.1)
    × ((out.percent_complete.0 ≡ 100 * out.percent_complete.1)
        ↔ ((1 ≤ out.tasks_completed) × (out.tasks_total ≤ out.tasks_completed)))

percent-IsProgress :
    (completed total : ℕ)
    → (1 ≤ (percent completed total).1)
      × ((percent completed total).0 ≤ 100 * (percent completed total).1)
      × (((percent completed total).0 ≡ 100 * (percent completed total).1)
          ↔ ((1 ≤ completed) × (total ≤ completed)))
unfolding percent
percent-IsProgress completed total = ground arith

progress :
    (user_id goal_id : ℕ) (db : List Goal) → Ensures IsProgress (goal_progress user_id goal_id db)
unfolding goal_progress
progress user_id goal_id db =
    Ensures-then IsProgress (live_row goal_columns user_id goal_id db) _
      λ g. percent-IsProgress g.tasks_completed g.tasks_total

-- What `goal_progress` answers meets the bounds of its schema: the part that is complete is from 0
-- to 100 percent. It is 100 just if a task is completed, and no fewer than there are in all.
pub goal_progress-IsProgress :
    (user_id goal_id : ℕ) (db : List Goal) (out : GoalProgressOut)
    → goal_progress user_id goal_id db ≡ ok out
    → IsProgress out
goal_progress-IsProgress user_id goal_id db out h =
    subst (Ensures IsProgress) h (progress user_id goal_id db)
