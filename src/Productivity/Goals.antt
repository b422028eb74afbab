-- ===== src/Productivity/Goals.antt =====
-- Backend/app/api/v1/productivity.py: the routes of goals. `progress` of a goal, which no route
-- changes from 0.0, is left out.
pub mod Progress
use life_merge.Base.{
  ℕ, ◌*◌, ◌&&◌, false, Option, some, List, map, String, ◌==◌, ltb, leb, select, if◌then◌else◌, not,
}
use life_merge.Base.Result.{Result, ok, ◌>>=◌}
use life_merge.Base.Sort.{sort}
use life_merge.Repositories.Models.{Goal, goal_columns}
use life_merge.Repositories.Lists.{wanted_goal}
use life_merge.Productivity.{check_length, check_sent, set_column, live_row, add, save}
use life_merge.Sync.{Field, assigned}

pub record GoalCreateIn : Type 0 where
  pub title : String
  pub description : Option String
  pub target_date : Option ℕ

pub record GoalUpdateIn : Type 0 where
  pub title : Field String
  pub description : Field String
  pub target_date : Field ℕ

pub record GoalOut : Type 0 where
  pub id : ℕ
  pub title : String
  pub description : Option String
  pub target_date : Option ℕ
  pub tasks_total : ℕ
  pub tasks_completed : ℕ

abbrev pub goal_out : Goal → GoalOut
goal_out g = record {
  id = g.id;
  title = g.title;
  description = g.description;
  target_date = g.target_date;
  tasks_total = g.tasks_total;
  tasks_completed = g.tasks_completed;
}

-- `list_goals`: the latest first.
pub list_goals : ℕ → Option ℕ → List Goal → List GoalOut
list_goals user_id updated_from db =
    map goal_out
      (sort (λ x y. leb y.created_at x.created_at) (select (wanted_goal user_id updated_from) db))

pub new_goal : ℕ → ℕ → ℕ → GoalCreateIn → Goal
new_goal now uuid user_id body = record {
  id = uuid;
  user_id = user_id;
  title = body.title;
  description = body.description;
  target_date = body.target_date;
  tasks_total = 0;
  tasks_completed = 0;
  created_at = now;
  updated_at = now;
  deleted = false;
}

-- `create_goal`; `uuid` is the identifier that is drawn.
pub create_goal : ℕ → ℕ → ℕ → GoalCreateIn → List Goal → Result (GoalOut × List Goal)
create_goal now uuid user_id body db = check_length 1 200 body.title >>= λ valid.
    add goal_columns (new_goal now uuid user_id body) db >>= λ after.
    ok (goal_out (new_goal now uuid user_id body), after)

pub set_goal : ℕ → GoalUpdateIn → Goal → Result Goal
set_goal now body g = set_column g.title body.title >>= λ title. ok (record g {
  title = title;
  description = assigned g.description body.description;
  target_date = assigned g.target_date body.target_date;
  updated_at = now;
})

-- `update_goal`
pub update_goal : ℕ → ℕ → ℕ → GoalUpdateIn → List Goal → Result (GoalOut × List Goal)
update_goal now user_id goal_id body db = check_sent 1 200 body.title >>= λ valid.
    live_row goal_columns user_id goal_id db >>= λ g.
    set_goal now body g >>= λ changed. ok (goal_out changed, save goal_columns changed db)

-- `percent_complete` is a fraction: the float is its quotient.
pub record GoalProgressOut : Type 0 where
  pub id : ℕ
  pub percent_complete : ℕ × ℕ
  pub tasks_total : ℕ
  pub tasks_completed : ℕ
  pub updated_at : ℕ

-- `min(100.0, completed / max(total, 1) * 100.0)`
pub percent : ℕ → ℕ → ℕ × ℕ
percent completed total =
    let denom = if ltb total 1 then 1 else total in
    if ltb (100 * denom) (completed * 100) then (100, 1) else (completed * 100, denom)

-- `goal_progress`
pub goal_progress : ℕ → ℕ → List Goal → Result GoalProgressOut
goal_progress user_id goal_id db = live_row goal_columns user_id goal_id db >>= λ g. ok (record {
  id = g.id;
  percent_complete = percent g.tasks_completed g.tasks_total;
  tasks_total = g.tasks_total;
  tasks_completed = g.tasks_completed;
  updated_at = g.updated_at;
})

-- What a run unfolds.
unfoldable pub goals_program : Unit {0}
unfolding list_goals new_goal create_goal set_goal update_goal percent goal_progress
goals_program = tt
