-- ===== src/Productivity/Tests.antt =====
-- The routes of goals, events, transactions and budgets at concrete rows.
use life_merge.Base.{ℕ, ◌+◌, ◌-◌, ◌≡◌, refl, true, false, none, List, [], ◌∷◌, arith, All}
use life_merge.Base.Result.{ok, raise, type_error, integrity_error}
use life_merge.Auth.Tokens.{tokens_program}
use life_merge.Access.{free}
use life_merge.Planner.Time.{DateTime, naive, aware, to_utc}
use life_merge.Sync.{missing, value}
use life_merge.Repositories.Models.{
  Goal, CalendarEvent, FinanceTransaction, finance_transaction_columns,
}
use life_merge.Productivity.{Orm, IsOrm, all_among, live_row, not_found, productivity_program}
use life_merge.Productivity.Rows.{IsKeyed}
use life_merge.Productivity.Goals.{GoalProgressOut, goal_progress, goals_program}
use life_merge.Productivity.Goals.Progress.{IsProgress, goal_progress-IsProgress}
use life_merge.Productivity.Events.{CalendarEventUpdateIn, events_program}
use life_merge.Productivity.Events.Ranges.{Lasts}
use life_merge.Productivity.Finance.{
  FinanceTransactionIn, income, delete_transaction, finance_summary, finance_program, Floats,
}
use life_merge.Productivity.Finance.Totals.{finance_summary-delete_transaction}
use life_merge.Productivity.Budgets.{BudgetIn, budgets_program}
use life_merge.Productivity.Notices.{notices_program}
use life_merge.Productivity.Inbox.{inbox_program}
use life_merge.Productivity.Requests.{
  Tables, Write, update_event, create_transaction, set_budget, Sender, handle, serve,
  requests_program,
}
use life_merge.Productivity.Requests.Kept.{AllKeep}
use life_merge.Productivity.Requests.Owners.{serve-AllKeep}
use life_merge.Productivity.Requests.Lasting.{serve-Lasts}
use life_merge.Productivity.Requests.Adding.{NoneAdded, serve-NoneAdded}

abbrev orm : Orm
orm = record { accepts = all_among; stored = to_utc }

abbrev orm-IsOrm : IsOrm orm
orm-IsOrm = record {
  accepts-eq = λ attributes keywords. refl;
  stored-aware = λ instant ahead behind. refl;
}

abbrev meeting : CalendarEvent
meeting = record {
  id = 4;
  user_id = 7;
  title = "Meeting";
  start_at = 100;
  end_at = 160;
  recurrence = none;
  parallel_with = [];
  created_at = 10;
  updated_at = 10;
  deleted = false;
}

abbrev salary : FinanceTransaction
salary = record {
  id = 5;
  user_id = 7;
  account_id = 1;
  type = "income";
  amount = 90_000;
  currency = "USD";
  category = "work";
  occurred_at = 50;
  recurring = true;
  note = none;
  created_at = 50;
  updated_at = 50;
  deleted = false;
}

abbrev rent : FinanceTransaction
rent = record salary { id = 6; type = "expense"; amount = 30_000; category = "home" }

abbrev tables : Tables
tables = record {
  goals = [];
  events = meeting ∷ [];
  inbox = [];
  transactions = salary ∷ rent ∷ [];
  budgets = [];
  triggers = [];
}

abbrev by : ℕ → ℕ → Sender
by user_id uuid = record { user_id = user_id; plan = free; now = 200; uuid = uuid }

-- The end of the meeting moves, and its title stays.
abbrev longer : DateTime → CalendarEventUpdateIn
longer end = record {
  title = missing;
  start_at = missing;
  end_at = value end;
  recurrence = missing;
  parallel_with = missing;
}

abbrev bonus : FinanceTransactionIn
bonus = record {
  type = income;
  amount = 500;
  currency = "USD";
  category = "work";
  occurred_at = aware 60 0 0;
  recurring = false;
}

abbrev food : BudgetIn
food = record { month = "2026-01"; amount = 120_000 }

abbrev requests : List (Sender × Write)
requests =
    (by 7 20, update_event 4 (longer (aware 180 0 0)))
    ∷ (by 7 21, update_event 4 (longer (aware 90 0 0)))
    ∷ (by 7 22, update_event 4 (longer (naive 300)))
    ∷ (by 7 23, create_transaction bonus)
    ∷ (by 7 24, set_budget food)
    ∷ (by 7 25, Write.delete_transaction 6)
    ∷ []

serve_test : serve orm requests tables ≡ record tables {
  events = record meeting { end_at = 180; updated_at = 200 } ∷ [];
  transactions = salary ∷ record rent { deleted = true; updated_at = 200 } ∷ [];
}
unfolding requests_program productivity_program goals_program events_program finance_program
    budgets_program notices_program inbox_program tokens_program
serve_test = refl

set_budget_test : handle orm (by 7 24) (set_budget food) tables ≡ raise type_error
unfolding requests_program productivity_program budgets_program tokens_program
set_budget_test = refl

create_transaction_test :
    handle orm (by 7 23) (create_transaction bonus) tables ≡ raise integrity_error
unfolding requests_program productivity_program finance_program
create_transaction_test = refl

transactions-IsKeyed : IsKeyed finance_transaction_columns tables.transactions
transactions-IsKeyed = ((refl, tt), (tt, tt))

serve-AllKeep_example : AllKeep 8 tables (serve orm requests tables)
serve-AllKeep_example =
    serve-AllKeep orm 8 requests tables (tt, (tt, tt), tt, transactions-IsKeyed, tt, tt)
      (omega arith)

serve-Lasts_example : All Lasts (serve orm requests tables).events
serve-Lasts_example =
    serve-Lasts orm orm-IsOrm requests tables (omega arith) (tt, (tt, (tt, (tt, (tt, (tt, tt))))))

serve-NoneAdded_example : NoneAdded tables (serve orm requests tables)
serve-NoneAdded_example = serve-NoneAdded orm orm-IsOrm requests tables

rent_found : live_row finance_transaction_columns 7 6 tables.transactions ≡ ok rent
unfolding productivity_program
rent_found = refl

-- Sums without rounding, of which the difference stops at zero.
abbrev sum : List ℕ → ℕ
sum [] = 0
sum (n ∷ ns) = n + sum ns

abbrev floats : Floats ℕ
floats = record { float = λ amount. amount; sum = sum; minus = λ a b. a - b }

finance_summary-delete_transaction_example :
    (after : List FinanceTransaction) × (delete_transaction 200 7 6 tables.transactions ≡ ok after)
    × (live_row finance_transaction_columns 7 6 after ≡ not_found)
    × (finance_summary floats 7 "2030-12" [] after
        ≡ record (finance_summary floats 7 "2026-01" [] (salary ∷ [])) { month = "2030-12" })
finance_summary-delete_transaction_example =
    finance_summary-delete_transaction floats 200 7 6 "2030-12" "2026-01" [] rent
      tables.transactions transactions-IsKeyed rent_found

abbrev run_twice : Goal
run_twice = record {
  id = 2;
  user_id = 7;
  title = "Run twice";
  description = none;
  target_date = none;
  tasks_total = 2;
  tasks_completed = 3;
  created_at = 5;
  updated_at = 6;
  deleted = false;
}

abbrev progress : GoalProgressOut
progress = record {
  id = 2;
  percent_complete = (100, 1);
  tasks_total = 2;
  tasks_completed = 3;
  updated_at = 6;
}

goal_progress_test : goal_progress 7 2 (run_twice ∷ []) ≡ ok progress
unfolding goals_program productivity_program
goal_progress_test = refl

goal_progress-IsProgress_example : IsProgress progress
goal_progress-IsProgress_example =
    goal_progress-IsProgress 7 2 (run_twice ∷ []) progress goal_progress_test
