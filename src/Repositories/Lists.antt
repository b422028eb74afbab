-- ===== src/Repositories/Lists.antt =====
-- Backend/app/repositories: the query of each `list`.
pub mod Owned
use life_merge.Base.{
  ℕ, Bool, true, false, ◌&&◌, Option, none, some, List, String, str_eq, ◌==◌, leb, if◌then◌else◌,
  is_some_eq,
}
use life_merge.Base.Sort.{sort}
use life_merge.Repositories.{
  get_by_id, patch, Sql, list_page, owned_by, cut_page, fetch_limit, last_shown, cursor_of,
  after_cursor, read_cursor, tuple_less, newest_first,
}
use life_merge.Repositories.Models.{
  Task, Subtask, Goal, InboxItem, CalendarEvent, FinanceAccount, FinanceTransaction, task_columns,
  subtask_columns, goal_columns, inbox_item_columns, calendar_event_columns,
  finance_account_columns, finance_transaction_columns,
}

-- `if given: q = q.where(column == given)` on texts, where the empty text is no filter.
pub text_is : Option String → String → Bool
text_is none column = true
text_is (some given) column = if str_eq given "" then true else str_eq column given

-- The same on identifiers.
pub id_is : Option ℕ → Option ℕ → Bool
id_is none column = true
id_is (some given) column = is_some_eq column given

-- `if given: q = q.where(column >= given)`; a comparison with a column that is null does not hold.
pub at_least : Option ℕ → Option ℕ → Bool
at_least none column = true
at_least (some given) none = false
at_least (some given) (some date) = leb given date

-- `if given: q = q.where(column <= given)`
pub at_most : Option ℕ → Option ℕ → Bool
at_most none column = true
at_most (some given) none = false
at_most (some given) (some date) = leb date given

-- The rows that the query is for.
pub wanted_task : ℕ → Option String → Option ℕ → Option ℕ → Option ℕ → Task → Bool
wanted_task user_id status goal_id due_from due_to row =
    owned_by task_columns user_id row
    && (text_is status row.status
        && (id_is goal_id row.goal_id
            && (at_least due_from row.due_at && at_most due_to row.due_at)))

-- `list` of tasks_repo.py
pub list_tasks :
    Sql
    → ℕ
    → Option String
    → Option ℕ
    → Option ℕ
    → Option ℕ
    → Option String
    → ℕ
    → List Task
    → List Task × Option String
list_tasks sql user_id status goal_id due_from due_to cursor limit db =
    list_page task_columns sql (wanted_task user_id status goal_id due_from due_to) cursor limit db

pub wanted_subtask : ℕ → ℕ → Subtask → Bool
wanted_subtask user_id task_id row =
    owned_by subtask_columns user_id row && (row.task_id == task_id)

-- `list_by_task` of subtasks_repo.py
pub list_subtasks : Sql → ℕ → ℕ → Option String → ℕ → List Subtask → List Subtask × Option String
list_subtasks sql user_id task_id cursor limit db =
    list_page subtask_columns sql (wanted_subtask user_id task_id) cursor limit db

pub wanted_goal : ℕ → Option ℕ → Goal → Bool
wanted_goal user_id updated_from row =
    owned_by goal_columns user_id row && at_least updated_from (some row.updated_at)

-- `list` of goals_repo.py
pub list_goals : Sql → ℕ → Option ℕ → Option String → ℕ → List Goal → List Goal × Option String
list_goals sql user_id updated_from cursor limit db =
    list_page goal_columns sql (wanted_goal user_id updated_from) cursor limit db

pub wanted_inbox_item : ℕ → Option ℕ → InboxItem → Bool
wanted_inbox_item user_id updated_from row =
    owned_by inbox_item_columns user_id row && at_least updated_from (some row.updated_at)

-- `list` of inbox_repo.py
pub list_inbox :
    Sql → ℕ → Option ℕ → Option String → ℕ → List InboxItem → List InboxItem × Option String
list_inbox sql user_id updated_from cursor limit db =
    list_page inbox_item_columns sql (wanted_inbox_item user_id updated_from) cursor limit db

pub wanted_calendar_event : ℕ → Option ℕ → Option ℕ → Option ℕ → CalendarEvent → Bool
wanted_calendar_event user_id updated_from start_from start_to row =
    owned_by calendar_event_columns user_id row
    && (at_least updated_from (some row.updated_at)
        && (at_least start_from (some row.start_at) && at_most start_to (some row.start_at)))

-- `list` of calendar_repo.py
pub list_events :
    Sql
    → ℕ
    → Option ℕ
    → Option ℕ
    → Option ℕ
    → Option String
    → ℕ
    → List CalendarEvent
    → List CalendarEvent × Option String
list_events sql user_id updated_from start_from start_to cursor limit db =
    list_page calendar_event_columns sql
      (wanted_calendar_event user_id updated_from start_from start_to) cursor limit db

pub wanted_account : ℕ → Option ℕ → FinanceAccount → Bool
wanted_account user_id updated_from row =
    owned_by finance_account_columns user_id row && at_least updated_from (some row.updated_at)

-- `list_accounts` of finance_repo.py
pub list_accounts :
    Sql
    → ℕ
    → Option ℕ
    → Option String
    → ℕ
    → List FinanceAccount
    → List FinanceAccount × Option String
list_accounts sql user_id updated_from cursor limit db =
    list_page finance_account_columns sql (wanted_account user_id updated_from) cursor limit db

pub wanted_transaction : ℕ → Option ℕ → Option ℕ → FinanceTransaction → Bool
wanted_transaction user_id account_id updated_from row =
    owned_by finance_transaction_columns user_id row
    && (id_is account_id (some row.account_id) && at_least updated_from (some row.updated_at))

-- `list_transactions` of finance_repo.py
pub list_transactions :
    Sql
    → ℕ
    → Option ℕ
    → Option ℕ
    → Option String
    → ℕ
    → List FinanceTransaction
    → List FinanceTransaction × Option String
list_transactions sql user_id account_id updated_from cursor limit db =
    list_page finance_transaction_columns sql (wanted_transaction user_id account_id updated_from)
      cursor limit db

-- What a run unfolds.
unfoldable pub repositories_program : Unit {0}
unfolding list_page cut_page fetch_limit last_shown cursor_of after_cursor read_cursor tuple_less
    newest_first owned_by text_is id_is at_least at_most wanted_task list_tasks sort get_by_id patch
repositories_program = tt
