-- ===== src/Repositories/Lists/Owned.antt =====
-- The queries of Backend/app/repositories return the rows of a user,
-- not another's.
use life_merge.Base.{ℕ, ◌≡◌, true, ◌&&◌, Bool, Option, List, String, All, All-map, and_true}
use life_merge.Repositories.{Columns, Sql, list_page, owned_by}
use life_merge.Repositories.Pages.{list_page-IsShown}
use life_merge.Repositories.Models.{
  Task, Subtask, Goal, InboxItem, CalendarEvent, FinanceAccount, FinanceTransaction, task_columns,
  subtask_columns, goal_columns, inbox_item_columns, calendar_event_columns,
  finance_account_columns, finance_transaction_columns,
}
use life_merge.Repositories.Lists.{
  list_tasks, list_subtasks, list_goals, list_inbox, list_events, list_accounts, list_transactions,
  wanted_task, wanted_subtask, wanted_goal, wanted_inbox_item, wanted_calendar_event,
  wanted_account, wanted_transaction,
}

module _ {A : Type 0} (columns : Columns A) where
  -- Every row belongs to the user and is not deleted.
  abbrev pub AllOwned : ℕ → List A → Type 0
  AllOwned user_id = All (λ row. owned_by columns user_id row ≡ true)

  list_page-AllOwned :
      (sql : Sql) (user_id : ℕ) (rest : A → Bool) (cursor : Option String) (limit : ℕ) (db : List A)
      → AllOwned user_id
          (list_page columns sql
            (λ row. owned_by columns user_id row && rest row)
            cursor
            limit
            db).0
  list_page-AllOwned sql user_id rest cursor limit db =
      All-map _ _ (λ row h. (and_true _ _ h.0).0) _
        (list_page-IsShown columns sql (λ row. owned_by columns user_id row && rest row) cursor
          limit db)

-- Each list has only rows that belong to the user and are not deleted, whatever the filters and the
-- cursor.
lists_AllOwned :
    (sql : Sql) (user_id : ℕ) (cursor : Option String) (limit : ℕ) (status : Option String)
    (goal_id account_id from to changed : Option ℕ) (task_id : ℕ) (tasks : List Task)
    (subtasks : List Subtask) (goals : List Goal) (items : List InboxItem)
    (events : List CalendarEvent) (accounts : List FinanceAccount)
    (transactions : List FinanceTransaction)
    → AllOwned task_columns user_id
        (list_tasks sql user_id status goal_id from to cursor limit tasks).0
      × AllOwned subtask_columns user_id (list_subtasks sql user_id task_id cursor limit subtasks).0
      × AllOwned goal_columns user_id (list_goals sql user_id changed cursor limit goals).0
      × AllOwned inbox_item_columns user_id (list_inbox sql user_id changed cursor limit items).0
      × AllOwned calendar_event_columns user_id
          (list_events sql user_id changed from to cursor limit events).0
      × AllOwned finance_account_columns user_id
          (list_accounts sql user_id changed cursor limit accounts).0
      × AllOwned finance_transaction_columns user_id
          (list_transactions sql user_id account_id changed cursor limit transactions).0
unfolding list_tasks list_subtasks list_goals list_inbox list_events list_accounts list_transactions
    wanted_task wanted_subtask wanted_goal wanted_inbox_item wanted_calendar_event wanted_account
    wanted_transaction
lists_AllOwned sql user_id cursor limit status goal_id account_id from to changed task_id tasks
      subtasks goals items events accounts transactions =
    (
      list_page-AllOwned task_columns sql user_id _ cursor limit tasks,
      list_page-AllOwned subtask_columns sql user_id _ cursor limit subtasks,
      list_page-AllOwned goal_columns sql user_id _ cursor limit goals,
      list_page-AllOwned inbox_item_columns sql user_id _ cursor limit items,
      list_page-AllOwned calendar_event_columns sql user_id _ cursor limit events,
      list_page-AllOwned finance_account_columns sql user_id _ cursor limit accounts,
      list_page-AllOwned finance_transaction_columns sql user_id _ cursor limit transactions,
    )
