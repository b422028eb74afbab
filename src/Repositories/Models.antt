-- ===== src/Repositories/Models.antt =====
-- Backend/app/models: the rows that the repositories list. A date is an instant, an amount a number
-- of hundredths, which the schemas keep above zero. `Goal.progress`, which is a float, is left out.
use life_merge.Base.{ℕ, Bool, Option, List, String}
use life_merge.Repositories.{Columns}

pub record Task : Type 0 where
  pub id : ℕ
  pub user_id : ℕ
  pub title : String
  pub description : Option String
  pub status : String
  pub priority : Option ℕ
  pub estimated_minutes : Option ℕ
  pub energy_level : Option ℕ
  pub goal_id : Option ℕ
  pub due_at : Option ℕ
  pub created_at : ℕ
  pub updated_at : ℕ
  pub deleted : Bool

abbrev pub task_columns : Columns Task
task_columns = record {
  id = λ row. row.id;
  user_id = λ row. row.user_id;
  updated_at = λ row. row.updated_at;
  deleted = λ row. row.deleted;
}

pub record Subtask : Type 0 where
  pub id : ℕ
  pub user_id : ℕ
  pub task_id : ℕ
  pub title : String
  pub done : Bool
  pub created_at : ℕ
  pub updated_at : ℕ
  pub deleted : Bool

abbrev pub subtask_columns : Columns Subtask
subtask_columns = record {
  id = λ row. row.id;
  user_id = λ row. row.user_id;
  updated_at = λ row. row.updated_at;
  deleted = λ row. row.deleted;
}

pub record Goal : Type 0 where
  pub id : ℕ
  pub user_id : ℕ
  pub title : String
  pub description : Option String
  pub target_date : Option ℕ
  pub tasks_total : ℕ
  pub tasks_completed : ℕ
  pub created_at : ℕ
  pub updated_at : ℕ
  pub deleted : Bool

abbrev pub goal_columns : Columns Goal
goal_columns = record {
  id = λ row. row.id;
  user_id = λ row. row.user_id;
  updated_at = λ row. row.updated_at;
  deleted = λ row. row.deleted;
}

pub record InboxItem : Type 0 where
  pub id : ℕ
  pub user_id : ℕ
  pub note : String
  pub converted_to : Option String
  pub created_at : ℕ
  pub updated_at : ℕ
  pub deleted : Bool

abbrev pub inbox_item_columns : Columns InboxItem
inbox_item_columns = record {
  id = λ row. row.id;
  user_id = λ row. row.user_id;
  updated_at = λ row. row.updated_at;
  deleted = λ row. row.deleted;
}

pub record CalendarEvent : Type 0 where
  pub id : ℕ
  pub user_id : ℕ
  pub title : String
  pub start_at : ℕ
  pub end_at : ℕ
  pub recurrence : Option String
  pub parallel_with : List ℕ
  pub created_at : ℕ
  pub updated_at : ℕ
  pub deleted : Bool

abbrev pub calendar_event_columns : Columns CalendarEvent
calendar_event_columns = record {
  id = λ row. row.id;
  user_id = λ row. row.user_id;
  updated_at = λ row. row.updated_at;
  deleted = λ row. row.deleted;
}

pub record FinanceAccount : Type 0 where
  pub id : ℕ
  pub user_id : ℕ
  pub name : String
  pub currency : String
  pub is_primary : Bool
  pub created_at : ℕ
  pub updated_at : ℕ
  pub deleted : Bool

abbrev pub finance_account_columns : Columns FinanceAccount
finance_account_columns = record {
  id = λ row. row.id;
  user_id = λ row. row.user_id;
  updated_at = λ row. row.updated_at;
  deleted = λ row. row.deleted;
}

pub record FinanceTransaction : Type 0 where
  pub id : ℕ
  pub user_id : ℕ
  pub account_id : ℕ
  pub type : String
  pub amount : ℕ
  pub currency : String
  pub category : String
  pub occurred_at : ℕ
  pub recurring : Bool
  pub note : Option String
  pub created_at : ℕ
  pub updated_at : ℕ
  pub deleted : Bool

abbrev pub finance_transaction_columns : Columns FinanceTransaction
finance_transaction_columns = record {
  id = λ row. row.id;
  user_id = λ row. row.user_id;
  updated_at = λ row. row.updated_at;
  deleted = λ row. row.deleted;
}
