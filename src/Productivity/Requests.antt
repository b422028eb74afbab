-- ===== src/Productivity/Requests.antt =====
-- Backend/app/api/v1/productivity.py: the routes that write, one after another.
pub mod Kept
pub mod Owners
pub mod Lasting
pub mod Adding
use life_merge.Base.{ℕ, List, [], ◌∷◌, String}
use life_merge.Base.Result.{Result, ok, raise, ◌>>=◌}
use life_merge.Access.{CurrentPlan}
use life_merge.Repositories.Models.{Goal, CalendarEvent, InboxItem, FinanceTransaction}
use life_merge.Productivity.{Orm}
use life_merge.Productivity.Goals
use life_merge.Productivity.Goals.{GoalCreateIn, GoalUpdateIn}
use life_merge.Productivity.Events
use life_merge.Productivity.Events.{CalendarEventIn, CalendarEventUpdateIn}
use life_merge.Productivity.Inbox
use life_merge.Productivity.Inbox.{Target}
use life_merge.Productivity.Finance
use life_merge.Productivity.Finance.{FinanceTransactionIn, FinanceTransactionUpdateIn}
use life_merge.Productivity.Budgets
use life_merge.Productivity.Budgets.{Budget, BudgetIn}
use life_merge.Productivity.Notices
use life_merge.Productivity.Notices.{NotificationTrigger, NotificationTriggerIn}

pub record Tables : Type 0 where
  pub goals : List Goal
  pub events : List CalendarEvent
  pub inbox : List InboxItem
  pub transactions : List FinanceTransaction
  pub budgets : List Budget
  pub triggers : List NotificationTrigger

-- A request with what is in its path and its body.
pub data Write : Type 0 where
  create_goal : GoalCreateIn → Write
  update_goal : ℕ → GoalUpdateIn → Write
  create_event : CalendarEventIn → Write
  update_event : ℕ → CalendarEventUpdateIn → Write
  add_inbox_note : String → Write
  convert_inbox_note : ℕ → Target → Write
  create_transaction : FinanceTransactionIn → Write
  update_transaction : ℕ → FinanceTransactionUpdateIn → Write
  delete_transaction : ℕ → Write
  set_budget : BudgetIn → Write
  create_notification_trigger : NotificationTriggerIn → Write

-- The user and the user's plan, the clock, and the identifier that may be drawn.
pub record Sender : Type 0 where
  pub user_id : ℕ
  pub plan : CurrentPlan
  pub now : ℕ
  pub uuid : ℕ

-- A route that raises leaves the tables to the next request as they were.
pub or_unchanged : Tables → Result Tables → Tables
or_unchanged db (ok after) = after
or_unchanged db (raise e) = db

module _ (orm : Orm) where
  -- The tables after a route that returns.
  pub handle : Sender → Write → Tables → Result Tables
  handle by (create_goal body) db =
      Goals.create_goal by.now by.uuid by.user_id body db.goals >>= λ done.
      ok (record db { goals = done.1 })
  handle by (update_goal goal_id body) db =
      Goals.update_goal by.now by.user_id goal_id body db.goals >>= λ done.
      ok (record db { goals = done.1 })
  handle by (create_event body) db =
      Events.create_event orm by.now by.uuid by.user_id body db.events >>= λ done.
      ok (record db { events = done.1 })
  handle by (update_event event_id body) db =
      Events.update_event orm by.now by.user_id event_id body db.events >>= λ done.
      ok (record db { events = done.1 })
  handle by (add_inbox_note note) db =
      Inbox.add_inbox_note by.now by.uuid by.user_id note db.inbox >>= λ done.
      ok (record db { inbox = done.1 })
  handle by (convert_inbox_note item_id target) db =
      Inbox.convert_inbox_note by.now by.user_id item_id target db.inbox >>= λ done.
      ok (record db { inbox = done.1 })
  handle by (create_transaction body) db =
      Finance.create_transaction orm by.now by.uuid by.user_id body db.transactions >>= λ done.
      ok (record db { transactions = done.1 })
  handle by (update_transaction tx_id body) db =
      Finance.update_transaction orm by.now by.user_id tx_id body db.transactions >>= λ done.
      ok (record db { transactions = done.1 })
  handle by (delete_transaction tx_id) db =
      Finance.delete_transaction by.now by.user_id tx_id db.transactions >>= λ after.
      ok (record db { transactions = after })
  handle by (set_budget body) db =
      Budgets.set_budget orm by.now by.uuid by.user_id by.plan body db.budgets >>= λ done.
      ok (record db { budgets = done.1 })
  handle by (create_notification_trigger body) db =
      Notices.create_notification_trigger orm by.now by.uuid by.user_id body db.triggers >>= λ done.
      ok (record db { triggers = done.1 })

  pub serve : List (Sender × Write) → Tables → Tables
  serve [] db = db
  serve ((by, write) ∷ requests) db = serve requests (or_unchanged db (handle by write db))

-- What a run unfolds.
unfoldable pub requests_program : Unit {0}
unfolding handle or_unchanged serve
requests_program = tt
