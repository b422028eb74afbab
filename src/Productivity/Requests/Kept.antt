-- ===== src/Productivity/Requests/Kept.antt =====
-- Backend/app/api/v1/productivity.py: a user's rows in all the tables that its routes write.
use life_merge.Base.{ℕ, refl, ◌∙◌, List}
use life_merge.Base.Result.{Result, ok, ◌>>=◌, Ensures, Ensures-bind}
use life_merge.Repositories.Models.{
  Goal, CalendarEvent, InboxItem, FinanceTransaction, goal_columns, calendar_event_columns,
  inbox_item_columns, finance_transaction_columns,
}
use life_merge.Productivity.Rows.{IsKeyed, Keeps}
use life_merge.Productivity.Budgets.{Budget, budget_columns}
use life_merge.Productivity.Notices.{NotificationTrigger, trigger_columns}
use life_merge.Productivity.Requests.{Tables}

abbrev pub AllKeyed : Tables → Type 0
AllKeyed db =
    IsKeyed goal_columns db.goals
    × IsKeyed calendar_event_columns db.events
    × IsKeyed inbox_item_columns db.inbox
    × IsKeyed finance_transaction_columns db.transactions
    × IsKeyed budget_columns db.budgets
    × IsKeyed trigger_columns db.triggers

-- Each table keeps its keys apart and has the rows of a user as they were.
abbrev pub AllKeep : ℕ → Tables → Tables → Type 0
AllKeep v db after =
    Keeps goal_columns v db.goals after.goals
    × Keeps calendar_event_columns v db.events after.events
    × Keeps inbox_item_columns v db.inbox after.inbox
    × Keeps finance_transaction_columns v db.transactions after.transactions
    × Keeps budget_columns v db.budgets after.budgets
    × Keeps trigger_columns v db.triggers after.triggers

module _ (v : ℕ) (db : Tables) (k : AllKeyed db) where
  pub goals-AllKeep :
      {B : Type 0} (call : Result (B × List Goal))
      → Ensures (λ (done : B × List Goal). Keeps goal_columns v db.goals done.1) call
      → Ensures (AllKeep v db) (call >>= λ done. ok (record db { goals = done.1 }))
  goals-AllKeep call kept =
      Ensures-bind _ (AllKeep v db) call _ kept
        λ done kept. (kept, (k.1, refl), (k.2, refl), (k.3, refl), (k.4, refl), (k.5, refl))

  pub events-AllKeep :
      {B : Type 0} (call : Result (B × List CalendarEvent))
      → Ensures
          (λ (done : B × List CalendarEvent). Keeps calendar_event_columns v db.events done.1)
          call
      → Ensures (AllKeep v db) (call >>= λ done. ok (record db { events = done.1 }))
  events-AllKeep call kept =
      Ensures-bind _ (AllKeep v db) call _ kept
        λ done kept. ((k.0, refl), kept, (k.2, refl), (k.3, refl), (k.4, refl), (k.5, refl))

  pub inbox-AllKeep :
      {B : Type 0} (call : Result (B × List InboxItem))
      → Ensures (λ (done : B × List InboxItem). Keeps inbox_item_columns v db.inbox done.1) call
      → Ensures (AllKeep v db) (call >>= λ done. ok (record db { inbox = done.1 }))
  inbox-AllKeep call kept =
      Ensures-bind _ (AllKeep v db) call _ kept
        λ done kept. ((k.0, refl), (k.1, refl), kept, (k.3, refl), (k.4, refl), (k.5, refl))

  pub transactions-AllKeep :
      {B : Type 0} (call : Result (B × List FinanceTransaction))
      → Ensures
          (λ (done : B × List FinanceTransaction).
            Keeps finance_transaction_columns v db.transactions done.1)
          call
      → Ensures (AllKeep v db) (call >>= λ done. ok (record db { transactions = done.1 }))
  transactions-AllKeep call kept =
      Ensures-bind _ (AllKeep v db) call _ kept
        λ done kept. ((k.0, refl), (k.1, refl), (k.2, refl), kept, (k.4, refl), (k.5, refl))

  pub budgets-AllKeep :
      {B : Type 0} (call : Result (B × List Budget))
      → Ensures (λ (done : B × List Budget). Keeps budget_columns v db.budgets done.1) call
      → Ensures (AllKeep v db) (call >>= λ done. ok (record db { budgets = done.1 }))
  budgets-AllKeep call kept =
      Ensures-bind _ (AllKeep v db) call _ kept
        λ done kept. ((k.0, refl), (k.1, refl), (k.2, refl), (k.3, refl), kept, (k.5, refl))

  pub triggers-AllKeep :
      {B : Type 0} (call : Result (B × List NotificationTrigger))
      → Ensures
          (λ (done : B × List NotificationTrigger). Keeps trigger_columns v db.triggers done.1)
          call
      → Ensures (AllKeep v db) (call >>= λ done. ok (record db { triggers = done.1 }))
  triggers-AllKeep call kept =
      Ensures-bind _ (AllKeep v db) call _ kept
        λ done kept. ((k.0, refl), (k.1, refl), (k.2, refl), (k.3, refl), (k.4, refl), kept)

  pub AllKeep-refl : AllKeep v db db
  AllKeep-refl = ((k.0, refl), (k.1, refl), (k.2, refl), (k.3, refl), (k.4, refl), (k.5, refl))

module _ (v : ℕ) (db between : Tables) where
  pub AllKeep-AllKeyed : AllKeep v db between → AllKeyed between
  AllKeep-AllKeyed kept = (kept.0.0, kept.1.0, kept.2.0, kept.3.0, kept.4.0, kept.5.0)

  pub AllKeep-trans :
      (after : Tables) → AllKeep v db between → AllKeep v between after → AllKeep v db after
  AllKeep-trans after once more = (
    (more.0.0, more.0.1 ∙ once.0.1),
    (more.1.0, more.1.1 ∙ once.1.1),
    (more.2.0, more.2.1 ∙ once.2.1),
    (more.3.0, more.3.1 ∙ once.3.1),
    (more.4.0, more.4.1 ∙ once.4.1),
    (more.5.0, more.5.1 ∙ once.5.1),
  )
