-- ===== src/Productivity/Requests/Owners.antt =====
-- Backend/app/api/v1/productivity.py: whose rows the routes that write may change.
use life_merge.Base.{
  ℕ, ◌≡◌, ◌≢◌, refl, Bool, true, false, Option, none, some, List, [], ◌∷◌, All, if◌then◌else◌, ltb,
  leb, ==_iff, String, and_true, select,
}
use life_merge.Base.Result.{
  Result, ok, raise, type_error, Ensures, Ensures-bind, Ensures-then, Ensures-if,
}
use life_merge.Auth.{scalar_one_or_none}
use life_merge.Planner.Time.{before}
use life_merge.Repositories.Models.{
  CalendarEvent, FinanceTransaction, goal_columns, calendar_event_columns, inbox_item_columns,
  finance_transaction_columns,
}
use life_merge.Productivity.{
  Orm, owned_row, live_row, add, set_column, check_length, check_sent, invalid_body,
}
use life_merge.Productivity.Rows.{IsKeyed, Keeps, add-Keeps, live_row-found}
use life_merge.Productivity.Goals.{goals_program}
use life_merge.Productivity.Events
use life_merge.Productivity.Events.{
  CalendarEventIn, CalendarEventOut, events_program, CalendarEventUpdateIn, check_event_in,
  new_event, no_range, check_range, date_or, set_event, stored_column,
}
use life_merge.Productivity.Inbox.{inbox_program}
use life_merge.Productivity.Finance.{
  finance_program, check_transaction, check_amount, stored_or, delete_found,
}
use life_merge.Productivity.Budgets.{
  Budget, BudgetOut, budget_columns, budgets_program, is_limited, free_budget_limit, write_budget,
  put_amount, is_budget, budget_attributes, budget_keywords,
}
use life_merge.Productivity.Notices.{
  trigger_columns, notices_program, trigger_attributes, trigger_keywords,
}
use life_merge.Productivity.Requests.{
  Tables, Write, create_goal, update_goal, create_event, update_event, add_inbox_note,
  convert_inbox_note, create_transaction, update_transaction, delete_transaction, set_budget,
  create_notification_trigger, Sender, handle, or_unchanged, serve,
}
use life_merge.Productivity.Changes.{Same, save_found-Keeps, update-Keeps, create-Keeps, one-owned}
use life_merge.Productivity.Requests.Kept.{
  AllKeyed, AllKeep, AllKeep-refl, AllKeep-AllKeyed, AllKeep-trans, goals-AllKeep, events-AllKeep,
  inbox-AllKeep, transactions-AllKeep, budgets-AllKeep, triggers-AllKeep,
}

module _ (orm : Orm) (v : ℕ) (by : Sender) (other : by.user_id ≢ v) where
  create_event-Keeps :
      (body : CalendarEventIn) (db : List CalendarEvent)
      → IsKeyed calendar_event_columns db
      → Ensures
          (λ (done : CalendarEventOut × List CalendarEvent).
            Keeps calendar_event_columns v db done.1)
          (Events.create_event orm by.now by.uuid by.user_id body db)
  unfolding events_program
  create_event-Keeps body db keyed = Ensures-then _ (check_event_in body) _ λ valid.
      Ensures-then _ (before body.start_at body.end_at) _ λ lasts.
        Ensures-bind (Keeps calendar_event_columns v db) _
          (if lasts
            then add calendar_event_columns (new_event orm.stored by.now by.uuid by.user_id body) db
            else no_range)
          _ (Ensures-if _ lasts _ no_range (add-Keeps calendar_event_columns v _ db other keyed) tt)
          λ after kept. kept

  set_event-Same :
      (body : CalendarEventUpdateIn) (e : CalendarEvent)
      → Ensures
          (Same calendar_event_columns v by.user_id other e)
          (set_event orm.stored by.now body e)
  unfolding events_program
  set_event-Same body e = Ensures-then _ (set_column e.title body.title) _ λ title.
      Ensures-then _ (stored_column orm.stored e.start_at body.start_at) _ λ start_at.
        Ensures-then _ (stored_column orm.stored e.end_at body.end_at) _ λ end_at.
          Ensures-then _ (set_column e.parallel_with body.parallel_with) _
            λ parallel_with. (refl, refl)

  update_event-Keeps :
      (i : ℕ) (body : CalendarEventUpdateIn) (db : List CalendarEvent)
      → IsKeyed calendar_event_columns db
      → Ensures
          (λ (done : CalendarEventOut × List CalendarEvent).
            Keeps calendar_event_columns v db done.1)
          (Events.update_event orm by.now by.user_id i body db)
  unfolding events_program
  update_event-Keeps i body db keyed = Ensures-then _ (check_sent 1 200 body.title) _ λ valid.
      Ensures-bind _ _ (live_row calendar_event_columns by.user_id i db) _
        (live_row-found calendar_event_columns by.user_id i db)
        λ e found.
          Ensures-then _
            (check_range (date_or body.start_at e.start_at) (date_or body.end_at e.end_at)) _
            λ ranged.
              Ensures-bind (Same calendar_event_columns v by.user_id other e) _
                (set_event orm.stored by.now body e) _ (set_event-Same body e)
                λ changed same.
                  save_found-Keeps calendar_event_columns v by.user_id other i e changed db keyed
                    found.0 same

  delete_found-Keeps :
      (i : ℕ) (db : List FinanceTransaction) (found : Option FinanceTransaction)
      → IsKeyed finance_transaction_columns db
      → owned_row finance_transaction_columns by.user_id i db ≡ found
      → Ensures (Keeps finance_transaction_columns v db) (delete_found by.now found db)
  unfolding finance_program
  delete_found-Keeps i db none keyed e = tt
  delete_found-Keeps i db (some t) keyed e =
      save_found-Keeps finance_transaction_columns v by.user_id other i t _ db keyed e (refl, refl)

  write_budget-Keeps :
      (month : String) (amount : ℕ) (db : List Budget) (found : Option Budget)
      → IsKeyed budget_columns db
      → ((b : Budget) → found ≡ some b → owned_row budget_columns by.user_id b.id db ≡ some b)
      → Ensures
          (Keeps budget_columns v db)
          (write_budget orm by.now by.uuid by.user_id month amount db found)
  unfolding budgets_program
  write_budget-Keeps month amount db none keyed at =
      Ensures-if _ (orm.accepts budget_attributes budget_keywords) _ (raise type_error)
        (add-Keeps budget_columns v _ db other keyed) tt
  write_budget-Keeps month amount db (some b) keyed at =
      save_found-Keeps budget_columns v by.user_id other b.id b _ db keyed (at b refl) (refl, refl)

  put_amount-Keeps :
      (month : String) (amount : ℕ) (limited : Bool) (db : List Budget)
      → IsKeyed budget_columns db
      → Ensures
          (λ (done : BudgetOut × List Budget). Keeps budget_columns v db done.1)
          (put_amount orm by.now by.uuid by.user_id month amount limited db)
  unfolding budgets_program
  put_amount-Keeps month amount limited db keyed =
      Ensures-bind _ _
        (scalar_one_or_none (select (is_budget orm by.now by.uuid by.user_id month) db)) _
        (one-owned budget_columns by.user_id (is_budget orm by.now by.uuid by.user_id month)
          (λ b h. (==_iff b.user_id by.user_id).0 (and_true _ _ h).0) db keyed)
        λ found at.
          Ensures-bind (Keeps budget_columns v db) _
            (write_budget orm by.now by.uuid by.user_id month amount db found) _
            (write_budget-Keeps month amount db found keyed at) λ after kept. kept

module _ (orm : Orm) (v : ℕ) where
  handle-AllKeep :
      (by : Sender) (write : Write) (db : Tables)
      → by.user_id ≢ v
      → AllKeyed db
      → Ensures (AllKeep v db) (handle orm by write db)
  unfolding handle goals_program events_program inbox_program finance_program budgets_program
      notices_program
  handle-AllKeep by (create_goal body) db other k = goals-AllKeep v db k _ (
      Ensures-then _ (check_length 1 200 body.title) _
        λ valid. create-Keeps goal_columns v by.user_id other _ _ db.goals refl k.0)
  handle-AllKeep by (update_goal i body) db other k = goals-AllKeep v db k _ (
      Ensures-then _ (check_sent 1 200 body.title) _ λ valid.
        update-Keeps goal_columns v by.user_id other i _ _ db.goals k.0
          λ g. Ensures-then _ (set_column g.title body.title) _ λ title. (refl, refl))
  handle-AllKeep by (create_event body) db other k =
      events-AllKeep v db k _ (create_event-Keeps orm v by other body db.events k.1)
  handle-AllKeep by (update_event i body) db other k =
      events-AllKeep v db k _ (update_event-Keeps orm v by other i body db.events k.1)
  handle-AllKeep by (add_inbox_note note) db other k = inbox-AllKeep v db k _ (
      Ensures-then _ (check_length 1 500 note) _
        λ valid. create-Keeps inbox_item_columns v by.user_id other _ _ db.inbox refl k.2)
  handle-AllKeep by (convert_inbox_note i target) db other k = inbox-AllKeep v db k _ (
      Ensures-bind _ _ (live_row inbox_item_columns by.user_id i db.inbox) _
        (live_row-found inbox_item_columns by.user_id i db.inbox)
        λ item found.
          save_found-Keeps inbox_item_columns v by.user_id other i item _ db.inbox k.2 found.0
            (refl, refl))
  handle-AllKeep by (create_transaction body) db other k =
      transactions-AllKeep v db k _ (Ensures-then _ (check_transaction body) _ λ valid. tt)
  handle-AllKeep by (update_transaction i body) db other k = transactions-AllKeep v db k _ (
      Ensures-then _ (check_amount body.amount) _ λ valid.
        update-Keeps finance_transaction_columns v by.user_id other i _ _ db.transactions k.3 λ t.
          Ensures-then _ (set_column t.amount body.amount) _ λ amount.
            Ensures-then _ (set_column t.category body.category) _ λ category.
              Ensures-then _ (set_column t.occurred_at (stored_or orm.stored body.occurred_at)) _
                λ occurred_at.
                  Ensures-then _ (set_column t.recurring body.recurring) _
                    λ recurring. (refl, refl))
  handle-AllKeep by (delete_transaction i) db other k =
      Ensures-bind (Keeps finance_transaction_columns v db.transactions) _
        (delete_found by.now (owned_row finance_transaction_columns by.user_id i db.transactions)
          db.transactions)
        _ (delete_found-Keeps orm v by other i db.transactions _ k.3 refl)
        λ after kept. ((k.0, refl), (k.1, refl), (k.2, refl), kept, (k.4, refl), (k.5, refl))
  handle-AllKeep by (set_budget body) db other k = budgets-AllKeep v db k _ (
      Ensures-if _ (ltb 0 body.amount) _ invalid_body
        (Ensures-if _ (is_limited by.plan body.amount) _ _
          (put_amount-Keeps orm v by other body.month free_budget_limit true db.budgets k.4)
          (put_amount-Keeps orm v by other body.month body.amount false db.budgets k.4))
        tt)
  handle-AllKeep by (create_notification_trigger body) db other k = triggers-AllKeep v db k _ (
      Ensures-then _ (if leb body.lead_minutes 1440 then ok tt else invalid_body) _ λ valid.
        Ensures-bind (Keeps trigger_columns v db.triggers) _ _ _
          (Ensures-if _ (orm.accepts trigger_attributes trigger_keywords) _ (raise type_error)
            (add-Keeps trigger_columns v _ db.triggers other k.5) tt)
          λ after kept. kept)

  handled-AllKeep :
      (db : Tables) (outcome : Result Tables)
      → AllKeyed db
      → Ensures (AllKeep v db) outcome
      → AllKeep v db (or_unchanged db outcome)
  unfolding or_unchanged
  handled-AllKeep db (ok after) k kept = kept
  handled-AllKeep db (raise e) k kept = AllKeep-refl v db k

  -- Where each table has one row at most for each key, the requests of others, in any order and
  -- whether they raise or not, leave a user's goals, events, notes, transactions, budgets and
  -- triggers as they were, and each table still has one row at most for each key.
  pub serve-AllKeep :
      (requests : List (Sender × Write)) (db : Tables)
      → AllKeyed db
      → All (λ request. request.0.user_id ≢ v) requests
      → AllKeep v db (serve orm requests db)
  unfolding serve
  serve-AllKeep [] db k others = AllKeep-refl v db k
  serve-AllKeep ((by, write) ∷ requests) db k others =
      let between = or_unchanged db (handle orm by write db) in
      let once =
        handled-AllKeep db (handle orm by write db) k (handle-AllKeep by write db others.0 k) in
      AllKeep-trans v db between (serve orm requests between) once
        (serve-AllKeep requests between (AllKeep-AllKeyed v db between once) others.1)
