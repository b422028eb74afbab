-- ===== src/Productivity/Requests/Adding.antt =====
-- Backend/app/api/v1/productivity.py: the tables that its routes cannot add to.
use life_merge.Base.{
  ℕ, ◌≡◌, refl, ◌∙◌, Bool, true, false, Option, none, some, String, List, [], ◌∷◌, map,
  if◌then◌else◌, ltb, leb, select,
}
use life_merge.Base.Result.{Result, ok, raise, Ensures, Ensures-bind, Ensures-then, Ensures-if}
use life_merge.Auth.{scalar_one_or_none}
use life_merge.Repositories.Models.{FinanceTransaction, finance_transaction_columns}
use life_merge.Productivity.{Orm, IsOrm, owned_row, live_row, invalid_body}
use life_merge.Productivity.Rows.{map-save}
use life_merge.Productivity.Events
use life_merge.Productivity.Goals
use life_merge.Productivity.Inbox
use life_merge.Productivity.Finance
use life_merge.Productivity.Budgets
use life_merge.Productivity.Notices
use life_merge.Productivity.Finance.{
  FinanceTransactionIn, FinanceTransactionUpdateIn, finance_program, check_transaction,
  check_amount, set_transaction, delete_found, transaction_out,
}
use life_merge.Productivity.Budgets.{
  Budget, BudgetOut, BudgetIn, budget_columns, budgets_program, is_limited, free_budget_limit,
  write_budget, put_amount, is_budget, budget_attributes, budget_keywords,
}
use life_merge.Productivity.Notices.{
  NotificationTrigger, NotificationTriggerOut, NotificationTriggerIn, notices_program,
  trigger_attributes, trigger_keywords, trigger_columns, new_trigger, trigger_out,
}
use life_merge.Productivity.Requests.{
  Tables, Write, create_goal, update_goal, create_event, update_event, add_inbox_note,
  convert_inbox_note, create_transaction, update_transaction, delete_transaction, set_budget,
  create_notification_trigger, Sender, handle, or_unchanged, serve,
}

-- The tables of transactions, budgets and triggers have the same keys.
abbrev pub NoneAdded : Tables → Tables → Type 0
NoneAdded db after =
    (map (λ t. t.id) after.transactions ≡ map (λ t. t.id) db.transactions)
    × (map (λ b. b.id) after.budgets ≡ map (λ b. b.id) db.budgets)
    × (map (λ t. t.id) after.triggers ≡ map (λ t. t.id) db.triggers)

module _ (orm : Orm) (is_orm : IsOrm orm) where
  no_budget : orm.accepts budget_attributes budget_keywords ≡ false
  no_budget = is_orm.accepts-eq budget_attributes budget_keywords

  no_trigger : orm.accepts trigger_attributes trigger_keywords ≡ false
  no_trigger = is_orm.accepts-eq trigger_attributes trigger_keywords

  write_budget-keys :
      (now uuid user_id : ℕ) (month : String) (amount : ℕ) (db : List Budget)
      (found : Option Budget)
      → Ensures
          (λ after. map (λ b. b.id) after ≡ map (λ b. b.id) db)
          (write_budget orm now uuid user_id month amount db found)
  unfolding budgets_program
  write_budget-keys now uuid user_id month amount db none = rw no_budget tt
  write_budget-keys now uuid user_id month amount db (some b) = map-save budget_columns _ db

  set_budget-keys :
      (by : Sender) (body : BudgetIn) (db : List Budget)
      → Ensures
          (λ (done : BudgetOut × List Budget). map (λ b. b.id) done.1 ≡ map (λ b. b.id) db)
          (Budgets.set_budget orm by.now by.uuid by.user_id by.plan body db)
  unfolding budgets_program
  set_budget-keys by body db =
      Ensures-if _ (ltb 0 body.amount) _ invalid_body
        (Ensures-if _ (is_limited by.plan body.amount) _ _ (put free_budget_limit true)
          (put body.amount false))
        tt
    where
      put :
          (amount : ℕ) (limited : Bool)
          → Ensures
              (λ (done : BudgetOut × List Budget). map (λ b. b.id) done.1 ≡ map (λ b. b.id) db)
              (put_amount orm by.now by.uuid by.user_id body.month amount limited db)
      put amount limited =
          Ensures-then _
            (scalar_one_or_none (select (is_budget orm by.now by.uuid by.user_id body.month) db)) _
            λ found.
              Ensures-bind (λ after. map (λ b. b.id) after ≡ map (λ b. b.id) db) _
                (write_budget orm by.now by.uuid by.user_id body.month amount db found) _
                (write_budget-keys by.now by.uuid by.user_id body.month amount db found)
                λ after same. same

  create_trigger-never :
      (by : Sender) (body : NotificationTriggerIn) (db : List NotificationTrigger)
      → Ensures
          (λ done. ⊥)
          (Notices.create_notification_trigger orm by.now by.uuid by.user_id body db)
  unfolding notices_program
  create_trigger-never by body db =
      Ensures-then _ (if leb body.lead_minutes 1440 then ok tt else invalid_body) _
        λ valid. rw no_trigger tt

  create_transaction-never :
      (by : Sender) (body : FinanceTransactionIn) (db : List FinanceTransaction)
      → Ensures (λ done. ⊥) (Finance.create_transaction orm by.now by.uuid by.user_id body db)
  unfolding finance_program
  create_transaction-never by body db = Ensures-then _ (check_transaction body) _ λ valid. tt

  update_transaction-keys :
      (by : Sender) (i : ℕ) (body : FinanceTransactionUpdateIn) (db : List FinanceTransaction)
      → Ensures
          (λ done. map (λ t. t.id) done.1 ≡ map (λ t. t.id) db)
          (Finance.update_transaction orm by.now by.user_id i body db)
  unfolding finance_program
  update_transaction-keys by i body db = Ensures-then _ (check_amount body.amount) _ λ valid.
      Ensures-then _ (live_row finance_transaction_columns by.user_id i db) _ λ t.
        Ensures-then _ (set_transaction orm.stored by.now body t) _
          λ changed. map-save finance_transaction_columns changed db

  delete_found-keys :
      (now : ℕ) (found : Option FinanceTransaction) (db : List FinanceTransaction)
      → Ensures (λ after. map (λ t. t.id) after ≡ map (λ t. t.id) db) (delete_found now found db)
  unfolding finance_program
  delete_found-keys now none db = tt
  delete_found-keys now (some t) db = map-save finance_transaction_columns _ db

  delete_transaction-keys :
      (by : Sender) (i : ℕ) (db : List FinanceTransaction)
      → Ensures
          (λ after. map (λ t. t.id) after ≡ map (λ t. t.id) db)
          (Finance.delete_transaction by.now by.user_id i db)
  unfolding finance_program
  delete_transaction-keys by i db =
      delete_found-keys by.now (owned_row finance_transaction_columns by.user_id i db) db

  handle-NoneAdded :
      (by : Sender) (write : Write) (db : Tables) → Ensures (NoneAdded db) (handle orm by write db)
  unfolding handle
  handle-NoneAdded by (create_goal body) db =
      Ensures-then (NoneAdded db) (Goals.create_goal by.now by.uuid by.user_id body db.goals) _
        λ done. (refl, refl, refl)
  handle-NoneAdded by (update_goal i body) db =
      Ensures-then (NoneAdded db) (Goals.update_goal by.now by.user_id i body db.goals) _
        λ done. (refl, refl, refl)
  handle-NoneAdded by (create_event body) db =
      Ensures-then (NoneAdded db) (Events.create_event orm by.now by.uuid by.user_id body db.events)
        _ λ done. (refl, refl, refl)
  handle-NoneAdded by (update_event i body) db =
      Ensures-then (NoneAdded db) (Events.update_event orm by.now by.user_id i body db.events) _
        λ done. (refl, refl, refl)
  handle-NoneAdded by (add_inbox_note note) db =
      Ensures-then (NoneAdded db) (Inbox.add_inbox_note by.now by.uuid by.user_id note db.inbox) _
        λ done. (refl, refl, refl)
  handle-NoneAdded by (convert_inbox_note i target) db =
      Ensures-then (NoneAdded db) (Inbox.convert_inbox_note by.now by.user_id i target db.inbox) _
        λ done. (refl, refl, refl)
  handle-NoneAdded by (create_transaction body) db =
      Ensures-bind (λ done. ⊥) (NoneAdded db)
        (Finance.create_transaction orm by.now by.uuid by.user_id body db.transactions) _
        (create_transaction-never by body db.transactions) λ done never. absurd never
  handle-NoneAdded by (update_transaction i body) db =
      Ensures-bind _ (NoneAdded db)
        (Finance.update_transaction orm by.now by.user_id i body db.transactions) _
        (update_transaction-keys by i body db.transactions) λ done same. (same, refl, refl)
  handle-NoneAdded by (delete_transaction i) db =
      Ensures-bind _ (NoneAdded db) (Finance.delete_transaction by.now by.user_id i db.transactions)
        _ (delete_transaction-keys by i db.transactions) λ done same. (same, refl, refl)
  handle-NoneAdded by (set_budget body) db =
      Ensures-bind _ (NoneAdded db)
        (Budgets.set_budget orm by.now by.uuid by.user_id by.plan body db.budgets) _
        (set_budget-keys by body db.budgets) λ done same. (refl, same, refl)
  handle-NoneAdded by (create_notification_trigger body) db =
      Ensures-bind (λ done. ⊥) (NoneAdded db)
        (Notices.create_notification_trigger orm by.now by.uuid by.user_id body db.triggers) _
        (create_trigger-never by body db.triggers) λ done never. absurd never

  -- No sequence of requests adds a transaction, a budget or a notification trigger: the tables have
  -- the keys that they had, whatever is sent, provided that constructors take keywords as `IsOrm` says.
  pub serve-NoneAdded :
      (requests : List (Sender × Write)) (db : Tables) → NoneAdded db (serve orm requests db)
  unfolding serve or_unchanged
  serve-NoneAdded [] db = (refl, refl, refl)
  serve-NoneAdded ((by, write) ∷ requests) db =
      let once = handled (handle orm by write db) (handle-NoneAdded by write db) in
      let more = serve-NoneAdded requests (or_unchanged db (handle orm by write db)) in
      (more.0 ∙ once.0, more.1 ∙ once.1, more.2 ∙ once.2)
    where
      handled :
          (outcome : Result Tables)
          → Ensures (NoneAdded db) outcome
          → NoneAdded db (or_unchanged db outcome)
      handled (ok after) same = same
      handled (raise e) same = (refl, refl, refl)
