-- ===== src/Productivity/Finance.antt =====
-- Backend/app/api/v1/productivity.py: the routes of transactions, with the summary of a month. Sums
-- of floats are sums of hundredths.
pub mod Totals
use life_merge.Base.{
  ℕ, ◌+◌, Bool, true, false, ◌&&◌, Option, none, some, List, [], ◌∷◌, ◌++◌, map, String, str_eq,
  ◌==◌, ltb, leb, select, if◌then◌else◌,
}
use life_merge.Base.Int.{ℤ, sub_ℕ}
use life_merge.Base.Result.{Result, ok, raise, integrity_error, ◌>>=◌}
use life_merge.Base.Sort.{sort}
use life_merge.Planner.Time.{DateTime}
use life_merge.Repositories.{Columns, owned_by}
use life_merge.Repositories.Lists.{at_least}
use life_merge.Repositories.Models.{FinanceTransaction, finance_transaction_columns}
use life_merge.Productivity.{
  Orm, invalid_body, not_found, check_length, set_column, owned_row, live_row, add, save,
}
use life_merge.Sync.{Field, missing, null, value}

pub data TransactionType : Type 0 where
  income expense : TransactionType

abbrev pub type_text : TransactionType → String
type_text income = "income"
type_text expense = "expense"

pub record FinanceTransactionIn : Type 0 where
  pub type : TransactionType
  pub amount : ℕ
  pub currency : String
  pub category : String
  pub occurred_at : DateTime
  pub recurring : Bool

pub record FinanceTransactionUpdateIn : Type 0 where
  pub amount : Field ℕ
  pub category : Field String
  pub occurred_at : Field DateTime
  pub recurring : Field Bool

pub record FinanceTransactionOut : Type 0 where
  pub id : ℕ
  pub type : String
  pub amount : ℕ
  pub currency : String
  pub category : String
  pub occurred_at : ℕ
  pub recurring : Bool

abbrev pub transaction_out : FinanceTransaction → FinanceTransactionOut
transaction_out t = record {
  id = t.id;
  type = t.type;
  amount = t.amount;
  currency = t.currency;
  category = t.category;
  occurred_at = t.occurred_at;
  recurring = t.recurring;
}

-- `list_transactions`: the latest first.
pub list_transactions : ℕ → Option ℕ → List FinanceTransaction → List FinanceTransactionOut
list_transactions user_id updated_from db = map transaction_out (
    sort (λ x y. leb y.occurred_at x.occurred_at)
      (select
        (λ t.
          owned_by finance_transaction_columns user_id t
          && at_least updated_from (some t.updated_at))
        db))

-- `gt=0`, and the length of the currency.
pub check_transaction : FinanceTransactionIn → Result (Unit {0})
check_transaction body =
    (if ltb 0 body.amount then ok tt else invalid_body) >>= λ valid. check_length 3 3 body.currency

pub new_transaction : (DateTime → ℕ) → ℕ → ℕ → ℕ → FinanceTransactionIn → ℕ → FinanceTransaction
new_transaction stored now uuid user_id body account_id = record {
  id = uuid;
  user_id = user_id;
  account_id = account_id;
  type = type_text body.type;
  amount = body.amount;
  currency = body.currency;
  category = body.category;
  occurred_at = stored body.occurred_at;
  recurring = body.recurring;
  note = none;
  created_at = now;
  updated_at = now;
  deleted = false;
}

-- `db.add` and the commit of a transaction whose account may be missing, which its column may not.
pub add_transaction :
    (ℕ → FinanceTransaction)
    → Option ℕ
    → List FinanceTransaction
    → Result (FinanceTransaction × List FinanceTransaction)
add_transaction row none db = raise integrity_error
add_transaction row (some account_id) db =
    add finance_transaction_columns (row account_id) db >>= λ after. ok (row account_id, after)

-- `create_transaction`, which names no account.
pub create_transaction :
    Orm
    → ℕ
    → ℕ
    → ℕ
    → FinanceTransactionIn
    → List FinanceTransaction
    → Result (FinanceTransactionOut × List FinanceTransaction)
create_transaction orm now uuid user_id body db = check_transaction body >>= λ valid.
    add_transaction (new_transaction orm.stored now uuid user_id body) none db >>= λ (t, after).
    ok (transaction_out t, after)

pub check_amount : Field ℕ → Result (Unit {0})
check_amount missing = ok tt
check_amount null = ok tt
check_amount (value amount) = if ltb 0 amount then ok tt else invalid_body

pub stored_or : (DateTime → ℕ) → Field DateTime → Field ℕ
stored_or stored missing = missing
stored_or stored null = null
stored_or stored (value new) = value (stored new)

pub set_transaction :
    (DateTime → ℕ) → ℕ → FinanceTransactionUpdateIn → FinanceTransaction → Result FinanceTransaction
set_transaction stored now body t = set_column t.amount body.amount >>= λ amount.
    set_column t.category body.category >>= λ category.
    set_column t.occurred_at (stored_or stored body.occurred_at) >>= λ occurred_at.
    set_column t.recurring body.recurring >>= λ recurring. ok (record t {
      amount = amount;
      category = category;
      occurred_at = occurred_at;
      recurring = recurring;
      updated_at = now;
    })

-- `update_transaction`
pub update_transaction :
    Orm
    → ℕ
    → ℕ
    → ℕ
    → FinanceTransactionUpdateIn
    → List FinanceTransaction
    → Result (FinanceTransactionOut × List FinanceTransaction)
update_transaction orm now user_id tx_id body db = check_amount body.amount >>= λ valid.
    live_row finance_transaction_columns user_id tx_id db >>= λ t.
    set_transaction orm.stored now body t >>= λ changed.
    ok (transaction_out changed, save finance_transaction_columns changed db)

pub delete_found :
    ℕ → Option FinanceTransaction → List FinanceTransaction → Result (List FinanceTransaction)
delete_found now none db = not_found
delete_found now (some t) db =
    ok (save finance_transaction_columns (record t { deleted = true; updated_at = now }) db)

-- `delete_transaction`; a row that is deleted already is deleted again.
pub delete_transaction : ℕ → ℕ → ℕ → List FinanceTransaction → Result (List FinanceTransaction)
delete_transaction now user_id tx_id db =
    delete_found now (owned_row finance_transaction_columns user_id tx_id db) db

-- Python's floats: `float` of a number of hundredths, the built-in `sum`, and the difference.
pub record Floats (F : Type 0) : Type 0 where
  pub float : ℕ → F
  pub sum : List F → F
  pub minus : F → F → F

-- `sum(float(t.amount) for t in txs if t.type == kind)`
pub total : {F : Type 0} → Floats F → String → List FinanceTransaction → F
total floats kind txs =
    floats.sum (map (λ t. floats.float t.amount) (select (λ t. str_eq t.type kind) txs))

pub record Summary (F : Type 0) : Type 0 where
  pub month : String
  pub income_total : F
  pub expense_total : F
  pub net : F
  pub budgets : List (String × F)

-- `budgets[month] = amount`
pub put_budget : {F : Type 0} → String → F → List (String × F) → List (String × F)
put_budget month amount [] = (month, amount) ∷ []
put_budget month amount ((key, old) ∷ budgets) =
    let rest = put_budget month amount budgets in
    if str_eq key month then (month, amount) ∷ budgets else (key, old) ∷ rest

-- The rows of `budgets` are given as their owner, month and amount.
pub read_budgets :
    {F : Type 0} → Floats F → ℕ → List (ℕ × String × ℕ) → List (String × F) → List (String × F)
read_budgets floats user_id [] budgets = budgets
read_budgets floats user_id ((owner, month, amount) ∷ rows) budgets =
    read_budgets floats user_id rows
      (if owner == user_id then put_budget month (floats.float amount) budgets else budgets)

-- `finance_summary`
pub finance_summary :
    {F : Type 0}
    → Floats F
    → ℕ
    → String
    → List (ℕ × String × ℕ)
    → List FinanceTransaction
    → Summary F
finance_summary floats user_id month budgets db =
    let txs = select (owned_by finance_transaction_columns user_id) db in
    let income_total = total floats "income" txs in
    let expense_total = total floats "expense" txs in
    record {
      month = month;
      income_total = income_total;
      expense_total = expense_total;
      net = floats.minus income_total expense_total;
      budgets = read_budgets floats user_id budgets [];
    }

-- What a run unfolds.
unfoldable pub finance_program : Unit {0}
unfolding list_transactions check_transaction new_transaction add_transaction create_transaction
    check_amount stored_or set_transaction update_transaction delete_found delete_transaction total
    put_budget read_budgets finance_summary
finance_program = tt
