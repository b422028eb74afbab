-- ===== src/Repositories.antt =====
-- Backend/app/repositories: what the repositories of the models share. Each `list` has its own
-- filters and then the same code, `list_page` here. The rows are those of the table in any order;
-- what the queries use of SQLAlchemy, and the text of a cursor, are arguments.
pub mod Order
pub mod Pages
pub mod Behind
pub mod Walk
pub mod Models
pub mod Lists
pub mod Rows
mod Tests
use life_merge.Base.{
  ℕ, zero, suc, ◌+◌, ◌≡◌, Bool, true, false, not, ◌&&◌, ◌||◌, Option, none, some, List, [], ◌∷◌,
  String, str_eq, ◌==◌, ltb, leb, length, select, if◌then◌else◌, min,
}
use life_merge.Base.Sort.{sort}
use life_merge.Repositories.Order.{take}

-- The columns that every such model has.
pub record Columns (A : Type 0) : Type 0 where
  pub id : A → ℕ
  pub user_id : A → ℕ
  pub updated_at : A → ℕ
  pub deleted : A → Bool

pub data Column : Type 0 where
  updated_at_column id_column : Column

-- `encode` writes a date and an identifier with a bar between them. `decode` is the body of the
-- `try`: it has nothing where `split`, `fromisoformat` or `UUID` raises. `equal_truth` is the truth
-- value that Python is given for a column compared with a value by `==`.
pub record Sql : Type 0 where
  pub encode : ℕ → ℕ → String
  pub decode : String → Option (ℕ × ℕ)
  pub equal_truth : Column → Bool

-- What is relied on: a cursor is not empty and is read as it was written, and SQLAlchemy gives the
-- expression `column == value` the truth value of an identity of its two sides, so that it is false.
pub record IsSql (sql : Sql) : Type 0 where
  pub encode-not_empty : (date id : ℕ) → str_eq (sql.encode date id) "" ≡ false
  pub decode-encode : (date id : ℕ) → sql.decode (sql.encode date id) ≡ some (date, id)
  pub equal_truth-false : (column : Column) → sql.equal_truth column ≡ false

-- `rows[limit - 1]`, which is the last row where `limit` is 0.
pub last_shown : {A : Type 0} → ℕ → List A → Option A
last_shown limit [] = none
last_shown zero (x ∷ []) = some x
last_shown zero (x ∷ y ∷ rows) = last_shown zero (y ∷ rows)
last_shown (suc zero) (x ∷ rows) = some x
last_shown (suc (suc limit)) (x ∷ rows) = last_shown (suc limit) rows

-- `max(1, min(limit, 100)) + 1`
pub fetch_limit : ℕ → ℕ
fetch_limit limit = (if leb (min limit 100) 1 then 1 else min limit 100) + 1

module _ {A : Type 0} (columns : Columns A) where
  -- `order_by(updated_at.desc(), id.desc())`
  pub newest_first : A → A → Bool
  newest_first x y =
      ltb (columns.updated_at y) (columns.updated_at x)
      || ((columns.updated_at x == columns.updated_at y) && leb (columns.id y) (columns.id x))

  -- The condition that `(updated_at, id) < (ts, cid)` comes to. Python compares two tuples at the
  -- first position where `==` does not hold.
  pub tuple_less : (Column → Bool) → ℕ × ℕ → A → Bool
  tuple_less equal_truth (ts, cid) row =
      if not (equal_truth updated_at_column)
      then ltb (columns.updated_at row) ts
      else (if not (equal_truth id_column) then ltb (columns.id row) cid else false)

  pub read_cursor : (Column → Bool) → Option (ℕ × ℕ) → A → Bool
  read_cursor equal_truth none row = true
  read_cursor equal_truth (some at) row = tuple_less equal_truth at row

  pub after_cursor : Sql → Option String → A → Bool
  after_cursor sql none row = true
  after_cursor sql (some cursor) row =
      if str_eq cursor "" then true else read_cursor sql.equal_truth (sql.decode cursor) row

  pub cursor_of : Sql → Option A → Option String
  cursor_of sql none = none
  cursor_of sql (some last) = some (sql.encode (columns.updated_at last) (columns.id last))

  -- The rows to return and `next_cursor`.
  pub cut_page : Sql → ℕ → List A → List A × Option String
  cut_page sql limit rows =
      if ltb limit (length rows)
      then (take limit rows, cursor_of sql (last_shown limit rows))
      else (rows, none)

  -- `list`, after its own filters `wanted`.
  pub list_page : Sql → (A → Bool) → Option String → ℕ → List A → List A × Option String
  list_page sql wanted cursor limit db =
      let matching = select (λ row. wanted row && after_cursor sql cursor row) db in
      cut_page sql limit (take (fetch_limit limit) (sort newest_first matching))

  -- The filters on the owner and on `deleted` that every query has.
  pub owned_by : ℕ → A → Bool
  owned_by user_id row = (columns.user_id row == user_id) && not (columns.deleted row)

  -- `get_by_id`; an identifier is the key of its table.
  pub get_by_id : ℕ → ℕ → List A → Option A
  get_by_id user_id id [] = none
  get_by_id user_id id (row ∷ db) =
      if (columns.id row == id) && owned_by user_id row then some row else get_by_id user_id id db

  -- `patch` and `soft_delete`: `update(...).where(id == ...).values(**values)`, where `assign` sets
  -- the values.
  pub patch : ℕ → (A → A) → List A → List A
  patch id assign [] = []
  patch id assign (row ∷ db) =
      let rest = patch id assign db in
      if columns.id row == id then assign row ∷ rest else row ∷ rest
