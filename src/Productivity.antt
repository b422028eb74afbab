-- ===== src/Productivity.antt =====
-- Backend/app/api/v1/productivity.py: what its routes share, and SQLAlchemy, which they use. A route
-- commits at most once, after all that it writes, so a call that raises leaves the tables as they
-- were and only a call that returns has a new table. FastAPI refuses a body that its schema does not
-- allow with the status 422. An amount is a number of hundredths. An answer is not checked
-- against its schema here.
pub mod Rows
pub mod Changes
pub mod Goals
pub mod Events
pub mod Inbox
pub mod Finance
pub mod Budgets
pub mod Notices
pub mod Requests
mod Tests
use Prim.Native.String.{count}
use life_merge.Base.{
  ℕ, ◌<◌, ◌≡◌, Bool, true, false, ◌&&◌, Option, none, some, List, [], ◌∷◌, ◌++◌, String, str_eq,
  ◌==◌, leb, any, find, if◌then◌else◌,
}
use life_merge.Base.Result.{Result, ok, raise, http_error, integrity_error}
use life_merge.Planner.Time.{DateTime, naive, aware}
use life_merge.Repositories.{Columns, patch}
use life_merge.Repositories.Lists.{repositories_program}
use life_merge.Sync.{Field, missing, null, value}

-- `accepts` tells whether the constructor of a model with the given attributes takes the given
-- keywords, `stored` gives the instant that a column stores for a date.
pub record Orm : Type 0 where
  pub accepts : (attributes keywords : List String) → Bool
  pub stored : DateTime → ℕ

abbrev pub all_among : List String → List String → Bool
all_among attributes [] = true
all_among attributes (k ∷ keywords) =
    any (λ a. str_eq a k) attributes && all_among attributes keywords

-- What is relied on: a constructor takes the attributes of its model as keywords and no other, and an
-- aware date is stored as its instant. A naive date is read in the zone of the server.
pub record IsOrm (orm : Orm) : Type 0 where
  pub accepts-eq :
      (attributes keywords : List String)
      → orm.accepts attributes keywords ≡ all_among attributes keywords
  pub stored-aware : (instant ahead behind : ℕ) → orm.stored (aware instant ahead behind) ≡ instant

abbrev pub invalid_body : {A : Type 0} → Result A
invalid_body = raise (http_error "422" "validation_error")

abbrev pub not_found : {A : Type 0} → Result A
not_found = raise (http_error "404" "not_found")

-- `min_length` and `max_length` of a text.
pub check_length : ℕ → ℕ → String → Result (Unit {0})
check_length low high text =
    if leb low (count text) && leb (count text) high then ok tt else invalid_body

-- The same of a text that may be missing or null.
pub check_sent : ℕ → ℕ → Field String → Result (Unit {0})
check_sent low high missing = ok tt
check_sent low high null = ok tt
check_sent low high (value text) = check_length low high text

-- `setattr` with what the body has for a field, of a column that may not be null: the commit raises.
pub set_column : {A : Type 0} → A → Field A → Result A
set_column old missing = ok old
set_column old null = raise integrity_error
set_column old (value new) = ok new

module _ {A : Type 0} (columns : Columns A) where
  -- `select(...).where(id == ..., user_id == ...)`; an identifier is the key of its table.
  pub owned_row : ℕ → ℕ → List A → Option A
  owned_row user_id id db =
      find (λ row. (columns.id row == id) && (columns.user_id row == user_id)) db

  pub check_live : Option A → Result A
  check_live none = not_found
  check_live (some row) = if columns.deleted row then not_found else ok row

  -- The row that a route changes, unless there is none or it is deleted.
  pub live_row : ℕ → ℕ → List A → Result A
  live_row user_id id db = check_live (owned_row user_id id db)

  -- `db.add` and the commit.
  pub add : A → List A → Result (List A)
  add row db =
      if any (λ r. columns.id r == columns.id row) db
      then raise integrity_error
      else ok (db ++ row ∷ [])

  -- The commit after changes to a row that the session has loaded.
  pub save : A → List A → List A
  save row db = patch columns (columns.id row) (λ old. row) db

-- What a run unfolds.
unfoldable pub productivity_program : Unit {0}
unfolding check_length check_sent set_column owned_row check_live live_row add save
    repositories_program
productivity_program = tt
