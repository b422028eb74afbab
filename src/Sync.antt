-- ===== src/Sync.antt =====
-- Backend/app/services/batch_sync_service.py: the offline changes of a client are merged into its
-- tasks, the last writer wins. The table of tasks is an interface. A call that raises leaves its
-- session to be rolled back, so only a call that returns has a database.
pub mod Merge
mod Tests
use life_merge.Base.{
  ℕ, suc, ◌≡◌, Bool, true, false, not, ◌&&◌, Option, none, some, List, [], ◌∷◌, String, str_eq,
  ◌==◌, leb, any, if◌then◌else◌, is_some,
}
use life_merge.Base.Result.{Result, ok, raise, attribute_error, ◌>>=◌}
use life_merge.Planner.Time.{DateTime, utc, to_utc}

-- A row of `tasks` as the session holds it: a column that may not be null has a value once it is
-- flushed, and may lack one before.
pub record TaskRow : Type 0 where
  pub id : ℕ
  pub user_id : ℕ
  pub title : Option String
  pub description : Option String
  pub goal_id : Option ℕ
  pub due_at : Option DateTime
  pub priority : Option ℕ
  pub estimated_minutes : Option ℕ
  pub energy_level : Option ℕ
  pub status : Option String
  pub created_at : DateTime
  pub updated_at : DateTime
  pub deleted : Option Bool

pub is_complete : TaskRow → Bool
is_complete row = is_some row.title && (is_some row.status && is_some row.deleted)

-- The table of tasks behind the session.
pub record Table : Type 1 where
  pub Db : Type 0
  -- The row of a primary key.
  pub find : Db → ℕ → Option TaskRow
  -- `db.add(task)` and `db.flush()`.
  pub add : Db → TaskRow → Result Db
  -- `db.flush()` after changes to a row that the session has loaded.
  pub flush : Db → TaskRow → Result Db

-- What the service relies on: rows are found by their keys, a new key is not taken, what is written
-- is found, and a row whose columns that may not be null have values can be written.
pub record IsTable (table : Table) : Type 0 where
  pub find-id : (db : table.Db) (i : ℕ) (row : TaskRow) → table.find db i ≡ some row → row.id ≡ i
  pub find-is_complete :
      (db : table.Db) (i : ℕ) (row : TaskRow) → table.find db i ≡ some row → is_complete row ≡ true
  pub add-fresh :
      (db db' : table.Db) (row : TaskRow) → table.add db row ≡ ok db' → table.find db row.id ≡ none
  pub find-add :
      (db db' : table.Db) (row : TaskRow)
      → table.add db row ≡ ok db'
      → (i : ℕ) → table.find db' i ≡ (if row.id == i then some row else table.find db i)
  pub find-flush :
      (db db' : table.Db) (row : TaskRow)
      → table.flush db row ≡ ok db'
      → (i : ℕ) → table.find db' i ≡ (if row.id == i then some row else table.find db i)
  pub flush-is_complete :
      (db : table.Db) (row old : TaskRow)
      → table.find db row.id ≡ some old
      → is_complete row ≡ true
      → (db' : table.Db) × (table.flush db row ≡ ok db')

pub data Entity : Type 0 where
  task event finance : Entity

pub data Action : Type 0 where
  upsert delete : Action

-- What `data` has for a key: nothing, `null`, or a value.
pub data Field (A : Type 0) : Type 0 where
  missing null : Field A
  value : A → Field A

-- A date in `data`, a dict of JSON values: a text, unless a caller in Python has put a datetime.
pub data DateValue : Type 0 where
  text : String → DateValue
  datetime : DateTime → DateValue

-- The keys of `data` that are read, with values of the type that their column has.
pub record TaskData : Type 0 where
  pub title : Field String
  pub description : Field String
  pub goal_id : Field ℕ
  pub due_at : Field DateValue
  pub priority : Field ℕ
  pub estimated_minutes : Field ℕ
  pub energy_level : Field ℕ
  pub status : Field String
  pub created_at : Field DateValue
  pub deleted : Field Bool

pub record BatchSyncOperation : Type 0 where
  pub entity : Entity
  pub action : Action
  pub id : Option ℕ
  -- `data`
  pub payload : Option TaskData
  pub updated_at : DateTime

pub data SyncStatus : Type 0 where
  applied skipped unsupported error : SyncStatus

pub record BatchSyncResult : Type 0 where
  pub entity : Entity
  pub action : Action
  pub id : Option ℕ
  pub status : SyncStatus
  pub reason : Option String
  pub current : Option TaskRow

-- `data.get(key)`
abbrev pub got : {A : Type 0} → Field A → Option A
got missing = none
got null = none
got (value a) = some a

-- `if key in data: setattr(task, key, data.get(key))`
abbrev pub assigned : {A : Type 0} → Option A → Field A → Option A
assigned old missing = old
assigned old null = none
assigned old (value a) = some a

abbrev pub allowed_statuses : List String
allowed_statuses = "todo" ∷ "in_progress" ∷ "done" ∷ "deferred" ∷ []

-- `not status or status in ALLOWED_STATUSES`
abbrev pub is_allowed : Option String → Bool
is_allowed none = true
is_allowed (some status) =
    if str_eq status "" then true else any (λ s. str_eq s status) allowed_statuses

abbrev pub status_of : Option TaskRow → Option String
status_of none = some "todo"
status_of (some row) = row.status

-- `_normalize_optional_dt`: a text has no `tzinfo`.
abbrev pub normalize_optional_dt : Option DateValue → Result (Option DateTime)
normalize_optional_dt none = ok none
normalize_optional_dt (some (text s)) = raise attribute_error
normalize_optional_dt (some (datetime d)) = ok (some (utc (to_utc d)))

-- `_normalize_to_utc(data.get("created_at") or updated_at)`
abbrev pub normalize_created : Option DateValue → ℕ → Result DateTime
normalize_created none updated_at = ok (utc updated_at)
normalize_created (some (text s)) updated_at =
    if str_eq s "" then ok (utc updated_at) else raise attribute_error
normalize_created (some (datetime d)) updated_at = ok (utc (to_utc d))

abbrev pub answer :
    BatchSyncOperation → Option ℕ → SyncStatus → Option String → Option TaskRow → BatchSyncResult
answer op id status reason current = record {
  entity = op.entity;
  action = op.action;
  id = id;
  status = status;
  reason = reason;
  current = current;
}

abbrev pub conflict : BatchSyncOperation → TaskRow → BatchSyncResult
conflict op row =
    answer op (some row.id) skipped (some "Conflict: existing version is newer") (some row)

abbrev pub or_text : Option String → String → Option String
or_text none other = some other
or_text (some s) other = if str_eq s "" then some other else some s
