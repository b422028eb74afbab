-- ===== src/Productivity/Events.antt =====
-- Backend/app/api/v1/productivity.py: the routes of calendar events. A client sends dates that are
-- naive or aware, and a row has instants.
pub mod Ranges
use life_merge.Base.{
  ℕ, Bool, true, false, not, ◌&&◌, Option, none, some, List, map, String, ◌==◌, leb, select,
  if◌then◌else◌,
}
use life_merge.Base.Result.{Result, ok, raise, http_error, ◌>>=◌}
use life_merge.Base.Sort.{sort}
use life_merge.Planner.Time.{DateTime, before, utc}
use life_merge.Repositories.{owned_by}
use life_merge.Repositories.Lists.{at_least}
use life_merge.Repositories.Models.{CalendarEvent, calendar_event_columns}
use life_merge.Productivity.{
  Orm, invalid_body, check_length, check_sent, set_column, live_row, add, save,
}
use life_merge.Sync.{Field, missing, null, value, assigned}

pub record CalendarEventIn : Type 0 where
  pub title : String
  pub start_at : DateTime
  pub end_at : DateTime
  pub recurrence : Option String
  pub parallel_with : List ℕ

pub record CalendarEventUpdateIn : Type 0 where
  pub title : Field String
  pub start_at : Field DateTime
  pub end_at : Field DateTime
  pub recurrence : Field String
  pub parallel_with : Field (List ℕ)

pub record CalendarEventOut : Type 0 where
  pub id : ℕ
  pub title : String
  pub start_at : ℕ
  pub end_at : ℕ
  pub recurrence : Option String
  pub parallel_with : List ℕ

abbrev pub event_out : CalendarEvent → CalendarEventOut
event_out e = record {
  id = e.id;
  title = e.title;
  start_at = e.start_at;
  end_at = e.end_at;
  recurrence = e.recurrence;
  parallel_with = e.parallel_with;
}

-- `list_events`: the one that starts last comes first.
pub list_events : ℕ → Option ℕ → List CalendarEvent → List CalendarEventOut
list_events user_id updated_from db = map event_out (
    sort (λ x y. leb y.start_at x.start_at)
      (select
        (λ e.
          owned_by calendar_event_columns user_id e && at_least updated_from (some e.updated_at))
        db))

-- `CalendarEventIn.validate_range`, with the length of the title.
pub check_event_in : CalendarEventIn → Result (Unit {0})
check_event_in body = check_length 1 200 body.title >>= λ valid.
    before body.start_at body.end_at >>= λ lasts. if lasts then ok tt else invalid_body

abbrev pub no_range : {A : Type 0} → Result A
no_range = raise (http_error "400" "validation_error")

pub new_event : (DateTime → ℕ) → ℕ → ℕ → ℕ → CalendarEventIn → CalendarEvent
new_event stored now uuid user_id body = record {
  id = uuid;
  user_id = user_id;
  title = body.title;
  start_at = stored body.start_at;
  end_at = stored body.end_at;
  recurrence = body.recurrence;
  parallel_with = body.parallel_with;
  created_at = now;
  updated_at = now;
  deleted = false;
}

-- `create_event`; `uuid` is the identifier that is drawn.
pub create_event :
    Orm
    → ℕ
    → ℕ
    → ℕ
    → CalendarEventIn
    → List CalendarEvent
    → Result (CalendarEventOut × List CalendarEvent)
create_event orm now uuid user_id body db = check_event_in body >>= λ valid.
    before body.start_at body.end_at >>= λ lasts.
    (if lasts
      then add calendar_event_columns (new_event orm.stored now uuid user_id body) db
      else no_range)
    >>= λ after. ok (event_out (new_event orm.stored now uuid user_id body), after)

-- `updates.get(key, getattr(e, key))`
pub date_or : Field DateTime → ℕ → Option DateTime
date_or missing old = some (utc old)
date_or null old = none
date_or (value new) old = some new

-- `start_at and end_at and end_at <= start_at`, the other way round.
pub check_range : Option DateTime → Option DateTime → Result (Unit {0})
check_range none end = ok tt
check_range (some start) none = ok tt
check_range (some start) (some end) =
    before start end >>= λ lasts. if lasts then ok tt else no_range

pub stored_column : (DateTime → ℕ) → ℕ → Field DateTime → Result ℕ
stored_column stored old missing = ok old
stored_column stored old null = set_column old null
stored_column stored old (value new) = set_column old (value (stored new))

pub set_event : (DateTime → ℕ) → ℕ → CalendarEventUpdateIn → CalendarEvent → Result CalendarEvent
set_event stored now body e = set_column e.title body.title >>= λ title.
    stored_column stored e.start_at body.start_at >>= λ start_at.
    stored_column stored e.end_at body.end_at >>= λ end_at.
    set_column e.parallel_with body.parallel_with >>= λ parallel_with. ok (record e {
      title = title;
      start_at = start_at;
      end_at = end_at;
      recurrence = assigned e.recurrence body.recurrence;
      parallel_with = parallel_with;
      updated_at = now;
    })

-- `update_event`
pub update_event :
    Orm
    → ℕ
    → ℕ
    → ℕ
    → CalendarEventUpdateIn
    → List CalendarEvent
    → Result (CalendarEventOut × List CalendarEvent)
update_event orm now user_id event_id body db = check_sent 1 200 body.title >>= λ valid.
    live_row calendar_event_columns user_id event_id db >>= λ e.
    check_range (date_or body.start_at e.start_at) (date_or body.end_at e.end_at) >>= λ ranged.
    set_event orm.stored now body e >>= λ changed.
    ok (event_out changed, save calendar_event_columns changed db)

-- What a run unfolds.
unfoldable pub events_program : Unit {0}
unfolding list_events check_event_in new_event create_event date_or check_range stored_column
    set_event update_event
events_program = tt
