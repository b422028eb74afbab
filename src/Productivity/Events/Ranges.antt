-- ===== src/Productivity/Events/Ranges.antt =====
-- Backend/app/api/v1/productivity.py: the events that its routes write end after their start.
use life_merge.Base.{
  ℕ, ◌<◌, ◌≤◌, ◌⊎◌, inl, inr, ◌≡◌, refl, Bool, true, false, some, List, All, arith, ltb→lt,
  if◌then◌else◌,
}
use life_merge.Base.Result.{
  Result, ok, raise, Ensures, Ensures-bind, Ensures-then, Ensures-self, ok_inj,
}
use life_merge.Planner.Time.{DateTime, naive, aware, utc, before}
use life_merge.Repositories.Models.{CalendarEvent, calendar_event_columns}
use life_merge.Sync.{Field, missing, null, value}
use life_merge.Productivity.{Orm, IsOrm, live_row, add, set_column, check_sent}
use life_merge.Productivity.Rows.{add-All, save-All, live_row-found, owned_row-found}
use life_merge.Productivity.Events.{
  events_program, CalendarEventIn, CalendarEventUpdateIn, check_event_in, new_event, no_range,
  check_range, date_or, create_event, update_event, set_event, stored_column,
}

-- An event ends after its start.
abbrev pub Lasts : CalendarEvent → Type 0
Lasts e = e.start_at < e.end_at

-- Two naive dates that are sent for a start and an end are stored in their order, if the end comes
-- later. It fails for some dates about an hour that the clock of the server skips.
abbrev pub InOrder : Orm → DateTime → DateTime → Type 0
InOrder orm (naive a) (naive b) = (b ≤ a) ⊎ (orm.stored (naive a) < orm.stored (naive b))
InOrder orm (naive a) (aware b k l) = Unit
InOrder orm (aware a i j) end = Unit

abbrev pub SentInOrder : Orm → Field DateTime → Field DateTime → Type 0
SentInOrder orm (value a) (value b) = InOrder orm a b
SentInOrder orm (value a) missing = Unit
SentInOrder orm (value a) null = Unit
SentInOrder orm missing end = Unit
SentInOrder orm null end = Unit

module _ (orm : Orm) (is_orm : IsOrm orm) where
  -- The order of two dates is that of what is stored.
  before-stored :
      (a b : DateTime) → InOrder orm a b → before a b ≡ ok true → orm.stored a < orm.stored b
  before-stored (naive a) (naive b) (inl late) h =
      let early = ltb→lt a b (ground arith) in absurd (omega (arith, early, late))
  before-stored (naive a) (naive b) (inr order) h = order
  before-stored (aware a i j) (aware b k l) order h =
      omega (arith, is_orm.stored-aware a i j, is_orm.stored-aware b k l, ltb→lt a b (ground arith))
  before-stored (naive a) (aware b k l) order h = cc
  before-stored (aware a i j) (naive b) order h = cc

  -- A date against one that is stored: only an aware one compares.
  stored-before : (s : ℕ) (b : DateTime) → before (utc s) b ≡ ok true → s < orm.stored b
  stored-before s (naive b) h = cc
  stored-before s (aware b k l) h =
      omega (arith, is_orm.stored-aware b k l, ltb→lt s b (ground arith))

  before-old : (a : DateTime) (t : ℕ) → before a (utc t) ≡ ok true → orm.stored a < t
  before-old (naive a) t h = cc
  before-old (aware a i j) t h = omega (arith, is_orm.stored-aware a i j, ltb→lt a t (ground arith))

  passed :
      (a b : DateTime) (u : Unit {0}) → check_range (some a) (some b) ≡ ok u → before a b ≡ ok true
  unfolding check_range
  passed a b u h = through (before a b) refl
    where
      through : (r : Result Bool) → before a b ≡ r → before a b ≡ ok true
      through (ok true) e = e
      through (ok false) e = ground (arith, e)
      through (raise x) e = ground (arith, e)

  -- A range that the check lets through lasts as it is stored.
  range-stored :
      (start end : Field DateTime) (s t : ℕ) (u : Unit {0})
      → SentInOrder orm start end
      → s < t
      → check_range (date_or start s) (date_or end t) ≡ ok u
      → (s' t' : ℕ) → stored_column orm.stored s start ≡ ok s'
      → stored_column orm.stored t end ≡ ok t'
      → s' < t'
  unfolding check_range date_or stored_column set_column
  range-stored missing missing s t u order lasts h s' t' p q = ground (arith, ok_inj p, ok_inj q)
  range-stored start null s t u order lasts h s' t' p q = cc
  range-stored null end s t u order lasts h s' t' p q = cc
  range-stored missing (value b) s t u order lasts h s' t' p q =
      ground (arith, stored-before s b (passed (utc s) b u h), ok_inj p, ok_inj q)
  range-stored (value a) missing s t u order lasts h s' t' p q =
      ground (arith, before-old a t (passed a (utc t) u h), ok_inj p, ok_inj q)
  range-stored (value a) (value b) s t u order lasts h s' t' p q =
      ground (arith, before-stored a b order (passed a b u h), ok_inj p, ok_inj q)

  set_event-Lasts :
      (now : ℕ) (body : CalendarEventUpdateIn) (e : CalendarEvent) (u : Unit {0})
      → SentInOrder orm body.start_at body.end_at
      → Lasts e
      → check_range (date_or body.start_at e.start_at) (date_or body.end_at e.end_at) ≡ ok u
      → Ensures Lasts (set_event orm.stored now body e)
  unfolding set_event
  set_event-Lasts now body e u order lasts h =
      Ensures-then _ (set_column e.title body.title) _ λ title.
        Ensures-bind _ _ (stored_column orm.stored e.start_at body.start_at) _ (Ensures-self _)
          λ start_at p.
            Ensures-bind _ _ (stored_column orm.stored e.end_at body.end_at) _ (Ensures-self _)
              λ end_at q.
                Ensures-then _ (set_column e.parallel_with body.parallel_with) _ λ parallel_with.
                  range-stored body.start_at body.end_at e.start_at e.end_at u order lasts h
                    start_at end_at p q

  pub create_event-Lasts :
      (now uuid user_id : ℕ) (body : CalendarEventIn) (db : List CalendarEvent)
      → InOrder orm body.start_at body.end_at
      → All Lasts db
      → Ensures (λ done. All Lasts done.1) (create_event orm now uuid user_id body db)
  unfolding events_program
  create_event-Lasts now uuid user_id body db order lasts =
      Ensures-then _ (check_event_in body) _ λ valid.
        Ensures-bind _ _ (before body.start_at body.end_at) _ (Ensures-self _)
          λ ranged h. Ensures-bind (All Lasts) _ _ _ (added ranged h) λ after all. all
    where
      added :
          (ranged : Bool)
          → before body.start_at body.end_at ≡ ok ranged
          → Ensures (All Lasts) (
              if ranged
              then add calendar_event_columns (new_event orm.stored now uuid user_id body) db
              else no_range)
      added true h =
          add-All calendar_event_columns Lasts _ db
            (before-stored body.start_at body.end_at order h) lasts
      added false h = tt

  pub update_event-Lasts :
      (now user_id event_id : ℕ) (body : CalendarEventUpdateIn) (db : List CalendarEvent)
      → SentInOrder orm body.start_at body.end_at
      → All Lasts db
      → Ensures (λ done. All Lasts done.1) (update_event orm now user_id event_id body db)
  unfolding events_program
  update_event-Lasts now user_id event_id body db order lasts =
      Ensures-then _ (check_sent 1 200 body.title) _ λ valid.
        Ensures-bind _ _ (live_row calendar_event_columns user_id event_id db) _
          (live_row-found calendar_event_columns user_id event_id db)
          λ e found.
            Ensures-bind _ _
              (check_range (date_or body.start_at e.start_at) (date_or body.end_at e.end_at)) _
              (Ensures-self _)
              λ u h.
                Ensures-bind Lasts _ (set_event orm.stored now body e) _
                  (set_event-Lasts now body e u order
                    (owned_row-found calendar_event_columns Lasts user_id event_id db e lasts
                      found.0).0
                    h)
                  λ changed still. save-All calendar_event_columns Lasts changed db still lasts
