-- ===== src/Planner/Windows/Coverage.antt =====
-- Which instants the free windows of `TimeSlotCalculator` cover, in
-- Backend/app/services/planner/components.py: the definitions compute lists of intervals, the
-- statements are about a single instant.
use life_merge.Base.{
  ℕ, ◌-◌, ◌*◌, ◌/◌, ◌%◌, ◌≤◌, ◌≡◌, refl, ◌∙◌, inl, inr, Bool, false, not, ◌&&◌, Option, none, some,
  List, [], ◌∷◌, arith, ltb, leb, any, any-append, any-flat_map, flat_map, Bool-cases, All,
}
use life_merge.Base.Sort.{any-sort}
use life_merge.Planner.Time.{day_micros, hour_micros}
use life_merge.Planner.Model.{Entry, Break, Preferences, Event, Window, holds, covers}
use life_merge.Planner.Windows.{
  or_office, event_window, day_windows, week, subtract_breaks, without_breaks, starts_before,
  build_available_windows,
}
use life_merge.Planner.Windows.Subtract.{break_on, covers-subtract_breaks, covers-without_events}
use life_merge.Planner.Windows.Days.{
  EndsInDay, EndsOnDate, is_scheduled, covers-week, week-EndsOnDate,
}

-- The time of day `tod` lies in a break.
in_break : ℕ → Break → Bool
in_break tod br = leb br.start_time tod && ltb tod br.end_time

in_breaks : Option Preferences → ℕ → Bool
in_breaks none tod = false
in_breaks (some p) tod = any (in_break tod) p.breaks

any_break :
    (t day : ℕ) (brs : List Break)
    → day ≡ t / day_micros
    → any (λ br. holds t (break_on day br)) brs ≡ any (in_break (t % day_micros)) brs
unfolding in_break
any_break t day [] h = refl
any_break t day (br ∷ brs) h = ground (arith, any_break t day brs h)

covers_one :
    (t : ℕ) (brs : List Break) (w : Window)
    → EndsOnDate w
    → covers t (subtract_breaks (w.start_dt / day_micros) brs (w ∷ []))
      ≡ (holds t w && not (any (in_break (t % day_micros)) brs))
covers_one t brs w h = rw covers-subtract_breaks (elim (Bool-cases (holds t w)) [
  | inr e ↦ rw e refl
  | inl e ↦
      let same : w.start_dt / day_micros ≡ t / day_micros = ground arith in
      rw (e, any_break t (w.start_dt / day_micros) brs same) refl
])

covers-without_breaks :
    (t : ℕ) (preferences : Option Preferences) (ws : List Window)
    → All EndsOnDate ws
    → covers t (without_breaks preferences ws)
      ≡ (covers t ws && not (in_breaks preferences (t % day_micros)))
unfolding without_breaks in_breaks
covers-without_breaks t none ws h = ground arith
covers-without_breaks t (some p) [] h = refl
covers-without_breaks t (some p) (w ∷ ws) h = ground (
  arith,
  any-append (holds t) (subtract_breaks (w.start_dt / day_micros) p.breaks (w ∷ []))
      (without_breaks (some p) ws),
  covers_one t p.breaks w h.0,
  covers-without_breaks t (some p) ws h.1,
)

-- The instant lies in a calendar event that has both ends.
in_event : ℕ → Event → Bool
unfolding event_window
in_event t event = covers t (event_window event)

or_office-EndsInDay : (es : List Entry) → All EndsInDay es → All EndsInDay (or_office es)
or_office-EndsInDay [] h =
    let five : (x : ℕ) → some (17 * hour_micros) ≡ some x → x ≤ day_micros = λ x e. ground arith in
    (five, (five, (five, (five, (five, tt)))))
or_office-EndsInDay (e ∷ es) h = h

-- What the planner promises of an instant, read off its date and its time of day.
pub is_free : ℕ → List Entry → Option Preferences → List Event → ℕ → Bool
is_free start_date work_schedule preferences calendar_events t =
    let day : ℕ = t / day_micros in
    let tod : ℕ = t % day_micros in
    (leb start_date day
      && (ltb (day - start_date) 7
          && is_scheduled (or_office work_schedule) preferences tod (day - start_date)))
    && (not (in_breaks preferences tod) && not (any (in_event t) calendar_events))

covers-events :
    (t : ℕ) (events : List Event)
    → covers t (flat_map event_window events) ≡ any (in_event t) events
unfolding in_event
covers-events t events = any-flat_map (holds t) event_window events

and_assoc : (a b c : Bool) → (a && b && c) ≡ (a && (b && c))
and_assoc a b c = ground arith

-- `build_available_windows` covers an instant exactly when its date is one of the seven from
-- `start_date`, the number of days since `start_date`, which is taken for the day of the week, is
-- not among the days without planning, an entry of the work schedule with that number (Monday to
-- Friday from nine to five, if there is no schedule) has the time of day in its hours, and no break
-- and no calendar event holds it. The end of each entry is a time of day.
pub covers-build_available_windows :
    (start_date : ℕ) (work_schedule : List Entry) (preferences : Option Preferences)
    (calendar_events : List Event) (t : ℕ)
    → All EndsInDay work_schedule
    → covers t (build_available_windows start_date work_schedule preferences calendar_events)
      ≡ is_free start_date work_schedule preferences calendar_events t
unfolding build_available_windows is_free
covers-build_available_windows start_date work_schedule preferences calendar_events t h =
    let schedule = or_office work_schedule in
    let days = flat_map (day_windows start_date schedule preferences) week in
    let fits = or_office-EndsInDay work_schedule h in
    any-sort starts_before (holds t) _
    ∙ covers-without_events t (flat_map event_window calendar_events)
        (without_breaks preferences days)
    ∙ rw
        (
          covers-events t calendar_events,
          covers-without_breaks t preferences days
              (week-EndsOnDate start_date schedule preferences fits),
          covers-week t start_date schedule preferences fits,
        )
        (rw and_assoc refl)
