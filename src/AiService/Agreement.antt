-- ===== src/AiService/Agreement.antt =====
-- The backend's builder of windows (`TimeSlotCalculator` in
-- Backend/app/services/planner/components.py) against that of Backend/ai_service/main.py.
use life_merge.Base.{
  ℕ, ◌+◌, ◌≡◌, refl, ap, ap₂, Option, none, some, List, [], ◌∷◌, ◌++◌, ◌==◌, is_some_eq, map,
  select, flat_map, arith, Bool-cases, inl, inr, All,
}
use life_merge.Planner.Time.{weekday}
use life_merge.Planner.Model.{Entry, Event, Preferences}
use life_merge.Planner.Windows as Backend
use life_merge.Planner.Windows.{or_office, week, entry_window, event_window, no_plan}
use life_merge.AiService.{
  WorkScheduleEntry, PlannerCalendarEvent, entry_on, is_no_plan_day, or_office_week, clean_event,
}
use life_merge.AiService as Ai

-- An entry, and an event, as the dict that the backend keeps of it.
abbrev pub entry_dict : WorkScheduleEntry → Entry
entry_dict e = record {
  day_of_week = some e.day_of_week;
  start_time = some e.start_time;
  end_time = some e.end_time;
}

abbrev pub event_dict : PlannerCalendarEvent → Event
event_dict e = record { title = e.title; start_at = some e.start_at; end_at = some e.end_at }

entries-eq :
    (day k : ℕ) (es : List WorkScheduleEntry)
    → flat_map (entry_window day) (select (λ e. is_some_eq e.day_of_week k) (map entry_dict es))
      ≡ map (entry_on day) (select (λ e. e.day_of_week == k) es)
unfolding entry_window
entries-eq day k [] = refl
entries-eq day k (e ∷ es) = elim (Bool-cases (e.day_of_week == k)) [
  | inl h ↦ rw h (ap (λ l. entry_on day e ∷ l) (entries-eq day k es))
  | inr h ↦ rw h (entries-eq day k es)
]

no_plan-eq : (p : Option Preferences) (k : ℕ) → no_plan p k ≡ is_no_plan_day p k
unfolding is_no_plan_day
no_plan-eq none k = refl
no_plan-eq (some p) k = refl

day-eq :
    (start_date : ℕ) (es : List WorkScheduleEntry) (p : Option Preferences) (k : ℕ)
    → weekday (start_date + k) ≡ k
    → Backend.day_windows start_date (map entry_dict es) p k ≡ Ai.day_windows start_date es p k
unfolding Backend.day_windows Ai.day_windows
day-eq start_date es p k h = rw (h, no_plan-eq p k, entries-eq (start_date + k) k es) refl

events-eq :
    (events : List PlannerCalendarEvent)
    → flat_map event_window (map event_dict events) ≡ map clean_event events
unfolding event_window clean_event
events-eq [] = refl
events-eq (e ∷ es) = ap (λ l. clean_event e ∷ l) (events-eq es)

or_office-eq :
    (es : List WorkScheduleEntry)
    → or_office (map entry_dict es) ≡ map entry_dict (or_office_week es)
unfolding or_office_week
or_office-eq [] = refl
or_office-eq (e ∷ es) = refl

week-eq :
    (start_date : ℕ) (es : List WorkScheduleEntry) (p : Option Preferences) (ks : List ℕ)
    → All (λ k. weekday (start_date + k) ≡ k) ks
    → flat_map (Backend.day_windows start_date (map entry_dict es) p) ks
      ≡ flat_map (Ai.day_windows start_date es p) ks
week-eq start_date es p [] h = refl
week-eq start_date es p (k ∷ ks) h =
    ap₂ (λ a b. a ++ b) (day-eq start_date es p k h.0) (week-eq start_date es p ks h.1)

-- For a week that starts on a Monday, the backend finds the same windows as the AI service, from
-- the same schedule, preferences and events.
pub build_available_windows-eq :
    (start_date : ℕ) (work_schedule : List WorkScheduleEntry) (preferences : Option Preferences)
    (calendar_events : List PlannerCalendarEvent)
    → weekday start_date ≡ 0
    → Backend.build_available_windows start_date
        (map entry_dict work_schedule)
        preferences
        (map event_dict calendar_events)
      ≡ Ai.build_available_windows start_date work_schedule preferences calendar_events
unfolding Backend.build_available_windows Ai.build_available_windows
build_available_windows-eq start_date work_schedule preferences calendar_events monday =
    let days : All (λ k. weekday (start_date + k) ≡ k) week = (
      omega (arith, monday),
      (
        omega (arith, monday),
        (
          omega (arith, monday),
          (
            omega (arith, monday),
            (omega (arith, monday), (omega (arith, monday), (omega (arith, monday), tt))),
          ),
        ),
      ),
    ) in
    rw
      (
        or_office-eq work_schedule,
        events-eq calendar_events,
        week-eq start_date (or_office_week work_schedule) preferences week days,
      )
      refl
