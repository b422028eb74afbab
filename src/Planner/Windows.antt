-- ===== src/Planner/Windows.antt =====
-- `TimeSlotCalculator` of Backend/app/services/planner/components.py: the free windows of a week.
pub mod Subtract
pub mod Days
pub mod Coverage
use life_merge.Base.{
  ℕ, ◌+◌, ◌*◌, ◌/◌, Bool, true, false, not, ◌||◌, Option, none, some, List, [], ◌∷◌, ◌++◌, ltb, leb,
  mem, any, flat_map, map, select, if◌then◌else◌, is_some_eq,
}
use life_merge.Base.Sort.{sort}
use life_merge.Planner.Time.{combine, to_utc, day_micros, minute_micros, hour_micros, DateTime}
use life_merge.Planner.Model.{Entry, Break, Preferences, Event, Window}

-- One round of `_subtract_interval`: what is left of one window.
subtract_one : ℕ → ℕ → Window → List Window
subtract_one block_start block_end w =
    if leb block_end w.start_dt || leb w.end_dt block_start
    then w ∷ []
    else (if ltb w.start_dt block_start
        then record { start_dt = w.start_dt; end_dt = block_start } ∷ []
        else [])
      ++ (if ltb block_end w.end_dt
          then record { start_dt = block_end; end_dt = w.end_dt } ∷ []
          else [])

-- `_subtract_interval`
pub subtract_interval : List Window → ℕ → ℕ → List Window
subtract_interval windows block_start block_end =
    flat_map (subtract_one block_start block_end) windows

-- `work_schedule or [...]`: Monday to Friday, nine to five.
abbrev pub office_day : ℕ → Entry
office_day day = record {
  day_of_week = some day;
  start_time = some (9 * hour_micros);
  end_time = some (17 * hour_micros);
}

abbrev pub office_week : List Entry
office_week = map office_day (0 ∷ 1 ∷ 2 ∷ 3 ∷ 4 ∷ [])

abbrev pub or_office : List Entry → List Entry
or_office [] = office_week
or_office (e ∷ es) = e ∷ es

-- The events that have both ends, as instants.
unfoldable pub event_window : Event → List Window
event_window event = elim event.start_at [
  | none ↦ []
  | some s ↦ elim event.end_at [
    | none ↦ []
    | some e ↦ record { start_dt = to_utc s; end_dt = to_utc e } ∷ []
  ]
]

-- The window of one entry on one date; an entry that lacks an end gives none.
unfoldable pub entry_window : ℕ → Entry → List Window
entry_window day entry = elim entry.start_time [
  | none ↦ []
  | some s ↦ elim entry.end_time [
    | none ↦ []
    | some e ↦ record { start_dt = combine day s; end_dt = combine day e } ∷ []
  ]
]

abbrev pub no_plan : Option Preferences → ℕ → Bool
no_plan none day = false
no_plan (some p) day = mem day p.no_plan_days

-- The round of `for day_offset in range(7)`.
unfoldable pub day_windows : ℕ → List Entry → Option Preferences → ℕ → List Window
day_windows start_date schedule preferences day_offset =
    if no_plan preferences day_offset
    then []
    else flat_map (entry_window (start_date + day_offset))
        (select (λ e. is_some_eq e.day_of_week day_offset) schedule)

abbrev pub week : List ℕ
week = 0 ∷ 1 ∷ 2 ∷ 3 ∷ 4 ∷ 5 ∷ 6 ∷ []

-- The breaks are put on the date on which a window starts.
pub subtract_breaks : ℕ → List Break → List Window → List Window
subtract_breaks day [] adjusted = adjusted
subtract_breaks day (br ∷ brs) adjusted =
    subtract_breaks day brs
      (subtract_interval adjusted (combine day br.start_time) (combine day br.end_time))

pub without_breaks : Option Preferences → List Window → List Window
without_breaks none windows = windows
without_breaks (some p) windows =
    flat_map (λ w. subtract_breaks (w.start_dt / day_micros) p.breaks (w ∷ [])) windows

pub without_events : List Window → List Window → List Window
without_events [] windows = windows
without_events (e ∷ es) windows = without_events es (subtract_interval windows e.start_dt e.end_dt)

abbrev pub starts_before : Window → Window → Bool
starts_before v w = leb v.start_dt w.start_dt

-- `build_available_windows`
unfoldable pub build_available_windows :
    ℕ → List Entry → Option Preferences → List Event → List Window
build_available_windows start_date work_schedule preferences calendar_events =
    let windows = flat_map (day_windows start_date (or_office work_schedule) preferences) week in
    sort starts_before
      (without_events (flat_map event_window calendar_events) (without_breaks preferences windows))

-- Opens the whole of this component, for evaluation.
unfoldable pub windows_program : Unit {0}
unfolding build_available_windows day_windows entry_window event_window without_breaks
    subtract_breaks without_events subtract_interval subtract_one sort
windows_program = tt
