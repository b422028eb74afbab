-- ===== src/Planner/Tests.antt =====
-- The planner's theorems at concrete inputs.
use life_merge.Base.{
  ℕ, ◌+◌, ◌*◌, ◌≡◌, refl, inl, true, Option, none, some, List, [], ◌∷◌, map, All, Perm, arith,
}
use life_merge.Base.Result.{ok}
use life_merge.Base.Int.{negsuc}
use life_merge.Planner.Time.{utc, hour_micros, minute_micros, combine}
use life_merge.Planner.Model.{Entry, Break, Preferences, Event, Task, Slot, Window, holds, covers}
use life_merge.Planner.Windows.{build_available_windows, windows_program}
use life_merge.Planner.Windows.Coverage.{is_free, covers-build_available_windows}
use life_merge.Planner.Schedule.{no_available_window, schedule_tasks, schedule_program}
use life_merge.Planner.Schedule.Place.{Apart, AllApart}
use life_merge.Planner.Schedule.Slots.{slot_window, schedule_tasks-AllApart}
use life_merge.Planner.Schedule.Outcomes.{
  Served, mentioned, task_ids, schedule_tasks-Served, schedule_tasks-perm,
}
use life_merge.Planner.Edits.{
  SlotEdit, IsValidSlot, validate_slots, edits_program, validate_slots_same,
}
use life_merge.Planner.Generate.{
  Payload, day, dict, read_preferences, generate_slots, generate_program,
}
use life_merge.Planner.Generate.Free.{generate_slots-free}
use life_merge.Planner.Values.{values_program}
use life_merge.Planner.Conflicts.{conflicts_program}

-- A Monday.
abbrev monday : ℕ
monday = 738_886

abbrev morning : Entry
morning = record {
  day_of_week = some 0;
  start_time = some (9 * hour_micros);
  end_time = some (12 * hour_micros);
}

abbrev coffee : Break
coffee = record { start_time = 10 * hour_micros; end_time = 11 * hour_micros }

abbrev habits : Preferences
habits = record { latest_start_hour = some 18; breaks = coffee ∷ []; no_plan_days = 6 ∷ [] }

abbrev dentist : Event
dentist = record {
  title = "Dentist";
  start_at = some (utc (combine monday (11 * hour_micros)));
  end_at = some (utc (combine monday (12 * hour_micros)));
}

abbrev half_past_nine : ℕ
half_past_nine = combine monday (9 * hour_micros + 30 * minute_micros)

abbrev found_windows : List Window
found_windows = build_available_windows monday (morning ∷ []) (some habits) (dentist ∷ [])

-- Of the morning, only the hour before the break is free.
found_windows_test :
    found_windows
    ≡ record {
      start_dt = combine monday (9 * hour_micros);
      end_dt = combine monday (10 * hour_micros);
    }
      ∷ []
unfolding windows_program
found_windows_test = refl

covers-build_available_windows_example :
    covers half_past_nine found_windows
    ≡ is_free monday (morning ∷ []) (some habits) (dentist ∷ []) half_past_nine
covers-build_available_windows_example =
    covers-build_available_windows monday (morning ∷ []) (some habits) (dentist ∷ []) half_past_nine
      ((λ x e. ground arith), tt)

abbrev window : ℕ → ℕ → Window
window a b = record { start_dt = a * minute_micros; end_dt = b * minute_micros }

abbrev two_windows : List Window
two_windows = window 0 120 ∷ window 200 400 ∷ []

abbrev task : ℕ → ℕ → Option ℕ → Task
task i minutes due = record {
  task_id = i;
  title = "Task";
  duration_minutes = minutes;
  due_at = elim due [ none ↦ none | some m ↦ some (utc (m * minute_micros)) ];
  priority = some (negsuc 1);
  status = some "todo";
}

abbrev three_tasks : List Task
three_tasks = task 1 90 none ∷ task 2 60 (some 130) ∷ task 3 500 none ∷ []

abbrev identity : ℕ → ℕ
identity k = 100 + k

-- The task with a due date goes first, the longest one finds no window.
mentioned_test :
    mentioned (schedule_tasks identity 0 two_windows three_tasks) ≡ some 2 ∷ some 1 ∷ some 3 ∷ []
unfolding schedule_program
mentioned_test = refl

schedule_tasks-AllApart_example :
    AllApart (map slot_window (schedule_tasks identity 0 two_windows three_tasks).slots)
    × All
        (λ v. All (Apart v) (schedule_tasks identity 0 two_windows three_tasks).available_windows)
        (map slot_window (schedule_tasks identity 0 two_windows three_tasks).slots)
schedule_tasks-AllApart_example =
    schedule_tasks-AllApart identity 0 two_windows three_tasks ((inl (omega arith), tt), (tt, tt))

schedule_tasks-Served_example :
    All (Served 0 (schedule_tasks identity 0 two_windows three_tasks)) three_tasks
schedule_tasks-Served_example = schedule_tasks-Served identity 0 two_windows three_tasks

schedule_tasks-perm_example :
    Perm (mentioned (schedule_tasks identity 0 two_windows three_tasks)) (task_ids three_tasks)
schedule_tasks-perm_example = schedule_tasks-perm identity 0 two_windows three_tasks

abbrev slot : ℕ → Option ℕ → ℕ → ℕ → Slot
slot i task_id a b = record {
  slot_id = i;
  task_id = task_id;
  title = "Slot";
  description = none;
  start_at = utc (a * minute_micros);
  end_at = utc (b * minute_micros);
}

abbrev pub two_slots : List Slot
two_slots = slot 11 (some 5) 0 30 ∷ slot 12 none 30 60 ∷ []

abbrev later_end : SlotEdit
later_end = record {
  slot_id = 12;
  title = some "Renamed";
  description = none;
  start_at = none;
  end_at = some (utc (90 * minute_micros));
}

abbrev edited_slots : List Slot
edited_slots = slot 11 (some 5) 0 30 ∷ record (slot 12 none 30 90) { title = "Renamed" } ∷ []

edited_slots_eq : validate_slots two_slots (later_end ∷ []) ≡ ok edited_slots
unfolding edits_program
edited_slots_eq = refl

validate_slots_same_example :
    (map (λ s. s.slot_id) edited_slots ≡ map (λ s. s.slot_id) two_slots)
    × (map (λ s. s.task_id) edited_slots ≡ map (λ s. s.task_id) two_slots)
    × All IsValidSlot edited_slots
validate_slots_same_example =
    validate_slots_same two_slots edited_slots (later_end ∷ []) (refl, (refl, tt)) edited_slots_eq

abbrev payload : Payload
payload = record {
  week_start = day monday;
  tasks = task 1 30 none ∷ task 2 60 none ∷ [];
  work_schedule = morning ∷ [];
  preferences = some (dict habits);
  calendar_events = dentist ∷ [];
  completed_task_ids = [];
  rescheduled_task_ids = [];
}

abbrev task_slot : Slot
task_slot = record {
  slot_id = 100;
  task_id = some 1;
  title = "Task";
  description = some "todo";
  start_at = utc (combine monday (9 * hour_micros));
  end_at = utc (combine monday (9 * hour_micros) + 30 * minute_micros);
}

-- The second task is longer than what is left of the morning.
generate_slots_test :
    generate_slots identity 0 payload
    ≡ ok (task_slot ∷ [], no_available_window (task 2 60 none) ∷ [])
unfolding generate_program windows_program schedule_program values_program conflicts_program
generate_slots_test = refl

generate_slots-free_example :
    All
      (λ s.
        (t : ℕ)
        → holds t (slot_window s) ≡ true
        → is_free monday (morning ∷ []) (read_preferences (some (dict habits))) (dentist ∷ []) t
          ≡ true)
      (task_slot ∷ [])
generate_slots-free_example =
    generate_slots-free identity 0 payload (task_slot ∷ [])
      (no_available_window (task 2 60 none) ∷ []) ((λ x e. ground arith), tt) generate_slots_test
