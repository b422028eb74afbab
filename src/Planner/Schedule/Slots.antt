-- ===== src/Planner/Schedule/Slots.antt =====
-- Where the slots of `_schedule_tasks` lie (Backend/app/services/planner/components.py).
use mathlib.Core.List.{map-append}
use life_merge.Base.{
  ℕ, ◌≡◌, refl, true, false, Option, none, some, List, [], ◌∷◌, ◌++◌, map, length, arith, any, All,
  All-map, All-append, All-unmap,
}
use life_merge.Base.Sort.{sort}
use life_merge.Planner.Time.{to_utc}
use life_merge.Planner.Model.{Window, Task, Slot, holds, covers}
use life_merge.Planner.Schedule.{
  Scheduled, fits, place, deadline, duration, slot_for, no_available_window, schedule_task,
  schedule_sorted, schedule_tasks, task_order,
}
use life_merge.Planner.Schedule.Place.{
  Apart, AllApart, Inside, Placing, Outcome, place-Outcome, Placing-All, Placing-AllApart,
  Apart-Inside,
}

abbrev pub slot_window : Slot → Window
slot_window s = record { start_dt = to_utc s.start_at; end_dt = to_utc s.end_at }

module _ (uuid : ℕ → ℕ) (start_date : ℕ) where
  task_cases {ℓ} :
      (P : Scheduled → Type ℓ) (task : Task) (st : Scheduled) (r : Option (ℕ × List Window))
      → place (deadline start_date task) (duration task) st.available_windows ≡ r
      → Outcome (deadline start_date task) (duration task) st.available_windows r
      → (any (fits (deadline start_date task) (duration task)) st.available_windows ≡ false
          → P (record st { conflicts = st.conflicts ++ no_available_window task ∷ [] }))
      → ((start : ℕ) (left : List Window)
          → Placing (deadline start_date task) (duration task) st.available_windows start left
          → P (record st {
            slots = st.slots ++ slot_for (uuid (length st.slots)) task start ∷ [];
            available_windows = left;
          }))
      → P (schedule_task uuid start_date task st)
  unfolding schedule_task
  task_cases P task st none e o missing found = rw (e, schedule_task) (missing o)
  task_cases P task st (some (start, left)) e o missing found =
      rw (e, schedule_task) (found start left o)

  -- The two ways in which a round of the loop over the tasks ends.
  pub schedule_task_cases {ℓ} :
      (P : Scheduled → Type ℓ) (task : Task) (st : Scheduled)
      → (any (fits (deadline start_date task) (duration task)) st.available_windows ≡ false
          → P (record st { conflicts = st.conflicts ++ no_available_window task ∷ [] }))
      → ((start : ℕ) (left : List Window)
          → Placing (deadline start_date task) (duration task) st.available_windows start left
          → P (record st {
            slots = st.slots ++ slot_for (uuid (length st.slots)) task start ∷ [];
            available_windows = left;
          }))
      → P (schedule_task uuid start_date task st)
  schedule_task_cases P task st =
      task_cases P task st _ refl
        (place-Outcome (deadline start_date task) (duration task) st.available_windows)

  -- An invariant of the round is one of the loop.
  pub schedule_sorted_inv {ℓ} :
      (P : Scheduled → Type ℓ)
      → ((task : Task) (st : Scheduled) → P st → P (schedule_task uuid start_date task st))
      → (tasks : List Task) (st : Scheduled) → P st
      → P (schedule_sorted uuid start_date tasks st)
  unfolding schedule_sorted
  schedule_sorted_inv P step [] st h = h
  schedule_sorted_inv P step (task ∷ tasks) st h =
      schedule_sorted_inv P step tasks (schedule_task uuid start_date task st) (step task st h)

-- The slots and the free windows share no instant with one another.
record IsTidy (st : Scheduled) : Type 0 where
  slots_apart : AllApart (map slot_window st.slots)
  free_apart : AllApart st.available_windows
  clear : All (λ v. All (Apart v) st.available_windows) (map slot_window st.slots)

AllApart-snoc :
    (ws : List Window) (v : Window)
    → AllApart ws
    → All (λ w. Apart w v) ws
    → AllApart (ws ++ v ∷ [])
AllApart-snoc [] v a h = (tt, tt)
AllApart-snoc (w ∷ ws) v a h =
    (All-append (Apart w) ws (v ∷ []) a.0 (h.0, tt), AllApart-snoc ws v a.1 h.1)

schedule_task-IsTidy :
    (uuid : ℕ → ℕ) (start_date : ℕ) (task : Task) (st : Scheduled)
    → IsTidy st
    → IsTidy (schedule_task uuid start_date task st)
schedule_task-IsTidy uuid start_date task st h =
    schedule_task_cases uuid start_date IsTidy task st
      (λ _. record { slots_apart = h.slots_apart; free_apart = h.free_apart; clear = h.clear })
      λ start left p.
        let new = slot_for (uuid (length st.slots)) task start in
        let (free, slot) = Placing-AllApart p h.free_apart in
        let both =
          All-map _ (λ v. Apart v (slot_window new) × All (Apart v) left)
            (λ v a. Placing-All (Apart v) (Apart-Inside v) p a) (map slot_window st.slots)
            h.clear in
        record {
          slots_apart = rw map-append (
              AllApart-snoc (map slot_window st.slots) (slot_window new) h.slots_apart
                (All-map _ (λ v. Apart v (slot_window new)) (λ v b. b.0) _ both));
          free_apart = free;
          clear = rw map-append (
              All-append _ (map slot_window st.slots) (slot_window new ∷ [])
                (All-map _ (λ v. All (Apart v) left) (λ v b. b.1) _ both) (slot, tt));
        }

-- If the windows share no instant with one another, no two slots of the result do, and no slot
-- shares one with the windows that stay available.
pub schedule_tasks-AllApart :
    (uuid : ℕ → ℕ) (start_date : ℕ) (windows : List Window) (tasks : List Task)
    → AllApart windows
    → AllApart (map slot_window (schedule_tasks uuid start_date windows tasks).slots)
      × All
          (λ v. All (Apart v) (schedule_tasks uuid start_date windows tasks).available_windows)
          (map slot_window (schedule_tasks uuid start_date windows tasks).slots)
unfolding schedule_tasks
schedule_tasks-AllApart uuid start_date windows tasks h =
    let tidy =
      schedule_sorted_inv uuid start_date IsTidy (schedule_task-IsTidy uuid start_date)
        (sort (task_order start_date) tasks)
        (record { slots = []; conflicts = []; available_windows = windows })
        (record { slots_apart = tt; free_apart = h; clear = tt }) in
    (tidy.slots_apart, tidy.clear)

-- The instants of `v` are covered by the windows `ws`.
abbrev CoveredBy : List Window → Window → Type 0
CoveredBy ws v = (t : ℕ) → holds t v ≡ true → covers t ws ≡ true

record IsCovered (windows : List Window) (st : Scheduled) : Type 0 where
  by_slots : All (CoveredBy windows) (map slot_window st.slots)
  by_free : All (CoveredBy windows) st.available_windows

CoveredBy-Inside :
    (windows : List Window) (w v : Window) → Inside w v → CoveredBy windows w → CoveredBy windows v
CoveredBy-Inside windows w v i h t e = h t (ground arith)

schedule_task-IsCovered :
    (uuid : ℕ → ℕ) (start_date : ℕ) (windows : List Window) (task : Task) (st : Scheduled)
    → IsCovered windows st
    → IsCovered windows (schedule_task uuid start_date task st)
schedule_task-IsCovered uuid start_date windows task st h =
    schedule_task_cases uuid start_date (IsCovered windows) task st
      (λ _. record { by_slots = h.by_slots; by_free = h.by_free })
      λ start left p.
        let new = slot_for (uuid (length st.slots)) task start in
        let (slot, free) = Placing-All (CoveredBy windows) (CoveredBy-Inside windows) p h.by_free in
        record {
          by_slots = rw map-append (
              All-append (CoveredBy windows) (map slot_window st.slots) (slot_window new ∷ [])
                h.by_slots (slot, tt));
          by_free = free;
        }

All-CoveredBy : (ws : List Window) → All (CoveredBy ws) ws
All-CoveredBy [] = tt
All-CoveredBy (w ∷ ws) = (
  λ t e. ground arith,
  All-map (CoveredBy ws) (CoveredBy (w ∷ ws)) (λ v c t e. ground (arith, c t e)) ws
      (All-CoveredBy ws),
)

-- Each instant of each slot is an instant of one of the windows.
pub schedule_tasks-covers :
    (uuid : ℕ → ℕ) (start_date : ℕ) (windows : List Window) (tasks : List Task)
    → All
        (λ s. (t : ℕ) → holds t (slot_window s) ≡ true → covers t windows ≡ true)
        (schedule_tasks uuid start_date windows tasks).slots
unfolding schedule_tasks
schedule_tasks-covers uuid start_date windows tasks =
    All-unmap (CoveredBy windows) slot_window _
      (schedule_sorted_inv uuid start_date (IsCovered windows)
        (schedule_task-IsCovered uuid start_date windows) (sort (task_order start_date) tasks)
        (record { slots = []; conflicts = []; available_windows = windows })
        (record { by_slots = tt; by_free = All-CoveredBy windows })).by_slots
