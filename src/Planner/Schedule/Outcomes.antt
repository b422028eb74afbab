-- ===== src/Planner/Schedule/Outcomes.antt =====
-- What becomes of each task in `_schedule_tasks` (Backend/app/services/planner/components.py).
use mathlib.Core.List.{map-append, perm_middle, append-nil, append_assoc}
use mathlib.Core.List.Perm
use life_merge.Base.{
  ℕ, ◌+◌, ◌≤◌, ◌≡◌, refl, subst, ◌⊎◌, inl, inr, false, Option, some, List, [], ◌∷◌, ◌++◌, map,
  length, Perm, any, All, Any, Any-append_left, Any-append_right,
}
use life_merge.Base.Sort.{sort, sort-perm, sort-All}
use life_merge.Planner.Time.{to_utc}
use life_merge.Planner.Model.{Window, Task, Slot}
use life_merge.Planner.Schedule.{
  Scheduled, fits, deadline, duration, slot_for, no_available_window, schedule_task,
  schedule_sorted, schedule_tasks, task_order,
}
use life_merge.Planner.Schedule.Place.{Placing-in_time, Placing-no_fit}
use life_merge.Planner.Schedule.Slots.{schedule_task_cases, schedule_sorted_inv}

module _ (start_date : ℕ) where
  -- A slot of the task's own length that ends by its deadline.
  abbrev pub ScheduledFor : Task → Slot → Type 0
  ScheduledFor task s =
      (s.task_id ≡ some task.task_id)
      × (s.title ≡ task.title)
      × (to_utc s.end_at ≡ to_utc s.start_at + duration task)
      × (to_utc s.end_at ≤ deadline start_date task)

  -- The task has such a slot, or it is reported and fits in no window that is left.
  abbrev pub Served : Scheduled → Task → Type 0
  Served st task =
      Any (ScheduledFor task) st.slots
      ⊎ (Any (λ c. c ≡ no_available_window task) st.conflicts
          × (any (fits (deadline start_date task) (duration task)) st.available_windows ≡ false))

module _ (uuid : ℕ → ℕ) (start_date : ℕ) where
  -- A task that is served stays so.
  Served-schedule_task :
      (done task : Task) (st : Scheduled)
      → Served start_date st done
      → Served start_date (schedule_task uuid start_date task st) done
  Served-schedule_task done task st h =
      schedule_task_cases uuid start_date (λ st'. Served start_date st' done) task st
        (λ _. elim h [
          | inl s ↦ inl s
          | inr (c, n) ↦ inr (Any-append_left _ st.conflicts (no_available_window task ∷ []) c, n)
        ])
        λ start left p. elim h [
          | inl s ↦ inl (
              Any-append_left (ScheduledFor start_date done) st.slots
                (slot_for (uuid (length st.slots)) task start ∷ []) s)
          | inr (c, n) ↦ inr (c, Placing-no_fit (deadline start_date done) (duration done) p n)
        ]

  schedule_task-Served :
      (task : Task) (st : Scheduled)
      → Served start_date (schedule_task uuid start_date task st) task
  schedule_task-Served task st =
      schedule_task_cases uuid start_date (λ st'. Served start_date st' task) task st
        (λ n. inr (Any-append_right _ st.conflicts (no_available_window task ∷ []) (inl refl), n))
        λ start left p.
          let new = slot_for (uuid (length st.slots)) task start in
          inl (
            Any-append_right (ScheduledFor start_date task) st.slots (new ∷ [])
              (inl (refl, refl, refl, Placing-in_time p)))

  schedule_sorted-Served :
      (tasks : List Task) (st : Scheduled)
      → All (Served start_date (schedule_sorted uuid start_date tasks st)) tasks
  unfolding schedule_sorted
  schedule_sorted-Served [] st = tt
  schedule_sorted-Served (task ∷ tasks) st =
      let next = schedule_task uuid start_date task st in
      (
        schedule_sorted_inv uuid start_date (λ st'. Served start_date st' task)
            (λ other st' h. Served-schedule_task task other st' h) tasks next
            (schedule_task-Served task st),
        schedule_sorted-Served tasks next,
      )

  -- Every task has a slot of exactly its duration that ends by its deadline, or it is reported as
  -- `no_available_window` and then fits in none of the windows that stay available.
  pub schedule_tasks-Served :
      (windows : List Window) (tasks : List Task)
      → All (Served start_date (schedule_tasks uuid start_date windows tasks)) tasks
  unfolding schedule_tasks
  schedule_tasks-Served windows tasks = sort-All (task_order start_date) _ tasks (
      schedule_sorted-Served (sort (task_order start_date) tasks)
        (record { slots = []; conflicts = []; available_windows = windows }))

snoc-perm : (xs : List (Option ℕ)) (x : Option ℕ) → Perm (xs ++ x ∷ []) (x ∷ xs)
snoc-perm xs x =
    subst (λ ys. Perm (xs ++ x ∷ []) (x ∷ ys)) (append-nil xs) (perm_middle {a = x} xs [])

-- The tasks that a result speaks of: those of the slots, then those reported.
abbrev pub mentioned : Scheduled → List (Option ℕ)
mentioned st = map (λ s. s.task_id) st.slots ++ map (λ c. c.related_task_id) st.conflicts

abbrev pub task_ids : List Task → List (Option ℕ)
task_ids = map (λ t. some t.task_id)

module _ (uuid : ℕ → ℕ) (start_date : ℕ) where
  schedule_task-mentioned :
      (task : Task) (st : Scheduled)
      → Perm (mentioned (schedule_task uuid start_date task st)) (some task.task_id ∷ mentioned st)
  schedule_task-mentioned task st =
      schedule_task_cases uuid start_date
        (λ st'. Perm (mentioned st') (some task.task_id ∷ mentioned st)) task st
        (λ _. rw (map-append, ← append_assoc) (snoc-perm (mentioned st) (some task.task_id)))
        λ start left p.
          rw (map-append, append_assoc)
            (perm_middle (map (λ s. s.task_id) st.slots)
              (map (λ c. c.related_task_id) st.conflicts))

  schedule_sorted-mentioned :
      (tasks : List Task) (st : Scheduled)
      → Perm (mentioned (schedule_sorted uuid start_date tasks st)) (task_ids tasks ++ mentioned st)
  unfolding schedule_sorted
  schedule_sorted-mentioned [] st = Perm.rfl
  schedule_sorted-mentioned (task ∷ tasks) st =
      let next = schedule_task uuid start_date task st in
      Perm.trans (schedule_sorted-mentioned tasks next) (
        Perm.trans (Perm.append_left (task_ids tasks) (schedule_task-mentioned task st))
          (perm_middle (task_ids tasks) (mentioned st)))

  -- The slots and the reports together speak of each given task as often as it was given, and of
  -- no other: no task is lost, placed twice, or both placed and reported.
  pub schedule_tasks-perm :
      (windows : List Window) (tasks : List Task)
      → Perm (mentioned (schedule_tasks uuid start_date windows tasks)) (task_ids tasks)
  unfolding schedule_tasks
  schedule_tasks-perm windows tasks =
      Perm.trans
        (schedule_sorted-mentioned (sort (task_order start_date) tasks)
          (record { slots = []; conflicts = []; available_windows = windows }))
        (rw append-nil (Perm.map (λ t. some t.task_id) (sort-perm (task_order start_date) tasks)))
