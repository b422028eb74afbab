-- ===== src/Planner/Generate/Free.antt =====
-- When the slots that `generate_slots` of Backend/app/services/planner/components.py makes take
-- place.
use life_merge.Base.{ℕ, ◌≡◌, sym, ◌∙◌, subst, true, List, All, All-map}
use life_merge.Base.Result.{ok, >>=-eq-ok, ok_inj}
use life_merge.Planner.Model.{Slot, Conflict, holds}
use life_merge.Planner.Conflicts.{detect_schedule_conflicts}
use life_merge.Planner.Windows.{build_available_windows}
use life_merge.Planner.Windows.Days.{EndsInDay}
use life_merge.Planner.Windows.Coverage.{is_free, covers-build_available_windows}
use life_merge.Planner.Schedule.Slots.{slot_window, schedule_tasks-covers}
use life_merge.Planner.Generate.{
  Payload, start_date_of, read_preferences, schedule_payload, generate_slots,
}

-- Every instant of the slot is free.
abbrev pub TakesFreeTime : ℕ → Payload → Slot → Type 0
TakesFreeTime today payload s =
    (t : ℕ)
    → holds t (slot_window s) ≡ true
    → is_free (start_date_of today payload.week_start) payload.work_schedule
        (read_preferences payload.preferences) payload.calendar_events t
      ≡ true

schedule_payload-free :
    (uuid : ℕ → ℕ) (today : ℕ) (payload : Payload)
    → All EndsInDay payload.work_schedule
    → All (TakesFreeTime today payload) (schedule_payload uuid today payload).slots
unfolding schedule_payload
schedule_payload-free uuid today payload fits =
    All-map _ (TakesFreeTime today payload)
      (λ s c t h.
        sym (
          covers-build_available_windows (start_date_of today payload.week_start)
            payload.work_schedule (read_preferences payload.preferences) payload.calendar_events t
            fits)
        ∙ c t h)
      (schedule_payload uuid today payload).slots
      (schedule_tasks-covers _ (start_date_of today payload.week_start)
        (build_available_windows (start_date_of today payload.week_start) payload.work_schedule
          (read_preferences payload.preferences) payload.calendar_events)
        _)

-- Every instant of every slot that is generated is free in the sense of `is_free`: its date is one
-- of the seven from the first, and it lies in the hours of an entry and in no break, no calendar
-- event and no day without planning, where days of the week are counted from the first date. The
-- ends of the schedule's entries are times of day.
pub generate_slots-free :
    (uuid : ℕ → ℕ) (today : ℕ) (payload : Payload) (slots : List Slot) (conflicts : List Conflict)
    → All EndsInDay payload.work_schedule
    → generate_slots uuid today payload ≡ ok (slots, conflicts)
    → All
        (λ s.
          (t : ℕ)
          → holds t (slot_window s) ≡ true
          → is_free
              (start_date_of today payload.week_start)
              payload.work_schedule
              (read_preferences payload.preferences)
              payload.calendar_events
              t
            ≡ true)
        slots
unfolding generate_slots
generate_slots-free uuid today payload slots conflicts fits e =
    let placed = schedule_payload uuid today payload in
    let (outside, f, g) =
      >>=-eq-ok
        (detect_schedule_conflicts placed.slots payload.work_schedule payload.calendar_events) _
        e in
    subst (λ r. All (TakesFreeTime today payload) r.0) (ok_inj g)
      (schedule_payload-free uuid today payload fits)
