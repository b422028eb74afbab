-- ===== src/Background/Digests/Once.antt =====
-- Backend/app/services/background_tasks.py: a digest is not sent twice for one date.
use life_merge.Base.{
  ℕ, ◌+◌, ◌*◌, ◌/◌, ◌<◌, ◌≡◌, refl, ap, Bool, false, not, Option, none, some, str_eq, ltb, ◌&&◌,
  List, [], ◌∷◌, map, select, if◌then◌else◌, arith,
}
use life_merge.Planner.Time.{day_micros, hour_micros}
use life_merge.Push.{Metric}
use life_merge.Background.Digests.{
  DigestSchedule, is_due, is_not_later, next_digest_run, moved, dispatch_digests,
}

-- The date is there and has come.
abbrev pub has_come : ℕ → Option ℕ → Bool
has_come now none = false
has_come now (some date) = not (ltb now date)

-- A schedule that a run at `now` is to serve.
abbrev pub is_wanted : ℕ → DigestSchedule → Bool
is_wanted now s = if str_eq s.channel "push" then has_come now s.next_run_at else false

come_eq : (now : ℕ) (date : Option ℕ) → is_not_later date now ≡ has_come now date
unfolding is_not_later
come_eq now none = refl
come_eq now (some date) = ground arith

wanted_eq : (now : ℕ) (s : DigestSchedule) → is_due now s ≡ is_wanted now s
unfolding is_due
wanted_eq now s = rw (come_eq now s.next_run_at) (ground arith)

select-wanted :
    (now : ℕ) (db : List DigestSchedule) → select (is_due now) db ≡ select (is_wanted now) db
select-wanted now [] = refl
select-wanted now (s ∷ db) = rw (wanted_eq now s, select-wanted now db) refl

-- What has been sent is not due again on the same day, nor the next one before the hour.
moved-not_due :
    (send_hour now later : ℕ) (s : DigestSchedule)
    → later < (now / day_micros + 1) * day_micros + send_hour * hour_micros
    → is_due later (moved send_hour now s) ≡ false
unfolding is_due is_not_later moved next_digest_run
moved-not_due send_hour now later s early = ground arith

select-moved :
    (send_hour now later : ℕ) (db : List DigestSchedule)
    → later < (now / day_micros + 1) * day_micros + send_hour * hour_micros
    → select (is_due later) (map (λ s. if is_due now s then moved send_hour now s else s) db)
      ≡ select (λ s. is_wanted later s && not (is_wanted now s)) db
select-moved send_hour now later [] early = refl
select-moved send_hour now later (s ∷ db) early =
    rw (← wanted_eq later s, ← wanted_eq now s, ← select-moved send_hour now later db early)
      (ground (arith, moved-not_due send_hour now later s early))

-- A run sends a digest for each schedule of the channel "push" whose date of the next run has come,
-- and for no other. A later run, before the hour of sending on the day after the first, sends just the
-- digests that the first run had not to send: what has been sent is not sent again.
pub dispatch_digests-dispatch_digests :
    (send : DigestSchedule → List (List Metric × Bool)) (send_hour now later : ℕ)
    (db : List DigestSchedule)
    → later < (now / day_micros + 1) * day_micros + send_hour * hour_micros
    → ((dispatch_digests send send_hour now db).1 ≡ map send (select (is_wanted now) db))
      × ((dispatch_digests send send_hour later (dispatch_digests send send_hour now db).0).1
          ≡ map send (select (λ s. is_wanted later s && not (is_wanted now s)) db))
unfolding dispatch_digests
dispatch_digests-dispatch_digests send send_hour now later db early = (
  ap (map send) (select-wanted now db),
  ap (map send) (select-moved send_hour now later db early),
)
