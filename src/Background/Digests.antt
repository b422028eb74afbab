-- ===== src/Background/Digests.antt =====
-- Backend/app/services/background_tasks.py: `dispatch_digests`, with `send_digest` of
-- Backend/app/services/push_service.py.
pub mod Once
use Prim.Native.String.{◌++◌}
use life_merge.Base.{
  ℕ, ◌+◌, ◌*◌, ◌/◌, Bool, true, false, ◌&&◌, Option, none, some, List, map, String, str_eq, leb,
  select, if◌then◌else◌,
}
use life_merge.Planner.Time.{day_micros, hour_micros}
use life_merge.Push.{Metric, send_notification}
use life_merge.Push.Platforms.{Device, NotificationPayload, Reply}

pub record DigestSchedule : Type 0 where
  pub id : ℕ
  pub user_id : ℕ
  pub cadence : String
  pub channel : String
  pub last_sent_at : Option ℕ
  pub next_run_at : Option ℕ
  pub updated_at : ℕ

-- `send_digest`, with the title and the body that the job gives it.
pub send_digest :
    (String → String)
    → (NotificationPayload → Reply)
    → List Device
    → DigestSchedule
    → List (List Metric × Bool)
send_digest lower post devices digest =
    send_notification lower post devices digest.user_id "LifeMerge digest"
      ("Your " ++ digest.cadence ++ " summary is ready") (some ("digest-" ++ digest.cadence)) none

pub is_not_later : Option ℕ → ℕ → Bool
is_not_later none now = false
is_not_later (some date) now = leb date now

-- `channel == "push"` and `next_run_at <= now`, which a null does not meet.
pub is_due : ℕ → DigestSchedule → Bool
is_due now schedule = str_eq schedule.channel "push" && is_not_later schedule.next_run_at now

-- `_next_digest_run`: `now.replace(hour=..., minute=0, second=0, microsecond=0) + delta`.
pub next_digest_run : ℕ → DigestSchedule → ℕ → ℕ
next_digest_run send_hour schedule now =
    now / day_micros * day_micros
    + send_hour * hour_micros
    + (if str_eq schedule.cadence "weekly" then 7 * day_micros else day_micros)

pub moved : ℕ → ℕ → DigestSchedule → DigestSchedule
moved send_hour now schedule = record schedule {
  last_sent_at = some now;
  next_run_at = some (next_digest_run send_hour schedule now);
  updated_at = now;
}

-- `dispatch_digests`: the rows that it leaves, and what it sends.
pub dispatch_digests :
    (DigestSchedule → List (List Metric × Bool))
    → ℕ
    → ℕ
    → List DigestSchedule
    → List DigestSchedule × List (List (List Metric × Bool))
dispatch_digests send send_hour now db = (
  map (λ s. if is_due now s then moved send_hour now s else s) db,
  map send (select (is_due now) db),
)

-- What a run unfolds.
unfoldable pub digests_program : Unit {0}
unfolding send_digest is_not_later is_due next_digest_run moved dispatch_digests
digests_program = tt
