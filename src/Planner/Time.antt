-- ===== src/Planner/Time.antt =====
-- Dates and times as the planner uses them. A date is its proleptic ordinal, a time of day and an
-- instant are counts of microseconds, from midnight and from the ordinal 0 in UTC. A datetime is
-- naive, with its wall clock, or aware, with its instant and its offset from UTC.
use life_merge.Base.{ℕ, ◌+◌, ◌-◌, ◌*◌, ◌/◌, ◌%◌, Bool, Option, none, some, ltb}
use life_merge.Base.Result.{Result, ok, raise, type_error}

abbrev pub second_micros : ℕ
second_micros = 1_000_000

abbrev pub minute_micros : ℕ
minute_micros = 60_000_000

abbrev pub hour_micros : ℕ
hour_micros = 3_600_000_000

abbrev pub day_micros : ℕ
day_micros = 86_400_000_000

-- `date.weekday()`: 0 is Monday.
abbrev pub weekday : ℕ → ℕ
weekday day = (day + 6) % 7

-- `datetime.combine(day, time, tzinfo=timezone.utc)`, as an instant.
abbrev pub combine : ℕ → ℕ → ℕ
combine day time = day * day_micros + time

pub data DateTime : Type 0 where
  naive : (wall : ℕ) → DateTime
  aware : (instant ahead behind : ℕ) → DateTime

abbrev pub utc : ℕ → DateTime
utc t = aware t 0 0

-- What the clock shows, which `.date()`, `.time()`, `.hour` and `.weekday()` read.
abbrev pub wall : DateTime → ℕ
wall (naive w) = w
wall (aware t ahead behind) = t + ahead - behind

abbrev pub date_of : DateTime → ℕ
date_of d = wall d / day_micros

abbrev pub time_of : DateTime → ℕ
time_of d = wall d % day_micros

abbrev pub hour_of : DateTime → ℕ
hour_of d = time_of d / hour_micros

-- `a < b`: Python refuses to compare a naive datetime with an aware one.
abbrev pub before : DateTime → DateTime → Result Bool
before (naive a) (naive b) = ok (ltb a b)
before (aware a _ _) (aware b _ _) = ok (ltb a b)
before (naive a) (aware b _ _) = raise type_error
before (aware a _ _) (naive b) = raise type_error

-- A naive datetime is read as UTC.
abbrev pub to_utc : DateTime → ℕ
to_utc (naive w) = w
to_utc (aware t _ _) = t

-- `TimeSlotCalculator.normalize_timezone`; `now` is the clock, read for a missing value.
abbrev pub normalize_timezone : ℕ → Option DateTime → ℕ
normalize_timezone now none = now
normalize_timezone now (some d) = to_utc d
