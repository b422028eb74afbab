-- ===== src/Planner/Model.antt =====
-- Backend/app/domain/value_objects/planner.py and Backend/app/schemas/planner.py: the planner's
-- data. An identifier is a number, and so is a time (`Time`). A payload's field that may be
-- missing is optional; one that holds a date or a time as ISO text stands for the parsed value.
use life_merge.Base.{ℕ, Bool, false, Option, List, String, ltb, leb, any, if◌then◌else◌}
use life_merge.Base.Int.{ℤ}
use life_merge.Planner.Time.{DateTime}

-- An entry of `work_schedule`, a dict.
pub record Entry : Type 0 where
  pub day_of_week : Option ℕ
  pub start_time : Option ℕ
  pub end_time : Option ℕ

pub record Break : Type 0 where
  pub start_time : ℕ
  pub end_time : ℕ

pub record Preferences : Type 0 where
  pub latest_start_hour : Option ℕ
  pub breaks : List Break
  pub no_plan_days : List ℕ

-- An entry of `calendar_events`, a dict.
pub record Event : Type 0 where
  pub title : String
  pub start_at : Option DateTime
  pub end_at : Option DateTime

pub record Task : Type 0 where
  pub task_id : ℕ
  pub title : String
  pub duration_minutes : ℕ
  pub due_at : Option DateTime
  pub priority : Option ℤ
  pub status : Option String

pub record Slot : Type 0 where
  pub slot_id : ℕ
  pub task_id : Option ℕ
  pub title : String
  pub description : Option String
  pub start_at : DateTime
  pub end_at : DateTime

pub data Severity : Type 0 where
  info warning error : Severity

pub record Conflict : Type 0 where
  pub slot_id : Option ℕ
  pub reason : String
  pub severity : Severity
  pub details : Option String
  pub related_task_id : Option ℕ

-- A pair `(start_dt, end_dt)` of instants in UTC.
pub record Window : Type 0 where
  pub start_dt : ℕ
  pub end_dt : ℕ

-- The half-open interval of a window.
abbrev pub holds : ℕ → Window → Bool
holds t w = if leb w.start_dt t then ltb t w.end_dt else false

abbrev pub covers : ℕ → List Window → Bool
covers t ws = any (holds t) ws
