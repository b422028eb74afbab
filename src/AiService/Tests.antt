-- ===== src/AiService/Tests.antt =====
-- The theorems on the AI service at concrete inputs.
use life_merge.Base.{◌+◌, ◌≤◌, length, String, ℕ, ◌≡◌, refl, ◌*◌, none, some, List, [], ◌∷◌, map}
use life_merge.Planner.Time.{minute_micros, utc, hour_micros, combine, naive}
use life_merge.Planner.Model.{Preferences, Window, Task, Slot, warning}
use life_merge.Planner.Schedule.{schedule_program}
use life_merge.Planner.Values.{values_program}
use life_merge.Planner.Generate.{generate_program}
use life_merge.Base.Result.{ok}
use life_merge.AiService.Batch.{PlannerPlanOut, batch_run, ai_program}
use life_merge.AiService.Batch.Answers.{or_zero, batch_run-answers}
use life_merge.Planner.Windows as Backend
use life_merge.AiService.{WorkScheduleEntry, PlannerCalendarEvent, PlannerRun}
use life_merge.AiService as Ai
use life_merge.AiService.Agreement.{entry_dict, event_dict, build_available_windows-eq}

-- A Monday.
abbrev monday : ℕ
monday = 738_886

abbrev morning : WorkScheduleEntry
morning = record { day_of_week = 0; start_time = 9 * hour_micros; end_time = 12 * hour_micros }

abbrev habits : Preferences
habits = record { latest_start_hour = none; breaks = []; no_plan_days = 6 ∷ [] }

abbrev call : PlannerCalendarEvent
call = record {
  event_id = 1;
  title = "Call";
  start_at = naive (combine monday (10 * hour_micros));
  end_at = naive (combine monday (11 * hour_micros));
}

abbrev two_windows : ℕ → List Window
two_windows day =
    record { start_dt = combine day (9 * hour_micros); end_dt = combine day (10 * hour_micros) }
    ∷ record { start_dt = combine day (11 * hour_micros); end_dt = combine day (12 * hour_micros) }
    ∷ []

windows_test :
    Ai.build_available_windows monday (morning ∷ []) (some habits) (call ∷ []) ≡ two_windows monday
unfolding Ai.ai_windows_program Backend.windows_program
windows_test = refl

build_available_windows-eq_example :
    Backend.build_available_windows monday
      (map entry_dict (morning ∷ []))
      (some habits)
      (map event_dict (call ∷ []))
    ≡ Ai.build_available_windows monday (morning ∷ []) (some habits) (call ∷ [])
build_available_windows-eq_example =
    build_available_windows-eq monday (morning ∷ []) (some habits) (call ∷ []) refl

abbrev report : Task
report = record {
  task_id = 5;
  title = "Report";
  duration_minutes = 30;
  due_at = none;
  priority = none;
  status = none;
}

abbrev run : PlannerRun
run = record {
  plan_request_id = 3;
  week_start = some monday;
  work_schedule = morning ∷ [];
  tasks = report ∷ [];
  calendar_events = call ∷ [];
  preferences = some habits;
  previous_plan_version = some 4;
  completed_task_ids = [];
  rescheduled_task_ids = 5 ∷ [];
}

abbrev report_slot : Slot
report_slot = record {
  slot_id = 100;
  task_id = some 5;
  title = "Report";
  description = some "Suggested by AI";
  start_at = utc (combine monday (9 * hour_micros));
  end_at = utc (combine monday (9 * hour_micros) + 30 * minute_micros);
}

abbrev plan : PlannerPlanOut
plan = record {
  plan_request_id = 3;
  status = "ready";
  source = "ai";
  slots = report_slot ∷ [];
  conflicts =
      record {
        slot_id = some 100;
        reason = "task_rescheduled";
        severity = warning;
        details = some "Task has been rescheduled and may need re-planning.";
        related_task_id = some 5;
      }
      ∷ [];
  version = 5;
}

abbrev secret : String
secret = "secret"

abbrev identity : ℕ → ℕ → ℕ
identity n k = 100 + k

batch_run_test : batch_run 64 secret secret identity 0 (run ∷ []) ≡ ok (plan ∷ [])
unfolding Ai.ai_windows_program ai_program Backend.windows_program schedule_program values_program
    generate_program
batch_run_test = refl

batch_run-answers_example :
    (secret ≡ secret)
    × (length (run ∷ []) ≤ 64)
    × (map (λ p. p.plan_request_id) (plan ∷ []) ≡ map (λ r. r.plan_request_id) (run ∷ []))
    × (map (λ p. p.version) (plan ∷ []) ≡ map (λ r. or_zero r.previous_plan_version + 1) (run ∷ []))
batch_run-answers_example =
    batch_run-answers 64 secret secret identity 0 (run ∷ []) (plan ∷ []) batch_run_test
