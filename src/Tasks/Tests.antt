-- ===== src/Tasks/Tests.antt =====
-- Two changes of one version of a task.
use life_merge.Base.{◌≡◌, refl, false, none, some, [], ◌∷◌, String, arith}
use life_merge.Base.Result.{ok, raise, http_error}
use life_merge.Idempotency.{Session, open_session, new_row, idempotency_program}
use life_merge.Repositories.Models.{Task}
use life_merge.Repositories.Lists.{repositories_program}
use life_merge.Tasks.{TaskPatch, patch_task, tasks_program}
use life_merge.Tasks.Versions.{patch_task-patch_task}

abbrev read : Task
read = record {
  id = 3;
  user_id = 7;
  title = "Read";
  description = none;
  status = "todo";
  priority = none;
  estimated_minutes = none;
  energy_level = none;
  goal_id = none;
  due_at = none;
  created_at = 10;
  updated_at = 20;
  deleted = false;
}

abbrev status_of : String → TaskPatch
status_of status = record {
  title = none;
  description = none;
  goal_id = none;
  due_at = none;
  priority = none;
  estimated_minutes = none;
  energy_level = none;
  status = some status;
}

-- After the task is done, with its request in the table.
abbrev done : Task
done = record read { status = "done"; updated_at = 50 }

abbrev first_session : Session String
first_session = record {
  committed = new_row 7 "r1" "PATCH" "/tasks/3" ∷ [];
  current = new_row 7 "r1" "PATCH" "/tasks/3" ∷ [];
}

patch_task_test :
    patch_task "PATCH" "/tasks/3" 7 50 3
      (status_of "done")
      20
      "r1"
      none
      (open_session [])
      (read ∷ [])
    ≡ (ok done, first_session, done ∷ [])
unfolding tasks_program idempotency_program repositories_program
patch_task_test = refl

abbrev second_session : Session String
second_session = record {
  committed = new_row 7 "r1" "PATCH" "/tasks/3" ∷ [];
  current = new_row 7 "r1" "PATCH" "/tasks/3" ∷ new_row 7 "r2" "PATCH" "/tasks/3" ∷ [];
}

patch_task-patch_task_example :
    patch_task "PATCH" "/tasks/3" 7 60 3
      (status_of "deferred")
      20
      "r2"
      none
      first_session
      (done ∷ [])
    ≡ (raise (http_error "409" "conflict"), second_session, done ∷ [])
unfolding idempotency_program
patch_task-patch_task_example =
    patch_task-patch_task "PATCH" "/tasks/3" 7 3 50 (status_of "done") 20 "r1" none
      (open_session []) (read ∷ []) done first_session (done ∷ []) patch_task_test 60
      (status_of "deferred") 20 "r2" none first_session second_session
      (λ e. absurd (omega (arith, e))) refl
