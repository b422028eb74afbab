-- ===== src/Tasks.antt =====
-- Backend/app/application/services/task_service.py and subtask_service.py, with the route of
-- Backend/app/api/v1/tasks.py that changes a task. `create_task` is left out, since the repository
-- behind it calls a function that does not exist. A change names the date of the version
-- that it is made from. Dates are instants; of the date that a client sends, its clock is compared,
-- which is read as UTC.
pub mod Versions
mod Tests
use life_merge.Base.{
  ℕ, ◌≡◌, Bool, true, false, not, ◌&&◌, ◌||◌, Option, none, some, List, [], ◌∷◌, ◌++◌, String,
  str_eq, ◌==◌, if◌then◌else◌,
}
use life_merge.Base.Result.{Error, Result, ok, raise, value_error, http_error, ◌>>=◌}
use life_merge.Idempotency.{Session, commit, enforce_idempotency}
use life_merge.Repositories.{get_by_id, patch}
use life_merge.Repositories.Models.{Task, Subtask, task_columns, subtask_columns}

-- The fields of `TaskUpdateIn` that change a task, `None` where they are missing or null.
pub record TaskPatch : Type 0 where
  pub title : Option String
  pub description : Option String
  pub goal_id : Option ℕ
  pub due_at : Option ℕ
  pub priority : Option ℕ
  pub estimated_minutes : Option ℕ
  pub energy_level : Option ℕ
  pub status : Option String

-- A value that is not `None` is set.
abbrev pub given {ℓ} : {A : Type ℓ} → Option A → A → A
given none old = old
given (some new) old = new

abbrev pub given_or {ℓ} : {A : Type ℓ} → Option A → Option A → Option A
given_or none old = old
given_or (some new) old = some new

-- `.values(**values)` with the new date.
pub assign : ℕ → TaskPatch → Task → Task
assign now values task = record task {
  title = given values.title task.title;
  description = given_or values.description task.description;
  goal_id = given_or values.goal_id task.goal_id;
  due_at = given_or values.due_at task.due_at;
  priority = given_or values.priority task.priority;
  estimated_minutes = given_or values.estimated_minutes task.estimated_minutes;
  energy_level = given_or values.energy_level task.energy_level;
  status = given values.status task.status;
  updated_at = now;
}

-- `expected_updated_at` against the date of the row.
pub is_conflict : Option ℕ → ℕ → Bool
is_conflict none updated_at = false
is_conflict (some expected) updated_at = not (updated_at == expected)

-- `status not in ALLOWED_STATUSES`, of a status that is not empty.
pub is_invalid_status : Option String → Bool
is_invalid_status none = false
is_invalid_status (some status) = not (
    str_eq status ""
    || (str_eq status "todo"
        || (str_eq status "in_progress" || (str_eq status "done" || str_eq status "deferred"))))

-- `TaskService.update_task`, of a row that has been loaded.
pub update_task : ℕ → Task → TaskPatch → Option ℕ → List Task → Result (Task × List Task)
update_task now task values expected_updated_at db =
    if is_conflict expected_updated_at task.updated_at
    then raise (value_error "conflict")
    else (if is_invalid_status values.status
        then raise (value_error "invalid_status")
        else ok (assign now values task, patch task_columns task.id (assign now values) db))

-- `update_subtask`, where `title` and `done` may be given.
pub assign_subtask : ℕ → Option String → Option Bool → Subtask → Subtask
assign_subtask now title done subtask = record subtask {
  title = given title subtask.title;
  done = given done subtask.done;
  updated_at = now;
}

pub update_subtask :
    ℕ
    → Subtask
    → Option String
    → Option Bool
    → Option ℕ
    → List Subtask
    → Result (Subtask × List Subtask)
update_subtask now subtask title done expected_updated_at db =
    if is_conflict expected_updated_at subtask.updated_at
    then raise (value_error "conflict")
    else ok (
      assign_subtask now title done subtask,
      patch subtask_columns subtask.id (assign_subtask now title done) db,
    )

-- `soft_delete_subtask`
pub soft_delete_subtask : ℕ → Subtask → List Subtask → List Subtask
soft_delete_subtask now subtask db =
    patch subtask_columns subtask.id (λ row. record row { deleted = true; updated_at = now }) db

-- The answers to the two exceptions of `update_task`.
pub on_value_error : Error → Error
on_value_error (value_error message) =
    if str_eq message "conflict"
    then http_error "409" "conflict"
    else http_error "400" "validation_error"
on_value_error e = e

module _ {Json : Type 0} (method path : String) (user_id : ℕ) where
  pub updated :
      Session Json → List Task → Result (Task × List Task) → Result Task × Session Json × List Task
  updated session db (raise e) = (raise (on_value_error e), session, db)
  updated session db (ok (task, after)) = (ok task, commit session, after)

  -- The answer 409 is left without its details, the task as it is stored.
  pub patch_found :
      ℕ
      → TaskPatch
      → ℕ
      → Session Json
      → List Task
      → Option Task
      → Result Task × Session Json × List Task
  patch_found now values updated_at session db none =
      (raise (http_error "404" "not_found"), session, db)
  patch_found now values updated_at session db (some task) =
      updated session db (update_task now task values (some updated_at) db)

  pub patch_claimed :
      ℕ
      → ℕ
      → TaskPatch
      → ℕ
      → List Task
      → Result (Unit {0}) × Session Json
      → Result Task × Session Json × List Task
  patch_claimed now task_id values updated_at db (raise e, session) = (raise e, session, db)
  patch_claimed now task_id values updated_at db (ok u, session) =
      patch_found now values updated_at session db (get_by_id task_columns user_id task_id db)

  -- `patch_task`, which sends `updated_at` with the values.
  pub patch_task :
      ℕ
      → ℕ
      → TaskPatch
      → ℕ
      → String
      → Option String
      → Session Json
      → List Task
      → Result Task × Session Json × List Task
  patch_task now task_id values updated_at request_id idempotency_key session db =
      patch_claimed now task_id values updated_at db
        (enforce_idempotency user_id method path (some request_id) idempotency_key session)

-- What a run unfolds.
unfoldable pub tasks_program : Unit {0}
unfolding assign is_conflict is_invalid_status update_task assign_subtask update_subtask
    soft_delete_subtask on_value_error updated patch_found patch_claimed patch_task
tasks_program = tt
