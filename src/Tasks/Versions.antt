-- ===== src/Tasks/Versions.antt =====
-- A version of a task is changed once (Backend/app/application/services/task_service.py and
-- Backend/app/api/v1/tasks.py).
use life_merge.Base.{
  ℕ, ◌≡◌, ◌≢◌, refl, sym, ap, ap₂, ◌∙◌, true, Option, none, some, List, String, arith, inl, inr,
  Bool-cases,
}
use life_merge.Base.Result.{Result, ok, raise, value_error, http_error, ok_inj}
use life_merge.Idempotency.{Session, enforce_idempotency}
use life_merge.Repositories.{get_by_id, patch}
use life_merge.Repositories.Rows.{get_by_id-patch_same, get_by_id-id}
use life_merge.Repositories.Models.{Task, task_columns}
use life_merge.Tasks.{
  TaskPatch, assign, is_conflict, is_invalid_status, update_task, on_value_error, updated,
  patch_found, patch_claimed, patch_task,
}

-- What a change that succeeds leaves.
update_task-ok :
    (now : ℕ) (task : Task) (values : TaskPatch) (expected : Option ℕ) (db : List Task)
    (out : Task × List Task)
    → update_task now task values expected db ≡ ok out
    → (assign now values task, patch task_columns task.id (assign now values) db) ≡ out
unfolding update_task
update_task-ok now task values expected db out h =
    elim (Bool-cases (is_conflict expected task.updated_at)) [
      | inl e ↦
          let no : ◌≡◌ {A = Result (Task × List Task)} (raise (value_error "conflict")) (ok out) =
            rw e at h in
          cc
      | inr e ↦ elim (Bool-cases (is_invalid_status values.status)) [
        | inl k ↦
            let no : ◌≡◌ {A = Result (Task × List Task)} (raise (value_error "invalid_status"))
                (ok out) =
              rw (e, k) at h in
            cc
        | inr k ↦ ok_inj (rw (e, k) at h)
      ]
    ]

conflict :
    (updated_at expected : ℕ)
    → updated_at ≢ expected
    → is_conflict (some expected) updated_at ≡ true
unfolding is_conflict
conflict updated_at expected h = ground arith

module _ {Json : Type 0} (method path : String) (user_id task_id : ℕ) where
  updated-ok :
      (session : Session Json) (db : List Task) (r : Result (Task × List Task)) (task : Task)
      (session' : Session Json) (db' : List Task)
      → updated method path user_id session db r ≡ (ok task, session', db')
      → r ≡ ok (task, db')
  unfolding updated
  updated-ok session db (raise e) task session' db' h = cc
  updated-ok session db (ok (t, after)) task session' db' h =
      ap₂ (λ t' a. ok (t', a)) (ok_inj (ap (λ o. o.0) h)) (ap (λ o. o.2) h)

  patch_found-ok :
      (now : ℕ) (values : TaskPatch) (expected : ℕ) (session : Session Json) (db : List Task)
      (o : Option Task) (task : Task) (session' : Session Json) (db' : List Task)
      → patch_found method path user_id now values expected session db o ≡ (ok task, session', db')
      → (old : Task) × (o ≡ some old)
        × (assign now values old ≡ task)
        × (patch task_columns old.id (assign now values) db ≡ db')
  unfolding patch_found
  patch_found-ok now values expected session db none task session' db' h =
      let no : ◌≡◌ {A = Result Task} (raise (http_error "404" "not_found")) (ok task) =
        ap (λ o. o.0) h in
      cc
  patch_found-ok now values expected session db (some old) task session' db' h =
      let made =
        update_task-ok now old values (some expected) db (task, db')
          (updated-ok session db (update_task now old values (some expected) db) task session' db'
            h) in
      (old, refl, ap (λ o. o.0) made, ap (λ o. o.1) made)

  patch_claimed-ok :
      (now : ℕ) (values : TaskPatch) (expected : ℕ) (db : List Task)
      (claimed : Result (Unit {0}) × Session Json) (task : Task) (session' : Session Json)
      (db' : List Task)
      → patch_claimed method path user_id now task_id values expected db claimed
        ≡ (ok task, session', db')
      → get_by_id task_columns user_id task_id db' ≡ some task × (task.updated_at ≡ now)
  unfolding patch_claimed assign
  patch_claimed-ok now values expected db (raise e, session) task session' db' h =
      let no : ◌≡◌ {A = Result Task} (raise e) (ok task) = ap (λ o. o.0) h in cc
  patch_claimed-ok now values expected db (ok u, session) task session' db' h =
      let (old, found, made, left) =
        patch_found-ok now values expected session db (get_by_id task_columns user_id task_id db)
          task session' db' h in
      let patched =
        get_by_id-patch_same task_columns (assign now values) (λ r. refl) user_id task_id db old
          (λ r. refl) (λ r. refl) found in
      (
        ap (λ rows. get_by_id task_columns user_id task_id rows)
              (sym left
                ∙ ap (λ i. patch task_columns i (assign now values) db)
                    (get_by_id-id task_columns user_id task_id db old found))
            ∙ patched
            ∙ ap some made,
        ap (λ t. t.updated_at) (sym made),
      )

  -- Once a user has changed a task, a change of the user that is made from another version, as from
  -- the one before if the clock has moved, is refused with 409 and leaves the tasks as they are,
  -- provided that its request is new.
  pub patch_task-patch_task :
      (now : ℕ) (values : TaskPatch) (expected : ℕ) (request_id : String) (key : Option String)
      (session : Session Json) (db : List Task) (task : Task) (session' : Session Json)
      (db' : List Task)
      → patch_task method path user_id now task_id values expected request_id key session db
        ≡ (ok task, session', db')
      → (later : ℕ) (values' : TaskPatch) (expected' : ℕ) (request_id' : String)
        (key' : Option String) (opened after : Session Json)
      → now ≢ expected'
      → enforce_idempotency user_id method path (some request_id') key' opened ≡ (ok tt, after)
      → patch_task method path user_id later task_id values' expected' request_id' key' opened db'
        ≡ (raise (http_error "409" "conflict"), after, db')
  unfolding patch_task patch_claimed patch_found updated update_task on_value_error
  patch_task-patch_task now values expected request_id key session db task session' db' h later
        values' expected' request_id' key' opened after moved new =
      let (found, dated) = patch_claimed-ok now values expected db _ task session' db' h in
      rw (new, found, conflict task.updated_at expected' (λ e. moved (sym dated ∙ e))) refl
