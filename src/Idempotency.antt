-- ===== src/Idempotency.antt =====
-- Backend/app/api/idempotency.py, middleware/idempotency_snapshot.py and
-- repositories/idempotency_repo.py: a request that is repeated is refused, or answered as before. The
-- reading and writing of JSON, and what `commit` does after a flush that failed, are arguments;
-- response headers are left out.
pub mod Replay
pub mod Claims
mod Tests
use life_merge.Base.{
  ℕ, ◌≡◌, Bool, true, false, not, ◌&&◌, ◌||◌, Option, none, some, List, [], ◌∷◌, ◌++◌, String,
  str_eq, ◌==◌, find, any, if◌then◌else◌,
}
use life_merge.Base.Result.{Result, ok, raise, http_error, attribute_error, ◌>>=◌}

-- `loads` is `json.loads` of the bytes, and has nothing where it raises.
pub record JsonLibrary : Type 1 where
  pub Json : Type 0
  pub loads : String → Option Json
  pub dumps : Json → String
  pub is_dict : Json → Bool
  -- `{}` and `{"data": value}`
  pub empty_dict : Json
  pub data_dict : Json → Json

pub record IdempotencyKey (Json : Type 0) : Type 0 where
  pub user_id : ℕ
  pub key : String
  pub method : String
  pub path : String
  pub status_code : Option ℕ
  pub response_body : Option Json

-- The table as it was committed, and as the session sees it.
pub record Session (Json : Type 0) : Type 0 where
  pub committed : List (IdempotencyKey Json)
  pub current : List (IdempotencyKey Json)

-- `a or b` on texts that may be missing or empty.
pub or_text : Option String → Option String → Option String
or_text none b = b
or_text (some a) b = if str_eq a "" then b else some a

module _ {Json : Type 0} where
  pub open_session : List (IdempotencyKey Json) → Session Json
  open_session rows = record { committed = rows; current = rows }

  -- `db.commit()`
  pub commit : Session Json → Session Json
  commit session = record session { committed = session.current }

  -- The columns of the unique constraint.
  pub is_key : ℕ → String → String → String → IdempotencyKey Json → Bool
  is_key user_id key method path row =
      (row.user_id == user_id)
      && (str_eq row.key key && (str_eq row.method method && str_eq row.path path))

  -- `get`
  pub get : ℕ → String → String → String → List (IdempotencyKey Json) → Option (IdempotencyKey Json)
  get user_id key method path rows = find (is_key user_id key method path) rows

  pub new_row : ℕ → String → String → String → IdempotencyKey Json
  new_row user_id key method path = record {
    user_id = user_id;
    key = key;
    method = method;
    path = path;
    status_code = none;
    response_body = none;
  }

  -- `claim`, whether the row was inserted, and the rows.
  pub claim :
      ℕ → String → String → String → List (IdempotencyKey Json) → Bool × List (IdempotencyKey Json)
  claim user_id key method path rows =
      if any (is_key user_id key method path) rows
      then (false, rows)
      else (true, rows ++ new_row user_id key method path ∷ [])

  pub with_response : ℕ → Json → Bool → IdempotencyKey Json → IdempotencyKey Json
  with_response status_code response_body true row = record row {
    status_code = some status_code;
    response_body = some response_body;
  }
  with_response status_code response_body false row = row

  -- `store_response`
  pub store_response :
      ℕ
      → String
      → String
      → String
      → ℕ
      → Json
      → List (IdempotencyKey Json)
      → List (IdempotencyKey Json)
  store_response user_id key method path status_code response_body [] = []
  store_response user_id key method path status_code response_body (row ∷ rows) =
      with_response status_code response_body (is_key user_id key method path row) row
      ∷ store_response user_id key method path status_code response_body rows

  pub enforced :
      ℕ → String → String → Option String → Session Json → Result (Unit {0}) × Session Json
  enforced user_id method path none session = (raise (http_error "400" "validation_error"), session)
  enforced user_id method path (some key) session =
      if str_eq key ""
      then (raise (http_error "400" "validation_error"), session)
      else (if any (is_key user_id key method path) session.current
          then (raise (http_error "409" "idempotency_conflict"), session)
          else (
            ok tt,
            record session { current = session.current ++ new_row user_id key method path ∷ [] },
          ))

  -- `enforce_idempotency`, of a request to a path by a method.
  pub enforce_idempotency :
      ℕ
      → String
      → String
      → Option String
      → Option String
      → Session Json
      → Result (Unit {0}) × Session Json
  enforce_idempotency user_id method path request_id idempotency_key session =
      enforced user_id method path (or_text idempotency_key request_id) session

pub record Request : Type 0 where
  pub method : String
  pub path : String
  pub x_idempotency_key : Option String
  pub x_request_id : Option String

pub record Response : Type 0 where
  pub status_code : ℕ
  pub body : String

-- `_MUTATING`
pub is_mutating : String → Bool
is_mutating method = str_eq method "POST" || (str_eq method "PATCH" || str_eq method "DELETE")

module _ (json : JsonLibrary) where
  abbrev pub Rows : Type 0
  Rows = List (IdempotencyKey json.Json)

  pub body_or_empty : Option json.Json → json.Json
  body_or_empty none = json.empty_dict
  body_or_empty (some body) = body

  -- `body_obj`
  pub body_of : String → json.Json
  body_of body = if str_eq body "" then json.empty_dict else body_or_empty (json.loads body)

  -- The argument `response_body` of `store_response`.
  pub stored_body : String → json.Json
  stored_body body =
      let value = body_of body in if json.is_dict value then value else json.data_dict value

  -- The response that a row holds.
  pub snapshot : Option (IdempotencyKey json.Json) → Option Response
  snapshot none = none
  snapshot (some row) = elim row.status_code [
    | none ↦ none
    | some status_code ↦ elim row.response_body [
      | none ↦ none
      | some response_body ↦
          some record { status_code = status_code; body = json.dumps response_body }
    ]
  ]

  -- The route behind the middleware, with the rows that it commits.
  abbrev pub CallNext : Type 0
  CallNext = Rows → Response × Rows

  pub execute :
      Result (Unit {0}) → CallNext → ℕ → String → Request → Bool × Rows → Result Response × Rows
  execute commit_failed call_next user_id key request (claimed, rows) =
      let answer = call_next rows in
      let stored =
        store_response user_id key request.method request.path answer.0.status_code
          (stored_body answer.0.body) answer.1 in
      if claimed
      then (ok answer.0, stored)
      else elim commit_failed [ raise e ↦ (raise e, rows) | ok u ↦ (ok answer.0, stored) ]

  -- With the snapshot that was found, if any.
  pub respond :
      Result (Unit {0})
      → CallNext
      → ℕ
      → String
      → Request
      → Rows
      → Option Response
      → Result Response × Rows
  respond commit_failed call_next user_id key request rows (some response) = (ok response, rows)
  respond commit_failed call_next user_id key request rows none =
      execute commit_failed call_next user_id key request
        (claim user_id key request.method request.path rows)

  pub passed : CallNext → Rows → Result Response × Rows
  passed call_next rows = let answer = call_next rows in (ok answer.0, answer.1)

  pub for_user :
      Result (Unit {0}) → CallNext → Option ℕ → String → Request → Rows → Result Response × Rows
  for_user commit_failed call_next none key request rows = passed call_next rows
  for_user commit_failed call_next (some user_id) key request rows =
      respond commit_failed call_next user_id key request rows
        (snapshot (get user_id key request.method request.path rows))

  -- Without a key `err` reads the identifier of the request's state, which nothing has set.
  pub with_key :
      Result (Unit {0})
      → CallNext
      → Option ℕ
      → Option String
      → Request
      → Rows
      → Result Response × Rows
  with_key commit_failed call_next user_id none request rows = (raise attribute_error, rows)
  with_key commit_failed call_next user_id (some key) request rows =
      if str_eq key ""
      then (raise attribute_error, rows)
      else for_user commit_failed call_next user_id key request rows

  -- `dispatch`, where `user_id` is that of the request's state.
  pub dispatch : Result (Unit {0}) → CallNext → Option ℕ → Request → Rows → Result Response × Rows
  dispatch commit_failed call_next user_id request rows =
      if not (is_mutating request.method)
      then passed call_next rows
      else with_key commit_failed call_next user_id
          (or_text request.x_idempotency_key request.x_request_id) request rows

-- Opens the whole of this component, for evaluation.
unfoldable pub idempotency_program : Unit {0}
unfolding or_text open_session commit is_key get new_row claim with_response store_response enforced
    enforce_idempotency is_mutating body_or_empty body_of stored_body snapshot execute respond
    passed for_user with_key dispatch
idempotency_program = tt
