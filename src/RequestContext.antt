-- ===== src/RequestContext.antt =====
-- Backend/app/middleware/request_context.py, with `err` of Backend/app/core/response.py. A request
-- has the headers that are read here and its state, in which `err` looks for the identifier.
-- `is_zone` tells whether `ZoneInfo` takes a text. What follows the middleware is an argument.
mod Tests
use life_merge.Base.{
  ◌≡◌, ◌≢◌, ◌⊎◌, inl, inr, refl, Bool, true, false, Option, none, some, String, str_eq,
  if◌then◌else◌, arith, Bool-cases,
}
use life_merge.Base.Result.{Result, ok, raise, attribute_error, ◌>>=◌}

pub record State : Type 0 where
  pub request_id : Option String
  pub client_timezone : Option String

pub record Headers : Type 0 where
  pub x_request_id : Option String
  pub x_timezone : Option String

-- The error of the body is its code.
pub record ErrorBody : Type 0 where
  pub code : String
  pub request_id : String

-- An answer of the middleware's own, or one of the route's with the headers that are set on it.
pub data Response (Body : Type 0) : Type 0 where
  bad_request : ErrorBody → Response Body
  answered : Body → (x_request_id x_timezone : String) → Response Body

-- `err`: the state has no attribute that was not set.
pub err_with : String → Option String → Result ErrorBody
err_with code none = raise attribute_error
err_with code (some request_id) = ok (record { code = code; request_id = request_id })

pub err : State → String → Result ErrorBody
err state code = err_with code state.request_id

-- `not text`
abbrev pub is_missing : Option String → Bool
is_missing none = true
is_missing (some text) = str_eq text ""

abbrev pub text_or_empty : Option String → String
text_or_empty none = ""
text_or_empty (some text) = text

module _ {Body : Type 0} (is_zone : String → Bool) (call_next : State → Result Body) where
  pub refuse : State → String → Result (Response Body)
  refuse state code = err state code >>= λ body. ok (bad_request body)

  -- `dispatch`
  pub dispatch : State → Headers → Result (Response Body)
  dispatch state headers =
      let req_id = text_or_empty headers.x_request_id in
      let tz = text_or_empty headers.x_timezone in
      let passed =
        call_next (record { request_id = some req_id; client_timezone = some tz }) >>= λ body.
        ok (answered body req_id tz) in
      if is_missing headers.x_request_id
      then refuse state "missing_request_id"
      else (if is_missing headers.x_timezone
          then refuse state "invalid_timezone"
          else (if is_zone tz then passed else refuse state "invalid_timezone"))

-- What a run unfolds.
unfoldable pub request_context_program : Unit {0}
unfolding dispatch refuse err err_with
request_context_program = tt
