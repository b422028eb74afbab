-- ===== src/RequestContext/Tests.antt =====
-- The middleware at a request without a zone.
use life_merge.Base.{◌≡◌, refl, Bool, none, some, String, str_eq}
use life_merge.Base.Result.{Result, ok, raise, attribute_error}
use life_merge.RequestContext.{State, answered, dispatch, request_context_program}

abbrev unset : State
unset = record { request_id = none; client_timezone = none }

abbrev is_utc : String → Bool
is_utc zone = str_eq zone "UTC"

abbrev health : State → Result String
health state = ok "ok"

dispatch_test :
    dispatch is_utc health unset (record { x_request_id = some "r1"; x_timezone = some "UTC" })
    ≡ ok (answered "ok" "r1" "UTC")
unfolding request_context_program
dispatch_test = refl

refuse_test :
    dispatch is_utc health unset (record { x_request_id = some "r1"; x_timezone = none })
    ≡ raise attribute_error
unfolding request_context_program
refuse_test = refl
