-- ===== src/Push/Platforms.antt =====
-- The platforms of Backend/app/services/push_service.py, and what they are given and answer.
use life_merge.Base.{ℕ, Bool, true, false, Option, none, some, String, str_eq, ltb, if◌then◌else◌}
use Prim.Native.String.{count}

-- `PushDeviceToken`
pub record Device : Type 0 where
  pub user_id : ℕ
  pub platform : String
  pub device_token : String
  pub enabled : Bool

-- Without `data`, which the platforms pass on and do not look at.
pub record NotificationPayload : Type 0 where
  pub user_id : ℕ
  pub device : Device
  pub title : String
  pub body : String
  pub collapse_key : Option String
  pub request_id : Option String

pub record SendResult : Type 0 where
  pub success : Bool
  pub platform : String
  pub status : String
  pub status_code : Option ℕ
  pub error : Option String

pub record NotificationPlatform : Type 0 where
  pub get_platform_name : String
  pub validate_token : String → Bool
  pub send : NotificationPayload → SendResult

-- What `client.post` comes to: a response, or an `httpx.HTTPError`.
pub data Reply : Type 0 where
  response : (status_code : ℕ) (body : String) → Reply
  http_failure : String → Reply

unfoldable pub send_fcm : Reply → SendResult
send_fcm (response status_code body) = record {
  success = ltb status_code 300;
  platform = "fcm";
  status = if ltb status_code 300 then "delivered" else "failed";
  status_code = some status_code;
  error = if ltb status_code 300 then none else some body;
}
send_fcm (http_failure e) = record {
  success = false;
  platform = "fcm";
  status = "failed";
  status_code = none;
  error = some e;
}

unfoldable pub fcm_platform : (NotificationPayload → Reply) → NotificationPlatform
fcm_platform post = record {
  get_platform_name = "fcm";
  validate_token = λ token. ltb 10 (count token);
  send = λ payload. send_fcm (post payload);
}

abbrev pub sent : String → String → SendResult
sent platform status = record {
  success = true;
  platform = platform;
  status = status;
  status_code = none;
  error = none;
}

abbrev pub is_text : String → Bool
is_text token = if str_eq token "" then false else true

unfoldable pub apns_platform : NotificationPlatform
apns_platform = record {
  get_platform_name = "apns";
  validate_token = is_text;
  send = λ payload. sent "apns" "queued";
}

unfoldable pub web_push_platform : NotificationPlatform
web_push_platform = record {
  get_platform_name = "webpush";
  validate_token = is_text;
  send = λ payload. sent "webpush" "queued";
}

unfoldable pub email_platform : NotificationPlatform
email_platform = record {
  get_platform_name = "email";
  validate_token = λ token. true;
  send = λ payload. sent "email" "delivered";
}
