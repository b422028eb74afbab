-- ===== src/Idempotency/Tests.antt =====
-- A request that is sent twice, with texts for JSON values.
use life_merge.Base.{true, none, some, String}
use life_merge.Idempotency.{JsonLibrary, Request, CallNext}

-- Every text is a dict, written as it is read.
abbrev json : JsonLibrary
json = record {
  Json = String;
  loads = λ text. some text;
  dumps = λ value. value;
  is_dict = λ value. true;
  empty_dict = "{}";
  data_dict = λ value. value;
}

-- Routes that answer and keep the table.
abbrev created : CallNext json
created rows = (record { status_code = 201; body = "{'id': 1}" }, rows)

abbrev refused : CallNext json
refused rows = (record { status_code = 500; body = "{}" }, rows)

abbrev request : Request
request = record {
  method = "POST";
  path = "/api/v1/tasks";
  x_idempotency_key = none;
  x_request_id = some "r1";
}
