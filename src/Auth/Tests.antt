-- ===== src/Auth/Tests.antt =====
-- The theorems on tokens and accounts at concrete inputs, with a library whose tokens can be read.
use Prim.Native.String
use Prim.Native.String.{count}
use Prim.Native.Char.{Char, code}
use text.Mathlib.Text.{is_eq}
use life_merge.Base.{
  ℕ, ◌≡◌, ◌≢◌, refl, ap, ◌∙◌, true, false, Option, none, some, [], ◌∷◌, String, str_eq, arith, ◌==◌,
  if◌then◌else◌, eq_iff,
}
use life_merge.Base.Texts.{strokes, count-strokes, str_eq_refl}
use life_merge.Base.Result.{ok, raise, refresh_error, http_error}
use life_merge.Auth.{
  User, Db, Claims, Libraries, IsLibraries, Settings, get_by_id, revoke, has_digest,
}
use life_merge.Auth.Tokens.{
  create_refresh_token, refresh_row, issue_tokens, refresh_tokens, get_current_user,
  revoke_device_tokens, tokens_program,
}
use life_merge.Auth.Tokens.Success.{issued_of}
use life_merge.Auth.Tokens.Rotation.{refresh_tokens-once, refresh_tokens-revoke_device_tokens}
use life_merge.Auth.Tokens.Kinds.{issue_tokens-kinds, refresh_tokens-issue_tokens}
use life_merge.Auth.Routes.{signup, login, login-signup, routes_program}

-- Each character of a text behind an `x`, and a point at its end.
abbrev write_text : String → String → String
write_text String.[] rest = String.◌∷◌ "." rest
write_text (String.◌∷◌ c text) rest = String.◌∷◌ "x" (String.◌∷◌ c (write_text text rest))

abbrev cons_first : Char → Option (String × String) → Option (String × String)
cons_first c none = none
cons_first c (some (text, rest)) = some (String.◌∷◌ c text, rest)

abbrev read_text : String → Option (String × String)
read_text String.[] = none
read_text (String.◌∷◌ c String.[]) = if code c == 46 then some (String.[], String.[]) else none
read_text (String.◌∷◌ c (String.◌∷◌ d rest)) =
    let more = read_text rest in
    if code c == 46 then some (String.[], String.◌∷◌ d rest) else cons_first d more

read_text-write_text : (text rest : String) → read_text (write_text text rest) ≡ some (text, rest)
read_text-write_text String.[] String.[] = refl
read_text-write_text String.[] (String.◌∷◌ c rest) = refl
read_text-write_text (String.◌∷◌ c text) rest = ap (cons_first c) (read_text-write_text text rest)

abbrev write_option : Option String → String → String
write_option none rest = String.◌∷◌ "n" rest
write_option (some text) rest = String.◌∷◌ "s" (write_text text rest)

abbrev some_first : Option (String × String) → Option (Option String × String)
some_first none = none
some_first (some (text, rest)) = some (some text, rest)

abbrev read_option : String → Option (Option String × String)
read_option String.[] = none
read_option (String.◌∷◌ c rest) =
    if code c == 110 then some (none, rest) else some_first (read_text rest)

read_option-write_option :
    (o : Option String) (rest : String) → read_option (write_option o rest) ≡ some (o, rest)
read_option-write_option none rest = refl
read_option-write_option (some text) rest = ap some_first (read_text-write_text text rest)

abbrev read_type : Option String → Option String → Option (Option String × String) → Option Claims
read_type uid device_id none = none
read_type uid device_id (some (type, rest)) =
    some record { uid = uid; device_id = device_id; type = type }

abbrev read_device : Option String → Option (Option String × String) → Option Claims
read_device uid none = none
read_device uid (some (device_id, rest)) = read_type uid device_id (read_option rest)

abbrev read_claims : Option (Option String × String) → Option Claims
read_claims none = none
read_claims (some (uid, rest)) = read_device uid (read_option rest)

abbrev write_claims : Claims → ℕ → String
write_claims claims iat =
    write_option claims.uid
      (write_option claims.device_id (write_option claims.type (strokes iat String.[])))

read_claims-write_claims :
    (claims : Claims) (iat : ℕ) → read_claims (read_option (write_claims claims iat)) ≡ some claims
read_claims-write_claims claims iat =
    ap read_claims (
      read_option-write_option claims.uid
        (write_option claims.device_id (write_option claims.type (strokes iat String.[]))))
    ∙ ap (read_device claims.uid) (
        read_option-write_option claims.device_id
          (write_option claims.type (strokes iat String.[])))
    ∙ ap (read_type claims.uid claims.device_id)
        (read_option-write_option claims.type (strokes iat String.[]))

write_option-not_empty :
    (o : Option String) (rest : String) → str_eq (write_option o rest) "" ≡ false
write_option-not_empty none rest = ap is_eq (String.compare.cons-nil _ _)
write_option-not_empty (some text) rest = ap is_eq (String.compare.cons-nil _ _)

abbrev read_number : String → Option ℕ
read_number String.[] = none
read_number (String.◌∷◌ c rest) = some (count rest)

abbrev lib : Libraries
lib = record {
  encode = λ payload. write_claims payload.claims payload.iat;
  decode = λ now token. read_claims (read_option token);
  digest = λ token. token;
  hash = λ salt password. password;
  verify = str_eq;
  lower = λ email. email;
  uuid_text = λ id. String.◌∷◌ "u" (strokes id String.[]);
  read_uuid = read_number;
}

some_claims : {a b : Claims} → some a ≡ some b → a ≡ b
some_claims e = cc

lib-IsLibraries : IsLibraries lib
lib-IsLibraries = record {
  decode-encode = λ now payload lasts. read_claims-write_claims payload.claims payload.iat;
  encode-not_empty = λ payload. write_option-not_empty payload.claims.uid _;
  encode-seconds = λ sub claims iat exp exp' same. refl;
  decode-decode = λ now later token claims claims' h k. cc;
  read_uuid-uuid_text = λ id. ap some (count-strokes id);
  verify-hash = λ salt password. str_eq_refl password;
  uuid_text-not_empty = λ id. ap is_eq (String.compare.cons-nil _ _);
}

abbrev settings : Settings
settings = record { access_token_ttl_seconds = 60; refresh_token_ttl_seconds = 600 }

abbrev ann : User
ann = record {
  id = 7;
  email = "ann@example.org";
  password_hash = "secret";
  full_name = none;
  timezone = "UTC";
  deleted = false;
}

abbrev start : Db
start = record { users = ann ∷ []; refresh_tokens = [] }

-- Tokens that are issued after five seconds, and what an exchange four seconds later leaves.
abbrev issued : (String × String) × Db
issued = issued_of lib settings 5000000 1 ann "phone" start

abbrev renewed : (String × String) × Db
renewed = issued_of lib settings 9000000 2 ann "phone" (revoke 1 issued.1)

issued_eq : issue_tokens lib settings 5000000 1 ann "phone" start ≡ ok issued
unfolding tokens_program
issued_eq = refl

ann-found : get_by_id 7 start ≡ some ann
unfolding tokens_program
ann-found = refl

renewed-free :
    has_digest
      (lib.digest
        (create_refresh_token lib settings 9000000 "ann@example.org" (lib.uuid_text 7) "phone"))
      issued.1
    ≡ false
unfolding tokens_program
renewed-free = refl

renewed-differs : renewed.0.1 ≢ issued.0.1
unfolding tokens_program
renewed-differs e = let no : false ≡ true = (eq_iff renewed.0.1 issued.0.1).1 e in cc

refresh_tokens-issue_tokens_example :
    (again : (String × String) × Db) × (issue_tokens lib settings 9000000 2 ann "phone"
        (revoke 1 issued.1)
      ≡ ok again)
    × (refresh_tokens lib settings 9000000 2 issued.0.1 "phone" issued.1
        ≡ ok ((ann, again.0), again.1))
refresh_tokens-issue_tokens_example =
    refresh_tokens-issue_tokens lib lib-IsLibraries settings 5000000 1 ann "phone" 9000000 2 start
      start issued issued_eq (omega arith) ann-found renewed-free

renewed_eq :
    refresh_tokens lib settings 9000000 2 issued.0.1 "phone" issued.1
    ≡ ok ((ann, renewed.0), renewed.1)
unfolding tokens_program
renewed_eq = refl

refresh_tokens-once_example :
    refresh_tokens lib settings 10000000 3 issued.0.1 "phone" renewed.1
    ≡ raise (refresh_error "invalid_refresh")
refresh_tokens-once_example =
    refresh_tokens-once lib lib-IsLibraries settings 9000000 2 issued.0.1 "phone" issued.1 ann
      renewed.0.0 renewed.0.1 renewed.1 renewed_eq renewed-differs 10000000 3 (omega arith)

other_device : ◌≢◌ {A = String} "laptop" "phone"
other_device e = let no : false ≡ true = (eq_iff "laptop" "phone").1 e in cc

issue_tokens-kinds_example :
    (get_current_user lib 9000000 start (some issued.0.0) ≡ ok ann)
    × (refresh_tokens lib settings 9000000 2 issued.0.0 "phone" start
        ≡ raise (refresh_error "invalid_refresh"))
    × (get_current_user lib 9000000 start (some issued.0.1)
        ≡ raise (http_error "401" "unauthorized"))
    × (refresh_tokens lib settings 9000000 2 issued.0.1 "laptop" start
        ≡ raise (refresh_error "refresh_invalid_device"))
issue_tokens-kinds_example =
    issue_tokens-kinds lib lib-IsLibraries settings 5000000 1 ann "phone" 9000000 2 start start
      issued issued_eq (omega arith) (omega arith) ann-found "laptop" other_device

-- Another user may still exchange a token of the device.
abbrev bob : User
bob = record ann { id = 8; email = "bob@example.org" }

abbrev shared : Db
shared = record { users = ann ∷ bob ∷ []; refresh_tokens = [] }

abbrev bobs : (String × String) × Db
bobs = issued_of lib settings 5000000 1 bob "phone" shared

bobs-renewed :
    refresh_tokens lib settings 9000000 2 bobs.0.1 "phone" (revoke_device_tokens ann "phone" bobs.1)
    ≡ ok (
      (bob, (issued_of lib settings 9000000 2 bob "phone" (revoke 1 bobs.1)).0),
      (issued_of lib settings 9000000 2 bob "phone" (revoke 1 bobs.1)).1,
    )
unfolding tokens_program
bobs-renewed = refl

refresh_tokens-revoke_device_tokens_example : bob.id ≢ ann.id
refresh_tokens-revoke_device_tokens_example =
    refresh_tokens-revoke_device_tokens lib settings ann 9000000 2 bobs.0.1 "phone" bobs.1 _
      bobs-renewed

abbrev signed_up : (User × (String × String)) × Db
signed_up =
    let made = record ann { id = 9; email = "eve@example.org" } in
    let db : Db = record { users = ann ∷ made ∷ []; refresh_tokens = [] } in
    let tokens = issued_of lib settings 5000000 3 made "default" db in ((made, tokens.0), tokens.1)

signed_up_eq :
    signup lib settings 5000000 9 3 1 "eve@example.org" "secret" none "UTC" none start
    ≡ ok signed_up
unfolding tokens_program routes_program
signed_up_eq = refl

login-free :
    has_digest (refresh_row lib settings 9000000 4 signed_up.0.0 "phone").token_hash signed_up.1
    ≡ false
unfolding tokens_program routes_program
login-free = refl

login-signup_example :
    (tokens : (String × String) × Db) × (issue_tokens lib settings 9000000 4 signed_up.0.0 "phone"
        signed_up.1
      ≡ ok tokens)
    × (login lib settings 9000000 4 "eve@example.org" "secret" "phone" signed_up.1
        ≡ ok ((signed_up.0.0, tokens.0), tokens.1))
login-signup_example =
    login-signup lib lib-IsLibraries settings 5000000 9 3 1 "eve@example.org" "secret" none "UTC"
      none start signed_up signed_up_eq 9000000 4 "phone" login-free
