-- ===== src/Auth.antt =====
-- Backend/app/services/auth_service.py, core/security.py, api/deps.py, repositories/users_repo.py and
-- refresh_tokens_repo.py: users, their access tokens, and refresh tokens that are rotated. The
-- libraries for tokens, passwords and digests are an argument; the clock is read once for a call, in
-- microseconds. The routes are in Auth.Routes.
pub mod Tokens
pub mod Routes
mod Tests
use life_merge.Base.{
  ℕ, ◌+◌, ◌*◌, ◌/◌, ◌≤◌, ◌≡◌, Bool, true, false, not, ◌&&◌, Option, none, some, List, [], ◌∷◌, ◌++◌,
  String, str_eq, ◌==◌, ltb, select, find, any, map, if◌then◌else◌,
}
use life_merge.Base.Result.{Result, ok, raise, integrity_error, multiple_results_found, ◌>>=◌}

-- The columns of `users` that the accounts use.
pub record User : Type 0 where
  pub id : ℕ
  pub email : String
  pub password_hash : String
  pub full_name : Option String
  pub timezone : String
  pub deleted : Bool

pub record RefreshToken : Type 0 where
  pub id : ℕ
  pub user_id : ℕ
  pub device_id : String
  pub token_hash : String
  pub revoked : Bool
  pub expires_at : ℕ

-- The tables.
pub record Db : Type 0 where
  pub users : List User
  pub refresh_tokens : List RefreshToken

-- What the code reads of a decoded token by `payload.get`.
pub record Claims : Type 0 where
  pub uid : Option String
  pub device_id : Option String
  pub type : Option String

-- The payload of a token that is made.
pub record Payload : Type 0 where
  pub sub : String
  pub claims : Claims
  pub iat : ℕ
  pub exp : ℕ

-- `jwt.encode` and `jwt.decode` with the secret of the settings, where `decode` has nothing if it
-- raises, `sha256(...).hexdigest()`, `pwd_context.hash` with its salt and `verify`, `str.lower`, and
-- `str` and `UUID` on identifiers.
pub record Libraries : Type 0 where
  pub encode : Payload → String
  pub decode : ℕ → String → Option Claims
  pub digest : String → String
  pub hash : ℕ → String → String
  pub verify : String → String → Bool
  pub lower : String → String
  pub uuid_text : ℕ → String
  pub read_uuid : String → Option ℕ

-- What is relied on: a token is not empty and is read as it was made until the whole second in which it expires, what
-- is read of a token does not depend on the time, a password fits its hash, and identifiers are read as they are written.
pub record IsLibraries (lib : Libraries) : Type 0 where
  pub decode-encode :
      (now : ℕ) (payload : Payload)
      → now + 1000000 ≤ payload.exp
      → lib.decode now (lib.encode payload) ≡ some payload.claims
  pub encode-not_empty : (payload : Payload) → str_eq (lib.encode payload) "" ≡ false
  -- Dates are written in whole seconds.
  pub encode-seconds :
      (sub : String) (claims : Claims) (iat exp exp' : ℕ)
      → exp / 1000000 ≡ exp' / 1000000
      → lib.encode record { sub = sub; claims = claims; iat = iat; exp = exp }
        ≡ lib.encode record { sub = sub; claims = claims; iat = iat; exp = exp' }
  pub decode-decode :
      (now later : ℕ) (token : String) (claims claims' : Claims)
      → lib.decode now token ≡ some claims
      → lib.decode later token ≡ some claims'
      → claims ≡ claims'
  pub read_uuid-uuid_text : (id : ℕ) → lib.read_uuid (lib.uuid_text id) ≡ some id
  pub verify-hash :
      (salt : ℕ) (password : String) → lib.verify password (lib.hash salt password) ≡ true
  pub uuid_text-not_empty : (id : ℕ) → str_eq (lib.uuid_text id) "" ≡ false

-- The settings that are read, in seconds.
pub record Settings : Type 0 where
  pub access_token_ttl_seconds : ℕ
  pub refresh_token_ttl_seconds : ℕ

-- `timedelta(seconds=...)`
abbrev pub seconds : ℕ → ℕ
seconds n = n * 1000000

abbrev pub text_is : Option String → String → Bool
text_is none given = false
text_is (some text) given = str_eq text given

-- `scalar_one_or_none`
pub scalar_one_or_none : {A : Type 0} → List A → Result (Option A)
scalar_one_or_none [] = ok none
scalar_one_or_none (x ∷ []) = ok (some x)
scalar_one_or_none (x ∷ y ∷ rows) = raise multiple_results_found

pub has_digest : String → Db → Bool
has_digest token_hash db = any (λ row. str_eq row.token_hash token_hash) db.refresh_tokens

-- `create` of refresh_tokens_repo.py, with the flush: the index of
-- Backend/alembic/versions/0001_init.py on `token_hash` is unique.
pub create_token : RefreshToken → Db → Result Db
create_token token db =
    if has_digest token.token_hash db
    then raise integrity_error
    else ok (record db { refresh_tokens = db.refresh_tokens ++ token ∷ [] })

pub is_valid : ℕ → String → String → ℕ → RefreshToken → Bool
is_valid user_id device_id token_hash now row =
    (row.user_id == user_id)
    && (str_eq row.device_id device_id
        && (str_eq row.token_hash token_hash && (not row.revoked && ltb now row.expires_at)))

pub find_valid : ℕ → String → String → ℕ → Db → Result (Option RefreshToken)
find_valid user_id device_id token_hash now db =
    scalar_one_or_none (select (is_valid user_id device_id token_hash now) db.refresh_tokens)

pub revoke_if : Bool → RefreshToken → RefreshToken
revoke_if true row = record row { revoked = true }
revoke_if false row = row

pub revoke : ℕ → Db → Db
revoke token_id db = record db {
  refresh_tokens = map (λ row. revoke_if (row.id == token_id) row) db.refresh_tokens;
}

pub revoke_device : ℕ → String → Db → Db
revoke_device user_id device_id db = record db {
  refresh_tokens =
      map (λ row. revoke_if ((row.user_id == user_id) && str_eq row.device_id device_id) row)
        db.refresh_tokens;
}

-- `get_by_email` and `get_by_id` of users_repo.py; both columns are keys of the table.
pub get_by_email : Libraries → String → Db → Option User
get_by_email lib email db =
    find (λ user. str_eq user.email (lib.lower email) && not user.deleted) db.users

pub get_by_id : ℕ → Db → Option User
get_by_id user_id db = find (λ user. (user.id == user_id) && not user.deleted) db.users

-- `create` of users_repo.py: the email is unique in the table.
pub create_row : User → Db → Result (User × Db)
create_row user db =
    if any (λ row. str_eq row.email user.email) db.users
    then raise integrity_error
    else ok (user, record db { users = db.users ++ user ∷ [] })
