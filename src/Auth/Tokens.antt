-- ===== src/Auth/Tokens.antt =====
-- Backend/app/services/auth_service.py, core/security.py and api/deps.py: making tokens, exchanging
-- refresh tokens, and finding the user of an access token.
pub mod Success
pub mod Rotation
pub mod Kinds
pub mod Digests
pub mod Accounts
use life_merge.Base.{
  ℕ, ◌+◌, ◌/◌, Bool, true, false, not, Option, none, some, List, String, str_eq, if◌then◌else◌,
}
use life_merge.Base.Result.{Result, ok, raise, refresh_error, http_error, ◌>>=◌}
use life_merge.Auth.{
  User, RefreshToken, Db, Claims, Payload, Libraries, Settings, seconds, text_is, create_token,
  find_valid, revoke, revoke_device, get_by_email, get_by_id, create_row, scalar_one_or_none,
  is_valid, revoke_if, has_digest,
}

unauthorized : {A : Type 0} → Result A
unauthorized = raise (http_error "401" "unauthorized")

found_user : Option User → Result User
found_user none = unauthorized
found_user (some user) = ok user

module _ (lib : Libraries) (settings : Settings) where
  -- `create_access_token`
  pub create_access_token : ℕ → String → String → String
  create_access_token now subject user_id = lib.encode record {
    sub = subject;
    claims = record { uid = some user_id; device_id = none; type = some "access" };
    iat = now / 1000000;
    exp = now + seconds settings.access_token_ttl_seconds;
  }

  -- `create_refresh_token`
  pub create_refresh_token : ℕ → String → String → String → String
  create_refresh_token now subject user_id device_id = lib.encode record {
    sub = subject;
    claims = record { uid = some user_id; device_id = some device_id; type = some "refresh" };
    iat = now / 1000000;
    exp = now + seconds settings.refresh_token_ttl_seconds;
  }

  -- The row of a refresh token that is made now.
  pub refresh_row : ℕ → ℕ → User → String → RefreshToken
  refresh_row now id user device_id = record {
    id = id;
    user_id = user.id;
    device_id = device_id;
    token_hash = lib.digest (create_refresh_token now user.email (lib.uuid_text user.id) device_id);
    revoked = false;
    expires_at = now + seconds settings.refresh_token_ttl_seconds;
  }

  -- `issue_tokens`; `id` is what `uuid4` draws for the row.
  pub issue_tokens : ℕ → ℕ → User → String → Db → Result ((String × String) × Db)
  issue_tokens now id user device_id db =
      let access = create_access_token now user.email (lib.uuid_text user.id) in
      let refresh = create_refresh_token now user.email (lib.uuid_text user.id) device_id in
      create_token (refresh_row now id user device_id) db >>= λ after. ok ((access, refresh), after)

  -- What follows once the row of the token is known.
  pub rotate :
      ℕ → ℕ → Db → String → Option User → RefreshToken → Result ((User × (String × String)) × Db)
  rotate now id db device_id none stored = raise (refresh_error "invalid_refresh")
  rotate now id db device_id (some user) stored =
      issue_tokens now id user device_id (revoke stored.id db) >>= λ issued.
      ok ((user, issued.0), issued.1)

  pub refresh_stored :
      ℕ → ℕ → Db → String → ℕ → Option RefreshToken → Result ((User × (String × String)) × Db)
  refresh_stored now id db device_id uid none = raise (refresh_error "invalid_refresh")
  refresh_stored now id db device_id uid (some stored) =
      rotate now id db device_id (get_by_id uid db) stored

  pub refresh_user :
      ℕ → ℕ → Db → String → String → Option ℕ → Result ((User × (String × String)) × Db)
  refresh_user now id db token device_id none = raise (refresh_error "invalid_refresh")
  refresh_user now id db token device_id (some uid) =
      find_valid uid device_id (lib.digest token) now db >>= λ stored.
      refresh_stored now id db device_id uid stored

  pub refresh_uid :
      ℕ → ℕ → Db → String → String → Option String → Result ((User × (String × String)) × Db)
  refresh_uid now id db token device_id none = raise (refresh_error "invalid_refresh")
  refresh_uid now id db token device_id (some raw_uid) =
      if str_eq raw_uid ""
      then raise (refresh_error "invalid_refresh")
      else refresh_user now id db token device_id (lib.read_uuid raw_uid)

  pub refresh_claims :
      ℕ → ℕ → Db → String → String → Option Claims → Result ((User × (String × String)) × Db)
  refresh_claims now id db token device_id none = raise (refresh_error "invalid_refresh")
  refresh_claims now id db token device_id (some claims) =
      if not (text_is claims.type "refresh")
      then raise (refresh_error "invalid_refresh")
      else (if not (text_is claims.device_id device_id)
          then raise (refresh_error "refresh_invalid_device")
          else refresh_uid now id db token device_id claims.uid)

  -- `refresh_tokens`, with the tables that it leaves where it returns.
  pub refresh_tokens : ℕ → ℕ → String → String → Db → Result ((User × (String × String)) × Db)
  refresh_tokens now id token device_id db =
      refresh_claims now id db token device_id (lib.decode now token)

module _ (lib : Libraries) where
  user_of : Db → Option ℕ → Result User
  user_of db none = unauthorized
  user_of db (some uid) = found_user (get_by_id uid db)

  user_of_uid : Db → Option String → Result User
  user_of_uid db none = unauthorized
  user_of_uid db (some raw_uid) =
      if str_eq raw_uid "" then unauthorized else user_of db (lib.read_uuid raw_uid)

  user_of_claims : Db → Option Claims → Result User
  user_of_claims db none = unauthorized
  user_of_claims db (some claims) =
      if not (text_is claims.type "access") then unauthorized else user_of_uid db claims.uid

  -- `get_current_user` of api/deps.py, from the credentials of the bearer scheme.
  pub get_current_user : ℕ → Db → Option String → Result User
  get_current_user now db none = unauthorized
  get_current_user now db (some credentials) =
      if str_eq credentials "" then unauthorized else user_of_claims db (lib.decode now credentials)

  -- `create_user`
  pub create_user : ℕ → ℕ → String → String → Option String → String → Db → Result (User × Db)
  create_user id salt email password full_name timezone db =
      create_row
        record {
          id = id;
          email = lib.lower email;
          password_hash = lib.hash salt password;
          full_name = full_name;
          timezone = timezone;
          deleted = false;
        }
        db

  verified : String → Option User → Option User
  verified password none = none
  verified password (some user) = if lib.verify password user.password_hash then some user else none

  -- `authenticate_user`
  pub authenticate_user : String → String → Db → Option User
  authenticate_user email password db = verified password (get_by_email lib email db)

-- `revoke_device_tokens`
pub revoke_device_tokens : User → String → Db → Db
revoke_device_tokens user device_id db = revoke_device user.id device_id db

-- What a run unfolds.
unfoldable pub tokens_program : Unit {0}
unfolding create_access_token create_refresh_token refresh_row issue_tokens rotate refresh_stored
    refresh_user refresh_uid refresh_claims refresh_tokens unauthorized found_user user_of
    user_of_uid user_of_claims get_current_user create_user verified authenticate_user
    revoke_device_tokens find_valid scalar_one_or_none is_valid has_digest create_token revoke
    revoke_if revoke_device get_by_id get_by_email create_row
tokens_program = tt
