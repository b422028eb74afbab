-- ===== src/Auth/Routes.antt =====
-- Backend/app/api/v1/auth.py: signing up, logging in, exchanging a refresh token, and logging out.
-- Log lines and events are left out, as are the rate limits, which are in RateLimit.
use life_merge.Base.{
  ℕ, false, ◌≡◌, refl, sym, ap, ◌∙◌, Option, none, some, String, str_eq, if◌then◌else◌, inl, inr,
}
use life_merge.Base.Result.{
  Result, ok, raise, Error, integrity_error, refresh_error, http_error, ◌>>=◌, ok_inj, >>=-eq-ok,
  Result-cases,
}
use life_merge.Auth.{User, Db, Libraries, IsLibraries, Settings, get_by_email, has_digest}
use life_merge.Auth.Tokens.{
  refresh_row, issue_tokens, refresh_tokens, create_user, authenticate_user, revoke_device_tokens,
}
use life_merge.Auth.Tokens.Success.{issued_of, issue_tokens-free}
use life_merge.Auth.Tokens.Accounts.{authenticate_user-create_user, users-issue_tokens}

-- A user with an access and a refresh token, and the tables.
abbrev pub AuthOut : Type 0
AuthOut = Result ((User × (String × String)) × Db)

-- `except IntegrityError`
on_conflict : Error → Error
on_conflict integrity_error = http_error "409" "user_exists"
on_conflict e = e

-- `except RefreshError as e`
on_refresh_error : Error → Error
on_refresh_error (refresh_error code) = http_error "401" code
on_refresh_error e = e

except : {A : Type 0} → (Error → Error) → Result A → Result A
except handler (ok a) = ok a
except handler (raise e) = raise (handler e)

-- `x_device_id or "default"`
device_or_default : Option String → String
device_or_default none = "default"
device_or_default (some device_id) = if str_eq device_id "" then "default" else device_id

module _ (lib : Libraries) (settings : Settings) where
  with_tokens : ℕ → ℕ → String → User → Db → AuthOut
  with_tokens now token_id device_id user db =
      issue_tokens lib settings now token_id user device_id db >>= λ issued.
      ok ((user, issued.0), issued.1)

  signup_new :
      ℕ
      → ℕ
      → ℕ
      → ℕ
      → String
      → String
      → Option String
      → String
      → Option String
      → Db
      → Option User
      → AuthOut
  signup_new now id token_id salt email password full_name timezone x_device_id db (some user) =
      raise (http_error "409" "user_exists")
  signup_new now id token_id salt email password full_name timezone x_device_id db none =
      except on_conflict (
        create_user lib id salt email password full_name timezone db >>= λ created.
        with_tokens now token_id (device_or_default x_device_id) created.0 created.1)

  -- `signup`; `id` and `token_id` are drawn by `uuid4`.
  pub signup :
      ℕ → ℕ → ℕ → ℕ → String → String → Option String → String → Option String → Db → AuthOut
  signup now id token_id salt email password full_name timezone x_device_id db =
      signup_new now id token_id salt email password full_name timezone x_device_id db
        (get_by_email lib email db)

  login_user : ℕ → ℕ → String → Db → Option User → AuthOut
  login_user now token_id device_id db none = raise (http_error "401" "invalid_credentials")
  login_user now token_id device_id db (some user) = with_tokens now token_id device_id user db

  -- `login`
  pub login : ℕ → ℕ → String → String → String → Db → AuthOut
  login now token_id email password device_id db =
      login_user now token_id device_id db (authenticate_user lib email password db)

  -- `refresh`
  pub refresh : ℕ → ℕ → String → String → Db → AuthOut
  refresh now token_id refresh_token device_id db =
      except on_refresh_error (refresh_tokens lib settings now token_id refresh_token device_id db)

-- `logout`, of the user that the access token names.
pub logout : User → String → Db → Db
logout current_user device_id db = revoke_device_tokens current_user device_id db

except-ok :
    {A : Type 0} (handler : Error → Error) (call : Result A) (out : A)
    → except handler call ≡ ok out
    → call ≡ ok out
unfolding except
except-ok handler (ok a) out h = h
except-ok handler (raise e) out h = cc

signup_new-ok :
    (lib : Libraries)
    → IsLibraries lib
    → (settings : Settings) (now id token_id salt : ℕ) (email password : String)
      (full_name : Option String) (timezone : String) (x_device_id : Option String) (db : Db)
      (out : (User × (String × String)) × Db)
    → (existing : Option User) → get_by_email lib email db ≡ existing
    → signup_new lib settings now id token_id salt email password full_name timezone x_device_id db
        existing
      ≡ ok out
    → authenticate_user lib email password out.1 ≡ some out.0.0
unfolding signup_new except with_tokens
signup_new-ok lib law settings now id token_id salt email password full_name timezone x_device_id db
      out (some user) existing h =
    cc
signup_new-ok lib law settings now id token_id salt email password full_name timezone x_device_id db
      out none existing h =
    elim (Result-cases (create_user lib id salt email password full_name timezone db)) [
      | inl ((user, db'), e) ↦
          let device_id = device_or_default x_device_id in
          let call : with_tokens lib settings now token_id device_id user db' ≡ ok out =
            except-ok on_conflict (with_tokens lib settings now token_id device_id user db') out
              (rw e at h) in
          let (issued, f, g) =
            >>=-eq-ok (issue_tokens lib settings now token_id user device_id db') _ call in
          authenticate_user-create_user lib law id salt email password full_name timezone db user
            db' existing e out.1
            (ap (λ o. o.1.users) (sym (ok_inj g))
              ∙ users-issue_tokens lib settings now token_id user device_id db' issued f)
          ∙ ap some (ap (λ o. o.0.0) (ok_inj g))
      | inr (error, e) ↦ let no : raise (on_conflict error) ≡ ok out = rw (e, except) at h in cc
    ]

-- Whoever has signed up can log in with the same email and password, at any later time and on any
-- device, and is given the same account, provided that no row has the digest of the new refresh token,
-- as it has on the same device within the second of signing up.
pub login-signup :
    (lib : Libraries)
    → IsLibraries lib
    → (settings : Settings) (now id token_id salt : ℕ) (email password : String)
      (full_name : Option String) (timezone : String) (x_device_id : Option String) (db : Db)
      (out : (User × (String × String)) × Db)
    → signup lib settings now id token_id salt email password full_name timezone x_device_id db
      ≡ ok out
    → (later token_id' : ℕ) (device_id : String)
    → has_digest (refresh_row lib settings later token_id' out.0.0 device_id).token_hash out.1
      ≡ false
    → (issued : (String × String) × Db) × (issue_tokens lib settings later token_id' out.0.0
          device_id out.1
        ≡ ok issued)
      × (login lib settings later token_id' email password device_id out.1
          ≡ ok ((out.0.0, issued.0), issued.1))
unfolding login login_user with_tokens signup
login-signup lib law settings now id token_id salt email password full_name timezone x_device_id db
      out h later token_id' device_id free =
    let made = issue_tokens-free lib settings later token_id' out.0.0 device_id out.1 free in
    (
      issued_of lib settings later token_id' out.0.0 device_id out.1,
      made,
      rw
          (
            signup_new-ok lib law settings now id token_id salt email password full_name timezone
                x_device_id db out (get_by_email lib email db) refl h,
            made,
          )
          refl,
    )

-- What a run unfolds, with the tokens.
unfoldable pub routes_program : Unit {0}
unfolding signup signup_new login login_user refresh logout except on_conflict on_refresh_error
    device_or_default with_tokens
routes_program = tt
