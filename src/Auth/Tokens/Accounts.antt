-- ===== src/Auth/Tokens/Accounts.antt =====
-- Accounts that are made and found again (Backend/app/services/auth_service.py).
use life_merge.Base.{
  ℕ, ◌≡◌, refl, sym, ap, ◌∙◌, Bool, true, false, not, ◌&&◌, Option, none, some, List, [], ◌∷◌, ◌++◌,
  String, str_eq, arith, find, any, inl, inr, Bool-cases,
}
use life_merge.Base.Result.{Result, ok, raise, integrity_error, ok_inj}
use life_merge.Auth.{User, Db, Libraries, IsLibraries, get_by_email, create_row, Settings}
use life_merge.Auth.Tokens.{create_user, authenticate_user, verified, issue_tokens}
use life_merge.Auth.Tokens.Success.{issue_tokens-ok}
use life_merge.Base.Texts.{str_eq_refl}

find-append :
    {A : Type 0} (p : A → Bool) (xs : List A) (y : A)
    → find p xs ≡ none
    → p y ≡ true
    → find p (xs ++ y ∷ []) ≡ some y
find-append p [] y h k = ground arith
find-append p (x ∷ xs) y h k = elim (Bool-cases (p x)) [
  | inl e ↦ let no : some x ≡ none = rw e at h in cc
  | inr e ↦ rw e (find-append p xs y (rw e at h) k)
]

-- The row that `create_user` makes.
abbrev account : Libraries → ℕ → ℕ → String → String → Option String → String → User
account lib id salt email password full_name timezone = record {
  id = id;
  email = lib.lower email;
  password_hash = lib.hash salt password;
  full_name = full_name;
  timezone = timezone;
  deleted = false;
}

verified-account :
    (lib : Libraries)
    → IsLibraries lib
    → (id salt : ℕ) (email password : String) (full_name : Option String) (timezone : String)
    → verified lib password (some (account lib id salt email password full_name timezone))
      ≡ some (account lib id salt email password full_name timezone)
unfolding verified
verified-account lib law id salt email password full_name timezone =
    rw (law.verify-hash salt password) refl

pub users-issue_tokens :
    (lib : Libraries) (settings : Settings) (now id : ℕ) (user : User) (device_id : String)
    (db : Db) (issued : (String × String) × Db)
    → issue_tokens lib settings now id user device_id db ≡ ok issued
    → issued.1.users ≡ db.users
users-issue_tokens lib settings now id user device_id db issued h =
    ap (λ i. i.1.users) (sym (issue_tokens-ok lib settings now id user device_id db issued h).1)

-- An account that is made is found by its email and password in any tables with its users.
pub authenticate_user-create_user :
    (lib : Libraries)
    → IsLibraries lib
    → (id salt : ℕ) (email password : String) (full_name : Option String) (timezone : String)
      (db : Db) (user : User) (db' : Db)
    → get_by_email lib email db ≡ none
    → create_user lib id salt email password full_name timezone db ≡ ok (user, db')
    → (after : Db) → after.users ≡ db'.users
    → authenticate_user lib email password after ≡ some user
unfolding create_user create_row authenticate_user get_by_email verified
authenticate_user-create_user lib law id salt email password full_name timezone db user db' free h
      after same =
    elim (Bool-cases (any (λ row. str_eq row.email (lib.lower email)) db.users)) [
      | inl e ↦
          let no : ◌≡◌ {A = Result (User × Db)} (raise integrity_error) (ok (user, db')) =
            rw e at h in
          cc
      | inr e ↦
          let made = ok_inj (rw e at h) in
          let active : User → Bool = λ row. str_eq row.email (lib.lower email) && not row.deleted in
          let new = account lib id salt email password full_name timezone in
          ap (λ users. verified lib password (find active users))
            (same ∙ sym (ap (λ p. p.1.users) made))
          ∙ ap (verified lib password)
              (find-append active db.users new free (ground (arith, str_eq_refl (lib.lower email))))
          ∙ verified-account lib law id salt email password full_name timezone
          ∙ ap some (ap (λ p. p.0) made)
    ]
