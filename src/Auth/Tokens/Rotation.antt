-- ===== src/Auth/Tokens/Rotation.antt =====
-- What the exchange of a refresh token leaves, and what logging out does
-- (Backend/app/services/auth_service.py).
use life_merge.Base.{
  ℕ, ◌≤◌, ◌≡◌, ◌≢◌, refl, sym, ap, ◌∙◌, inl, inr, Bool, true, false, not, ◌&&◌, none, some, List,
  [], ◌∷◌, ◌++◌, map, String, str_eq, arith, ◌==◌, ==_iff, select, find, Bool-cases, Option-cases,
  some_eq, and_true, All,
}
use life_merge.Base.Result.{ok, raise, refresh_error, ok_inj}
use life_merge.Auth.{
  User, RefreshToken, Db, Libraries, IsLibraries, Settings, is_valid, find_valid, revoke, revoke_if,
  revoke_device, get_by_id, scalar_one_or_none,
}
use life_merge.Auth.Tokens.{
  refresh_row, refresh_stored, refresh_user, refresh_uid, refresh_claims, refresh_tokens,
  revoke_device_tokens,
}
use life_merge.Auth.Tokens.Success.{refreshed, issued_of, select-one, scalar_one-select}
use life_merge.Base.Texts.{str_eq-false}

is_valid-revoke_true :
    (user_id : ℕ) (device_id token_hash : String) (later : ℕ) (row : RefreshToken)
    → is_valid user_id device_id token_hash later (revoke_if true row) ≡ false
unfolding is_valid revoke_if
is_valid-revoke_true user_id device_id token_hash later row = ground arith

is_valid-later :
    (user_id : ℕ) (device_id token_hash : String) (now later : ℕ)
    → now ≤ later
    → (row : RefreshToken) → is_valid user_id device_id token_hash now row ≡ false
    → is_valid user_id device_id token_hash later row ≡ false
unfolding is_valid
is_valid-later user_id device_id token_hash now later after row h = ground arith

is_valid-keep :
    (user_id : ℕ) (device_id token_hash : String) (later : ℕ) (b : Bool) (row : RefreshToken)
    → is_valid user_id device_id token_hash later row ≡ false
    → is_valid user_id device_id token_hash later (revoke_if b row) ≡ false
unfolding revoke_if
is_valid-keep user_id device_id token_hash later true row h =
    is_valid-revoke_true user_id device_id token_hash later row
is_valid-keep user_id device_id token_hash later false row h = h

-- The one valid row is revoked by its identifier.
is_valid-revoked :
    (user_id : ℕ) (device_id token_hash : String) (now later : ℕ)
    → now ≤ later
    → (stored row : RefreshToken)
    → (is_valid user_id device_id token_hash now row ≡ true → row ≡ stored)
    → is_valid user_id device_id token_hash later (revoke_if (row.id == stored.id) row) ≡ false
is_valid-revoked user_id device_id token_hash now later after stored row only =
    elim (Bool-cases (is_valid user_id device_id token_hash now row)) [
      | inl e ↦
          let same : (row.id == stored.id) ≡ true =
            (==_iff row.id stored.id).1 (ap (λ r. r.id) (only e)) in
          rw same (is_valid-revoke_true user_id device_id token_hash later row)
      | inr e ↦
          is_valid-keep user_id device_id token_hash later (row.id == stored.id) row
            (is_valid-later user_id device_id token_hash now later after row e)
    ]

select-revoked :
    (user_id : ℕ) (device_id token_hash : String) (now later : ℕ)
    → now ≤ later
    → (stored : RefreshToken) (rows : List RefreshToken) (new : RefreshToken)
    → All (λ row. is_valid user_id device_id token_hash now row ≡ true → row ≡ stored) rows
    → str_eq new.token_hash token_hash ≡ false
    → select
        (is_valid user_id device_id token_hash later)
        (map (λ row. revoke_if (row.id == stored.id) row) rows ++ new ∷ [])
      ≡ []
unfolding is_valid
select-revoked user_id device_id token_hash now later after stored [] new only other =
    ground (arith, other)
select-revoked user_id device_id token_hash now later after stored (row ∷ rows) new only other =
    rw (is_valid-revoked user_id device_id token_hash now later after stored row only.0)
      (select-revoked user_id device_id token_hash now later after stored rows new only.1 other)

scalar_one-none : scalar_one_or_none {A = RefreshToken} [] ≡ ok none
unfolding scalar_one_or_none
scalar_one-none = refl

-- After the exchange no row is valid for the old token.
find_valid-issued :
    (lib : Libraries) (settings : Settings) (now id : ℕ) (user : User) (uid : ℕ)
    (device_id token_hash : String) (db : Db) (stored : RefreshToken)
    → find_valid uid device_id token_hash now db ≡ ok (some stored)
    → lib.digest (issued_of lib settings now id user device_id (revoke stored.id db)).0.1
      ≢ token_hash
    → (later : ℕ) → now ≤ later
    → find_valid uid device_id token_hash later
        (issued_of lib settings now id user device_id (revoke stored.id db)).1
      ≡ ok none
unfolding find_valid revoke refresh_row
find_valid-issued lib settings now id user uid device_id token_hash db stored found other later
      after =
    let row =
      select-one (is_valid uid device_id token_hash now) stored db.refresh_tokens
        (scalar_one-select _ stored found) in
    ap scalar_one_or_none (
      select-revoked uid device_id token_hash now later after stored db.refresh_tokens
        (refresh_row lib settings now id user device_id) row (str_eq-false _ _ other))
    ∙ scalar_one-none

-- Once a refresh token has been exchanged it is refused from then on, provided that the digest of the
-- new token is another one.
pub refresh_tokens-once :
    (lib : Libraries)
    → IsLibraries lib
    → (settings : Settings) (now id : ℕ) (token device_id : String) (db : Db) (user : User)
      (access refresh : String) (db' : Db)
    → refresh_tokens lib settings now id token device_id db ≡ ok ((user, (access, refresh)), db')
    → lib.digest refresh ≢ lib.digest token
    → (later id' : ℕ) → now ≤ later
    → refresh_tokens lib settings later id' token device_id db'
      ≡ raise (refresh_error "invalid_refresh")
unfolding refresh_tokens refresh_claims refresh_uid refresh_user refresh_stored
refresh_tokens-once lib law settings now id token device_id db user access refresh db' h other later
      id' after =
    let r = refreshed lib settings now id token device_id db ((user, (access, refresh)), db') h in
    elim (Option-cases (lib.decode later token)) [
      | inl e ↦ rw e refl
      | inr (claims, e) ↦
          let same : claims ≡ r.claims =
            sym (law.decode-decode now later token r.claims claims r.decoded e) in
          rw
            (
              e,
              same,
              r.typed,
              r.device,
              r.has_uid,
              r.not_empty,
              r.read,
              sym (ap (λ o. o.1) r.issued),
              find_valid-issued lib settings now id r.user r.uid device_id (lib.digest token) db
                  r.stored r.found (λ k. other (ap (λ o. lib.digest o.0.1.1) (sym r.issued) ∙ k))
                  later after,
            )
            refl
    ]

is_valid-other :
    (user_id : ℕ) (device_id token_hash : String) (now : ℕ) (row : RefreshToken)
    → ((row.user_id == user_id) && str_eq row.device_id device_id) ≡ false
    → is_valid user_id device_id token_hash now (revoke_if false row) ≡ false
unfolding is_valid revoke_if
is_valid-other user_id device_id token_hash now row h = ground arith

is_valid-logout :
    (user_id : ℕ) (device_id token_hash : String) (now : ℕ) (row : RefreshToken)
    → is_valid user_id device_id token_hash now
        (revoke_if ((row.user_id == user_id) && str_eq row.device_id device_id) row)
      ≡ false
is_valid-logout user_id device_id token_hash now row =
    elim (Bool-cases ((row.user_id == user_id) && str_eq row.device_id device_id)) [
      | inl e ↦ rw e (is_valid-revoke_true user_id device_id token_hash now row)
      | inr e ↦ rw e (is_valid-other user_id device_id token_hash now row e)
    ]

select-logout :
    (user_id : ℕ) (device_id token_hash : String) (now : ℕ) (rows : List RefreshToken)
    → select (is_valid user_id device_id token_hash now) (
        map
          (λ row. revoke_if ((row.user_id == user_id) && str_eq row.device_id device_id) row)
          rows)
      ≡ []
select-logout user_id device_id token_hash now [] = refl
select-logout user_id device_id token_hash now (row ∷ rows) =
    rw (is_valid-logout user_id device_id token_hash now row)
      (select-logout user_id device_id token_hash now rows)

find_valid-logout :
    (user_id : ℕ) (device_id token_hash : String) (now : ℕ) (db : Db)
    → find_valid user_id device_id token_hash now (revoke_device user_id device_id db) ≡ ok none
unfolding find_valid revoke_device
find_valid-logout user_id device_id token_hash now db =
    ap scalar_one_or_none (select-logout user_id device_id token_hash now db.refresh_tokens)
    ∙ scalar_one-none

-- A user that is found has the identifier that was asked for.
find-id :
    (uid : ℕ) (users : List User) (user : User)
    → find (λ row. (row.id == uid) && not row.deleted) users ≡ some user
    → user.id ≡ uid
find-id uid [] user h = cc
find-id uid (row ∷ users) user h = elim (Bool-cases ((row.id == uid) && not row.deleted)) [
  | inl e ↦
      let same : row ≡ user = some_eq (rw e at h) in
      ap (λ u. u.id) (sym same) ∙ (==_iff row.id uid).0 (and_true _ _ e).0
  | inr e ↦ find-id uid users user (rw e at h)
]

-- After a user has logged out of a device, no exchange with that device gives tokens of the user,
-- whatever token is presented.
pub refresh_tokens-revoke_device_tokens :
    (lib : Libraries) (settings : Settings) (user : User) (now id : ℕ) (token device_id : String)
    (db : Db) (out : (User × (String × String)) × Db)
    → refresh_tokens lib settings now id token device_id (revoke_device_tokens user device_id db)
      ≡ ok out
    → out.0.0.id ≢ user.id
unfolding revoke_device_tokens get_by_id
refresh_tokens-revoke_device_tokens lib settings user now id token device_id db out h same =
    let r =
      refreshed lib settings now id token device_id (revoke_device user.id device_id db) out h in
    let uid : r.uid ≡ user.id =
      sym (find-id r.uid _ r.user r.user_found) ∙ ap (λ o. o.0.0.id) r.issued ∙ same in
    let gone : find_valid r.uid device_id (lib.digest token) now
          (revoke_device user.id device_id db)
        ≡ ok none =
      rw uid (find_valid-logout user.id device_id (lib.digest token) now db) in
    let no : ok (some r.stored) ≡ ok none = sym r.found ∙ gone in
    let none_left : some r.stored ≡ none = ok_inj no in cc
