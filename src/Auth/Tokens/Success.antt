-- ===== src/Auth/Tokens/Success.antt =====
-- What exchanging a refresh token requires and leaves (Backend/app/services/auth_service.py).
use life_merge.Base.{
  ℕ, ◌≡◌, refl, ap, ◌∙◌, ◌++◌, inl, inr, Bool, true, false, Option, none, some, List, [], ◌∷◌,
  String, str_eq, arith, select, Bool-cases, some_eq, All, All-map,
}
use life_merge.Base.Result.{
  Result, ok, raise, refresh_error, integrity_error, ok_inj, >>=-eq-ok, ◌>>=◌,
}
use life_merge.Auth.{
  User, RefreshToken, Db, Claims, Libraries, Settings, text_is, find_valid, revoke, get_by_id,
  scalar_one_or_none, has_digest, create_token,
}
use life_merge.Auth.Tokens.{
  create_access_token, create_refresh_token, refresh_row, issue_tokens, rotate, refresh_stored,
  refresh_user, refresh_uid, refresh_claims, refresh_tokens,
}

module _ {A : Type 0} where
  pub select-none : (p : A → Bool) (xs : List A) → select p xs ≡ [] → All (λ x. p x ≡ false) xs
  select-none p [] h = tt
  select-none p (x ∷ xs) h = elim (Bool-cases (p x)) [
    | inl e ↦ let some_left : x ∷ select p xs ≡ [] = rw e at h in cc
    | inr e ↦ (e, select-none p xs (rw e at h))
  ]

  -- If one entry is selected, each entry that passes the test is that one.
  pub select-one :
      (p : A → Bool) (y : A) (xs : List A) → select p xs ≡ y ∷ [] → All (λ x. p x ≡ true → x ≡ y) xs
  select-one p y [] h = tt
  select-one p y (x ∷ xs) h = elim (Bool-cases (p x)) [
    | inl e ↦
        let both : x ∷ select p xs ≡ y ∷ [] = rw e at h in
        let none_left : select p xs ≡ [] = cc in
        (
          (λ k. cc),
          All-map (λ z. p z ≡ false) _ (λ z f k. ground arith) xs (select-none p xs none_left),
        )
    | inr e ↦ ((λ k. ground arith), select-one p y xs (rw e at h))
  ]

  pub scalar_one-select : (xs : List A) (y : A) → scalar_one_or_none xs ≡ ok (some y) → xs ≡ y ∷ []
  unfolding scalar_one_or_none
  scalar_one-select [] y h = cc
  scalar_one-select (x ∷ []) y h = ap (λ z. z ∷ []) (some_eq (ok_inj h))
  scalar_one-select (x ∷ x' ∷ xs) y h = cc

-- What issuing tokens gives where the digest of the refresh token is new.
abbrev pub issued_of : Libraries → Settings → ℕ → ℕ → User → String → Db → (String × String) × Db
issued_of lib settings now id user device_id db = (
  (
    create_access_token lib settings now user.email (lib.uuid_text user.id),
    create_refresh_token lib settings now user.email (lib.uuid_text user.id) device_id,
  ),
  record db {
    refresh_tokens = db.refresh_tokens ++ refresh_row lib settings now id user device_id ∷ [];
  },
)

module _ (lib : Libraries) (settings : Settings) (now id : ℕ) (user : User) (device_id : String)
    (db : Db) where
  pub issue_tokens-free :
      has_digest (refresh_row lib settings now id user device_id).token_hash db ≡ false
      → issue_tokens lib settings now id user device_id db
        ≡ ok (issued_of lib settings now id user device_id db)
  unfolding issue_tokens create_token
  issue_tokens-free free = rw free refl

  pub issue_tokens-ok :
      (issued : (String × String) × Db)
      → issue_tokens lib settings now id user device_id db ≡ ok issued
      → (has_digest (refresh_row lib settings now id user device_id).token_hash db ≡ false)
        × (issued_of lib settings now id user device_id db ≡ issued)
  unfolding issue_tokens create_token
  issue_tokens-ok issued h =
      elim (Bool-cases
        (has_digest (refresh_row lib settings now id user device_id).token_hash db)) [
          | inl e ↦
              let no : ◌≡◌ {A = Result ((String × String) × Db)} (raise integrity_error)
                  (ok issued) =
                rw e at h in
              cc
          | inr e ↦ (e, ok_inj (rw e at h))
        ]

-- What an exchange that succeeds has gone through.
pub record Refreshed (lib : Libraries) (settings : Settings) (now id : ℕ) (token device_id : String)
    (db : Db) (out : (User × (String × String)) × Db) : Type 0 where
  pub claims : Claims
  pub decoded : lib.decode now token ≡ some claims
  pub typed : text_is claims.type "refresh" ≡ true
  pub device : text_is claims.device_id device_id ≡ true
  pub raw_uid : String
  pub has_uid : claims.uid ≡ some raw_uid
  pub not_empty : str_eq raw_uid "" ≡ false
  pub uid : ℕ
  pub read : lib.read_uuid raw_uid ≡ some uid
  pub stored : RefreshToken
  pub found : find_valid uid device_id (lib.digest token) now db ≡ ok (some stored)
  pub user : User
  pub user_found : get_by_id uid db ≡ some user
  pub issued :
      (
        (user, (issued_of lib settings now id user device_id (revoke stored.id db)).0),
        (issued_of lib settings now id user device_id (revoke stored.id db)).1,
      )
      ≡ out

module _ (lib : Libraries) (settings : Settings) (now id : ℕ) (token device_id : String) (db : Db)
    (out : (User × (String × String)) × Db) where
  rotated :
      (user : User) (db' : Db)
      → (issue_tokens lib settings now id user device_id db' >>= λ issued.
          ok ((user, issued.0), issued.1))
        ≡ ok out
      → (
        (user, (issued_of lib settings now id user device_id db').0),
        (issued_of lib settings now id user device_id db').1,
      )
        ≡ out
  rotated user db' h =
      let (issued, f, g) =
        >>=-eq-ok (issue_tokens lib settings now id user device_id db')
          (λ issued. ok ((user, issued.0), issued.1)) h in
      ap (λ i. ((user, i.0), i.1))
        (issue_tokens-ok lib settings now id user device_id db' issued f).1
      ∙ ok_inj g

  Refreshed-stored :
      (claims : Claims)
      → lib.decode now token ≡ some claims
      → text_is claims.type "refresh" ≡ true
      → text_is claims.device_id device_id ≡ true
      → (raw_uid : String) → claims.uid ≡ some raw_uid
      → str_eq raw_uid "" ≡ false
      → (uid : ℕ) → lib.read_uuid raw_uid ≡ some uid
      → (o : Option RefreshToken) → find_valid uid device_id (lib.digest token) now db ≡ ok o
      → (u : Option User) → get_by_id uid db ≡ u
      → refresh_stored lib settings now id db device_id uid o ≡ ok out
      → Refreshed lib settings now id token device_id db out
  unfolding refresh_stored rotate
  Refreshed-stored claims decoded typed device raw_uid has_uid not_empty uid read none f u g h = cc
  Refreshed-stored claims decoded typed device raw_uid has_uid not_empty uid read (some stored) f
        none g h =
      let no : raise (refresh_error "invalid_refresh") ≡ ok out = rw g at h in cc
  Refreshed-stored claims decoded typed device raw_uid has_uid not_empty uid read (some stored) f
        (some user) g h =
      record {
        claims = claims;
        decoded = decoded;
        typed = typed;
        device = device;
        raw_uid = raw_uid;
        has_uid = has_uid;
        not_empty = not_empty;
        uid = uid;
        read = read;
        stored = stored;
        found = f;
        user = user;
        user_found = g;
        issued = rotated user (revoke stored.id db) (rw g at h);
      }

  Refreshed-user :
      (claims : Claims)
      → lib.decode now token ≡ some claims
      → text_is claims.type "refresh" ≡ true
      → text_is claims.device_id device_id ≡ true
      → (raw_uid : String) → claims.uid ≡ some raw_uid
      → str_eq raw_uid "" ≡ false
      → (u : Option ℕ) → lib.read_uuid raw_uid ≡ u
      → refresh_user lib settings now id db token device_id u ≡ ok out
      → Refreshed lib settings now id token device_id db out
  unfolding refresh_user
  Refreshed-user claims decoded typed device raw_uid has_uid not_empty none read h = cc
  Refreshed-user claims decoded typed device raw_uid has_uid not_empty (some uid) read h =
      let (stored, f, g) =
        >>=-eq-ok (find_valid uid device_id (lib.digest token) now db)
          (λ stored. refresh_stored lib settings now id db device_id uid stored) h in
      Refreshed-stored claims decoded typed device raw_uid has_uid not_empty uid read stored f
        (get_by_id uid db) refl g

  Refreshed-uid :
      (claims : Claims)
      → lib.decode now token ≡ some claims
      → text_is claims.type "refresh" ≡ true
      → text_is claims.device_id device_id ≡ true
      → (u : Option String) → claims.uid ≡ u
      → refresh_uid lib settings now id db token device_id u ≡ ok out
      → Refreshed lib settings now id token device_id db out
  unfolding refresh_uid
  Refreshed-uid claims decoded typed device none has_uid h = cc
  Refreshed-uid claims decoded typed device (some raw_uid) has_uid h =
      elim (Bool-cases (str_eq raw_uid "")) [
        | inl e ↦ let no : raise (refresh_error "invalid_refresh") ≡ ok out = rw e at h in cc
        | inr e ↦
            Refreshed-user claims decoded typed device raw_uid has_uid e (lib.read_uuid raw_uid)
              refl (rw e at h)
      ]

  Refreshed-claims :
      (c : Option Claims)
      → lib.decode now token ≡ c
      → refresh_claims lib settings now id db token device_id c ≡ ok out
      → Refreshed lib settings now id token device_id db out
  unfolding refresh_claims
  Refreshed-claims none decoded h = cc
  Refreshed-claims (some claims) decoded h = elim (Bool-cases (text_is claims.type "refresh")) [
    | inr e ↦ let no : raise (refresh_error "invalid_refresh") ≡ ok out = rw e at h in cc
    | inl typed ↦ elim (Bool-cases (text_is claims.device_id device_id)) [
      | inr e ↦
          let no : raise (refresh_error "refresh_invalid_device") ≡ ok out = rw (typed, e) at h in
          cc
      | inl device ↦
          Refreshed-uid claims decoded typed device claims.uid refl (rw (typed, device) at h)
    ]
  ]

  pub refreshed :
      refresh_tokens lib settings now id token device_id db ≡ ok out
      → Refreshed lib settings now id token device_id db out
  unfolding refresh_tokens
  refreshed h = Refreshed-claims (lib.decode now token) refl h
