-- ===== src/Auth/Tokens/Kinds.antt =====
-- What the two tokens that are issued are good for (Backend/app/services/auth_service.py and
-- api/deps.py).
use life_merge.Base.{
  ℕ, ◌+◌, ◌≤◌, ◌<◌, ◌/◌, ◌≡◌, ◌≢◌, refl, sym, true, false, none, some, String, arith, ◌∙◌, subst,
}
use life_merge.Base.Result.{ok, raise, refresh_error, http_error, ◌>>=◌}
use life_merge.Auth.{
  User, Db, Payload, Libraries, IsLibraries, Settings, seconds, is_valid, revoke, get_by_id,
  has_digest,
}
use life_merge.Auth.Tokens.{
  refresh_row, issue_tokens, rotate, refresh_stored, refresh_user, refresh_uid, refresh_claims,
  refresh_tokens, create_refresh_token, create_access_token, get_current_user, user_of_claims,
  user_of_uid, user_of, found_user, unauthorized,
}
use life_merge.Auth.Tokens.Success.{issued_of, issue_tokens-free, issue_tokens-ok}
use life_merge.Base.Texts.{str_eq_refl, str_eq-false}
use life_merge.Auth.Tokens.Digests.{find_valid-append, has_digest-revoke}

module _ (lib : Libraries) (law : IsLibraries lib) (settings : Settings) (now id : ℕ) (user : User)
    (device_id : String) (later id' : ℕ) (db db' : Db) where
  abbrev access_payload : Payload
  access_payload = record {
    sub = user.email;
    claims = record { uid = some (lib.uuid_text user.id); device_id = none; type = some "access" };
    iat = now / 1000000;
    exp = now + seconds settings.access_token_ttl_seconds;
  }

  abbrev refresh_payload : Payload
  refresh_payload = record {
    sub = user.email;
    claims = record {
      uid = some (lib.uuid_text user.id);
      device_id = some device_id;
      type = some "refresh";
    };
    iat = now / 1000000;
    exp = now + seconds settings.refresh_token_ttl_seconds;
  }

  refresh_row-is_valid :
      later < now + seconds settings.refresh_token_ttl_seconds
      → is_valid user.id device_id
          (lib.digest (lib.encode refresh_payload))
          later
          (refresh_row lib settings now id user device_id)
        ≡ true
  unfolding is_valid refresh_row create_refresh_token
  refresh_row-is_valid lasts =
      ground (arith, str_eq_refl device_id, str_eq_refl (lib.digest (lib.encode refresh_payload)))

  issued_of-kinds :
      later + 1000000 ≤ now + seconds settings.access_token_ttl_seconds
      → later + 1000000 ≤ now + seconds settings.refresh_token_ttl_seconds
      → get_by_id user.id db' ≡ some user
      → (other : String) → other ≢ device_id
      → (get_current_user lib later db' (some (issued_of lib settings now id user device_id db).0.0)
          ≡ ok user)
        × (refresh_tokens lib settings later id'
              (issued_of lib settings now id user device_id db).0.0
              device_id
              db'
            ≡ raise (refresh_error "invalid_refresh"))
        × (get_current_user lib later db'
              (some (issued_of lib settings now id user device_id db).0.1)
            ≡ raise (http_error "401" "unauthorized"))
        × (refresh_tokens lib settings later id'
              (issued_of lib settings now id user device_id db).0.1
              other
              db'
            ≡ raise (refresh_error "refresh_invalid_device"))
  unfolding get_current_user user_of_claims user_of_uid user_of found_user unauthorized
      refresh_tokens refresh_claims create_access_token create_refresh_token
  issued_of-kinds access_lasts refresh_lasts found other differs = (
    rw
        (
          law.encode-not_empty (access_payload),
          law.decode-encode later access_payload access_lasts,
          law.uuid_text-not_empty user.id,
          law.read_uuid-uuid_text user.id,
          found,
        )
        refl,
    rw (law.decode-encode later access_payload access_lasts) refl,
    rw (law.encode-not_empty refresh_payload, law.decode-encode later refresh_payload refresh_lasts)
        refl,
    rw
        (
          law.decode-encode later refresh_payload refresh_lasts,
          str_eq-false device_id other (λ e. differs (sym e)),
        )
        refl,
  )

  -- While they last, the access token that is issued is the user's to the routes and no refresh
  -- token, and the refresh token is no access token, and is refused for another device.
  pub issue_tokens-kinds :
      (issued : (String × String) × Db)
      → issue_tokens lib settings now id user device_id db ≡ ok issued
      → later + 1000000 ≤ now + seconds settings.access_token_ttl_seconds
      → later + 1000000 ≤ now + seconds settings.refresh_token_ttl_seconds
      → get_by_id user.id db' ≡ some user
      → (other : String) → other ≢ device_id
      → (get_current_user lib later db' (some issued.0.0) ≡ ok user)
        × (refresh_tokens lib settings later id' issued.0.0 device_id db'
            ≡ raise (refresh_error "invalid_refresh"))
        × (get_current_user lib later db' (some issued.0.1)
            ≡ raise (http_error "401" "unauthorized"))
        × (refresh_tokens lib settings later id' issued.0.1 other db'
            ≡ raise (refresh_error "refresh_invalid_device"))
  issue_tokens-kinds issued made access_lasts refresh_lasts found other differs =
      rw (← (issue_tokens-ok lib settings now id user device_id db issued made).1)
        (issued_of-kinds access_lasts refresh_lasts found other differs)

  -- The exchange of a token that was issued comes to issuing new ones.
  exchange-eq :
      has_digest (refresh_row lib settings now id user device_id).token_hash db ≡ false
      → later + 1000000 ≤ now + seconds settings.refresh_token_ttl_seconds
      → get_by_id user.id db ≡ some user
      → refresh_tokens lib settings later id'
          (issued_of lib settings now id user device_id db).0.1
          device_id
          (issued_of lib settings now id user device_id db).1
        ≡ (issue_tokens lib settings later id' user device_id
              (revoke id (issued_of lib settings now id user device_id db).1)
            >>= λ issued. ok ((user, issued.0), issued.1))
  unfolding refresh_tokens refresh_claims refresh_uid refresh_user refresh_stored rotate
      create_refresh_token get_by_id refresh_row
  exchange-eq free lasts found =
      rw
        (
          law.decode-encode later refresh_payload lasts,
          str_eq_refl device_id,
          law.uuid_text-not_empty user.id,
          law.read_uuid-uuid_text user.id,
          find_valid-append user.id device_id (lib.digest (lib.encode refresh_payload)) later db
              (refresh_row lib settings now id user device_id) free
              (refresh_row-is_valid (omega (arith, lasts))),
          found,
        )
        refl

  exchange_of :
      (issued : (String × String) × Db)
      → issue_tokens lib settings now id user device_id db ≡ ok issued
      → later + 1000000 ≤ now + seconds settings.refresh_token_ttl_seconds
      → get_by_id user.id db ≡ some user
      → refresh_tokens lib settings later id' issued.0.1 device_id issued.1 ≡ (
          issue_tokens lib settings later id' user device_id (revoke id issued.1) >>= λ renewed.
          ok ((user, renewed.0), renewed.1))
  exchange_of issued made lasts found =
      let (free, at) = issue_tokens-ok lib settings now id user device_id db issued made in
      subst
        (λ i. refresh_tokens lib settings later id' i.0.1 device_id i.1 ≡ (
          issue_tokens lib settings later id' user device_id (revoke id i.1) >>= λ renewed.
          ok ((user, renewed.0), renewed.1)))
        at (exchange-eq free lasts found)

  -- A refresh token that is issued is exchanged for new ones while it lasts, by its device, if the
  -- user is still there and no row has the digest of the new refresh token: in a later second, since
  -- within one second the new token is the old one.
  pub refresh_tokens-issue_tokens :
      (issued : (String × String) × Db)
      → issue_tokens lib settings now id user device_id db ≡ ok issued
      → later + 1000000 ≤ now + seconds settings.refresh_token_ttl_seconds
      → get_by_id user.id db ≡ some user
      → has_digest
          (lib.digest
            (create_refresh_token lib settings later user.email (lib.uuid_text user.id) device_id))
          issued.1
        ≡ false
      → (renewed : (String × String) × Db) × (issue_tokens lib settings later id' user device_id
            (revoke id issued.1)
          ≡ ok renewed)
        × (refresh_tokens lib settings later id' issued.0.1 device_id issued.1
            ≡ ok ((user, renewed.0), renewed.1))
  unfolding refresh_row
  refresh_tokens-issue_tokens issued made lasts found fresh =
      let again =
        issue_tokens-free lib settings later id' user device_id (revoke id issued.1)
          (has_digest-revoke _ id issued.1 ∙ fresh) in
      (
        issued_of lib settings later id' user device_id (revoke id issued.1),
        again,
        exchange_of issued made lasts found ∙ rw again refl,
      )
