-- ===== src/Auth/Tokens/Digests.antt =====
-- The digests of the rows of refresh tokens (Backend/app/repositories/refresh_tokens_repo.py).
use life_merge.Base.{
  ℕ, ◌≡◌, refl, true, false, some, List, [], ◌∷◌, ◌++◌, String, arith, select, select-append, any,
  map, ◌==◌, str_eq, Bool,
}
use life_merge.Base.Result.{ok}
use life_merge.Auth.{
  RefreshToken, Db, is_valid, find_valid, revoke, revoke_if, scalar_one_or_none, has_digest,
}
use life_merge.Base.Texts.{str_eq_refl}

-- No row is valid for a digest that no row has.
select-fresh :
    (user_id : ℕ) (device_id token_hash : String) (now : ℕ) (rows : List RefreshToken)
    → any (λ row. str_eq row.token_hash token_hash) rows ≡ false
    → select (is_valid user_id device_id token_hash now) rows ≡ []
unfolding is_valid
select-fresh user_id device_id token_hash now [] h = refl
select-fresh user_id device_id token_hash now (row ∷ rows) h =
    ground (arith, h, select-fresh user_id device_id token_hash now rows)

pub find_valid-append :
    (user_id : ℕ) (device_id token_hash : String) (now : ℕ) (db : Db) (new : RefreshToken)
    → has_digest token_hash db ≡ false
    → is_valid user_id device_id token_hash now new ≡ true
    → find_valid user_id device_id token_hash now
        (record db { refresh_tokens = db.refresh_tokens ++ new ∷ [] })
      ≡ ok (some new)
unfolding find_valid has_digest scalar_one_or_none
find_valid-append user_id device_id token_hash now db new free valid =
    let valid_row = is_valid user_id device_id token_hash now in
    rw
      (
        select-append valid_row db.refresh_tokens (new ∷ []),
        select-fresh user_id device_id token_hash now db.refresh_tokens free,
        valid,
      )
      refl

revoke_if-hash : (b : Bool) (row : RefreshToken) → (revoke_if b row).token_hash ≡ row.token_hash
unfolding revoke_if
revoke_if-hash true row = refl
revoke_if-hash false row = refl

-- Revoking keeps the digests, and a row that is added has its own.
pub has_digest-revoke :
    (token_hash : String) (id : ℕ) (db : Db)
    → has_digest token_hash (revoke id db) ≡ has_digest token_hash db
unfolding has_digest revoke
has_digest-revoke token_hash id db = kept db.refresh_tokens
  where
    kept :
        (rows : List RefreshToken)
        → any
            (λ row. str_eq row.token_hash token_hash)
            (map (λ row. revoke_if (row.id == id) row) rows)
          ≡ any (λ row. str_eq row.token_hash token_hash) rows
    kept [] = refl
    kept (row ∷ rows) = rw (revoke_if-hash (row.id == id) row, kept rows) refl

pub has_digest-append :
    (token_hash : String) (db : Db) (new : RefreshToken)
    → new.token_hash ≡ token_hash
    → has_digest token_hash (record db { refresh_tokens = db.refresh_tokens ++ new ∷ [] }) ≡ true
unfolding has_digest
has_digest-append token_hash db new same = last db.refresh_tokens
  where
    last :
        (rows : List RefreshToken)
        → any (λ row. str_eq row.token_hash token_hash) (rows ++ new ∷ []) ≡ true
    last [] = rw same (ground (arith, str_eq_refl token_hash))
    last (row ∷ rows) = ground (arith, last rows)
