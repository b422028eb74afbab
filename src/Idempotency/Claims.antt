-- ===== src/Idempotency/Claims.antt =====
-- What `enforce_idempotency` of Backend/app/api/idempotency.py leaves committed.
use life_merge.Base.{ℕ, ◌≡◌, refl, Option, none, some, String, str_eq, any, inl, inr, Bool-cases}
use life_merge.Idempotency.{Session, or_text, is_key, enforced, enforce_idempotency}

module _ {Json : Type 0} (user_id : ℕ) (method path : String) (session : Session Json) where
  enforced-committed :
      (key : Option String)
      → (enforced user_id method path key session).1.committed ≡ session.committed
  unfolding enforced
  enforced-committed none = refl
  enforced-committed (some key) = elim (Bool-cases (str_eq key "")) [
    | inl e ↦ rw e refl
    | inr e ↦ elim (Bool-cases (any (is_key user_id key method path) session.current)) [
      | inl k ↦ rw (e, k) refl
      | inr k ↦ rw (e, k) refl
    ]
  ]

  pub enforce_idempotency-committed :
      (request_id idempotency_key : Option String)
      → (enforce_idempotency user_id method path request_id idempotency_key session).1.committed
        ≡ session.committed
  unfolding enforce_idempotency
  enforce_idempotency-committed request_id idempotency_key =
      enforced-committed (or_text idempotency_key request_id)
