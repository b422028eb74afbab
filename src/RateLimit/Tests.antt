-- ===== src/RateLimit/Tests.antt =====
-- The window of the rate limit at concrete calls, with counters that are kept in a function.
use life_merge.Base.{
  ℕ, suc, ◌+◌, ◌≡◌, refl, Bool, true, false, not, ◌&&◌, Option, none, some, List, [], ◌∷◌, String,
  str_eq, ◌==◌, min, leb, if◌then◌else◌, arith, Bool-cases, inl, inr, ◌∙◌, ◌≤◌,
}
use life_merge.RateLimit.{Redis, IsRedis, expired, rl_key}
use life_merge.RateLimit.Window.{Call, passes, calls_of, passes-min}

-- The number and the deadline of each counter.
abbrev Counters : Type 0
Counters = String → ℕ × Option ℕ

abbrev held : ℕ × Option ℕ → ℕ → ℕ
held counter now = if expired counter.1 now then 0 else counter.0

abbrev redis : Redis
redis = record {
  Store = Counters;
  incr = λ store now key. (
    suc (held (store key) now),
    λ other.
        if str_eq key other
        then (suc (held (store key) now), if held (store key) now == 0 then none else (store key).1)
        else store other,
  );
  expire = λ store now key seconds. λ other.
      if str_eq key other && not (held (store key) now == 0)
      then (held (store other) now, some (now + seconds))
      else store other;
}

held-later :
    (counter : ℕ × Option ℕ) (now later : ℕ)
    → now ≤ later
    → expired counter.1 later ≡ false
    → held counter later ≡ held counter now
held-later (n, none) now later h k = refl
held-later (n, some deadline) now later h k = ground arith

held-next :
    (counter : ℕ × Option ℕ) (now : ℕ)
    → held (suc (held counter now), if held counter now == 0 then none else counter.1) now
      ≡ suc (held counter now)
held-next (n, none) now = elim (Bool-cases (n == 0)) [ inl e ↦ rw e refl | inr e ↦ rw e refl ]
held-next (n, some deadline) now = elim (Bool-cases (leb deadline now)) [
  | inl e ↦ rw e refl
  | inr e ↦ elim (Bool-cases (n == 0)) [ inl k ↦ rw (e, k) refl | inr k ↦ rw (e, k, e) refl ]
]

held-if :
    (b : Bool) (x y : ℕ × Option ℕ) (now : ℕ)
    → held (if b then x else y) now ≡ (if b then held x now else held y now)
held-if true x y now = refl
held-if false x y now = refl

second-if : (b : Bool) (x y : ℕ × Option ℕ) → (if b then x else y).1 ≡ (if b then x.1 else y.1)
second-if true x y = refl
second-if false x y = refl

held-expire :
    (b : Bool) (counter : ℕ × Option ℕ) (now seconds : ℕ)
    → 1 ≤ seconds
    → held (if b then (held counter now, some (now + seconds)) else counter) now ≡ held counter now
held-expire true counter now seconds h =
    let later : leb (now + seconds) now ≡ false = ground arith in rw later refl
held-expire false counter now seconds h = refl

redis-IsRedis : IsRedis redis
redis-IsRedis = record {
  count = λ store now key. held (store key) now;
  deadline = λ store key. (store key).1;
  count-later = λ store now later key h k. held-later (store key) now later h k;
  incr-count = λ store now key. refl;
  count-incr = λ store now key other.
      held-if (str_eq key other) _ (store other) now ∙ rw (held-next (store key) now) refl;
  deadline-incr = λ store now key other. second-if (str_eq key other) _ (store other);
  count-expire = λ store now key other seconds h. held-expire _ (store other) now seconds h;
  deadline-expire = λ store now key other seconds h.
      second-if (str_eq key other && not (held (store key) now == 0))
        (held (store other) now, some (now + seconds)) (store other);
}

-- A client calls three times in ten seconds, and another client once.
abbrev first : Call
first = record { now = 100; client = some "10.0.0.1" }

abbrev calls : List Call
calls =
    record { now = 101; client = some "10.0.0.2" }
    ∷ record { now = 104; client = some "10.0.0.1" }
    ∷ record { now = 109; client = some "10.0.0.1" }
    ∷ []

abbrev no_counters : Counters
no_counters key = (0, none)

passes-min_example :
    passes redis "auth:login" 2 10
      (rl_key "auth:login" (some "10.0.0.1"))
      (first ∷ calls)
      no_counters
    ≡ min
        (calls_of redis "auth:login" 2 10 (rl_key "auth:login" (some "10.0.0.1")) (first ∷ calls))
        2
unfolding redis-IsRedis
passes-min_example =
    passes-min redis "auth:login" 2 10 redis-IsRedis first calls no_counters (omega arith) refl
      (omega arith, omega arith, (omega arith, omega arith, (omega arith, omega arith, tt)))
