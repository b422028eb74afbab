-- ===== src/RateLimit/Window.antt =====
-- How many requests pass in a window of Backend/app/middleware/rate_limit.py.
use life_merge.Base.{
  ℕ, suc, ◌+◌, ◌-◌, ◌≤◌, ◌<◌, ◌≡◌, refl, ◌∙◌, true, false, Option, some, List, [], ◌∷◌, String,
  str_eq, eq_iff, ◌==◌, ltb, if◌then◌else◌, min, arith, inl, inr, Bool-cases,
}
use life_merge.Base.Texts.{str_eq_refl}
use life_merge.Base.Result.{Result, ok, raise}
use life_merge.RateLimit.{Redis, IsRedis, rl_key, counted, redis_rate_limit}

-- A request that reaches the limit: when, and from which client.
pub record Call : Type 0 where
  pub now : ℕ
  pub client : Option String

abbrev passed : Result (Unit {0}) → ℕ
passed (ok a) = 1
passed (raise e) = 0

module _ (redis : Redis) (key_prefix : String) (limit window_seconds : ℕ) where
  abbrev pub limited : Call → redis.Store → Result (Unit {0}) × redis.Store
  limited call store =
      redis_rate_limit redis key_prefix limit window_seconds call.now call.client store

  -- How many of the calls with a key pass, in the order in which they come.
  pub passes : String → List Call → redis.Store → ℕ
  passes key [] store = 0
  passes key (call ∷ calls) store =
      let rest = passes key calls (limited call store).1 in
      if str_eq (rl_key key_prefix call.client) key
      then passed (limited call store).0 + rest
      else rest

  -- How many of the calls have a key.
  pub calls_of : String → List Call → ℕ
  calls_of key [] = 0
  calls_of key (call ∷ calls) =
      let rest = calls_of key calls in
      if str_eq (rl_key key_prefix call.client) key then suc rest else rest

  -- The calls come in the order of their times, from one instant to before another.
  abbrev pub Within : ℕ → ℕ → List Call → Type 0
  Within from to [] = Unit
  Within from to (call ∷ calls) = (from ≤ call.now) × (call.now < to) × Within call.now to calls

  module _ (law : IsRedis redis) where
    -- A counter that is running.
    record Running (store : redis.Store) (now : ℕ) (key : String) (n to : ℕ) : Type 0 where
      counts : law.count store now key ≡ suc n
      ends : law.deadline store key ≡ some to

    Running-later :
        (store : redis.Store) (now later : ℕ) (key : String) (n to : ℕ)
        → now ≤ later
        → later < to
        → Running store now key n to
        → Running store later key n to
    Running-later store now later key n to after before r = record {
      counts = law.count-later store now later key after (rw r.ends (ground arith)) ∙ r.counts;
      ends = r.ends;
    }

    counted_running :
        (now : ℕ) (key : String) (answer : ℕ × redis.Store)
        → (answer.0 == 1) ≡ false
        → counted redis window_seconds now key answer ≡ answer.1
    unfolding counted
    counted_running now key answer h = rw h refl

    counted-other :
        (now : ℕ) (called key : String) (answer : ℕ × redis.Store)
        → 1 ≤ window_seconds
        → str_eq called key ≡ false
        → (law.count (counted redis window_seconds now called answer) now key
            ≡ law.count answer.1 now key)
          × (law.deadline (counted redis window_seconds now called answer) key
              ≡ law.deadline answer.1 key)
    unfolding counted
    counted-other now called key answer lasts differs = elim (Bool-cases (answer.0 == 1)) [
      | inl e ↦ rw e (
        law.count-expire answer.1 now called key window_seconds lasts,
        law.deadline-expire answer.1 now called key window_seconds lasts ∙ rw differs refl,
      )
      | inr e ↦ rw e (refl, refl)
    ]

    Running-own :
        (now : ℕ) (store : redis.Store) (key : String) (n to : ℕ)
        → Running store now key n to
        → Running
            (counted redis window_seconds now key (redis.incr store now key))
            now
            key
            (suc n)
            to
    Running-own now store key n to r =
        let more : ((redis.incr store now key).0 == 1) ≡ false =
          rw (law.incr-count store now key, r.counts) (ground arith) in
        rw (counted_running now key (redis.incr store now key) more) record {
          counts = law.count-incr store now key key ∙ rw (str_eq_refl key, r.counts) refl;
          ends =
              law.deadline-incr store now key key
              ∙ rw (str_eq_refl key, r.counts) (ground (arith, r.ends));
        }

    Running-other :
        (now : ℕ) (store : redis.Store) (called key : String) (n to : ℕ)
        → 1 ≤ window_seconds
        → str_eq called key ≡ false
        → Running store now key n to
        → Running
            (counted redis window_seconds now called (redis.incr store now called))
            now
            key
            n
            to
    Running-other now store called key n to lasts differs r =
        let kept = counted-other now called key (redis.incr store now called) lasts differs in
        record {
          counts = kept.0 ∙ law.count-incr store now called key ∙ rw differs r.counts;
          ends = kept.1 ∙ law.deadline-incr store now called key ∙ rw differs r.ends;
        }

    passed-limited :
        (call : Call) (store : redis.Store)
        → passed (limited call store).0 ≡ (
            if ltb limit (suc (law.count store call.now (rl_key key_prefix call.client)))
            then 0
            else 1)
    unfolding redis_rate_limit
    passed-limited call store =
        rw (law.incr-count store call.now (rl_key key_prefix call.client)) (ground arith)

    limited-own :
        (call : Call) (store : redis.Store) (key : String) (n to : ℕ)
        → str_eq (rl_key key_prefix call.client) key ≡ true
        → Running store call.now key n to
        → Running (limited call store).1 call.now key (suc n) to
    unfolding redis_rate_limit
    limited-own call store key n to own r =
        rw ((eq_iff (rl_key key_prefix call.client) key).0 own)
          (Running-own call.now store key n to r)

    limited-other :
        (call : Call) (store : redis.Store) (key : String) (n to : ℕ)
        → 1 ≤ window_seconds
        → str_eq (rl_key key_prefix call.client) key ≡ false
        → Running store call.now key n to
        → Running (limited call store).1 call.now key n to
    unfolding redis_rate_limit
    limited-other call store key n to lasts differs r =
        Running-other call.now store (rl_key key_prefix call.client) key n to lasts differs r

    passed-own :
        (call : Call) (store : redis.Store) (key : String) (n : ℕ)
        → str_eq (rl_key key_prefix call.client) key ≡ true
        → law.count store call.now key ≡ n
        → passed (limited call store).0 ≡ (if ltb limit (suc n) then 0 else 1)
    passed-own call store key n own counts =
        passed-limited call store
        ∙ rw ((eq_iff (rl_key key_prefix call.client) key).0 own, counts) refl

    -- While the counter runs, as many calls pass as the limit leaves.
    passes-Running :
        (calls : List Call) (store : redis.Store) (now : ℕ) (key : String) (n to : ℕ)
        → 1 ≤ window_seconds
        → Within now to calls
        → Running store now key n to
        → passes key calls store ≡ min (calls_of key calls) (limit - suc n)
    unfolding passes calls_of
    passes-Running [] store now key n to lasts within r = ground arith
    passes-Running (call ∷ calls) store now key n to lasts within r =
        let here = Running-later store now call.now key n to within.0 within.1 r in
        elim (Bool-cases (str_eq (rl_key key_prefix call.client) key)) [
          | inl e ↦
              rw
                (
                  e,
                  passed-own call store key (suc n) e here.counts,
                  passes-Running calls (limited call store).1 call.now key (suc n) to lasts within.2
                      (limited-own call store key n to e here),
                )
                (ground arith)
          | inr e ↦ rw e (
              passes-Running calls (limited call store).1 call.now key n to lasts within.2
                (limited-other call store key n to lasts e here))
        ]

    -- The first call with a key starts its counter.
    limited-first :
        (call : Call) (store : redis.Store)
        → 1 ≤ window_seconds
        → law.count store call.now (rl_key key_prefix call.client) ≡ 0
        → Running
            (limited call store).1
            call.now
            (rl_key key_prefix call.client)
            0
            (call.now + window_seconds)
    unfolding redis_rate_limit counted
    limited-first call store lasts fresh =
        let key = rl_key key_prefix call.client in
        let answer = redis.incr store call.now key in
        let one : law.count answer.1 call.now key ≡ 1 =
          law.count-incr store call.now key key ∙ rw (str_eq_refl key, fresh) refl in
        let first : (answer.0 == 1) ≡ true =
          rw (law.incr-count store call.now key, fresh) (ground arith) in
        rw first record {
          counts = law.count-expire answer.1 call.now key key window_seconds lasts ∙ one;
          ends =
              law.deadline-expire answer.1 call.now key key window_seconds lasts
              ∙ rw (str_eq_refl key, one) refl;
        }

    -- Of the calls of a client within a window that starts with its first one, just as many pass as
    -- the limit allows, whatever other clients do in between, if no counter of the client was
    -- running and the window is not empty.
    pub passes-min :
        (first : Call) (calls : List Call) (store : redis.Store)
        → 1 ≤ window_seconds
        → law.count store first.now (rl_key key_prefix first.client) ≡ 0
        → Within first.now (first.now + window_seconds) calls
        → passes (rl_key key_prefix first.client) (first ∷ calls) store
          ≡ min (calls_of (rl_key key_prefix first.client) (first ∷ calls)) limit
    unfolding passes calls_of
    passes-min first calls store lasts fresh within =
        let key = rl_key key_prefix first.client in
        rw
          (
            str_eq_refl key,
            passed-own first store key 0 (str_eq_refl key) fresh,
            passes-Running calls (limited first store).1 first.now key 0
                (first.now + window_seconds) lasts within (limited-first first store lasts fresh),
          )
          (ground arith)
