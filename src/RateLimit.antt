-- ===== src/RateLimit.antt =====
-- Backend/app/middleware/rate_limit.py: requests of a client are counted in Redis, and refused beyond
-- a limit until the counter expires. Redis is an interface; a time is in seconds. The time to wait that
-- a refusal names is left out.
pub mod Window
mod Tests
use Prim.Native.String.{◌++◌}
use life_merge.Base.{
  ℕ, suc, ◌+◌, ◌≤◌, ◌≡◌, ◌≢◌, Bool, true, false, not, ◌&&◌, Option, none, some, List, [], ◌∷◌,
  String, str_eq, ◌==◌, leb, ltb, if◌then◌else◌,
}
use life_merge.Base.Result.{Result, ok, raise, http_error}

-- `incr` answers with the new number; both are called at a time.
pub record Redis : Type 1 where
  pub Store : Type 0
  pub incr : Store → ℕ → String → ℕ × Store
  pub expire : Store → ℕ → String → ℕ → Store

-- The number that a counter holds at a time, 0 where there is none.
abbrev pub expired : Option ℕ → ℕ → Bool
expired none now = false
expired (some deadline) now = leb deadline now

-- What is relied on: a counter starts at 1 without a deadline, may then be
-- given one, keeps its deadline while it is
-- counted, is gone from its deadline on, and does not depend on what is done to other counters.
pub record IsRedis (redis : Redis) : Type 0 where
  pub count : redis.Store → ℕ → String → ℕ
  pub deadline : redis.Store → String → Option ℕ
  pub count-later :
      (store : redis.Store) (now later : ℕ) (key : String)
      → now ≤ later
      → expired (deadline store key) later ≡ false
      → count store later key ≡ count store now key
  pub incr-count :
      (store : redis.Store) (now : ℕ) (key : String)
      → (redis.incr store now key).0 ≡ suc (count store now key)
  pub count-incr :
      (store : redis.Store) (now : ℕ) (key other : String)
      → count (redis.incr store now key).1 now other
        ≡ (if str_eq key other then suc (count store now key) else count store now other)
  pub deadline-incr :
      (store : redis.Store) (now : ℕ) (key other : String)
      → deadline (redis.incr store now key).1 other ≡ (
          if str_eq key other
          then (if count store now key == 0 then none else deadline store key)
          else deadline store other)
  pub count-expire :
      (store : redis.Store) (now : ℕ) (key other : String) (seconds : ℕ)
      → 1 ≤ seconds
      → count (redis.expire store now key seconds) now other ≡ count store now other
  pub deadline-expire :
      (store : redis.Store) (now : ℕ) (key other : String) (seconds : ℕ)
      → 1 ≤ seconds
      → deadline (redis.expire store now key seconds) other ≡ (
          if str_eq key other && not (count store now key == 0)
          then some (now + seconds)
          else deadline store other)

-- `_client_ip`, of `request.client.host`
pub client_ip : Option String → String
client_ip none = "unknown"
client_ip (some host) = host

-- `_rl_key`
pub rl_key : String → Option String → String
rl_key prefix client = "rl:" ++ prefix ++ ":" ++ client_ip client

module _ (redis : Redis) where
  pub counted : ℕ → ℕ → String → ℕ × redis.Store → redis.Store
  counted window_seconds now key (cnt, store) =
      if cnt == 1 then redis.expire store now key window_seconds else store

  -- The dependency that `redis_rate_limit` makes, called at a time by a client.
  pub redis_rate_limit :
      String → ℕ → ℕ → ℕ → Option String → redis.Store → Result (Unit {0}) × redis.Store
  redis_rate_limit key_prefix limit window_seconds now client store =
      let key = rl_key key_prefix client in
      let answer = redis.incr store now key in
      (
        (if ltb limit answer.0 then raise (http_error "429" "rate_limited") else ok tt),
        counted window_seconds now key answer,
      )
