-- ===== src/RateLimiter.antt =====
-- proxy/rate_limiter.py: one token bucket for each proxy. `acquire` holds an `asyncio.Lock` also
-- while it sleeps, so it is one step; `time.monotonic()` is an argument, and the time to sleep a result.
use proxysplit.Base.{String, Option, none, some, if◌then◌else◌, string_eq}
use proxysplit.Dict.{Dict, lookup, insert, remove}
use proxysplit.Float
use proxysplit.Float.{Float}

module _ (𝓕 : Float) where
  open 𝓕 use {F, lit, add, sub, mul, div, lt, le}

  pub record TokenBucket : Type 0 where
    pub rps : F
    pub tokens : F
    pub last : F

  unfoldable pub new_bucket : F → F → TokenBucket
  new_bucket now rps = record {
    rps = rps;
    tokens = if lt (lit 0 0) rps then rps else lit 0 0;
    last = now;
  }

  -- The bucket, and the time slept.
  unfoldable pub acquire : F → TokenBucket → TokenBucket × Option F
  acquire now b =
      if le b.rps (lit 0 0)
      then (b, none)
      else (let tokens = Float.min 𝓕 b.rps (add b.tokens (mul (sub now b.last) b.rps)) in
          if lt tokens (lit 1 0)
          then (record b { tokens = lit 0 0; last = now }, some (div (sub (lit 1 0) tokens) b.rps))
          else (record b { tokens = sub tokens (lit 1 0); last = now }, none))

  abbrev pub Limiters : Type 0
  Limiters = Dict String TokenBucket

  unfoldable pub get_limiter : F → F → String → Limiters → Limiters × TokenBucket
  unfolding new_bucket
  get_limiter now global_rps url d = elim (lookup url d) [
    | none ↦ let b = new_bucket now global_rps in (insert url b d, b)
    | some b ↦ (d, b)
  ]

  unfoldable pub remove_limiter : String → Limiters → Limiters
  remove_limiter url d = remove url d
