-- ===== src/PoolBreaker.antt =====
-- proxy/pool_breaker.py: `PoolCircuitBreaker`, one breaker for each proxy and pool. Each method holds
-- the lock and is one step; times are natural numbers of one unit.
pub mod Isolation
use proxysplit.Base.{
  ℕ, ◌+◌, ◌-◌, ◌*◌, ◌^◌, min, String, Bool, true, false, ◌&&◌, Option, none, some, List, [], ◌∷◌,
  ltb, if◌then◌else◌, ◌==◌, string_eq, option_eq, pair_eq,
}
use proxysplit.Breaker.{State, closed, opened, half_open, is_open, is_closed, is_half_open}
use proxysplit.Dict.{Dict, lookup, insert, keys_where}

abbrev pub Key : Type 0
Key = String × Option String

pub record Entry : Type 0 where
  pub state : State
  pub strike : ℕ
  pub open_until : ℕ
  pub banned_at : Option ℕ

pub record PoolBreaker : Type 0 where
  pub threshold : ℕ
  pub base_delay : ℕ
  pub max_delay : ℕ
  pub breakers : Dict Key Entry

unfoldable pub init : ℕ → ℕ → ℕ → PoolBreaker
init threshold base_delay max_delay = record {
  threshold = threshold;
  base_delay = base_delay;
  max_delay = max_delay;
  breakers = [];
}

unfoldable pub new_entry : Entry
new_entry = record { state = closed; strike = 0; open_until = 0; banned_at = none }

unfoldable pub entry : Key → PoolBreaker → Entry
unfolding new_entry
entry key b = elim (lookup key b.breakers) [ none ↦ new_entry | some e ↦ e ]

unfoldable pub open_entry : PoolBreaker → ℕ → ℕ → Entry → Entry
open_entry b now wall e =
    let strike = e.strike + 1 in
    let delay = min (b.base_delay * 2 ^ (strike - 1)) b.max_delay in
    record { state = opened; strike = strike; open_until = now + delay; banned_at = some wall }

unfoldable pub record_failure : ℕ → ℕ → String → Option String → ℕ → PoolBreaker → PoolBreaker
unfolding entry open_entry
record_failure now wall url pool consecutive b =
    let e = entry (url, pool) b in
    if ltb consecutive b.threshold then b else record b {
      breakers =
          insert (url, pool) (if is_open e.state then e else open_entry b now wall e) b.breakers;
    }

unfoldable pub record_success : String → Option String → PoolBreaker → PoolBreaker
record_success url pool b = elim (lookup (url, pool) b.breakers) [
  | none ↦ b
  | some e ↦
      if is_half_open e.state
      then record b {
        breakers = insert (url, pool) (record e { state = closed; strike = 0 }) b.breakers;
      }
      else b
]

-- An entry in HALF_OPEN lets every request through.
unfoldable pub allow_request : ℕ → String → Option String → PoolBreaker → PoolBreaker × Bool
allow_request now url pool b = elim (lookup (url, pool) b.breakers) [
  | none ↦ (b, true)
  | some e ↦ elim e.state [
    | closed ↦ (b, true)
    | opened ↦ if ltb now e.open_until then (b, false) else (
      record b { breakers = insert (url, pool) (record e { state = half_open }) b.breakers },
      true,
    )
    | half_open ↦ (b, true)
  ]
]

unfoldable pub is_blocked : ℕ → Entry → Bool
is_blocked now e = is_open e.state && ltb now e.open_until

abbrev pub urls_of : Option String → List Key → List String
urls_of pool [] = []
urls_of pool ((url, p) ∷ keys) =
    let rest = urls_of pool keys in if p == pool then url ∷ rest else rest

unfoldable pub blocked_for : ℕ → Option String → PoolBreaker → List String
unfolding is_blocked
blocked_for now pool b = urls_of pool (keys_where (is_blocked now) b.breakers)

unfoldable pub release : String → Option String → PoolBreaker → PoolBreaker
release url pool b = elim (lookup (url, pool) b.breakers) [
  | none ↦ b
  | some e ↦ record b {
    breakers = insert (url, pool) (record e { state = closed; strike = 0 }) b.breakers;
  }
]

-- One line of `snapshot`; `round` is that of Python, to a tenth.
pub record View : Type 0 where
  pub url : String
  pub pool : Option String
  pub state : State
  pub strike : ℕ
  pub remaining_s : ℕ
  pub banned_at : Option ℕ

unfoldable pub snapshot : (ℕ → ℕ) → ℕ → Dict Key Entry → List View
snapshot round now [] = []
snapshot round now (((url, pool), e) ∷ d) =
    let v : View = record {
      url = url;
      pool = pool;
      state = e.state;
      strike = e.strike;
      remaining_s = round (e.open_until - now);
      banned_at = e.banned_at;
    } in
    let rest = snapshot round now d in if is_closed e.state then rest else v ∷ rest
