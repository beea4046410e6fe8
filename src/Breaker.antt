-- ===== src/Breaker.antt =====
-- proxy/circuit_breaker.py: `CircuitBreaker`. Each method that holds the lock is one step, a function
-- on the state; times are numbers of one unit, and `time.monotonic()` and `time.time()` arguments.
-- `allow_request` waits outside the lock, so it is two steps: `allow_request` answers or names the
-- event to wait on, and `recheck` is the second block, after the event or the timeout.
pub mod Settle
pub mod Invariant
pub mod Probe
pub mod Backoff
use proxysplit.Base.{
  ℕ, ◌+◌, ◌-◌, ◌*◌, ◌^◌, min, String, ◌≡◌, Bool, true, false, ◌&&◌, Option, none, some, List, [],
  ◌∷◌, ltb, leb, if◌then◌else◌, ◌==◌, string_eq,
}
use proxysplit.Dict.{Dict, lookup, insert, remove, keys_where}

pub data State : Type 0 where
  closed opened half_open : State

pub record Entry : Type 0 where
  pub state : State
  pub strike : ℕ
  pub open_until : ℕ
  pub banned_at : Option ℕ
  pub reason : String

-- An event is a number: `next_event` makes new ones, and `set_events` holds those that are set.
pub record Breaker : Type 0 where
  pub threshold : ℕ
  pub base_delay : ℕ
  pub max_delay : ℕ
  pub breakers : Dict String Entry
  pub probe_events : Dict String ℕ
  pub next_event : ℕ
  pub set_events : List ℕ

pub data Answer : Type 0 where
  answer : Bool → Answer
  wait : ℕ → Answer

-- What the breaker calls of `proxy.stats`: the row of failures of a proxy, ended.
pub record FailureCounter : Type 1 where
  pub Stats : Type 0
  pub consecutive : String → Stats → ℕ
  pub reset : String → Stats → Stats
  pub consecutive-reset :
      (u v : String) (s : Stats)
      → consecutive v (reset u s) ≡ (if u == v then 0 else consecutive v s)

unfoldable pub init : ℕ → ℕ → ℕ → Breaker
init threshold base_delay max_delay = record {
  threshold = threshold;
  base_delay = base_delay;
  max_delay = max_delay;
  breakers = [];
  probe_events = [];
  next_event = 0;
  set_events = [];
}

unfoldable pub new_entry : Entry
new_entry = record { state = closed; strike = 0; open_until = 0; banned_at = none; reason = "" }

unfoldable pub entry : String → Breaker → Entry
unfolding new_entry
entry url b = elim (lookup url b.breakers) [ none ↦ new_entry | some e ↦ e ]

unfoldable pub backoff : Breaker → ℕ → ℕ
backoff b strike = min (b.base_delay * 2 ^ (strike - 1)) b.max_delay

-- `_open`
unfoldable pub open_entry : Breaker → ℕ → ℕ → String → Entry → Entry
unfolding backoff
open_entry b now wall reason e =
    let strike = e.strike + 1 in
    record e {
      strike = strike;
      state = opened;
      open_until = now + backoff b strike;
      banned_at = some wall;
      reason = reason;
    }

-- `evt = self._probe_events.pop(url, None)` and, after the lock, `if evt: evt.set()`.
unfoldable pub fire : String → Breaker → Breaker
fire url b = elim (lookup url b.probe_events) [
  | none ↦ b
  | some evt ↦ record b {
    probe_events = remove url b.probe_events;
    set_events = evt ∷ b.set_events;
  }
]

abbrev pub is_open : State → Bool
is_open opened = true
is_open _ = false

abbrev pub is_closed : State → Bool
is_closed closed = true
is_closed _ = false

abbrev pub is_half_open : State → Bool
is_half_open half_open = true
is_half_open _ = false

unfoldable pub record_failure : ℕ → ℕ → String → ℕ → String → Breaker → Breaker
unfolding entry open_entry fire
record_failure now wall url consecutive reason b =
    if ltb consecutive b.threshold
    then b
    else (let e = entry url b in
        if is_open e.state
        then record b { breakers = insert url e b.breakers }
        else fire url
            (record b { breakers = insert url (open_entry b now wall reason e) b.breakers }))

-- The first block of `allow_request`.
unfoldable pub allow_request : ℕ → String → Breaker → Breaker × Answer
allow_request now url b = elim (lookup url b.breakers) [
  | none ↦ (b, answer true)
  | some e ↦ elim e.state [
    | closed ↦ (b, answer true)
    | opened ↦ if ltb now e.open_until then (b, answer false) else (
      record b {
        breakers = insert url (record e { state = half_open }) b.breakers;
        probe_events = insert url b.next_event b.probe_events;
        next_event = b.next_event + 1;
      },
      answer true,
    )
    | half_open ↦ elim (lookup url b.probe_events) [
      | none ↦ (b, answer false)
      | some evt ↦ (b, wait evt)
    ]
  ]
]

-- The second block, after `evt_to_wait.wait(timeout=30)`.
unfoldable pub recheck : String → Breaker → Bool
recheck url b = elim (lookup url b.breakers) [ none ↦ true | some e ↦ is_closed e.state ]

unfoldable pub is_blocked : ℕ → Entry → Bool
is_blocked now e = is_open e.state && ltb now e.open_until

unfoldable pub blocked_urls : ℕ → Breaker → List String
unfolding is_blocked
blocked_urls now b = keys_where (is_blocked now) b.breakers

unfoldable pub is_expired : ℕ → Entry → Bool
is_expired now e = is_open e.state && leb e.open_until now

unfoldable pub expired_open : ℕ → Breaker → List String
unfolding is_expired
expired_open now b = keys_where (is_expired now) b.breakers

unfoldable pub state_for : String → Breaker → State
state_for url b = elim (lookup url b.breakers) [ none ↦ closed | some e ↦ e.state ]

module _ (counter : FailureCounter) where
  open counter use {Stats, reset}

  unfoldable pub record_success : String → Breaker × Stats → Breaker × Stats
  unfolding fire
  record_success url (b, s) = elim (lookup url b.breakers) [
    | none ↦ (b, s)
    | some e ↦
        if is_half_open e.state
        then (
          fire url (record b {
            breakers = insert url (record e { state = closed; strike = 0; reason = "" }) b.breakers;
          }),
          reset url s,
        )
        else (b, s)
  ]

  unfoldable pub release : String → Breaker × Stats → Breaker × Stats
  unfolding fire
  release url (b, s) =
      let b' : Breaker = elim (lookup url b.breakers) [
        | none ↦ b
        | some e ↦ record b {
          breakers = insert url (record e { state = closed; strike = 0 }) b.breakers;
        }
      ] in
      (fire url b', reset url s)

-- One line of `snapshot`, and of `compat_quarantine_snapshot`. `round` is that of Python, to a tenth.
pub record View : Type 0 where
  pub state : State
  pub strike : ℕ
  pub reason : String
  pub banned_at : Option ℕ
  pub remaining_s : ℕ

module _ (round : ℕ → ℕ) where
  unfoldable pub view : ℕ → Entry → View
  view now e = record {
    state = e.state;
    strike = e.strike;
    reason = e.reason;
    banned_at = e.banned_at;
    remaining_s = round (e.open_until - now);
  }

  unfoldable pub snapshot : ℕ → Dict String Entry → Dict String View
  unfolding view
  snapshot now [] = []
  snapshot now ((url, e) ∷ d) =
      let rest = snapshot now d in if is_closed e.state then rest else (url, view now e) ∷ rest
