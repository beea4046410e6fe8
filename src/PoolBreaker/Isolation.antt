-- ===== src/PoolBreaker/Isolation.antt =====
-- proxy/pool_breaker.py: a ban holds for its pool, and no other pool sees it.
use proxysplit.Base.{
  ℕ, ◌+◌, ◌-◌, ◌*◌, ◌^◌, ◌≤◌, min, String, ◌≡◌, refl, sym, ap, ◌∙◌, inl, inr, Bool, true, false,
  not, ◌||◌, Option, none, some, List, [], ◌∷◌, arith, ltb, leb, if◌then◌else◌, Bool-cases,
  Option-cases, ◌==◌, beq_self, string_eq, option_eq, pair_eq, All, contains,
}
use proxysplit.Breaker.{State, closed, opened, half_open, is_open, is_half_open}
use proxysplit.Dict.{
  Dict, Unique, lookup, lookup-insert, insert-Unique, insert, contains-keys_where,
}
use proxysplit.PoolBreaker.{
  Key, Entry, PoolBreaker, entry, open_entry, record_failure, record_success, allow_request,
  is_blocked, urls_of, blocked_for, release,
}

pub data Event : Type 0 where
  fails : ℕ → ℕ → Key → ℕ → Event
  succeeds : Key → Event
  allows : ℕ → Key → Event
  releases : Key → Event

abbrev pub key_of : Event → Key
key_of (fails now wall key consecutive) = key
key_of (succeeds key) = key
key_of (allows now key) = key
key_of (releases key) = key

unfoldable pub step : Event → PoolBreaker → PoolBreaker
step (fails now wall (url, pool) consecutive) b = record_failure now wall url pool consecutive b
step (succeeds (url, pool)) b = record_success url pool b
step (allows now (url, pool)) b = (allow_request now url pool b).0
step (releases (url, pool)) b = release url pool b

unfoldable pub run : List Event → PoolBreaker → PoolBreaker
unfolding step
run [] b = b
run (e ∷ es) b = run es (step e b)

lookup-other :
    (key k : Key) (v : Entry) (d : Dict Key Entry)
    → (key == k) ≡ false
    → lookup k (insert key v d) ≡ lookup k d
lookup-other key k v d differ = lookup-insert key k v d ∙ rw differ refl

lookup-allowed :
    (now : ℕ) (key k : Key) (e : Entry) (b : PoolBreaker)
    → (key == k) ≡ false
    → (st : State)
    → lookup k (
        let r : PoolBreaker × Bool = elim st [
          | closed ↦ (b, true)
          | opened ↦ if ltb now e.open_until then (b, false) else (
            record b { breakers = insert key (record e { state = half_open }) b.breakers },
            true,
          )
          | half_open ↦ (b, true)
        ] in
        r.0.breakers)
      ≡ lookup k b.breakers
lookup-allowed now key k e b differ closed = refl
lookup-allowed now key k e b differ opened = elim (Bool-cases (ltb now e.open_until)) [
  | inl p ↦ rw p refl
  | inr p ↦ rw p (lookup-other key k _ b.breakers differ)
]
lookup-allowed now key k e b differ half_open = refl

lookup-step :
    (k : Key) (e : Event) (b : PoolBreaker)
    → (key_of e == k) ≡ false
    → lookup k (step e b).breakers ≡ lookup k b.breakers
unfolding step record_failure record_success allow_request release
lookup-step k (fails now wall key consecutive) b differ =
    elim (Bool-cases (ltb consecutive b.threshold)) [
      | inl p ↦ rw (p, record_failure) refl
      | inr p ↦ rw (p, record_failure) (lookup-other key k _ b.breakers differ)
    ]
lookup-step k (succeeds key) b differ = elim (Option-cases (lookup key b.breakers)) [
  | inl p ↦ rw (p, record_success) refl
  | inr (e, p) ↦
      rw (p, record_success)
        (elim (Bool-cases (is_half_open e.state)) [
          | inl q ↦ rw q (lookup-other key k _ b.breakers differ)
          | inr q ↦ rw q refl
        ])
]
lookup-step k (allows now key) b differ = elim (Option-cases (lookup key b.breakers)) [
  | inl p ↦ rw (p, step, allow_request) refl
  | inr (e, p) ↦ rw (p, step, allow_request) (lookup-allowed now key k e b differ e.state)
]
lookup-step k (releases key) b differ = elim (Option-cases (lookup key b.breakers)) [
  | inl p ↦ rw (p, release) refl
  | inr (e, p) ↦ rw (p, release) (lookup-other key k _ b.breakers differ)
]

lookup-run :
    (k : Key) (es : List Event) (b : PoolBreaker)
    → All (λ e. (key_of e == k) ≡ false) es
    → lookup k (run es b).breakers ≡ lookup k b.breakers
unfolding run
lookup-run k [] b others = refl
lookup-run k (e ∷ es) b others = lookup-run k es (step e b) others.1 ∙ lookup-step k e b others.0

abbrev answers : ℕ → Option Entry → Bool
answers now none = true
answers now (some e) = not (is_open e.state) || not (ltb now e.open_until)

allow_request-answers :
    (now : ℕ) (key : Key) (b : PoolBreaker)
    → (allow_request now key.0 key.1 b).1 ≡ answers now (lookup key b.breakers)
unfolding allow_request
allow_request-answers now (url, pool) b = ground arith

-- Whatever happens to other proxies, and to the same proxy in other pools, a proxy is answered for a
-- pool as before.
pub allow_request-run :
    (now : ℕ) (url : String) (pool : Option String) (es : List Event) (b : PoolBreaker)
    → All (λ e. (key_of e == (url, pool)) ≡ false) es
    → (allow_request now url pool (run es b)).1 ≡ (allow_request now url pool b).1
allow_request-run now url pool es b others =
    allow_request-answers now (url, pool) (run es b)
    ∙ ap (answers now) (lookup-run (url, pool) es b others)
    ∙ sym (allow_request-answers now (url, pool) b)

contains-urls_of :
    (url : String) (pool : Option String) (keys : List Key)
    → contains (urls_of pool keys) url ≡ contains keys (url, pool)
contains-urls_of url pool [] = refl
contains-urls_of url pool ((u, p) ∷ keys) = ground (arith, contains-urls_of url pool keys)

blocked_for-urls_of :
    (now : ℕ) (url : String) (pool : Option String) (b : PoolBreaker)
    → Unique b.breakers
    → contains (blocked_for now pool b) url
      ≡ elim (lookup (url, pool) b.breakers) [ none ↦ false | some e ↦ is_blocked now e ]
unfolding blocked_for
blocked_for-urls_of now url pool b u =
    contains-urls_of url pool _ ∙ contains-keys_where (is_blocked now) (url, pool) b.breakers u

bans_breakers :
    (now wall : ℕ) (url : String) (pool : Option String) (consecutive : ℕ) (b : PoolBreaker)
    → b.threshold ≤ consecutive
    → is_open (entry (url, pool) b).state ≡ false
    → (record_failure now wall url pool consecutive b).breakers
      ≡ insert (url, pool) (open_entry b now wall (entry (url, pool) b)) b.breakers
unfolding record_failure
bans_breakers now wall url pool consecutive b many closed_now =
    let below : ltb consecutive b.threshold ≡ false = ground arith in
    rw (below, record_failure) (rw closed_now refl)

answers-open_entry :
    (now wall later : ℕ) (e : Entry) (b : PoolBreaker)
    → let until = now + min (b.base_delay * 2 ^ e.strike) b.max_delay in
      (answers later (some (open_entry b now wall e)) ≡ leb until later)
      × (is_blocked later (open_entry b now wall e) ≡ ltb later until)
unfolding open_entry is_blocked
answers-open_entry now wall later e b =
    let same : e.strike + 1 - 1 ≡ e.strike = omega arith in
    (rw same (ground arith), rw same (ground arith))

-- A row of failures of a proxy in a pool that reaches the threshold bans a proxy that is not already
-- banned there, for `base_delay * 2 ** strike` and at most `max_delay`: until then, and no longer, it
-- is blocked for the pool and refused, and its entries for other pools stay as they were.
pub record_failure-bans_pool :
    (now wall later : ℕ) (url : String) (pool other : Option String) (consecutive : ℕ)
    (b : PoolBreaker)
    → Unique b.breakers
    → b.threshold ≤ consecutive
    → is_open (entry (url, pool) b).state ≡ false
    → (pool == other) ≡ false
    → let b' = record_failure now wall url pool consecutive b in
      let until = now + min (b.base_delay * 2 ^ (entry (url, pool) b).strike) b.max_delay in
      ((allow_request later url pool b').1 ≡ leb until later)
      × (contains (blocked_for later pool b') url ≡ ltb later until)
      × (lookup (url, other) b'.breakers ≡ lookup (url, other) b.breakers)
record_failure-bans_pool now wall later url pool other consecutive b u many closed_now differ =
    let b' = record_failure now wall url pool consecutive b in
    let e = open_entry b now wall (entry (url, pool) b) in
    let stored = bans_breakers now wall url pool consecutive b many closed_now in
    let found : lookup (url, pool) b'.breakers ≡ some e =
      rw stored (lookup-insert (url, pool) (url, pool) e b.breakers ∙ rw beq_self refl) in
    let (answered, blocked) = answers-open_entry now wall later (entry (url, pool) b) b in
    (
      allow_request-answers later (url, pool) b' ∙ rw found answered,
      blocked_for-urls_of later url pool b' (rw stored (insert-Unique (url, pool) e b.breakers u))
          ∙ rw found blocked,
      rw stored (lookup-other (url, pool) (url, other) e b.breakers (ground arith)),
    )
