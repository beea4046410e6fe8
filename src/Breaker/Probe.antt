-- ===== src/Breaker/Probe.antt =====
-- proxy/circuit_breaker.py: the one probe that HALF_OPEN lets through.
use proxysplit.Base.{
  ℕ, ◌≤◌, ◌<◌, String, ◌≡◌, ◌⊎◌, inl, inr, true, false, some, List, [], ◌∷◌, arith, ltb, lt→ltb,
  Bool-cases, Option-cases, ◌==◌, string_eq, All,
}
use proxysplit.Dict.{lookup, insert, lookup-insert}
use proxysplit.Breaker.{
  opened, half_open, Entry, Breaker, answer, wait, FailureCounter, entry, fire, is_open,
  is_half_open, record_failure, allow_request, recheck, record_success, release,
}
use proxysplit.Breaker.Invariant.{
  Event, fails, succeeds, allows, releases, allow_request-cases, step, run,
}
use proxysplit.Breaker.Settle.{half_at, half_at-put_entry, half_at-fire, lookup-fire}

-- The steps that do not end the probe of a proxy: what concerns other proxies, requests to be
-- allowed, and failures in a row that is still below the threshold.
abbrev pub Quiet : ℕ → String → Event → Type 0
Quiet t url (fails now wall u consecutive reason) = ((u == url) ≡ false) ⊎ (consecutive < t)
Quiet t url (succeeds u) = (u == url) ≡ false
Quiet t url (allows now u) = Unit
Quiet t url (releases u) = (u == url) ≡ false

-- The proxy is being probed, and those that ask wait for the event `k`.
pub record Probing (url : String) (k t : ℕ) (b : Breaker) : Type 0 where
  pub half : half_at url b ≡ true
  pub event : lookup url b.probe_events ≡ some k
  pub limit : b.threshold ≡ t

threshold-fire : (url : String) (b : Breaker) → (fire url b).threshold ≡ b.threshold
unfolding fire
threshold-fire url b = ground arith

-- What happens to another proxy's entry.
settle-Probing :
    (u url : String) (e : Entry) (k t : ℕ) (b : Breaker)
    → (u == url) ≡ false
    → Probing url k t b
    → Probing url k t (fire u (record b { breakers = insert u e b.breakers }))
settle-Probing u url e k t b other p = record {
  half = rw half_at-fire (rw (half_at-put_entry, other) p.half);
  event = rw (lookup-fire, other) p.event;
  limit = rw threshold-fire p.limit;
}

probe-starts :
    (now : ℕ) (url : String) (e : Entry) (b : Breaker)
    → lookup url b.breakers ≡ some e
    → e.state ≡ opened
    → e.open_until ≤ now
    → ((allow_request now url b).1 ≡ answer true)
      × Probing url b.next_event b.threshold (allow_request now url b).0
unfolding allow_request half_at
probe-starts now url e b p o h =
    rw (p, allow_request)
      (rw o (
        ground (
          arith,
          lookup-insert url url (record e { state = half_open }) b.breakers,
          lookup-insert url url b.next_event b.probe_events,
          string_eq.beq_iff url url,
        )))

module _ (counter : FailureCounter) where
  fails-Probing :
      (now wall : ℕ) (u : String) (consecutive : ℕ) (reason : String) (url : String) (k t : ℕ)
      (b : Breaker)
      → ((u == url) ≡ false) ⊎ (consecutive < t)
      → Probing url k t b
      → Probing url k t (record_failure now wall u consecutive reason b)
  unfolding record_failure
  fails-Probing now wall u consecutive reason url k t b (inr few) p =
      rw (lt→ltb consecutive b.threshold (rw p.limit few), record_failure) p
  fails-Probing now wall u consecutive reason url k t b (inl other) p =
      elim (Bool-cases (ltb consecutive b.threshold)) [
        | inl few ↦ rw (few, record_failure) p
        | inr many ↦ elim (Bool-cases (is_open (entry u b).state)) [
          | inl q ↦
              rw (many, q, record_failure)
                (record {
                  half = rw (half_at-put_entry, other) p.half;
                  event = p.event;
                  limit = p.limit;
                })
          | inr q ↦ rw (many, q, record_failure) (settle-Probing u url _ k t b other p)
        ]
      ]

  succeeds-Probing :
      (u url : String) (k t : ℕ) (b : Breaker) (s : counter.Stats)
      → (u == url) ≡ false
      → Probing url k t b
      → Probing url k t (record_success counter u (b, s)).0
  unfolding record_success
  succeeds-Probing u url k t b s other p = elim (Option-cases (lookup u b.breakers)) [
    | inl q ↦ rw (q, record_success) p
    | inr (e, q) ↦ elim (Bool-cases (is_half_open e.state)) [
      | inl h ↦ rw (q, record_success) (rw h (settle-Probing u url _ k t b other p))
      | inr h ↦ rw (q, record_success) (rw h p)
    ]
  ]

  fire-Probing :
      (u url : String) (k t : ℕ) (b : Breaker)
      → (u == url) ≡ false
      → Probing url k t b
      → Probing url k t (fire u b)
  fire-Probing u url k t b other p = record {
    half = rw half_at-fire p.half;
    event = rw (lookup-fire, other) p.event;
    limit = rw threshold-fire p.limit;
  }

  releases-Probing :
      (u url : String) (k t : ℕ) (b : Breaker) (s : counter.Stats)
      → (u == url) ≡ false
      → Probing url k t b
      → Probing url k t (release counter u (b, s)).0
  unfolding release
  releases-Probing u url k t b s other p = elim (Option-cases (lookup u b.breakers)) [
    | inl q ↦ rw (q, release) (fire-Probing u url k t b other p)
    | inr (e, q) ↦ rw (q, release) (settle-Probing u url _ k t b other p)
  ]

  allows-Probing :
      (now : ℕ) (u url : String) (k t : ℕ) (b : Breaker)
      → Probing url k t b
      → Probing url k t (allow_request now u b).0
  unfolding half_at
  allows-Probing now u url k t b p = elim (allow_request-cases now u b) [
    | inl q ↦ rw q p
    | inr (e, q, o, r) ↦ rw r (record {
      half =
          ground (arith, lookup-insert u url (record e { state = half_open }) b.breakers, p.half);
      event = ground (
        arith,
        lookup-insert u url b.next_event b.probe_events,
        string_eq.beq_iff u url,
        p.half,
        p.event,
      );
      limit = p.limit;
    })
  ]

  step-Probing :
      (url : String) (k t : ℕ) (ev : Event) (w : Breaker × counter.Stats)
      → Quiet t url ev
      → Probing url k t w.0
      → Probing url k t (step counter ev w).0
  unfolding step
  step-Probing url k t (fails now wall u consecutive reason) (b, s) q p =
      fails-Probing now wall u consecutive reason url k t b q p
  step-Probing url k t (succeeds u) (b, s) q p = succeeds-Probing u url k t b s q p
  step-Probing url k t (allows now u) (b, s) q p = allows-Probing now u url k t b p
  step-Probing url k t (releases u) (b, s) q p = releases-Probing u url k t b s q p

  run-Probing :
      (url : String) (k t : ℕ) (es : List Event) (w : Breaker × counter.Stats)
      → All (Quiet t url) es
      → Probing url k t w.0
      → Probing url k t (run counter es w).0
  unfolding run
  run-Probing url k t [] w q p = p
  run-Probing url k t (ev ∷ es) w q p =
      run-Probing url k t es (step counter ev w) q.1 (step-Probing url k t ev w q.0 p)

  Probing-waits :
      (now : ℕ) (url : String) (k t : ℕ) (b : Breaker)
      → Probing url k t b
      → (allow_request now url b ≡ (b, wait k)) × (recheck url b ≡ false)
  unfolding allow_request recheck half_at
  Probing-waits now url k t b p = (ground (arith, p.half, p.event), ground (arith, p.half))

  -- A proxy whose ban has run out lets one request through, the probe. Whatever then happens in any
  -- interleaving, as long as nothing ends the probe (no success or manual release of the proxy, and
  -- no failure of it in a row that reaches the threshold), every further request for the proxy is
  -- told to wait for the probe's event, leaves the breaker as it is, and is refused when it
  -- looks again after the wait.
  pub one_probe :
      (now later : ℕ) (url : String) (e : Entry) (b : Breaker) (s : counter.Stats) (es : List Event)
      → lookup url b.breakers ≡ some e
      → e.state ≡ opened
      → e.open_until ≤ now
      → All (Quiet b.threshold url) es
      → ((allow_request now url b).1 ≡ answer true)
        × (let after = (run counter es ((allow_request now url b).0, s)).0 in
            (allow_request later url after ≡ (after, wait b.next_event))
            × (recheck url after ≡ false))
  one_probe now later url e b s es p o h q =
      let (yes_answer, probing) = probe-starts now url e b p o h in
      (
        yes_answer,
        Probing-waits later url b.next_event b.threshold
            (run counter es ((allow_request now url b).0, s)).0
            (run-Probing url b.next_event b.threshold es ((allow_request now url b).0, s) q
              probing),
      )
