-- ===== src/Breaker/Invariant.antt =====
-- proxy/circuit_breaker.py: what holds of the breaker between any two steps.
use proxysplit.Base.{
  ℕ, ◌+◌, String, ◌≡◌, refl, ◌⊎◌, inl, inr, true, false, some, List, [], ◌∷◌, arith, ltb,
  Bool-cases, Option-cases, ◌==◌, string_eq, nat_eq,
}
use proxysplit.Dict.{lookup, insert, lookup-insert, insert-Unique}
use proxysplit.Breaker.{
  opened, half_open, Entry, Breaker, FailureCounter, init, entry, new_entry, is_open, is_half_open,
  record_failure, allow_request, record_success, release,
}
use proxysplit.Breaker.Settle.{half_at, pending, Inv, init-Inv, fire-Inv, settle-Inv, put_entry-Inv}

-- The steps of any number of threads, in the order in which they take the lock.
pub data Event : Type 0 where
  fails : ℕ → ℕ → String → ℕ → String → Event
  succeeds : String → Event
  allows : ℕ → String → Event
  releases : String → Event

pub not_half :
    (url : String) (b : Breaker)
    → is_open (entry url b).state ≡ true
    → is_half_open (entry url b).state ≡ half_at url b
unfolding entry new_entry half_at
not_half url b p = ground arith

record_failure-Inv :
    (now wall : ℕ) (url : String) (consecutive : ℕ) (reason : String) (b : Breaker)
    → Inv b
    → Inv (record_failure now wall url consecutive reason b)
unfolding record_failure
record_failure-Inv now wall url consecutive reason b v =
    elim (Bool-cases (ltb consecutive b.threshold)) [
      | inl few ↦ rw (few, record_failure) v
      | inr many ↦ elim (Bool-cases (is_open (entry url b).state)) [
        | inl p ↦
            rw (many, p, record_failure) (put_entry-Inv url (entry url b) b v (not_half url b p))
        | inr p ↦ rw (many, p, record_failure) (settle-Inv url _ b v refl)
      ]
    ]

record_success-Inv :
    (counter : FailureCounter) (url : String) (b : Breaker) (s : counter.Stats)
    → Inv b
    → Inv (record_success counter url (b, s)).0
unfolding record_success
record_success-Inv counter url b s v = elim (Option-cases (lookup url b.breakers)) [
  | inl p ↦ rw (p, record_success) v
  | inr (e, p) ↦ elim (Bool-cases (is_half_open e.state)) [
    | inl h ↦ rw (p, record_success) (rw h (settle-Inv url _ b v refl))
    | inr h ↦ rw (p, record_success) (rw h v)
  ]
]

release-Inv :
    (counter : FailureCounter) (url : String) (b : Breaker) (s : counter.Stats)
    → Inv b
    → Inv (release counter url (b, s)).0
unfolding release half_at
release-Inv counter url b s v = elim (Option-cases (lookup url b.breakers)) [
  | inl p ↦
      rw (p, release)
        (fire-Inv url b v.unique (λ u _. v.probing u) (rw (p, half_at)) v.made v.one_owner v.kept)
  | inr (e, p) ↦ rw (p, release) (settle-Inv url _ b v refl)
]

-- A probe that begins: the entry is HALF_OPEN, with a new event.
probe-Inv :
    (url : String) (e : Entry) (b : Breaker)
    → Inv b
    → half_at url b ≡ false
    → is_half_open e.state ≡ true
    → Inv (record b {
      breakers = insert url e b.breakers;
      probe_events = insert url b.next_event b.probe_events;
      next_event = b.next_event + 1;
    })
unfolding pending half_at
probe-Inv url e b v idle half = record {
  unique = insert-Unique url e b.breakers v.unique;
  probing = λ u. ground (
    arith,
    lookup-insert url u e b.breakers,
    lookup-insert url u b.next_event b.probe_events,
    v.probing u,
  );
  made = λ u k h. ground (arith, lookup-insert url u b.next_event b.probe_events, v.made u k);
  one_owner = λ u w k h g. ground (
    arith,
    lookup-insert url u b.next_event b.probe_events,
    lookup-insert url w b.next_event b.probe_events,
    v.made u k,
    v.made w k,
    v.one_owner u w k,
    string_eq.beq_iff url u,
    string_eq.beq_iff url w,
  );
  kept = λ k h. elim (Bool-cases (k == b.next_event)) [
    | inl new ↦ inr (
      url,
      ground (arith, lookup-insert url url b.next_event b.probe_events, string_eq.beq_iff url url),
    )
    | inr old ↦ elim (v.kept k (ground arith)) [
      | inl set ↦ inl set
      | inr (u, p) ↦ inr (
        u,
        ground (
          arith,
          lookup-insert url u b.next_event b.probe_events,
          string_eq.beq_iff url u,
          v.probing u,
        ),
      )
    ]
  ];
}

-- The state changes only where an expired ban makes the caller the probe.
pub allow_request-cases :
    (now : ℕ) (url : String) (b : Breaker)
    → ((allow_request now url b).0 ≡ b)
      ⊎ ((e : Entry) × (lookup url b.breakers ≡ some e)
          × (e.state ≡ opened)
          × ((allow_request now url b).0 ≡ record b {
            breakers = insert url (record e { state = half_open }) b.breakers;
            probe_events = insert url b.next_event b.probe_events;
            next_event = b.next_event + 1;
          }))
unfolding allow_request
allow_request-cases now url b = elim (Option-cases (lookup url b.breakers)) [
  | inl p ↦ inl (rw (p, allow_request))
  | inr (e, p) ↦ elim (Bool-cases (is_open e.state)) [
    | inl q ↦ elim (Bool-cases (ltb now e.open_until)) [
      | inl r ↦ inl (ground arith)
      | inr r ↦ inr (e, p, ground arith, ground arith)
    ]
    | inr q ↦ inl (ground arith)
  ]
]

allow_request-Inv : (now : ℕ) (url : String) (b : Breaker) → Inv b → Inv (allow_request now url b).0
unfolding half_at
allow_request-Inv now url b v = elim (allow_request-cases now url b) [
  | inl p ↦ rw p v
  | inr (e, p, q, r) ↦ rw r (probe-Inv url _ b v (rw (p, half_at) (rw q)) refl)
]

module _ (counter : FailureCounter) where
  unfoldable pub step : Event → Breaker × counter.Stats → Breaker × counter.Stats
  step (fails now wall url consecutive reason) (b, s) =
      (record_failure now wall url consecutive reason b, s)
  step (succeeds url) (b, s) = record_success counter url (b, s)
  step (allows now url) (b, s) = ((allow_request now url b).0, s)
  step (releases url) (b, s) = release counter url (b, s)

  unfoldable pub run : List Event → Breaker × counter.Stats → Breaker × counter.Stats
  unfolding step
  run [] w = w
  run (e ∷ es) w = run es (step e w)

  step-Inv : (e : Event) (w : Breaker × counter.Stats) → Inv w.0 → Inv (step e w).0
  unfolding step
  step-Inv (fails now wall url consecutive reason) (b, s) v =
      record_failure-Inv now wall url consecutive reason b v
  step-Inv (succeeds url) (b, s) v = record_success-Inv counter url b s v
  step-Inv (allows now url) (b, s) v = allow_request-Inv now url b v
  step-Inv (releases url) (b, s) v = release-Inv counter url b s v

  pub run-Inv : (es : List Event) (w : Breaker × counter.Stats) → Inv w.0 → Inv (run es w).0
  unfolding run
  run-Inv [] w v = v
  run-Inv (e ∷ es) w v = run-Inv es (step e w) (step-Inv e w v)

  -- Every interleaving of the steps, from a new breaker, keeps the invariant: a proxy is in
  -- HALF_OPEN exactly while it has a pending probe event, no two proxies share an event, and every
  -- event that was ever handed to a waiter is either still pending or set, so that no waiter is
  -- left on an event that nobody can set.
  pub run-init-Inv :
      (es : List Event) (t base most : ℕ) (s : counter.Stats) → Inv (run es (init t base most, s)).0
  run-init-Inv es t base most s = run-Inv es (init t base most, s) (init-Inv t base most)
