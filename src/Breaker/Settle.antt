-- ===== src/Breaker/Settle.antt =====
-- proxy/circuit_breaker.py: an entry is put back and its pending probe event is set; what is kept.
use proxysplit.Base.{
  ℕ, ◌<◌, String, ◌≡◌, refl, ◌⊎◌, inl, inr, Bool, true, false, none, some, arith, if◌then◌else◌,
  Bool-cases, ◌==◌, beq_self, string_eq, nat_eq, contains,
}
use proxysplit.Dict.{lookup, insert, lookup-insert, lookup-remove, Unique, insert-Unique}
use proxysplit.Breaker.{Entry, Breaker, init, fire, is_half_open}

unfoldable pub half_at : String → Breaker → Bool
half_at u b = elim (lookup u b.breakers) [ none ↦ false | some e ↦ is_half_open e.state ]

unfoldable pub pending : String → Breaker → Bool
pending u b = elim (lookup u b.probe_events) [ none ↦ false | some k ↦ true ]

pub record Inv (b : Breaker) : Type 0 where
  pub unique : Unique b.breakers
  pub probing : (u : String) → half_at u b ≡ pending u b
  pub made : (u : String) (k : ℕ) → lookup u b.probe_events ≡ some k → k < b.next_event
  pub one_owner :
      (u v : String) (k : ℕ)
      → lookup u b.probe_events ≡ some k
      → lookup v b.probe_events ≡ some k
      → u ≡ v
  pub kept :
      (k : ℕ)
      → k < b.next_event
      → (contains b.set_events k ≡ true) ⊎ ((u : String) × (lookup u b.probe_events ≡ some k))

pub init-Inv : (t base most : ℕ) → Inv (init t base most)
unfolding init half_at pending lookup
init-Inv t base most = record {
  unique = tt;
  probing = λ u. refl;
  made = λ u k h. cc;
  one_owner = λ u v k h g. cc;
  kept = λ k h. absurd (omega arith);
}

module _ (url : String) (e : Entry) (b : Breaker) where
  abbrev pub put_entry : Breaker
  put_entry = record b { breakers = insert url e b.breakers }

  pub half_at-put_entry :
      (u : String) → half_at u put_entry ≡ (if url == u then is_half_open e.state else half_at u b)
  unfolding half_at
  half_at-put_entry u = ground (arith, lookup-insert url u e b.breakers)

-- `fire` leaves the entries as they are, and no event of the proxy behind.
module _ (url : String) (b : Breaker) where
  pub fire_breakers : (fire url b).breakers ≡ b.breakers
  unfolding fire
  fire_breakers = ground arith

  pub half_at-fire : (u : String) → half_at u (fire url b) ≡ half_at u b
  unfolding half_at
  half_at-fire u = rw fire_breakers

  pub lookup-fire :
      (u : String)
      → lookup u (fire url b).probe_events ≡ (if url == u then none else lookup u b.probe_events)
  unfolding fire
  lookup-fire u = ground (arith, lookup-remove url u b.probe_events, string_eq.beq_iff url u)

  next_event-fire : (fire url b).next_event ≡ b.next_event
  unfolding fire
  next_event-fire = ground arith

  -- An event that is no longer pending is set.
  pub set_events-fire :
      (k : ℕ) → lookup url b.probe_events ≡ some k → contains (fire url b).set_events k ≡ true
  unfolding fire
  set_events-fire k h = ground (arith, beq_self k)

  pub set_events-fire_mono :
      (k : ℕ) → contains b.set_events k ≡ true → contains (fire url b).set_events k ≡ true
  unfolding fire
  set_events-fire_mono k h = ground arith

-- A proxy that is not being probed may lose its event.
pub fire-Inv :
    (url : String) (b : Breaker)
    → Unique b.breakers
    → ((u : String) → (url == u) ≡ false → half_at u b ≡ pending u b)
    → half_at url b ≡ false
    → ((u : String) (k : ℕ) → lookup u b.probe_events ≡ some k → k < b.next_event)
    → ((u v : String) (k : ℕ)
        → lookup u b.probe_events ≡ some k
        → lookup v b.probe_events ≡ some k
        → u ≡ v)
    → ((k : ℕ)
        → k < b.next_event
        → (contains b.set_events k ≡ true) ⊎ ((u : String) × (lookup u b.probe_events ≡ some k)))
    → Inv (fire url b)
unfolding pending
fire-Inv url b unique others idle made one_owner kept = record {
  unique = rw fire_breakers unique;
  probing = λ u.
      rw half_at-fire
        (ground (arith, lookup-fire url b u, others u, string_eq.beq_iff url u, idle));
  made = λ u k h. rw next_event-fire (made u k (ground (arith, lookup-fire url b u)));
  one_owner = λ u v k h g.
      one_owner u v k (ground (arith, lookup-fire url b u)) (ground (arith, lookup-fire url b v));
  kept = λ k h. elim (kept k (rw next_event-fire at h)) [
    | inl old ↦ inl (set_events-fire_mono url b k old)
    | inr (u, p) ↦ elim (Bool-cases (url == u)) [
      | inl same ↦ inl (set_events-fire url b k (rw (← (string_eq.beq_iff url u).0 same) at p))
      | inr other ↦ inr (u, ground (arith, lookup-fire url b u))
    ]
  ];
}

-- A probe that ends: the entry leaves HALF_OPEN, and its event is set.
pub settle-Inv :
    (url : String) (e : Entry) (b : Breaker)
    → Inv b
    → is_half_open e.state ≡ false
    → Inv (fire url (put_entry url e b))
unfolding pending
settle-Inv url e b v h =
    fire-Inv url (put_entry url e b) (insert-Unique url e b.breakers v.unique)
      (λ u other. rw (half_at-put_entry, other) (v.probing u))
      (rw (half_at-put_entry, beq_self url) h) v.made v.one_owner v.kept

-- An entry that is written back as it was.
pub put_entry-Inv :
    (url : String) (e : Entry) (b : Breaker)
    → Inv b
    → is_half_open e.state ≡ half_at url b
    → Inv (put_entry url e b)
unfolding pending
put_entry-Inv url e b v h = record {
  unique = insert-Unique url e b.breakers v.unique;
  probing = λ u. rw half_at-put_entry (ground (arith, v.probing u, string_eq.beq_iff url u, h));
  made = v.made;
  one_owner = v.one_owner;
  kept = v.kept;
}
