-- ===== src/Health/Retest.antt =====
-- proxy/fetchers/health.py: what a retest does to a banned proxy, and what is checked at the start.
use proxysplit.Base.{
  ℕ, ◌+◌, max, String, ◌≡◌, refl, ◌∙◌, inl, inr, Bool, true, false, ◌&&◌, Option, some, List, [],
  ◌∷◌, arith, ltb, Bool-cases, beq_self, string_eq, nat_eq, length, contains, contains-append,
  contains-filter_by,
}
use proxysplit.Breaker
use proxysplit.Breaker.{
  Breaker, Entry, State, opened, closed, FailureCounter, release, state_for, fire, entry, is_open,
}
use proxysplit.Dict.{insert, lookup, lookup-insert}
use proxysplit.Health
use proxysplit.Health.{
  supported_schemes, has_scheme, filter_supported, is_alive, filter_live_proxies, retest,
}
use proxysplit.Registry.{Registry, Tags, add}

contains-filter_supported :
    (u : String) (proxies : List String)
    → contains (filter_supported proxies).0 u
      ≡ (contains proxies u && has_scheme supported_schemes u)
unfolding filter_supported
contains-filter_supported u [] = refl
contains-filter_supported u (p ∷ proxies) = elim (Bool-cases (has_scheme supported_schemes p)) [
  | inl h ↦
      rw (h, filter_supported)
        (ground (arith, contains-filter_supported u proxies, string_eq.beq_iff p u))
  | inr h ↦
      rw (h, filter_supported)
        (ground (arith, contains-filter_supported u proxies, string_eq.beq_iff p u))
]

length-filter_supported :
    (proxies : List String)
    → length (filter_supported proxies).0 + (filter_supported proxies).1 ≡ length proxies
unfolding filter_supported
length-filter_supported [] = refl
length-filter_supported (p ∷ proxies) = elim (Bool-cases (has_scheme supported_schemes p)) [
  | inl h ↦ rw (h, filter_supported) (omega (arith, length-filter_supported proxies))
  | inr h ↦ rw (h, filter_supported) (omega (arith, length-filter_supported proxies))
]

-- The proxies that are used are exactly those of a supported scheme that answered; and each proxy is
-- either checked or counted as skipped.
pub contains-filter_live_proxies :
    (check : String → Option Bool) (proxies : List String) (u : String)
    → (contains (filter_live_proxies check proxies) u
        ≡ (contains proxies u && has_scheme supported_schemes u && is_alive (check u)))
      × (length (filter_supported proxies).0 + (filter_supported proxies).1 ≡ length proxies)
unfolding filter_live_proxies
contains-filter_live_proxies check proxies u = (
  ground (
    arith,
    contains-filter_by (λ p. is_alive (check p)) (filter_supported proxies).0 u,
    contains-filter_supported u proxies,
  ),
  length-filter_supported proxies,
)

breakers-fire : (url : String) (b : Breaker) → (fire url b).breakers ≡ b.breakers
unfolding fire
breakers-fire url b = ground arith

entry-found :
    (url : String) (e : Entry) (b : Breaker) → lookup url b.breakers ≡ some e → entry url b ≡ e
unfolding entry
entry-found url e b p = rw (p, entry) refl

state_for-fire : (url : String) (b : Breaker) → state_for url (fire url b) ≡ state_for url b
unfolding state_for
state_for-fire url b = rw breakers-fire refl

state_for-found :
    (url : String) (e : Entry) (b : Breaker)
    → lookup url b.breakers ≡ some e
    → state_for url b ≡ e.state
unfolding state_for
state_for-found url e b p = rw (p, state_for) refl

release_closes :
    (counter : FailureCounter) (url : String) (e : Entry) (b : Breaker) (s : counter.Stats)
    → lookup url b.breakers ≡ some e
    → state_for url (release counter url (b, s)).0 ≡ closed
unfolding release
release_closes counter url e b s p =
    let b' : Breaker = record b {
      breakers = insert url (record e { state = closed; strike = 0 }) b.breakers;
    } in
    rw (p, release)
      (state_for-fire url b'
        ∙ state_for-found url (record e { state = closed; strike = 0 }) b'
            (lookup-insert url url (record e { state = closed; strike = 0 }) b.breakers
              ∙ rw beq_self refl))

release_resets :
    (counter : FailureCounter) (url : String) (b : Breaker) (s : counter.Stats)
    → counter.consecutive url (release counter url (b, s)).1 ≡ 0
unfolding release
release_resets counter url b s = counter.consecutive-reset url url s ∙ rw beq_self refl

contains-add :
    (url : String) (r : Registry) (tags : Tags) → contains (add url [] (r, tags)).0.0.all url ≡ true
unfolding add
contains-add url r tags = elim (Bool-cases (contains r.all url)) [
  | inl p ↦ rw (p, add) p
  | inr p ↦
      rw (p, add) (ground (arith, contains-append r.all (url ∷ []) url, string_eq.beq_iff url url))
]

-- A retest that fails leaves every ban as it was if the proxy is still OPEN when the check ends: a proxy
-- whose ban has run out is neither banned anew nor longer.
pub retest_failed :
    (counter : FailureCounter) (check : String → Bool) (now wall : ℕ) (url u : String) (e : Entry)
    (s : Health.State counter check)
    → lookup url s.breaker.breakers ≡ some e
    → e.state ≡ opened
    → check url ≡ false
    → lookup u (retest counter check now wall url s).breaker.breakers ≡ lookup u s.breaker.breakers
unfolding retest Breaker.record_failure
retest_failed counter check now wall url u e s p banned dead =
    let enough : ltb (max (counter.consecutive url s.stats) s.breaker.threshold) s.breaker.threshold
        ≡ false =
      ground arith in
    let same = entry-found url e s.breaker p in
    let still : is_open (entry url s.breaker).state ≡ true = rw (same, banned) refl in
    rw (dead, retest)
      (rw (enough, Breaker.record_failure)
        (rw still (
          lookup-insert url u (entry url s.breaker) s.breaker.breakers
          ∙ rw same (ground (arith, string_eq.beq_iff url u)))))

-- A retest that succeeds closes the breaker of the proxy, ends its row of failures, and puts it back
-- into the pool.
pub retest_passed :
    (counter : FailureCounter) (check : String → Bool) (now wall : ℕ) (url : String) (e : Entry)
    (s : Health.State counter check)
    → lookup url s.breaker.breakers ≡ some e
    → check url ≡ true
    → let s' = retest counter check now wall url s in
      (state_for url s'.breaker ≡ closed)
      × (counter.consecutive url s'.stats ≡ 0)
      × (contains s'.registry.all url ≡ true)
unfolding retest
retest_passed counter check now wall url e s p alive =
    rw (alive, retest)
      (
        release_closes counter url e s.breaker s.stats p,
        release_resets counter url s.breaker s.stats,
        contains-add url s.registry s.tags,
      )
