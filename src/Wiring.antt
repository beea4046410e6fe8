-- ===== src/Wiring.antt =====
-- proxy/session_pool.py: `record_failure` and `record_success`, by which fetches reach the statistics
-- and the circuit breaker. The statistics are the row of failures that the breaker ends.
pub mod Bans
use proxysplit.Base.{ℕ, String, ◌≡◌, arith, if◌then◌else◌, ◌==◌, string_eq}
use proxysplit.Breaker
use proxysplit.Breaker.{Breaker, FailureCounter}
use proxysplit.Dict.{lookup, lookup-insert}
use proxysplit.Float.{Float}
use proxysplit.Stats
use proxysplit.Stats.{ProxyStats}
use proxysplit.Stats.Counts.{entry-insert}

module _ (𝓕 : Float) where
  open 𝓕 use {F}

  pub row-reset :
      (u v : String) (d : ProxyStats 𝓕)
      → (Stats.entry 𝓕 v (Stats.reset_consecutive_failures 𝓕 u d)).consecutive_failures
        ≡ (if u == v then 0 else (Stats.entry 𝓕 v d).consecutive_failures)
  unfolding Stats.reset_consecutive_failures
  row-reset u v d = rw (entry-insert 𝓕) (ground (arith, string_eq.beq_iff u v))

  abbrev pub counter : FailureCounter
  counter = record {
    Stats = ProxyStats 𝓕;
    consecutive = λ u d. (Stats.entry 𝓕 u d).consecutive_failures;
    reset = Stats.reset_consecutive_failures 𝓕;
    consecutive-reset = row-reset;
  }

  unfoldable pub record_failure :
      F → ℕ → ℕ → String → ProxyStats 𝓕 × Breaker → ProxyStats 𝓕 × Breaker
  unfolding Stats.record_failure Breaker.record_failure
  record_failure at now wall url (d, b) =
      let (d', consec) = Stats.record_failure 𝓕 at url d in
      (d', Breaker.record_failure now wall url consec "consecutive failures" b)

  unfoldable pub record_success :
      F → String → ℕ → F → ProxyStats 𝓕 × Breaker → ProxyStats 𝓕 × Breaker
  unfolding Stats.record_success Breaker.record_success
  record_success at url nbytes latency (d, b) =
      let d' = Stats.record_success 𝓕 at url nbytes latency d in
      let (b', d'') = Breaker.record_success counter url (b, d') in (d'', b')
