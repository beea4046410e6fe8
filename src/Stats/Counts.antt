-- ===== src/Stats/Counts.antt =====
-- proxy/stats/proxy_stats.py: the counters against the history of the calls.
use proxysplit.Base.{
  ℕ, ◌+◌, String, ◌≡◌, refl, List, [], ◌∷◌, arith, if◌then◌else◌, ◌==◌, string_eq,
}
use proxysplit.Dict.{lookup, lookup-insert, lookup-remove, insert, remove}
use proxysplit.Float.{Float}
use proxysplit.Stats.{
  Entry, ProxyStats, new_entry, entry, invalidate_score, record_success, record_failure,
  seed_latency, reset_consecutive_failures, get_consecutive_failures, evict,
}

module _ (𝓕 : Float) where
  open 𝓕 use {F}

  -- The writes of `ProxyStats`, and the read that creates an entry.
  pub data Call : Type 0 where
    succeeds : F → String → ℕ → F → Call
    fails : F → String → Call
    seeds : F → String → F → ℕ → Call
    resets : String → Call
    reads : String → Call
    evicts : String → Call

  unfoldable pub step : Call → ProxyStats 𝓕 → ProxyStats 𝓕
  step (succeeds now url nbytes latency) d = record_success 𝓕 now url nbytes latency d
  step (fails now url) d = (record_failure 𝓕 now url d).0
  step (seeds now url latency nbytes) d = seed_latency 𝓕 now url latency nbytes d
  step (resets url) d = reset_consecutive_failures 𝓕 url d
  step (reads url) d = (get_consecutive_failures 𝓕 url d).0
  step (evicts url) d = evict 𝓕 url d

  -- A history has its last call first.
  unfoldable pub run : List Call → ProxyStats 𝓕
  unfolding step
  run [] = []
  run (c ∷ h) = step c (run h)

  -- What the history says of a proxy. An eviction forgets all that stands before it.
  unfoldable pub successes : String → List Call → ℕ
  successes u [] = 0
  successes u (succeeds now url nbytes latency ∷ h) =
      let n = successes u h in if url == u then n + 1 else n
  successes u (seeds now url latency nbytes ∷ h) =
      let n = successes u h in if url == u then n + 1 else n
  successes u (evicts url ∷ h) = let n = successes u h in if url == u then 0 else n
  successes u (_ ∷ h) = successes u h

  unfoldable pub failures : String → List Call → ℕ
  failures u [] = 0
  failures u (fails now url ∷ h) = let n = failures u h in if url == u then n + 1 else n
  failures u (evicts url ∷ h) = let n = failures u h in if url == u then 0 else n
  failures u (_ ∷ h) = failures u h

  unfoldable pub bytes : String → List Call → ℕ
  bytes u [] = 0
  bytes u (succeeds now url nbytes latency ∷ h) =
      let n = bytes u h in if url == u then n + nbytes else n
  bytes u (seeds now url latency nbytes ∷ h) =
      let n = bytes u h in if url == u then n + nbytes else n
  bytes u (evicts url ∷ h) = let n = bytes u h in if url == u then 0 else n
  bytes u (_ ∷ h) = bytes u h

  -- The failures after the last success, reset or eviction. A seeded latency does not end the row.
  unfoldable pub failures_in_row : String → List Call → ℕ
  failures_in_row u [] = 0
  failures_in_row u (fails now url ∷ h) =
      let n = failures_in_row u h in if url == u then n + 1 else n
  failures_in_row u (succeeds now url nbytes latency ∷ h) =
      let n = failures_in_row u h in if url == u then 0 else n
  failures_in_row u (resets url ∷ h) = let n = failures_in_row u h in if url == u then 0 else n
  failures_in_row u (evicts url ∷ h) = let n = failures_in_row u h in if url == u then 0 else n
  failures_in_row u (_ ∷ h) = failures_in_row u h

  pub entry-insert :
      (k u : String) (e : Entry 𝓕) (d : ProxyStats 𝓕)
      → entry 𝓕 u (insert k e d) ≡ (if k == u then e else entry 𝓕 u d)
  unfolding entry
  entry-insert k u e d = ground (arith, lookup-insert k u e d)

  entry-remove :
      (k u : String) (d : ProxyStats 𝓕)
      → entry 𝓕 u (remove k d) ≡ (if k == u then new_entry 𝓕 else entry 𝓕 u d)
  unfolding entry
  entry-remove k u d = ground (arith, lookup-remove k u d)

  pub record Counts (e : Entry 𝓕) (u : String) (h : List Call) : Type 0 where
    pub success : e.success ≡ successes u h
    pub failure : e.failure ≡ failures u h
    pub bytes_transferred : e.bytes_transferred ≡ bytes u h
    pub consecutive_failures : e.consecutive_failures ≡ failures_in_row u h

  step-Counts :
      (u : String) (c : Call) (h : List Call) (d : ProxyStats 𝓕)
      → ((v : String) → Counts (entry 𝓕 v d) v h)
      → Counts (entry 𝓕 u (step c d)) u (c ∷ h)
  unfolding step successes failures bytes failures_in_row record_success record_failure seed_latency
      reset_consecutive_failures get_consecutive_failures evict invalidate_score new_entry
  step-Counts u (succeeds now url nbytes latency) h d ih =
      rw entry-insert (ground (arith, ih u, ih url, string_eq.beq_iff url u))
  step-Counts u (fails now url) h d ih =
      rw entry-insert (ground (arith, ih u, ih url, string_eq.beq_iff url u))
  step-Counts u (seeds now url latency nbytes) h d ih =
      rw entry-insert (ground (arith, ih u, ih url, string_eq.beq_iff url u))
  step-Counts u (resets url) h d ih =
      rw entry-insert (ground (arith, ih u, ih url, string_eq.beq_iff url u))
  step-Counts u (reads url) h d ih =
      rw entry-insert (ground (arith, ih u, ih url, string_eq.beq_iff url u))
  step-Counts u (evicts url) h d ih =
      rw entry-remove (ground (arith, ih u, string_eq.beq_iff url u))

  -- After any calls, from an empty table, the entry of a proxy holds exactly what the history says:
  -- its successes, failures and bytes since its last eviction, and the length of its present row of
  -- failures.
  pub run-Counts : (h : List Call) (u : String) → Counts (entry 𝓕 u (run h)) u h
  unfolding run entry lookup new_entry successes failures bytes failures_in_row
  run-Counts [] u = record {
    success = refl;
    failure = refl;
    bytes_transferred = refl;
    consecutive_failures = refl;
  }
  run-Counts (c ∷ h) u = step-Counts u c h (run h) (λ v. run-Counts h v)
