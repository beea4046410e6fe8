-- ===== src/Stats/Coherence.antt =====
-- proxy/stats/proxy_stats.py: the cached score against the entry that it is a score of.
use proxysplit.Base.{
  String, ◌≡◌, refl, sym, inl, inr, some, List, [], ◌∷◌, arith, Bool-cases, Option-cases, ◌==◌,
  string_eq,
}
use mathlib.Core.Option
use mathlib.Core.Option.{some-injective}
use proxysplit.Dict.{lookup, lookup-insert, lookup-remove, insert}
use proxysplit.Float.{Float}
use proxysplit.Stats.{
  Entry, ProxyStats, new_entry, entry, invalidate_score, record_success, record_failure,
  seed_latency, reset_consecutive_failures, get_consecutive_failures, evict,
}
use proxysplit.Stats.Score.{raw_score, success_ratio, score_entry, score, scores_snapshot}
use proxysplit.Stats.Counts.{Call, succeeds, fails, seeds, resets, reads, evicts, step}

module _ (𝓕 : Float) where
  open 𝓕 use {F}

  -- The cache is empty, or holds the score that the entry has at some time.
  abbrev IsFresh : Entry 𝓕 → Type 0
  IsFresh e = (s : F) → e.score_cache ≡ some s → (t : F) × (raw_score 𝓕 t e ≡ s)

  abbrev AllFresh : ProxyStats 𝓕 → Type 0
  AllFresh d = (u : String) (e : Entry 𝓕) → lookup u d ≡ some e → IsFresh e

  entry-IsFresh : (u : String) (d : ProxyStats 𝓕) → AllFresh d → IsFresh (entry 𝓕 u d)
  unfolding entry new_entry
  entry-IsFresh u d h = elim (Option-cases (lookup u d)) [
    | inl e ↦ rw (e, entry) (λ s p. cc)
    | inr (x, e) ↦ rw (e, entry) (h u x e)
  ]

  insert-AllFresh :
      (u : String) (e : Entry 𝓕) (d : ProxyStats 𝓕)
      → IsFresh e
      → AllFresh d
      → AllFresh (insert u e d)
  insert-AllFresh u e d fresh h v x p = elim (Bool-cases (u == v)) [
    | inl same ↦ let q : e ≡ x = ground (arith, lookup-insert u v e d) in rw (← q) fresh
    | inr other ↦ h v x (ground (arith, lookup-insert u v e d))
  ]

  reset-IsFresh : (e : Entry 𝓕) → IsFresh e → IsFresh (record e { consecutive_failures = 0 })
  unfolding raw_score success_ratio
  reset-IsFresh e h s p = h s p

  step-AllFresh : (c : Call 𝓕) (d : ProxyStats 𝓕) → AllFresh d → AllFresh (step 𝓕 c d)
  unfolding step record_success record_failure seed_latency reset_consecutive_failures
      get_consecutive_failures evict invalidate_score
  step-AllFresh (succeeds now url nbytes latency) d h = insert-AllFresh url _ d (λ s p. cc) h
  step-AllFresh (fails now url) d h = insert-AllFresh url _ d (λ s p. cc) h
  step-AllFresh (seeds now url latency nbytes) d h = insert-AllFresh url _ d (λ s p. cc) h
  step-AllFresh (resets url) d h =
      insert-AllFresh url _ d (reset-IsFresh (entry 𝓕 url d) (entry-IsFresh url d h)) h
  step-AllFresh (reads url) d h = insert-AllFresh url _ d (entry-IsFresh url d h) h
  step-AllFresh (evicts url) d h = λ u e p. h u e (ground (arith, lookup-remove url u d))

  score_entry-raw_score :
      (now : F) (e : Entry 𝓕) → IsFresh e → (t : F) × ((score_entry 𝓕 now e).1 ≡ raw_score 𝓕 t e)
  unfolding score_entry raw_score
  score_entry-raw_score now e h = elim (Option-cases e.score_cache) [
    | inl p ↦ (now, rw p)
    | inr (s, p) ↦ let (t, q) = h s p in (t, rw p (sym q))
  ]

  cache-IsFresh : (now : F) (e : Entry 𝓕) → IsFresh e → IsFresh (score_entry 𝓕 now e).0
  unfolding score_entry raw_score success_ratio
  cache-IsFresh now e h = elim (Option-cases e.score_cache) [
    | inl p ↦ rw (p, score_entry) (λ s q. (now, some-injective _ _ q))
    | inr (s, p) ↦ rw (p, score_entry) h
  ]

  score-AllFresh :
      (now : F) (u : String) (d : ProxyStats 𝓕) → AllFresh d → AllFresh (score 𝓕 now u d).0
  unfolding score
  score-AllFresh now u d h = elim (Option-cases (lookup u d)) [
    | inl p ↦ rw (p, score) h
    | inr (e, p) ↦ rw (p, score) (insert-AllFresh u _ d (cache-IsFresh now e (h u e p)) h)
  ]

  lookup-snapshot :
      (now : F) (u : String) (d : ProxyStats 𝓕)
      → lookup u (scores_snapshot 𝓕 now d).0
        ≡ Option.map (λ e. (score_entry 𝓕 now e).0) (lookup u d)
  unfolding scores_snapshot lookup
  lookup-snapshot now u [] = refl
  lookup-snapshot now u ((v, e) ∷ d) = ground (arith, lookup-snapshot now u d)

  snapshot-AllFresh :
      (now : F) (d : ProxyStats 𝓕) → AllFresh d → AllFresh (scores_snapshot 𝓕 now d).0
  unfolding scores_snapshot
  snapshot-AllFresh now d h u e p = elim (Option-cases (lookup u d)) [
    | inl q ↦ λ s r. ground (arith, lookup-snapshot now u d)
    | inr (x, q) ↦
        let r : (score_entry 𝓕 now x).0 ≡ e = ground (arith, lookup-snapshot now u d) in
        rw (← r) (cache-IsFresh now x (h u x q))
  ]

  -- The writes, and the two reads that fill the cache.
  pub data Access : Type 0 where
    calls : Call 𝓕 → Access
    scores : F → String → Access
    snapshots : F → Access

  unfoldable pub access : Access → ProxyStats 𝓕 → ProxyStats 𝓕
  access (calls c) d = step 𝓕 c d
  access (scores now u) d = (score 𝓕 now u d).0
  access (snapshots now) d = (scores_snapshot 𝓕 now d).0

  unfoldable pub run_accesses : List Access → ProxyStats 𝓕
  unfolding access
  run_accesses [] = []
  run_accesses (a ∷ h) = access a (run_accesses h)

  access-AllFresh : (a : Access) (d : ProxyStats 𝓕) → AllFresh d → AllFresh (access a d)
  unfolding access
  access-AllFresh (calls c) d h = step-AllFresh c d h
  access-AllFresh (scores now u) d h = score-AllFresh now u d h
  access-AllFresh (snapshots now) d h = snapshot-AllFresh now d h

  run_accesses-AllFresh : (h : List Access) → AllFresh (run_accesses h)
  unfolding run_accesses lookup
  run_accesses-AllFresh [] = λ u e p. cc
  run_accesses-AllFresh (a ∷ h) = access-AllFresh a (run_accesses h) (run_accesses-AllFresh h)

  -- After any writes and score reads from an empty table, the score that is returned for a proxy in
  -- the table is the score of its present counters and samples at some time: no write leaves a
  -- cached score of older counters behind.
  pub score-run_accesses :
      (h : List Access) (now : F) (u : String) (e : Entry 𝓕)
      → lookup u (run_accesses h) ≡ some e
      → (t : F) × ((score 𝓕 now u (run_accesses h)).1 ≡ raw_score 𝓕 t e)
  unfolding score
  score-run_accesses h now u e p =
      rw (p, score) (score_entry-raw_score now e (run_accesses-AllFresh h u e p))
