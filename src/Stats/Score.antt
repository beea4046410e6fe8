-- ===== src/Stats/Score.antt =====
-- proxy/stats/proxy_stats.py: the composite score, its cache, and what is read from it.
use proxysplit.Base.{
  ℕ, ◌+◌, ◌-◌, ◌/◌, ◌%◌, String, none, some, List, [], ◌∷◌, map, leb, if◌then◌else◌, ◌==◌, nat_eq,
  string_eq, length, get_elem?, last_or,
}
use proxysplit.Dict.{Dict, lookup, insert}
use proxysplit.Float
use proxysplit.Float.{Float}
use proxysplit.Stats.{Entry, ProxyStats, entry}

module _ (𝓕 : Float) where
  open 𝓕 use {F, lit, of_ℕ, add, sub, mul, div, lt, le, trunc, exp_neg, log_two}

  -- `_decay_weight`
  unfoldable pub decay_weight : F → F → F
  decay_weight now ts =
      let age = Float.max 𝓕 (lit 0 0) (sub now ts) in exp_neg (div (mul age log_two) (lit 300 0))

  -- `sorted(pairs, key=lambda x: x[0])` is stable: a new element goes behind its equals.
  unfoldable pub insert_sorted {ℓ} : {A : Type ℓ} → (A → F) → A → List A → List A
  insert_sorted key x [] = x ∷ []
  insert_sorted key x (y ∷ ys) =
      let rest = insert_sorted key x ys in if lt (key x) (key y) then x ∷ y ∷ ys else y ∷ rest

  unfoldable pub sorted_from {ℓ} : {A : Type ℓ} → (A → F) → List A → List A → List A
  unfolding insert_sorted
  sorted_from key acc [] = acc
  sorted_from key acc (x ∷ xs) = sorted_from key (insert_sorted key x acc) xs

  abbrev pub sorted {ℓ} : {A : Type ℓ} → (A → F) → List A → List A
  sorted key xs = sorted_from key [] xs

  -- The loop over the sorted pairs that finds the weighted 95th percentile; `p95` is its value so
  -- far, the greatest latency if the threshold is not reached.
  unfoldable pub p95_loop : F → F → F → List (F × F) → F
  p95_loop threshold cumulative p95 [] = p95
  p95_loop threshold cumulative p95 ((lat, w) ∷ rest) =
      let cumulative' = add cumulative w in
      let next = p95_loop threshold cumulative' p95 rest in
      if le threshold cumulative' then lat else next

  unfoldable pub weighted_avg : List (F × F) → F → F
  weighted_avg pairs total_w = div (Float.sum 𝓕 (map (λ p. mul p.1 p.0) pairs)) total_w

  -- The blend of the average and the percentile, from the samples that are not empty.
  unfoldable pub blend_ms : F → List (F × F) → F
  unfolding decay_weight sorted_from p95_loop weighted_avg
  blend_ms now samples =
      let pairs : List (F × F) = map (λ s. (s.1, decay_weight now s.0)) samples in
      let lats = map (λ s. s.1) samples in
      let total_w = Float.sum 𝓕 (map (λ p. p.1) pairs) in
      if le total_w (lit 0 0)
      then div (Float.sum 𝓕 lats) (of_ℕ (length lats))
      else (let avg = weighted_avg pairs total_w in
          let ordered = sorted (λ p. p.0) pairs in
          if leb 5 (length samples)
          then add (mul (lit 6 1) avg) (
              mul (lit 4 1) (
                p95_loop (mul (lit 95 2) total_w) (lit 0 0)
                  (last_or (map (λ p. p.0) ordered) (lit 0 0)) ordered))
          else avg)

  unfoldable pub success_ratio : Entry 𝓕 → F
  success_ratio e =
      let total = e.success + e.failure in
      if total == 0 then lit 5 1 else div (of_ℕ e.success) (of_ℕ total)

  -- `_score` below its cache.
  unfoldable pub raw_score : F → Entry 𝓕 → F
  unfolding blend_ms success_ratio
  raw_score now e = elim e.latency_ms [
    | [] ↦ div (success_ratio e) (lit 2 0)
    | s ∷ rest ↦ div (success_ratio e) (add (lit 1 0) (div (blend_ms now (s ∷ rest)) (lit 1000 0)))
  ]

  -- `_score`: the cached score, or a new one that is cached.
  unfoldable pub score_entry : F → Entry 𝓕 → Entry 𝓕 × F
  score_entry now e = elim e.score_cache [
    | some s ↦ (e, s)
    | none ↦ let s = raw_score now e in (record e { score_cache = some s }, s)
  ]

  unfoldable pub score : F → String → ProxyStats 𝓕 → ProxyStats 𝓕 × F
  score now url d = elim (lookup url d) [
    | none ↦ (d, lit 5 1)
    | some e ↦ let (e', s) = score_entry now e in (insert url e' d, s)
  ]

  unfoldable pub success_rate : String → ProxyStats 𝓕 → F
  success_rate url d = elim (lookup url d) [ none ↦ lit 5 1 | some e ↦ success_ratio e ]

  unfoldable pub throughput : String → ProxyStats 𝓕 → F
  throughput url d = elim (lookup url d) [
    | none ↦ lit 0 0
    | some e ↦ elim e.latency_ms [
      | [] ↦ lit 0 0
      | s ∷ rest ↦
          div (of_ℕ e.bytes_transferred)
            (add (div (Float.sum 𝓕 (map (λ p. p.1) (s ∷ rest))) (lit 1000 0)) (lit 1 9))
    ]
  ]

  -- `{url: self._score(e) for url, e in self._data.items()}`
  unfoldable pub scores_snapshot : F → ProxyStats 𝓕 → ProxyStats 𝓕 × Dict String F
  scores_snapshot now [] = ([], [])
  scores_snapshot now ((url, e) ∷ d) =
      let (e', s) = score_entry now e in
      let (d', scores) = scores_snapshot now d in ((url, e') ∷ d', (url, s) ∷ scores)

  unfoldable pub median : List F → F
  median scores =
      let mid = length scores / 2 in
      let at : ℕ → F = λ i. elim (get_elem? scores i) [ none ↦ lit 0 0 | some s ↦ s ] in
      if length scores % 2 == 0 then div (add (at (mid - 1)) (at mid)) (lit 2 0) else at mid

  -- A chunk size scaled by the proxy's score over the median of the scores of all proxies.
  unfoldable pub per_proxy_chunk_size : F → String → ℕ → ℕ → ℕ → ProxyStats 𝓕 → ProxyStats 𝓕 × ℕ
  unfolding scores_snapshot score_entry sorted_from median
  per_proxy_chunk_size now url base_size minimum maximum d =
      let (d₁, scores) = scores_snapshot now d in
      let all_scores = sorted (λ s. s) (map (λ p. p.1) scores) in
      let (e, mine) = score_entry now (entry 𝓕 url d₁) in
      let d₂ = insert url e d₁ in
      let middle = median all_scores in
      if length all_scores == 0
      then (d₂, base_size)
      else if le middle (lit 0 0)
      then (d₂, base_size)
      else (let scaled = trunc (mul (of_ℕ base_size) (div mine middle)) in
          let capped = if leb maximum scaled then maximum else scaled in
          (d₂, if leb minimum capped then capped else minimum))
