-- ===== src/Stats.antt =====
-- proxy/stats/proxy_stats.py: `ProxyStats`, the counters, samples and cached score of each proxy.
-- Times and latencies are floats; `time.time()` is an argument. The lock makes each method one step.
pub mod Score
pub mod Counts
pub mod Coherence
use proxysplit.Base.{
  ℕ, ◌+◌, ◌-◌, String, Bool, true, false, Option, none, some, List, [], ◌∷◌, ◌++◌, string_eq,
  length, drop,
}
use proxysplit.Dict.{Dict, lookup, insert, remove}
use proxysplit.Float.{Float}

-- `deque(maxlen=n).append(x)` drops from the left what exceeds the length.
unfoldable pub append_bounded {ℓ} : {A : Type ℓ} → ℕ → A → List A → List A
append_bounded n x xs = let ys = xs ++ x ∷ [] in drop (length ys - n) ys

module _ (𝓕 : Float) where
  open 𝓕 use {F, lit}

  pub record Entry : Type 0 where
    pub success : ℕ
    pub failure : ℕ
    pub bytes_transferred : ℕ
    pub consecutive_failures : ℕ
    pub latency_ms : List (F × F)
    pub events : List (F × Bool × F)
    pub score_cache : Option F

  abbrev pub ProxyStats : Type 0
  ProxyStats = Dict String Entry

  unfoldable pub new_entry : Entry
  new_entry = record {
    success = 0;
    failure = 0;
    bytes_transferred = 0;
    consecutive_failures = 0;
    latency_ms = [];
    events = [];
    score_cache = none;
  }

  -- `_entry`: the entry of a proxy, a new one where it has none. The entry is a shared object, so
  -- a method that changes it writes it back by `insert`.
  unfoldable pub entry : String → ProxyStats → Entry
  unfolding new_entry
  entry url d = elim (lookup url d) [ none ↦ new_entry | some e ↦ e ]

  unfoldable pub invalidate_score : Entry → Entry
  invalidate_score e = record e { score_cache = none }

  unfoldable pub record_success : F → String → ℕ → F → ProxyStats → ProxyStats
  record_success now url nbytes latency d =
      let e = entry url d in
      insert url
        (invalidate_score (record e {
          success = e.success + 1;
          bytes_transferred = e.bytes_transferred + nbytes;
          latency_ms = append_bounded 100 (now, latency) e.latency_ms;
          consecutive_failures = 0;
          events = append_bounded 1000 (now, true, latency) e.events;
        }))
        d

  unfoldable pub record_failure : F → String → ProxyStats → ProxyStats × ℕ
  record_failure now url d =
      let e = entry url d in
      let e' : Entry = record e {
        failure = e.failure + 1;
        consecutive_failures = e.consecutive_failures + 1;
        events = append_bounded 1000 (now, false, lit 0 0) e.events;
      } in
      (insert url (invalidate_score e') d, e'.consecutive_failures)

  unfoldable pub seed_latency : F → String → F → ℕ → ProxyStats → ProxyStats
  seed_latency now url latency nbytes d =
      let e = entry url d in
      insert url
        (invalidate_score (record e {
          latency_ms = append_bounded 100 (now, latency) e.latency_ms;
          bytes_transferred = e.bytes_transferred + nbytes;
          success = e.success + 1;
          events = append_bounded 1000 (now, true, latency) e.events;
        }))
        d

  unfoldable pub reset_consecutive_failures : String → ProxyStats → ProxyStats
  reset_consecutive_failures url d =
      let e = entry url d in insert url (record e { consecutive_failures = 0 }) d

  -- A read that creates the entry it does not find.
  unfoldable pub get_consecutive_failures : String → ProxyStats → ProxyStats × ℕ
  get_consecutive_failures url d = let e = entry url d in (insert url e d, e.consecutive_failures)

  unfoldable pub evict : String → ProxyStats → ProxyStats
  evict url d = remove url d
