-- ===== src/Config/Watcher.antt =====
-- proxy/config_watcher.py: the file that is polled and the keys that a running server takes over, and
-- in proxy_server.py `_apply_config_update`. How the file is parsed, and `float(v)` of a value, are
-- parameters.
pub mod Live
pub mod Polls
use proxysplit.Base.{
  ℕ, String, Bool, true, false, Option, none, some, List, [], ◌∷◌, if◌then◌else◌, ◌==◌, string_eq,
  nat_eq, option_eq,
}
use proxysplit.Config.{live_config, merge}
use proxysplit.Dict.{Dict, lookup}

abbrev pub live_keys : List String
live_keys =
    "proxy_rps" ∷ "adaptive_target_ms" ∷ "adaptive_chunk_min" ∷ "adaptive_chunk_max"
    ∷ "chunk_timeout" ∷ "connect_timeout" ∷ "head_timeout" ∷ "request_timeout" ∷ "chunk_retries"
    ∷ "max_workers" ∷ "ban_threshold" ∷ "ban_base_delay" ∷ "ban_max_delay" ∷ "check_interval"
    ∷ "cache_ttl" ∷ "cache_max_body_mb" ∷ "prefetch_ahead" ∷ "exclude_window" ∷ "race_first_chunk"
    ∷ "weighted_selection" ∷ "per_proxy_chunk_size" ∷ "retry_budget" ∷ "log_level" ∷ "prewarm_top_n"
    ∷ "prewarm_url" ∷ "warmup_url" ∷ []

abbrev pub is_none {ℓ} : {A : Type ℓ} → Option A → Bool
is_none none = true
is_none (some a) = false

-- What the configuration file holds: what cannot be read or parsed, what is no mapping or has a key that
-- is no text (`yes:` is a Boolean), or a mapping; an empty file is an empty one.
pub data File (V : Type 0) : Type 0 where
  invalid ill_typed : File V
  mapping : Dict String V → File V

module _ {V F : Type 0} (to_float : V → Option F) where
  -- What a reload of the server changes: the configuration, the global rate of requests, and the
  -- target of the adaptive chunk size, `none` where there is none.
  pub record Server : Type 0 where
    pub config : Dict String V
    pub rps : F
    pub target_ms : Option F

  -- `set_global_rps(float(new_cfg["proxy_rps"]))`, `none` where `float` raises.
  unfoldable pub apply_rps : Dict String V → Server → Option Server
  unfolding lookup
  apply_rps new_cfg s = elim (lookup "proxy_rps" new_cfg) [
    | none ↦ some s
    | some v ↦ elim (to_float v) [ none ↦ none | some x ↦ some (record s { rps = x }) ]
  ]

  unfoldable pub apply_target : Dict String V → Server → Option Server
  unfolding lookup
  apply_target new_cfg s = elim (lookup "adaptive_target_ms" new_cfg) [
    | none ↦ some s
    | some v ↦
        if is_none s.target_ms
        then some s
        else elim (to_float v) [ none ↦ none | some x ↦ some (record s { target_ms = some x }) ]
  ]

  -- `_apply_config_update`, and whether it returns. What it has set before it raises stays set.
  unfoldable pub apply_config_update : Dict String V → Server → Server × Bool
  unfolding apply_rps apply_target merge
  apply_config_update new_cfg s = elim (apply_rps new_cfg s) [
    | none ↦ (s, false)
    | some s₁ ↦ elim (apply_target new_cfg s₁) [
      | none ↦ (s₁, false)
      | some s₂ ↦ (record s₂ { config = merge new_cfg s₂.config }, true)
    ]
  ]

  -- How a reload ends; `ended` is an exception that ends the watcher.
  pub data Outcome : Type 0 where
    unreadable unchanged applied raised ended : Outcome

  -- The reload with the live keys.
  unfoldable pub reload_live : Dict String V → Server → Server × Outcome
  unfolding apply_config_update
  reload_live [] s = (s, unchanged)
  reload_live (kv ∷ live) s =
      let (s', returned) = apply_config_update (kv ∷ live) s in
      (s', if returned then applied else raised)

  -- `_trigger_reload`. `new_cfg.items()`, and the `join` of the unknown keys, stand outside of `try`.
  unfoldable pub trigger_reload : File V → Server → Server × Outcome
  unfolding live_config reload_live
  trigger_reload invalid s = (s, unreadable)
  trigger_reload ill_typed s = (s, ended)
  trigger_reload (mapping new_cfg) s = reload_live (live_config live_keys new_cfg) s

  abbrev pub goes_on : Outcome → Bool
  goes_on ended = false
  goes_on _ = true

  -- One round of `_watch_with_polling`, from what `_safe_mtime` gives and what the file holds, and
  -- whether the watcher goes on.
  unfoldable pub poll : Option ℕ → File V → Option ℕ × Server → (Option ℕ × Server) × Bool
  unfolding trigger_reload
  poll none file (last, s) = ((last, s), true)
  poll (some m) file (last, s) =
      let (s', outcome) = trigger_reload file s in
      if last == some m then ((last, s), true) else ((some m, s'), goes_on outcome)

  unfoldable pub polls : List (Option ℕ × File V) → Option ℕ × Server → (Option ℕ × Server) × Bool
  unfolding poll
  polls [] w = (w, true)
  polls ((current, file) ∷ rest) w =
      let r = poll current file w in let later = polls rest r.0 in if r.1 then later else r
