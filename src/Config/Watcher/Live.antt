-- ===== src/Config/Watcher/Live.antt =====
-- proxy/config_watcher.py: what a reload changes.
use proxysplit.Base.{
  String, ◌≡◌, refl, ap, ◌∙◌, ◌⊎◌, inl, inr, Bool, true, false, not, ◌&&◌, Option, none, some, [],
  ◌∷◌, arith, if◌then◌else◌, Bool-cases, Option-cases, string_eq, nat_eq, option_eq, contains,
}
use proxysplit.Config.{live_config, merge}
use proxysplit.Config.Collect.{lookup-reload}
use proxysplit.Config.Watcher.{
  File, invalid, ill_typed, mapping, goes_on, live_keys, Server, apply_rps, apply_target,
  apply_config_update, reload_live, trigger_reload, is_none,
}
use proxysplit.Dict.{Dict, lookup, Unique}

module _ {V F : Type 0} (to_float : V → Option F) where
  abbrev pub is_number : Option V → Bool
  is_number none = true
  is_number (some v) = not (is_none (to_float v))

  -- Whether `float` accepts the two values that it is called on.
  abbrev pub numbers : Dict String V → Bool
  numbers cfg = is_number (lookup "proxy_rps" cfg) && is_number (lookup "adaptive_target_ms" cfg)

  -- What the configuration that was last read says of the live key `k`.
  abbrev pub asked : String → File V → Option V
  asked k invalid = none
  asked k ill_typed = none
  asked k (mapping cfg) = if numbers (live_config live_keys cfg) then lookup k cfg else none

  abbrev pub KeysUnique : File V → Type 0
  KeysUnique invalid = Unit
  KeysUnique ill_typed = Unit
  KeysUnique (mapping cfg) = Unique cfg

  abbrev Settled : Option V → Server to_float → Option (Server to_float) → Type 0
  Settled v s none = is_number v ≡ false
  Settled v s (some s') = s'.config ≡ s.config

  apply_rps-config :
      (cfg : Dict String V) (s : Server to_float)
      → Settled (lookup "proxy_rps" cfg) s (apply_rps to_float cfg s)
  unfolding apply_rps
  apply_rps-config cfg s = elim (Option-cases (lookup "proxy_rps" cfg)) [
    | inl absent ↦ rw (absent, apply_rps) refl
    | inr (v, given) ↦ elim (Option-cases (to_float v)) [
      | inl bad ↦ rw (given, bad, apply_rps) (rw bad refl)
      | inr (x, good) ↦ rw (given, good, apply_rps) refl
    ]
  ]

  apply_target-config :
      (cfg : Dict String V) (s : Server to_float)
      → Settled (lookup "adaptive_target_ms" cfg) s (apply_target to_float cfg s)
  unfolding apply_target
  apply_target-config cfg s = elim (Option-cases (lookup "adaptive_target_ms" cfg)) [
    | inl absent ↦ rw (absent, apply_target) refl
    | inr (v, given) ↦ elim (Bool-cases (is_none s.target_ms)) [
      | inl off ↦ rw (given, off, apply_target) refl
      | inr on ↦ elim (Option-cases (to_float v)) [
        | inl bad ↦ rw (given, on, bad, apply_target) (rw bad refl)
        | inr (x, good) ↦ rw (given, on, good, apply_target) refl
      ]
    ]
  ]

  -- The configuration is merged, or left alone where a value is no number.
  abbrev Merged : Dict String V → Server to_float → Server to_float → Type 0
  Merged cfg s s' =
      (s'.config ≡ merge cfg s.config) ⊎ ((numbers cfg ≡ false) × (s'.config ≡ s.config))

  apply_rest :
      (cfg : Dict String V) (s s₁ : Server to_float)
      → apply_rps to_float cfg s ≡ some s₁
      → s₁.config ≡ s.config
      → Merged cfg s (apply_config_update to_float cfg s).0
  unfolding apply_config_update
  apply_rest cfg s s₁ e same = elim (Option-cases (apply_target to_float cfg s₁)) [
    | inl bad ↦
        let t = apply_target-config cfg s₁ in
        let wrong : is_number (lookup "adaptive_target_ms" cfg) ≡ false = rw bad at t in
        rw (e, bad, apply_config_update) (inr (ground (arith, wrong), same))
    | inr (s₂, good) ↦
        let t = apply_target-config cfg s₁ in
        let same' : s₂.config ≡ s₁.config = rw good at t in
        rw (e, good, apply_config_update) (inl (ap (merge cfg) (same' ∙ same)))
  ]

  apply_config_update-Merged :
      (cfg : Dict String V) (s : Server to_float)
      → Merged cfg s (apply_config_update to_float cfg s).0
  unfolding apply_config_update
  apply_config_update-Merged cfg s = elim (Option-cases (apply_rps to_float cfg s)) [
    | inl bad ↦
        let t = apply_rps-config cfg s in
        let wrong : is_number (lookup "proxy_rps" cfg) ≡ false = rw bad at t in
        rw (bad, apply_config_update) (inr (ground (arith, wrong), refl))
    | inr (s₁, e) ↦
        let t = apply_rps-config cfg s in
        let same : s₁.config ≡ s.config = rw e at t in apply_rest cfg s s₁ e same
  ]

  reload_live-Merged :
      (cfg : Dict String V) (s : Server to_float) → Merged cfg s (reload_live to_float cfg s).0
  unfolding reload_live merge
  reload_live-Merged [] s = inl refl
  reload_live-Merged (kv ∷ cfg) s = apply_config_update-Merged (kv ∷ cfg) s

  reload_live-numbers :
      (cfg : Dict String V) (s : Server to_float)
      → numbers cfg ≡ true
      → (reload_live to_float cfg s).0.config ≡ merge cfg s.config
  reload_live-numbers cfg s ok = elim (reload_live-Merged cfg s) [
    | inl m ↦ m
    | inr (bad, same) ↦ ground (arith, ok, bad)
  ]

  -- A reload leaves the keys alone that are not live.
  pub trigger_reload-kept :
      (k : String) (file : File V) (s : Server to_float)
      → KeysUnique file
      → contains live_keys k ≡ false
      → lookup k (trigger_reload to_float file s).0.config ≡ lookup k s.config
  unfolding trigger_reload
  trigger_reload-kept k invalid s u dead = refl
  trigger_reload-kept k ill_typed s u dead = refl
  trigger_reload-kept k (mapping cfg) s u dead =
      elim (reload_live-Merged (live_config live_keys cfg) s) [
        | inl m ↦ ap (lookup k) m ∙ ground (arith, lookup-reload live_keys k cfg s.config u, dead)
        | inr (bad, same) ↦ ap (lookup k) same
      ]

  -- After a reload a live key has the value that the file asks for.
  pub trigger_reload-asked :
      (k : String) (v : V) (file : File V) (s : Server to_float)
      → KeysUnique file
      → contains live_keys k ≡ true
      → asked k file ≡ some v
      → lookup k (trigger_reload to_float file s).0.config ≡ some v
  unfolding trigger_reload
  trigger_reload-asked k v invalid s u live e = ground (arith, e)
  trigger_reload-asked k v ill_typed s u live e = ground (arith, e)
  trigger_reload-asked k v (mapping cfg) s u live e =
      elim (Bool-cases (numbers (live_config live_keys cfg))) [
        | inl ok ↦
            let given : lookup k cfg ≡ some v = rw ok at e in
            let found = lookup-reload live_keys k cfg s.config u in
            ap (lookup k) (reload_live-numbers (live_config live_keys cfg) s ok)
            ∙ rw (live, given) at found
        | inr bad ↦ ground (arith, e, bad)
      ]

  reload_live-goes_on :
      (cfg : Dict String V) (s : Server to_float)
      → goes_on to_float (reload_live to_float cfg s).1 ≡ true
  unfolding reload_live
  reload_live-goes_on [] s = refl
  reload_live-goes_on (kv ∷ cfg) s =
      elim (Bool-cases (apply_config_update to_float (kv ∷ cfg) s).1) [
        | inl done ↦ rw (done, reload_live) refl
        | inr refused ↦ rw (refused, reload_live) refl
      ]

  -- Only a file that is no mapping of texts ends the watcher, and it changes nothing.
  pub trigger_reload-goes_on :
      (file : File V) (s : Server to_float)
      → ((file ≡ ill_typed) × (goes_on to_float (trigger_reload to_float file s).1 ≡ false))
        ⊎ (goes_on to_float (trigger_reload to_float file s).1 ≡ true)
  unfolding trigger_reload
  trigger_reload-goes_on invalid s = inr refl
  trigger_reload-goes_on ill_typed s = inl (refl, refl)
  trigger_reload-goes_on (mapping cfg) s = inr (reload_live-goes_on (live_config live_keys cfg) s)
