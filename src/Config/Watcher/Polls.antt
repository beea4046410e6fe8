-- ===== src/Config/Watcher/Polls.antt =====
-- proxy/config_watcher.py: what a server that polls its configuration file runs with.
use proxysplit.Base.{
  ℕ, String, ◌≡◌, refl, ap, ◌∙◌, ◌⊎◌, inl, inr, Bool, true, false, Option, none, some, List, [],
  ◌∷◌, if◌then◌else◌, Bool-cases, Option-cases, ◌==◌, string_eq, nat_eq, option_eq, contains,
}
use mathlib.Core.Path.{subst, subst⁻¹}
use proxysplit.Config.Watcher.{
  live_keys, Server, File, invalid, ill_typed, goes_on, trigger_reload, poll, polls,
}
use proxysplit.Config.Watcher.Live.{
  asked, KeysUnique, trigger_reload-kept, trigger_reload-asked, trigger_reload-goes_on,
}
use proxysplit.Dict.{lookup}

-- The last modification time that could be read.
abbrev pub newest : List (Option ℕ) → Option ℕ → Option ℕ
newest [] last = last
newest (none ∷ ms) last = newest ms last
newest (some m ∷ ms) last = newest ms (some m)

-- What the watcher observes, if `versions` says what the file holds at a modification time.
abbrev pub observed : {V : Type 0} → (ℕ → File V) → List (Option ℕ) → List (Option ℕ × File V)
observed versions [] = []
observed versions (none ∷ ms) = (none, invalid) ∷ observed versions ms
observed versions (some m ∷ ms) = (some m, versions m) ∷ observed versions ms

-- The time that the watcher saw last: the newest while it goes on, and else that of a file that ended it.
abbrev pub Seen : {V : Type 0} → (ℕ → File V) → Bool → Option ℕ → Option ℕ → Type 0
Seen versions true newest_time last = last ≡ newest_time
Seen versions false newest_time last = (m : ℕ) × (last ≡ some m) × (versions m ≡ ill_typed)

module _ {V F : Type 0} (to_float : V → Option F) where
  abbrev pub Held : (ℕ → File V) → String → Option ℕ × Server to_float → Type 0
  Held versions k (none, s) = Unit
  Held versions k (some m, s) = elim (asked to_float k (versions m)) [
    | none ↦ Unit
    | some v ↦ lookup k s.config ≡ some v
  ]

  reloaded : (ℕ → File V) → ℕ → Server to_float → Server to_float
  reloaded versions m s = (trigger_reload to_float (versions m) s).0

  abbrev next :
      (ℕ → File V)
      → List (Option ℕ)
      → (Option ℕ × Server to_float) × Bool
      → (Option ℕ × Server to_float) × Bool
  next versions ms r = if r.1 then polls to_float (observed versions ms) r.0 else r

  -- The facts below as families over what the polling ends with.
  abbrev SeenAs : (ℕ → File V) → List (Option ℕ) → ℕ → (Option ℕ × Server to_float) × Bool → Type 0
  SeenAs versions ms m r = Seen versions r.1 (newest ms (some m)) r.0.0

  abbrev value_of : String → (Option ℕ × Server to_float) × Bool → Option V
  value_of k r = lookup k r.0.1.config

  abbrev HeldAs : (ℕ → File V) → String → (Option ℕ × Server to_float) × Bool → Type 0
  HeldAs versions k r = Held versions k r.0

  -- A round at which a time could be read: nothing new, the end of the watcher, or a reload.
  round :
      (versions : ℕ → File V) (m : ℕ) (ms : List (Option ℕ)) (last : Option ℕ) (s : Server to_float)
      → let r = polls to_float (observed versions (some m ∷ ms)) (last, s) in
        ((last ≡ some m) × (r ≡ polls to_float (observed versions ms) (last, s)))
        ⊎ (((versions m ≡ ill_typed) × (r ≡ ((some m, reloaded versions m s), false)))
            ⊎ (r ≡ polls to_float (observed versions ms) (some m, reloaded versions m s)))
  unfolding polls poll reloaded
  round versions m ms last s = elim (Bool-cases (last == some m)) [
    | inl same ↦
        let same_round : poll to_float (some m) (versions m) (last, s) ≡ ((last, s), true) =
          rw same refl in
        inl ((option_eq.beq_iff last (some m)).0 same, ap (next versions ms) same_round)
    | inr new ↦
        let s' = (trigger_reload to_float (versions m) s).0 in
        let on = goes_on to_float (trigger_reload to_float (versions m) s).1 in
        let new_round : poll to_float (some m) (versions m) (last, s) ≡ ((some m, s'), on) =
          rw new refl in
        elim (trigger_reload-goes_on to_float (versions m) s) [
          | inl (bad, ends) ↦
              inr (inl (bad, ap (next versions ms) (new_round ∙ ap (λ b. ((some m, s'), b)) ends)))
          | inr goes ↦
              inr (inr (ap (next versions ms) (new_round ∙ ap (λ b. ((some m, s'), b)) goes)))
        ]
  ]

  polls-Seen :
      (versions : ℕ → File V) (ms : List (Option ℕ)) (last : Option ℕ) (s : Server to_float)
      → let r = polls to_float (observed versions ms) (last, s) in
        Seen versions r.1 (newest ms last) r.0.0
  unfolding polls poll
  polls-Seen versions [] last s = refl
  polls-Seen versions (none ∷ ms) last s = polls-Seen versions ms last s
  polls-Seen versions (some m ∷ ms) last s = elim (round versions m ms last s) [
    | inl (same, e) ↦
        let r = polls to_float (observed versions ms) (last, s) in
        subst⁻¹ (SeenAs versions ms m) e
          (subst (λ l. Seen versions r.1 (newest ms l) r.0.0) same (polls-Seen versions ms last s))
    | inr (inl (bad, e)) ↦ subst⁻¹ (SeenAs versions ms m) e (m, refl, bad)
    | inr (inr e) ↦ subst⁻¹ (SeenAs versions ms m) e (polls-Seen versions ms (some m) _)
  ]

  polls-kept :
      (versions : ℕ → File V) (k : String) (ms : List (Option ℕ)) (last : Option ℕ)
      (s : Server to_float)
      → ((m : ℕ) → KeysUnique to_float (versions m))
      → contains live_keys k ≡ false
      → lookup k (polls to_float (observed versions ms) (last, s)).0.1.config ≡ lookup k s.config
  unfolding polls poll reloaded
  polls-kept versions k [] last s u dead = refl
  polls-kept versions k (none ∷ ms) last s u dead = polls-kept versions k ms last s u dead
  polls-kept versions k (some m ∷ ms) last s u dead =
      let kept = trigger_reload-kept to_float k (versions m) s (u m) dead in
      elim (round versions m ms last s) [
        | inl (same, e) ↦ ap (value_of k) e ∙ polls-kept versions k ms last s u dead
        | inr (inl (bad, e)) ↦ ap (value_of k) e ∙ kept
        | inr (inr e) ↦ ap (value_of k) e ∙ polls-kept versions k ms (some m) _ u dead ∙ kept
      ]

  reloaded-Held :
      (versions : ℕ → File V) (k : String) (m : ℕ) (s : Server to_float)
      → KeysUnique to_float (versions m)
      → contains live_keys k ≡ true
      → Held versions k (some m, reloaded versions m s)
  unfolding reloaded
  reloaded-Held versions k m s u live = elim (Option-cases (asked to_float k (versions m))) [
    | inl nothing ↦ rw (nothing, Held) tt
    | inr (v, e) ↦ rw (e, Held) (trigger_reload-asked to_float k v (versions m) s u live e)
  ]

  polls-Held :
      (versions : ℕ → File V) (k : String) (ms : List (Option ℕ)) (last : Option ℕ)
      (s : Server to_float)
      → ((m : ℕ) → KeysUnique to_float (versions m))
      → contains live_keys k ≡ true
      → Held versions k (last, s)
      → Held versions k (polls to_float (observed versions ms) (last, s)).0
  unfolding polls poll
  polls-Held versions k [] last s u live h = h
  polls-Held versions k (none ∷ ms) last s u live h = polls-Held versions k ms last s u live h
  polls-Held versions k (some m ∷ ms) last s u live h =
      let fresh = reloaded-Held versions k m s (u m) live in
      elim (round versions m ms last s) [
        | inl (same, e) ↦ subst⁻¹ (HeldAs versions k) e (polls-Held versions k ms last s u live h)
        | inr (inl (bad, e)) ↦ subst⁻¹ (HeldAs versions k) e fresh
        | inr (inr e) ↦
            subst⁻¹ (HeldAs versions k) e (polls-Held versions k ms (some m) _ u live fresh)
      ]

  -- A live key follows the file, any other key stays as it was.
  abbrev pub Followed :
      Bool → (ℕ → File V) → String → Server to_float → Option ℕ × Server to_float → Type 0
  Followed true versions k s w = Held versions k w
  Followed false versions k s (last, s') = lookup k s'.config ≡ lookup k s.config

  -- The file is polled, and `versions` says what it holds at each modification time; the keys of a
  -- mapping are unique. The watcher ends only at a file that is no mapping or has a key that is no text,
  -- and while it goes on, the last time that it has seen is the last one that could be read, whatever
  -- times are seen, in whatever order and with whatever gaps. If the server held what the file asked for
  -- at first, it holds each live key at the value that the last file seen gives it (if that file could be
  -- parsed and `float` takes its `proxy_rps` and `adaptive_target_ms`), and no other key has changed,
  -- whatever the files held.
  pub polls-Followed :
      (versions : ℕ → File V) (k : String) (ms : List (Option ℕ)) (last : Option ℕ)
      (s : Server to_float)
      → ((m : ℕ) → KeysUnique to_float (versions m))
      → Held versions k (last, s)
      → let (w, goes) = polls to_float (observed versions ms) (last, s) in
        Seen versions goes (newest ms last) w.0 × Followed (contains live_keys k) versions k s w
  polls-Followed versions k ms last s u h = (
    polls-Seen versions ms last s,
    elim (Bool-cases (contains live_keys k)) [
      | inl live ↦ rw (live, Followed) (polls-Held versions k ms last s u live h)
      | inr dead ↦ rw (dead, Followed) (polls-kept versions k ms last s u dead)
    ],
  )
