-- ===== src/Tor/Signals.antt =====
-- proxy/tor_manager.py: how often an instance is told to change its circuits.
use proxysplit.Base.{
  ℕ, ◌+◌, ◌≤◌, ◌≡◌, refl, ◌⊎◌, inl, inr, true, false, List, [], ◌∷◌, arith, if◌then◌else◌,
}
use proxysplit.Tor.{
  Dialog, unreachable, rejected, signalled, Instance, Manager, dialog_time, refresh_circuit,
}

-- A call of `refresh_circuit`: when it is made, how its dialog ends, and how long that takes.
pub record Call : Type 0 where
  pub now : ℕ
  pub dialog : Dialog
  pub took : ℕ

-- The calls one after the other: each is made when the one before has ended, or later. The times at
-- which the dialogs of the calls that succeed begin.
unfoldable pub successes : Manager → Instance → List Call → List ℕ
unfolding refresh_circuit dialog_time
successes m i [] = []
successes m i (c ∷ calls) =
    let (i', ok) = refresh_circuit m c.dialog c.now c.took i in
    let rest = successes m i' calls in if ok then dialog_time m i c.now ∷ rest else rest

-- Each time is at least the gap after the one before, and the first after `start`.
abbrev pub Spaced : ℕ → ℕ → List ℕ → Type 0
Spaced gap start [] = Unit
Spaced gap start (t ∷ ts) = (start + gap ≤ t) × Spaced gap t ts

Spaced-later : (gap a b : ℕ) (ts : List ℕ) → a ≤ b → Spaced gap b ts → Spaced gap a ts
Spaced-later gap a b [] le h = tt
Spaced-later gap a b (t ∷ ts) le h = (omega (arith, h.0), h.1)

refresh_circuit-cases :
    (m : Manager) (d : Dialog) (now took : ℕ) (i : Instance)
    → (refresh_circuit m d now took i ≡ (i, false))
      ⊎ (refresh_circuit m d now took i
          ≡ (record i { last_newnym = dialog_time m i now + took }, true))
unfolding refresh_circuit
refresh_circuit-cases m unreachable now took i = inl refl
refresh_circuit-cases m rejected now took i = inl refl
refresh_circuit-cases m (signalled false) now took i = inl refl
refresh_circuit-cases m (signalled true) now took i = inr refl

-- The circuit refreshes of an instance that succeed are at least the cooldown apart, and as long after
-- the last one before, whenever `refresh_circuit` is called, if one call is made after the other.
pub successes-Spaced :
    (m : Manager) (i : Instance) (calls : List Call)
    → Spaced m.newnym_cd i.last_newnym (successes m i calls)
unfolding successes
successes-Spaced m i [] = tt
successes-Spaced m i (c ∷ calls) = elim (refresh_circuit-cases m c.dialog c.now c.took i) [
  | inl fails ↦ rw (fails, successes) (successes-Spaced m i calls)
  | inr done ↦
      let t = dialog_time m i c.now in
      let i' : Instance = record i { last_newnym = t + c.took } in
      let late : i.last_newnym + m.newnym_cd ≤ t = unfold dialog_time in omega arith in
      rw (done, successes)
        (
          late,
          Spaced-later m.newnym_cd t (t + c.took) _ (omega arith) (successes-Spaced m i' calls),
        )
]
