-- ===== src/ChunkSizer/Bounds.antt =====
-- proxy/stats/chunk_sizer.py: the size stays between its bounds.
use proxysplit.Base.{ℕ, ◌≤◌, ◌≡◌, List, [], ◌∷◌, arith, nat_eq}
use proxysplit.Float.{Float}
use proxysplit.ChunkSizer.{ChunkSizer, init, adjust, record_time}

module _ (𝓕 : Float) where
  open 𝓕 use {F, lit, of_ℕ, mul, trunc}

  -- `int(c * 1.5)` is no smaller than `c`, and `int(c * 0.6)` no larger.
  pub record Scales : Type 0 where
    pub grows : (c : ℕ) → c ≤ trunc (mul (of_ℕ c) (lit 15 1))
    pub shrinks : (c : ℕ) → trunc (mul (of_ℕ c) (lit 6 1)) ≤ c

  unfoldable pub run : List F → ChunkSizer 𝓕 → ChunkSizer 𝓕
  run [] c = c
  run (t ∷ ts) c = run ts (record_time 𝓕 t c)

  abbrev pub InBounds : ChunkSizer 𝓕 → Type 0
  InBounds c = (c.minimum ≤ c.current) × (c.current ≤ c.maximum)

  module _ (scales : Scales) where
    adjust-InBounds :
        (ema : F) (c : ChunkSizer 𝓕)
        → InBounds c
        → let c' = adjust 𝓕 ema c in
          InBounds c' × (c'.minimum ≡ c.minimum) × (c'.maximum ≡ c.maximum)
    unfolding adjust
    adjust-InBounds ema c h = ground (arith, scales.grows c.current, scales.shrinks c.current)

    record_time-InBounds :
        (t : F) (c : ChunkSizer 𝓕)
        → InBounds c
        → let c' = record_time 𝓕 t c in
          InBounds c' × (c'.minimum ≡ c.minimum) × (c'.maximum ≡ c.maximum)
    unfolding record_time
    record_time-InBounds t c h = adjust-InBounds _ _ h

    runs_InBounds :
        (ts : List F) (c : ChunkSizer 𝓕)
        → InBounds c
        → (c.minimum ≤ (run ts c).current) × ((run ts c).current ≤ c.maximum)
    unfolding run
    runs_InBounds [] c h = h
    runs_InBounds (t ∷ ts) c h =
        let (h', low', high') = record_time-InBounds t c h in
        let (l, m) = runs_InBounds ts (record_time 𝓕 t c) h' in
        (omega (arith, l, low'), omega (arith, m, high'))

    -- A size that starts between the minimum and the maximum stays between them, whatever times are
    -- recorded, if floats scale a size by 1.5 and by 0.6 up and down.
    pub run-InBounds :
        (ts : List F) (initial minimum maximum : ℕ) (target_ms : F)
        → minimum ≤ initial
        → initial ≤ maximum
        → let c = run ts (init 𝓕 initial minimum maximum target_ms) in
          (minimum ≤ c.current) × (c.current ≤ maximum)
    unfolding init
    run-InBounds ts initial minimum maximum target_ms low high =
        runs_InBounds ts (init 𝓕 initial minimum maximum target_ms) (low, high)
