-- ===== src/ChunkSizer.antt =====
-- proxy/stats/chunk_sizer.py: `AdaptiveChunkSizer`, the chunk size from a moving average of the times
-- that chunks took. The lock makes each method one step.
pub mod Bounds
use proxysplit.Base.{ℕ, min, max, Option, none, some, List, [], if◌then◌else◌, nat_eq}
use proxysplit.Float.{Float}
use proxysplit.Stats.{append_bounded}

module _ (𝓕 : Float) where
  open 𝓕 use {F, lit, of_ℕ, add, sub, mul, div, lt, le, trunc}

  pub record ChunkSizer : Type 0 where
    pub current : ℕ
    pub minimum : ℕ
    pub maximum : ℕ
    pub target_ms : F
    pub ema_ms : Option F
    pub window : List F

  unfoldable pub init : ℕ → ℕ → ℕ → F → ChunkSizer
  init initial minimum maximum target_ms = record {
    current = initial;
    minimum = minimum;
    maximum = maximum;
    target_ms = target_ms;
    ema_ms = none;
    window = [];
  }

  -- `_alpha` is 0.25, a number that a float holds exactly.
  unfoldable pub average : Option F → F → F
  average none elapsed_ms = elapsed_ms
  average (some ema) elapsed_ms =
      let alpha = lit 25 2 in add (mul alpha elapsed_ms) (mul (sub (lit 1 0) alpha) ema)

  -- `_adjust`, with the average that has just been taken.
  unfoldable pub adjust : F → ChunkSizer → ChunkSizer
  adjust ema c =
      let ratio = div c.target_ms ema in
      let grown = min (trunc (mul (of_ℕ c.current) (lit 15 1))) c.maximum in
      let shrunk = max (trunc (mul (of_ℕ c.current) (lit 6 1))) c.minimum in
      if le ema (lit 0 0)
      then c
      else if lt (lit 15 1) ratio
      then record c { current = grown }
      else if lt ratio (lit 6 1)
      then record c { current = shrunk }
      else c

  unfoldable pub record_time : F → ChunkSizer → ChunkSizer
  unfolding average adjust
  record_time elapsed_ms c =
      let ema = average c.ema_ms elapsed_ms in
      adjust ema (record c { ema_ms = some ema; window = append_bounded 10 elapsed_ms c.window })
