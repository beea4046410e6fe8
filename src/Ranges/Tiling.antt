-- ===== src/Ranges/Tiling.antt =====
-- proxy/handlers/inner.py: the ranges tile the window.
use proxysplit.Base.{
  ℕ, zero, suc, ◌+◌, ◌-◌, ◌≤◌, ◌<◌, min, ◌≡◌, refl, inl, inr, true, Option, none, some, List, [],
  ◌∷◌, arith, ltb, ltb→lt, Bool-cases,
}
use proxysplit.Ranges.{Range, build_loop, build_ranges}

-- The ranges follow one another from `start` up to `stop`, none is empty, and their indices count
-- from `i`.
abbrev pub Tiles : ℕ → ℕ → ℕ → List Range → Type 0
Tiles start stop i [] = start ≡ stop
Tiles start stop i (r ∷ rs) =
    (r.first ≡ start)
    × (r.first ≤ r.last)
    × (r.last < stop)
    × (r.index ≡ i)
    × Tiles (r.last + 1) stop (i + 1) rs

-- Each range has the chunk size, and the last one may be shorter.
abbrev pub Sized : ℕ → List Range → Type 0
Sized size [] = Unit
Sized size (r ∷ []) = r.last < r.first + size
Sized size (r ∷ r' ∷ rs) = (r.last + 1 ≡ r.first + size) × Sized size (r' ∷ rs)

Sized-cons :
    (size stop i : ℕ) (r : Range) (rs : List Range)
    → r.last < r.first + size
    → (r.last + 1 < stop → r.last + 1 ≡ r.first + size)
    → Tiles (r.last + 1) stop i rs
    → Sized size rs
    → Sized size (r ∷ rs)
Sized-cons size stop i r [] short full t s = short
Sized-cons size stop i r (r' ∷ rs) short full t s = (full (omega (arith, t.0, t.1, t.2)), s)

build_loop-step :
    (fuel size stop start i : ℕ) (rs : List Range)
    → ltb start stop ≡ true
    → build_loop fuel size stop (min (start + size) stop) (i + 1) ≡ some rs
    → build_loop (suc fuel) size stop start i
      ≡ some (record { first = start; last = min (start + size) stop - 1; index = i } ∷ rs)
unfolding build_loop
build_loop-step fuel size stop start i rs more p = rw (more, p, build_loop)

pub build_loop-Tiles :
    (fuel size stop start i : ℕ)
    → 0 < size
    → start ≤ stop
    → stop - start < fuel
    → (rs : List Range) × (build_loop fuel size stop start i ≡ some rs)
      × Tiles start stop i rs
      × Sized size rs
unfolding build_loop
build_loop-Tiles zero size stop start i pos le h = absurd (omega arith)
build_loop-Tiles (suc fuel) size stop start i pos le h = elim (Bool-cases (ltb start stop)) [
  | inl more ↦
      let lt = ltb→lt start stop more in
      let next = min (start + size) stop in
      let (rs, p, t, s) =
        build_loop-Tiles fuel size stop next (i + 1) pos (omega arith) (omega arith) in
      let r : Range = record { first = start; last = next - 1; index = i } in
      let e : next - 1 + 1 ≡ next = omega arith in
      let t' : Tiles (r.last + 1) stop (i + 1) rs = rw e t in
      (
        r ∷ rs,
        build_loop-step fuel size stop start i rs more p,
        (refl, omega arith, omega arith, refl, t'),
        Sized-cons size stop (i + 1) r rs (omega arith) (λ q. omega arith) t' s,
      )
  | inr done ↦ ([], rw done, ground arith, tt)
]

-- With a positive chunk size the loop of `build_ranges` ends, and its ranges tile the bytes from
-- `start_offset` to the end offset (by default the end of the content) with no gap or overlap, are
-- numbered from 0, and all have the chunk size but for a shorter last one.
pub build_ranges-Tiles :
    (content_length chunk_size start_offset : ℕ) (end_offset : Option ℕ)
    → 0 < chunk_size
    → let stop : ℕ = elim end_offset [ none ↦ content_length | some last ↦ last + 1 ] in
      start_offset ≤ stop
      → (rs : List Range) × (build_ranges content_length chunk_size start_offset end_offset
          ≡ some rs)
        × Tiles start_offset stop 0 rs
        × Sized chunk_size rs
unfolding build_ranges
build_ranges-Tiles content_length chunk_size start_offset end_offset pos le =
    build_loop-Tiles _ chunk_size _ start_offset 0 pos le (omega arith)
