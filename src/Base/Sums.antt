-- ===== src/Base/Sums.antt =====
-- Sums of the first values of a function, and a function changed at one argument.
use Prim.Native.Nat.{ℕ, zero, suc, ◌+◌, ◌-◌, ◌*◌, ◌≤◌, ◌<◌, min}
use mathlib.Core.Path.{◌≡◌, refl, ap, ◌∙◌}
use mathlib.Core.Bool.{true, false}
use mathlib.Core.Logic.{inl, inr}
use native.Mathlib.Omega.{arith}
use proxysplit.Base.Tests.{ltb, if◌then◌else◌, Bool-cases}
use proxysplit.Base.Equality.{◌==◌, nat_eq}

-- `f`, with `a` at `i`.
abbrev pub set_at {ℓ} : {A : Type ℓ} → ℕ → A → (ℕ → A) → ℕ → A
set_at i a f j = if i == j then a else f j

unfoldable pub sum_below : ℕ → (ℕ → ℕ) → ℕ
sum_below zero f = 0
sum_below (suc n) f = sum_below n f + f n

pub sum_below-le :
    (n k : ℕ) (f g : ℕ → ℕ)
    → ((j : ℕ) → j < n → f j ≤ g j + k)
    → sum_below n f ≤ sum_below n g + n * k
unfolding sum_below
sum_below-le zero k f g h = omega arith
sum_below-le (suc n) k f g h =
    let rest = sum_below-le n k f g (λ j l. h j (omega arith)) in
    let e : suc n * k ≡ n * k + k = omega arith in omega (arith, rest, h n (omega arith), e)

pub sum_below-eq :
    (n : ℕ) (f g : ℕ → ℕ) → ((j : ℕ) → j < n → f j ≡ g j) → sum_below n f ≡ sum_below n g
unfolding sum_below
sum_below-eq zero f g h = refl
sum_below-eq (suc n) f g h =
    omega (arith, sum_below-eq n f g (λ j l. h j (omega arith)), h n (omega arith))

-- Two functions that differ at one argument only.
pub sum_below_change :
    (n i : ℕ) (f g : ℕ → ℕ)
    → i < n
    → ((j : ℕ) → (i == j) ≡ false → f j ≡ g j)
    → sum_below n f + g i ≡ sum_below n g + f i
unfolding sum_below
sum_below_change zero i f g h same = absurd (omega arith)
sum_below_change (suc n) i f g h same = elim (Bool-cases (i == n)) [
  | inl last ↦
      let e : i ≡ n = ground arith in
      let rest = sum_below-eq n f g (λ j l. same j (ground arith)) in ground (arith, rest)
  | inr other ↦ omega (arith, sum_below_change n i f g (ground arith) same, same n other)
]

-- At most `k` values from `lo` on are not 0, and none exceeds `c`.
pub sum_below_window :
    (n lo k c : ℕ) (f : ℕ → ℕ)
    → ((j : ℕ) → f j ≤ c)
    → ((j : ℕ) → j < lo → f j ≡ 0)
    → ((j : ℕ) → lo + k ≤ j → f j ≡ 0)
    → sum_below n f ≤ (min n (lo + k) - lo) * c
unfolding sum_below
sum_below_window zero lo k c f small low high = omega arith
sum_below_window (suc n) lo k c f small low high =
    let rest = sum_below_window n lo k c f small low high in
    elim (Bool-cases (ltb n lo)) [
      | inl before ↦
          let z = low n (ground arith) in
          let e : min n (lo + k) - lo ≡ 0 = ground arith in
          let e' : min (suc n) (lo + k) - lo ≡ 0 = ground arith in
          let rest' : sum_below n f ≤ 0 * c = rw e at rest in rw e' (omega (arith, rest', z))
      | inr from ↦ elim (Bool-cases (ltb n (lo + k))) [
        | inl inside ↦
            let e : min (suc n) (lo + k) - lo ≡ suc (min n (lo + k) - lo) = ground arith in
            let m : suc (min n (lo + k) - lo) * c ≡ (min n (lo + k) - lo) * c + c = omega arith in
            rw (e, m) (omega (arith, rest, small n))
        | inr after ↦
            let e : min (suc n) (lo + k) ≡ min n (lo + k) = ground arith in
            rw e (omega (arith, rest, high n (ground arith)))
      ]
    ]

-- A sum that is not 0 has a value that is not 0.
pub sum_below_pos : (n : ℕ) (f : ℕ → ℕ) → 0 < sum_below n f → (j : ℕ) × (j < n) × (0 < f j)
unfolding sum_below
sum_below_pos zero f h = absurd (omega arith)
sum_below_pos (suc n) f h = elim (Bool-cases (ltb 0 (f n))) [
  | inl here ↦ (n, omega arith, ground arith)
  | inr none_here ↦ let (j, l, p) = sum_below_pos n f (ground arith) in (j, omega arith, p)
]

pub set_at_self {ℓ} : {A : Type ℓ} (i : ℕ) (a : A) (f : ℕ → A) → set_at i a f i ≡ a
set_at_self i a f = let e : (i == i) ≡ true = ground arith in rw e refl

pub set_at_other {ℓ} :
    {A : Type ℓ} (i : ℕ) (a : A) (f : ℕ → A) (j : ℕ) → (i == j) ≡ false → set_at i a f j ≡ f j
set_at_other i a f j ne = rw ne refl

pub sum_below-set_at {ℓ} :
    {A : Type ℓ} (n i : ℕ) (g : A → ℕ) (a : A) (f : ℕ → A)
    → i < n
    → sum_below n (λ j. g (set_at i a f j)) + g (f i) ≡ sum_below n (λ j. g (f j)) + g a
sum_below-set_at n i g a f h =
    sum_below_change n i (λ j. g (set_at i a f j)) (λ j. g (f j)) h
      (λ j ne. ap g (set_at_other i a f j ne))
    ∙ ap (λ b. sum_below n (λ j. g (f j)) + g b) (set_at_self i a f)

pub sum_below-zero : (n : ℕ) (f : ℕ → ℕ) → ((j : ℕ) → j < n → f j ≡ 0) → sum_below n f ≡ 0
unfolding sum_below
sum_below-zero zero f h = refl
sum_below-zero (suc n) f h =
    omega (arith, sum_below-zero n f (λ j l. h j (omega arith)), h n (omega arith))
