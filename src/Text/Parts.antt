-- ===== src/Text/Parts.antt =====
-- The parts that `split` gives.
use proxysplit.Base.{
  ℕ, ◌≡◌, refl, ap, ◌∙◌, inl, inr, true, false, List, [], ◌∷◌, ◌++◌, arith, Bool-cases, ◌==◌,
  nat_eq, last_or, All,
}
use proxysplit.Text.{Text, split}

-- `s.split(c)[-1]`
unfoldable pub last_part : ℕ → Text → Text
unfolding split
last_part c s = let (first, rest) = split c s in last_or rest first

split-All : (c : ℕ) (s : Text) → All (λ d. (d == c) ≡ false) s → split c s ≡ (s, [])
unfolding split
split-All c [] h = refl
split-All c (d ∷ s) h = rw (split-All c s h.1) (rw h.0 refl)

-- Behind a separator the parts are those of the rest.
split-append :
    (c : ℕ) (xs ys : Text)
    → (q : Text) × (qs : List Text) × ((split c (xs ++ c ∷ ys)).1 ≡ q ∷ qs)
      × (last_or qs q ≡ last_part c ys)
unfolding split last_part
split-append c [] ys =
    let self : (c == c) ≡ true = ground arith in
    ((split c ys).0, (split c ys).1, rw self refl, refl)
split-append c (x ∷ xs) ys =
    let (q, qs, e, f) = split-append c xs ys in
    elim (Bool-cases (x == c)) [
      | inl same ↦ (
        (split c (xs ++ c ∷ ys)).0,
        q ∷ qs,
        rw same (ap (λ r. (split c (xs ++ c ∷ ys)).0 ∷ r) e),
        f,
      )
      | inr other ↦ (q, qs, rw other e, f)
    ]

pub last_part-append :
    (c : ℕ) (xs ys : Text) → All (λ d. (d == c) ≡ false) ys → last_part c (xs ++ c ∷ ys) ≡ ys
unfolding last_part
last_part-append c xs ys h =
    let (q, qs, e, f) = split-append c xs ys in
    let whole : last_part c ys ≡ ys = rw (split-All c ys h) refl in rw e (f ∙ whole)
