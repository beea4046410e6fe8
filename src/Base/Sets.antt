-- ===== src/Base/Sets.antt =====
-- Lists as sets: what is left of distinct elements when some are excluded.
use mathlib.Core.Path.{◌≡◌, refl}
use mathlib.Core.Bool.{true, false, not}
use mathlib.Core.List.{List, [], ◌∷◌, ◌++◌}
use Prim.Native.Nat.{suc, ◌+◌, ◌≤◌}
use native.Mathlib.Omega.{arith}
use mathlib.Core.Logic.{inl, inr}
use proxysplit.Base.Tests.{if◌then◌else◌, Bool-cases}
use proxysplit.Base.Equality.{Eq, ◌==◌}
use proxysplit.Base.Lists.{length, contains, Distinct, filter_by}

module _ {ℓ} {A : Type ℓ} ⦃e : Eq A⦄ where
  -- `xs.remove(a)` of a list: the first one.
  unfoldable pub erase : A → List A → List A
  erase a [] = []
  erase a (x ∷ xs) = let rest = erase a xs in if x == a then xs else x ∷ rest

  -- `[x for x in xs if x not in ys]`
  abbrev pub without : List A → List A → List A
  without ys xs = filter_by (λ x. not (contains ys x)) xs

  -- `set(xs)`, as a list.
  unfoldable pub to_set : List A → List A
  to_set [] = []
  to_set (x ∷ xs) = let rest = to_set xs in if contains xs x then rest else x ∷ rest

  pub length-to_set-le : (xs : List A) → length (to_set xs) ≤ length xs
  unfolding to_set
  length-to_set-le [] = omega arith
  length-to_set-le (x ∷ xs) = ground (arith, length-to_set-le xs)

  pub contains-to_set : (xs : List A) (a : A) → contains (to_set xs) a ≡ contains xs a
  unfolding to_set
  contains-to_set [] a = refl
  contains-to_set (x ∷ xs) a = ground (arith, e.beq_iff x a, contains-to_set xs a)

  pub contains-erase_ne :
      (a b : A) (xs : List A) → (a == b) ≡ false → contains (erase a xs) b ≡ contains xs b
  unfolding erase
  contains-erase_ne a b [] h = refl
  contains-erase_ne a b (x ∷ xs) h =
      ground (arith, e.beq_iff x a, e.beq_iff x b, e.beq_iff a b, contains-erase_ne a b xs)

  pub contains-erase_self : (a : A) (xs : List A) → Distinct xs → contains (erase a xs) a ≡ false
  unfolding erase
  contains-erase_self a [] d = refl
  contains-erase_self a (x ∷ xs) d = ground (arith, e.beq_iff x a, contains-erase_self a xs d.1)

  pub erase-Distinct : (a : A) (xs : List A) → Distinct xs → Distinct (erase a xs)
  unfolding erase
  erase-Distinct a [] d = tt
  erase-Distinct a (x ∷ xs) d =
      ground
        (arith, e.beq_iff x a, e.beq_iff a x, erase-Distinct a xs d.1, contains-erase_ne a x xs)

  contains-snoc :
      (a b : A) (xs : List A) → contains (xs ++ a ∷ []) b ≡ (if a == b then true else contains xs b)
  contains-snoc a b [] = ground arith
  contains-snoc a b (x ∷ xs) = ground (arith, contains-snoc a b xs)

  pub snoc-Distinct :
      (a : A) (xs : List A) → Distinct xs → contains xs a ≡ false → Distinct (xs ++ a ∷ [])
  snoc-Distinct a [] d h = (refl, tt)
  snoc-Distinct a (x ∷ xs) d h =
      ground (arith, snoc-Distinct a xs d.1, e.beq_iff x a, e.beq_iff a x, contains-snoc a x xs)

  length-erase :
      (a : A) (xs : List A) → contains xs a ≡ true → suc (length (erase a xs)) ≡ length xs
  unfolding erase
  length-erase a [] h = cc
  length-erase a (x ∷ xs) h = ground (arith, length-erase a xs)

  without-erase :
      (a : A) (ys xs : List A) → contains xs a ≡ false → without (erase a ys) xs ≡ without ys xs
  without-erase a ys [] h = refl
  without-erase a ys (x ∷ xs) h =
      ground (arith, e.beq_iff x a, e.beq_iff a x, contains-erase_ne a x ys, without-erase a ys xs)

  -- The pigeonhole principle: excluding `n` elements takes away `n` of distinct ones at most.
  pub length-without :
      (xs ys : List A) → Distinct xs → length xs ≤ length (without ys xs) + length ys
  length-without [] ys d = omega arith
  length-without (x ∷ xs) ys d = elim (Bool-cases (contains ys x)) [
    | inl hit ↦ ground (
      arith,
      length-without xs (erase x ys) d.1,
      length-erase x ys hit,
      without-erase x ys xs d.0,
    )
    | inr miss ↦ ground (arith, length-without xs ys d.1)
  ]
