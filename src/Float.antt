-- ===== src/Float.antt =====
-- Python's `float`, which the program computes latencies, scores and chunk sizes with. The type and
-- its operations belong to the interpreter: they are a parameter of what uses them. No law of
-- arithmetic is assumed here; a property that needs one has it as a hypothesis.
use proxysplit.Base.{ℕ, Bool, List, [], ◌∷◌, if◌then◌else◌}

pub record Float : Type 1 where
  pub F : Type 0
  -- `n / 10 ** k`, for the literals of the source
  pub lit : ℕ → ℕ → F
  pub of_ℕ : ℕ → F
  pub add : F → F → F
  pub sub : F → F → F
  pub mul : F → F → F
  pub div : F → F → F
  pub lt : F → F → Bool
  pub le : F → F → Bool
  -- `int(x)` of a number that is not negative
  pub trunc : F → ℕ
  -- `math.exp(-x)` and `math.log(2)`
  pub exp_neg : F → F
  pub log_two : F

module _ (𝓕 : Float) where
  open 𝓕 use {F, lit, add, lt}

  -- `sum(xs)`
  unfoldable pub sum_from : F → List F → F
  sum_from acc [] = acc
  sum_from acc (x ∷ xs) = sum_from (add acc x) xs

  abbrev pub sum : List F → F
  sum xs = sum_from (lit 0 0) xs

  -- `max(a, b)` and `min(a, b)`: the first argument on a tie
  abbrev pub max : F → F → F
  max a b = if lt a b then b else a

  abbrev pub min : F → F → F
  min a b = if lt b a then b else a
