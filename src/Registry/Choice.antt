-- ===== src/Registry/Choice.antt =====
-- proxy/registry.py: a choice is made among the candidates, and there is one.
use proxysplit.Base.{
  length-without, ℕ, zero, suc, ◌<◌, String, ◌≡◌, refl, inl, inr, true, false, not, Option, some,
  List, [], ◌∷◌, map, arith, ltb, Bool-cases, beq_self, string_eq, length, get_elem?, last_or, All,
  contains, Distinct, contains-filter_by, All-contains,
}
use proxysplit.Dict.{Dict}
use proxysplit.Float
use proxysplit.Float.{Float}
use proxysplit.Registry.{candidates, choose, weight_of, score_choice, random_choice}

-- What a choice promises for some proxies: given any set to exclude it gives one of them, and one
-- that is not excluded if there are more proxies than exclusions.
abbrev pub Chooses : List String → (List String → Option String) → Type 0
Chooses urls pick =
    (excluded : List String)
    → (p : String) × (pick excluded ≡ some p)
      × (contains urls p ≡ true)
      × (length excluded < length urls → contains excluded p ≡ false)

contains-candidates :
    (urls excluded : List String) (p : String)
    → contains (candidates urls excluded) p ≡ true
    → (contains urls p ≡ true) × (length excluded < length urls → contains excluded p ≡ false)
unfolding candidates
contains-candidates urls [] p h = (ground arith, λ _. refl)
contains-candidates urls (x ∷ xs) p h = elim (Bool-cases (ltb (length (x ∷ xs)) (length urls))) [
  | inl more ↦
      let kept = contains-filter_by (λ y. not (contains (x ∷ xs) y)) urls p in
      (ground (arith, kept), λ _. ground (arith, kept))
  | inr few ↦ (ground arith, λ q. absurd (ground arith))
]

candidates_nonempty :
    (urls excluded : List String)
    → Distinct urls
    → 0 < length urls
    → 0 < length (candidates urls excluded)
unfolding candidates
candidates_nonempty urls excluded d h = ground (arith, length-without urls excluded d)

get_elem?-contains :
    (xs : List String) (i : ℕ)
    → i < length xs
    → (p : String) × (get_elem? xs i ≡ some p) × (contains xs p ≡ true)
get_elem?-contains [] i h = elim h [ ]
get_elem?-contains (x ∷ xs) zero h = (x, refl, ground (arith, beq_self x))
get_elem?-contains (x ∷ xs) (suc i) h =
    let (p, e, c) = get_elem?-contains xs i (omega arith) in (p, e, ground arith)

-- `random_choice` of distinct proxies keeps the promise, whatever index `random.choice` draws.
pub random_choice-Chooses :
    (index : List String → ℕ) (urls : List String)
    → ((cs : List String) → 0 < length cs → index cs < length cs)
    → Distinct urls
    → 0 < length urls
    → Chooses urls (random_choice index urls)
unfolding random_choice
random_choice-Chooses index urls inside d h excluded =
    let cs = candidates urls excluded in
    let (p, e, c) =
      get_elem?-contains cs (index cs) (inside cs (candidates_nonempty urls excluded d h)) in
    let (member, kept) = contains-candidates urls excluded p c in (p, e, member, kept)

module _ (𝓕 : Float) where
  open 𝓕 use {F, lit, mul}

  choose-contains :
      (cs : List String) (r cumulative : F) (fallback : String) (weights : List (String × F))
      → contains cs fallback ≡ true
      → All (λ p. contains cs p.0 ≡ true) weights
      → contains cs (choose 𝓕 r cumulative fallback weights) ≡ true
  unfolding choose
  choose-contains cs r cumulative fallback [] h all = h
  choose-contains cs r cumulative fallback ((p, w) ∷ rest) h all =
      ground (arith, choose-contains cs r (𝓕.add cumulative w) fallback rest h all.1)

  All-weights :
      (P : String → Type 0) (scores : Dict String F) (cs : List String)
      → All P cs
      → All (λ (p : String × F). P p.0) (map (λ p. (p, weight_of 𝓕 scores p)) cs)
  All-weights P scores [] h = tt
  All-weights P scores (c ∷ cs) h = (h.0, All-weights P scores cs h.1)

  last_or-contains : (x : String) (xs : List String) → contains (x ∷ xs) (last_or xs x) ≡ true
  last_or-contains x [] = ground (arith, beq_self x)
  last_or-contains x (y ∷ xs) = ground (arith, last_or-contains y xs)

  score-chosen :
      (random : F) (scores : Dict String F) (urls excluded cs : List String)
      → candidates urls excluded ≡ cs
      → 0 < length cs
      → (p : String) × (score_choice 𝓕 random scores urls excluded ≡ some p)
        × (contains cs p ≡ true)
  unfolding score_choice
  score-chosen random scores urls excluded [] e h = elim h [ ]
  score-chosen random scores urls excluded (c ∷ cs) e h =
      let weights = map (λ p. (p, weight_of 𝓕 scores p)) (c ∷ cs) in
      let total = Float.sum 𝓕 (map (λ p. p.1) weights) in
      (
        choose 𝓕 (mul random total) (lit 0 0) (last_or cs c) weights,
        rw (e, score_choice),
        choose-contains (c ∷ cs) (mul random total) (lit 0 0) (last_or cs c) weights
            (last_or-contains c cs)
            (All-weights (λ p. contains (c ∷ cs) p ≡ true) scores (c ∷ cs) (All-contains (c ∷ cs))),
      )

  -- `score_choice` of distinct proxies keeps the promise, whatever the scores and the random number
  -- are, and with any rounding of the weights.
  pub score_choice-Chooses :
      (random : F) (scores : Dict String F) (urls : List String)
      → Distinct urls
      → 0 < length urls
      → Chooses urls (score_choice 𝓕 random scores urls)
  score_choice-Chooses random scores urls d h excluded =
      let cs = candidates urls excluded in
      let (p, e, c) =
        score-chosen random scores urls excluded cs refl (candidates_nonempty urls excluded d h) in
      let (member, kept) = contains-candidates urls excluded p c in (p, e, member, kept)
