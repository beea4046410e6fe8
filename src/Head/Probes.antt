-- ===== src/Head/Probes.antt =====
-- proxy/fetchers/head.py: the proxies that are probed.
use proxysplit.Base.{
  ℕ, zero, suc, ◌+◌, ◌≤◌, ◌<◌, String, ◌≡◌, refl, ap, ◌⊎◌, inl, inr, true, false, Option, none,
  some, List, [], ◌∷◌, arith, ltb, if◌then◌else◌, Bool-cases, ◌==◌, beq_self, string_eq, nat_eq,
  length, All, contains, Distinct,
}
use proxysplit.Dict.{Dict}
use proxysplit.Float.{Float}
use proxysplit.Registry.{candidates, random_choice, score_choice}
use proxysplit.Registry.Choice.{random_choice-Chooses, score_choice-Chooses}
use proxysplit.Head.{Services, pick_probes}

-- What `pick_proxy` of proxy/session_pool.py gives where these proxies are available: a proxy drawn at
-- random, or by the scores (`weighted`).
pub data Drawn (𝓕 : Float) (urls excluded : List String) : Option String → Type 0 where
  at_random :
      (index : List String → ℕ)
      → ((cs : List String) → 0 < length cs → index cs < length cs)
      → Drawn 𝓕 urls excluded (random_choice index urls excluded)
  by_score :
      (random : 𝓕.F) (scores : Dict String 𝓕.F)
      → Drawn 𝓕 urls excluded (score_choice 𝓕 random scores urls excluded)

Drawn-some :
    (𝓕 : Float) (urls excluded : List String) (r : Option String)
    → Distinct urls
    → 0 < length urls
    → Drawn 𝓕 urls excluded r
    → (p : String) × (r ≡ some p)
      × (contains urls p ≡ true)
      × (length excluded < length urls → contains excluded p ≡ false)
Drawn-some 𝓕 urls excluded _ d pos (at_random index inside) =
    random_choice-Chooses index urls inside d pos excluded
Drawn-some 𝓕 urls excluded _ d pos (by_score random scores) =
    score_choice-Chooses 𝓕 random scores urls d pos excluded

candidates_none : (excluded : List String) → candidates [] excluded ≡ []
unfolding candidates
candidates_none excluded =
    let few : ltb (length excluded) 0 ≡ false = ground arith in rw few (ground arith)

Drawn-none :
    (𝓕 : Float) (excluded : List String) (r : Option String) → Drawn 𝓕 [] excluded r → r ≡ none
unfolding random_choice score_choice
Drawn-none 𝓕 excluded _ (at_random index inside) = rw (candidates_none excluded, random_choice) refl
Drawn-none 𝓕 excluded _ (by_score random scores) = rw (candidates_none excluded, score_choice) refl

-- What `pick_proxy` promises where these proxies are available: none if there are none, else one of them,
-- and one that is not excluded if there are more proxies than exclusions.
record Picks (services : Services) (urls : List String) : Type 0 where
  pub empty :
      (excluded : List String) (w : services.World)
      → urls ≡ []
      → (services.pick_proxy excluded w).1 ≡ none
  pub picks :
      (excluded : List String) (w : services.World)
      → 0 < length urls
      → (p : String) × ((services.pick_proxy excluded w).1 ≡ some p)
        × (contains urls p ≡ true)
        × (length excluded < length urls → contains excluded p ≡ false)

List-cases : {A : Type 0} (xs : List A) → (xs ≡ []) ⊎ (0 < length xs)
List-cases [] = inl refl
List-cases (x ∷ xs) = inr (omega arith)

module _ (services : Services) (urls : List String) (picks : Picks services urls) where
  open services use {World, pick_proxy}

  record Probed (n : ℕ) (excluded probes : List String) : Type 0 where
    counted : length probes ≡ n
    known : All (λ p. contains urls p ≡ true) probes
    distinct : length excluded + n ≤ length urls → Distinct probes
    fresh :
        length excluded + n ≤ length urls
        → (p : String) → contains excluded p ≡ true
        → contains probes p ≡ false

  pick_probes-Probed :
      (n : ℕ) (excluded : List String) (w : World)
      → 0 < length urls
      → Probed n excluded (pick_probes services n excluded w).1
  unfolding pick_probes
  pick_probes-Probed zero excluded w some_proxy = record {
    counted = refl;
    known = tt;
    distinct = λ le. tt;
    fresh = λ le p h. refl;
  }
  pick_probes-Probed (suc n) excluded w some_proxy =
      let (p, e, inside, new) = picks.picks excluded w some_proxy in
      let added = if contains excluded p then excluded else p ∷ excluded in
      let w' = (pick_proxy excluded w).0 in
      let rest = pick_probes-Probed n added w' some_proxy in
      let size : length added ≤ length excluded + 1 = ground arith in
      let self : contains added p ≡ true = ground (arith, beq_self p) in
      rw (e, pick_probes)
        (record {
          counted = omega (arith, rest.counted);
          known = (inside, rest.known);
          distinct =
              λ le. (rest.fresh (omega (arith, size)) p self, rest.distinct (omega (arith, size)));
          fresh = λ le q h.
              let differ : (p == q) ≡ false = elim (Bool-cases (p == q)) [
                | inl same ↦
                    let z : p ≡ q = (string_eq.beq_iff p q).0 same in
                    let new_p = new (omega (arith, le)) in
                    absurd (cc (ap (contains excluded) z, new_p, h))
                | inr other ↦ other
              ] in
              let still : contains added q ≡ true = ground arith in
              let later = rest.fresh (omega (arith, size)) q still in ground (arith, differ, later);
        })

  -- Nothing is probed if no proxy is available.
  pick_probes-empty : (n : ℕ) (w : World) → urls ≡ [] → (pick_probes services n [] w).1 ≡ []
  unfolding pick_probes
  pick_probes-empty zero w no_proxy = refl
  pick_probes-empty (suc n) w no_proxy =
      let e = picks.empty [] w no_proxy in rw (e, pick_probes) refl

  picks-Distinct :
      (head_retries : ℕ) (w : World)
      → let probes = (pick_probes services head_retries [] w).1 in
        (length probes ≡ (if length urls == 0 then 0 else head_retries))
        × All (λ p. contains urls p ≡ true) probes
        × (head_retries ≤ length urls → Distinct probes)
  picks-Distinct n w = elim (List-cases urls) [
    | inl no_proxy ↦
        let e = pick_probes-empty n w no_proxy in rw e (rw no_proxy (refl, tt, λ le. tt))
    | inr some_proxy ↦
        let r = pick_probes-Probed n [] w some_proxy in
        let full : (length urls == 0) ≡ false = ground arith in
        rw full (r.counted, r.known, λ le. r.distinct (omega arith))
  ]

-- Where `pick_proxy` draws from the same available proxies in each round, at random or by the scores:
-- the number of the probed proxies is `head_retries`, or 0 if none is available; all of them are
-- available, and no one is probed twice if at least `head_retries` are available.
pub pick_probes-Distinct :
    (𝓕 : Float) (services : Services) (urls : List String) (head_retries : ℕ) (w : services.World)
    → Distinct urls
    → ((excluded : List String) (w : services.World)
        → Drawn 𝓕 urls excluded (services.pick_proxy excluded w).1)
    → let probes = (pick_probes services head_retries [] w).1 in
      (length probes ≡ (if length urls == 0 then 0 else head_retries))
      × All (λ p. contains urls p ≡ true) probes
      × (head_retries ≤ length urls → Distinct probes)
pick_probes-Distinct 𝓕 services urls n w d draws =
    picks-Distinct services urls
      (record {
        empty = λ excluded w e.
            let drawn : Drawn 𝓕 [] excluded (services.pick_proxy excluded w).1 =
              rw e at (draws excluded w) in
            Drawn-none 𝓕 excluded (services.pick_proxy excluded w).1 drawn;
        picks = λ excluded w pos.
            Drawn-some 𝓕 urls excluded (services.pick_proxy excluded w).1 d pos (draws excluded w);
      })
      n w
