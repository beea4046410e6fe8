-- ===== src/Registry.antt =====
-- proxy/registry.py: `ProxyRegistry`, with the tags of the proxies and what `remove` clears elsewhere
-- (the limiters and the statistics). `random.random()` and `random.choice` are arguments.
pub mod Choice
pub mod Assign
pub mod Distribute
pub mod Membership
use proxysplit.Base.{
  without, erase, to_set, ℕ, String, Bool, true, false, ◌&&◌, Option, none, some, List, [], ◌∷◌,
  ◌++◌, map, ltb, if◌then◌else◌, ◌==◌, nat_eq, string_eq, length, get_elem?, last_or, filter_by,
  contains,
}
use proxysplit.Dict.{Dict, lookup, insert, remove}
use proxysplit.Float
use proxysplit.Float.{Float}
use proxysplit.RateLimiter.{Limiters, remove_limiter}
use proxysplit.Stats.{ProxyStats, evict}

abbrev pub Tags : Type 0
Tags = Dict String (List String)

pub record Registry : Type 0 where
  pub all : List String
  pub tor_urls : List String

-- `not pool`: no pool, or an empty name.
abbrev pub no_pool : Option String → Bool
no_pool none = true
no_pool (some p) = p == ""

abbrev pub tags_of : Tags → String → List String
tags_of tags u = elim (lookup u tags) [ none ↦ [] | some ts ↦ ts ]

abbrev pub in_pool : Tags → Option String → String → Bool
in_pool tags none u = true
in_pool tags (some p) u = contains (tags_of tags u) p

unfoldable pub urls_for_pool : Tags → Option String → List String → List String
urls_for_pool tags pool urls = if no_pool pool then urls else filter_by (in_pool tags pool) urls

-- `blocked` is what the circuit breaker blocks, the empty set where there is none.
unfoldable pub available : Tags → List String → Option String → Registry → List String
unfolding urls_for_pool
available tags blocked pool r = urls_for_pool tags pool (without blocked r.all)

-- The new registry and tags, and whether the proxy was new.
unfoldable pub add : String → List String → Registry × Tags → (Registry × Tags) × Bool
unfolding to_set
add url tags (r, all_tags) = if contains r.all url then ((r, all_tags), false) else (
  (
    record r { all = r.all ++ url ∷ [] },
    if length tags == 0 then all_tags else insert url (to_set tags) all_tags,
  ),
  true,
)

unfoldable pub replace : List String → Registry → Registry
replace new_list r = record r { all = new_list }

-- `if exclude_set and len(candidates) > len(exclude_set)`; the set is a list of distinct elements.
unfoldable pub candidates : List String → List String → List String
candidates urls exclude_set =
    if ltb 0 (length exclude_set) && ltb (length exclude_set) (length urls)
    then without exclude_set urls
    else urls

-- `random_choice`; `random.choice` takes an index below the length.
unfoldable pub random_choice : (List String → ℕ) → List String → List String → Option String
unfolding candidates
random_choice index urls exclude_set =
    let cs = candidates urls exclude_set in get_elem? cs (index cs)

module _ (𝓕 : Float) where
  open 𝓕 use {F, lit, lt, le, mul}

  -- All that a removal changes.
  pub record Pool : Type 0 where
    pub registry : Registry
    pub tags : Tags
    pub limiters : Limiters 𝓕
    pub stats : ProxyStats 𝓕

  unfoldable pub remove_proxy : String → Pool → Pool × Bool
  unfolding remove_limiter evict erase
  remove_proxy url p =
      let r = p.registry in
      if contains r.all url
      then (
        record p {
          registry = record r { all = erase url r.all; tor_urls = erase url r.tor_urls };
          tags = remove url p.tags;
          limiters = remove_limiter 𝓕 url p.limiters;
          stats = evict 𝓕 url p.stats;
        },
        true,
      )
      else (p, false)

  -- The loop over the candidates and their weights.
  unfoldable pub choose : F → F → String → List (String × F) → String
  choose r cumulative fallback [] = fallback
  choose r cumulative fallback ((p, w) ∷ rest) =
      let cumulative' = 𝓕.add cumulative w in
      let next = choose r cumulative' fallback rest in if le r cumulative' then p else next

  unfoldable pub weight_of : Dict String F → String → F
  weight_of scores p =
      Float.max 𝓕 (lit 1 2) (elim (lookup p scores) [ none ↦ lit 5 1 | some s ↦ s ])

  -- `score_choice`, from the available proxies and the scores of `scores_snapshot`.
  unfoldable pub score_choice : F → Dict String F → List String → List String → Option String
  unfolding candidates choose weight_of
  score_choice random scores urls exclude_set = elim (candidates urls exclude_set) [
    | [] ↦ none
    | c ∷ cs ↦
        let weights = map (λ p. (p, weight_of scores p)) (c ∷ cs) in
        let total = Float.sum 𝓕 (map (λ p. p.1) weights) in
        some (choose (mul random total) (lit 0 0) (last_or cs c) weights)
  ]
