-- ===== src/Registry/Membership.antt =====
-- proxy/registry.py: which proxies are in the pool, and what a removal leaves behind.
use proxysplit.Base.{
  contains-erase_ne, contains-erase_self, erase-Distinct, snoc-Distinct, without, String, ◌≡◌, true,
  false, not, ◌&&◌, ◌||◌, Option, none, List, [], ◌∷◌, arith, if◌then◌else◌, ◌==◌, nat_eq,
  string_eq, contains, Distinct, contains-filter_by,
}
use proxysplit.Dict.{lookup, lookup-remove}
use proxysplit.Float.{Float}
use proxysplit.RateLimiter.{remove_limiter}
use proxysplit.Stats.{evict}
use proxysplit.Registry.{
  Tags, Registry, Pool, no_pool, in_pool, urls_for_pool, available, add, remove_proxy,
}

-- A proxy is available exactly if it is in the pool of proxies, is not blocked, and has the tag that
-- is asked for (if one is).
pub contains-available :
    (tags : Tags) (blocked : List String) (pool : Option String) (r : Registry) (u : String)
    → contains (available tags blocked pool r) u
      ≡ (contains r.all u && not (contains blocked u) && (no_pool pool || in_pool tags pool u))
unfolding available urls_for_pool
contains-available tags blocked pool r u = ground (
  arith,
  contains-filter_by (λ x. not (contains blocked x)) r.all u,
  contains-filter_by (in_pool tags pool) (without blocked r.all) u,
)

-- The administration of a running pool.
pub data Change : Type 0 where
  adds : String → List String → Change
  removes : String → Change

module _ (𝓕 : Float) where
  unfoldable pub change : Change → Pool 𝓕 → Pool 𝓕
  change (adds url tags) p =
      let ((r, all_tags), _) = add url tags (p.registry, p.tags) in
      record p { registry = r; tags = all_tags }
  change (removes url) p = (remove_proxy 𝓕 url p).0

  unfoldable pub changes : List Change → Pool 𝓕 → Pool 𝓕
  unfolding change
  changes [] p = p
  changes (c ∷ cs) p = changes cs (change c p)

  change-Distinct :
      (c : Change) (p : Pool 𝓕) → Distinct p.registry.all → Distinct (change c p).registry.all
  unfolding change add remove_proxy
  change-Distinct (adds url tags) p d = ground (arith, snoc-Distinct url p.registry.all d)
  change-Distinct (removes url) p d = ground (arith, erase-Distinct url p.registry.all d)

  -- No sequence of additions and removals lists a proxy twice.
  pub changes-Distinct :
      (cs : List Change) (p : Pool 𝓕)
      → Distinct p.registry.all
      → Distinct (changes cs p).registry.all
  unfolding changes
  changes-Distinct [] p d = d
  changes-Distinct (c ∷ cs) p d = changes-Distinct cs (change c p) (change-Distinct c p d)

  -- A removed proxy is gone from the pool, its tags, its limiter and its statistics, and a proxy that
  -- was not in the pool is reported so and nothing changes; every other proxy stays as it was.
  pub remove_proxy-forgets :
      (url u : String) (p : Pool 𝓕)
      → Distinct p.registry.all
      → let (q, removed) = remove_proxy 𝓕 url p in
        (removed ≡ contains p.registry.all url)
        × (contains q.registry.all u ≡ (if url == u then false else contains p.registry.all u))
        × (contains p.registry.all url ≡ true
            → (lookup u q.tags ≡ (if url == u then none else lookup u p.tags))
              × (lookup u q.limiters ≡ (if url == u then none else lookup u p.limiters))
              × (lookup u q.stats ≡ (if url == u then none else lookup u p.stats)))
        × (contains p.registry.all url ≡ false → q ≡ p)
  unfolding remove_proxy remove_limiter evict
  remove_proxy-forgets url u p d = (
    ground arith,
    ground (
      arith,
      string_eq.beq_iff url u,
      contains-erase_self url p.registry.all d,
      contains-erase_ne url u p.registry.all,
    ),
    λ h. (
      rw h (lookup-remove url u p.tags),
      rw h (lookup-remove url u p.limiters),
      rw h (lookup-remove url u p.stats),
    ),
    λ h. rw h,
  )
