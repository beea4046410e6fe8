-- ===== src/Config/Collect.antt =====
-- proxy/config_loader.py and proxy/config_watcher.py: proxies are collected without repetition, and a
-- reload changes live keys only.
use proxysplit.Base.{
  snoc-Distinct, String, ◌≡◌, refl, ◌∙◌, inl, inr, Bool, false, not, ◌&&◌, ◌||◌, none, some, List,
  [], ◌∷◌, ◌++◌, arith, if◌then◌else◌, Bool-cases, ◌==◌, string_eq, All, contains, Distinct,
  contains-append,
}
use proxysplit.Cache.Control.{codes}
use proxysplit.Config.{
  is_empty, load_proxy_file, Item, tagged, plain, ignored, Collected, add_proxy, add_item,
  add_items, add_proxies, concat, collect_proxies, live_config, merge,
}
use proxysplit.Dict.{Dict, lookup, insert, lookup-insert, Unique}
use proxysplit.Registry.{Tags}
use proxysplit.Text.{Text, starts_with, strip}

-- Every proxy of a file is a stripped line that is neither empty nor a comment.
pub load_proxy_file-All :
    (lines : List Text)
    → All (λ p. (is_empty p ≡ false) × (starts_with (codes "#") p ≡ false)) (load_proxy_file lines)
unfolding load_proxy_file
load_proxy_file-All [] = tt
load_proxy_file-All (line ∷ lines) =
    elim (Bool-cases (not (is_empty (strip line)) && not (starts_with (codes "#") (strip line)))) [
      | inl p ↦ rw (p, load_proxy_file) ((ground arith, ground arith), load_proxy_file-All lines)
      | inr p ↦ rw (p, load_proxy_file) (load_proxy_file-All lines)
    ]

-- Whether an item of the configuration names a proxy.
abbrev pub names : String → Item → Bool
names u (tagged url tags) = if url == "" then false else url == u
names u (plain p) = p == u
names u ignored = false

abbrev pub any_names : String → List Item → Bool
any_names u [] = false
any_names u (i ∷ items) = names u i || any_names u items

contains-add_proxy :
    (u p : String) (proxies : List String)
    → contains (add_proxy p proxies) u ≡ (contains proxies u || p == u)
unfolding add_proxy
contains-add_proxy u p proxies =
    ground (arith, contains-append proxies (p ∷ []) u, string_eq.beq_iff p u)

add_proxy-Distinct :
    (p : String) (proxies : List String) → Distinct proxies → Distinct (add_proxy p proxies)
unfolding add_proxy
add_proxy-Distinct p proxies d = ground (arith, snoc-Distinct p proxies d)

-- The list has no repetition, and grows by the given proxies.
record Grows (c c' : Collected) (u : String) (new : Bool) : Type 0 where
  distinct : Distinct c.proxies → Distinct c'.proxies
  members : contains c'.proxies u ≡ (contains c.proxies u || new)

add_item-Grows : (u : String) (i : Item) (c : Collected) → Grows c (add_item i c) u (names u i)
unfolding add_item
add_item-Grows u (tagged url tags) c = elim (Bool-cases (url == "")) [
  | inl p ↦ rw (p, add_item) (record { distinct = λ d. d; members = ground arith })
  | inr p ↦
      rw (p, add_item)
        (record {
          distinct = add_proxy-Distinct url c.proxies;
          members = contains-add_proxy u url c.proxies;
        })
]
add_item-Grows u (plain p) c = record {
  distinct = add_proxy-Distinct p c.proxies;
  members = contains-add_proxy u p c.proxies;
}
add_item-Grows u ignored c = record { distinct = λ d. d; members = ground arith }

Grows-then :
    (c c' c'' : Collected) (u : String) (a b : Bool)
    → Grows c c' u a
    → Grows c' c'' u b
    → Grows c c'' u (a || b)
Grows-then c c' c'' u a b g h = record {
  distinct = λ d. h.distinct (g.distinct d);
  members = ground (arith, g.members, h.members);
}

add_items-Grows :
    (u : String) (items : List Item) (c : Collected)
    → Grows c (add_items items c) u (any_names u items)
unfolding add_items
add_items-Grows u [] c = record { distinct = λ d. d; members = ground arith }
add_items-Grows u (i ∷ items) c =
    Grows-then c (add_item i c) _ u (names u i) (any_names u items) (add_item-Grows u i c)
      (add_items-Grows u items (add_item i c))

add_proxies-Grows :
    (u : String) (ps : List String) (c : Collected) → Grows c (add_proxies ps c) u (contains ps u)
unfolding add_proxies
add_proxies-Grows u [] c = record { distinct = λ d. d; members = ground arith }
add_proxies-Grows u (p ∷ ps) c =
    let c' : Collected = record c { proxies = add_proxy p c.proxies } in
    let first : Grows c c' u (p == u) = record {
      distinct = add_proxy-Distinct p c.proxies;
      members = contains-add_proxy u p c.proxies;
    } in
    let both =
      Grows-then c c' (add_proxies ps c') u (p == u) (contains ps u) first
        (add_proxies-Grows u ps c') in
    record { distinct = both.distinct; members = ground (arith, both.members) }

-- The collected proxies have no repetition, and are exactly those that the configuration, a proxy file
-- or the free list names.
pub collect_proxies-Distinct :
    (items : List Item) (files : List (List String)) (free_list : List String) (tags : Tags)
    (u : String)
    → let c = collect_proxies items files free_list tags in
      Distinct c.proxies
      × (contains c.proxies u ≡ (any_names u items || contains (concat files ++ free_list) u))
unfolding collect_proxies
collect_proxies-Distinct items files free_list tags u =
    let start : Collected = record { proxies = []; tags = tags } in
    let first = add_items-Grows u items start in
    let rest = add_proxies-Grows u (concat files ++ free_list) (add_items items start) in
    (rest.distinct (first.distinct tt), ground (arith, first.members, rest.members))

lookup-merge :
    {V : Type 0} (k : String) (cfg running : Dict String V)
    → Unique cfg
    → lookup k (merge cfg running)
      ≡ elim (lookup k cfg) [ none ↦ lookup k running | some v ↦ some v ]
unfolding merge lookup
lookup-merge k [] running u = refl
lookup-merge k ((j, v) ∷ cfg) running u =
    lookup-merge k cfg (insert j v running) u.1
    ∙ ground (arith, lookup-insert j k v running, u.0, string_eq.beq_iff j k)

lookup-live_config :
    {V : Type 0} (keys : List String) (k : String) (cfg : Dict String V)
    → lookup k (live_config keys cfg) ≡ (if contains keys k then lookup k cfg else none)
unfolding live_config lookup
lookup-live_config keys k [] = ground arith
lookup-live_config keys k ((j, v) ∷ cfg) =
    ground (arith, lookup-live_config keys k cfg, string_eq.beq_iff j k)

live_config-Unique :
    {V : Type 0} (keys : List String) (cfg : Dict String V)
    → Unique cfg
    → Unique (live_config keys cfg)
unfolding live_config
live_config-Unique keys [] u = tt
live_config-Unique keys ((j, v) ∷ cfg) u =
    ground (arith, live_config-Unique keys cfg u.1, lookup-live_config keys j cfg, u.0)

-- After a reload a live key has its new value, if the new configuration has one, and every other key
-- and every live key that the new configuration leaves out has the value that it had.
pub lookup-reload :
    {V : Type 0} (keys : List String) (k : String) (cfg running : Dict String V)
    → Unique cfg
    → lookup k (merge (live_config keys cfg) running) ≡ (
        if contains keys k
        then elim (lookup k cfg) [ none ↦ lookup k running | some v ↦ some v ]
        else lookup k running)
lookup-reload keys k cfg running u =
    lookup-merge k (live_config keys cfg) running (live_config-Unique keys cfg u)
    ∙ ground (arith, lookup-live_config keys k cfg)
