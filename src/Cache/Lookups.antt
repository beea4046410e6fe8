-- ===== src/Cache/Lookups.antt =====
-- proxy/cache.py: what can be read after a call.
use proxysplit.Base.{
  ℕ, ◌-◌, ◌≤◌, ◌<◌, String, ◌≡◌, refl, ◌∙◌, inl, inr, true, false, ◌&&◌, Option, none, some, List,
  [], ◌∷◌, ◌++◌, arith, ltb, leb, if◌then◌else◌, Bool-cases, Option-cases, ◌==◌, nat_eq, string_eq,
  option_eq, length, drop, length-append,
}
use proxysplit.Dict.{Dict, Unique, lookup, remove, lookup-remove, lookup-append, remove_absent}
use proxysplit.Cache.{Entry, ResponseCache, enabled, touch, get, evict_over, put}
use proxysplit.Cache.Control.{Headers, ParseFloat, ttl_of}
use proxysplit.Cache.Recency.{Inv, evict_over-drop, new_entry, touch-Unique, length-touch}

unfoldable pub first_key : Dict String Entry → Option String
first_key [] = none
first_key ((k, e) ∷ d) = some k

-- The least recently used URL, if the cache is full and the stored one is new.
unfoldable pub victim : String → ResponseCache → Option String
unfolding first_key
victim url c = elim (lookup url c.store) [
  | some e ↦ none
  | none ↦ if length c.store == c.max_size then first_key c.store else none
]

lookup-touch :
    (url q : String) (e : Entry) (d : Dict String Entry)
    → lookup q (touch url e d) ≡ (if url == q then some e else lookup q d)
unfolding touch lookup
lookup-touch url q e d =
    ground (arith, lookup-append q (remove url d) ((url, e) ∷ []), lookup-remove url q d)

lookup-drop_one :
    (q : String) (d : Dict String Entry)
    → Unique d
    → lookup q (drop 1 d) ≡ (if first_key d == some q then none else lookup q d)
unfolding lookup first_key
lookup-drop_one q [] u = refl
lookup-drop_one q ((k, e) ∷ d) u = ground (arith, string_eq.beq_iff k q)

first_key-snoc :
    (d : Dict String Entry) (p : String × Entry)
    → 0 < length d
    → first_key (d ++ p ∷ []) ≡ first_key d
unfolding first_key
first_key-snoc [] p h = absurd (omega arith)
first_key-snoc ((k, e) ∷ d) p h = refl

first_key_found :
    (q : String) (d : Dict String Entry) → lookup q d ≡ none → (first_key d == some q) ≡ false
unfolding lookup first_key
first_key_found q [] h = refl
first_key_found q ((k, e) ∷ d) h = ground arith

module _ (url q : String) (e : Entry) (c : ResponseCache) (v : Inv c) (on : 0 < c.max_size) where
  abbrev stored : Dict String Entry
  stored = evict_over c.max_size (touch url e c.store)

  abbrev expected : Option Entry
  expected = if url == q then some e else if victim url c == some q then none else lookup q c.store

  stored_known : (x : Entry) → lookup url c.store ≡ some x → lookup q stored ≡ expected
  unfolding victim
  stored_known x p =
      let fits : length (touch url e c.store) - c.max_size ≡ 0 =
        omega (arith, length-touch url e x c.store v.unique p, v.bounded) in
      rw (evict_over-drop, fits, lookup-touch, p, victim) refl

  touch_new : lookup url c.store ≡ none → touch url e c.store ≡ c.store ++ (url, e) ∷ []
  unfolding touch
  touch_new p = rw (remove_absent url c.store p)

  stored_room :
      lookup url c.store ≡ none
      → (length c.store == c.max_size) ≡ false
      → lookup q stored ≡ expected
  unfolding victim
  stored_room p room =
      let fits : length (touch url e c.store) - c.max_size ≡ 0 =
        rw (touch_new p, length-append) (ground (arith, v.bounded)) in
      let kept : victim url c ≡ none = rw (p, victim) (rw room) in
      rw (evict_over-drop, fits, lookup-touch, kept) refl

  stored_full :
      lookup url c.store ≡ none → (length c.store == c.max_size) ≡ true → lookup q stored ≡ expected
  unfolding victim
  stored_full p full =
      let excess : length (touch url e c.store) - c.max_size ≡ 1 =
        rw (touch_new p, length-append) (ground arith) in
      let oldest : victim url c ≡ first_key c.store = rw (p, victim) (rw full) in
      let same : first_key (touch url e c.store) ≡ first_key c.store =
        rw (touch_new p) (first_key-snoc c.store (url, e) (ground arith)) in
      let dropped = lookup-drop_one q (touch url e c.store) (touch-Unique url e c.store v.unique) in
      rw (evict_over-drop, excess)
        (dropped
          ∙ rw (same, lookup-touch, oldest)
              (elim (Bool-cases (url == q)) [
                | inl hit ↦
                    let absent : (first_key c.store == some q) ≡ false =
                      rw (← (string_eq.beq_iff url q).0 hit) (first_key_found url c.store p) in
                    rw (absent, hit)
                | inr miss ↦ rw miss
              ]))

  lookup-stored : lookup q stored ≡ expected
  lookup-stored = elim (Option-cases (lookup url c.store)) [
    | inl p ↦ elim (Bool-cases (length c.store == c.max_size)) [
      | inl full ↦ stored_full p full
      | inr room ↦ stored_room p room
    ]
    | inr (x, p) ↦ stored_known x p
  ]

-- A response that the header and the size let in can be read under its URL, and every other URL can
-- be read as before, except the least recently used one, if the cache was full and the
-- URL is new.
pub lookup-put :
    (parse_float : ParseFloat) (now wall : ℕ) (url q : String) (status : ℕ) (body : List ℕ)
    (headers : Headers) (c : ResponseCache) (ttl : ℕ)
    → Inv c
    → 0 < c.max_size
    → length body ≤ c.max_body
    → ttl_of parse_float c.default_ttl headers ≡ some ttl
    → lookup q (put parse_float now wall url status body headers c).store ≡ (
        if url == q
        then some (new_entry parse_float now wall url status body headers c ttl)
        else if victim url c == some q
        then none
        else lookup q c.store)
unfolding put
lookup-put parse_float now wall url q status body headers c ttl v on fits allowed =
    let e = new_entry parse_float now wall url status body headers c ttl in
    let guarded : (enabled c && leb (length body) c.max_body) ≡ true = ground arith in
    rw (guarded, put) (rw (allowed, put) (lookup-stored url q e c v on))

-- A read returns exactly the stored response that has not expired, in an enabled cache; it changes
-- what is stored for the URL only by dropping it once it has expired, and nothing else.
pub get-lookup :
    (now : ℕ) (url q : String) (c : ResponseCache)
    → 0 < c.max_size
    → ((get now url c).1 ≡ elim (lookup url c.store) [
      | none ↦ none
      | some e ↦ if ltb e.expires now then none else some (e.status, e.body, e.headers)
    ])
      × (lookup q (get now url c).0.store ≡ elim (lookup q c.store) [
        | none ↦ none
        | some e ↦ if url == q && ltb e.expires now then none else some e
      ])
unfolding get
get-lookup now url q c on = elim (Option-cases (lookup url c.store)) [
  | inl p ↦ (ground arith, ground (arith, string_eq.beq_iff url q))
  | inr (e, p) ↦ (
    ground arith,
    ground
        (arith, string_eq.beq_iff url q, lookup-remove url q c.store, lookup-touch url q e c.store),
  )
]
