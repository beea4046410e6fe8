-- ===== src/Cache/Recency.antt =====
-- proxy/cache.py: the size of the cache and the order of its entries.
use proxysplit.Base.{
  ℕ, suc, ◌+◌, ◌-◌, ◌≤◌, ◌<◌, String, ◌≡◌, refl, ◌∙◌, ◌⊎◌, inl, inr, ◌&&◌, none, some, List, [],
  ◌∷◌, arith, ltb, leb, Bool-cases, Option-cases, beq_self, string_eq, length, drop, length-append,
  length-drop,
}
use proxysplit.Dict.{
  Dict, Unique, lookup, remove, lookup-remove, remove-Unique, snoc-Unique, length-remove-le,
  length-remove,
}
use proxysplit.Cache.{
  Entry, ResponseCache, enabled, init, touch, get, evict_over, put, invalidate, clear,
}
use proxysplit.Cache.Control.{Headers, ParseFloat, ttl_of}

pub record Inv (c : ResponseCache) : Type 0 where
  pub unique : Unique c.store
  pub bounded : length c.store ≤ c.max_size

pub touch-Unique :
    (url : String) (e : Entry) (d : Dict String Entry) → Unique d → Unique (touch url e d)
unfolding touch
touch-Unique url e d u =
    snoc-Unique url e (remove url d) (remove-Unique url d u) (rw (lookup-remove, beq_self url))

-- The loop leaves the most recent entries, as many as fit.
pub evict_over-drop :
    (limit : ℕ) (d : Dict String Entry) → evict_over limit d ≡ drop (length d - limit) d
unfolding evict_over
evict_over-drop limit [] = let e : 0 - limit ≡ 0 = omega arith in rw e
evict_over-drop limit (p ∷ d) = elim (Bool-cases (ltb limit (length (p ∷ d)))) [
  | inl over ↦
      let e : suc (length d) - limit ≡ suc (length d - limit) = ground arith in
      rw (over, e) (evict_over-drop limit d)
  | inr fits ↦ let e : suc (length d) - limit ≡ 0 = ground arith in rw (fits, e)
]

length-evict_over : (limit : ℕ) (d : Dict String Entry) → length (evict_over limit d) ≤ limit
length-evict_over limit d = rw evict_over-drop (omega (arith, length-drop (length d - limit) d))

evict_over-Unique : (limit : ℕ) (d : Dict String Entry) → Unique d → Unique (evict_over limit d)
unfolding evict_over
evict_over-Unique limit [] u = tt
evict_over-Unique limit (p ∷ d) u = ground (arith, evict_over-Unique limit d)

module _ (parse_float : ParseFloat) (now wall : ℕ) (url : String) (status : ℕ) (body : List ℕ)
    (headers : Headers) (c : ResponseCache) where
  -- The entry that `put` stores.
  abbrev pub new_entry : ℕ → Entry
  new_entry ttl = record {
    status = status;
    body = body;
    headers = headers;
    expires = now + ttl;
    cached_at = wall;
  }

  -- `put` does nothing, or the cache is on, the body fits, and the header allows it.
  pub put-cases :
      (put parse_float now wall url status body headers c ≡ c)
      ⊎ ((ttl : ℕ) × (ttl_of parse_float c.default_ttl headers ≡ some ttl)
          × (0 < c.max_size)
          × (put parse_float now wall url status body headers c
              ≡ record c { store = evict_over c.max_size (touch url (new_entry ttl) c.store) }))
  unfolding put
  put-cases = elim (Bool-cases (enabled c && leb (length body) c.max_body)) [
    | inl p ↦ elim (Option-cases (ttl_of parse_float c.default_ttl headers)) [
      | inl q ↦ inl (rw (p, put) (rw (q, put)))
      | inr (ttl, q) ↦ inr (ttl, q, ground arith, rw (p, put) (rw (q, put)))
    ]
    | inr p ↦ inl (rw (p, put))
  ]

  put-Inv : Inv c → Inv (put parse_float now wall url status body headers c)
  put-Inv v = elim put-cases [
    | inl p ↦ rw p v
    | inr (ttl, q, on, p) ↦ rw p (record {
      unique = evict_over-Unique c.max_size _ (touch-Unique url (new_entry ttl) c.store v.unique);
      bounded = length-evict_over c.max_size (touch url (new_entry ttl) c.store);
    })
  ]

pub length-touch :
    (url : String) (e x : Entry) (d : Dict String Entry)
    → Unique d
    → lookup url d ≡ some x
    → length (touch url e d) ≡ length d
unfolding touch
length-touch url e x d u p = rw length-append (omega (arith, length-remove url d {v = x} u p))

-- `get` misses, drops an expired entry, or moves the entry that it returns to the end.
pub get-cases :
    (now : ℕ) (url : String) (c : ResponseCache)
    → let (c', r) = get now url c in
      ((r ≡ none) × (c'.store ≡ c.store) × (lookup url c.store ≡ none ⊎ (c.max_size ≡ 0)))
      ⊎ ((e : Entry) × (lookup url c.store ≡ some e)
          × (e.expires < now)
          × (r ≡ none)
          × (c'.store ≡ remove url c.store))
      ⊎ ((e : Entry) × (lookup url c.store ≡ some e)
          × (now ≤ e.expires)
          × (r ≡ some (e.status, e.body, e.headers))
          × (c'.store ≡ touch url e c.store))
unfolding get
get-cases now url c = elim (Bool-cases (enabled c)) [
  | inl p ↦ elim (Option-cases (lookup url c.store)) [
    | inl q ↦ inl (ground arith, ground arith, inl q)
    | inr (e, q) ↦ elim (Bool-cases (ltb e.expires now)) [
      | inl r ↦ inr (inl (e, q, ground arith, ground arith, ground arith))
      | inr r ↦ inr (inr (e, q, ground arith, ground arith, ground arith))
    ]
  ]
  | inr p ↦ inl (ground arith, ground arith, inr (ground arith))
]

get_max_size :
    (now : ℕ) (url : String) (c : ResponseCache) → (get now url c).0.max_size ≡ c.max_size
unfolding get
get_max_size now url c = ground arith

get-Inv : (now : ℕ) (url : String) (c : ResponseCache) → Inv c → Inv (get now url c).0
get-Inv now url c v = elim (get-cases now url c) [
  | inl (r, same, _) ↦ record {
    unique = rw same v.unique;
    bounded = rw (same, get_max_size) v.bounded;
  }
  | inr (inl (e, p, old, r, gone)) ↦ record {
    unique = rw gone (remove-Unique url c.store v.unique);
    bounded = rw (gone, get_max_size) (omega (arith, length-remove-le url c.store, v.bounded));
  }
  | inr (inr (e, p, new, r, moved)) ↦ record {
    unique = rw moved (touch-Unique url e c.store v.unique);
    bounded =
        rw (moved, get_max_size)
          (omega (arith, length-touch url e e c.store v.unique p, v.bounded));
  }
]

-- The public methods that change the cache.
pub data Call : Type 0 where
  gets : ℕ → String → Call
  puts : ℕ → ℕ → String → ℕ → List ℕ → Headers → Call
  invalidates : String → Call
  clears : Call

module _ (parse_float : ParseFloat) where
  unfoldable pub step : Call → ResponseCache → ResponseCache
  step (gets now url) c = (get now url c).0
  step (puts now wall url status body headers) c =
      put parse_float now wall url status body headers c
  step (invalidates url) c = invalidate url c
  step clears c = clear c

  unfoldable pub run : List Call → ResponseCache → ResponseCache
  unfolding step
  run [] c = c
  run (call ∷ calls) c = run calls (step call c)

  step-Inv : (call : Call) (c : ResponseCache) → Inv c → Inv (step call c)
  unfolding step invalidate clear
  step-Inv (gets now url) c v = get-Inv now url c v
  step-Inv (puts now wall url status body headers) c v =
      put-Inv parse_float now wall url status body headers c v
  step-Inv (invalidates url) c v = record {
    unique = remove-Unique url c.store v.unique;
    bounded = omega (arith, length-remove-le url c.store, v.bounded);
  }
  step-Inv clears c v = record { unique = tt; bounded = omega arith }

  run-Inv : (calls : List Call) (c : ResponseCache) → Inv c → Inv (run calls c)
  unfolding run
  run-Inv [] c v = v
  run-Inv (call ∷ calls) c v = run-Inv calls (step call c) (step-Inv call c v)

  step_max_size : (call : Call) (c : ResponseCache) → (step call c).max_size ≡ c.max_size
  unfolding step invalidate clear
  step_max_size (gets now url) c = get_max_size now url c
  step_max_size (puts now wall url status body headers) c =
      elim (put-cases parse_float now wall url status body headers c) [
        | inl p ↦ rw p
        | inr (ttl, q, on, p) ↦ rw p
      ]
  step_max_size (invalidates url) c = refl
  step_max_size clears c = refl

  run_max_size : (calls : List Call) (c : ResponseCache) → (run calls c).max_size ≡ c.max_size
  unfolding run
  run_max_size [] c = refl
  run_max_size (call ∷ calls) c = run_max_size calls (step call c) ∙ step_max_size call c

  -- After any calls on a new cache no URL is stored twice, and there are at most `size` entries (so
  -- none where the cache is disabled by the size 0).
  pub run-init_bounded :
      (calls : List Call) (size ttl most : ℕ)
      → let c = run calls (init size ttl most) in Unique c.store × (length c.store ≤ size)
  unfolding init
  run-init_bounded calls size ttl most =
      let start = init size ttl most in
      let v = run-Inv calls start (record { unique = tt; bounded = omega arith }) in
      (v.unique, omega (arith, v.bounded, run_max_size calls start))
