-- ===== src/Handler/Caching.antt =====
-- proxy/handlers/request.py: what the cache makes of responses.
use proxysplit.Base.{
  ℕ, ◌+◌, ◌≤◌, ◌<◌, String, ◌≡◌, refl, ◌∙◌, inl, inr, true, false, none, some, List, arith, ltb,
  Bool-cases, ◌==◌, beq_self, string_eq, nat_eq, length,
}
use proxysplit.Cache.{ResponseCache, Entry, get, get_validators, put}
use proxysplit.Cache.Control.{Headers, ParseFloat, ttl_of}
use proxysplit.Cache.Lookups.{lookup-put, get-lookup}
use proxysplit.Cache.Recency.{Inv, new_entry}
use proxysplit.Dict.{lookup}
use proxysplit.Handler.{
  Stored, responded, Parts, hit_l1, replied, Request, State, conditions, is_http, store,
  serve_cached, serve_inner, handle_request,
}

max_size-get :
    (now : ℕ) (url : String) (c : ResponseCache) → (get now url c).0.max_size ≡ c.max_size
unfolding get
max_size-get now url c = ground arith

max_size-put :
    (parse_float : ParseFloat) (now wall : ℕ) (url : String) (status : ℕ) (body : List ℕ)
    (headers : Headers) (c : ResponseCache)
    → (put parse_float now wall url status body headers c).max_size ≡ c.max_size
unfolding put
max_size-put parse_float now wall url status body headers c = ground arith

conditions-none :
    (url : String) (c : ResponseCache) (e : Entry)
    → lookup url c.store ≡ some e
    → lookup "ETag" e.headers ≡ none
    → lookup "Last-Modified" e.headers ≡ none
    → conditions url c ≡ none
unfolding conditions get_validators
conditions-none url c e p no_etag no_date = elim (Bool-cases (ltb 0 c.max_size)) [
  | inl on ↦ rw (on, conditions, get_validators) (rw (p, no_etag, no_date) refl)
  | inr off ↦ rw (off, conditions, get_validators) refl
]

module _ (parse_float : ParseFloat) (parts : Parts) where
  -- A read of a stored response without validators.
  reads_back :
      (later : ℕ) (url : String) (c : ResponseCache) (e : Entry)
      → 0 < c.max_size
      → lookup url c.store ≡ some e
      → later ≤ e.expires
      → ((get later url c).1 ≡ some (e.status, e.body, e.headers))
        × (lookup url (get later url c).0.store ≡ some e)
  reads_back later url c e on p fresh =
      let (answer, kept) = get-lookup later url url c on in
      let valid : ltb e.expires later ≡ false = ground arith in
      (answer ∙ rw (p, valid) refl, kept ∙ rw (p, valid) (ground arith))

  served :
      (later wall : ℕ) (q : Request) (s : State parts) (e : Entry)
      → (q.url == "") ≡ false
      → is_http q.url ≡ true
      → q.is_get ≡ true
      → q.no_cache ≡ false
      → 0 < s.cache.max_size
      → lookup q.url s.cache.store ≡ some e
      → later ≤ e.expires
      → lookup "ETag" e.headers ≡ none
      → lookup "Last-Modified" e.headers ≡ none
      → (handle_request parse_float parts later wall q s).1 ≡ replied e.status e.body (some hit_l1)
  unfolding handle_request serve_cached
  served later wall q s e named http is_get reads on p fresh no_etag no_date =
      let (answer, kept) = reads_back later q.url s.cache e on p fresh in
      let plain = conditions-none q.url (get later q.url s.cache).0 e kept no_etag no_date in
      rw (named, handle_request)
        (rw http (rw (is_get, reads) (rw answer (rw (plain, serve_cached) refl))))

  serve_inner-stores :
      (now wall : ℕ) (q : Request) (s : State parts) (f : Stored)
      → (parts.handle_inner q.url s.world).1 ≡ responded f
      → q.is_get ≡ true
      → (serve_inner parse_float parts now wall q s).0.cache
        ≡ put parse_float now wall q.url f.status f.body f.headers s.cache
  unfolding serve_inner store
  serve_inner-stores now wall q s f r is_get = rw (r, serve_inner) (rw is_get refl)

  -- With a cache that is enabled: whatever response `handle_inner` gives to a GET, an error with the status
  -- 502 or 503 or a part with the status 206 too, is stored if its headers and size let it in, and it is
  -- the answer to the next request, if that is a GET for the URL that may use the cache and comes before
  -- the response expires, and the response has no validators.
  pub serve_inner-cached :
      (now wall later wall' ttl : ℕ) (q q' : Request) (s : State parts) (f : Stored)
      → (parts.handle_inner q.url s.world).1 ≡ responded f
      → q.is_get ≡ true
      → Inv s.cache
      → 0 < s.cache.max_size
      → length f.body ≤ s.cache.max_body
      → ttl_of parse_float s.cache.default_ttl f.headers ≡ some ttl
      → later ≤ now + ttl
      → lookup "ETag" f.headers ≡ none
      → lookup "Last-Modified" f.headers ≡ none
      → q'.url ≡ q.url
      → (q.url == "") ≡ false
      → is_http q.url ≡ true
      → q'.is_get ≡ true
      → q'.no_cache ≡ false
      → let s' = (serve_inner parse_float parts now wall q s).0 in
        (handle_request parse_float parts later wall' q' s').1
        ≡ replied f.status f.body (some hit_l1)
  serve_inner-cached now wall later wall' ttl q q' s f r is_get v on fits allowed fresh no_etag
        no_date same named http is_get' reads =
      let c = put parse_float now wall q.url f.status f.body f.headers s.cache in
      let e = new_entry parse_float now wall q.url f.status f.body f.headers s.cache ttl in
      let after = serve_inner-stores now wall q s f r is_get in
      let big : 0 < c.max_size =
        omega (arith, max_size-put parse_float now wall q.url f.status f.body f.headers s.cache) in
      let stored : lookup q.url c.store ≡ some e =
        lookup-put parse_float now wall q.url q.url f.status f.body f.headers s.cache ttl v on fits
          allowed
        ∙ rw beq_self refl in
      served later wall' q' (serve_inner parse_float parts now wall q s).0 e (rw same named)
        (rw same http) is_get' reads (rw after big) (rw (after, same) stored) fresh no_etag no_date
