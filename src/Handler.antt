-- ===== src/Handler.antt =====
-- proxy/handlers/request.py: `make_request_handler`. The in-memory cache is that of `Cache`; the disk
-- cache, the request to the origin that revalidates a response, and `handle_inner` are a record of
-- functions on a state of the world. The name CACHE is bound when the module is imported, to the disabled
-- cache: the handler keeps `bound_cache` whatever the configuration says, and the operations are modelled
-- for any cache.
pub mod Caching
pub mod Uncached
use proxysplit.Base.{
  ℕ, ◌*◌, String, Bool, not, ◌&&◌, ◌||◌, Option, none, some, List, [], ◌∷◌, if◌then◌else◌, ◌==◌,
  string_eq, nat_eq,
}
use proxysplit.Cache
use proxysplit.Cache.{ResponseCache, get, get_validators, put}
use proxysplit.Cache.Control.{Headers, ParseFloat, codes}
use proxysplit.Dict.{Dict}
use proxysplit.Text.{Text, starts_with}

pub record Stored : Type 0 where
  pub status : ℕ
  pub body : List ℕ
  pub headers : Headers

-- How `handle_inner` ends.
pub data Inner : Type 0 where
  responded : Stored → Inner
  streamed timed_out raised : Inner

pub record Parts : Type 1 where
  pub World : Type 0
  -- `disk_async_get` and `disk_async_put`, `none` and nothing where there is no disk cache
  pub disk_get : String → World → World × Option Stored
  pub disk_put : String → Stored → World → World
  -- the conditional request, with `If-None-Match` and `If-Modified-Since`; `none` if it raises
  pub revalidate : String → Option Text → Option Text → World → World × Option Stored
  pub handle_inner : String → World → World × Inner

pub data XCache : Type 0 where
  hit_l1_revalidated revalidated hit_l1 hit_l2 : XCache

pub data Answer : Type 0 where
  replied : ℕ → List ℕ → Option XCache → Answer
  sent_stream : Answer

pub record Request : Type 0 where
  pub url : String
  pub is_get : Bool
  pub no_cache : Bool

pub record State (parts : Parts) : Type 0 where
  pub cache : ResponseCache
  pub world : parts.World

-- What `from proxy.cache import CACHE` binds: `ResponseCache(max_size=0)`. The cache that `init` of
-- proxy/cache.py makes later is bound to the name there, not to the one here.
abbrev pub bound_cache : ResponseCache
bound_cache = Cache.init 0 300 (64 * 1024 * 1024)

abbrev pub fresh : (parts : Parts) → parts.World → State parts
fresh parts w = record { cache = bound_cache; world = w }

-- `if etag`: an empty text is none.
abbrev pub given : Option Text → Option Text
given none = none
given (some []) = none
given (some (c ∷ s)) = some (c ∷ s)

-- The conditional headers, `none` where there are none.
unfoldable pub conditions : String → ResponseCache → Option (Option Text × Option Text)
conditions url c = elim (get_validators url c) [
  | none ↦ none
  | some (etag, last_mod) ↦ elim (given etag) [
    | some e ↦ some (some e, given last_mod)
    | none ↦ elim (given last_mod) [ none ↦ none | some m ↦ some (none, some m) ]
  ]
]

abbrev pub is_http : String → Bool
is_http url =
    starts_with (codes "http://") (codes url) || starts_with (codes "https://") (codes url)

module _ (parse_float : ParseFloat) (parts : Parts) where
  open parts use {World, disk_get, disk_put, revalidate, handle_inner}

  unfoldable pub store : ℕ → ℕ → String → Stored → State parts → State parts
  unfolding put
  store now wall url r s = record s {
    cache = put parse_float now wall url r.status r.body r.headers s.cache;
  }

  -- A hit in the cache, `r`: it is revalidated if it has validators.
  unfoldable pub serve_cached : ℕ → ℕ → String → Stored → State parts → State parts × Answer
  unfolding conditions store
  serve_cached now wall url r s = elim (conditions url s.cache) [
    | none ↦ (s, replied r.status r.body (some hit_l1))
    | some (etag, last_mod) ↦
        let (w, fresh) = revalidate url etag last_mod s.world in
        let s' : State parts = record s { world = w } in
        elim fresh [
          | none ↦ (s', replied r.status r.body (some hit_l1))
          | some f ↦
              if f.status == 304
              then (s', replied r.status r.body (some hit_l1_revalidated))
              else if f.status == 200
              then (store now wall url f s', replied 200 f.body (some revalidated))
              else (s', replied r.status r.body (some hit_l1))
        ]
  ]

  -- From `try` on.
  unfoldable pub serve_inner : ℕ → ℕ → Request → State parts → State parts × Answer
  unfolding store
  serve_inner now wall q s =
      let (w, r) = handle_inner q.url s.world in
      let s' : State parts = record s { world = w } in
      elim r [
        | streamed ↦ (s', sent_stream)
        | timed_out ↦ (s', replied 504 [] none)
        | raised ↦ (s', replied 502 [] none)
        | responded f ↦
            let stored : State parts = store now wall q.url f s' in
            (
              if q.is_get then record stored { world = disk_put q.url f w } else s',
              replied f.status f.body none,
            )
      ]

  -- A miss in the memory: the disk, and its hit is promoted to the memory.
  unfoldable pub serve_missed : ℕ → ℕ → Request → State parts → State parts × Answer
  unfolding store serve_inner
  serve_missed now wall q s =
      let (w, hit) = disk_get q.url s.world in
      let s' : State parts = record s { world = w } in
      elim hit [
        | some f ↦ (store now wall q.url f s', replied f.status f.body (some hit_l2))
        | none ↦ serve_inner now wall q s'
      ]

  unfoldable pub handle_request : ℕ → ℕ → Request → State parts → State parts × Answer
  unfolding get serve_cached serve_missed serve_inner
  handle_request now wall q s =
      if q.url == ""
      then (s, replied 400 [] none)
      else if not (is_http q.url)
      then (s, replied 400 [] none)
      else if q.is_get && not q.no_cache
      then (let (c, hit) = get now q.url s.cache in
          let s' : State parts = record s { cache = c } in
          elim hit [
            | some (status, body, headers) ↦
                serve_cached now wall q.url
                  (record { status = status; body = body; headers = headers }) s'
            | none ↦ serve_missed now wall q s'
          ])
      else serve_inner now wall q s

  -- Requests one after the other, each with its two times.
  unfoldable pub handle_all : List (ℕ × ℕ × Request) → State parts → State parts × List Answer
  unfolding handle_request
  handle_all [] s = (s, [])
  handle_all ((now, wall, q) ∷ calls) s =
      let (s', answer) = handle_request now wall q s in
      let (s'', answers) = handle_all calls s' in (s'', answer ∷ answers)
