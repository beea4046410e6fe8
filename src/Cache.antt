-- ===== src/Cache.antt =====
-- proxy/cache.py: `ResponseCache`. Each method holds the lock and is one step; `time.monotonic()` is
-- an argument. A number of seconds that is not positive is 0 here: the code tells such numbers
-- from others only by `ttl <= 0`.
pub mod Control
pub mod Recency
pub mod Lookups
use proxysplit.Base.{
  ℕ, ◌+◌, String, Bool, ◌&&◌, Option, none, some, List, [], ◌∷◌, ◌++◌, ltb, leb, if◌then◌else◌,
  string_eq, length,
}
use proxysplit.Dict.{Dict, lookup, insert, remove}
use proxysplit.Text.{Text}
use Control.{Headers, ParseFloat, ttl_of}

pub record Entry : Type 0 where
  pub status : ℕ
  pub body : List ℕ
  pub headers : Headers
  pub expires : ℕ
  pub cached_at : ℕ

pub record ResponseCache : Type 0 where
  pub max_size : ℕ
  pub default_ttl : ℕ
  pub max_body : ℕ
  pub store : Dict String Entry
  pub hits : ℕ
  pub misses : ℕ

abbrev pub Response : Type 0
Response = ℕ × List ℕ × Headers

unfoldable pub init : ℕ → ℕ → ℕ → ResponseCache
init max_size default_ttl max_body = record {
  max_size = max_size;
  default_ttl = default_ttl;
  max_body = max_body;
  store = [];
  hits = 0;
  misses = 0;
}

abbrev pub enabled : ResponseCache → Bool
enabled c = ltb 0 c.max_size

-- `OrderedDict.move_to_end`, of an entry that is there.
unfoldable pub touch : String → Entry → Dict String Entry → Dict String Entry
touch url e d = remove url d ++ (url, e) ∷ []

unfoldable pub get : ℕ → String → ResponseCache → ResponseCache × Option Response
unfolding touch
get now url c =
    if enabled c
    then elim (lookup url c.store) [
      | none ↦ (record c { misses = c.misses + 1 }, none)
      | some e ↦
          if ltb e.expires now
          then (record c { store = remove url c.store; misses = c.misses + 1 }, none)
          else (
            record c { store = touch url e c.store; hits = c.hits + 1 },
            some (e.status, e.body, e.headers),
          )
    ]
    else (c, none)

unfoldable pub get_validators : String → ResponseCache → Option (Option Text × Option Text)
get_validators url c =
    if enabled c
    then elim (lookup url c.store) [
      | none ↦ none
      | some e ↦ some (lookup "ETag" e.headers, lookup "Last-Modified" e.headers)
    ]
    else none

-- `while len(self._store) > self.max_size: self._store.popitem(last=False)`
unfoldable pub evict_over : ℕ → Dict String Entry → Dict String Entry
evict_over limit [] = []
evict_over limit (p ∷ d) =
    let rest = evict_over limit d in if ltb limit (length (p ∷ d)) then rest else p ∷ d

module _ (parse_float : ParseFloat) where
  unfoldable pub put : ℕ → ℕ → String → ℕ → List ℕ → Headers → ResponseCache → ResponseCache
  unfolding evict_over touch
  put now wall url status body headers c =
      if enabled c && leb (length body) c.max_body
      then elim (ttl_of parse_float c.default_ttl headers) [
        | none ↦ c
        | some ttl ↦
            let e : Entry = record {
              status = status;
              body = body;
              headers = headers;
              expires = now + ttl;
              cached_at = wall;
            } in
            record c { store = evict_over c.max_size (touch url e c.store) }
      ]
      else c

unfoldable pub invalidate : String → ResponseCache → ResponseCache
invalidate url c = record c { store = remove url c.store }

unfoldable pub clear : ResponseCache → ResponseCache
clear c = record c { store = []; hits = 0; misses = 0 }

pub record CacheStats : Type 0 where
  pub size : ℕ
  pub max_size : ℕ
  pub hits : ℕ
  pub misses : ℕ
  pub enabled : Bool

-- `stats`, without the rounded rate.
unfoldable pub stats : ResponseCache → CacheStats
stats c = record {
  size = length c.store;
  max_size = c.max_size;
  hits = c.hits;
  misses = c.misses;
  enabled = ltb 0 c.max_size;
}
