-- ===== src/Cache/Control.antt =====
-- proxy/cache.py and proxy/disk_cache.py: what both read from the `Cache-Control` header.
use Prim.Native.Char.{code}
use proxysplit.Base.{
  ℕ, String, Bool, ◌||◌, Option, none, some, List, [], ◌∷◌, ltb, if◌then◌else◌, nat_eq, string_eq,
  drop,
}
use proxysplit.Dict.{Dict, lookup}
use proxysplit.Text.{Text, lower, starts_with, is_in, split, strip}

abbrev pub Headers : Type 0
Headers = Dict String Text

-- `float(text)`, `none` where it raises `ValueError`; 0 stands for every number up to 0.
abbrev pub ParseFloat : Type 0
ParseFloat = Text → Option ℕ

abbrev pub codes : String → Text
codes String.[] = []
codes (String.◌∷◌ c s) = code c ∷ codes s

-- `"no-store" in cc or "no-cache" in cc or "private" in cc`
unfoldable pub is_forbidden : Text → Bool
unfolding is_in
is_forbidden cc =
    is_in (codes "no-store") cc || is_in (codes "no-cache") cc || is_in (codes "private") cc

module _ (parse_float : ParseFloat) where
  -- The loop over the directives: the first `max-age=` decides, and a number that cannot be read
  -- leaves the default.
  unfoldable pub max_age : ℕ → List Text → ℕ
  unfolding starts_with strip
  max_age default_ttl [] = default_ttl
  max_age default_ttl (part ∷ parts) =
      let rest = max_age default_ttl parts in
      if starts_with (codes "max-age=") (strip part)
      then elim (parse_float (drop 8 (strip part))) [ none ↦ default_ttl | some ttl ↦ ttl ]
      else rest

  abbrev get_control : Headers → Text
  get_control headers = elim (lookup "Cache-Control" headers) [ none ↦ [] | some s ↦ lower s ]

  -- The time to live of a response, `none` where it is not stored.
  unfoldable pub ttl_of : ℕ → Headers → Option ℕ
  unfolding is_forbidden max_age split
  ttl_of default_ttl headers =
      let cc = get_control headers in
      let (first, rest) = split b',' cc in
      let ttl = max_age default_ttl (first ∷ rest) in
      if is_forbidden cc then none else if ltb 0 ttl then some ttl else none
