-- ===== src/Health.antt =====
-- proxy/fetchers/health.py: which proxies are used at the start, and the retest of banned ones. A
-- request through a proxy is a function that says whether it answered.
pub mod Retest
use proxysplit.Base.{
  ℕ, ◌+◌, max, String, Bool, false, ◌||◌, Option, none, some, List, [], ◌∷◌, ltb, leb,
  if◌then◌else◌, ◌==◌, string_eq, nat_eq, length, filter_by,
}
use proxysplit.Breaker
use proxysplit.Breaker.{Breaker, FailureCounter, release, expired_open}
use proxysplit.Cache.Control.{codes}
use proxysplit.Registry.{Registry, Tags, add}
use proxysplit.Text.{starts_with}

-- `SUPPORTED_SCHEMES` of proxy/session_pool.py
abbrev pub supported_schemes : List String
supported_schemes = "http://" ∷ "https://" ∷ "socks4://" ∷ "socks4a://" ∷ "socks5://" ∷ []

unfoldable pub has_scheme : List String → String → Bool
has_scheme [] p = false
has_scheme (s ∷ schemes) p = starts_with (codes s) (codes p) || has_scheme schemes p

-- The proxies of a supported scheme, and how many are skipped.
unfoldable pub filter_supported : List String → List String × ℕ
unfolding has_scheme
filter_supported [] = ([], 0)
filter_supported (p ∷ proxies) =
    let (ok, skip) = filter_supported proxies in
    if has_scheme supported_schemes p then (p ∷ ok, skip) else (ok, skip + 1)

-- `check_proxy_async`, `none` where it raises.
abbrev pub is_alive : Option Bool → Bool
is_alive none = false
is_alive (some ok) = ok

unfoldable pub filter_live_proxies : (String → Option Bool) → List String → List String
unfolding filter_supported
filter_live_proxies check proxies = filter_by (λ p. is_alive (check p)) (filter_supported proxies).0

-- Whether the server starts.
unfoldable pub validate_proxies : List String → Bool → Bool
validate_proxies proxies tor_only =
    if tor_only then ltb 0 (length proxies) else leb 2 (length proxies)

module _ (counter : FailureCounter) (check : String → Bool) where
  open counter use {Stats, consecutive}

  pub record State : Type 0 where
    pub breaker : Breaker
    pub stats : Stats
    pub registry : Registry
    pub tags : Tags

  -- One round of the loop over the candidates from the end of the `await` of the check, in the state that
  -- it finds then: an entry may be no longer OPEN.
  unfoldable pub retest : ℕ → ℕ → String → State → State
  unfolding release Breaker.record_failure add
  retest now wall url s =
      if check url
      then (let (b, st) = release counter url (s.breaker, s.stats) in
          let ((r, tags), _) = add url [] (s.registry, s.tags) in
          record { breaker = b; stats = st; registry = r; tags = tags })
      else (let n = max (consecutive url s.stats) s.breaker.threshold in
          record s { breaker = Breaker.record_failure now wall url n "retest failed" s.breaker })

  -- The candidates one after the other. `meanwhile` says what the other tasks make of the state while a
  -- check is awaited, and the times at its end.
  unfoldable pub retest_all : (String → State → ℕ × ℕ × State) → List String → State → State
  unfolding retest
  retest_all meanwhile [] s = s
  retest_all meanwhile (url ∷ urls) s =
      let (now, wall, s') = meanwhile url s in retest_all meanwhile urls (retest now wall url s')

  -- One turn of `background_health_checker`; an empty registry is false.
  unfoldable pub check_health : (String → State → ℕ × ℕ × State) → ℕ → State → State
  unfolding retest_all expired_open
  check_health meanwhile now s =
      if length s.registry.all == 0 then s else retest_all meanwhile (expired_open now s.breaker) s
