-- ===== src/Tests/Health.antt =====
-- Pool breakers, chunk sizes and health checks at concrete inputs.
use proxysplit.Base.{
  String, ◌≡◌, refl, Bool, true, false, Option, none, some, [], ◌∷◌, arith, if◌then◌else◌, ◌==◌,
  string_eq, nat_eq, option_eq, pair_eq, contains,
}
use proxysplit.Breaker
use proxysplit.Breaker.{Breaker, opened, closed, state_for}
use proxysplit.ChunkSizer.Bounds.{Scales}
use proxysplit.Dict.{lookup}
use proxysplit.Health
use proxysplit.Health.{
  filter_live_proxies, filter_supported, has_scheme, supported_schemes, is_alive, retest,
}
use proxysplit.Health.Retest.{retest_failed}
use proxysplit.PoolBreaker
use proxysplit.PoolBreaker.{PoolBreaker, allow_request, record_failure, blocked_for}
use proxysplit.PoolBreaker.Isolation.{record_failure-bans_pool}
use proxysplit.Tests.Instances.{whole, counter}

abbrev cdn_only : PoolBreaker
cdn_only = record { threshold = 5; base_delay = 60; max_delay = 3600; breakers = [] }

record_failure-bans_pool_example :
    let b' = record_failure 0 0 "a" (some "cdn") 6 cdn_only in
    ((allow_request 59 "a" (some "cdn") b').1 ≡ false)
    × (contains (blocked_for 59 (some "cdn") b') "a" ≡ true)
    × (lookup ("a", none) b'.breakers ≡ lookup ("a", none) cdn_only.breakers)
unfolding PoolBreaker.entry lookup
record_failure-bans_pool_example =
    record_failure-bans_pool 0 0 59 "a" (some "cdn") none 6 cdn_only tt (omega arith) refl refl

abbrev scales : Scales whole
scales = record { grows = λ c. omega arith; shrinks = λ c. omega arith }

abbrev answers_some : String → Option Bool
answers_some p = if p == "http://a" then some true else none

abbrev served_ban : Breaker.Entry
served_ban = record {
  state = opened;
  strike = 1;
  open_until = 60;
  banned_at = some 0;
  reason = "timeout";
}

abbrev after_ban : Breaker
after_ban = record {
  threshold = 5;
  base_delay = 60;
  max_delay = 3600;
  breakers = ("http://a", served_ban) ∷ [];
  probe_events = [];
  next_event = 0;
  set_events = [];
}

abbrev nobody : String → Bool
nobody url = false

abbrev everybody : String → Bool
everybody url = true

abbrev dead_state : Health.State counter nobody
dead_state = record {
  breaker = after_ban;
  stats = [];
  registry = record { all = []; tor_urls = [] };
  tags = [];
}

abbrev alive_state : Health.State counter everybody
alive_state = record {
  breaker = after_ban;
  stats = [];
  registry = record { all = []; tor_urls = [] };
  tags = [];
}

retest_failed_example :
    lookup "http://a" (retest counter nobody 60 60 "http://a" dead_state).breaker.breakers
    ≡ some served_ban
unfolding lookup
retest_failed_example =
    retest_failed counter nobody 60 60 "http://a" "http://a" served_ban dead_state refl refl refl
