-- ===== src/Tests/Pools.antt =====
-- Configuration, sessions and administration at concrete inputs.
use proxysplit.Base.{
  ℕ, String, ◌≡◌, refl, false, ◌||◌, none, some, List, [], ◌∷◌, ◌++◌, if◌then◌else◌, ◌==◌,
  string_eq, nat_eq, take, contains, Distinct,
}
use proxysplit.Admin.Reports.{Row, Rows, proxy_stats}
use proxysplit.Admin.Selection
use proxysplit.Admin.Selection.{proxy_stats-Selected}
use proxysplit.Admin
use proxysplit.Admin.Empty
use proxysplit.Admin.Empty.{run_empty}
use proxysplit.Config.{Item, tagged, plain, collect_proxies, concat}
use proxysplit.Config.Collect.{any_names, collect_proxies-Distinct}
use proxysplit.Config.Watcher
use proxysplit.Config.Watcher.Polls
use proxysplit.Config.Watcher.Polls.{polls-Followed}
use proxysplit.Dict.{Dict, lookup}
use proxysplit.SessionPool.{SessionPool}
use proxysplit.Transfer
use proxysplit.Transfer.Headers
use proxysplit.Tests.Instances.{whole}

abbrev items : List Item
items = tagged "http://a" ("cdn" ∷ []) ∷ plain "http://b" ∷ plain "http://a" ∷ []

collect_proxies-Distinct_example :
    let c = collect_proxies items (("http://b" ∷ []) ∷ []) ("http://c" ∷ []) [] in
    Distinct c.proxies
    × (contains c.proxies "http://b" ≡ (
        any_names "http://b" items
        || contains (concat (("http://b" ∷ []) ∷ []) ++ "http://c" ∷ []) "http://b"))
collect_proxies-Distinct_example =
    collect_proxies-Distinct items (("http://b" ∷ []) ∷ []) ("http://c" ∷ []) [] "http://b"

abbrev fresh_config : Dict String ℕ
fresh_config = ("max_workers", 20) ∷ ("port", 9090) ∷ []

abbrev running_config : Dict String ℕ
running_config = ("max_workers", 10) ∷ ("port", 8080) ∷ []

abbrev one_session : SessionPool
one_session = record { sessions = ("http://a", 0) ∷ []; closed = []; next = 1 }

abbrev as_is : String → String
as_is s = s

abbrev empty_state : Admin.State whole as_is
empty_state = record {
  pool = record {
    registry = record { all = []; tor_urls = [] };
    tags = [];
    limiters = [];
    stats = [];
  };
  sessions = one_session;
}

abbrev requests : List (Empty.Call whole as_is)
requests = Empty.adds (some ("http://a", [])) ∷ Empty.removes (some "http://a") ∷ []

run_empty_example : Admin.size whole as_is (Empty.run whole as_is requests empty_state) ≡ 0
run_empty_example = run_empty whole as_is requests empty_state refl

abbrev row : ℕ → ℕ → Row whole 1000000 (λ a b. false)
row score failure = record {
  score = score;
  avg_latency_ms = some 90;
  failure = failure;
  success = 4;
  circuit_state = "";
  blocked = false;
}

abbrev snapshot_rows : Rows whole 1000000 (λ a b. false)
snapshot_rows = ("a", row 10 3) ∷ ("b", row 20 5) ∷ ("c", row 30 9) ∷ []

abbrev state_of : String → String
state_of u = if u == "b" then "open" else "closed"

-- Of three proxies `b` is blocked.
proxy_stats-Selected_example :
    (Selection.count
        (λ r. r.0 == "a")
        (proxy_stats whole 1000000
          (λ a b. false)
          state_of
          ("b" ∷ [])
          "available"
          "failures"
          []
          snapshot_rows)
      ≡ 1)
    × (proxy_stats whole 1000000
          (λ a b. false)
          state_of
          ("b" ∷ [])
          "available"
          "failures"
          (b'2' ∷ [])
          snapshot_rows
        ≡ take 2 (
            proxy_stats whole 1000000
              (λ a b. false)
              state_of
              ("b" ∷ [])
              "available"
              "failures"
              []
              snapshot_rows))
unfolding Headers.all_digits proxy_stats Transfer.number_from
proxy_stats-Selected_example =
    proxy_stats-Selected whole 1000000 (λ a b. false) state_of ("b" ∷ []) "available" "failures"
      (b'2' ∷ []) snapshot_rows (λ r. r.0 == "a") refl

-- At time `m` the file asks for `m` retries; it changes the port too.
abbrev versions : ℕ → Watcher.File ℕ
versions m = Watcher.mapping (("chunk_retries", m) ∷ ("port", m) ∷ [])

abbrev server : Watcher.Server {V = ℕ} {F = ℕ} some
server = record { config = ("chunk_retries", 2) ∷ ("port", 80) ∷ []; rps = 0; target_ms = none }

-- The file is saved, gone for a moment, and saved again.
polls-Followed_example :
    let (w, goes) =
      Watcher.polls {V = ℕ} {F = ℕ} some
        (Polls.observed versions (some 4 ∷ some 4 ∷ none ∷ some 7 ∷ []))
        (none, server) in
    Polls.Seen versions goes (some 7) w.0 × (lookup "chunk_retries" w.1.config ≡ some 7)
unfolding lookup Watcher.polls
polls-Followed_example =
    polls-Followed {V = ℕ} {F = ℕ} some versions "chunk_retries"
      (some 4 ∷ some 4 ∷ none ∷ some 7 ∷ []) none server (λ m. (refl, (refl, tt))) tt
