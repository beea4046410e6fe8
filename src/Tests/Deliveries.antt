-- ===== src/Tests/Deliveries.antt =====
-- Requests, windows, caches and coalescing at concrete inputs.
use proxysplit.Base.{
  ℕ, ◌+◌, ◌≤◌, String, ◌≡◌, refl, true, false, Option, none, some, List, [], ◌∷◌, ◌++◌, arith,
  if◌then◌else◌, ◌==◌, string_eq, nat_eq, length, replicate, All, length-replicate,
}
use proxysplit.Cache.Control.{codes}
use proxysplit.Chunk.{Result, fetched}
use proxysplit.Dedup
use proxysplit.Dedup.Waiters
use proxysplit.DiskCache
use proxysplit.DiskCache.{Sqlite, DiskCache}
use proxysplit.DiskCache.Limit.{put-limit}
use proxysplit.Handler
use proxysplit.Handler.{Stored, Request, responded, handle_all}
use proxysplit.Handler.Uncached.{from_elsewhere, handle_all-uncached}
use proxysplit.Hooks.{Hook}
use proxysplit.Ranges.{Range}
use proxysplit.Transfer
use proxysplit.Transfer.{Window, Reply, bad_gateway, client_window, parse_range, assemble, number}
use proxysplit.Transfer.Assembly.{bytes_of, AllFetched, assemble-slice}
use proxysplit.Transfer.Inner
use proxysplit.Transfer.Inner.{Options, handle_inner}
use proxysplit.Transfer.Delivery.{Serves, ranges_of, handle_inner-delivery}
use proxysplit.Tests.Instances.{parse_sixty}

abbrev six_bytes : List ℕ
six_bytes = 10 ∷ 11 ∷ 12 ∷ 13 ∷ 14 ∷ 15 ∷ []

-- The bytes 1 to 4.
abbrev middle : Window
middle = record { start = 1; stop = 5; is_partial = true }

abbrev two_ranges : List Range
two_ranges =
    record { first = 1; last = 3; index = 0 } ∷ record { first = 4; last = 4; index = 1 } ∷ []

abbrev two_results : List Result
two_results = fetched 0 (11 ∷ 12 ∷ 13 ∷ []) 206 "a" ∷ fetched 1 (14 ∷ []) 206 "b" ∷ []

assemble-slice_example :
    assemble 6 middle two_ranges two_results
    ≡ some (record { status = 206; body = 11 ∷ 12 ∷ 13 ∷ 14 ∷ []; content_range = some (1, 4, 6) })
assemble-slice_example =
    assemble-slice six_bytes middle two_ranges two_results
      (refl, omega arith, omega arith, refl, (refl, omega arith, omega arith, refl, refl))
      (omega arith) (refl, refl, (refl, refl, tt))

abbrev fetch_all : List (Range × String) → List Result
fetch_all [] = []
fetch_all ((r, p) ∷ jobs) = fetched r.index (bytes_of r six_bytes) 206 p ∷ fetch_all jobs

fetch_all-AllFetched :
    (jobs : List (Range × String)) → AllFetched six_bytes (ranges_of jobs) (fetch_all jobs)
fetch_all-AllFetched [] = tt
fetch_all-AllFetched ((r, p) ∷ jobs) = (refl, refl, fetch_all-AllFetched jobs)

-- An origin of six bytes, and a pool of one proxy.
abbrev parts : Inner.Parts
parts = record {
  World = Unit;
  pick_proxy = λ w. (w, some "a");
  pick_other = λ p w. (w, none);
  get_head_info = λ w. (w, some (some 6, true, codes "video/mp4"));
  is_excluded = λ content_type. false;
  fetch_whole = λ proxy w. (w, none);
  distribute_proxies = λ n w. (w, replicate n "a");
  chunk_size_for = λ p w. (w, 2);
  gather = λ jobs budget w. (w, fetch_all jobs);
}

abbrev serves : Serves parts six_bytes
serves = record {
  content_type = codes "video/mp4";
  get_head_info-content = λ w. refl;
  not_excluded = refl;
  length-distribute_proxies = λ n w. length-replicate n "a";
  chunk_size_for-positive = λ p w. omega arith;
  gather-AllFetched = λ jobs budget w. fetch_all-AllFetched jobs;
}

abbrev options : Options
options = record {
  chunk_size = 2;
  chunk_retries = 2;
  chunk_proxy = true;
  pin = none;
  use_streaming = false;
  race_first_chunk = false;
  retry_budget_total = 0;
  per_proxy_chunks = true;
  client_range = some (codes "bytes=1-4");
}

handle_inner-delivery_example :
    (handle_inner parts options tt).1
    ≡ Inner.replied
        (record { status = 206; body = 11 ∷ 12 ∷ 13 ∷ 14 ∷ []; content_range = some (1, 4, 6) })
unfolding client_window parse_range Transfer.digits Transfer.number_from
handle_inner-delivery_example =
    handle_inner-delivery parts six_bytes serves options tt (omega arith) (omega arith) refl

-- A table of sizes, the oldest row first.
abbrev erase_row : String → List (String × ℕ) → List (String × ℕ)
erase_row url [] = []
erase_row url ((u, n) ∷ t) = let rest = erase_row url t in if u == url then t else (u, n) ∷ rest

abbrev total_of : List (String × ℕ) → ℕ
total_of [] = 0
total_of ((u, n) ∷ t) = n + total_of t

abbrev first_row : List (String × ℕ) → Option (String × ℕ)
first_row [] = none
first_row (p ∷ t) = some p

first_row-none : (t : List (String × ℕ)) → first_row t ≡ none → total_of t ≡ 0
first_row-none [] h = refl
first_row-none (p ∷ t) h = cc

length-erase_row :
    (t : List (String × ℕ)) (url : String) (n : ℕ)
    → first_row t ≡ some (url, n)
    → length (erase_row url t) + 1 ≡ length t
length-erase_row [] url n h = cc
length-erase_row ((u, m) ∷ t) url n h = ground (arith, string_eq.beq_iff u url)

total_of-erase_row :
    (t : List (String × ℕ)) (url : String) (n : ℕ)
    → first_row t ≡ some (url, n)
    → total_of (erase_row url t) + n ≡ total_of t
total_of-erase_row [] url n h = cc
total_of-erase_row ((u, m) ∷ t) url n h = ground (arith, string_eq.beq_iff u url)

abbrev sizes : Sqlite
sizes = record {
  Table = List (String × ℕ);
  select = λ url t. none;
  delete = erase_row;
  replace = λ url row t. erase_row url t ++ (url, row.size) ∷ [];
  delete_all = λ t. [];
  total = total_of;
  count = length;
  live = λ now t. (0, 0);
  oldest = first_row;
  oldest-none = first_row-none;
  count-delete = length-erase_row;
  total-delete = total_of-erase_row;
}

abbrev disk : DiskCache sizes
disk = record {
  max_size = 5;
  default_ttl = 60;
  max_body = 10;
  hits = 0;
  misses = 0;
  responses = ("u", 4) ∷ [];
}

put-limit_example :
    (c' : DiskCache sizes) × (DiskCache.put sizes parse_sixty 0 0 "v" 200 (1 ∷ 2 ∷ []) [] disk
      ≡ some c')
    × (total_of c'.responses ≤ 5)
put-limit_example = put-limit sizes parse_sixty 0 0 "v" 200 (1 ∷ 2 ∷ []) [] disk (omega arith)

abbrev calls : List (Waiters.Event ℕ)
calls = Waiters.gets "u" ∷ Waiters.gets "v" ∷ Waiters.dones "v" true ∷ []

abbrev failing : Hook (String × String)
failing call headers = none

abbrev adding : Hook (String × String)
adding call headers = some (some (("Authorization", codes "secret") ∷ headers))

-- An origin that fails.
abbrev failure : Stored
failure = record { status = 502; body = 69 ∷ []; headers = [] }

abbrev failing_parts : Handler.Parts
failing_parts = record {
  World = Unit;
  disk_get = λ url w. (w, none);
  disk_put = λ url r w. w;
  revalidate = λ url etag last_mod w. (w, none);
  handle_inner = λ url w. (w, responded failure);
}

abbrev request : Request
request = record { url = "http://o/x"; is_get = true; no_cache = false }

-- Two requests for one URL.
handle_all-uncached_example :
    let (s', answers) =
      handle_all parse_sixty failing_parts
        ((0, 0, request) ∷ (1, 1, request) ∷ [])
        (Handler.fresh failing_parts tt) in
    (s'.cache ≡ Handler.bound_cache)
    × All (λ a. from_elsewhere a ≡ true) answers
    × (length answers ≡ 2)
handle_all-uncached_example =
    handle_all-uncached parse_sixty failing_parts ((0, 0, request) ∷ (1, 1, request) ∷ [])
      (Handler.fresh failing_parts tt) refl
