-- ===== src/Tests/Transfers.antt =====
-- Ranges, chunks and caches at concrete inputs.
use proxysplit.Base.{
  ℕ, ◌+◌, ◌≤◌, ◌<◌, String, ◌≡◌, refl, true, none, some, List, [], ◌∷◌, arith, if◌then◌else◌, ◌==◌,
  string_eq, nat_eq, length, get_elem?, All, contains,
}
use proxysplit.Cache.{init}
use proxysplit.Cache.Control.{Headers}
use proxysplit.Cache.Recency.{Call, gets, puts, run, run-init_bounded}
use proxysplit.Chunk.{Job, fetch_chunk}
use proxysplit.Chunk.Attempts.{Tally, Report, fetch_chunk-Report}
use proxysplit.Dict.{Unique}
use proxysplit.Ranges.{Range, build_ranges, apply_per_proxy_chunk_sizes}
use proxysplit.Ranges.Tiling.{Tiles, Sized, build_ranges-Tiles}
use proxysplit.Ranges.PerProxy.{apply_per_proxy_chunk_sizes-Tiles}
use proxysplit.Tests.Instances.{parse_sixty, world, counted}

-- Ten bytes in chunks of four.
build_ranges-Tiles_example :
    (rs : List Range) × (build_ranges 10 4 0 none ≡ some rs) × Tiles 0 10 0 rs × Sized 4 rs
build_ranges-Tiles_example = build_ranges-Tiles 10 4 0 none (omega arith) (omega arith)

ranges_of_ten :
    build_ranges 10 4 0 none
    ≡ some (
        record { first = 0; last = 3; index = 0 }
        ∷ record { first = 4; last = 7; index = 1 }
        ∷ record { first = 8; last = 9; index = 2 }
        ∷ [])
unfolding build_ranges
ranges_of_ten = refl

abbrev size_for : String → ℕ → ℕ × ℕ
size_for url s = (s + 1, if url == "a" then 6 else 2)

size_for-positive : (url : String) (s : ℕ) → 0 < (size_for url s).1
size_for-positive url s = ground arith

abbrev three_ranges : List Range
three_ranges =
    record { first = 0; last = 3; index = 0 }
    ∷ record { first = 4; last = 7; index = 1 }
    ∷ record { first = 8; last = 9; index = 2 }
    ∷ []

abbrev three_urls : List String
three_urls = "a" ∷ "b" ∷ "a" ∷ []

three_ranges-Tiles : Tiles 0 10 0 three_ranges
three_ranges-Tiles = (
  refl,
  omega arith,
  omega arith,
  refl,
  (refl, omega arith, omega arith, refl, (refl, omega arith, omega arith, refl, refl)),
)

apply_per_proxy_chunk_sizes-Tiles_example :
    (rs : List Range) × (urls : List String) × (s' : ℕ) × (apply_per_proxy_chunk_sizes size_for
        three_ranges three_urls 0 10 4 0
      ≡ some (rs, urls, s'))
    × Tiles 0 10 0 rs
    × (length urls ≡ length rs)
    × All (λ u. contains three_urls u ≡ true) urls
    × ((j : ℕ) → j < length rs → j < 3 → get_elem? urls j ≡ get_elem? three_urls j)
apply_per_proxy_chunk_sizes-Tiles_example =
    apply_per_proxy_chunk_sizes-Tiles size_for size_for-positive three_ranges three_urls 0 10 4 0
      (omega arith) (omega arith) three_ranges-Tiles refl

abbrev two_bytes : Job
two_bytes = record { start = 4; last = 5; index = 2; chunk_retries = 3; chunk_proxy = true }

abbrev no_requests : Tally
no_requests = record { requests = 0; failures = 0; successes = 0 }

fetch_chunk-Report_example :
    let (w', budget', r) = fetch_chunk world two_bytes "http://a" (some 1) no_requests in
    Report two_bytes 3 1 no_requests w' (some 1) budget' r
fetch_chunk-Report_example =
    fetch_chunk-Report world counted two_bytes "http://a" (some 1) no_requests

abbrev no_headers : Headers
no_headers = []

abbrev some_calls : List Call
some_calls =
    puts 0 0 "u" 200 (1 ∷ []) no_headers ∷ puts 1 1 "v" 200 (2 ∷ []) no_headers ∷ gets 2 "u" ∷ []

run-init_bounded_example :
    let c = run parse_sixty some_calls (init 1 60 10) in Unique c.store × (length c.store ≤ 1)
run-init_bounded_example = run-init_bounded parse_sixty some_calls 1 60 10
