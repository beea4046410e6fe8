-- ===== src/Tests/Proxies.antt =====
-- Circuit breaker, statistics and registry at concrete inputs.
use proxysplit.Base.{
  ℕ, ◌+◌, ◌*◌, ◌^◌, ◌<◌, min, String, ◌≡◌, refl, inr, true, false, Option, none, some, List, [],
  ◌∷◌, arith, ltb, leb, string_eq, nat_eq, length, All, contains, Distinct,
}
use proxysplit.Breaker.{
  Breaker, init, answer, wait, opened, allow_request, recheck, blocked_urls, expired_open, entry,
  record_failure, backoff,
}
use proxysplit.Breaker
use proxysplit.Breaker.Backoff.{record_failure-bans}
use proxysplit.Breaker.Settle
use proxysplit.Breaker.Invariant
use proxysplit.Breaker.Invariant.{Event, allows, succeeds, fails, run-init-Inv}
use proxysplit.Breaker.Probe.{one_probe}
use proxysplit.Dict.{lookup, insert}
use proxysplit.Registry.{Registry, Pool, random_choice, score_choice}
use proxysplit.Registry.Choice.{Chooses, random_choice-Chooses, score_choice-Chooses}
use proxysplit.Registry.Assign.{distribute_proxies}
use proxysplit.Registry.Distribute.{Spread, distribute_proxies-Spread}
use proxysplit.Stats
use proxysplit.Stats.Counts
use proxysplit.Stats.Counts.{Counts, run-Counts}
use proxysplit.Stats.Coherence.{calls, run_accesses, score-run_accesses}
use proxysplit.Stats.Score.{score, raw_score}
use proxysplit.Wiring.Bans
use proxysplit.Wiring.Bans.{banned-fail_all}
use proxysplit.Tests.Instances.{whole, counter}

-- A proxy that fails, is probed, and recovers.
abbrev recovery : List Event
recovery = fails 0 0 "a" 5 "timeout" ∷ allows 60 "a" ∷ allows 61 "a" ∷ succeeds "a" ∷ []

run-init-Inv_example : Settle.Inv (Invariant.run counter recovery (init 5 60 3600, [])).0
run-init-Inv_example = run-init-Inv counter recovery 5 60 3600 []

abbrev banned : Breaker.Entry
banned = record {
  state = opened;
  strike = 1;
  open_until = 60;
  banned_at = some 0;
  reason = "timeout";
}

abbrev banning : Breaker
banning = record {
  threshold = 5;
  base_delay = 60;
  max_delay = 3600;
  breakers = ("a", banned) ∷ [];
  probe_events = [];
  next_event = 0;
  set_events = [];
}

one_probe_example :
    ((allow_request 60 "a" banning).1 ≡ answer true)
    × (let after =
          (Invariant.run counter
            (fails 61 61 "a" 2 "reset" ∷ succeeds "b" ∷ [])
            ((allow_request 60 "a" banning).0, [])).0 in
        (allow_request 70 "a" after ≡ (after, wait 0)) × (recheck "a" after ≡ false))
unfolding lookup
one_probe_example =
    one_probe counter 60 70 "a" banned banning [] (fails 61 61 "a" 2 "reset" ∷ succeeds "b" ∷ [])
      refl refl (omega arith) (inr (omega arith), (refl, tt))

record_failure-bans_example :
    let b' = record_failure 100 0 "b" 5 "timeout" banning in
    let until = 100 + min (60 * 2 ^ (entry "b" banning).strike) 3600 in
    ((entry "b" b').open_until ≡ until)
    × ((entry "b" b').strike ≡ (entry "b" banning).strike + 1)
    × ((allow_request 150 "b" b').1 ≡ answer (leb until 150))
    × (contains (blocked_urls 150 b') "b" ≡ ltb 150 until)
    × (contains (expired_open 150 b') "b" ≡ leb until 150)
unfolding lookup entry
record_failure-bans_example =
    record_failure-bans 100 0 150 "b" 5 "timeout" banning (refl, tt) (omega arith) refl

abbrev history : List (Counts.Call whole)
history =
    Counts.fails 3 "a" ∷ Counts.succeeds 2 "a" 10 250 ∷ Counts.fails 1 "a" ∷ Counts.reads "b" ∷ []

run-Counts_example : Counts whole (Stats.entry whole "a" (Counts.run whole history)) "a" history
run-Counts_example = run-Counts whole history "a"

abbrev failed_once : Stats.Entry whole
failed_once = record {
  success = 0;
  failure = 1;
  bytes_transferred = 0;
  consecutive_failures = 1;
  latency_ms = [];
  events = (1, false, 0) ∷ [];
  score_cache = none;
}

score-run_accesses_example :
    (t : ℕ) × ((score whole 9 "a" (run_accesses whole (calls (Counts.fails 1 "a") ∷ []))).1
      ≡ raw_score whole t failed_once)
unfolding lookup insert Stats.record_failure Stats.entry Stats.invalidate_score Stats.append_bounded
    Counts.step run_accesses
score-run_accesses_example =
    score-run_accesses whole (calls (Counts.fails 1 "a") ∷ []) 9 "a" failed_once refl

abbrev three : List String
three = "a" ∷ "b" ∷ "c" ∷ []

three-Distinct : Distinct three
three-Distinct = (refl, (refl, (refl, tt)))

abbrev first_index : List String → ℕ
first_index cs = 0

first_index-inside : (cs : List String) → 0 < length cs → first_index cs < length cs
first_index-inside cs h = h

abbrev pick_first : ℕ → List String → Option String
pick_first i excluded = random_choice first_index three excluded

score_choice-Chooses_example : Chooses three (score_choice whole 0 [] three)
score_choice-Chooses_example = score_choice-Chooses whole 0 [] three three-Distinct (omega arith)

pick_first-Chooses : (i : ℕ) → Chooses three (pick_first i)
pick_first-Chooses i =
    random_choice-Chooses first_index three first_index-inside three-Distinct (omega arith)

distribute_proxies-Spread_example :
    let r = distribute_proxies pick_first "a" 5 three none 2 in
    (length r.0 ≡ 5) × All (λ u. contains three u ≡ true) r.0 × Spread 2 r.0 × (r.1 ≡ 0)
distribute_proxies-Spread_example =
    distribute_proxies-Spread pick_first "a" 5 three 2 pick_first-Chooses (omega arith)
      (omega arith)

abbrev registry : Registry
registry = record { all = three; tor_urls = [] }

abbrev pool : Pool whole
pool = record { registry = registry; tags = []; limiters = []; stats = ("b", failed_once) ∷ [] }

-- Times of failures.
abbrev five_failures : List (ℕ × ℕ × ℕ)
five_failures = (2, 2, 2) ∷ (3, 3, 3) ∷ (4, 4, 4) ∷ (5, 5, 5) ∷ []

banned-fail_all_example :
    Bans.banned "a" (Bans.fail_all whole ((1, 1, 1) ∷ five_failures) "a" ([], init 5 60 3600)).1
    ≡ true
unfolding entry init lookup Breaker.new_entry Stats.entry Stats.new_entry
banned-fail_all_example = banned-fail_all whole (1, 1, 1) five_failures "a" [] (init 5 60 3600)
