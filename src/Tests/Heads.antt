-- ===== src/Tests/Heads.antt =====
-- Probes of an origin with six bytes by two proxies, of which the first one fails.
use proxysplit.Base.{
  ℕ, ◌+◌, ◌≤◌, String, ◌≡◌, refl, inl, inr, true, none, some, List, [], ◌∷◌, arith, if◌then◌else◌,
  Bool-cases, ◌==◌, string_eq, nat_eq, list_eq, length, All, contains, Distinct,
}
use proxysplit.Cache.Control.{Headers, codes}
use proxysplit.Chunk.Attempts.{Tally}
use proxysplit.Dict.{lookup}
use proxysplit.Head.{
  failed, answered, Services, pick_probes, get_head_info, WholeServices, fetch_whole,
}
use proxysplit.Head.Attempts.{Counted, Report, fetch_whole-Report}
use proxysplit.Head.Content.{Truth, Origin, HonestHead, get_head_info-content}
use proxysplit.Head.Probes.{at_random, pick_probes-Distinct}
use proxysplit.Registry.{random_choice}
use proxysplit.Tests.Instances.{whole}
use proxysplit.Text.{Text, lower_char}
use proxysplit.Transfer.{client_window}
use proxysplit.Transfer.Decimal.{decimal}
use proxysplit.Transfer.Headers.{range_header, content_range}
use proxysplit.Transfer.RoundTrip.{client_window-range_header}

client_window-range_header_example :
    client_window 6 (some (range_header 1 4)) ≡ record { start = 1; stop = 5; is_partial = true }
client_window-range_header_example = client_window-range_header 6 1 4 (omega arith) (omega arith)

abbrev plain : Text
plain = codes "text/plain"

abbrev two_proxies : List String
two_proxies = "http://a" ∷ "http://b" ∷ []

abbrev other_than : List String → String
other_than excluded = if contains excluded "http://a" then "http://b" else "http://a"

abbrev head_headers : Headers
head_headers =
    ("Content-Length", decimal 6)
    ∷ ("Accept-Ranges", codes "Bytes")
    ∷ ("Content-Type", codes "text/plain")
    ∷ []

abbrev probe_headers : Headers
probe_headers = ("Content-Range", content_range 0 0 6) ∷ ("Content-Type", codes "text/plain") ∷ []

-- The world counts the failures.
abbrev two_stages : Services
two_stages = record {
  World = ℕ;
  pick_proxy = λ excluded w. (w, some (other_than excluded));
  head = λ p w. (w, if p == "http://a" then failed else answered 200 head_headers);
  range_probe = λ p w. (w, answered 206 probe_headers);
  record_failure = λ p w. w + 1;
  batches = λ probes w. probes ∷ [];
}

-- Proxies are drawn from two.
abbrev drawing : Services
drawing = record two_stages {
  pick_proxy = λ excluded w. (w, random_choice (λ cs. 0) two_proxies excluded);
}

pick_probes-Distinct_example :
    let probes = (pick_probes drawing 2 [] 0).1 in
    (length probes ≡ 2)
    × All (λ p. contains two_proxies p ≡ true) probes
    × (2 ≤ length two_proxies → Distinct probes)
pick_probes-Distinct_example =
    pick_probes-Distinct whole drawing two_proxies 2 0 (refl, (refl, tt))
      (λ excluded w. at_random (λ cs. 0) (λ cs pos. pos))

honest :
    (p : String)
    → HonestHead 6 plain (if p == "http://a" then failed else answered 200 head_headers)
unfolding lookup lower_char
honest p = elim (Bool-cases (p == "http://a")) [
  | inl first ↦ rw first tt
  | inr other ↦ rw other (inr (refl, refl))
]

six_bytes : Origin two_stages 6 plain
unfolding lookup
six_bytes = record {
  honest_head = λ p w. honest p;
  honest_probe = λ p w. (refl, refl, refl);
  picked = λ w. ("http://a", refl);
}

get_head_info-content_example : Truth two_stages 6 plain six_bytes (get_head_info two_stages 2 0).1
get_head_info-content_example = get_head_info-content two_stages 6 plain six_bytes 2 0

-- A first request fails, the next ones are answered.
abbrev second_time : WholeServices
second_time = record {
  World = Tally;
  allow_request = λ p t. (t, true);
  pick_proxy = λ p t. (t, some "http://b");
  request = λ p t. (
    record t { requests = t.requests + 1 },
    if t.requests == 0
        then none
        else some (record { status = 200; body = 1 ∷ 2 ∷ []; headers = [] }),
  );
  record_success = λ p n t. record t { successes = t.successes + 1 };
  record_failure = λ p t. record t { failures = t.failures + 1 };
}

counted : Counted second_time
counted = record {
  tally = λ t. t;
  tally-allow_request = λ p t. refl;
  tally-pick_proxy = λ p t. refl;
  tally-request = λ p t. refl;
  tally-record_success = λ p n t. refl;
  tally-record_failure = λ p t. refl;
}

abbrev nothing_yet : Tally
nothing_yet = record { requests = 0; failures = 0; successes = 0 }

fetch_whole-Report_example :
    Report 3 nothing_yet
      (record { requests = 2; failures = 1; successes = 1 })
      (some (record { status = 200; body = 1 ∷ 2 ∷ []; headers = [] }))
unfolding fetch_whole counted
fetch_whole-Report_example = fetch_whole-Report second_time counted 3 none nothing_yet
