-- ===== src/Tests/Instances.antt =====
-- Concrete functions for what the development takes as parameters.
use proxysplit.Base.{
  ℕ, ◌+◌, ◌-◌, ◌*◌, ◌/◌, ◌^◌, String, ◌≡◌, refl, true, none, some, [], ◌∷◌, arith, ltb, leb,
  if◌then◌else◌, ◌==◌, nat_eq, string_eq,
}
use proxysplit.Breaker.{FailureCounter}
use proxysplit.Cache.Control.{ParseFloat, codes}
use proxysplit.Chunk.{Services, response}
use proxysplit.Chunk.Attempts.{Counted, Tally}
use proxysplit.Dict.{Dict, lookup, insert, lookup-insert}
use proxysplit.Float.{Float}
use proxysplit.Text.{starts_with}

-- Whole numbers for floats.
abbrev pub whole : Float
whole = record {
  F = ℕ;
  lit = λ n k. n / 10 ^ k;
  of_ℕ = λ n. n;
  add = λ a b. a + b;
  sub = λ a b. a - b;
  mul = λ a b. a * b;
  div = λ a b. a / b;
  lt = ltb;
  le = leb;
  trunc = λ n. n;
  exp_neg = λ n. 1;
  log_two = 1;
}

abbrev count : String → Dict String ℕ → ℕ
count u d = elim (lookup u d) [ none ↦ 0 | some n ↦ n ]

pub count-insert :
    (u v : String) (d : Dict String ℕ) → count v (insert u 0 d) ≡ (if u == v then 0 else count v d)
count-insert u v d = ground (arith, lookup-insert u v 0 d)

abbrev pub counter : FailureCounter
counter = record {
  Stats = Dict String ℕ;
  consecutive = count;
  reset = λ u d. insert u 0 d;
  consecutive-reset = count-insert;
}

-- Reads what starts with 60 as 60, and nothing else.
abbrev pub parse_sixty : ParseFloat
parse_sixty text = if starts_with (codes "60") text then some 60 else none

-- A first request is cut short, the next ones are answered in full, by a tally.
abbrev pub world : Services
world = record {
  World = Tally;
  allow_request = λ p t. (t, true);
  pick_proxy = λ p t. (t, some "http://b");
  acquire_limiter = λ p t. t;
  send = λ p first last t.
      let n = t.requests in
      (record t { requests = n + 1 }, response (if n == 0 then [] else 1 ∷ 2 ∷ []) 206);
  record_success = λ p n t. record t { successes = t.successes + 1 };
  record_failure = λ p t. record t { failures = t.failures + 1 };
  invalidate = λ p t. t;
}

abbrev pub counted : Counted world
counted = record {
  tally = λ t. t;
  tally-allow_request = λ p t. refl;
  tally-pick_proxy = λ p t. refl;
  tally-acquire_limiter = λ p t. refl;
  tally-invalidate = λ p t. refl;
  tally-send = λ p a b t. refl;
  tally-record_success = λ p n t. refl;
  tally-record_failure = λ p t. refl;
}
