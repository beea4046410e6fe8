-- ===== src/Head/Attempts.antt =====
-- proxy/fetchers/head.py: how often `fetch_whole` sends the request, and what is recorded.
use proxysplit.Base.{
  ℕ, zero, suc, ◌+◌, ◌≤◌, String, ◌≡◌, refl, ◌∙◌, inl, inr, Bool, Option, none, some, arith, ltb,
  Option-cases, length,
}
use proxysplit.Chunk.Attempts.{Tally}
use proxysplit.Head.{
  Whole, WholeServices, or_else, allowed_proxy, next_proxy, whole_loop, fetch_whole,
}

-- The world counts the requests that are sent and the failures and successes that are recorded; the
-- other services change no count.
pub record Counted (services : WholeServices) : Type 0 where
  pub tally : services.World → Tally
  pub tally-allow_request :
      (p : String) (w : services.World) → tally (services.allow_request p w).0 ≡ tally w
  pub tally-pick_proxy :
      (p : Option String) (w : services.World) → tally (services.pick_proxy p w).0 ≡ tally w
  pub tally-request :
      (p : Option String) (w : services.World)
      → tally (services.request p w).0 ≡ record (tally w) { requests = (tally w).requests + 1 }
  pub tally-record_success :
      (p : Option String) (n : ℕ) (w : services.World)
      → tally (services.record_success p n w)
        ≡ record (tally w) { successes = (tally w).successes + 1 }
  pub tally-record_failure :
      (p : Option String) (w : services.World)
      → tally (services.record_failure p w) ≡ record (tally w) { failures = (tally w).failures + 1 }

abbrev pub answers : Option Whole → ℕ
answers none = 0
answers (some r) = 1

-- At most `left` requests are sent, and `left` if none was answered; each is recorded once, the one
-- that is answered as a success and the others as failures.
pub record Report (left : ℕ) (t t' : Tally) (r : Option Whole) : Type 0 where
  pub succeeded : t'.successes ≡ t.successes + answers r
  pub recorded : t'.requests + t.failures ≡ t.requests + t'.failures + answers r
  pub bounded : t'.requests ≤ t.requests + left
  pub persistent : r ≡ none → t'.requests ≡ t.requests + left

module _ (services : WholeServices) (counted : Counted services) where
  open services use {World, request, record_success, record_failure}
  open counted use {tally}

  tally-allowed_proxy :
      (p : Option String) (w : World) → tally (allowed_proxy services p w).0 ≡ tally w
  unfolding allowed_proxy
  tally-allowed_proxy none w = refl
  tally-allowed_proxy (some p) w = ground (
    arith,
    counted.tally-allow_request p w,
    counted.tally-pick_proxy (some p) (services.allow_request p w).0,
  )

  tally-next_proxy :
      (left : Bool) (request_proxy p : Option String) (w : World)
      → tally (next_proxy services left request_proxy p w).0 ≡ tally w
  unfolding next_proxy
  tally-next_proxy left request_proxy p w = ground (arith, counted.tally-pick_proxy p w)

  whole_loop-Report :
      (left : ℕ) (request_proxy current : Option String) (w : World)
      → let (w', r) = whole_loop services left request_proxy current w in
        Report left (tally w) (tally w') r
  unfolding whole_loop
  whole_loop-Report zero request_proxy current w = record {
    succeeded = omega arith;
    recorded = omega arith;
    bounded = omega arith;
    persistent = λ e. omega arith;
  }
  whole_loop-Report (suc left) request_proxy current w =
      let (w₁, chosen) = allowed_proxy services current w in
      let (w₂, answer) = request chosen w₁ in
      let sent : tally w₂ ≡ record (tally w) { requests = (tally w).requests + 1 } =
        counted.tally-request chosen w₁ ∙ rw (tally-allowed_proxy current w) refl in
      elim (Option-cases answer) [
        | inr (r, e) ↦
            let done = counted.tally-record_success chosen (length r.body) w₂ in
            rw (e, whole_loop)
              (rw (done, sent)
                (record {
                  succeeded = omega arith;
                  recorded = omega arith;
                  bounded = omega arith;
                  persistent = λ q. cc;
                }))
        | inl e ↦
            let failed = counted.tally-record_failure chosen w₂ in
            let w₃ = record_failure chosen w₂ in
            let next = next_proxy services (ltb 0 left) request_proxy chosen w₃ in
            let same = tally-next_proxy (ltb 0 left) request_proxy chosen w₃ in
            let rest = whole_loop-Report left request_proxy next.1 next.0 in
            rw (e, whole_loop)
              (let before : tally next.0 ≡ record (tally w) {
                requests = (tally w).requests + 1;
                failures = (tally w).failures + 1;
              } =
                  same ∙ failed ∙ rw sent refl in
                let after = rw before at rest in
                record {
                  succeeded = omega (arith, after.succeeded);
                  recorded = omega (arith, after.recorded);
                  bounded = omega (arith, after.bounded);
                  persistent = λ q. omega (arith, after.persistent q);
                })
      ]

  -- `fetch_whole` sends at most `retries` requests, and exactly that many if it raises. Each is recorded
  -- once: the answered one as a success, and the others as failures.
  pub fetch_whole-Report :
      (retries : ℕ) (request_proxy : Option String) (w : World)
      → let (w', r) = fetch_whole services retries request_proxy w in
        Report retries (tally w) (tally w') r
  unfolding fetch_whole
  fetch_whole-Report retries request_proxy w = elim (Option-cases (or_else request_proxy none)) [
    | inr (p, e) ↦ rw (e, fetch_whole) (whole_loop-Report retries request_proxy (some p) w)
    | inl e ↦
        let (w', picked) = services.pick_proxy none w in
        let rest = whole_loop-Report retries request_proxy picked w' in
        rw (e, fetch_whole) (rw (counted.tally-pick_proxy none w) at rest)
  ]
