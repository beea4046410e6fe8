-- ===== src/Chunk/Attempts.antt =====
-- proxy/fetchers/chunk.py: what a fetched chunk is, how many requests it takes, and what is recorded.
use proxysplit.Base.{
  ℕ, zero, suc, ◌+◌, ◌-◌, ◌≤◌, ◌<◌, String, ◌≡◌, refl, ap, ◌∙◌, ◌↔◌, ◌⊎◌, inl, inr, Option, none,
  some, List, arith, leb, if◌then◌else◌, Bool-cases, Option-cases, ◌==◌, nat_eq, length,
}
use proxysplit.Chunk.{
  Outcome, connector_error, other_error, response, Services, Error, no_attempts, Result, fetched,
  raised, Job, take_slot, allowed_proxy, next_proxy, settle, attempt_loop, fetch_chunk,
}

pub record Tally : Type 0 where
  pub requests : ℕ
  pub failures : ℕ
  pub successes : ℕ

-- The world counts the requests that are sent and the failures and successes that are recorded; the
-- other services change no count.
pub record Counted (services : Services) : Type 0 where
  pub tally : services.World → Tally
  pub tally-allow_request :
      (p : String) (w : services.World) → tally (services.allow_request p w).0 ≡ tally w
  pub tally-pick_proxy :
      (p : String) (w : services.World) → tally (services.pick_proxy p w).0 ≡ tally w
  pub tally-acquire_limiter :
      (p : String) (w : services.World) → tally (services.acquire_limiter p w) ≡ tally w
  pub tally-invalidate :
      (p : String) (w : services.World) → tally (services.invalidate p w) ≡ tally w
  pub tally-send :
      (p : String) (a b : ℕ) (w : services.World)
      → tally (services.send p a b w).0 ≡ record (tally w) { requests = (tally w).requests + 1 }
  pub tally-record_success :
      (p : String) (n : ℕ) (w : services.World)
      → tally (services.record_success p n w)
        ≡ record (tally w) { successes = (tally w).successes + 1 }
  pub tally-record_failure :
      (p : String) (w : services.World)
      → tally (services.record_failure p w) ≡ record (tally w) { failures = (tally w).failures + 1 }

abbrev pub is_fetched : Result → ℕ
is_fetched (fetched index content status proxy) = 1
is_fetched (raised exc) = 0

-- A fetched result is the chunk of the job, with as many bytes as were asked for.
abbrev pub IsChunk : Job → Result → Type 0
IsChunk job (fetched index content status proxy) =
    (index ≡ job.index) × (length content ≡ job.last - job.start + 1)
IsChunk job (raised exc) = Unit

abbrev pub slots : Option ℕ → ℕ
slots none = 0
slots (some n) = n

-- What a run of attempts reports: `free` is 1 if its first attempt takes no slot of the budget.
pub record Report (job : Job) (left free : ℕ) (t t' : Tally) (b b' : Option ℕ) (r : Result)
    : Type 0 where
  pub chunk : IsChunk job r
  pub succeeded : t'.successes ≡ t.successes + is_fetched r
  pub recorded : t'.requests + t.failures + t.successes ≡ t.requests + t'.failures + t'.successes
  pub bounded : t'.requests ≤ t.requests + left
  pub budgeted : (n : ℕ) → b ≡ some n → t'.requests + slots b' ≤ t.requests + n + free
  pub limited : (b ≡ none) ↔ (b' ≡ none)

module _ (services : Services) (counted : Counted services) where
  open services use {World, send, acquire_limiter}
  open counted use {tally}

  tally-allowed_proxy : (p : String) (w : World) → tally (allowed_proxy services p w).0 ≡ tally w
  unfolding allowed_proxy
  tally-allowed_proxy p w = ground (
    arith,
    counted.tally-allow_request p w,
    counted.tally-pick_proxy p (services.allow_request p w).0,
  )

  tally-next_proxy :
      (job : Job) (attempt : ℕ) (p : String) (w : World)
      → tally (next_proxy services job attempt p w).0 ≡ tally w
  unfolding next_proxy
  tally-next_proxy job attempt p w = ground (arith, counted.tally-pick_proxy p w)

  -- One attempt: a request, and a success or a failure.
  record Settled (job : Job) (t : Tally) (t' : Tally) (r : Result) : Type 0 where
    chunk : IsChunk job r
    requests : t'.requests ≡ t.requests
    successes : t'.successes ≡ t.successes + is_fetched r
    failures : t'.failures + is_fetched r ≡ t.failures + 1

  settle-Settled :
      (job : Job) (p : String) (w : World) (o : Outcome)
      → let (w', r) = settle services job p (w, o) in Settled job (tally w) (tally w') r
  unfolding settle
  settle-Settled job p w connector_error =
      let e = counted.tally-record_failure p (services.invalidate p w) in
      let f = counted.tally-invalidate p w in
      record {
        chunk = tt;
        requests = rw (e, f) refl;
        successes = rw (e, f) (omega arith);
        failures = rw (e, f) (omega arith);
      }
  settle-Settled job p w other_error =
      let e = counted.tally-record_failure p w in
      record {
        chunk = tt;
        requests = rw e refl;
        successes = rw e (omega arith);
        failures = rw e (omega arith);
      }
  settle-Settled job p w (response content status) =
      elim (Bool-cases (length content == job.last - job.start + 1)) [
        | inl same ↦
            let e = counted.tally-record_success p (length content) w in
            rw same (record {
              chunk = (refl, ground arith);
              requests = rw e refl;
              successes = rw e refl;
              failures = rw e (omega arith);
            })
        | inr differ ↦
            let e = counted.tally-record_failure p w in
            rw differ (record {
              chunk = tt;
              requests = rw e refl;
              successes = rw e (omega arith);
              failures = rw e (omega arith);
            })
      ]

  abbrev free : ℕ → ℕ
  free attempt = if leb attempt 1 then 1 else 0

  record Slot (attempt : ℕ) (b b' : Option ℕ) : Type 0 where
    taken : (n : ℕ) → b ≡ some n → slots b' + 1 ≤ n + free attempt
    limited : (b ≡ none) ↔ (b' ≡ none)

  take_slot-Slot :
      (attempt : ℕ) (b b' : Option ℕ) → take_slot attempt b ≡ some b' → Slot attempt b b'
  unfolding take_slot
  take_slot-Slot attempt none b' h = record {
    taken = λ n p. cc;
    limited = (λ _. ground arith, λ _. refl);
  }
  take_slot-Slot attempt (some n) b' h = record {
    taken = λ m p. ground arith;
    limited = (λ p. cc, λ p. ground arith);
  }

  Result-cases :
      (r : Result)
      → ((i : ℕ) × (d : List ℕ) × (s : ℕ) × (p : String) × (r ≡ fetched i d s p))
        ⊎ ((e : Error) × (r ≡ raised e))
  Result-cases (fetched i d s p) = inl (i, d, s, p, refl)
  Result-cases (raised e) = inr (e, refl)

  -- The attempt alone.
  one-Report :
      (job : Job) (left attempt : ℕ) (t sent done : Tally) (b b' : Option ℕ) (r : Result)
      → sent ≡ record t { requests = t.requests + 1 }
      → Settled job sent done r
      → Slot attempt b b'
      → Report job (suc left) (free attempt) t done b b' r
  one-Report job left attempt t sent done b b' r e d slot =
      let e₀ = ap (λ (x : Tally). x.requests) e in
      let e₁ = ap (λ (x : Tally). x.failures) e in
      let e₂ = ap (λ (x : Tally). x.successes) e in
      record {
        chunk = d.chunk;
        succeeded = omega (arith, d.successes, e₂);
        recorded = omega (arith, d.successes, d.failures, d.requests, e₀, e₁, e₂);
        bounded = omega (arith, d.requests, e₀);
        budgeted = λ n q. omega (arith, d.requests, e₀, slot.taken n q);
        limited = slot.limited;
      }

  -- A failed attempt, and the attempts after it, none of which is free.
  then-Report :
      (job : Job) (left attempt : ℕ) (t done t' : Tally) (b b' b'' : Option ℕ) (x : Error)
      (r : Result)
      → 0 < attempt
      → Report job 1 (free attempt) t done b b' (raised x)
      → Report job left (free (attempt + 1)) done t' b' b'' r
      → Report job (suc left) (free attempt) t t' b b'' r
  then-Report job left attempt t done t' b b' b'' x r pos one rest = record {
    chunk = rest.chunk;
    succeeded = omega (arith, one.succeeded, rest.succeeded);
    recorded = omega (arith, one.recorded, rest.recorded);
    bounded = omega (arith, one.bounded, rest.bounded);
    budgeted = λ n q. by_slots b' refl n q;
    limited = (λ q. rest.limited.0 (one.limited.0 q), λ q. one.limited.1 (rest.limited.1 q));
  }
    where
      by_slots :
          (c : Option ℕ)
          → b' ≡ c
          → (n : ℕ) → b ≡ some n
          → t'.requests + slots b'' ≤ t.requests + n + free attempt
      by_slots none h n q = cc (one.limited.1 h)
      by_slots (some m) h n q =
          let later : free (attempt + 1) ≡ 0 = ground arith in
          let first : done.requests + m ≤ t.requests + n + free attempt =
            rw h at (one.budgeted n q) in
          omega (arith, rest.budgeted m h, later, first)

  attempt_loop-Report :
      (job : Job) (left attempt : ℕ) (current : String) (exc : Error) (b : Option ℕ) (w : World)
      → 0 < attempt
      → let (w', b', r) = attempt_loop services job left attempt current exc b w in
        Report job left (free attempt) (tally w) (tally w') b b' r
  unfolding attempt_loop
  attempt_loop-Report job zero attempt current exc b w pos = record {
    chunk = tt;
    succeeded = omega arith;
    recorded = refl;
    bounded = omega arith;
    budgeted = λ n p. ground arith;
    limited = (λ p. p, λ p. p);
  }
  attempt_loop-Report job (suc left) attempt current exc b w pos =
      let w₁ = (allowed_proxy services current w).0 in
      let chosen = (allowed_proxy services current w).1 in
      let same₁ = tally-allowed_proxy current w in
      elim (Option-cases (take_slot attempt b)) [
        | inl p ↦
            rw (p, attempt_loop)
              (record {
                chunk = tt;
                succeeded = rw same₁ (omega arith);
                recorded = rw same₁ refl;
                bounded = rw same₁ (omega arith);
                budgeted = λ n q. rw same₁ (ground arith);
                limited = (λ q. q, λ q. q);
              })
        | inr (b', p) ↦
            let sent = send chosen job.start job.last (acquire_limiter chosen w₁) in
            let done = settle services job chosen sent in
            let settled = settle-Settled job chosen sent.0 sent.1 in
            let slot = take_slot-Slot attempt b b' p in
            let before : tally sent.0 ≡ record (tally w) { requests = (tally w).requests + 1 } =
              counted.tally-send chosen job.start job.last (acquire_limiter chosen w₁)
              ∙ rw (counted.tally-acquire_limiter, same₁) refl in
            elim (Result-cases done.1) [
              | inl (i, d, s, q, e) ↦
                  rw (p, attempt_loop)
                    (rw e (
                      rw e at (
                        one-Report job left attempt (tally w) (tally sent.0) (tally done.0) b b'
                          done.1 before settled slot)))
              | inr (x, e) ↦
                  let next = next_proxy services job attempt chosen done.0 in
                  let one =
                    one-Report job 0 attempt (tally w) (tally sent.0) (tally done.0) b b' done.1
                      before settled slot in
                  let rest =
                    attempt_loop-Report job left (attempt + 1) next.1 x b' next.0 (omega arith) in
                  rw (p, attempt_loop)
                    (rw e (
                      then-Report job left attempt (tally w) (tally done.0) _ b b' _ x _ pos
                        (rw e at one) (rw (tally-next_proxy job attempt chosen done.0) at rest)))
            ]
      ]

  -- A chunk that `fetch_chunk` returns has the index of its job and as many bytes as were asked for.
  -- Every request is recorded once, as a success or as a failure, and there is one success just when a
  -- chunk is returned. There are at most `chunk_retries` requests, and all but the first take a slot of
  -- the retry budget.
  pub fetch_chunk-Report :
      (job : Job) (proxy_url : String) (budget : Option ℕ) (w : World)
      → let (w', budget', r) = fetch_chunk services job proxy_url budget w in
        Report job job.chunk_retries 1 (tally w) (tally w') budget budget' r
  unfolding fetch_chunk
  fetch_chunk-Report job proxy_url budget w =
      attempt_loop-Report job job.chunk_retries 1 proxy_url no_attempts budget w (omega arith)
