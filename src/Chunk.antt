-- ===== src/Chunk.antt =====
-- proxy/fetchers/chunk.py: `fetch_chunk`. What it calls of other modules and of aiohttp is a record of
-- functions on a state of the world; an attempt ends in one of the outcomes that the code tells apart.
-- The retry budget is a semaphore that nothing releases, so a wait for an empty one times out.
pub mod Attempts
use proxysplit.Base.{
  ℕ, zero, suc, ◌+◌, ◌-◌, String, Bool, ◌&&◌, Option, none, some, List, ltb, leb, if◌then◌else◌,
  ◌==◌, nat_eq, length,
}

-- How `session.get` and `resp.read` end: `aiohttp.ClientConnectorError`, another exception (a timeout
-- too), or the bytes and the status.
pub data Outcome : Type 0 where
  connector_error other_error : Outcome
  response : List ℕ → ℕ → Outcome

pub record Services : Type 1 where
  pub World : Type 0
  -- `BREAKER.allow_request`, true where there is no breaker
  pub allow_request : String → World → World × Bool
  -- `pick_proxy(pool, exclude_set={current}, weighted)`
  pub pick_proxy : String → World → World × Option String
  -- `get_limiter(current).acquire()`
  pub acquire_limiter : String → World → World
  -- the request for the bytes from the first to the last
  pub send : String → ℕ → ℕ → World → World × Outcome
  -- `record_success(current, nbytes, lat)` and `CHUNK_SIZER.record(lat)`
  pub record_success : String → ℕ → World → World
  pub record_failure : String → World → World
  -- `SESSION_POOL.invalidate_sync`
  pub invalidate : String → World → World

pub data Error : Type 0 where
  no_attempts budget_timeout size_mismatch connector other : Error

pub data Result : Type 0 where
  fetched : ℕ → List ℕ → ℕ → String → Result
  raised : Error → Result

-- One chunk: `start`, `end`, `index`, and the options of the request.
pub record Job : Type 0 where
  pub start : ℕ
  pub last : ℕ
  pub index : ℕ
  pub chunk_retries : ℕ
  pub chunk_proxy : Bool

-- `retry_budget.acquire()` before every attempt but the first; `none` stands for a timeout.
unfoldable pub take_slot : ℕ → Option ℕ → Option (Option ℕ)
take_slot attempt none = some none
take_slot attempt (some slots) =
    if leb attempt 1
    then some (some slots)
    else if slots == 0
    then none
    else some (some (slots - 1))

abbrev pub other_or : String → Option String → String
other_or current none = current
other_or current (some p) = p

module _ (services : Services) where
  open services use {
    World, allow_request, pick_proxy, acquire_limiter, send, record_success, record_failure,
    invalidate,
  }

  -- The proxy of an attempt: another one, if the breaker does not allow the current one.
  unfoldable pub allowed_proxy : String → World → World × String
  allowed_proxy current w =
      let (w', ok) = allow_request current w in
      if ok
      then (w', current)
      else (let (w'', p) = pick_proxy current w' in (w'', other_or current p))

  -- After a failure: a fresh proxy, if an attempt is left and each chunk may have its own.
  unfoldable pub next_proxy : Job → ℕ → String → World → World × String
  next_proxy job attempt current w =
      if ltb attempt job.chunk_retries && job.chunk_proxy
      then (let (w', p) = pick_proxy current w in (w', other_or current p))
      else (w, current)

  -- The outcome of an attempt as a success with the data, or an error; the failure is recorded.
  unfoldable pub settle : Job → String → World × Outcome → World × Result
  settle job current (w, response content status) =
      if length content == job.last - job.start + 1
      then (record_success current (length content) w, fetched job.index content status current)
      else (record_failure current w, raised size_mismatch)
  settle job current (w, connector_error) =
      (record_failure current (invalidate current w), raised connector)
  settle job current (w, other_error) = (record_failure current w, raised other)

  -- The `for attempt in range(1, chunk_retries + 1)` loop; `left` attempts are left.
  unfoldable pub attempt_loop :
      Job → ℕ → ℕ → String → Error → Option ℕ → World → World × Option ℕ × Result
  unfolding allowed_proxy next_proxy settle take_slot
  attempt_loop job zero attempt current last_exc budget w = (w, budget, raised last_exc)
  attempt_loop job (suc left) attempt current last_exc budget w =
      let (w₁, chosen) = allowed_proxy current w in
      elim (take_slot attempt budget) [
        | none ↦ (w₁, budget, raised budget_timeout)
        | some budget' ↦
            let (w₂, result) =
              settle job chosen (send chosen job.start job.last (acquire_limiter chosen w₁)) in
            elim result [
              | fetched index content status proxy ↦
                  (w₂, budget', fetched index content status proxy)
              | raised exc ↦
                  let (w₃, next) = next_proxy job attempt chosen w₂ in
                  attempt_loop job left (attempt + 1) next exc budget' w₃
            ]
      ]

  unfoldable pub fetch_chunk : Job → String → Option ℕ → World → World × Option ℕ × Result
  unfolding attempt_loop
  fetch_chunk job proxy_url budget w =
      attempt_loop job job.chunk_retries 1 proxy_url no_attempts budget w
