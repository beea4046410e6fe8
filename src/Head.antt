-- ===== src/Head.antt =====
-- proxy/fetchers/head.py: `get_head_info` and `fetch_whole`, with what they call of other modules and of
-- aiohttp as records of functions on a state of the world.
pub mod Probes
pub mod Content
pub mod Attempts
use proxysplit.Base.{
  ℕ, zero, suc, String, Bool, true, false, Option, none, some, List, [], ◌∷◌, ltb, if◌then◌else◌,
  ◌==◌, string_eq, nat_eq, list_eq, length, contains,
}
use proxysplit.Cache.Control.{Headers, codes}
use proxysplit.Dict.{lookup}
use proxysplit.Text.{Text, lower, strip}
use proxysplit.Transfer.{digits, number}
use proxysplit.Transfer.Headers.{all_digits, total_of}

-- What a probe finds: the length of the content, whether ranges are served, and the content type.
abbrev pub Info : Type 0
Info = Option ℕ × Bool × Text

-- How a request ends that reads only the headers: an exception, or the status and the headers.
pub data Outcome : Type 0 where
  failed : Outcome
  answered : ℕ → Headers → Outcome

-- `int(s)`, `none` where it raises `ValueError`; of digits, spaces around them allowed.
unfoldable pub int_of : Text → Option ℕ
unfolding strip all_digits
int_of s = if all_digits (strip s) then some (number (strip s)) else none

abbrev pub header_or : Text → Option Text → Text
header_or fallback none = fallback
header_or fallback (some s) = s

abbrev pub content_type : Headers → Text
content_type headers = header_or (codes "application/octet-stream") (lookup "Content-Type" headers)

-- `if cl:`, a header that is there and not empty.
abbrev pub nonempty : Option Text → Option Text
nonempty none = none
nonempty (some []) = none
nonempty (some (c ∷ s)) = some (c ∷ s)

-- What `_try_head` makes of an answer to HEAD: whether it records a failure, and what it returns.
unfoldable pub read_head : Outcome → Bool × Option Info
unfolding int_of
read_head failed = (true, none)
read_head (answered status headers) = elim (nonempty (lookup "Content-Length" headers)) [
  | none ↦ (false, none)
  | some cl ↦ elim (int_of cl) [
    | none ↦ (true, none)
    | some n ↦
        let ar = lower (header_or (codes "none") (lookup "Accept-Ranges" headers)) in
        (false, some (some n, ar == codes "bytes", content_type headers))
  ]
]

-- What is returned after the probe by `GET bytes=0-0`; `none` where the function raises.
unfoldable pub read_range_probe : Outcome → Option Info
unfolding int_of total_of
read_range_probe failed = none
read_range_probe (answered status headers) =
    let total = total_of (header_or [] (lookup "Content-Range" headers)) in
    if status == 206
    then elim total [ none ↦ none | some n ↦ some (some n, true, content_type headers) ]
    else if status == 200
    then elim (nonempty (lookup "Content-Length" headers)) [
      | none ↦ some (none, false, content_type headers)
      | some cl ↦ elim (int_of cl) [
        | none ↦ none
        | some n ↦ some (some n, false, content_type headers)
      ]
    ]
    else none

pub record Services : Type 1 where
  pub World : Type 0
  -- `pick_proxy(pool, exclude_set, weighted)`; no member is `exclude_set=None`
  pub pick_proxy : List String → World → World × Option String
  pub head : String → World → World × Outcome
  -- `GET` with `Range: bytes=0-0`
  pub range_probe : String → World → World × Outcome
  pub record_failure : String → World → World
  -- in which batches the probes end, `asyncio.wait` by `asyncio.wait`
  pub batches : List String → World → List (List String)

module _ (services : Services) where
  open services use {World, pick_proxy, head, range_probe, record_failure, batches}

  -- The rounds that are left of `for _ in range(head_retries)`.
  unfoldable pub pick_probes : ℕ → List String → World → World × List String
  pick_probes zero excluded w = (w, [])
  pick_probes (suc n) excluded w =
      let (w', picked) = pick_proxy excluded w in
      elim picked [
        | none ↦ (w', [])
        | some p ↦
            let added = if contains excluded p then excluded else p ∷ excluded in
            let (w'', rest) = pick_probes n added w' in (w'', p ∷ rest)
      ]

  unfoldable pub try_head : String → World → World × Option Info
  unfolding read_head
  try_head proxy_url w =
      let (w', outcome) = head proxy_url w in
      let (fails, info) = read_head outcome in
      (if fails then record_failure proxy_url w' else w', info)

  -- The probes that have ended when `asyncio.wait` returns, and the first result that is not `None`.
  unfoldable pub run_batch : List String → World → World × Option Info
  unfolding try_head
  run_batch [] w = (w, none)
  run_batch (p ∷ ps) w =
      let (w', info) = try_head p w in
      let (w'', rest) = run_batch ps w' in (w'', elim info [ none ↦ rest | some i ↦ some i ])

  -- `while pending`; after a result the others are cancelled.
  unfoldable pub race : List (List String) → World → World × Option Info
  unfolding run_batch
  race [] w = (w, none)
  race (batch ∷ rest) w =
      let (w', info) = run_batch batch w in
      elim info [ none ↦ race rest w' | some i ↦ (w', some i) ]

  unfoldable pub fallback_probe : World → World × Option Info
  unfolding read_range_probe
  fallback_probe w =
      let (w', picked) = pick_proxy [] w in
      elim picked [
        | none ↦ (w', none)
        | some p ↦ let (w'', outcome) = range_probe p w' in (w'', read_range_probe outcome)
      ]

  -- `none` for the `RuntimeError`.
  unfoldable pub get_head_info : ℕ → World → World × Option Info
  unfolding pick_probes race fallback_probe
  get_head_info head_retries w =
      let (w₁, probe_proxies) = pick_probes head_retries [] w in
      let (w₂, info) = race (batches probe_proxies w₁) w₁ in
      elim info [ none ↦ fallback_probe w₂ | some i ↦ (w₂, some i) ]

-- `resp.status`, the body and the headers.
pub record Whole : Type 0 where
  pub status : ℕ
  pub body : List ℕ
  pub headers : Headers

-- A proxy is `None` where none was available.
pub record WholeServices : Type 1 where
  pub World : Type 0
  -- `BREAKER.allow_request`, true where there is no breaker
  pub allow_request : String → World → World × Bool
  -- `pick_proxy`, with `exclude_set={current}` for a proxy that is given
  pub pick_proxy : Option String → World → World × Option String
  -- the request by a proxy and the reading of the body; `none` for an exception
  pub request : Option String → World → World × Option Whole
  pub record_success : Option String → ℕ → World → World
  pub record_failure : Option String → World → World

-- `a or b` for proxies: an empty text is none.
abbrev pub or_else : Option String → Option String → Option String
or_else none b = b
or_else (some p) b = if p == "" then b else some p

module _ (services : WholeServices) where
  open services use {World, allow_request, pick_proxy, request, record_success, record_failure}

  -- Another proxy, if there is one and the breaker does not allow the current one.
  unfoldable pub allowed_proxy : Option String → World → World × Option String
  allowed_proxy current w = elim (or_else current none) [
    | none ↦ (w, current)
    | some p ↦
        let (w', ok) = allow_request p w in
        if ok
        then (w', current)
        else (let (w'', alt) = pick_proxy current w' in (w'', or_else alt current))
  ]

  -- After a failure another proxy, if an attempt is left and none was asked for.
  unfoldable pub next_proxy : Bool → Option String → Option String → World → World × Option String
  next_proxy left request_proxy current w = elim request_proxy [
    | some p ↦ (w, current)
    | none ↦
        if left
        then (let (w', nxt) = pick_proxy current w in (w', or_else nxt current))
        else (w, current)
  ]

  -- The attempts that are left; `none` for the last exception.
  unfoldable pub whole_loop : ℕ → Option String → Option String → World → World × Option Whole
  unfolding allowed_proxy next_proxy
  whole_loop zero request_proxy current w = (w, none)
  whole_loop (suc left) request_proxy current w =
      let (w₁, chosen) = allowed_proxy current w in
      let (w₂, answer) = request chosen w₁ in
      elim answer [
        | some r ↦ (record_success chosen (length r.body) w₂, some r)
        | none ↦
            let (w₃, next) =
              next_proxy (ltb 0 left) request_proxy chosen (record_failure chosen w₂) in
            whole_loop left request_proxy next w₃
      ]

  unfoldable pub fetch_whole : ℕ → Option String → World → World × Option Whole
  unfolding whole_loop
  fetch_whole retries request_proxy w = elim (or_else request_proxy none) [
    | some p ↦ whole_loop retries request_proxy (some p) w
    | none ↦ let (w', picked) = pick_proxy none w in whole_loop retries request_proxy picked w'
  ]
