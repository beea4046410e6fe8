-- ===== src/Transfer/Inner.antt =====
-- proxy/handlers/inner.py: `handle_inner`, with what it calls of other modules as a record of functions
-- on a state of the world. The pre-warming, which is neither waited for nor read, is left out.
use proxysplit.Base.{
  ℕ, ◌-◌, ◌*◌, max, String, Bool, false, not, ◌||◌, Option, none, some, List, [], ◌∷◌, ltb,
  if◌then◌else◌, ◌==◌, string_eq, nat_eq, length, get_elem?,
}
use proxysplit.Chunk.{Result}
use proxysplit.Ranges.{Range, build_ranges, apply_per_proxy_chunk_sizes}
use proxysplit.Text.{Text}
use proxysplit.Transfer.{Window, Reply, client_window, assemble}
use proxysplit.Cache.Control.{codes}

pub record Parts : Type 1 where
  pub World : Type 0
  -- `pick_proxy(pool, weighted)`, and `pick_proxy(pool, exclude_set={p}, weighted)`
  pub pick_proxy : World → World × Option String
  pub pick_other : String → World → World × Option String
  -- `get_head_info`: the length, whether ranges are supported, the content type; `none` if it raises
  pub get_head_info : World → World × Option (Option ℕ × Bool × Text)
  pub is_excluded : Text → Bool
  -- `fetch_whole` by a proxy: the status and the body; `none` if it raises
  pub fetch_whole : Option String → World → World × Option (ℕ × List ℕ)
  pub distribute_proxies : ℕ → World → World × List String
  pub chunk_size_for : String → World → World × ℕ
  -- `asyncio.gather` of `fetch_chunk` for ranges and their proxies, with a retry budget
  pub gather : List (Range × String) → ℕ → World → World × List Result

pub record Options : Type 0 where
  pub chunk_size : ℕ
  pub chunk_retries : ℕ
  pub chunk_proxy : Bool
  pub pin : Option String
  pub use_streaming : Bool
  pub race_first_chunk : Bool
  pub retry_budget_total : ℕ
  pub per_proxy_chunks : Bool
  pub client_range : Option Text

-- What a `_ProgressiveStream` is made of.
pub record Stream : Type 0 where
  pub ranges : List Range
  pub assigned : List String
  pub window : Window
  pub race_proxy : Option String
  pub retry_budget : ℕ

-- `failed` is an exception, `endless` a loop that does not end.
pub data Answer : Type 0 where
  replied : Reply → Answer
  streamed : Stream → Answer
  failed endless : Answer

-- `if pin`: an empty pin is none.
abbrev pub pinned_proxy : Option String → Option String
pinned_proxy none = none
pinned_proxy (some p) = if p == "" then none else some p

unfoldable pub retry_budget : Options → ℕ → ℕ
retry_budget o num_chunks =
    if ltb 0 o.retry_budget_total
    then o.retry_budget_total
    else num_chunks * max (o.chunk_retries - 1) 1

-- `[(r, assigned[i]) for s, e, i in ranges]`, `none` for an `IndexError`.
unfoldable pub pair_up : List Range → List String → Option (List (Range × String))
pair_up [] assigned = some []
pair_up (r ∷ ranges) assigned = elim (get_elem? assigned r.index) [
  | none ↦ none
  | some p ↦ elim (pair_up ranges assigned) [ none ↦ none | some jobs ↦ some ((r, p) ∷ jobs) ]
]

abbrev pub answer_of : Option Reply → Answer
answer_of none = failed
answer_of (some r) = replied r

abbrev pub no_proxies : Reply
no_proxies = record { status = 503; body = []; content_range = none }

module _ (parts : Parts) where
  open parts use {
    World, pick_proxy, pick_other, get_head_info, is_excluded, fetch_whole, distribute_proxies,
    chunk_size_for, gather,
  }

  unfoldable pub request_proxy : Options → World → World × Option String
  request_proxy o w = elim (pinned_proxy o.pin) [
    | some p ↦ (w, some p)
    | none ↦ if o.chunk_proxy then (w, none) else pick_proxy w
  ]

  unfoldable pub resolve_content_info : World → World × Option ℕ × Bool × Text
  resolve_content_info w =
      let (w', info) = get_head_info w in
      elim info [
        | none ↦ (w', none, false, codes "application/octet-stream")
        | some (n, ranges, content_type) ↦ (w', n, ranges, content_type)
      ]

  unfoldable pub reply_whole : Option String → World → World × Answer
  reply_whole proxy w =
      let (w', r) = fetch_whole proxy w in
      elim r [
        | none ↦ (w', failed)
        | some (status, body) ↦
            (w', replied (record { status = status; body = body; content_range = none }))
      ]

  -- `if per_proxy_chunks`
  unfoldable pub resize :
      Options
      → Window
      → List Range
      → List String
      → World
      → Option (List Range × List String × World)
  resize o v ranges assigned w =
      if o.per_proxy_chunks
      then apply_per_proxy_chunk_sizes chunk_size_for ranges assigned v.start v.stop o.chunk_size w
      else some (ranges, assigned, w)

  unfoldable pub race : Options → List Range → List String → World → World × Option String
  race o [] assigned w = (w, none)
  race o (r ∷ ranges) [] w = (w, none)
  race o (r ∷ ranges) (p ∷ assigned) w = if o.race_first_chunk then pick_other p w else (w, none)

  -- From `if use_streaming` on.
  unfoldable pub reply_chunks :
      Options → ℕ → Window → List Range → List String → World → World × Answer
  unfolding race retry_budget pair_up
  reply_chunks o n v ranges assigned w =
      let (w', race_proxy) = race o ranges assigned w in
      let budget = retry_budget o (length ranges) in
      if o.use_streaming
      then (
        w',
        streamed (record {
          ranges = ranges;
          assigned = assigned;
          window = v;
          race_proxy = race_proxy;
          retry_budget = budget;
        }),
      )
      else elim (pair_up ranges assigned) [
        | none ↦ (w', failed)
        | some jobs ↦
            let (w'', results) = gather jobs budget w' in
            (w'', answer_of (assemble n v ranges results))
      ]

  -- From `build_ranges` on, for a content of `n` bytes.
  unfoldable pub reply_ranges : Options → ℕ → World → World × Answer
  unfolding build_ranges resize reply_chunks client_window
  reply_ranges o n w =
      let v = client_window n o.client_range in
      elim (build_ranges n o.chunk_size v.start (some (v.stop - 1))) [
        | none ↦ (w, endless)
        | some ranges ↦
            let (w', assigned) = distribute_proxies (length ranges) w in
            if length assigned == 0
            then (w', replied no_proxies)
            else elim (resize o v ranges assigned w') [
              | none ↦ (w', endless)
              | some (ranges', assigned', w'') ↦ reply_chunks o n v ranges' assigned' w''
            ]
      ]

  unfoldable pub handle_inner : Options → World → World × Answer
  unfolding request_proxy resolve_content_info reply_whole reply_ranges
  handle_inner o w =
      let (w₁, proxy) = request_proxy o w in
      let (w₂, content_length, supports_ranges, content_type) = resolve_content_info w₁ in
      elim content_length [
        | none ↦ reply_whole proxy w₂
        | some n ↦
            if is_excluded content_type || n == 0 || not supports_ranges
            then reply_whole proxy w₂
            else reply_ranges o n w₂
      ]
