-- ===== src/Stream.antt =====
-- proxy/streaming/progressive.py: `_ProgressiveStream.send`, its tasks and its write loop interleaved in
-- any order. The file does not compile (`nonlocal` stands behind an assignment, line 200); what is
-- modelled is the file without that line, where `_buf_bytes` is the variable of `send`. A step runs from one `await` to the next; the sections under `_buf_lock` have no `await`.
-- The write of a chunk and the release of its buffer space, between which nothing else is read or
-- written that both use, are one step.
pub mod Changes
pub mod Invariant
pub mod Delivery
pub mod Termination
pub mod Memory
pub mod Progress
pub mod Hang
pub mod Race
use proxysplit.Base.{
  set_at, ℕ, ◌+◌, ◌-◌, ◌<◌, min, ◌≡◌, Bool, true, ◌&&◌, Option, none, some, List, [], ◌++◌, ltb,
  leb, if◌then◌else◌, ◌==◌, nat_eq, length,
}
use proxysplit.Transfer.{Window, Reply}

pub record Config : Type 0 where
  pub num_chunks : ℕ
  pub max_workers : ℕ
  pub prefetch_ahead : ℕ
  pub max_buffer_bytes : ℕ
  -- `race_first_chunk and race_proxy`
  pub race_first_chunk : Bool

-- Where the task of a chunk stands. `checking` is before the test for buffer space, `blocked` the wait
-- for `_buf_has_space`, `done` after `ready[i].set()`, with the data or an exception. In a race both
-- candidates are pending, then one is left; `stranded` is a race that ended with a `CancelledError`, before
-- `ready[i].set()`.
pub data Task : Type 0 where
  waiting fetching racing racing_last stranded : Task
  checking blocked : List ℕ → Task
  done : Option (List ℕ) → Task

-- Where the write loop stands: `aborted` at a chunk that failed, `broken` by an error of the client.
pub data Phase : Type 0 where
  running completed broken : Phase
  aborted : ℕ → Phase

pub record State : Type 0 where
  pub tasks : ℕ → Task
  -- `prefetch_gate[j].is_set()`
  pub gates : ℕ → Bool
  -- the permits that `fetch_sem` has left
  pub permits : ℕ
  pub buf_bytes : ℕ
  -- the chunk that the write loop is at
  pub next : ℕ
  pub out : List ℕ
  pub phase : Phase

unfoldable pub init : Config → State
init c = record {
  tasks = λ i. if i == 0 && c.race_first_chunk then racing else waiting;
  gates = λ j. ltb j (min c.prefetch_ahead c.num_chunks);
  permits = c.max_workers;
  buf_bytes = 0;
  next = 0;
  out = [];
  phase = running;
}

-- `max(0, i - self.prefetch_ahead)`
abbrev pub gate_idx : Config → ℕ → ℕ
gate_idx c i = i - c.prefetch_ahead

unfoldable pub start : ℕ → State → State
start i s = record s { tasks = set_at i fetching s.tasks; permits = s.permits - 1 }

unfoldable pub receive : ℕ → List ℕ → State → State
receive i bytes s = record s { tasks = set_at i (checking bytes) s.tasks }

-- `results[i] = …`, `ready[i].set()` and the end of `async with fetch_sem`.
unfoldable pub finish : ℕ → Option (List ℕ) → State → State
finish i result s = record s { tasks = set_at i (done result) s.tasks; permits = s.permits + 1 }

-- The round of `while True` in `_fetch_task`.
unfoldable pub check_space : Config → ℕ → List ℕ → State → State
unfolding finish
check_space c i bytes s =
    if leb (s.buf_bytes + length bytes) c.max_buffer_bytes
    then finish i (some bytes) (record s { buf_bytes = s.buf_bytes + length bytes })
    else record s { tasks = set_at i (blocked bytes) s.tasks }

-- A candidate of the race fails while the other one is pending.
unfoldable pub lose_one : ℕ → State → State
lose_one i s = record s { tasks = set_at i racing_last s.tasks }

-- A candidate wins while the other one is pending: that one is cancelled, and `await t` raises its
-- `CancelledError`, which `except Exception` does not catch.
unfoldable pub strand : ℕ → State → State
strand i s = record s { tasks = set_at i stranded s.tasks }

-- The end of `_race_task` with no candidate pending; it takes no permit and counts no bytes.
unfoldable pub finish_race : ℕ → Option (List ℕ) → State → State
finish_race i result s = record s { tasks = set_at i (done result) s.tasks }

-- `_buf_has_space.set()` wakes every waiter.
abbrev pub wake : Task → Task
wake (blocked bytes) = checking bytes
wake t = t

-- A round of the write loop that writes its chunk.
unfoldable pub write : Config → List ℕ → State → State
write c bytes s =
    let next_gate = s.next + 1 in
    record s {
      out = s.out ++ bytes;
      buf_bytes = s.buf_bytes - length bytes;
      tasks = λ i. wake (s.tasks i);
      gates = if ltb next_gate c.num_chunks then set_at next_gate true s.gates else s.gates;
      next = next_gate;
    }

unfoldable pub leave : Phase → State → State
leave p s = record s { phase = p }

-- What `fetch_chunk` may return for a chunk is a parameter.
module _ (c : Config) (Answers : ℕ → List ℕ → Type 0) where
  pub data Step (s : State) : State → Type 0 where
    starts :
        (i : ℕ)
        → i < c.num_chunks
        → s.tasks i ≡ waiting
        → s.gates (gate_idx c i) ≡ true
        → 0 < s.permits
        → Step s (start i s)
    receives :
        (i : ℕ) (bytes : List ℕ)
        → i < c.num_chunks
        → s.tasks i ≡ fetching
        → Answers i bytes
        → Step s (receive i bytes s)
    fails : (i : ℕ) → i < c.num_chunks → s.tasks i ≡ fetching → Step s (finish i none s)
    checks :
        (i : ℕ) (bytes : List ℕ)
        → i < c.num_chunks
        → s.tasks i ≡ checking bytes
        → Step s (check_space c i bytes s)
    strands :
        (i : ℕ) (bytes : List ℕ)
        → i < c.num_chunks
        → s.tasks i ≡ racing
        → Answers i bytes
        → Step s (strand i s)
    loses_one : (i : ℕ) → i < c.num_chunks → s.tasks i ≡ racing → Step s (lose_one i s)
    -- both candidates end in one round of `asyncio.wait`
    wins_both :
        (i : ℕ) (bytes : List ℕ)
        → i < c.num_chunks
        → s.tasks i ≡ racing
        → Answers i bytes
        → Step s (finish_race i (some bytes) s)
    loses_both : (i : ℕ) → i < c.num_chunks → s.tasks i ≡ racing → Step s (finish_race i none s)
    wins_last :
        (i : ℕ) (bytes : List ℕ)
        → i < c.num_chunks
        → s.tasks i ≡ racing_last
        → Answers i bytes
        → Step s (finish_race i (some bytes) s)
    loses_last :
        (i : ℕ) → i < c.num_chunks → s.tasks i ≡ racing_last → Step s (finish_race i none s)
    writes :
        (bytes : List ℕ)
        → s.next < c.num_chunks
        → s.tasks s.next ≡ done (some bytes)
        → Step s (write c bytes s)
    aborts : s.next < c.num_chunks → s.tasks s.next ≡ done none → Step s (leave (aborted s.next) s)
    breaks :
        (bytes : List ℕ)
        → s.next < c.num_chunks
        → s.tasks s.next ≡ done (some bytes)
        → Step s (leave broken s)
    completes : s.next ≡ c.num_chunks → Step s (leave completed s)

  -- Runs of a number of steps from the start. When the loop has ended the tasks are cancelled.
  pub data Run : ℕ → State → Type 0 where
    begin : Run 0 (init c)
    later : {n : ℕ} {s t : State} → Run n s → s.phase ≡ running → Step s t → Run (n + 1) t

-- The response as the client sees it, with the headers that `send` sets from the window.
unfoldable pub reply_of : ℕ → Window → State → Reply
reply_of content_length w s = record {
  status = if w.is_partial then 206 else 200;
  body = s.out;
  content_range = if w.is_partial then some (w.start, w.stop - 1, content_length) else none;
}
