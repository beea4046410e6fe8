-- ===== src/Stream/Changes.antt =====
-- proxy/streaming/progressive.py: what the steps of the stream have in common. All but those of the
-- write loop move one task.
use proxysplit.Base.{
  set_at, ℕ, ◌+◌, ◌-◌, ◌≤◌, ◌<◌, ◌≡◌, refl, inl, inr, Bool, true, false, Option, none, some, List,
  arith, leb, if◌then◌else◌, leb→le, Bool-cases, length,
}
use proxysplit.Stream.{
  Config, Task, waiting, fetching, racing, checking, blocked, done, Phase, running, completed,
  State, gate_idx, start, receive, finish, check_space, lose_one, strand, finish_race, racing_last,
  stranded, write, wake, leave, Step, starts, receives, fails, checks, strands, loses_one,
  wins_both, loses_both, wins_last, loses_last, writes, aborts, breaks, completes,
}

-- Whether a task has a permit of `fetch_sem`.
abbrev pub holding : Task → ℕ
holding fetching = 1
holding (checking bytes) = 1
holding (blocked bytes) = 1
holding _ = 0

-- The bytes that a task has in `results`.
abbrev pub stored : Task → ℕ
stored (done (some bytes)) = length bytes
stored _ = 0

-- An upper bound of the steps that a task can make.
abbrev pub stage : Task → ℕ
stage waiting = 4
stage fetching = 3
stage (checking bytes) = 2
stage (blocked bytes) = 1
stage racing = 2
stage racing_last = 1
stage stranded = 0
stage (done result) = 0

abbrev pub is_waiting : Task → Bool
is_waiting waiting = true
is_waiting _ = false

abbrev pub is_racing : Task → Bool
is_racing racing = true
is_racing racing_last = true
is_racing _ = false

abbrev pub is_stranded : Task → Bool
is_stranded stranded = true
is_stranded _ = false

abbrev pub is_blocked : Task → Bool
is_blocked (blocked bytes) = true
is_blocked _ = false

abbrev pub is_running : Phase → Bool
is_running running = true
is_running _ = false

-- The bytes that a task has, in `results` or on the way there, are an answer.
abbrev pub Carries : (List ℕ → Type 0) → Task → Type 0
Carries Answer (checking bytes) = Answer bytes
Carries Answer (blocked bytes) = Answer bytes
Carries Answer (done (some bytes)) = Answer bytes
Carries Answer _ = Unit

-- A task that wakes up keeps its permit and its bytes, and can make at most one step more.
pub wake_lem :
    (t : Task)
    → (is_waiting (wake t) ≡ is_waiting t)
      × (is_racing (wake t) ≡ is_racing t)
      × (holding (wake t) ≡ holding t)
      × (stored (wake t) ≡ stored t)
      × (stage (wake t) ≤ stage t + 1)
wake_lem waiting = ground arith
wake_lem fetching = ground arith
wake_lem racing = ground arith
wake_lem racing_last = ground arith
wake_lem stranded = ground arith
wake_lem (checking bytes) = ground arith
wake_lem (blocked bytes) = ground arith
wake_lem (done none) = ground arith
wake_lem (done (some bytes)) = ground arith

pub wake-is_stranded : (t : Task) → is_stranded (wake t) ≡ is_stranded t
wake-is_stranded waiting = refl
wake-is_stranded fetching = refl
wake-is_stranded racing = refl
wake-is_stranded racing_last = refl
wake-is_stranded stranded = refl
wake-is_stranded (checking bytes) = refl
wake-is_stranded (blocked bytes) = refl
wake-is_stranded (done result) = refl

pub wake-Carries : (P : List ℕ → Type 0) (t : Task) → Carries P t → Carries P (wake t)
wake-Carries P waiting h = h
wake-Carries P fetching h = h
wake-Carries P racing h = h
wake-Carries P racing_last h = h
wake-Carries P stranded h = h
wake-Carries P (checking bytes) h = h
wake-Carries P (blocked bytes) h = h
wake-Carries P (done none) h = h
wake-Carries P (done (some bytes)) h = h

pub wake-done : (t : Task) (r : Option (List ℕ)) → wake t ≡ done r → t ≡ done r
wake-done waiting r e = e
wake-done fetching r e = e
wake-done racing r e = e
wake-done racing_last r e = e
wake-done stranded r e = e
wake-done (checking bytes) r e = e
wake-done (blocked bytes) r e = cc
wake-done (done result) r e = e

module _ (c : Config) (Answers : ℕ → List ℕ → Type 0) where
  -- A step moves the task `i` to `t`, and leaves `permits` and `buf_bytes`.
  pub record Moved (s : State) (i : ℕ) (t : Task) (permits buf_bytes : ℕ) : Type 0 where
    pub inside : i < c.num_chunks
    pub onward : stage t < stage (s.tasks i)
    pub left_start : is_waiting t ≡ false
    pub left_race : is_racing t ≡ true → is_racing (s.tasks i) ≡ true
    pub stranding : is_stranded t ≡ true → is_racing (s.tasks i) ≡ true
    pub gated : is_waiting (s.tasks i) ≡ true → s.gates (gate_idx c i) ≡ true
    pub permits_kept : holding t + permits ≡ holding (s.tasks i) + s.permits
    pub counted :
        if is_racing (s.tasks i)
        then buf_bytes ≡ s.buf_bytes
        else buf_bytes ≡ s.buf_bytes + stored t
    pub capped : s.buf_bytes ≤ c.max_buffer_bytes → buf_bytes ≤ c.max_buffer_bytes
    pub carried : Carries (Answers i) (s.tasks i) → Carries (Answers i) t
    pub full :
        is_blocked t ≡ true
        → (bytes : List ℕ) × (s.tasks i ≡ checking bytes)
          × (c.max_buffer_bytes < s.buf_bytes + length bytes)

  pub data Change (s : State) : State → Type 0 where
    moves :
        (i : ℕ) (t : Task) (p b : ℕ)
        → Moved s i t p b
        → Change s (record s { tasks = set_at i t s.tasks; permits = p; buf_bytes = b })
    written :
        (bytes : List ℕ)
        → s.next < c.num_chunks
        → s.tasks s.next ≡ done (some bytes)
        → Change s (write c bytes s)
    left :
        (p : Phase)
        → is_running p ≡ false
        → (p ≡ completed → s.next ≡ c.num_chunks)
        → Change s (leave p s)

  -- The facts of `Moved` where the task is known to stand at `u`.
  moves-at :
      (s : State) (i : ℕ) (u t : Task) (p b : ℕ)
      → s.tasks i ≡ u
      → i < c.num_chunks
      → (stage t < stage u) × (is_waiting t ≡ false)
      → (is_racing t ≡ true → is_racing u ≡ true)
      → (is_stranded t ≡ true → is_racing u ≡ true)
      → (is_waiting u ≡ true → s.gates (gate_idx c i) ≡ true)
      → holding t + p ≡ holding u + s.permits
      → (if is_racing u then b ≡ s.buf_bytes else b ≡ s.buf_bytes + stored t)
      → (s.buf_bytes ≤ c.max_buffer_bytes → b ≤ c.max_buffer_bytes)
      → (Carries (Answers i) u → Carries (Answers i) t)
      → (is_blocked t ≡ true
          → (bytes : List ℕ) × (u ≡ checking bytes)
            × (c.max_buffer_bytes < s.buf_bytes + length bytes))
      → Change s (record s { tasks = set_at i t s.tasks; permits = p; buf_bytes = b })
  moves-at s i u t p b e l facts race strand gated permits_kept counted capped carried full =
      moves i t p b (record {
        inside = l;
        onward = rw e facts.0;
        left_start = facts.1;
        left_race = rw e race;
        stranding = rw e strand;
        gated = rw e gated;
        permits_kept = rw e permits_kept;
        counted = rw e counted;
        capped = capped;
        carried = rw e carried;
        full = rw e full;
      })

  checks-Change :
      (s : State) (i : ℕ) (bytes : List ℕ)
      → i < c.num_chunks
      → s.tasks i ≡ checking bytes
      → Change s (check_space c i bytes s)
  unfolding check_space finish
  checks-Change s i bytes l e =
      elim (Bool-cases (leb (s.buf_bytes + length bytes) c.max_buffer_bytes)) [
        | inl fits ↦
            rw (fits, check_space)
              (moves-at s i (checking bytes) (done (some bytes)) (s.permits + 1)
                (s.buf_bytes + length bytes) e l (omega arith, refl) (λ h. cc) (λ h. cc) (λ h. cc)
                (omega arith) refl (λ h. leb→le _ _ fits) (λ h. h) (λ h. cc))
        | inr over ↦
            rw (over, check_space)
              (moves-at s i (checking bytes) (blocked bytes) s.permits s.buf_bytes e l
                (omega arith, refl) (λ h. cc) (λ h. cc) (λ h. cc) refl (omega arith) (λ h. h)
                (λ h. h) (λ h. (bytes, refl, ground arith)))
      ]

  -- A race ends.
  ends-Change :
      (s : State) (i : ℕ) (u : Task) (r : Option (List ℕ))
      → s.tasks i ≡ u
      → i < c.num_chunks
      → is_racing u ≡ true
      → is_waiting u ≡ false
      → Carries (Answers i) (done r)
      → Change s (finish_race i r s)
  unfolding finish_race
  ends-Change s i u r e l race begun a =
      moves-at s i u (done r) s.permits s.buf_bytes e l (ground arith, refl) (λ h. cc) (λ h. cc)
        (λ h. cc) (ground arith) (rw race refl) (λ h. h) (λ h. a) (λ h. cc)

  pub Step-Change : {s t : State} → Step c Answers s t → Change s t
  unfolding start receive finish lose_one strand
  Step-Change {s} (starts i l e g p) =
      moves-at s i waiting fetching (s.permits - 1) s.buf_bytes e l (omega arith, refl) (λ h. cc)
        (λ h. cc) (λ h. g) (omega arith) (omega arith) (λ h. h) (λ h. tt) (λ h. cc)
  Step-Change {s} (receives i bytes l e a) =
      moves-at s i fetching (checking bytes) s.permits s.buf_bytes e l (omega arith, refl) (λ h. cc)
        (λ h. cc) (λ h. cc) refl (omega arith) (λ h. h) (λ h. a) (λ h. cc)
  Step-Change {s} (fails i l e) =
      moves-at s i fetching (done none) (s.permits + 1) s.buf_bytes e l (omega arith, refl)
        (λ h. cc) (λ h. cc) (λ h. cc) (omega arith) (omega arith) (λ h. h) (λ h. tt) (λ h. cc)
  Step-Change {s} (checks i bytes l e) = checks-Change s i bytes l e
  Step-Change {s} (strands i bytes l e a) =
      moves-at s i racing stranded s.permits s.buf_bytes e l (omega arith, refl) (λ h. refl)
        (λ h. refl) (λ h. cc) refl refl (λ h. h) (λ h. tt) (λ h. cc)
  Step-Change {s} (loses_one i l e) =
      moves-at s i racing racing_last s.permits s.buf_bytes e l (omega arith, refl) (λ h. refl)
        (λ h. refl) (λ h. cc) refl refl (λ h. h) (λ h. tt) (λ h. cc)
  Step-Change {s} (wins_both i bytes l e a) = ends-Change s i racing (some bytes) e l refl refl a
  Step-Change {s} (loses_both i l e) = ends-Change s i racing none e l refl refl tt
  Step-Change {s} (wins_last i bytes l e a) =
      ends-Change s i racing_last (some bytes) e l refl refl a
  Step-Change {s} (loses_last i l e) = ends-Change s i racing_last none e l refl refl tt
  Step-Change {s} (writes bytes l e) = written bytes l e
  Step-Change {s} (aborts l e) = left _ refl (λ h. cc)
  Step-Change {s} (breaks bytes l e) = left _ refl (λ h. cc)
  Step-Change {s} (completes e) = left _ refl (λ h. e)
