-- ===== src/Stream/Progress.antt =====
-- proxy/streaming/progressive.py: when a stream cannot hang.
use proxysplit.Base.{
  sum_below_change, sum_below_window, sum_below_pos, ℕ, ◌+◌, ◌-◌, ◌*◌, ◌≤◌, ◌<◌, min, max, ◌≡◌,
  refl, ◌∙◌, inl, inr, true, false, none, some, List, arith, ltb, leb, if◌then◌else◌, ltb→lt,
  Bool-cases, ◌==◌, nat_eq, length,
}
use proxysplit.Stream.{
  Config, Task, waiting, fetching, racing, racing_last, stranded, checking, blocked, done, running,
  State, init, write, wake, leave, Run, begin, later, Step, starts, fails, checks, loses_both,
  loses_last, writes, aborts, completes, gate_idx,
}
use proxysplit.Stream.Changes.{
  Change, Moved, moves, written, left, Step-Change, stored, holding, is_blocked, is_waiting,
  is_stranded, Carries, wake_lem,
}
use proxysplit.Stream.Invariant.{Inv, Run-Inv, reach}
use proxysplit.Stream.Memory.{pending, held, stored-le, next-le-undone, Run-held}

-- The most chunks that can be fetched and not yet written: all of the first ones and those behind.
abbrev pub ahead : Config → ℕ
ahead c = max (2 * c.prefetch_ahead) 1

-- `pending`, with the bytes of the chunk `i` that is not yet stored.
abbrev with_chunk : State → ℕ → List ℕ → ℕ → ℕ
with_chunk s i bytes j =
    if leb s.next j then (if i == j then length bytes else stored (s.tasks j)) else 0

waiting-stored : (t : Task) → is_waiting t ≡ true → stored t ≡ 0
waiting-stored t h = ground arith

wake-is_blocked : (t : Task) → is_blocked (wake t) ≡ false
wake-is_blocked waiting = refl
wake-is_blocked fetching = refl
wake-is_blocked racing = refl
wake-is_blocked racing_last = refl
wake-is_blocked stranded = refl
wake-is_blocked (checking bytes) = refl
wake-is_blocked (blocked bytes) = refl
wake-is_blocked (done result) = refl

module _ (c : Config) (Answers : ℕ → List ℕ → Type 0) (size : ℕ)
    (fits : (i : ℕ) (bytes : List ℕ) → Answers i bytes → length bytes ≤ size) where
  small :
      (s : State) (i : ℕ) (bytes : List ℕ) (j : ℕ)
      → Inv c Answers s
      → s.tasks i ≡ checking bytes
      → with_chunk s i bytes j ≤ size
  small s i bytes j v e =
      let carried = v.carried i in
      let own : Carries (Answers i) (checking bytes) = rw e at carried in
      let own_size = fits i bytes own in
      let other_size = stored-le (Answers j) size (fits j) (s.tasks j) (v.carried j) in
      ground (arith, own_size, other_size)

  far :
      (s : State) (i : ℕ) (bytes : List ℕ) (j : ℕ)
      → Inv c Answers s
      → s.tasks i ≡ checking bytes
      → s.next + ahead c ≤ j
      → with_chunk s i bytes j ≡ 0
  far s i bytes j v e high =
      let own : i < reach c s.next + c.prefetch_ahead = v.near i (rw e refl) in
      let other : (i == j) ≡ false = ground (arith, own) in
      let empty : stored (s.tasks j) ≡ 0 = elim (Bool-cases (is_waiting (s.tasks j))) [
        | inl unused ↦ waiting-stored (s.tasks j) unused
        | inr used ↦
            let near : j < reach c s.next + c.prefetch_ahead = v.near j used in absurd (omega arith)
      ] in
      rw other (ground (arith, empty))

  -- The bytes of the chunk `i`, and of all that are stored, fit in the chunks ahead.
  room :
      (s : State) (i : ℕ) (bytes : List ℕ)
      → Inv c Answers s
      → i < c.num_chunks
      → s.tasks i ≡ checking bytes
      → held c s + length bytes ≤ ahead c * size
  room s i bytes v l e =
      let from = next-le-undone c Answers i v (rw e (omega arith)) in
      let changed =
        sum_below_change c.num_chunks i (with_chunk s i bytes) (pending s) l
          (λ j other. rw other refl) in
      let self : (i == i) ≡ true = ground arith in
      let after : with_chunk s i bytes i ≡ length bytes = ground (arith, from, self) in
      let before : pending s i ≡ 0 = rw e (ground arith) in
      let window =
        sum_below_window c.num_chunks s.next (ahead c) size (with_chunk s i bytes)
          (λ j. small s i bytes j v e) (λ j low. ground arith)
          (λ j high. far s i bytes j v e high) in
      let width : min c.num_chunks (s.next + ahead c) - s.next ≤ ahead c = omega arith in
      let wide : (min c.num_chunks (s.next + ahead c) - s.next) * size ≤ ahead c * size =
        grind arith in
      omega (arith, changed, before, after, window, wide)

  record Live (s : State) : Type 0 where
    never_blocked : (i : ℕ) → is_blocked (s.tasks i) ≡ false
    raced : c.race_first_chunk ≡ true → is_waiting (s.tasks 0) ≡ false

  module _ (enough : ahead c * size ≤ c.max_buffer_bytes) where
    Moved-unblocked :
        {n : ℕ} (s : State) (i : ℕ) (t : Task) (p b : ℕ)
        → Run c Answers n s
        → Moved c Answers s i t p b
        → is_blocked t ≡ false
    Moved-unblocked {n} s i t p b r m = elim (Bool-cases (is_blocked t)) [
      | inl full ↦
          let (bytes, e, over) = m.full full in
          let fits_in = room s i bytes (Run-Inv c Answers r) m.inside e in
          let backed = (Run-held c Answers size (fits 0) n s r).1 in
          absurd (omega (arith, over, fits_in, backed, enough))
      | inr free ↦ free
    ]

    Change-Live : {n : ℕ} {s t : State} → Run c Answers n s → Change c Answers s t → Live s → Live t
    unfolding write leave
    Change-Live {s = s} r (moves i t p b m) h = record {
      never_blocked = λ j. elim (Bool-cases (i == j)) [
        | inl same ↦ rw same (Moved-unblocked s i t p b r m)
        | inr other ↦ rw other (h.never_blocked j)
      ];
      raced = λ q. elim (Bool-cases (i == 0)) [
        | inl same ↦ rw same m.left_start
        | inr other ↦ rw other (h.raced q)
      ];
    }
    Change-Live {s = s} r (written bytes l e) h = record {
      never_blocked = λ j. wake-is_blocked (s.tasks j);
      raced = λ q. (wake_lem (s.tasks 0)).0 ∙ h.raced q;
    }
    Change-Live r (left p n e) h = record { never_blocked = h.never_blocked; raced = h.raced }

    Run-Live : {n : ℕ} {s : State} → Run c Answers n s → Live s
    unfolding init
    Run-Live begin = record { never_blocked = λ j. ground arith; raced = λ q. rw q refl }
    Run-Live (later r on st) = Change-Live r (Step-Change c Answers st) (Run-Live r)

    -- A task that holds a permit can go on.
    holder_steps :
        {s : State} (i : ℕ) (t : Task)
        → Live s
        → i < c.num_chunks
        → s.tasks i ≡ t
        → 0 < holding t
        → (s' : State) × Step c Answers s s'
    holder_steps i waiting h l e p = absurd (omega arith)
    holder_steps i fetching h l e p = (_, fails i l e)
    holder_steps i racing h l e p = absurd (omega arith)
    holder_steps i racing_last h l e p = absurd (omega arith)
    holder_steps i stranded h l e p = absurd (omega arith)
    holder_steps i (checking bytes) h l e p = (_, checks i bytes l e)
    holder_steps i (blocked bytes) h l e p =
        let free = h.never_blocked i in absurd (cc (rw e at free))
    holder_steps i (done result) h l e p = absurd (omega arith)

    module _ (workers : 0 < c.max_workers)
        (prefetch : c.race_first_chunk ≡ false → 0 < c.prefetch_ahead) where
      gate_open :
          {s : State}
          → Inv c Answers s
          → Live s
          → s.next < c.num_chunks
          → s.tasks s.next ≡ waiting
          → s.gates (gate_idx c s.next) ≡ true
      gate_open {s} v h l e = v.open_near (gate_idx c s.next) (omega arith) (omega arith) (λ z.
          elim (Bool-cases c.race_first_chunk) [
            | inr alone ↦ prefetch alone
            | inl race ↦ elim (Bool-cases (ltb 0 c.prefetch_ahead)) [
              | inl some_ahead ↦ ltb→lt _ _ some_ahead
              | inr none_ahead ↦
                  let first : s.next ≡ 0 = ground arith in
                  let raced = h.raced race in
                  let stays : is_waiting (s.tasks s.next) ≡ false = rw first raced in
                  absurd (cc (rw e at stays))
            ]
          ])

      next_steps :
          {s : State} (t : Task)
          → Inv c Answers s
          → Live s
          → s.next < c.num_chunks
          → is_stranded t ≡ false
          → s.tasks s.next ≡ t
          → (s' : State) × Step c Answers s s'
      next_steps {s} waiting v h l q e = elim (Bool-cases (ltb 0 s.permits)) [
        | inl free ↦ (_, starts s.next l e (gate_open v h l e) (ltb→lt _ _ free))
        | inr none_free ↦
            let (i, l', p) =
              sum_below_pos c.num_chunks (λ j. holding (s.tasks j))
                (ground (arith, v.permits_kept)) in
            holder_steps i (s.tasks i) h l' refl p
      ]
      next_steps {s} fetching v h l q e = (_, fails s.next l e)
      next_steps {s} racing v h l q e = (_, loses_both s.next l e)
      next_steps {s} racing_last v h l q e = (_, loses_last s.next l e)
      next_steps {s} stranded v h l q e = absurd (cc q)
      next_steps {s} (checking bytes) v h l q e = (_, checks s.next bytes l e)
      next_steps {s} (blocked bytes) v h l q e =
          let free = h.never_blocked s.next in absurd (cc (rw e at free))
      next_steps {s} (done none) v h l q e = (_, aborts l e)
      next_steps {s} (done (some bytes)) v h l q e = (_, writes bytes l e)

      Live-Step :
          {s : State}
          → Inv c Answers s
          → Live s
          → is_stranded (s.tasks s.next) ≡ false
          → (s' : State) × Step c Answers s s'
      Live-Step {s} v h q = elim (Bool-cases (ltb s.next c.num_chunks)) [
        | inl more ↦ next_steps (s.tasks s.next) v h (ltb→lt _ _ more) q refl
        | inr all ↦ (_, completes (ground (arith, v.next-le)))
      ]

      -- A stream hangs at most in a race that was left: with a worker, with chunk 0 raced or something
      -- prefetched, and with a buffer that holds `2 * prefetch_ahead` chunks and at least one, a task or
      -- the write loop can make a step in every state that is reached, until the loop has ended, unless
      -- the loop waits for a chunk whose race ended with the `CancelledError` of its loser.
      pub Run-progress :
          (n : ℕ) (s : State)
          → Run c Answers n s
          → s.phase ≡ running
          → is_stranded (s.tasks s.next) ≡ false
          → (s' : State) × Step c Answers s s' × Run c Answers (n + 1) s'
      Run-progress n s r on q =
          let v = Run-Inv c Answers r in
          let h = Run-Live r in let (s', st) = Live-Step v h q in (s', st, later r on st)
