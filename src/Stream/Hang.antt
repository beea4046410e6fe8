-- ===== src/Stream/Hang.antt =====
-- proxy/streaming/progressive.py: when a stream hangs.
use proxysplit.Base.{
  ℕ, ◌+◌, ◌≤◌, ◌<◌, ◌≡◌, refl, ◌≢◌, inl, inr, false, some, List, arith, ltb, ltb→lt, Bool-cases,
  ◌==◌, nat_eq, length,
}
use proxysplit.Stream.{
  Config, Task, waiting, done, State, init, write, leave, Run, begin, later, Step, starts, receives,
  fails, checks, strands, loses_one, wins_both, loses_both, wins_last, loses_last, writes, aborts,
  breaks, completes, gate_idx,
}
use proxysplit.Stream.Changes.{
  Change, Moved, moves, written, left, Step-Change, stored, is_racing, Carries, wake-done,
}
use proxysplit.Stream.Invariant.{Inv, Run-Inv}

module _ (c : Config) (Answers : ℕ → List ℕ → Type 0) where
  all_waiting : c.race_first_chunk ≡ false → (i : ℕ) → (init c).tasks i ≡ waiting
  unfolding init
  all_waiting alone i = ground arith

  all_shut : c.prefetch_ahead ≡ 0 → (j : ℕ) → (init c).gates j ≡ false
  unfolding init
  all_shut none_ahead j = ground arith

  -- If nothing is prefetched and chunk 0 is not raced, a stream of at least one chunk hangs at once: no
  -- gate is ever set, so no task starts and the write loop waits for chunk 0.
  pub init_hangs :
      (s : State)
      → c.prefetch_ahead ≡ 0
      → c.race_first_chunk ≡ false
      → 0 < c.num_chunks
      → ¬ Step c Answers (init c) s
  unfolding init
  init_hangs _ none_ahead alone pos (starts i l e g p) = cc (g, all_shut none_ahead (gate_idx c i))
  init_hangs _ none_ahead alone pos (receives i bytes l e a) = cc (e, all_waiting alone i)
  init_hangs _ none_ahead alone pos (fails i l e) = cc (e, all_waiting alone i)
  init_hangs _ none_ahead alone pos (checks i bytes l e) = cc (e, all_waiting alone i)
  init_hangs _ none_ahead alone pos (strands i bytes l e a) = cc (e, all_waiting alone i)
  init_hangs _ none_ahead alone pos (loses_one i l e) = cc (e, all_waiting alone i)
  init_hangs _ none_ahead alone pos (wins_both i bytes l e a) = cc (e, all_waiting alone i)
  init_hangs _ none_ahead alone pos (loses_both i l e) = cc (e, all_waiting alone i)
  init_hangs _ none_ahead alone pos (wins_last i bytes l e a) = cc (e, all_waiting alone i)
  init_hangs _ none_ahead alone pos (loses_last i l e) = cc (e, all_waiting alone i)
  init_hangs _ none_ahead alone pos (writes bytes l e) = cc (e, all_waiting alone 0)
  init_hangs _ none_ahead alone pos (aborts l e) = cc (e, all_waiting alone 0)
  init_hangs _ none_ahead alone pos (breaks bytes l e) = cc (e, all_waiting alone 0)
  init_hangs _ none_ahead alone pos (completes e) = absurd (omega (arith, e))

-- A chunk that is longer than the buffer, and is not raced.
module _ (c : Config) (Answers : ℕ → List ℕ → Type 0) (i : ℕ)
    (long : (bytes : List ℕ) → Answers i bytes → c.max_buffer_bytes < length bytes)
    (alone : i ≡ 0 → c.race_first_chunk ≡ false) where
  record Missing (s : State) : Type 0 where
    capped : s.buf_bytes ≤ c.max_buffer_bytes
    missing : (bytes : List ℕ) → s.tasks i ≢ done (some bytes)

  Moved-Missing :
      (s : State) (t : Task) (p b : ℕ)
      → Inv c Answers s
      → Missing s
      → Moved c Answers s i t p b
      → (bytes : List ℕ) → t ≢ done (some bytes)
  Moved-Missing s t p b v h m bytes e =
      let carry : Carries (Answers i) t = m.carried (v.carried i) in
      let own : Carries (Answers i) (done (some bytes)) = rw e at carry in
      let counted : stored t ≡ length bytes = rw e refl in
      elim (Bool-cases (is_racing (s.tasks i))) [
        | inl race ↦ let (first, on) = v.racing_first i race in absurd (cc (on, alone first))
        | inr quiet ↦
            let sum : b ≡ s.buf_bytes + stored t = rw quiet at m.counted in
            absurd (omega (arith, long bytes own, m.capped h.capped, sum, counted))
      ]

  Change-Missing : {s t : State} → Change c Answers s t → Inv c Answers s → Missing s → Missing t
  unfolding write leave
  Change-Missing {s} (moves j t p b m) v h = record {
    capped = m.capped h.capped;
    missing = λ bytes e. elim (Bool-cases (j == i)) [
      | inl same ↦
          let z : j ≡ i = ground arith in
          let m' : Moved c Answers s i t p b = rw z at m in
          Moved-Missing s t p b v h m' bytes (rw same at e)
      | inr other ↦ h.missing bytes (rw other at e)
    ];
  }
  Change-Missing {s} (written bytes l e) v h = record {
    capped = omega (arith, h.capped);
    missing = λ bytes' e'. h.missing bytes' (wake-done (s.tasks i) (some bytes') e');
  }
  Change-Missing (left p n e) v h = record { capped = h.capped; missing = h.missing }

  Run-Missing : {n : ℕ} {s : State} → Run c Answers n s → Missing s
  unfolding init
  Run-Missing begin = record { capped = omega arith; missing = λ bytes e. ground arith }
  Run-Missing (later r on st) =
      Change-Missing (Step-Change c Answers st) (Run-Inv c Answers r) (Run-Missing r)

  -- A chunk longer than `max_buffer_bytes` that is not raced is never stored, though the buffer may be
  -- empty: the write loop does not come past it in any run.
  pub Run-oversized : (n : ℕ) (s : State) → Run c Answers n s → s.next ≤ i
  Run-oversized n s r = elim (Bool-cases (ltb i s.next)) [
    | inl past ↦
        let (bytes, e) = (Run-Inv c Answers r).passed i (ltb→lt _ _ past) in
        absurd ((Run-Missing r).missing bytes e)
    | inr before ↦ ground arith
  ]
