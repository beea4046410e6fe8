-- ===== src/Stream/Termination.antt =====
-- proxy/streaming/progressive.py: a stream ends.
use proxysplit.Base.{
  sum_below, sum_below-set_at, sum_below-zero, sum_below-le, ℕ, suc, ◌+◌, ◌-◌, ◌*◌, ◌≤◌, ◌<◌, ◌≡◌,
  refl, ◌&&◌, List, arith, if◌then◌else◌, ◌==◌, nat_eq,
}
use proxysplit.Stream.{
  Config, racing, waiting, running, State, init, write, wake, leave, Run, begin, later,
}
use proxysplit.Stream.Changes.{
  Change, moves, written, left, Step-Change, stage, is_running, wake_lem,
}

module _ (c : Config) (Answers : ℕ → List ℕ → Type 0) where
  -- A write may wake every task, and no other step makes up for that but the next write.
  measure : State → ℕ
  measure s =
      (c.num_chunks - s.next) * (c.num_chunks + 1)
      + sum_below c.num_chunks (λ j. stage (s.tasks j))
      + (if is_running s.phase then 1 else 0)

  written-measure :
      (s : State) (bytes : List ℕ) → s.next < c.num_chunks → measure (write c bytes s) < measure s
  unfolding measure write
  written-measure s bytes l =
      let n = c.num_chunks in
      let woken =
        sum_below-le n 1 (λ j. stage (wake (s.tasks j))) (λ j. stage (s.tasks j))
          (λ j l. (wake_lem (s.tasks j)).4) in
      let e : n - s.next ≡ suc (n - (s.next + 1)) = omega arith in
      let f : suc (n - (s.next + 1)) * (n + 1) ≡ (n - (s.next + 1)) * (n + 1) + (n + 1) =
        omega arith in
      rw (e, f) (omega (arith, woken))

  Change-measure : {s t : State} → Change c Answers s t → s.phase ≡ running → measure t < measure s
  unfolding measure leave
  Change-measure {s} (moves i t p b m) on =
      omega (arith, m.onward, sum_below-set_at c.num_chunks i stage t s.tasks m.inside)
  Change-measure {s} (written bytes l e) on = written-measure s bytes l
  Change-measure (left p n e) on = rw (on, n) (omega arith)

  measure-init : measure (init c) ≤ c.num_chunks * (c.num_chunks + 1) + 4 * c.num_chunks + 1
  unfolding measure init
  measure-init =
      let low =
        sum_below-le c.num_chunks 4
          (λ j. stage (if j == 0 && c.race_first_chunk then racing else waiting)) (λ j. 0)
          (λ j l. ground arith) in
      let none_left = sum_below-zero c.num_chunks (λ j. 0) (λ j l. refl) in
      let e : c.num_chunks - 0 ≡ c.num_chunks = omega arith in rw e (omega (arith, low, none_left))

  Run-measure : {n : ℕ} {s : State} → Run c Answers n s → n + measure s ≤ measure (init c)
  Run-measure begin = omega arith
  Run-measure (later r on st) =
      omega (arith, Run-measure r, Change-measure (Step-Change c Answers st) on)

  -- No run of a stream goes on for ever: whatever the fetches give and in whatever order the tasks run,
  -- it has at most so many steps as this polynomial in the number of chunks.
  pub Run-bounded :
      (n : ℕ) (s : State)
      → Run c Answers n s
      → n ≤ c.num_chunks * (c.num_chunks + 1) + 4 * c.num_chunks + 1
  Run-bounded n s r = omega (arith, Run-measure r, measure-init)
