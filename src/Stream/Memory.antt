-- ===== src/Stream/Memory.antt =====
-- proxy/streaming/progressive.py: the bytes in `results` that are not yet written, and the counter
-- `_buf_bytes`.
use proxysplit.Base.{
  sum_below, set_at, set_at_self, sum_below-zero, sum_below_change, ℕ, ◌+◌, ◌≤◌, ◌<◌, ◌≡◌, refl,
  inl, inr, true, false, none, some, List, arith, ltb, leb, if◌then◌else◌, ltb→lt, Bool-cases, ◌==◌,
  nat_eq, length,
}
use proxysplit.Stream.{
  Config, Task, waiting, fetching, racing, racing_last, stranded, checking, blocked, done, State,
  init, write, wake, leave, Run, begin, later,
}
use proxysplit.Stream.Changes.{
  Change, Moved, moves, written, left, Step-Change, stage, stored, is_racing, Carries, wake_lem,
}
use proxysplit.Stream.Invariant.{Inv, Run-Inv}

-- What a chunk that is not yet written has in `results`.
abbrev pub pending : State → ℕ → ℕ
pending s j = if leb s.next j then stored (s.tasks j) else 0

abbrev pub held : Config → State → ℕ
held c s = sum_below c.num_chunks (pending s)

pub undone-stored : (t : Task) → 0 < stage t → stored t ≡ 0
undone-stored waiting h = refl
undone-stored fetching h = refl
undone-stored racing h = refl
undone-stored racing_last h = refl
undone-stored stranded h = refl
undone-stored (checking bytes) h = refl
undone-stored (blocked bytes) h = refl
undone-stored (done none) h = refl
undone-stored (done (some bytes)) h = absurd (omega arith)

racing-stored : (t : Task) → is_racing t ≡ true → stored t ≡ 0
racing-stored t h = ground arith

pub stored-le :
    (P : List ℕ → Type 0) (size : ℕ)
    → ((bytes : List ℕ) → P bytes → length bytes ≤ size)
    → (t : Task) → Carries P t
    → stored t ≤ size
stored-le P size h waiting a = omega arith
stored-le P size h fetching a = omega arith
stored-le P size h racing a = omega arith
stored-le P size h racing_last a = omega arith
stored-le P size h stranded a = omega arith
stored-le P size h (checking bytes) a = omega arith
stored-le P size h (blocked bytes) a = omega arith
stored-le P size h (done none) a = omega arith
stored-le P size h (done (some bytes)) a = h bytes a

module _ (c : Config) (Answers : ℕ → List ℕ → Type 0) where
  -- The write loop is not past a task that is under way.
  pub next-le-undone : {s : State} (i : ℕ) → Inv c Answers s → 0 < stage (s.tasks i) → s.next ≤ i
  next-le-undone {s} i v h = elim (Bool-cases (ltb i s.next)) [
    | inl before ↦
        let (bytes, e) = v.passed i (ltb→lt _ _ before) in
        let none_left : 0 < 0 = rw e at h in absurd (omega (arith, none_left))
    | inr from ↦ ground arith
  ]

  pub moves-held :
      (s : State) (i : ℕ) (t : Task) (p b : ℕ)
      → Inv c Answers s
      → Moved c Answers s i t p b
      → held c (record s { tasks = set_at i t s.tasks; permits = p; buf_bytes = b })
        ≡ held c s + stored t
  moves-held s i t p b v m =
      let s' : State = record s { tasks = set_at i t s.tasks; permits = p; buf_bytes = b } in
      let from = next-le-undone i v (omega (arith, m.onward)) in
      let empty = undone-stored (s.tasks i) (omega (arith, m.onward)) in
      let changed =
        sum_below_change c.num_chunks i (pending s') (pending s) m.inside
          (λ j other. rw other refl) in
      let before : pending s i ≡ 0 = ground (arith, from, empty) in
      let self = set_at_self i t s.tasks in
      let after : pending s' i ≡ stored t = rw self (ground (arith, from)) in
      omega (arith, changed, before, after)

  pub written-held :
      (s : State) (bytes : List ℕ)
      → s.next < c.num_chunks
      → s.tasks s.next ≡ done (some bytes)
      → held c (write c bytes s) + length bytes ≡ held c s
  unfolding write
  written-held s bytes l e =
      let s' = write c bytes s in
      let changed = sum_below_change c.num_chunks s.next (pending s') (pending s) l (λ j other.
        let w : stored (wake (s.tasks j)) ≡ stored (s.tasks j) = (wake_lem (s.tasks j)).3 in
        rw w (ground arith)) in
      let before : pending s s.next ≡ length bytes =
        let z : stored (s.tasks s.next) ≡ length bytes = rw e refl in ground arith in
      let after : pending s' s.next ≡ 0 = ground arith in omega (arith, changed, before, after)

-- A race stores its chunk without counting it.
abbrev pub uncounted : Config → ℕ → ℕ
uncounted c size = if c.race_first_chunk then size else 0

module _ (c : Config) (Answers : ℕ → List ℕ → Type 0) (size : ℕ)
    (fits : (bytes : List ℕ) → Answers 0 bytes → length bytes ≤ size) where
  record Counted (s : State) : Type 0 where
    capped : s.buf_bytes ≤ c.max_buffer_bytes
    backed : s.buf_bytes ≤ held c s
    exact : is_racing (s.tasks 0) ≡ true → held c s ≤ s.buf_bytes
    counted : held c s ≤ s.buf_bytes + uncounted c size

  still_racing :
      (s : State) (i : ℕ) (t : Task)
      → (is_racing t ≡ true → is_racing (s.tasks i) ≡ true)
      → is_racing (set_at i t s.tasks 0) ≡ true
      → is_racing (s.tasks 0) ≡ true
  still_racing s i t quiet q = elim (Bool-cases (i == 0)) [
    | inl same ↦
        let z : i ≡ 0 = ground arith in
        let race : is_racing (s.tasks i) ≡ true = quiet (rw same at q) in rw z at race
    | inr other ↦ rw other at q
  ]

  -- A write finds the task of chunk 0 at its end.
  first_done :
      (s : State) (bytes : List ℕ)
      → Inv c Answers s
      → s.tasks s.next ≡ done (some bytes)
      → (first : List ℕ) × (s.tasks 0 ≡ done (some first))
  first_done s bytes v e = elim (Bool-cases (ltb 0 s.next)) [
    | inl past ↦ v.passed 0 (ltb→lt _ _ past)
    | inr now ↦ let z : s.next ≡ 0 = ground arith in (bytes, rw z at e)
  ]

  moves-Counted :
      (s : State) (i : ℕ) (t : Task) (p b : ℕ)
      → Inv c Answers s
      → Counted s
      → Moved c Answers s i t p b
      → Counted (record s { tasks = set_at i t s.tasks; permits = p; buf_bytes = b })
  moves-Counted s i t p b v h m = elim (Bool-cases (is_racing (s.tasks i))) [
    | inl race ↦
        let sum = moves-held c Answers s i t p b v m in
        let (first, on) = v.racing_first i race in
        let e : b ≡ s.buf_bytes = rw race at m.counted in
        let race' : is_racing (s.tasks 0) ≡ true = rw first at race in
        let carry : Carries (Answers i) t = m.carried (v.carried i) in
        let small = stored-le (Answers 0) size fits t (rw first at carry) in
        let own : uncounted c size ≡ size = rw on refl in
        record {
          capped = m.capped h.capped;
          backed = omega (arith, e, sum, h.backed);
          exact = λ q.
              let t_race : is_racing t ≡ true = rw (first, set_at_self 0 t s.tasks) at q in
              let unstored : stored t ≡ 0 = racing-stored t t_race in
              omega (arith, e, sum, h.exact race', unstored);
          counted = omega (arith, e, sum, small, own, h.exact race');
        }
    | inr quiet ↦
        let e : b ≡ s.buf_bytes + stored t = rw quiet at m.counted in
        let sum = moves-held c Answers s i t p b v m in
        record {
          capped = m.capped h.capped;
          backed = omega (arith, e, sum, h.backed);
          exact = λ q.
              let low = h.exact (still_racing s i t m.left_race q) in omega (arith, e, sum, low);
          counted = omega (arith, e, sum, h.counted);
        }
  ]

  written-Counted :
      (s : State) (bytes : List ℕ)
      → Inv c Answers s
      → Counted s
      → s.next < c.num_chunks
      → s.tasks s.next ≡ done (some bytes)
      → Counted (write c bytes s)
  unfolding write
  written-Counted s bytes v h l e =
      let sum = written-held c Answers s bytes l e in
      let over : is_racing (wake (s.tasks 0)) ≡ false =
        let (first, f) = first_done s bytes v e in rw f refl in
      record {
        capped = omega (arith, h.capped);
        backed = omega (arith, sum, h.backed);
        exact = λ q. absurd (cc (q, over));
        counted = omega (arith, sum, h.counted);
      }

  init-Counted : Counted (init c)
  unfolding init
  init-Counted =
      let empty = sum_below-zero c.num_chunks (pending (init c)) (λ j l. ground arith) in
      record {
        capped = omega arith;
        backed = omega arith;
        exact = λ q. omega (arith, empty);
        counted = omega (arith, empty);
      }

  Change-Counted : {s t : State} → Change c Answers s t → Inv c Answers s → Counted s → Counted t
  unfolding leave
  Change-Counted {s} (moves i t p b m) v h = moves-Counted s i t p b v h m
  Change-Counted {s} (written bytes l e) v h = written-Counted s bytes v h l e
  Change-Counted (left p n e) v h = record {
    capped = h.capped;
    backed = h.backed;
    exact = h.exact;
    counted = h.counted;
  }

  Run-Counted : {n : ℕ} {s : State} → Run c Answers n s → Counted s
  Run-Counted begin = init-Counted
  Run-Counted (later r on st) =
      Change-Counted (Step-Change c Answers st) (Run-Inv c Answers r) (Run-Counted r)

  -- In every state of a stream the chunks that are stored and not yet written have at most
  -- `max_buffer_bytes` bytes, and the length of chunk 0 more if that chunk is raced, which stores it
  -- without counting it. The counter never exceeds what is stored, and without a race it is exactly that.
  pub Run-held :
      (n : ℕ) (s : State)
      → Run c Answers n s
      → (held c s ≤ c.max_buffer_bytes + uncounted c size)
        × (s.buf_bytes ≤ held c s)
        × (c.race_first_chunk ≡ false → s.buf_bytes ≡ held c s)
  Run-held n s r =
      let h = Run-Counted r in
      (
        omega (arith, h.capped, h.counted),
        h.backed,
        λ q.
            let none_raced : uncounted c size ≡ 0 = rw q refl in
            omega (arith, h.backed, h.counted, none_raced),
      )
