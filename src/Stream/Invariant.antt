-- ===== src/Stream/Invariant.antt =====
-- proxy/streaming/progressive.py: permits, gates and tasks in every reachable state.
use proxysplit.Base.{
  sum_below, set_at, sum_below-set_at, sum_below-zero, sum_below-eq, ℕ, ◌+◌, ◌≤◌, ◌<◌, max, ◌≡◌,
  refl, sym, ap, ◌∙◌, inl, inr, true, false, ◌&&◌, some, List, arith, if◌then◌else◌, Bool-cases,
  ◌==◌, nat_eq,
}
use proxysplit.Stream.{
  Config, Task, waiting, racing, done, State, init, gate_idx, write, wake, leave, Run, begin, later,
}
use proxysplit.Stream.Changes.{
  holding, stage, is_waiting, is_racing, Carries, Moved, Change, moves, written, left, Step-Change,
  wake_lem, wake-Carries, is_stranded, wake-is_stranded,
}

-- The first chunk whose gate is shut while the write loop is at `next`, but for the gate of chunk 0
-- where nothing is prefetched.
abbrev pub reach : Config → ℕ → ℕ
reach c next = max c.prefetch_ahead (next + 1)

module _ (c : Config) (Answers : ℕ → List ℕ → Type 0) where
  pub record Inv (s : State) : Type 0 where
    pub permits_kept : sum_below c.num_chunks (λ j. holding (s.tasks j)) + s.permits ≡ c.max_workers
    pub next-le : s.next ≤ c.num_chunks
    pub passed : (j : ℕ) → j < s.next → (bytes : List ℕ) × (s.tasks j ≡ done (some bytes))
    pub opened : (j : ℕ) → s.gates j ≡ true → j < reach c s.next
    pub open_near :
        (j : ℕ)
        → j < c.num_chunks
        → j < reach c s.next
        → (j ≡ 0 → 0 < c.prefetch_ahead)
        → s.gates j ≡ true
    pub near : (i : ℕ) → is_waiting (s.tasks i) ≡ false → i < reach c s.next + c.prefetch_ahead
    pub racing_first :
        (i : ℕ) → is_racing (s.tasks i) ≡ true → (i ≡ 0) × (c.race_first_chunk ≡ true)
    pub stranded_first :
        (i : ℕ) → is_stranded (s.tasks i) ≡ true → (i ≡ 0) × (c.race_first_chunk ≡ true)
    pub carried : (i : ℕ) → Carries (Answers i) (s.tasks i)

  init-Inv : Inv (init c)
  unfolding init
  init-Inv = record {
    permits_kept =
        let none_held =
          sum_below-zero c.num_chunks
            (λ j. holding (if j == 0 && c.race_first_chunk then racing else waiting))
            (λ j l. ground arith) in
        omega (arith, none_held);
    next-le = omega arith;
    passed = λ j l. absurd (omega arith);
    opened = λ j h. ground arith;
    open_near = λ j l h z. ground arith;
    near = λ i h. ground arith;
    racing_first = λ i h. ground arith;
    stranded_first = λ i h. ground arith;
    carried = λ i. ground arith;
  }

  moves-Inv :
      (s : State) (i : ℕ) (t : Task) (p b : ℕ)
      → Inv s
      → Moved c Answers s i t p b
      → Inv (record s { tasks = set_at i t s.tasks; permits = p; buf_bytes = b })
  moves-Inv s i t p b v m = record {
    permits_kept = omega (
      arith,
      v.permits_kept,
      m.permits_kept,
      sum_below-set_at c.num_chunks i holding t s.tasks m.inside,
    );
    next-le = v.next-le;
    passed = λ j l. elim (Bool-cases (i == j)) [
      | inl same ↦
          let (bytes, e) = v.passed j l in
          let same' : i ≡ j = ground arith in
          let undone : stage t < 0 = rw (same', e) at m.onward in absurd (omega (arith, undone))
      | inr other ↦ let (bytes, e) = v.passed j l in (bytes, rw other e)
    ];
    opened = v.opened;
    open_near = v.open_near;
    near = λ j h. elim (Bool-cases (i == j)) [
      | inl same ↦
          let e : i ≡ j = ground arith in
          elim (Bool-cases (is_waiting (s.tasks i))) [
            | inl first ↦ let g = v.opened (gate_idx c i) (m.gated first) in omega (arith, e, g)
            | inr begun ↦ let n = v.near i begun in omega (arith, e, n)
          ]
      | inr other ↦ v.near j (rw other at h)
    ];
    racing_first = λ j h. elim (Bool-cases (i == j)) [
      | inl same ↦
          let e : i ≡ j = ground arith in
          let (first, on) = v.racing_first i (m.left_race (rw same at h)) in (sym e ∙ first, on)
      | inr other ↦ v.racing_first j (rw other at h)
    ];
    stranded_first = λ j h. elim (Bool-cases (i == j)) [
      | inl same ↦
          let e : i ≡ j = ground arith in
          let (first, on) = v.racing_first i (m.stranding (rw same at h)) in (sym e ∙ first, on)
      | inr other ↦ v.stranded_first j (rw other at h)
    ];
    carried = λ j. elim (Bool-cases (i == j)) [
      | inl same ↦ let e : i ≡ j = ground arith in rw (same, ← e) (m.carried (v.carried i))
      | inr other ↦ rw other (v.carried j)
    ];
  }

  written-Inv :
      (s : State) (bytes : List ℕ)
      → Inv s
      → s.next < c.num_chunks
      → s.tasks s.next ≡ done (some bytes)
      → Inv (write c bytes s)
  unfolding write
  written-Inv s bytes v l e = record {
    permits_kept =
        let same =
          sum_below-eq c.num_chunks (λ j. holding (wake (s.tasks j))) (λ j. holding (s.tasks j))
            (λ j l. (wake_lem (s.tasks j)).2) in
        omega (arith, v.permits_kept, same);
    next-le = omega arith;
    passed = λ j l. elim (Bool-cases (j == s.next)) [
      | inl same ↦
          let here : j ≡ s.next = ground arith in
          (bytes, let e' : s.tasks j ≡ done (some bytes) = rw here e in ap wake e')
      | inr other ↦ let (b, e) = v.passed j (ground arith) in (b, rw e refl)
    ];
    opened = λ j h. elim (Bool-cases (s.next + 1 == j)) [
      | inl same ↦ ground arith
      | inr other ↦ let low = v.opened j (ground arith) in omega arith
    ];
    open_near = λ j l n z. elim (Bool-cases (s.next + 1 == j)) [
      | inl same ↦ ground arith
      | inr other ↦ let g = v.open_near j l (ground arith) z in ground arith
    ];
    near = λ j h.
        let n : j < reach c s.next + c.prefetch_ahead =
          v.near j (sym (wake_lem (s.tasks j)).0 ∙ h) in
        omega arith;
    racing_first = λ j h. v.racing_first j (sym (wake_lem (s.tasks j)).1 ∙ h);
    stranded_first = λ j h. v.stranded_first j (sym (wake-is_stranded (s.tasks j)) ∙ h);
    carried = λ j. wake-Carries (Answers j) (s.tasks j) (v.carried j);
  }

  Change-Inv : {s t : State} → Change c Answers s t → Inv s → Inv t
  unfolding leave
  Change-Inv {s} (moves i t p b m) v = moves-Inv s i t p b v m
  Change-Inv {s} (written bytes l e) v = written-Inv s bytes v l e
  Change-Inv {s} (left p n e) v = record {
    permits_kept = v.permits_kept;
    next-le = v.next-le;
    passed = v.passed;
    opened = v.opened;
    open_near = v.open_near;
    near = v.near;
    racing_first = v.racing_first;
    stranded_first = v.stranded_first;
    carried = v.carried;
  }

  pub Run-Inv : {n : ℕ} {s : State} → Run c Answers n s → Inv s
  Run-Inv begin = init-Inv
  Run-Inv (later r on st) = Change-Inv (Step-Change c Answers st) (Run-Inv r)
