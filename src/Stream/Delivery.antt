-- ===== src/Stream/Delivery.antt =====
-- proxy/streaming/progressive.py: what the client of a stream receives, in whatever order the chunks
-- arrive.
use proxysplit.Base.{
  ℕ, zero, suc, ◌+◌, ◌-◌, ◌≤◌, ◌≡◌, refl, sym, ap, ◌∙◌, Option, none, some, List, [], ◌∷◌, ◌++◌,
  append_assoc, append-nil, arith, length, get_elem?,
}
use proxysplit.Chunk.{Result}
use proxysplit.Ranges.{Range}
use proxysplit.Ranges.Tiling.{Tiles}
use proxysplit.Transfer.{Window, assemble}
use proxysplit.Transfer.Assembly.{slice, bytes_of, slice-append, AllFetched, assemble-slice}
use proxysplit.Stream.{
  Config, done, running, completed, State, init, write, leave, Run, begin, later, reply_of,
}
use proxysplit.Stream.Changes.{Carries, Change, moves, written, left, Step-Change}
use proxysplit.Stream.Invariant.{Inv, Run-Inv}

-- The values at 0, 1, … one after the other.
abbrev join_below : ℕ → (ℕ → List ℕ) → List ℕ
join_below zero f = []
join_below (suc n) f = join_below n f ++ f n

abbrev bytes_at : List ℕ → Option Range → List ℕ
bytes_at content none = []
bytes_at content (some r) = bytes_of r content

-- The bytes of the range at an index.
abbrev pub piece : List Range → List ℕ → ℕ → List ℕ
piece ranges content i = bytes_at content (get_elem? ranges i)

-- Each fetch that succeeds has the bytes of its range.
abbrev pub Served : List Range → List ℕ → ℕ → List ℕ → Type 0
Served ranges content i bytes = bytes ≡ piece ranges content i

-- Where the first `n` ranges end.
abbrev pub edge : ℕ → List Range → ℕ → ℕ
edge start ranges zero = start
edge start [] (suc n) = start
edge start (r ∷ ranges) (suc n) = edge (r.last + 1) ranges n

join_below-front :
    (n : ℕ) (f : ℕ → List ℕ) → join_below (suc n) f ≡ f 0 ++ join_below n (λ i. f (suc i))
join_below-front zero f = sym (append-nil (f 0))
join_below-front (suc n) f =
    ap (λ xs. xs ++ f (suc n)) (join_below-front n f)
    ∙ append_assoc (f 0) (join_below n (λ i. f (suc i))) (f (suc n))

module _ (content : List ℕ) where
  edge_le :
      (start stop i : ℕ) (ranges : List Range) (n : ℕ)
      → Tiles start stop i ranges
      → start ≤ edge start ranges n
  edge_le start stop i ranges zero t = omega arith
  edge_le start stop i [] (suc n) t = omega arith
  edge_le start stop i (r ∷ ranges) (suc n) t =
      omega (arith, t.0, t.1, edge_le (r.last + 1) stop (i + 1) ranges n t.4)

  edge-length :
      (start stop i : ℕ) (ranges : List Range)
      → Tiles start stop i ranges
      → edge start ranges (length ranges) ≡ stop
  edge-length start stop i [] t = t
  edge-length start stop i (r ∷ ranges) t = edge-length (r.last + 1) stop (i + 1) ranges t.4

  join_below-slice :
      (start stop i : ℕ) (ranges : List Range) (n : ℕ)
      → Tiles start stop i ranges
      → n ≤ length ranges
      → join_below n (piece ranges content) ≡ slice start (edge start ranges n) content
  join_below-slice start stop i ranges zero t l =
      let e : start - start ≡ 0 = omega arith in rw e refl
  join_below-slice start stop i [] (suc n) t l = absurd (omega arith)
  join_below-slice start stop i (r ∷ ranges) (suc n) t l =
      let rest = join_below-slice (r.last + 1) stop (i + 1) ranges n t.4 (omega arith) in
      let next = edge (r.last + 1) ranges n in
      let low = edge_le (r.last + 1) stop (i + 1) ranges n t.4 in
      join_below-front n (piece (r ∷ ranges) content)
      ∙ ap (λ xs. bytes_of r content ++ xs) rest
      ∙ slice-append r.first (r.last + 1) next content (omega (arith, t.1)) low
      ∙ ap (λ a. slice a next content) t.0

module _ (c : Config) (ranges : List Range) (content : List ℕ) where
  record Sent (s : State) : Type 0 where
    joined : s.out ≡ join_below s.next (piece ranges content)
    ended : s.phase ≡ completed → s.next ≡ c.num_chunks

  Change-Sent :
      {s t : State}
      → Change c (Served ranges content) s t
      → s.phase ≡ running
      → Inv c (Served ranges content) s
      → Sent s
      → Sent t
  unfolding write leave
  Change-Sent (moves i t p b m) on v h = record { joined = h.joined; ended = h.ended }
  Change-Sent {s} (written bytes l e) on v h = record {
    joined =
        let here : Carries (Served ranges content s.next) (done (some bytes)) =
          rw e at (v.carried s.next) in
        let step : s.next + 1 ≡ suc s.next = omega arith in
        rw step (
          ap (λ xs. xs ++ bytes) h.joined
          ∙ ap (λ xs. join_below s.next (piece ranges content) ++ xs) here);
    ended = λ q. absurd (cc (on, q));
  }
  Change-Sent (left p n e) on v h = record { joined = h.joined; ended = e }

  Run-Sent : {n : ℕ} {s : State} → Run c (Served ranges content) n s → Sent s
  unfolding init
  Run-Sent begin = record { joined = refl; ended = λ q. absurd (cc q) }
  Run-Sent (later r on st) =
      Change-Sent (Step-Change c (Served ranges content) st) on
        (Run-Inv c (Served ranges content) r) (Run-Sent r)

  -- In every state of a stream whose ranges tile the window from `start` to `stop`, and whose fetches
  -- give the bytes of their ranges or fail, the client has received exactly the bytes of the content
  -- from `start` to the end of the chunk before the one that the write loop is at, and all bytes of the
  -- window once the stream has completed.
  pub Run-slice :
      (start stop n : ℕ) (s : State)
      → c.num_chunks ≡ length ranges
      → Tiles start stop 0 ranges
      → Run c (Served ranges content) n s
      → (s.out ≡ slice start (edge start ranges s.next) content)
        × (s.phase ≡ completed → s.out ≡ slice start stop content)
  Run-slice start stop n s same t r =
      let h = Run-Sent r in
      let v = Run-Inv c (Served ranges content) r in
      let sent : s.out ≡ slice start (edge start ranges s.next) content =
        h.joined
        ∙ join_below-slice content start stop 0 ranges s.next t (omega (arith, v.next-le)) in
      (
        sent,
        λ q.
            let all : s.next ≡ length ranges = h.ended q ∙ same in
            sent
            ∙ ap (λ m. slice start (edge start ranges m) content) all
            ∙ ap (λ m. slice start m content) (edge-length content start stop 0 ranges t),
      )

  -- A stream that has completed is the very response that the other mode puts together from the same
  -- ranges: the status, the body and the place in the content.
  pub Run-assemble :
      (w : Window) (results : List Result) (n : ℕ) (s : State)
      → c.num_chunks ≡ length ranges
      → Tiles w.start w.stop 0 ranges
      → w.stop ≤ length content
      → AllFetched content ranges results
      → Run c (Served ranges content) n s
      → s.phase ≡ completed
      → assemble (length content) w ranges results ≡ some (reply_of (length content) w s)
  unfolding reply_of
  Run-assemble w results n s same t inside fetched r q =
      let sent = (Run-slice w.start w.stop n s same t r).1 q in
      assemble-slice content w ranges results t inside fetched ∙ rw sent refl
