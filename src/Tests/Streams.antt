-- ===== src/Tests/Streams.antt =====
-- A stream of two chunks that arrive in the wrong order.
use proxysplit.Base.{
  ℕ, zero, suc, ◌+◌, ◌≤◌, ◌≡◌, refl, ap, true, false, some, List, [], ◌∷◌, arith, length,
}
use proxysplit.Chunk.{Result, fetched}
use proxysplit.Ranges.{Range}
use proxysplit.Transfer.{Window, assemble}
use proxysplit.Stream.{
  Config, completed, State, init, start, receive, finish, check_space, write, leave, Step, Run,
  begin, later, starts, receives, checks, writes, completes, reply_of,
}
use proxysplit.Stream.Delivery.{Served, edge, Run-slice, Run-assemble}
use proxysplit.Stream.Memory.{held, uncounted, Run-held}
use proxysplit.Stream.Progress.{Run-progress}
use proxysplit.Stream.Termination.{Run-bounded}
use proxysplit.Stream.Hang.{init_hangs, Run-oversized}
use proxysplit.Transfer.Assembly.{slice}

abbrev content : List ℕ
content = 10 ∷ 11 ∷ 12 ∷ 13 ∷ 14 ∷ 15 ∷ []

-- The bytes 1 to 4.
abbrev window : Window
window = record { start = 1; stop = 5; is_partial = true }

abbrev ranges : List Range
ranges = record { first = 1; last = 3; index = 0 } ∷ record { first = 4; last = 4; index = 1 } ∷ []

abbrev results : List Result
results = fetched 0 (11 ∷ 12 ∷ 13 ∷ []) 206 "a" ∷ fetched 1 (14 ∷ []) 206 "b" ∷ []

abbrev first_bytes : List ℕ
first_bytes = 11 ∷ 12 ∷ 13 ∷ []

abbrev second_bytes : List ℕ
second_bytes = 14 ∷ []

abbrev two_chunks : Config
two_chunks = record {
  num_chunks = 2;
  max_workers = 2;
  prefetch_ahead = 1;
  max_buffer_bytes = 8;
  race_first_chunk = false;
}

-- Both chunks are under way, and the second one has arrived.
abbrev second_first : State
second_first =
    check_space two_chunks 1 second_bytes
      (receive 1 second_bytes (start 1 (start 0 (init two_chunks))))

abbrev both : State
both = check_space two_chunks 0 first_bytes (receive 0 first_bytes second_first)

abbrev sent : State
sent = leave completed (write two_chunks second_bytes (write two_chunks first_bytes both))

second_first-Run : Run two_chunks (Served ranges content) 4 second_first
unfolding init start receive check_space finish
second_first-Run =
    later
      (later
        (later (later begin refl (starts 0 (omega arith) refl refl (omega arith))) refl
          (starts 1 (omega arith) refl refl (omega arith)))
        refl (receives 1 second_bytes (omega arith) refl refl))
      refl (checks 1 second_bytes (omega arith) refl)

both-Run : Run two_chunks (Served ranges content) 6 both
unfolding init start receive check_space finish
both-Run =
    later (later second_first-Run refl (receives 0 first_bytes (omega arith) refl refl)) refl
      (checks 0 first_bytes (omega arith) refl)

sent-Run : Run two_chunks (Served ranges content) 9 sent
unfolding init start receive check_space finish write leave
sent-Run =
    later
      (later (later both-Run refl (writes first_bytes (omega arith) refl)) refl
        (writes second_bytes (omega arith) refl))
      refl (completes refl)

Run-slice_example :
    (sent.out ≡ slice 1 (edge 1 ranges 2) content)
    × (sent.phase ≡ completed → sent.out ≡ slice 1 5 content)
unfolding init start receive check_space finish write leave
Run-slice_example =
    Run-slice two_chunks ranges content 1 5 9 sent refl
      (refl, omega arith, omega arith, refl, (refl, omega arith, omega arith, refl, refl)) sent-Run

Run-assemble_example : assemble 6 window ranges results ≡ some (reply_of 6 window sent)
unfolding leave
Run-assemble_example =
    Run-assemble two_chunks ranges content window results 9 sent refl
      (refl, omega arith, omega arith, refl, (refl, omega arith, omega arith, refl, refl))
      (omega arith) (refl, refl, (refl, refl, tt)) sent-Run refl

Run-bounded_example : 9 ≤ 15
Run-bounded_example = Run-bounded two_chunks (Served ranges content) 9 sent sent-Run

three_at_most : (i : ℕ) (bytes : List ℕ) → Served ranges content i bytes → length bytes ≤ 3
three_at_most zero bytes h = omega (arith, ap length h)
three_at_most (suc zero) bytes h = omega (arith, ap length h)
three_at_most (suc (suc i)) bytes h = omega (arith, ap length h)

Run-held_example :
    (held two_chunks second_first ≤ 8 + uncounted two_chunks 3)
    × (second_first.buf_bytes ≤ held two_chunks second_first)
    × (two_chunks.race_first_chunk ≡ false → second_first.buf_bytes ≡ held two_chunks second_first)
Run-held_example =
    Run-held two_chunks (Served ranges content) 3 (three_at_most 0) 4 second_first second_first-Run

Run-progress_example :
    (s : State) × Step two_chunks (Served ranges content) second_first s
    × Run two_chunks (Served ranges content) 5 s
unfolding check_space receive start init
Run-progress_example =
    Run-progress two_chunks (Served ranges content) 3 three_at_most (omega arith) (omega arith)
      (λ q. omega arith) 4 second_first second_first-Run refl refl

abbrev nothing_ahead : Config
nothing_ahead = record two_chunks { prefetch_ahead = 0 }

init_hangs_example : ¬ Step nothing_ahead (Served ranges content) (init nothing_ahead) second_first
init_hangs_example =
    init_hangs nothing_ahead (Served ranges content) second_first refl refl (omega arith)

-- The first chunk has three bytes.
abbrev small_buffer : Config
small_buffer = record two_chunks { max_buffer_bytes = 2 }

Run-oversized_example : (start 0 (init small_buffer)).next ≤ 0
unfolding init
Run-oversized_example =
    Run-oversized small_buffer (Served ranges content) 0 (λ bytes h. omega (arith, ap length h))
      (λ q. refl) 1 (start 0 (init small_buffer))
      (later begin refl (starts 0 (omega arith) refl refl (omega arith)))

abbrev raced : Config
raced = record two_chunks { race_first_chunk = true }
