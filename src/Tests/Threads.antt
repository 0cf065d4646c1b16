-- ===== src/Tests/Threads.antt =====
-- Two reads of the sample on two threads, whose steps take turns.
use bitfs.Base.{
  ℕ, zero, suc, ◌+◌, ◌<◌, ◌≡◌, ◌≢◌, ◌⊎◌, inl, inr, refl, true, false, List, [], ◌∷◌, Outcome, ok,
  fault, timeout, arith,
}
use bitfs.Base.Int.{pos}
use bitfs.Base.Bytes.{bytes, splice}
use bitfs.Base.Ordered.{insert, same}
use bitfs.Base.Dict.{lookup, set}
use bitfs.Fs.Read.{
  Io, read_range, buffer, copy_bytes, copy_piece, copy_pieces, get_piece_buffers, has_buff,
  have_piece, load_piece, lock, poll_buff, poll_have, prioritise, read_available, request_piece,
  request_pieces, store_alerts, unlock, wait_for_piece_download,
}
use bitfs.Fs.Read.Wait.{Loaded}
use bitfs.Fs.Read.Copy.{piece_data}
use bitfs.Fs.Threads.{
  Range, returned, start_phase, advance, inside, System, update, pick, Reach, start, later, Run,
}
use bitfs.Fs.Threads.Local.{IsProper}
use bitfs.Fs.Threads.Safety.{returned_correct, mutual_exclusion}
use bitfs.Fs.Threads.Ready.{IsSteady}
use bitfs.Fs.Threads.Return.{threads_return}
use bitfs.Fs.Threads.Alone.{Alone}
use bitfs.Fs.Threads.Refine.{read_range-Alone}
use bitfs.Tests.Reads.{no_buffers}
use bitfs.Tests.Samples.{sample, sample_law, sample_content, swarm, serving, start_io}

-- Bytes 2 and 3 of "a/b" for the first call, and bytes 0 and 1 for the others.
abbrev ranges : ℕ → Range
ranges zero = record { index = 0; offset = 2; size = 2; buf = 0 ∷ 0 ∷ 0 ∷ 0 ∷ [] }
ranges (suc i) = record { index = 0; offset = 0; size = 2; buf = 0 ∷ 0 ∷ [] }

ranges-IsProper : (i : ℕ) → IsProper sample (ranges i)
ranges-IsProper zero = record { known = omega arith; fits = omega arith; room = omega arith }
ranges-IsProper (suc i) = record { known = omega arith; fits = omega arith; room = omega arith }

-- The steps of the threads in this order, but for those that cannot be made.
run : List ℕ → System swarm → System swarm
run [] s = s
run (i ∷ order) s = elim (advance sample (ranges i) (s.phase i) s.io) [
  | ok (p, io) ↦ run order (record { io = io; phase = update s.phase i p })
  | fault ↦ s
  | timeout ↦ run order s
]

Outcome-cases {ℓ} :
    {A : Type ℓ} (o : Outcome A) → ((a : A) × (o ≡ ok a)) ⊎ ((o ≡ fault) ⊎ (o ≡ timeout))
Outcome-cases (ok a) = inl (a, refl)
Outcome-cases fault = inr (inl refl)
Outcome-cases timeout = inr (inr refl)

abbrev first_state : System swarm
first_state = record { io = start_io; phase = λ i. start_phase (ranges i) }

run-Reach :
    (order : List ℕ) (s : System swarm)
    → Reach sample ranges start_io s
    → Reach sample ranges start_io (run order s)
unfolding run
run-Reach [] s r = r
run-Reach (i ∷ order) s r = elim (Outcome-cases (advance sample (ranges i) (s.phase i) s.io)) [
  | inl ((p, io), e) ↦ rw (e, run) (run-Reach order _ (later r (pick i e)))
  | inr (inl e) ↦ rw (e, run) r
  | inr (inr e) ↦ rw (e, run) (run-Reach order s r)
]

abbrev turns : ℕ → List ℕ
turns zero = []
turns (suc n) = 0 ∷ 1 ∷ turns n

both_returned : System swarm
both_returned = run (turns 16) first_state

reached : Reach sample ranges start_io both_returned
unfolding both_returned
reached = run-Reach (turns 16) first_state start

returned_correct_example :
    ◌≡◌ {A = ℕ} 2 (ranges 0).size
    × ((102 ∷ 103 ∷ 0 ∷ 0 ∷ []) ≡ splice (ranges 0).buf 0 (bytes sample_content 2 2))
unfolding both_returned run advance have_piece lock insert get_piece_buffers has_buff lookup
    store_alerts set same copy_bytes buffer bytes unlock splice
returned_correct_example =
    returned_correct sample sample_content serving sample_law ranges ranges-IsProper start_io refl
      no_buffers reached 0 2 (102 ∷ 103 ∷ 0 ∷ 0 ∷ []) refl

-- Both threads are on their way, and one of them has the mutex.
halfway : System swarm
halfway = run (turns 10) first_state

halfway_reached : Reach sample ranges start_io halfway
unfolding halfway
halfway_reached = run-Reach (turns 10) first_state start

mutual_exclusion_example :
    Loaded (piece_data sample sample_content) halfway.io.buffers
    × ((i j : ℕ) → inside (halfway.phase i) ≡ true → inside (halfway.phase j) ≡ true → i ≡ j)
mutual_exclusion_example =
    mutual_exclusion sample sample_content serving sample_law ranges ranges-IsProper start_io refl
      no_buffers halfway_reached

-- A poll brings all pieces of the sample, and no call drops a read that is pending.
steady : IsSteady serving
steady = record {
  had_asks = λ s p q h. h;
  had_sets = λ s p k q h. h;
  awaited_asks = λ s p q h. h;
  awaited_sets = λ s p k q h. h;
}

threads_return_example :
    ((i : ℕ) → advance sample (ranges i) (halfway.phase i) halfway.io ≢ fault)
    × ((k : ℕ)
        → (t : System swarm) × Run sample ranges halfway t
          × ((i : ℕ)
              → i < k
              → t.phase i
                ≡ returned (ranges i).size (
                    splice (ranges i).buf 0 (
                      bytes sample_content
                        (sample.file_offset (ranges i).index + (ranges i).offset)
                        (ranges i).size))))
threads_return_example =
    threads_return sample sample_content serving steady sample_law ranges ranges-IsProper start_io
      refl no_buffers halfway_reached

abbrev end_io : Io swarm
end_io = record {
  sess = record { polled = 2; pending = [] };
  buffers = (0, 100 ∷ 101 ∷ 102 ∷ 103 ∷ []) ∷ [];
  locked = false;
}

read_range-Alone_example :
    (n : ℕ) × (pos 2 ≡ pos n)
    × Alone sample
        (ranges 0)
        (start_phase (ranges 0))
        start_io
        (returned n (102 ∷ 103 ∷ 0 ∷ 0 ∷ []))
        end_io
unfolding read_range request_pieces request_piece have_piece prioritise insert lock unlock
    read_available copy_pieces copy_piece wait_for_piece_download poll_have load_piece poll_buff
    has_buff get_piece_buffers store_alerts lookup set same copy_bytes buffer bytes splice
read_range-Alone_example =
    read_range-Alone sample (ranges 0) 2 2 start_io end_io (pos 2) (102 ∷ 103 ∷ 0 ∷ 0 ∷ []) refl
