-- ===== src/Tests/Reads.antt =====
-- Reads of the sample.
use bitfs.Base.{ℕ, ◌+◌, ◌-◌, min, ◌≡◌, refl, true, false, List, [], ◌∷◌, ok, fault, arith}
use bitfs.Base.Int.{pos}
use bitfs.Base.Dict.{lookup}
use bitfs.Base.Bytes.{bytes, splice}
use bitfs.Boost.{slash}
use bitfs.Torrent.{TorrentInfo}
use bitfs.Session.{Session, read_piece_alert}
use bitfs.Fs.Attributes.{IsFirst}
use bitfs.Fs.Read.{
  Io, get_piece_buffers, have_piece, wait_for_piece_download, copy_piece, prioritise, read,
}
use bitfs.Fs.Read.Wait.{Loaded}
use bitfs.Fs.Read.Copy.{piece_data}
use bitfs.Fs.Read.Whole.{read_on, read_whole}
use bitfs.Fs.Read.Correct.{read_correct}
use bitfs.Fs.Read.Limits.{read_large_file, copy_piece_failed}
use bitfs.Fs.Read.Priority.{recorder, prioritise_next}
use bitfs.Fs.Init.{clear_priorities, clear_priorities_lem}
use bitfs.Tests.Samples.{
  sample, sample_law, sample_clean, sample_content, swarm, serving, start_io, file_ab,
}

abbrev six_zeros : List ℕ
six_zeros = 0 ∷ 0 ∷ 0 ∷ 0 ∷ 0 ∷ 0 ∷ []

pub no_buffers : Loaded (piece_data sample sample_content) []
unfolding lookup
no_buffers p b e = cc

-- Bytes 2 to 4 of "a/b" lie in two pieces.
read_correct_example :
    (k : ℕ) × IsFirst sample file_ab k
    × ((t : Io swarm) × (read sample 6 2 (slash ∷ file_ab) six_zeros 6 2 start_io
          ≡ ok (
            pos (min 6 (5 - 2)),
            splice six_zeros 0 (bytes sample_content (sample.file_offset k + 2) (min 6 (5 - 2))),
            t,
          ))
        × Loaded (piece_data sample sample_content) t.buffers
        × (t.locked ≡ false))
read_correct_example =
    read_correct sample sample_content serving sample_law 6 2 (omega arith) file_ab six_zeros 6 2
      start_io sample_clean (omega arith) (0, omega arith, refl) (λ k. omega arith) (omega arith)
      (omega arith) (omega arith) refl no_buffers

-- The file "a/b" in three calls, into a buffer of two bytes.
read_whole_example :
    (k : ℕ) × IsFirst sample file_ab k
    × ((t : Io swarm) × (read_on sample 2 2 6 (slash ∷ file_ab) (7 ∷ 8 ∷ []) 0 start_io
          ≡ ok (bytes sample_content (sample.file_offset k) (sample.file_size k), t))
        × Loaded (piece_data sample sample_content) t.buffers
        × (t.locked ≡ false))
read_whole_example =
    read_whole sample sample_content serving sample_law 2 2 (omega arith) file_ab 6 (7 ∷ 8 ∷ [])
      start_io sample_clean (omega arith) (0, omega arith, refl) (λ k. omega arith)
      (λ k. omega arith) (omega arith) (omega arith) (omega arith) refl no_buffers

abbrev large : TorrentInfo
large = record sample { file_size = λ i. 0x8000_0000 }

read_large_file_example :
    read large 6 2 (slash ∷ file_ab) six_zeros 6 0 start_io ≡ ok (pos 0, six_zeros, start_io)
read_large_file_example =
    read_large_file large 6 2 file_ab 0 six_zeros 6 0 start_io sample_clean (omega arith)
      (omega arith, refl, λ j l. absurd (omega arith)) (omega arith) (omega arith)

-- A disk that fails: piece 1 is there, and its read is answered without bytes.
abbrev failing : Session
failing = record {
  State = Unit {0};
  have_piece = λ s p. (true, s);
  pop_alerts = λ s. (read_piece_alert 1 [] ∷ [], s);
  read_piece = λ s p. s;
  piece_priority = λ s p k. s;
}

abbrev failing_io : Io failing
failing_io = record { sess = tt; buffers = []; locked = false }

copy_piece_failed_example :
    copy_piece sample wait_for_piece_download 2 1 4 0 4 0 six_zeros (get_piece_buffers failing_io)
    ≡ fault
unfolding have_piece
copy_piece_failed_example =
    copy_piece_failed sample 2 1 0 4 0 six_zeros failing_io refl refl (omega arith)

abbrev untouched : ℕ → ℕ
untouched q = 4

prioritise_next_example :
    prioritise recorder sample 2 (prioritise recorder sample 1 untouched) 1 ≡ 1
prioritise_next_example = prioritise_next sample 1 untouched (omega arith)

abbrev long_torrent : TorrentInfo
long_torrent = record sample { num_pieces = 20 }

clear_priorities_lem_example : clear_priorities recorder long_torrent untouched 10 ≡ 0
clear_priorities_lem_example = clear_priorities_lem long_torrent untouched 10
