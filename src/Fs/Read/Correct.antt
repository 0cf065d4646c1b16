-- ===== src/Fs/Read/Correct.antt =====
-- What a call of read returns.
use bitfs.Base.{
  ℕ, ◌+◌, ◌-◌, min, ◌≤◌, ◌<◌, ◌≡◌, refl, sym, ap, ◌∙◌, true, false, List, [], ◌∷◌, Outcome, ok,
  arith, length,
}
use native.Mathlib.Decide.{dec_lt}
use bitfs.Base.Int.{ℤ, pos, int_max}
use bitfs.Base.Text.{Text, NoNul}
use bitfs.Base.Bytes.{bytes, splice, splice_nil}
use bitfs.Boost.{slash}
use bitfs.Torrent.{TorrentInfo, IsLawful}
use bitfs.Tree.Paths.{IsFile}
use bitfs.Session.{Session, IsServing}
use bitfs.Fs.Attributes.{NoNulPaths, IsFirst, get_file_index_known}
use bitfs.Fs.Read.{
  Io, read_available, unlock, request_piece, wait_for_piece_download, read_range, read_file, read,
}
use bitfs.Fs.Read.Wait.{Loaded, wait_for_piece_download-ends}
use bitfs.Fs.Read.Inside.{read_inside, read_behind, lock_free, buffers-unlock, unlock_free}
use bitfs.Fs.Read.Walk.{
  Covered-mono, request_piece-After, request_pieces-ends, read_available-After,
}
use bitfs.Fs.Read.Copy.{piece_data, copy_pieces-ends}

module _ {S : Session} (ti : TorrentInfo) (content : ℕ → ℕ)
    (L : IsServing S (piece_data ti content)) (law : IsLawful ti) (fuel polls : ℕ)
    (bounded : L.bound ≤ polls) where
  read_range-ends :
      (k offset n : ℕ) (buf : List ℕ) (s : Io S)
      → k < ti.num_files
      → offset + n ≤ ti.file_size k
      → n ≤ fuel
      → n ≤ length buf
      → s.locked ≡ false
      → Loaded (piece_data ti content) s.buffers
      → (t : Io S) × (read_range ti fuel polls k offset n buf s
          ≡ ok (pos n, splice buf 0 (bytes content (ti.file_offset k + offset) n), t))
        × Loaded (piece_data ti content) t.buffers
        × (t.locked ≡ false)
  unfolding read_range
  read_range-ends k offset n buf s b fits enough room free l =
      let (required, s1, e1, a1, c1) =
        request_pieces-ends L ti (request_piece ti) (request_piece-After L ti) law fuel k offset n
          [] s b fits enough in
      let s2 : Io S = record s1 { locked = true } in
      let s3 = read_available required s2 in
      let a3 = read_available-After L required s2 in
      let (t, e4, a4) =
        copy_pieces-ends ti content L law polls bounded wait_for_piece_download
          (λ p s c. wait_for_piece_download-ends L polls p s c bounded) fuel k offset n 0
          (ti.file_offset k + offset) n buf s3 b fits enough (omega arith) refl (omega arith)
          (Covered-mono ti (L.Coming s1.sess) (L.Coming s3.sess) fuel k offset n a3.coming c1)
          (a3.loaded (a1.loaded l)) in
      (
        unlock t,
        rw (e1, lock_free s1 (a1.mutex ∙ free), e4) refl,
        rw (buffers-unlock t) (a4.loaded (a3.loaded (a1.loaded l))),
        unlock_free t,
      )

  -- What read_file returns when the rest of the call does what read promises for a range.
  pub read_file_correct :
      (range : ℕ → ℕ → ℕ → ℕ → ℕ → List ℕ → Io S → Outcome (ℤ × List ℕ × Io S))
      → ((k offset n : ℕ) (buf : List ℕ) (s : Io S)
          → k < ti.num_files
          → offset + n ≤ ti.file_size k
          → n ≤ fuel
          → n ≤ length buf
          → s.locked ≡ false
          → Loaded (piece_data ti content) s.buffers
          → (t : Io S) × (range fuel polls k offset n buf s
              ≡ ok (pos n, splice buf 0 (bytes content (ti.file_offset k + offset) n), t))
            × Loaded (piece_data ti content) t.buffers
            × (t.locked ≡ false))
      → (s : Text) (buf : List ℕ) (_size _offset : ℕ) (io : Io S) → NoNulPaths ti
      → NoNul s
      → IsFile ti s
      → ((k : ℕ) → ti.file_size k ≤ int_max)
      → _size ≤ int_max
      → _size ≤ length buf
      → _size ≤ fuel
      → io.locked ≡ false
      → Loaded (piece_data ti content) io.buffers
      → (k : ℕ) × IsFirst ti s k
        × ((t : Io S) × (read_file ti range fuel polls (slash ∷ s) buf _size _offset io
              ≡ ok (
                pos (min _size (ti.file_size k - _offset)),
                splice buf 0 (
                    bytes content
                      (ti.file_offset k + _offset)
                      (min _size (ti.file_size k - _offset))),
                t,
              ))
            × Loaded (piece_data ti content) t.buffers
            × (t.locked ≡ false))
  unfolding bytes
  read_file_correct range ends s buf _size _offset io clean h f sizes small room enough free l =
      let (k, e, first) = get_file_index_known ti s clean h f in
      let n = min _size (ti.file_size k - _offset) in
      let position = ti.file_offset k + _offset in
      (
        k,
        first,
        elim (dec_lt _offset (ti.file_size k)) [
          | yes inside ↦
              let (t, g, l', free') =
                ends k _offset n buf io first.0 (omega arith) (omega arith) (omega arith) free l in
              (
                t,
                read_inside ti range fuel polls _ k e first.0 buf _size _offset io (sizes k) small
                      inside
                    ∙ g,
                l',
                free',
              )
          | no behind ↦
              let none_left : 0 ≡ n = omega arith in
              let same_buf : buf ≡ splice buf 0 (bytes content position n) =
                sym (splice_nil buf 0)
                ∙ ap (λ m. splice buf 0 (bytes content position m)) none_left in
              (
                io,
                read_behind ti range fuel polls _ k e first.0 buf _size _offset io (sizes k)
                      (omega arith)
                    ∙ ap (λ m. ok (pos m, buf, io)) none_left
                    ∙ ap (λ b. ok (pos n, b, io)) same_buf,
                l,
                free,
              )
        ],
      )

  -- With a session that serves, a lawful torrent whose files' sizes fit int and whose paths have no
  -- NUL, a free mutex, correct buffers, and a caller's buffer and fuel for the size asked for,
  -- read of a file's path ends; it returns the number of bytes asked for, or what is left of
  -- the file (0 behind its end); exactly these bytes of the file stand at the start of the
  -- caller's buffer and the rest of the buffer is as before; the mutex is free again, and
  -- piece_buffer_map still holds correct pieces only.
  pub read_correct :
      (s : Text) (buf : List ℕ) (_size _offset : ℕ) (io : Io S)
      → NoNulPaths ti
      → NoNul s
      → IsFile ti s
      → ((k : ℕ) → ti.file_size k ≤ int_max)
      → _size ≤ int_max
      → _size ≤ length buf
      → _size ≤ fuel
      → io.locked ≡ false
      → Loaded (piece_data ti content) io.buffers
      → (k : ℕ) × IsFirst ti s k
        × ((t : Io S) × (read ti fuel polls (slash ∷ s) buf _size _offset io
              ≡ ok (
                pos (min _size (ti.file_size k - _offset)),
                splice buf 0 (
                    bytes content
                      (ti.file_offset k + _offset)
                      (min _size (ti.file_size k - _offset))),
                t,
              ))
            × Loaded (piece_data ti content) t.buffers
            × (t.locked ≡ false))
  unfolding read
  read_correct = read_file_correct (read_range ti) read_range-ends
