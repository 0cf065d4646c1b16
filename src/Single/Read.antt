-- ===== src/Single/Read.antt =====
-- bitfs_read of bitFS.cpp.
use bitfs.Base.{
  ℕ, ◌+◌, ◌-◌, ◌*◌, min, ◌≤◌, ◌<◌, ◌≡◌, refl, Bool, true, false, List, [], ◌∷◌, ok, arith, length,
  ltb, if◌then◌else◌,
}
use bitfs.Base.Int.{pos, int_max}
use bitfs.Base.Text.{Text, NoNul}
use bitfs.Base.Bytes.{bytes, splice}
use bitfs.Boost.{slash}
use bitfs.Torrent.{TorrentInfo, IsLawful}
use bitfs.Tree.Paths.{IsFile}
use bitfs.Session.{Session, IsServing}
use bitfs.Fs.Attributes.{NoNulPaths, IsFirst}
use bitfs.Fs.Read.{Io, unlock}
use bitfs.Fs.Read.Wait.{Loaded, After, After-refl, After-trans}
use bitfs.Fs.Read.Walk.{request_pieces-ends}
use bitfs.Fs.Read.Copy.{piece_data, copy_pieces-ends}
use bitfs.Fs.Read.Inside.{lock_free, buffers-unlock, unlock_free}
use bitfs.Fs.Read.Correct.{read_file_correct}
use bitfs.Single.{
  counted, raise_priority, bitfs_wait, bitfs_request, limit_download, bitfs_range, bitfs_read,
}
use bitfs.Single.Wait.{
  counted-IsServing, raise_priority-After, raise_priority-Coming, bitfs_wait-ends,
}

module _ {S : Session} (ti : TorrentInfo) (content : ℕ → ℕ)
    (L : IsServing S (piece_data ti content)) (law : IsLawful ti) (fuel polls : ℕ)
    (bounded : L.bound ≤ polls) (set_download_limit : S.State → ℕ → S.State)
    (limit_kept : (s : S.State) (k q : ℕ)
      → L.Coming s q
      → L.Coming (set_download_limit s k) q) where
  abbrev N : IsServing (counted S) (piece_data ti content)
  N = counted-IsServing L

  limit_download-After :
      (k : ℕ) (s : Io (counted S)) → After N s (limit_download S ti set_download_limit k s)
  unfolding limit_download
  limit_download-After k s = record {
    loaded = λ l. l;
    coming = λ q. limit_kept s.sess.1 k q;
    known = λ q h. h;
    mutex = refl;
  }

  bitfs_request-After :
      (p : ℕ) (required : List ℕ) (s : Io (counted S))
      → After N s (bitfs_request S ti p required s).1
        × N.Coming (bitfs_request S ti p required s).1.sess p
  unfolding bitfs_request
  bitfs_request-After p required s =
      let s1 = raise_priority S p s in
      let next = next-After (ltb (p + 1) ti.num_pieces) (p + 1) s1 in
      (
        After-trans N s s1 _ (raise_priority-After L p s) next,
        next.coming p (raise_priority-Coming L p s),
      )
    where
      next-After :
          (b : Bool) (q : ℕ) (u : Io (counted S))
          → After N u (if b then raise_priority S q u else u)
      next-After true q u = raise_priority-After L q u
      next-After false q u = After-refl N u

  bitfs_range-ends :
      (k offset n : ℕ) (buf : List ℕ) (s : Io (counted S))
      → k < ti.num_files
      → offset + n ≤ ti.file_size k
      → n ≤ fuel
      → n ≤ length buf
      → s.locked ≡ false
      → Loaded (piece_data ti content) s.buffers
      → (t : Io (counted S)) × (bitfs_range S ti set_download_limit fuel polls k offset n buf s
          ≡ ok (pos n, splice buf 0 (bytes content (ti.file_offset k + offset) n), t))
        × Loaded (piece_data ti content) t.buffers
        × (t.locked ≡ false)
  unfolding bitfs_range
  bitfs_range-ends k offset n buf s b fits enough room free l =
      let s1 : Io (counted S) = record s { locked = true } in
      let s2 = limit_download S ti set_download_limit (1024 * 1024) s1 in
      let a2 = limit_download-After (1024 * 1024) s1 in
      let (required, s3, e3, a3, c3) =
        request_pieces-ends N ti (bitfs_request S ti) bitfs_request-After law fuel k offset n [] s2
          b fits enough in
      let (t, e4, a4) =
        copy_pieces-ends ti content N law polls bounded (bitfs_wait S) (λ p u c. wait-ends p u) fuel
          k offset n 0 (ti.file_offset k + offset) n buf s3 b fits enough (omega arith) refl
          (omega arith) c3 (a3.loaded (a2.loaded l)) in
      let end = limit_download S ti set_download_limit 1 t in
      (
        unlock end,
        rw (lock_free s free, e3, e4) refl,
        rw (buffers-unlock end)
            ((limit_download-After 1 t).loaded (a4.loaded (a3.loaded (a2.loaded l)))),
        unlock_free end,
      )
    where
      wait-ends :
          (p : ℕ) (u : Io (counted S))
          → (t : Io (counted S)) × (bitfs_wait S polls p u ≡ ok t) × After N u t × N.Had t.sess p
      wait-ends p u = let (t, e, a, had, _) = bitfs_wait-ends L polls p u bounded in (t, e, a, had)

  -- With a session that serves, also under any download limit, a lawful torrent whose files' sizes
  -- fit int and whose paths have no NUL, a free mutex, correct buffers, and a caller's buffer and
  -- fuel for the size asked for, bitfs_read of a file's path ends; it returns the number of bytes
  -- asked for, or what is left of the file; exactly these bytes stand at the start of the
  -- caller's buffer; the mutex is free again, and piece_buffer_map holds correct pieces only.
  pub bitfs_read_correct :
      (s : Text) (buf : List ℕ) (_size _offset : ℕ) (io : Io (counted S))
      → NoNulPaths ti
      → NoNul s
      → IsFile ti s
      → ((k : ℕ) → ti.file_size k ≤ int_max)
      → _size ≤ int_max
      → _size ≤ length buf
      → _size ≤ fuel
      → io.locked ≡ false
      → Loaded (piece_data ti content) io.buffers
      → (k : ℕ) × IsFirst ti s k
        × ((t : Io (counted S)) × (bitfs_read S ti set_download_limit fuel polls
                (slash ∷ s)
                buf
                _size
                _offset
                io
              ≡ ok (
                pos (min _size (ti.file_size k - _offset)),
                splice buf 0 (
                    bytes content
                      (ti.file_offset k + _offset)
                      (min _size (ti.file_size k - _offset))),
                t,
              ))
            × Loaded (piece_data ti content) t.buffers
            × (t.locked ≡ false))
  unfolding bitfs_read
  bitfs_read_correct =
      read_file_correct ti content (counted-IsServing L) law fuel polls bounded
        (bitfs_range S ti set_download_limit) bitfs_range-ends
