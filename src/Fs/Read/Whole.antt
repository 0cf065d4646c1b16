-- ===== src/Fs/Read/Whole.antt =====
-- A file that a program reads from its start to its end, call by call.
use bitfs.Base.{
  ℕ, zero, suc, ◌+◌, ◌-◌, false, min, ◌≤◌, ◌<◌, ◌≡◌, refl, ap, ◌∙◌, List, [], ◌∷◌, ◌++◌, Outcome,
  ok, timeout, ◌>>=◌, arith, length, take, subst,
}
use native.Mathlib.Decide.{dec_lt}
use bitfs.Base.Int.{ℤ, pos, negsuc, int_max}
use bitfs.Base.Text.{Text, NoNul}
use bitfs.Base.Bytes.{
  bytes, bytes_at, length-bytes, bytes-append, splice, length-splice, take-append_exact,
}
use bitfs.Boost.{slash}
use bitfs.Torrent.{TorrentInfo, IsLawful}
use bitfs.Tree.Paths.{IsFile}
use bitfs.Session.{Session, IsServing}
use bitfs.Fs.Attributes.{IsFirst-unique, NoNulPaths, IsFirst, get_file_index_known}
use bitfs.Fs.Read.{Io, read}
use bitfs.Fs.Read.Wait.{Loaded}
use bitfs.Fs.Read.Copy.{piece_data}
use bitfs.Fs.Read.Correct.{read_correct}

module _ {S : Session} where
  -- What a call of read has brought, and then the rest; nothing after 0 or an error.
  unfoldable pub kept :
      (ℕ → List ℕ → Io S → Outcome (List ℕ × Io S)) → ℤ × List ℕ × Io S → Outcome (List ℕ × Io S)
  kept go_on (negsuc n, buf, s) = ok ([], s)
  kept go_on (pos zero, buf, s) = ok ([], s)
  kept go_on (pos (suc n), buf, s) =
      go_on (suc n) buf s >>= λ (more, t). ok (take (suc n) buf ++ more, t)

  kept_some :
      (go_on : ℕ → List ℕ → Io S → Outcome (List ℕ × Io S)) (n : ℕ) (buf : List ℕ) (s : Io S)
      → 0 < n
      → kept go_on (pos n, buf, s) ≡ (go_on n buf s >>= λ (more, t). ok (take n buf ++ more, t))
  unfolding kept
  kept_some go_on zero buf s h = absurd (omega arith)
  kept_some go_on (suc n) buf s h = refl

  -- A program that reads into the same buffer, from an offset on, until a call returns 0 or an error,
  -- and keeps what each call brings.
  unfoldable pub read_on :
      TorrentInfo → ℕ → ℕ → ℕ → Text → List ℕ → ℕ → Io S → Outcome (List ℕ × Io S)
  unfolding kept
  read_on ti fuel polls zero path buf offset s = timeout
  read_on ti fuel polls (suc rounds) path buf offset s =
      read ti fuel polls path buf (length buf) offset s
      >>= kept (λ n buf' t. read_on ti fuel polls rounds path buf' (offset + n) t)

minus_zero : (n : ℕ) → n - 0 ≡ n
minus_zero n = omega arith

take-splice : (buf bs : List ℕ) (n : ℕ) → length bs ≡ n → take n (splice buf 0 bs) ≡ bs
unfolding splice
take-splice buf bs n e = take-append_exact n bs _ e

module _ {S : Session} (ti : TorrentInfo) (content : ℕ → ℕ)
    (L : IsServing S (piece_data ti content)) (law : IsLawful ti) (fuel polls : ℕ)
    (bounded : L.bound ≤ polls) (clean : NoNulPaths ti) (sizes : (k : ℕ) → ti.file_size k ≤ int_max)
    (s : Text) (no_nul : NoNul s) (f : IsFile ti s) (k : ℕ) (first : IsFirst ti s k) where
  from_offset :
      (rounds offset : ℕ) (buf : List ℕ) (io : Io S)
      → 0 < length buf
      → length buf ≤ int_max
      → length buf ≤ fuel
      → offset ≤ ti.file_size k
      → ti.file_size k - offset < rounds
      → io.locked ≡ false
      → Loaded (piece_data ti content) io.buffers
      → (t : Io S) × (read_on ti fuel polls rounds (slash ∷ s) buf offset io
          ≡ ok (bytes content (ti.file_offset k + offset) (ti.file_size k - offset), t))
        × Loaded (piece_data ti content) t.buffers
        × (t.locked ≡ false)
  unfolding read_on kept bytes
  from_offset zero offset buf io some_room small enough inside more free l = absurd (omega arith)
  from_offset (suc rounds) offset buf io some_room small enough inside more free l =
      let size = ti.file_size k in
      let o = ti.file_offset k + offset in
      let n = min (length buf) (size - offset) in
      let part = bytes content o n in
      let go_on = λ (m : ℕ) (b : List ℕ) (u : Io S).
        read_on ti fuel polls rounds (slash ∷ s) b (offset + m) u in
      let (j, first', (t, e, l', free')) =
        read_correct ti content L law fuel polls bounded s buf (length buf) offset io clean no_nul f
          sizes small (omega arith) enough free l in
      let here : read ti fuel polls (slash ∷ s) buf (length buf) offset io
          ≡ ok (pos n, splice buf 0 part, t) =
        subst
          (λ i.
            read ti fuel polls (slash ∷ s) buf (length buf) offset io
            ≡ ok (
              pos (min (length buf) (ti.file_size i - offset)),
              splice buf 0 (
                  bytes content (ti.file_offset i + offset)
                    (min (length buf) (ti.file_size i - offset))),
              t,
            ))
          (IsFirst-unique ti s j k first' first) e in
      elim (dec_lt offset size) [
        | no at_end ↦
            let nothing : n ≡ 0 = omega arith in
            let rest : size - offset ≡ 0 = omega arith in
            (t, rw (here, nothing, rest) refl, l', free')
        | yes before_end ↦
            let length-part = length-bytes content o n in
            let same_size : length (splice buf 0 part) ≡ length buf =
              length-splice buf 0 part (omega arith) in
            let (u, g, l2, free2) =
              from_offset rounds (offset + n) (splice buf 0 part) t (omega arith) (omega arith)
                (omega arith) (omega arith) (omega arith) free' l' in
            let joined : take n (splice buf 0 part)
                  ++ bytes content (ti.file_offset k + (offset + n)) (size - (offset + n))
                ≡ bytes content o (size - offset) =
              ap (λ a. a ++ bytes content (ti.file_offset k + (offset + n)) (size - (offset + n)))
                (take-splice buf part n length-part)
              ∙ bytes-append content o n (size - (offset + n)) (ti.file_offset k + (offset + n))
                  (size - offset) (omega arith) (omega arith) in
            (
              u,
              ap (λ r. r >>= kept go_on) here
                  ∙ kept_some go_on n (splice buf 0 part) t (omega arith)
                  ∙ ap (λ r. r >>= λ (rest, v). ok (take n (splice buf 0 part) ++ rest, v)) g
                  ∙ ap (λ a. ok (a, u)) joined,
              l2,
              free2,
            )
      ]

module _ {S : Session} (ti : TorrentInfo) (content : ℕ → ℕ)
    (L : IsServing S (piece_data ti content)) (law : IsLawful ti) (fuel polls : ℕ)
    (bounded : L.bound ≤ polls) where
  -- With a session that serves, a lawful torrent whose files' sizes fit int and whose paths have no
  -- NUL, a free mutex and correct buffers: a program that reads a file's path from the start on into
  -- a buffer of at least one byte, of a size that fits int and has fuel, until a call returns 0, with
  -- more rounds than the file has bytes, ends, and has got exactly the bytes of the file; the mutex
  -- is free again, and piece_buffer_map still holds correct pieces only.
  pub read_whole :
      (s : Text) (rounds : ℕ) (buf : List ℕ) (io : Io S)
      → NoNulPaths ti
      → NoNul s
      → IsFile ti s
      → ((k : ℕ) → ti.file_size k ≤ int_max)
      → ((k : ℕ) → ti.file_size k < rounds)
      → 0 < length buf
      → length buf ≤ int_max
      → length buf ≤ fuel
      → io.locked ≡ false
      → Loaded (piece_data ti content) io.buffers
      → (k : ℕ) × IsFirst ti s k
        × ((t : Io S) × (read_on ti fuel polls rounds (slash ∷ s) buf 0 io
              ≡ ok (bytes content (ti.file_offset k) (ti.file_size k), t))
            × Loaded (piece_data ti content) t.buffers
            × (t.locked ≡ false))
  read_whole s rounds buf io clean no_nul f sizes more some_room small enough free l =
      let (k, _, first) = get_file_index_known ti s clean no_nul f in
      let (t, e, l', free') =
        from_offset ti content L law fuel polls bounded clean sizes s no_nul f k first rounds 0 buf
          io some_room small enough (omega arith) (omega (arith, more k)) free l in
      (
        k,
        first,
        (
          t,
          e
              ∙ ap (λ n. ok (n, t))
                  (bytes_at content (ti.file_offset k + 0) (ti.file_offset k) _ (omega arith))
              ∙ ap (λ n. ok (bytes content (ti.file_offset k) n, t)) (minus_zero (ti.file_size k)),
          l',
          free',
        ),
      )
