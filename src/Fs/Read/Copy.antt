-- ===== src/Fs/Read/Copy.antt =====
-- The second loop of read: it ends, and the bytes of the file stand in the caller's buffer.
use bitfs.Base.{
  ℕ, zero, suc, ◌+◌, ◌-◌, ◌*◌, min, ◌≤◌, ◌<◌, ◌≡◌, refl, ap, ◌∙◌, List, ◌++◌, Outcome, ok, arith,
  length, le→ltb,
}
use bitfs.Base.Bytes.{
  bytes, length-bytes, bytes_at, bytes-append, slice-bytes, splice, take_all, length-splice,
  splice-splice, splice_nil,
}
use bitfs.Torrent.{TorrentInfo, IsLawful}
use bitfs.Session.{Session, IsServing}
use bitfs.Fs.Read.{Io, buffer, copy_bytes, copy_piece, copy_pieces}
use bitfs.Fs.Read.Wait.{Loaded, After, After-refl, After-trans}
use bitfs.Fs.Read.Load.{load_piece-ends}
use bitfs.Fs.Read.Walk.{Covered, Covered-mono}

module _ (ti : TorrentInfo) (content : ℕ → ℕ) where
  -- A piece of the torrent, whose payload has byte `content o` at position o.
  abbrev pub piece_data : ℕ → List ℕ
  piece_data p = bytes content (p * ti.piece_length) (ti.piece_size p)

  pub copy_bytes-slice :
      (b : List ℕ) (p start n ptr : ℕ) (buf : List ℕ)
      → b ≡ piece_data p
      → start + n ≤ ti.piece_size p
      → ti.piece_size p ≤ ti.piece_length
      → ptr + n ≤ length buf
      → copy_bytes ti b (ti.piece_size p) start n ptr buf
        ≡ ok (splice buf ptr (bytes content (p * ti.piece_length + start) n))
  unfolding copy_bytes
  copy_bytes-slice b p start n ptr buf e inside small room =
      let full : length b ≡ ti.piece_size p = ap length e ∙ length-bytes content _ _ in
      let there : start ≤ ti.piece_size p = omega arith in
      let long : ti.piece_size p ≤ length b = omega arith in
      rw
        (
          le→ltb (length b) (ti.piece_size p) long,
          le→ltb _ _ small,
          le→ltb _ _ there,
          le→ltb _ _ room,
          take_all (ti.piece_size p) b full,
          e,
        )
        (ap (λ bs. ok (splice buf ptr bs))
          (slice-bytes content _ start n (ti.piece_size p) _ inside refl))

module _ {S : Session} (ti : TorrentInfo) (content : ℕ → ℕ)
    (L : IsServing S (piece_data ti content)) (law : IsLawful ti) (polls : ℕ)
    (bounded : L.bound ≤ polls) (wait : ℕ → ℕ → Io S → Outcome (Io S))
    (waits : (p : ℕ) (s : Io S)
      → L.Coming s.sess p
      → (t : Io S) × (wait polls p s ≡ ok t) × After L s t × L.Had t.sess p) where
  copy_piece-ends :
      (p start n ptr : ℕ) (buf : List ℕ) (s : Io S)
      → L.Coming s.sess p
      → Loaded (piece_data ti content) s.buffers
      → start + n ≤ ti.piece_size p
      → ptr + n ≤ length buf
      → (t : Io S) × (copy_piece ti wait polls p (ti.piece_size p) start n ptr buf s
          ≡ ok (splice buf ptr (bytes content (p * ti.piece_length + start) n), t))
        × After L s t
  unfolding copy_piece
  copy_piece-ends p start n ptr buf s coming loaded inside room =
      let (s1, e1, a1, had) = waits p s coming in
      let (s2, e2, a2, f) = load_piece-ends L polls p s1 had bounded (a1.loaded loaded) in
      (
        s2,
        rw
            (
              e1,
              e2,
              copy_bytes-slice ti content (buffer p s2) p start n ptr buf f inside
                  (law.piece_size_le p) room,
            )
            refl,
        After-trans L s s1 s2 a1 a2,
      )

  pub copy_pieces-ends :
      (fuel i offset remaining ptr o end : ℕ) (buf : List ℕ) (s : Io S)
      → i < ti.num_files
      → offset + remaining ≤ ti.file_size i
      → remaining ≤ fuel
      → ptr + remaining ≤ length buf
      → ti.file_offset i + offset ≡ o
      → ptr + remaining ≡ end
      → Covered ti (L.Coming s.sess) fuel i offset remaining
      → Loaded (piece_data ti content) s.buffers
      → (t : Io S) × (copy_pieces ti wait fuel polls i offset remaining ptr buf s
          ≡ ok (end, splice buf ptr (bytes content o remaining), t))
        × After L s t
  unfolding copy_pieces bytes
  copy_pieces-ends fuel i offset zero ptr o end buf s h fits enough room at_o at_end c l =
      let e : ptr ≡ end = omega arith in (s, rw (e, splice_nil buf end) refl, After-refl L s)
  copy_pieces-ends zero i offset (suc remaining) ptr o end buf s h fits enough room at_o at_end c
        l =
      absurd (omega arith)
  copy_pieces-ends (suc fuel) i offset (suc remaining) ptr o end buf s h fits enough room at_o
        at_end c l =
      let pr = ti.map_file i offset (suc remaining) in
      let read_size = min (ti.piece_size pr.piece - pr.start) (suc remaining) in
      let start_lt : pr.start < ti.piece_size pr.piece =
        law.start_lt i offset (suc remaining) h (omega arith) in
      let here : pr.piece * ti.piece_length + pr.start ≡ o =
        law.position i offset (suc remaining) h (omega arith) ∙ at_o in
      let part = bytes content (pr.piece * ti.piece_length + pr.start) read_size in
      let size : length part ≡ read_size = length-bytes content _ read_size in
      let buf' = splice buf ptr part in
      let size' : length buf' ≡ length buf = length-splice buf ptr part (omega arith) in
      let (s', e, a) =
        copy_piece-ends pr.piece pr.start read_size ptr buf s c.0 l (omega arith) (omega arith) in
      let (t, f, b) =
        copy_pieces-ends fuel i (offset + read_size) (suc remaining - read_size) (ptr + read_size)
          (o + read_size) end buf' s' h (omega arith) (omega arith) (omega arith) (omega arith)
          (omega arith)
          (Covered-mono ti (L.Coming s.sess) (L.Coming s'.sess) fuel i _ _ a.coming c.1)
          (a.loaded l) in
      let joined : splice buf' (ptr + read_size)
            (bytes content (o + read_size) (suc remaining - read_size))
          ≡ splice buf ptr (bytes content o (suc remaining)) =
        splice-splice buf ptr (ptr + read_size) part _ (omega arith) (omega arith)
        ∙ ap (splice buf ptr) (
            ap (λ xs. xs ++ bytes content (o + read_size) (suc remaining - read_size))
              (bytes_at content _ o read_size here)
            ∙ bytes-append content o read_size (suc remaining - read_size) (o + read_size)
                (suc remaining) refl (omega arith)) in
      (t, rw e f ∙ ap (λ xs. ok (end, xs, t)) joined, After-trans L s s' t a b)
