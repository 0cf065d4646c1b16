-- ===== src/Fs/Threads/Refine.antt =====
-- What read of Fs/Read returns, the steps of its thread reach.
use bitfs.Base.{
  ℕ, zero, suc, ◌+◌, ◌-◌, ◌≡◌, refl, sym, ap, subst, inl, inr, false, List, [], ok, arith, ltb,
  ◌==◌, Bool-cases, bind_ok, ok-injective,
}
use bitfs.Base.Int.{ℤ, pos}
use bitfs.Base.Ordered.{insert, nat_ord}
use bitfs.Torrent.{TorrentInfo}
use bitfs.Session.{Session}
use bitfs.Fs.Read.{
  Io, have_piece, lock, unlock, read_available, request_piece, request_pieces,
  wait_for_piece_download, copy_piece, copy_pieces, read_range,
}
use bitfs.Fs.Threads.{
  Range, Work, asking, raising, locking, ahead, unlocking, returned, start_phase, read_size,
  next_piece, raises, advance,
}
use bitfs.Fs.Threads.Alone.{
  raised-raises, Alone, stop, goes, Alone-trans, raising-Alone, read_available-Alone,
  copy_piece-Alone,
}

module _ {S : Session} (ti : TorrentInfo) (R : Range) where
  pub request_pieces-Alone :
      (fuel o r : ℕ) (required required' : List ℕ) (s t : Io S)
      → request_pieces ti (request_piece ti) fuel R.index o r required s ≡ ok (required', t)
      → Alone ti R (asking o r required) s (locking required') t
  unfolding request_pieces request_piece advance
  request_pieces-Alone fuel o zero required required' s t e = goes refl (
      subst (λ (z : List ℕ × Io S). Alone ti R (locking required) s (locking z.0) z.1)
        (ok-injective (required, s) (required', t) e) stop)
  request_pieces-Alone zero o (suc r) required required' s t e = cc
  request_pieces-Alone (suc fuel) o (suc r) required required' s t e =
      let pr = ti.map_file R.index o (suc r) in
      let n = read_size ti R o (suc r) in
      let u = (have_piece pr.piece s).1 in
      elim (Bool-cases (ltb (ti.piece_size pr.piece) pr.start)) [
        | inl a ↦ cc (rw a at e)
        | inr a ↦ elim (Bool-cases (have_piece pr.piece s).0) [
          | inl b ↦ goes {q = asking (o + n) (suc r - n) required} {t = u} (rw (a, b) refl) (
              request_pieces-Alone fuel (o + n) (suc r - n) required required' u t (rw (a, b) at e))
          | inr b ↦
              let more = insert pr.piece required in
              goes {q = raising (raises ti pr.piece) (o + n) (suc r - n) more} {t = u}
                (rw (a, b) refl)
                (Alone-trans ti R
                  (raising-Alone ti R (raises ti pr.piece) (o + n) (suc r - n) more u)
                  (request_pieces-Alone fuel (o + n) (suc r - n) more required' _ t
                    (rw (raised-raises S ti pr.piece u.sess) (rw (a, b) at e))))
        ]
      ]

  pub copy_pieces-Alone :
      (fuel polls o r ptr n : ℕ) (buf buf' : List ℕ) (s t : Io S)
      → copy_pieces ti wait_for_piece_download fuel polls R.index o r ptr buf s ≡ ok (n, buf', t)
      → Alone ti R
          (next_piece (record { curr_offset = o; remaining = r; read_ptr = ptr; buf = buf }))
          s
          (unlocking n buf')
          t
  unfolding copy_pieces next_piece
  copy_pieces-Alone fuel polls o zero ptr n buf buf' s t e =
      subst (λ (z : ℕ × List ℕ × Io S). Alone ti R (unlocking ptr buf) s (unlocking z.0 z.1) z.2)
        (ok-injective (ptr, buf, s) (n, buf', t) e) stop
  copy_pieces-Alone zero polls o (suc r) ptr n buf buf' s t e = cc
  copy_pieces-Alone (suc fuel) polls o (suc r) ptr n buf buf' s t e =
      let w : Work = record { curr_offset = o; remaining = suc r; read_ptr = ptr; buf = buf } in
      let more : (suc r == 0) ≡ false = ground arith in
      let pr = ti.map_file R.index o (suc r) in
      let ((buf1, u), e1, f) =
        bind_ok
          (copy_piece ti wait_for_piece_download polls pr.piece (ti.piece_size pr.piece) pr.start
            (read_size ti R o (suc r)) ptr buf s)
          _ (n, buf', t) e in
      rw more (
        Alone-trans ti R (copy_piece-Alone ti R w polls s u buf1 e1)
          (copy_pieces-Alone fuel polls _ _ _ n buf1 buf' u t f))

  -- Whenever read, from its first loop on, returns a value as it stands in Fs/Read, the steps of its
  -- thread, while the others make none, return the same value, the same buffer and the same state.
  pub read_range-Alone :
      (fuel polls : ℕ) (s t : Io S) (r : ℤ) (buf' : List ℕ)
      → read_range ti fuel polls R.index R.offset R.size R.buf s ≡ ok (r, buf', t)
      → (n : ℕ) × (r ≡ pos n) × Alone ti R (start_phase R) s (returned n buf') t
  unfolding read_range advance
  read_range-Alone fuel polls s t r buf' e =
      let ((required, s1), e1, f1) =
        bind_ok (request_pieces ti (request_piece ti) fuel R.index R.offset R.size [] s) _
          (r, buf', t) e in
      let (s2, e2, f2) = bind_ok (lock s1) _ (r, buf', t) f1 in
      let ((n, buf1, s3), e3, f3) =
        bind_ok
          (copy_pieces ti wait_for_piece_download fuel polls R.index R.offset R.size 0 R.buf
            (read_available required s2))
          _ (r, buf', t) f2 in
      let same = ok-injective (pos n, buf1, unlock s3) (r, buf', t) f3 in
      (
        n,
        sym (ap (λ z. z.0) same),
        Alone-trans ti R (request_pieces-Alone fuel R.offset R.size [] required s s1 e1) (
            goes {q = ahead required} {t = s2} (rw e2 refl) (
              Alone-trans ti R (read_available-Alone ti R required s2) (
                goes refl (
                  Alone-trans ti R
                    (copy_pieces-Alone fuel polls R.offset R.size 0 n R.buf buf1 _ s3 e3)
                    (goes {q = returned n buf1} {t = unlock s3} refl (
                      subst
                        (λ (z : ℤ × List ℕ × Io S).
                          Alone ti R (returned n buf1) (unlock s3) (returned n z.1) z.2)
                        same stop)))))),
      )
