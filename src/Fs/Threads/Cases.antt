-- ===== src/Fs/Threads/Cases.antt =====
-- The copy of a piece, the unlock, and all steps together.
use bitfs.Base.{
  ℕ, ◌+◌, ◌*◌, ◌<◌, ◌≡◌, refl, sym, ap, ◌∙◌, ◌⊎◌, inl, inr, ok, false, List, arith, length, timeout,
}
use bitfs.Base.Ordered.{nat_ord}
use bitfs.Base.Bytes.{bytes, length-bytes, bytes-append, splice, length-splice, splice-splice}
use bitfs.Torrent.{TorrentInfo, IsLawful}
use bitfs.Session.{Session, IsServing}
use bitfs.Fs.Read.{Io, buffer, unlock}
use bitfs.Fs.Read.Wait.{Loaded, After-refl}
use bitfs.Fs.Read.Load.{buffer-Loaded}
use bitfs.Fs.Read.Copy.{piece_data, copy_bytes-slice}
use bitfs.Fs.Threads.{
  Range, Work, Phase, asking, raising, locking, ahead, reading_ahead, fetching, testing, polling,
  loading, awaiting, saving, unlocking, returned, read_size, next_piece, copied_up_to, advance,
}
use bitfs.Fs.Threads.Local.{IsProper, Copies, Local}
use bitfs.Fs.Threads.Moves.{gives, Stuck, ended, Steps, asking_step, raising_step, next_piece-Local}
use bitfs.Fs.Threads.Holding.{
  locking_step, ahead_step, reading_ahead_step, fetching_step, testing_step, polling_step,
  loading_step, awaiting_step, held,
}

module _ {S : Session} (ti : TorrentInfo) (content : ℕ → ℕ)
    (L : IsServing S (piece_data ti content)) (law : IsLawful ti) (R : Range)
    (proper : IsProper ti R) where
  -- What saving leaves in the buffer.
  saved :
      (w : Work)
      → Copies ti content L R w
      → (o : ℕ) → ti.file_offset R.index + w.curr_offset ≡ o
      → Copies ti content L R (
          copied_up_to ti R w
            (splice w.buf w.read_ptr (bytes content o (read_size ti R w.curr_offset w.remaining))))
  saved w c o at_o =
      let n = read_size ti R w.curr_offset w.remaining in
      let from = ti.file_offset R.index + R.offset in
      let up_to = c.up_to in
      let moved = c.moved in
      let room = proper.room in
      let front : length (bytes content from w.read_ptr) ≡ w.read_ptr =
        length-bytes content from w.read_ptr in
      record {
        up_to = omega arith;
        moved = omega arith;
        copied =
            ap (λ b. splice b w.read_ptr (bytes content o n)) c.copied
            ∙ splice-splice R.buf 0 w.read_ptr (bytes content from w.read_ptr) (bytes content o n)
                (omega arith) (omega arith)
            ∙ ap (splice R.buf 0)
                (bytes-append content from w.read_ptr n o (w.read_ptr + n) (omega arith) refl);
      }

  -- What the step of saving does.
  pub saving_next :
      (w : Work) (s : Io S)
      → Loaded (piece_data ti content) s.buffers
      → Local ti content L R (saving w) s
      → (w' : Work) × (advance ti R (saving w) s ≡ ok (next_piece w', s)) × Copies ti content L R w'
  unfolding advance
  saving_next w s loaded ((wanted, more, c), known) =
      let pr = ti.map_file R.index w.curr_offset w.remaining in
      let n = read_size ti R w.curr_offset w.remaining in
      let o = pr.piece * ti.piece_length + pr.start in
      let up_to = c.up_to in
      let moved = c.moved in
      let room = proper.room in
      let fits = proper.fits in
      let in_file : w.curr_offset < ti.file_size R.index = omega arith in
      let start = law.start_lt R.index w.curr_offset w.remaining proper.known in_file in
      let copied_before = length-bytes content (ti.file_offset R.index + R.offset) w.read_ptr in
      let same_size : length w.buf ≡ length R.buf =
        ap length c.copied ∙ length-splice R.buf 0 _ (omega arith) in
      (
        copied_up_to ti R w (splice w.buf w.read_ptr (bytes content o n)),
        rw
            (copy_bytes-slice ti content (buffer pr.piece s) pr.piece pr.start n w.read_ptr w.buf
              (buffer-Loaded (piece_data ti content) pr.piece s loaded known) (omega arith)
              (law.piece_size_le pr.piece) (omega arith))
            refl,
        saved w c o (sym (law.position R.index w.curr_offset w.remaining proper.known in_file)),
      )

  saving_step :
      (w : Work) (s : Io S)
      → Loaded (piece_data ti content) s.buffers
      → Local ti content L R (saving w) s
      → Steps ti content L law R proper (saving w) s
  saving_step w s loaded h =
      let (w', e, c) = saving_next w s loaded h in
      let (local, in_q) = next_piece-Local ti content L law R proper w' s h.0.0 c in
      held ti content L law R proper (next_piece w') s e (After-refl L s) local refl in_q

  unlocking_step :
      (n : ℕ) (buf : List ℕ) (s : Io S)
      → Local ti content L R (unlocking n buf) s
      → Steps ti content L law R proper (unlocking n buf) s
  unfolding advance unlock
  unlocking_step n buf s h = (
    returned n buf,
    record s { locked = false },
    refl,
    record {
      grows = record { loaded = λ l. l; coming = λ q c. c; known = λ q k. k };
      local = h;
      mutex = gives refl refl refl;
    },
  )

  -- A thread makes its step, or it waits for the mutex, or it has returned.
  pub advance_cases :
      (p : Phase) (s : Io S)
      → Loaded (piece_data ti content) s.buffers
      → Local ti content L R p s
      → ((advance ti R p s ≡ timeout) × Stuck p s) ⊎ Steps ti content L law R proper p s
  unfolding advance
  advance_cases (asking o r required) s l h =
      inr (asking_step ti content L law R proper o r required s h)
  advance_cases (raising calls o r required) s l h =
      inr (raising_step ti content L law R proper calls o r required s h)
  advance_cases (locking required) s l h = locking_step ti content L law R proper required s h
  advance_cases (ahead pieces) s l h = inr (ahead_step ti content L law R proper pieces s h)
  advance_cases (reading_ahead p pieces) s l h =
      inr (reading_ahead_step ti content L law R proper p pieces s h)
  advance_cases (fetching w) s l h = inr (fetching_step ti content L law R proper w s h)
  advance_cases (testing w) s l h = inr (testing_step ti content L law R proper w s h)
  advance_cases (polling w) s l h = inr (polling_step ti content L law R proper w s h)
  advance_cases (loading w) s l h = inr (loading_step ti content L law R proper w s h)
  advance_cases (awaiting w) s l h = inr (awaiting_step ti content L law R proper w s h)
  advance_cases (saving w) s l h = inr (saving_step w s l h)
  advance_cases (unlocking n buf) s l h = inr (unlocking_step n buf s h)
  advance_cases (returned n buf) s l h = inl (refl, ended)
