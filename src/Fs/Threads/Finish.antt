-- ===== src/Fs/Threads/Finish.antt =====
-- A thread that goes on alone returns, from whatever place it stands at.
use bitfs.Base.{ℕ, ◌≡◌, refl, sym, ◌∙◌, ◌⊎◌, inl, inr, true, false, List, arith}
use bitfs.Base.Bytes.{bytes, splice_nil}
use bitfs.Torrent.{TorrentInfo, IsLawful}
use bitfs.Session.{Session, IsServing}
use bitfs.Fs.Read.{Io, lock, request_piece, read_available}
use bitfs.Fs.Read.Walk.{request_piece-After, request_pieces-ends}
use bitfs.Fs.Read.Copy.{piece_data}
use bitfs.Fs.Threads.{
  Range, Work, Phase, asking, raising, locking, ahead, reading_ahead, fetching, testing, polling,
  loading, awaiting, saving, unlocking, returned, next_piece, advance, inside,
}
use bitfs.Fs.Threads.Local.{IsProper}
use bitfs.Fs.Threads.Alone.{
  raised, Alone, stop, goes, Alone-trans, raising-Alone, read_available-Alone,
}
use bitfs.Fs.Threads.Refine.{request_pieces-Alone}
use bitfs.Fs.Threads.Ready.{Ready}
use bitfs.Fs.Threads.Copying.{
  Here, Ends, Alone-Here, before, unlocking_ends, next_piece_ends, saving_ends, loading_ends,
  awaiting_ends, polling_ends, testing_ends, fetching_ends,
}

module _ {S : Session} (ti : TorrentInfo) (content : ℕ → ℕ)
    (L : IsServing S (piece_data ti content)) (law : IsLawful ti) (R : Range)
    (proper : IsProper ti R) where
  abbrev Stands : Phase → Io S → Type 0
  Stands p s = Here ti content L law R proper p s

  abbrev Finishes : Phase → Io S → Type 0
  Finishes p s = Ends ti content L law R proper p s

  ahead_ends : (pieces : List ℕ) (s : Io S) → Stands (ahead pieces) s → Finishes (ahead pieces) s
  unfolding advance bytes
  ahead_ends pieces s h =
      let w0 : Work = record {
        curr_offset = R.offset;
        remaining = R.size;
        read_ptr = 0;
        buf = R.buf;
      } in
      let t = read_available pieces s in
      let a = read_available-Alone ti R pieces s in
      let (l, wanted) = Alone-Here ti content L law R proper a h in
      before ti content L law R proper
        (Alone-trans ti R a (goes {q = next_piece w0} {t = t} refl stop))
        (next_piece_ends ti content L law R proper w0 t l wanted
          (record { up_to = refl; moved = omega arith; copied = sym (splice_nil R.buf 0) }))

  reading_ahead_ends :
      (p : ℕ) (pieces : List ℕ) (s : Io S)
      → Stands (reading_ahead p pieces) s
      → Finishes (reading_ahead p pieces) s
  unfolding advance
  reading_ahead_ends p pieces s h =
      let t : Io S = record s { sess = S.read_piece s.sess p } in
      let a : Alone ti R (reading_ahead p pieces) s (ahead pieces) t = goes refl stop in
      before ti content L law R proper a
        (ahead_ends pieces t (Alone-Here ti content L law R proper a h))

  locking_ends :
      (required : List ℕ) (s : Io S)
      → Stands (locking required) s
      → s.locked ≡ false
      → Finishes (locking required) s
  unfolding advance lock
  locking_ends required s h free =
      let t : Io S = record s { locked = true } in
      let a : Alone ti R (locking required) s (ahead required) t =
        goes {q = ahead required} {t = t} (rw free refl) stop in
      before ti content L law R proper a
        (ahead_ends required t (Alone-Here ti content L law R proper a h))

  asking_ends :
      (o r : ℕ) (required : List ℕ) (s : Io S)
      → Stands (asking o r required) s
      → s.locked ≡ false
      → Finishes (asking o r required) s
  asking_ends o r required s h free =
      let fits = proper.fits in
      let sum = h.1.0 in
      let (required', t, e, after, _) =
        request_pieces-ends L ti (request_piece ti) (request_piece-After L ti) law r R.index o r
          required s proper.known (omega arith) (omega arith) in
      let a = request_pieces-Alone ti R r o r required required' s t e in
      before ti content L law R proper a
        (locking_ends required' t (Alone-Here ti content L law R proper a h) (after.mutex ∙ free))

  raising_ends :
      (calls : List (ℕ × ℕ)) (o r : ℕ) (required : List ℕ) (s : Io S)
      → Stands (raising calls o r required) s
      → s.locked ≡ false
      → Finishes (raising calls o r required) s
  raising_ends calls o r required s h free =
      let t : Io S = record s { sess = raised S calls s.sess } in
      let a = raising-Alone ti R calls o r required s in
      before ti content L law R proper a
        (asking_ends o r required t (Alone-Here ti content L law R proper a h) free)

  -- From every phase, with the mutex free or its own.
  pub finishes :
      (p : Phase) (s : Io S)
      → Stands p s
      → Ready L ti R p s
      → (inside p ≡ true) ⊎ (s.locked ≡ false)
      → Finishes p s
  finishes (asking o r required) s h ready (inr free) = asking_ends o r required s h free
  finishes (asking o r required) s h ready (inl e) = cc
  finishes (raising calls o r required) s h ready (inr free) =
      raising_ends calls o r required s h free
  finishes (raising calls o r required) s h ready (inl e) = cc
  finishes (locking required) s h ready (inr free) = locking_ends required s h free
  finishes (locking required) s h ready (inl e) = cc
  finishes (ahead pieces) s h ready free = ahead_ends pieces s h
  finishes (reading_ahead p pieces) s h ready free = reading_ahead_ends p pieces s h
  finishes (fetching w) s h ready free = fetching_ends ti content L law R proper w s h
  finishes (testing w) s h ready free = testing_ends ti content L law R proper w s h
  finishes (polling w) s h ready free = polling_ends ti content L law R proper w s h
  finishes (loading w) s h ready free = loading_ends ti content L law R proper w s h ready
  finishes (awaiting w) s h ready free = awaiting_ends ti content L law R proper w s h ready
  finishes (saving w) s h ready free = saving_ends ti content L law R proper w s h
  finishes (unlocking n buf) s h ready free = unlocking_ends ti content L law R proper n buf s
  finishes (returned n buf) s h ready free = (n, buf, s, stop)
