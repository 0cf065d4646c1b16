-- ===== src/Fs/Threads/Copying.antt =====
-- A thread in the second loop of read that goes on alone: it copies the rest of its range and returns.
use bitfs.Base.{
  ℕ, zero, suc, ◌+◌, ◌-◌, ◌≤◌, ◌≡◌, refl, sym, ap, subst, ◌∙◌, inl, inr, false, List, ok, arith,
  length, Bool-cases, ok-injective,
}
use bitfs.Base.Bytes.{length-bytes, length-splice}
use bitfs.Torrent.{TorrentInfo, IsLawful}
use bitfs.Session.{Session, IsServing}
use bitfs.Fs.Read.{Io, have_piece, wait_for_piece_download}
use bitfs.Fs.Read.Wait.{Loaded, poll_have-ends, wait_for_piece_download-ends, have_piece-Had}
use bitfs.Fs.Read.Load.{load_piece-ends, poll_buff-ends}
use bitfs.Fs.Read.Walk.{Covered}
use bitfs.Fs.Read.Copy.{piece_data, copy_pieces-ends}
use bitfs.Fs.Threads.{
  Range, Work, Phase, fetching, testing, polling, loading, awaiting, saving, unlocking, returned,
  read_size, work_piece, next_piece, advance,
}
use bitfs.Fs.Threads.Local.{IsProper, Wanted, Copies, Local}
use bitfs.Fs.Threads.Cases.{advance_cases, saving_next}
use bitfs.Fs.Threads.Alone.{
  Alone, stop, goes, Alone-trans, poll_have-Alone, wait-Alone, poll_buff-Alone, load_piece-Alone,
}
use bitfs.Fs.Threads.Refine.{copy_pieces-Alone}

module _ {S : Session} (ti : TorrentInfo) (content : ℕ → ℕ)
    (L : IsServing S (piece_data ti content)) (law : IsLawful ti) (R : Range)
    (proper : IsProper ti R) where
  -- What holds where a thread stands.
  abbrev pub Here : Phase → Io S → Type 0
  Here p s = Loaded (piece_data ti content) s.buffers × Local ti content L R p s

  step-Here : (p q : Phase) (s t : Io S) → advance ti R p s ≡ ok (q, t) → Here p s → Here q t
  step-Here p q s t e (l, h) = elim (advance_cases ti content L law R proper p s l h) [
    | inl (stuck, _) ↦ cc (stuck, e)
    | inr (q', t', f, m) ↦
        subst (λ (z : Phase × Io S). Here z.0 z.1) (ok-injective (q', t') (q, t) (sym f ∙ e))
          (m.grows.loaded l, m.local)
  ]

  pub Alone-Here : {p q : Phase} {s t : Io S} → Alone ti R p s q t → Here p s → Here q t
  Alone-Here stop h = h
  Alone-Here (goes {p} {q} {r} {s} {t} {u} e a) h = Alone-Here a (step-Here p q s t e h)

  abbrev pub Ends : Phase → Io S → Type 0
  Ends p s = (n : ℕ) × (buf : List ℕ) × (t : Io S) × Alone ti R p s (returned n buf) t

  pub before : {p q : Phase} {s t : Io S} → Alone ti R p s q t → Ends q t → Ends p s
  before a (n, buf, t, b) = (n, buf, t, Alone-trans ti R a b)

  Wanted-Covered :
      (fuel o r : ℕ) (sess : S.State)
      → R.offset ≤ o
      → o + r ≡ R.offset + R.size
      → Wanted ti content L R sess
      → Covered ti (L.Coming sess) fuel R.index o r
  Wanted-Covered fuel o zero sess le e wanted = tt
  Wanted-Covered zero o (suc r) sess le e wanted = tt
  Wanted-Covered (suc fuel) o (suc r) sess le e wanted =
      let n = read_size ti R o (suc r) in
      (
        wanted o (suc r) le (omega arith),
        Wanted-Covered fuel (o + n) (suc r - n) sess (omega arith) (omega arith) wanted,
      )

  pub unlocking_ends : (n : ℕ) (buf : List ℕ) (s : Io S) → Ends (unlocking n buf) s
  unfolding advance
  unlocking_ends n buf s = (n, buf, _, goes refl stop)

  -- The second loop, from whatever piece it is at.
  pub next_piece_ends :
      (w : Work) (s : Io S)
      → Loaded (piece_data ti content) s.buffers
      → Wanted ti content L R s.sess
      → Copies ti content L R w
      → Ends (next_piece w) s
  next_piece_ends w s l wanted c =
      let up_to = c.up_to in
      let moved = c.moved in
      let fits = proper.fits in
      let room = proper.room in
      let o = ti.file_offset R.index + R.offset in
      let copied_before = length-bytes content o w.read_ptr in
      let same_size : length w.buf ≡ length R.buf =
        ap length c.copied ∙ length-splice R.buf 0 _ (omega arith) in
      let (t, e, _) =
        copy_pieces-ends ti content L law L.bound (omega arith) wait_for_piece_download
          (λ p u coming. wait_for_piece_download-ends L L.bound p u coming (omega arith))
          w.remaining R.index w.curr_offset w.remaining w.read_ptr
          (ti.file_offset R.index + w.curr_offset) (w.read_ptr + w.remaining) w.buf s proper.known
          (omega arith) (omega arith) (omega arith) refl refl
          (Wanted-Covered w.remaining w.curr_offset w.remaining s.sess (omega arith) up_to wanted)
          l in
      before
        (copy_pieces-Alone ti R w.remaining L.bound w.curr_offset w.remaining w.read_ptr _ w.buf _ s
          t e)
        (unlocking_ends _ _ t)

  pub saving_ends : (w : Work) (s : Io S) → Here (saving w) s → Ends (saving w) s
  saving_ends w s (l, h) =
      let (w', e, c) = saving_next ti content L law R proper w s l h in
      before (goes {q = next_piece w'} {t = s} e stop) (next_piece_ends w' s l h.0.0 c)

  to_saving :
      {p : Phase} {s t : Io S} (w : Work) → Alone ti R p s (saving w) t → Here p s → Ends p s
  to_saving w a h = before a (saving_ends w _ (Alone-Here a h))

  pub loading_ends :
      (w : Work) (s : Io S)
      → Here (loading w) s
      → L.Had s.sess (work_piece ti R w)
      → Ends (loading w) s
  loading_ends w s h had =
      let (t, e, _, _) = load_piece-ends L L.bound (work_piece ti R w) s had (omega arith) h.0 in
      to_saving w (load_piece-Alone ti R w L.bound s t e) h

  pub awaiting_ends :
      (w : Work) (s : Io S)
      → Here (awaiting w) s
      → L.Awaited s.sess (work_piece ti R w)
      → Ends (awaiting w) s
  awaiting_ends w s h awaited =
      let p = work_piece ti R w in
      let (t, e, _, _) = poll_buff-ends L L.bound p s awaited (L.wait_lt s.sess p) in
      to_saving w (poll_buff-Alone ti R w L.bound false s t e) h

  to_loading :
      {p : Phase} {s : Io S} (w : Work) (t : Io S)
      → Alone ti R p s (loading w) t
      → Here p s
      → L.Had t.sess (work_piece ti R w)
      → Ends p s
  to_loading w t a h had = before a (loading_ends w t (Alone-Here a h) had)

  -- The piece of a thread in the second loop is on its way.
  work-Coming :
      (w : Work) (s : Io S)
      → Local ti content L R (fetching w) s
      → L.Coming s.sess (work_piece ti R w)
  work-Coming w s (wanted, more, c) =
      let up_to = c.up_to in
      let moved = c.moved in wanted w.curr_offset w.remaining (omega arith) (omega arith)

  pub polling_ends : (w : Work) (s : Io S) → Here (polling w) s → Ends (polling w) s
  polling_ends w s h =
      let p = work_piece ti R w in
      let (t, e, _, had) = poll_have-ends L L.bound p s (work-Coming w s h.1) (L.due_lt s.sess p) in
      to_loading w t (poll_have-Alone ti R w L.bound false s t e) h had

  pub testing_ends : (w : Work) (s : Io S) → Here (testing w) s → Ends (testing w) s
  unfolding advance
  testing_ends w s h =
      let p = work_piece ti R w in
      let t = (have_piece p s).1 in
      elim (Bool-cases (have_piece p s).0) [
        | inl b ↦
            to_loading w t (goes {q = loading w} {t = t} (rw b refl) stop) h
              (have_piece-Had L p s b)
        | inr b ↦
            let a : Alone ti R (testing w) s (polling w) t =
              goes {q = polling w} {t = t} (rw b refl) stop in
            before a (polling_ends w t (Alone-Here a h))
      ]

  pub fetching_ends : (w : Work) (s : Io S) → Here (fetching w) s → Ends (fetching w) s
  fetching_ends w s h =
      let (t, e, _, had) =
        wait_for_piece_download-ends L L.bound (work_piece ti R w) s (work-Coming w s h.1)
          (omega arith) in
      to_loading w t (wait-Alone ti R w L.bound s t e) h had
