-- ===== src/Fs/Threads/Ready.antt =====
-- What the session owes to a thread that waits, kept by the steps of all threads.
use bitfs.Base.{
  ℕ, zero, suc, ◌≡◌, inl, inr, false, List, [], ◌∷◌, Outcome, ok, fault, timeout, ◌>>=◌, ltb, ◌==◌,
  Bool-cases,
}
use bitfs.Base.Ordered.{nat_ord}
use bitfs.Torrent.{TorrentInfo}
use bitfs.Session.{Session, IsServing}
use bitfs.Fs.Read.{Io, have_piece, get_piece_buffers, has_buff, lock}
use bitfs.Fs.Read.Wait.{store_alerts-known, have_piece-Had}
use bitfs.Fs.Read.Load.{has_buff-missing}
use bitfs.Fs.Threads.{
  Range, Work, Phase, asking, raising, locking, ahead, reading_ahead, fetching, testing, polling,
  loading, awaiting, saving, unlocking, returned, work_piece, next_piece, copied_up_to, advance,
}

-- What one thread waits for stays so when other threads ask for pieces and set priorities: a piece
-- that is there stays, and a read that is on its way stays on its way.
pub record IsSteady {S : Session} {piece_data : ℕ → List ℕ} (L : IsServing S piece_data)
    : Type 0 where
  pub had_asks : (s : S.State) (p q : ℕ) → L.Had s q → L.Had (S.have_piece s p).1 q
  pub had_sets : (s : S.State) (p k q : ℕ) → L.Had s q → L.Had (S.piece_priority s p k) q
  pub awaited_asks : (s : S.State) (p q : ℕ) → L.Awaited s q → L.Awaited (S.have_piece s p).1 q
  pub awaited_sets :
      (s : S.State) (p k q : ℕ) → L.Awaited s q → L.Awaited (S.piece_priority s p k) q

module _ {S : Session} {piece_data : ℕ → List ℕ} (L : IsServing S piece_data) (ti : TorrentInfo)
    (R : Range) where
  -- A thread that goes on to load a piece has it, and one that waits for its buffer has read it.
  abbrev pub Ready : Phase → Io S → Type 0
  Ready (loading w) s = L.Had s.sess (work_piece ti R w)
  Ready (awaiting w) s = L.Awaited s.sess (work_piece ti R w)
  Ready (asking o r required) s = Unit
  Ready (raising calls o r required) s = Unit
  Ready (locking required) s = Unit
  Ready (ahead pieces) s = Unit
  Ready (reading_ahead p pieces) s = Unit
  Ready (fetching w) s = Unit
  Ready (testing w) s = Unit
  Ready (polling w) s = Unit
  Ready (saving w) s = Unit
  Ready (unlocking n buf) s = Unit
  Ready (returned n buf) s = Unit

  abbrev pub ReadyAfter : Outcome (Phase × Io S) → Type 0
  ReadyAfter (ok (q, t)) = Ready q t
  ReadyAfter fault = Unit
  ReadyAfter timeout = Unit

  next_piece-Ready : (w : Work) (s : Io S) → Ready (next_piece w) s
  unfolding next_piece
  next_piece-Ready w s = elim (Bool-cases (w.remaining == 0)) [
    | inl b ↦ rw (b, next_piece) tt
    | inr b ↦ rw (b, next_piece) tt
  ]

  save-ReadyAfter :
      (w : Work) (s : Io S) (m : Outcome (List ℕ))
      → ReadyAfter (m >>= λ buf'. ok (next_piece (copied_up_to ti R w buf'), s))
  save-ReadyAfter w s (ok buf') = next_piece-Ready (copied_up_to ti R w buf') s
  save-ReadyAfter w s fault = tt
  save-ReadyAfter w s timeout = tt

  -- A poll that does not bring the piece leaves its read on its way.
  still-Awaited :
      (p : ℕ) (s : Io S)
      → L.Awaited s.sess p
      → has_buff p (get_piece_buffers s) ≡ false
      → L.Awaited (get_piece_buffers s).sess p
  unfolding get_piece_buffers
  still-Awaited p s w e = elim (L.answered s.sess p w) [
    | inl b ↦
        absurd
          (store_alerts-known p _ s.buffers (inr b) (has_buff-missing p (get_piece_buffers s) e))
    | inr (w', _) ↦ w'
  ]

  -- The steps of the thread itself.
  pub advance-Ready : (p : Phase) (s : Io S) → Ready p s → ReadyAfter (advance ti R p s)
  unfolding advance lock
  advance-Ready (asking o zero required) s h = tt
  advance-Ready (asking o (suc r) required) s h =
      let pr = ti.map_file R.index o (suc r) in
      elim (Bool-cases (ltb (ti.piece_size pr.piece) pr.start)) [
        | inl a ↦ rw a tt
        | inr a ↦ elim (Bool-cases (have_piece pr.piece s).0) [
          | inl b ↦ rw (a, b) tt
          | inr b ↦ rw (a, b) tt
        ]
      ]
  advance-Ready (raising [] o r required) s h = tt
  advance-Ready (raising ((p, k) ∷ calls) o r required) s h = tt
  advance-Ready (locking required) s h = elim (Bool-cases s.locked) [
    | inl b ↦ rw b tt
    | inr b ↦ rw b tt
  ]
  advance-Ready (ahead []) s h = next_piece-Ready _ s
  advance-Ready (ahead (p ∷ pieces)) s h = elim (Bool-cases (have_piece p s).0) [
    | inl b ↦ rw b tt
    | inr b ↦ rw b tt
  ]
  advance-Ready (reading_ahead p pieces) s h = tt
  advance-Ready (fetching w) s h = elim (Bool-cases (have_piece (work_piece ti R w) s).0) [
    | inl b ↦ rw b (have_piece-Had L (work_piece ti R w) s b)
    | inr b ↦ rw b tt
  ]
  advance-Ready (testing w) s h = elim (Bool-cases (have_piece (work_piece ti R w) s).0) [
    | inl b ↦ rw b (have_piece-Had L (work_piece ti R w) s b)
    | inr b ↦ rw b tt
  ]
  advance-Ready (polling w) s h = tt
  advance-Ready (loading w) s h = elim (Bool-cases (has_buff (work_piece ti R w) s)) [
    | inl b ↦ rw b tt
    | inr b ↦ rw b (L.Awaited_of_read s.sess (work_piece ti R w) h)
  ]
  advance-Ready (awaiting w) s h =
      elim (Bool-cases (has_buff (work_piece ti R w) (get_piece_buffers s))) [
        | inl b ↦ rw b tt
        | inr b ↦ rw b (still-Awaited (work_piece ti R w) s h b)
      ]
  advance-Ready (saving w) s h = save-ReadyAfter w s _
  advance-Ready (unlocking n buf) s h = tt
  advance-Ready (returned n buf) s h = tt
