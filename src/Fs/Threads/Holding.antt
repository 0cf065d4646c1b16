-- ===== src/Fs/Threads/Holding.antt =====
-- The steps of a thread that holds the mutex, or takes it.
use bitfs.Base.{
  ℕ, ◌≡◌, refl, sym, ◌∙◌, ◌⊎◌, inl, inr, true, List, [], ◌∷◌, arith, Bool-cases, ok, timeout,
}
use bitfs.Base.Ordered.{nat_ord}
use bitfs.Base.Bytes.{bytes, splice_nil}
use bitfs.Torrent.{TorrentInfo, IsLawful}
use bitfs.Session.{Session, IsServing, reads}
use bitfs.Fs.Read.{Io, have_piece, get_piece_buffers, has_buff, lock}
use bitfs.Fs.Read.Wait.{After, After-Call, After-refl, have_piece-After, get_piece_buffers-After}
use bitfs.Fs.Read.Load.{has_buff-known}
use bitfs.Fs.Read.Copy.{piece_data}
use bitfs.Fs.Threads.{
  Range, Work, Phase, locking, ahead, reading_ahead, fetching, testing, polling, loading, awaiting,
  saving, work_piece, next_piece, advance, inside,
}
use bitfs.Fs.Threads.Local.{IsProper, Grows-of_After, Local, Wanted-Grows}
use bitfs.Fs.Threads.Moves.{keeps, takes, Stuck, waits, Steps, next_piece-Local}

module _ {S : Session} (ti : TorrentInfo) (content : ℕ → ℕ)
    (L : IsServing S (piece_data ti content)) (law : IsLawful ti) (R : Range)
    (proper : IsProper ti R) where
  abbrev pub StepsTo : Phase → Io S → Type 0
  StepsTo p s = Steps ti content L law R proper p s

  -- A step between lock and unlock.
  pub held :
      {p : Phase} {s : Io S} (q : Phase) (t : Io S)
      → advance ti R p s ≡ ok (q, t)
      → After L s t
      → Local ti content L R q t
      → inside p ≡ true
      → inside q ≡ true
      → StepsTo p s
  held {p} {s} q t e a local in_p in_q = (
    q,
    t,
    e,
    record {
      grows = Grows-of_After ti content L s t a;
      local = local;
      mutex = keeps (in_q ∙ sym in_p) a.mutex;
    },
  )

  pub locking_step :
      (required : List ℕ) (s : Io S)
      → Local ti content L R (locking required) s
      → ((advance ti R (locking required) s ≡ timeout) × Stuck (locking required) s)
        ⊎ StepsTo (locking required) s
  unfolding advance lock
  locking_step required s wanted = elim (Bool-cases s.locked) [
    | inl b ↦ inl (rw b refl, waits b)
    | inr b ↦ inr (
      ahead required,
      record s { locked = true },
      rw b refl,
      record {
        grows = record { loaded = λ l. l; coming = λ q c. c; known = λ q k. k };
        local = wanted;
        mutex = takes refl refl b refl;
      },
    )
  ]

  pub ahead_step :
      (pieces : List ℕ) (s : Io S)
      → Local ti content L R (ahead pieces) s
      → StepsTo (ahead pieces) s
  unfolding advance bytes
  ahead_step [] s wanted =
      let w : Work = record {
        curr_offset = R.offset;
        remaining = R.size;
        read_ptr = 0;
        buf = R.buf;
      } in
      let (local, in_q) =
        next_piece-Local ti content L law R proper w s wanted
          (record { up_to = refl; moved = omega arith; copied = sym (splice_nil R.buf 0) }) in
      held (next_piece w) s refl (After-refl L s) local refl in_q
  ahead_step (p ∷ pieces) s wanted =
      let t = (have_piece p s).1 in
      let a = have_piece-After L p s in
      let wanted' = Wanted-Grows ti content L R s t (Grows-of_After ti content L s t a) wanted in
      elim (Bool-cases (have_piece p s).0) [
        | inl b ↦ held (reading_ahead p pieces) t (rw b refl) a wanted' refl refl
        | inr b ↦ held (ahead pieces) t (rw b refl) a wanted' refl refl
      ]

  pub reading_ahead_step :
      (p : ℕ) (pieces : List ℕ) (s : Io S)
      → Local ti content L R (reading_ahead p pieces) s
      → StepsTo (reading_ahead p pieces) s
  unfolding advance
  reading_ahead_step p pieces s wanted =
      let t : Io S = record s { sess = S.read_piece s.sess p } in
      let a : After L s t = After-Call L s (reads s.sess p) in
      held (ahead pieces) t refl a
        (Wanted-Grows ti content L R s t (Grows-of_After ti content L s t a) wanted) refl refl

  module _ (w : Work) (s t : Io S) (a : After L s t) (h : Local ti content L R (fetching w) s) where
    working : Local ti content L R (fetching w) t
    working =
        let (wanted, more, c) = h in
        (Wanted-Grows ti content L R s t (Grows-of_After ti content L s t a) wanted, more, c)

  pub fetching_step :
      (w : Work) (s : Io S) → Local ti content L R (fetching w) s → StepsTo (fetching w) s
  unfolding advance
  fetching_step w s h =
      let a = have_piece-After L (work_piece ti R w) s in
      elim (Bool-cases (have_piece (work_piece ti R w) s).0) [
        | inl b ↦
            held (loading w) (have_piece (work_piece ti R w) s).1 (rw b refl) a (working w s _ a h)
              refl refl
        | inr b ↦
            held (testing w) (have_piece (work_piece ti R w) s).1 (rw b refl) a (working w s _ a h)
              refl refl
      ]

  pub testing_step :
      (w : Work) (s : Io S) → Local ti content L R (testing w) s → StepsTo (testing w) s
  unfolding advance
  testing_step w s h =
      let a = have_piece-After L (work_piece ti R w) s in
      elim (Bool-cases (have_piece (work_piece ti R w) s).0) [
        | inl b ↦
            held (loading w) (have_piece (work_piece ti R w) s).1 (rw b refl) a (working w s _ a h)
              refl refl
        | inr b ↦
            held (polling w) (have_piece (work_piece ti R w) s).1 (rw b refl) a (working w s _ a h)
              refl refl
      ]

  pub polling_step :
      (w : Work) (s : Io S) → Local ti content L R (polling w) s → StepsTo (polling w) s
  unfolding advance
  polling_step w s h =
      let a = get_piece_buffers-After L s in
      held (testing w) (get_piece_buffers s) refl a (working w s _ a h) refl refl

  pub loading_step :
      (w : Work) (s : Io S) → Local ti content L R (loading w) s → StepsTo (loading w) s
  unfolding advance
  loading_step w s h =
      let p = work_piece ti R w in
      let t : Io S = record s { sess = S.read_piece s.sess p } in
      let a : After L s t = After-Call L s (reads s.sess p) in
      elim (Bool-cases (has_buff p s)) [
        | inl b ↦ held (saving w) s (rw b refl) (After-refl L s) (h, has_buff-known p s b) refl refl
        | inr b ↦ held (awaiting w) t (rw b refl) a (working w s t a h) refl refl
      ]

  pub awaiting_step :
      (w : Work) (s : Io S) → Local ti content L R (awaiting w) s → StepsTo (awaiting w) s
  unfolding advance
  awaiting_step w s h =
      let p = work_piece ti R w in
      let t = get_piece_buffers s in
      let a = get_piece_buffers-After L s in
      elim (Bool-cases (has_buff p t)) [
        | inl b ↦
            held (saving w) t (rw b refl) a (working w s t a h, has_buff-known p t b) refl refl
        | inr b ↦ held (awaiting w) t (rw b refl) a (working w s t a h) refl refl
      ]
