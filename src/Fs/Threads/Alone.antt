-- ===== src/Fs/Threads/Alone.antt =====
-- The steps of one thread alone are those of read as it stands in Fs/Read.
use bitfs.Base.{
  ℕ, zero, suc, ◌+◌, ◌≡◌, refl, subst, inl, inr, Bool, true, false, List, [], ◌∷◌, ok, ltb,
  if◌then◌else◌, Bool-cases, bind_ok, ok-injective,
}
use bitfs.Torrent.{TorrentInfo}
use bitfs.Session.{Session}
use bitfs.Fs.Read.{
  Io, have_piece, has_buff, buffer, copy_bytes, prioritise, poll_have, wait_for_piece_download,
  poll_buff, load_piece, read_available, copy_piece,
}
use bitfs.Fs.Threads.{
  Range, Work, Phase, asking, raising, ahead, reading_ahead, fetching, testing, polling, loading,
  awaiting, saving, read_size, work_piece, next_piece, copied_up_to, raises, advance,
}

pub raised : (S : Session) → List (ℕ × ℕ) → S.State → S.State
raised S [] sess = sess
raised S ((p, k) ∷ calls) sess = raised S calls (S.piece_priority sess p k)

pub raised-raises :
    (S : Session) (ti : TorrentInfo) (p : ℕ) (sess : S.State)
    → raised S (raises ti p) sess ≡ prioritise S ti p sess
unfolding raised raises prioritise
raised-raises S ti p sess = elim (Bool-cases (ltb 1 p)) [
  | inl b ↦ elim (Bool-cases (ltb (p + 1) ti.num_pieces)) [
    | inl c ↦ rw (b, c) refl
    | inr c ↦ rw (b, c) refl
  ]
  | inr b ↦ elim (Bool-cases (ltb (p + 1) ti.num_pieces)) [
    | inl c ↦ rw (b, c) refl
    | inr c ↦ rw (b, c) refl
  ]
]

module _ {S : Session} (ti : TorrentInfo) (R : Range) where
  -- Steps of one thread while the others make none.
  pub data Alone : Phase → Io S → Phase → Io S → Type 0 where
    stop : {p : Phase} {s : Io S} → Alone p s p s
    goes :
        {p q r : Phase} {s t u : Io S}
        → advance ti R p s ≡ ok (q, t)
        → Alone q t r u
        → Alone p s r u

  pub Alone-trans : {p q r : Phase} {s t u : Io S} → Alone p s q t → Alone q t r u → Alone p s r u
  Alone-trans stop b = b
  Alone-trans (goes e a) b = goes e (Alone-trans a b)

  pub raising-Alone :
      (calls : List (ℕ × ℕ)) (o r : ℕ) (required : List ℕ) (s : Io S)
      → Alone
          (raising calls o r required)
          s
          (asking o r required)
          (record s { sess = raised S calls s.sess })
  unfolding raised advance
  raising-Alone [] o r required s = goes refl stop
  raising-Alone ((p, k) ∷ calls) o r required s =
      goes refl (raising-Alone calls o r required (record s { sess = S.piece_priority s.sess p k }))

  pub read_available-Alone :
      (pieces : List ℕ) (s : Io S) → Alone (ahead pieces) s (ahead []) (read_available pieces s)
  unfolding advance read_available
  read_available-Alone [] s = stop
  read_available-Alone (p ∷ pieces) s =
      let t = (have_piece p s).1 in
      elim (Bool-cases (have_piece p s).0) [
        | inl b ↦ goes {q = reading_ahead p pieces} {t = t} (rw b refl) (
            goes refl
              (rw b (read_available-Alone pieces (record t { sess = S.read_piece t.sess p }))))
        | inr b ↦ goes {q = ahead pieces} {t = t} (rw b refl) (rw b (read_available-Alone pieces t))
      ]

  pub poll_have-Alone :
      (w : Work) (fuel : ℕ) (have : Bool) (s t : Io S)
      → poll_have fuel (work_piece ti R w) have s ≡ ok t
      → Alone (if have then loading w else polling w) s (loading w) t
  unfolding advance poll_have
  poll_have-Alone w fuel true s t e =
      subst (λ u. Alone (loading w) s (loading w) u) (ok-injective s t e) stop
  poll_have-Alone w zero false s t e = cc
  poll_have-Alone w (suc fuel) false s t e = goes refl (goes refl (poll_have-Alone w fuel _ _ t e))

  pub wait-Alone :
      (w : Work) (fuel : ℕ) (s t : Io S)
      → wait_for_piece_download fuel (work_piece ti R w) s ≡ ok t
      → Alone (fetching w) s (loading w) t
  unfolding advance wait_for_piece_download
  wait-Alone w fuel s t e =
      let u = (have_piece (work_piece ti R w) s).1 in
      elim (Bool-cases (have_piece (work_piece ti R w) s).0) [
        | inl b ↦
            goes {q = loading w} {t = u} (rw b refl)
              (subst (λ v. Alone (loading w) u (loading w) v) (ok-injective u t (rw b at e)) stop)
        | inr b ↦
            goes {q = testing w} {t = u} (rw b refl)
              (goes refl (poll_have-Alone w fuel _ _ t (rw b at e)))
      ]

  pub poll_buff-Alone :
      (w : Work) (fuel : ℕ) (has : Bool) (s t : Io S)
      → poll_buff fuel (work_piece ti R w) has s ≡ ok t
      → Alone (if has then saving w else awaiting w) s (saving w) t
  unfolding advance poll_buff
  poll_buff-Alone w fuel true s t e =
      subst (λ u. Alone (saving w) s (saving w) u) (ok-injective s t e) stop
  poll_buff-Alone w zero false s t e = cc
  poll_buff-Alone w (suc fuel) false s t e = goes refl (poll_buff-Alone w fuel _ _ t e)

  pub load_piece-Alone :
      (w : Work) (fuel : ℕ) (s t : Io S)
      → load_piece fuel (work_piece ti R w) s ≡ ok t
      → Alone (loading w) s (saving w) t
  unfolding advance load_piece
  load_piece-Alone w fuel s t e =
      let p = work_piece ti R w in
      let u : Io S = record s { sess = S.read_piece s.sess p } in
      elim (Bool-cases (has_buff p s)) [
        | inl b ↦
            goes {q = saving w} {t = s} (rw b refl) (poll_buff-Alone w fuel true s t (rw b at e))
        | inr b ↦
            goes {q = awaiting w} {t = u} (rw b refl) (poll_buff-Alone w fuel false u t (rw b at e))
      ]

  -- One round of the second loop.
  pub copy_piece-Alone :
      (w : Work) (polls : ℕ) (s t : Io S) (buf : List ℕ)
      → copy_piece ti wait_for_piece_download polls
          (work_piece ti R w)
          (ti.piece_size (work_piece ti R w))
          (ti.map_file R.index w.curr_offset w.remaining).start
          (read_size ti R w.curr_offset w.remaining)
          w.read_ptr
          w.buf
          s
        ≡ ok (buf, t)
      → Alone (fetching w) s (next_piece (copied_up_to ti R w buf)) t
  unfolding advance copy_piece
  copy_piece-Alone w polls s t buf e =
      let (s1, e1, f1) =
        bind_ok (wait_for_piece_download polls (work_piece ti R w) s) _ (buf, t) e in
      let (s2, e2, f2) = bind_ok (load_piece polls (work_piece ti R w) s1) _ (buf, t) f1 in
      let (buf', e3, f3) =
        bind_ok
          (copy_bytes ti (buffer (work_piece ti R w) s2) (ti.piece_size (work_piece ti R w))
            (ti.map_file R.index w.curr_offset w.remaining).start
            (read_size ti R w.curr_offset w.remaining) w.read_ptr w.buf)
          _ (buf, t) f2 in
      let same = ok-injective (buf', s2) (buf, t) f3 in
      Alone-trans (wait-Alone w polls s s1 e1) (
        Alone-trans (load_piece-Alone w polls s1 s2 e2) (
          goes {q = next_piece (copied_up_to ti R w buf')} {t = s2} (rw e3 refl) (
            subst
              (λ (z : List ℕ × Io S).
                Alone (next_piece (copied_up_to ti R w buf')) s2
                  (next_piece (copied_up_to ti R w z.0)) z.1)
              same stop)))
