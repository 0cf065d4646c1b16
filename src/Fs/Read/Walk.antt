-- ===== src/Fs/Read/Walk.antt =====
-- The first loop of read: it ends, and afterwards every piece of the request is on its way.
use bitfs.Base.{
  ℕ, zero, suc, ◌+◌, ◌-◌, min, ◌≤◌, ◌<◌, ◌≡◌, refl, inl, inr, true, false, List, [], ◌∷◌, ok, arith,
  Bool-cases, ltb, le→ltb, if◌then◌else◌, Bool,
}
use native.Mathlib.Nat.{le_of_lt}
use bitfs.Torrent.{TorrentInfo, IsLawful}
use bitfs.Session.{Session, sets, reads, IsServing}
use bitfs.Fs.Read.{Io, have_piece, prioritise, request_piece, request_pieces, read_available}
use bitfs.Fs.Read.Wait.{After, After-refl, After-trans, After-Call, have_piece-After}

module _ (ti : TorrentInfo) where
  -- P holds of every piece that a walk over the request meets.
  abbrev pub Covered : (ℕ → Type 0) → ℕ → ℕ → ℕ → ℕ → Type 0
  Covered P fuel i offset zero = Unit
  Covered P zero i offset (suc remaining) = Unit
  Covered P (suc fuel) i offset (suc remaining) =
      let pr = ti.map_file i offset (suc remaining) in
      let read_size = min (ti.piece_size pr.piece - pr.start) (suc remaining) in
      P pr.piece × Covered P fuel i (offset + read_size) (suc remaining - read_size)

  pub Covered-mono :
      (P Q : ℕ → Type 0) (fuel i offset remaining : ℕ)
      → ((p : ℕ) → P p → Q p)
      → Covered P fuel i offset remaining
      → Covered Q fuel i offset remaining
  Covered-mono P Q fuel i offset zero f c = tt
  Covered-mono P Q zero i offset (suc remaining) f c = tt
  Covered-mono P Q (suc fuel) i offset (suc remaining) f c =
      (f _ c.0, Covered-mono P Q fuel i _ _ f c.1)

module _ {S : Session} {piece_data : ℕ → List ℕ} (L : IsServing S piece_data)
    (ti : TorrentInfo) where
  abbrev Keeps : S.State → S.State → Type 0
  Keeps a b = (q : ℕ) → L.Coming a q → L.Coming b q

  if_sets :
      (b : Bool) (a : S.State) (p k : ℕ) → 0 < k → Keeps a (if b then S.piece_priority a p k else a)
  if_sets true a p k h q c = L.Coming_kept a _ (sets a p k h) q c
  if_sets false a p k h q c = c

  prioritise-Coming :
      (p : ℕ) (a : S.State) → L.Coming (prioritise S ti p a) p × Keeps a (prioritise S ti p a)
  unfolding prioritise
  prioritise-Coming p a = (
    later p (L.Coming_of_priority a p 7 (omega arith)),
    λ q c. later q (L.Coming_kept a _ (sets a p 7 (omega arith)) q c),
  )
    where
      later : Keeps (S.piece_priority a p 7) (prioritise S ti p a)
      later q c =
          if_sets (ltb (p + 1) ti.num_pieces) _ (p + 1) 7 (omega arith) q
            (if_sets (ltb 1 p) _ (p - 1) 1 (omega arith) q c)

  pub request_piece-After :
      (p : ℕ) (required : List ℕ) (s : Io S)
      → After L s (request_piece ti p required s).1
        × L.Coming (request_piece ti p required s).1.sess p
  unfolding request_piece have_piece
  request_piece-After p required s = elim (Bool-cases (have_piece p s).0) [
    | inl e ↦ rw (e, request_piece) (have_piece-After L p s, L.Coming_of_answer s.sess p e)
    | inr e ↦
        rw (e, request_piece)
          (
            record {
              loaded = λ l. l;
              coming = λ q c.
                  (prioritise-Coming p (have_piece p s).1.sess).1 q
                    ((have_piece-After L p s).coming q c);
              known = λ q h. h;
              mutex = refl;
            },
            (prioritise-Coming p (have_piece p s).1.sess).0,
          )
  ]

  pub request_pieces-ends :
      (ask : ℕ → List ℕ → Io S → List ℕ × Io S)
      → ((p : ℕ) (required : List ℕ) (s : Io S)
          → After L s (ask p required s).1 × L.Coming (ask p required s).1.sess p)
      → IsLawful ti
      → (fuel i offset remaining : ℕ) (required : List ℕ) (s : Io S) → i < ti.num_files
      → offset + remaining ≤ ti.file_size i
      → remaining ≤ fuel
      → (required' : List ℕ) × (t : Io S) × (request_pieces ti ask fuel i offset remaining required
            s
          ≡ ok (required', t))
        × After L s t
        × Covered ti (L.Coming t.sess) fuel i offset remaining
  unfolding request_pieces
  request_pieces-ends ask asked law fuel i offset zero required s h fits enough =
      (required, s, refl, After-refl L s, tt)
  request_pieces-ends ask asked law zero i offset (suc remaining) required s h fits enough =
      absurd (omega arith)
  request_pieces-ends ask asked law (suc fuel) i offset (suc remaining) required s h fits enough =
      let pr = ti.map_file i offset (suc remaining) in
      let read_size = min (ti.piece_size pr.piece - pr.start) (suc remaining) in
      let start : pr.start < ti.piece_size pr.piece =
        law.start_lt i offset (suc remaining) h (omega arith) in
      let once = asked pr.piece required s in
      let (required', s') = ask pr.piece required s in
      let (result, t, e, a, c) =
        request_pieces-ends ask asked law fuel i (offset + read_size) (suc remaining - read_size)
          required' s' h (omega arith) (omega arith) in
      (
        result,
        t,
        rw (le→ltb _ _ (le_of_lt start)) e,
        After-trans L s s' t once.0 a,
        (a.coming pr.piece once.1, c),
      )

module _ {S : Session} {piece_data : ℕ → List ℕ} (L : IsServing S piece_data) where
  read_if_there :
      (b : Bool) (p : ℕ) (s : Io S)
      → After L s (if b then record s { sess = S.read_piece s.sess p } else s)
  read_if_there true p s = After-Call L s (reads s.sess p)
  read_if_there false p s = After-refl L s

  -- Reading ahead what has arrived keeps the pieces on their way.
  pub read_available-After : (pieces : List ℕ) (s : Io S) → After L s (read_available pieces s)
  unfolding read_available
  read_available-After [] s = After-refl L s
  read_available-After (p ∷ pieces) s =
      let (have, s') = have_piece p s in
      After-trans L s s' _ (have_piece-After L p s)
        (After-trans L s' _ _ (read_if_there have p s') (read_available-After pieces _))
