-- ===== src/Fs/Threads/Local.antt =====
-- What holds of a thread in each phase of read, whatever the others do.
use bitfs.Base.{
  ℕ, ◌+◌, ◌-◌, ◌*◌, ◌≤◌, ◌<◌, ◌≡◌, sym, ◌≢◌, ◌⊎◌, inl, inr, List, [], ◌∷◌, none, arith, length,
}
use native.Mathlib.Decide.{dec_lt}
use native.Mathlib.Nat.{mul-le-mul_right}
use bitfs.Base.Ordered.{nat_ord}
use bitfs.Base.Dict.{lookup}
use bitfs.Base.Bytes.{bytes, splice}
use bitfs.Torrent.{TorrentInfo, IsLawful}
use bitfs.Session.{Session, IsServing}
use bitfs.Fs.Read.{Io}
use bitfs.Fs.Read.Wait.{Loaded, After}
use bitfs.Fs.Read.Copy.{piece_data}
use bitfs.Fs.Threads.{
  Range, Work, Phase, asking, raising, locking, ahead, reading_ahead, fetching, testing, polling,
  loading, awaiting, saving, unlocking, returned, piece_at, work_piece,
}

quotient_le : (p q l a b : ℕ) → p * l + a ≡ q * l + b → b < l → p ≤ q
quotient_le p q l a b e h = elim (dec_lt q p) [
  | yes k ↦ absurd (omega (arith, mul-le-mul_right l k))
  | no k ↦ omega arith
]

quotient_unique : (p q l a b : ℕ) → p * l + a ≡ q * l + b → a < l → b < l → p ≡ q
quotient_unique p q l a b e g h =
    let le = quotient_le p q l a b e h in let ge = quotient_le q p l b a (sym e) g in omega arith

-- A call inside its file, with room for what it asks.
pub record IsProper (ti : TorrentInfo) (R : Range) : Type 0 where
  pub known : R.index < ti.num_files
  pub fits : R.offset + R.size ≤ ti.file_size R.index
  pub room : R.size ≤ length R.buf

-- The next call of piece_priority is for this piece.
abbrev pub Next : List (ℕ × ℕ) → ℕ → Type 0
Next [] p = ⊥
Next ((q, k) ∷ calls) p = q ≡ p

abbrev pub Positive : List (ℕ × ℕ) → Type 0
Positive [] = Unit
Positive ((q, k) ∷ calls) = (0 < k) × Positive calls

module _ (ti : TorrentInfo) (law : IsLawful ti) where
  -- Two offsets of a file whose bytes lie in one piece.
  pub same_piece :
      (i o x m n : ℕ)
      → i < ti.num_files
      → o < ti.file_size i
      → x < ti.file_size i
      → o ≤ x
      → (ti.map_file i o m).start + (x - o) < ti.piece_size (ti.map_file i o m).piece
      → (ti.map_file i o m).piece ≡ (ti.map_file i x n).piece
  same_piece i o x m n known o_in x_in le near =
      quotient_unique _ _ ti.piece_length ((ti.map_file i o m).start + (x - o))
        (ti.map_file i x n).start
        (omega (arith, law.position i o m known o_in, law.position i x n known x_in))
        (omega (arith, law.piece_size_le (ti.map_file i o m).piece))
        (omega (arith, law.start_lt i x n known x_in, law.piece_size_le (ti.map_file i x n).piece))

module _ {S : Session} (ti : TorrentInfo) (content : ℕ → ℕ)
    (L : IsServing S (piece_data ti content)) where
  -- What the steps of any thread may change.
  pub record Grows (s t : Io S) : Type 0 where
    pub loaded : Loaded (piece_data ti content) s.buffers → Loaded (piece_data ti content) t.buffers
    pub coming : (q : ℕ) → L.Coming s.sess q → L.Coming t.sess q
    pub known : (q : ℕ) → lookup q s.buffers ≢ none → lookup q t.buffers ≢ none

  pub Grows-of_After : (s t : Io S) → After L s t → Grows s t
  Grows-of_After s t a = record { loaded = a.loaded; coming = a.coming; known = a.known }

  module _ (R : Range) where
    -- The pieces up to an offset are on their way, but for one that is asked for next.
    abbrev pub Asked : List (ℕ × ℕ) → ℕ → S.State → Type 0
    Asked calls o sess =
        (x n : ℕ)
        → R.offset ≤ x
        → x < o
        → L.Coming sess (piece_at ti R x n) ⊎ Next calls (piece_at ti R x n)

    abbrev pub Wanted : S.State → Type 0
    Wanted sess =
        (x n : ℕ) → R.offset ≤ x → x < R.offset + R.size → L.Coming sess (piece_at ti R x n)

    -- The buffer with so many bytes of the file at its start.
    abbrev pub filled : ℕ → List ℕ
    filled n = splice R.buf 0 (bytes content (ti.file_offset R.index + R.offset) n)

    pub record Copies (w : Work) : Type 0 where
      pub up_to : w.curr_offset + w.remaining ≡ R.offset + R.size
      pub moved : w.curr_offset ≡ R.offset + w.read_ptr
      pub copied : w.buf ≡ filled w.read_ptr

    abbrev pub Working : Work → Io S → Type 0
    Working w s = Wanted s.sess × (0 < w.remaining) × Copies w

    abbrev pub Local : Phase → Io S → Type 0
    Local (asking o r required) s = (o + r ≡ R.offset + R.size) × (R.offset ≤ o) × Asked [] o s.sess
    Local (raising calls o r required) s =
        (o + r ≡ R.offset + R.size) × (R.offset ≤ o) × Positive calls × Asked calls o s.sess
    Local (locking required) s = Wanted s.sess
    Local (ahead pieces) s = Wanted s.sess
    Local (reading_ahead p pieces) s = Wanted s.sess
    Local (fetching w) s = Working w s
    Local (testing w) s = Working w s
    Local (polling w) s = Working w s
    Local (loading w) s = Working w s
    Local (awaiting w) s = Working w s
    Local (saving w) s = Working w s × (lookup (work_piece ti R w) s.buffers ≢ none)
    Local (unlocking n buf) s = (n ≡ R.size) × (buf ≡ filled n)
    Local (returned n buf) s = (n ≡ R.size) × (buf ≡ filled n)

    module _ (s t : Io S) (g : Grows s t) where
      pub Asked-Grows : (calls : List (ℕ × ℕ)) (o : ℕ) → Asked calls o s.sess → Asked calls o t.sess
      Asked-Grows calls o a x n l h = elim (a x n l h) [
        | inl c ↦ inl (g.coming _ c)
        | inr e ↦ inr e
      ]

      pub Wanted-Grows : Wanted s.sess → Wanted t.sess
      Wanted-Grows a x n l h = g.coming _ (a x n l h)

      -- No step of another thread takes away what a thread relies on.
      pub Local-Grows : (p : Phase) → Local p s → Local p t
      Local-Grows (asking o r required) (e, l, a) = (e, l, Asked-Grows [] o a)
      Local-Grows (raising calls o r required) (e, l, h, a) = (e, l, h, Asked-Grows calls o a)
      Local-Grows (locking required) a = Wanted-Grows a
      Local-Grows (ahead pieces) a = Wanted-Grows a
      Local-Grows (reading_ahead p pieces) a = Wanted-Grows a
      Local-Grows (fetching w) (a, b, c) = (Wanted-Grows a, b, c)
      Local-Grows (testing w) (a, b, c) = (Wanted-Grows a, b, c)
      Local-Grows (polling w) (a, b, c) = (Wanted-Grows a, b, c)
      Local-Grows (loading w) (a, b, c) = (Wanted-Grows a, b, c)
      Local-Grows (awaiting w) (a, b, c) = (Wanted-Grows a, b, c)
      Local-Grows (saving w) ((a, b, c), k) = ((Wanted-Grows a, b, c), g.known _ k)
      Local-Grows (unlocking n buf) h = h
      Local-Grows (returned n buf) h = h
