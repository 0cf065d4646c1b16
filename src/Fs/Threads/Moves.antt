-- ===== src/Fs/Threads/Moves.antt =====
-- Each step of a thread: it is no fault, keeps what holds of the thread, and changes the mutex as its
-- place between lock and unlock says.
use bitfs.Base.{
  eqb→eq, nonzero_of_test, ℕ, zero, suc, ◌+◌, ◌-◌, ◌≤◌, ◌<◌, ◌≡◌, refl, subst, ◌⊎◌, inl, inr, Bool,
  true, false, List, [], ◌∷◌, ◌++◌, arith, ltb, if◌then◌else◌, Bool-cases, le→ltb, ok, ◌==◌,
}
use native.Mathlib.Decide.{dec_lt}
use native.Mathlib.Nat.{le_of_lt}
use bitfs.Base.Ordered.{insert, nat_ord}
use bitfs.Torrent.{TorrentInfo, IsLawful}
use bitfs.Session.{Session, IsServing, sets}
use bitfs.Fs.Read.{Io, have_piece}
use bitfs.Fs.Read.Wait.{After, After-Call, have_piece-After}
use bitfs.Fs.Read.Copy.{piece_data}
use bitfs.Fs.Threads.{
  Range, Work, Phase, asking, raising, locking, returned, piece_at, read_size, next_piece, raises,
  advance, inside,
}
use bitfs.Fs.Threads.Local.{
  same_piece, IsProper, Next, Positive, Grows, Grows-of_After, Asked, Wanted, Copies, Local,
}

-- What a step does to the mutex: nothing, or the thread takes it or gives it back.
pub data Mutex {S : Session} (p : Phase) (s : Io S) (q : Phase) (t : Io S) : Type 0 where
  keeps : inside q ≡ inside p → t.locked ≡ s.locked → Mutex p s q t
  takes : inside p ≡ false → inside q ≡ true → s.locked ≡ false → t.locked ≡ true → Mutex p s q t
  gives : inside p ≡ true → inside q ≡ false → t.locked ≡ false → Mutex p s q t

pub data Stuck {S : Session} : Phase → Io S → Type 0 where
  waits : {required : List ℕ} {s : Io S} → s.locked ≡ true → Stuck (locking required) s
  ended : {n : ℕ} {buf : List ℕ} {s : Io S} → Stuck (returned n buf) s

if_Positive :
    (b : Bool) (p k : ℕ)
    → 0 < k
    → (calls : List (ℕ × ℕ)) → Positive calls
    → Positive ((if b then (p, k) ∷ [] else []) ++ calls)
if_Positive true p k h calls rest = (h, rest)
if_Positive false p k h calls rest = rest

if_Positive_last : (b : Bool) (p k : ℕ) → 0 < k → Positive (if b then (p, k) ∷ [] else [])
if_Positive_last true p k h = (h, tt)
if_Positive_last false p k h = tt

raises-Positive : (ti : TorrentInfo) (p : ℕ) → Positive (raises ti p)
unfolding raises
raises-Positive ti p = (
  omega arith,
  if_Positive (ltb 1 p) (p - 1) 1 (omega arith)
      (if ltb (p + 1) ti.num_pieces then (p + 1, 7) ∷ [] else [])
      (if_Positive_last (ltb (p + 1) ti.num_pieces) (p + 1) 7 (omega arith)),
)

module _ {S : Session} (ti : TorrentInfo) (content : ℕ → ℕ)
    (L : IsServing S (piece_data ti content)) (law : IsLawful ti) (R : Range)
    (proper : IsProper ti R) where
  pub record Moved (p : Phase) (s : Io S) (q : Phase) (t : Io S) : Type 0 where
    pub grows : Grows ti content L s t
    pub local : Local ti content L R q t
    pub mutex : Mutex p s q t

  -- The piece at an offset covers what is read from there.
  further :
      (calls : List (ℕ × ℕ)) (o r : ℕ) (a b : S.State)
      → o + suc r ≡ R.offset + R.size
      → ((q : ℕ) → L.Coming a q → L.Coming b q)
      → Asked ti content L R [] o a
      → L.Coming b (piece_at ti R o (suc r)) ⊎ Next calls (piece_at ti R o (suc r))
      → Asked ti content L R calls (o + read_size ti R o (suc r)) b
  further calls o r a b e kept asked here x n l h = elim (dec_lt x o) [
    | yes before ↦ elim (asked x n l before) [ inl c ↦ inl (kept _ c) | inr z ↦ absurd z ]
    | no behind ↦
        let le : o ≤ x = omega arith in
        let fits = proper.fits in
        let start = law.start_lt R.index o (suc r) proper.known (omega arith) in
        let same =
          same_piece ti law R.index o x (suc r) n proper.known (omega arith) (omega arith) le
            (omega arith) in
        subst (λ q. L.Coming b q ⊎ Next calls q) same here
  ]

  abbrev pub Steps : Phase → Io S → Type 0
  Steps p s = (q : Phase) × (t : Io S) × (advance ti R p s ≡ ok (q, t)) × Moved p s q t

  pub have_piece-Coming :
      (p : ℕ) (s : Io S) → (have_piece p s).0 ≡ true → L.Coming (have_piece p s).1.sess p
  unfolding have_piece
  have_piece-Coming p s b = L.Coming_of_answer s.sess p b

  raises-Next : (p : ℕ) → Next (raises ti p) p
  unfolding raises
  raises-Next p = refl

  pub asking_step :
      (o r : ℕ) (required : List ℕ) (s : Io S)
      → Local ti content L R (asking o r required) s
      → Steps (asking o r required) s
  unfolding advance
  asking_step o zero required s (e, le, asked) = (
    locking required,
    s,
    refl,
    record {
      grows = record { loaded = λ l. l; coming = λ q c. c; known = λ q k. k };
      local = λ x n l h. elim (asked x n l (omega arith)) [ inl c ↦ c | inr z ↦ absurd z ];
      mutex = keeps refl refl;
    },
  )
  asking_step o (suc r) required s (e, le, asked) =
      let p = piece_at ti R o (suc r) in
      let n = read_size ti R o (suc r) in
      let t = (have_piece p s).1 in
      let a = have_piece-After L p s in
      let fits = proper.fits in
      let start = law.start_lt R.index o (suc r) proper.known (omega arith) in
      let sum : o + n + (suc r - n) ≡ R.offset + R.size = omega arith in
      elim (Bool-cases (have_piece p s).0) [
        | inl b ↦ (
          asking (o + n) (suc r - n) required,
          t,
          rw (le→ltb _ _ (le_of_lt start), b) refl,
          record {
            grows = Grows-of_After ti content L s t a;
            local = (
              sum,
              omega arith,
              further [] o r s.sess t.sess e a.coming asked (inl (have_piece-Coming p s b)),
            );
            mutex = keeps refl a.mutex;
          },
        )
        | inr b ↦ (
          raising (raises ti p) (o + n) (suc r - n) (insert p required),
          t,
          rw (le→ltb _ _ (le_of_lt start), b) refl,
          record {
            grows = Grows-of_After ti content L s t a;
            local = (
              sum,
              omega arith,
              raises-Positive ti p,
              further (raises ti p) o r s.sess t.sess e a.coming asked (inr (raises-Next p)),
            );
            mutex = keeps refl a.mutex;
          },
        )
      ]

  pub raising_step :
      (calls : List (ℕ × ℕ)) (o r : ℕ) (required : List ℕ) (s : Io S)
      → Local ti content L R (raising calls o r required) s
      → Steps (raising calls o r required) s
  unfolding advance
  raising_step [] o r required s (e, le, h, asked) = (
    asking o r required,
    s,
    refl,
    record {
      grows = record { loaded = λ l. l; coming = λ q c. c; known = λ q k. k };
      local = (e, le, asked);
      mutex = keeps refl refl;
    },
  )
  raising_step ((p, k) ∷ calls) o r required s (e, le, (h, hs), asked) =
      let t : Io S = record s { sess = S.piece_priority s.sess p k } in
      let a : After L s t = After-Call L s (sets s.sess p k h) in
      (
        raising calls o r required,
        t,
        refl,
        record {
          grows = Grows-of_After ti content L s t a;
          local = (
            e,
            le,
            hs,
            λ x n l b. elim (asked x n l b) [
              | inl c ↦ inl (a.coming _ c)
              | inr same ↦
                  inl (subst (λ q. L.Coming t.sess q) same (L.Coming_of_priority s.sess p k h))
            ],
          );
          mutex = keeps refl refl;
        },
      )

  pub next_piece-Local :
      (w : Work) (s : Io S)
      → Wanted ti content L R s.sess
      → Copies ti content L R w
      → Local ti content L R (next_piece w) s × (inside (next_piece w) ≡ true)
  unfolding next_piece
  next_piece-Local w s wanted c = elim (Bool-cases (w.remaining == 0)) [
    | inl b ↦
        let up_to = c.up_to in
        let moved = c.moved in
        let none_left = eqb→eq w.remaining 0 b in rw (b, next_piece) ((omega arith, c.copied), refl)
    | inr b ↦ rw (b, next_piece) ((wanted, nonzero_of_test w.remaining b, c), refl)
  ]
