-- ===== src/Fs/Threads/Steady.antt =====
-- The steps of the threads without the mutex take nothing from the one that has it.
use bitfs.Base.{
  ℕ, zero, suc, ◌≡◌, inl, inr, false, List, [], ◌∷◌, Outcome, ok, fault, timeout, ltb, Bool-cases,
}
use bitfs.Base.Ordered.{nat_ord}
use bitfs.Torrent.{TorrentInfo}
use bitfs.Session.{Session, IsServing}
use bitfs.Fs.Read.{Io, have_piece, lock}
use bitfs.Fs.Threads.{
  Range, Phase, asking, raising, locking, ahead, reading_ahead, fetching, testing, polling, loading,
  awaiting, saving, unlocking, returned, advance, inside,
}
use bitfs.Fs.Threads.Ready.{IsSteady, Ready}

module _ {S : Session} {piece_data : ℕ → List ℕ} (L : IsServing S piece_data) (steady : IsSteady L)
    (ti : TorrentInfo) where
  -- What the steps of a thread without the mutex keep.
  pub record Keeps (s t : Io S) : Type 0 where
    pub had : (q : ℕ) → L.Had s.sess q → L.Had t.sess q
    pub awaited : (q : ℕ) → L.Awaited s.sess q → L.Awaited t.sess q

  abbrev pub KeepsAfter : Io S → Outcome (Phase × Io S) → Type 0
  KeepsAfter s (ok (q, t)) = Keeps s t
  KeepsAfter s fault = Unit
  KeepsAfter s timeout = Unit

  have_piece-Keeps : (p : ℕ) (s : Io S) → Keeps s (have_piece p s).1
  unfolding have_piece
  have_piece-Keeps p s = record {
    had = λ q. steady.had_asks s.sess p q;
    awaited = λ q. steady.awaited_asks s.sess p q;
  }

  pub advance-Keeps :
      (R : Range) (p : Phase) (s : Io S) → inside p ≡ false → KeepsAfter s (advance ti R p s)
  unfolding advance lock
  advance-Keeps R (asking o zero required) s h = record { had = λ q k. k; awaited = λ q k. k }
  advance-Keeps R (asking o (suc r) required) s h =
      let pr = ti.map_file R.index o (suc r) in
      elim (Bool-cases (ltb (ti.piece_size pr.piece) pr.start)) [
        | inl a ↦ rw a tt
        | inr a ↦ elim (Bool-cases (have_piece pr.piece s).0) [
          | inl b ↦ rw (a, b) (have_piece-Keeps pr.piece s)
          | inr b ↦ rw (a, b) (have_piece-Keeps pr.piece s)
        ]
      ]
  advance-Keeps R (raising [] o r required) s h = record { had = λ q k. k; awaited = λ q k. k }
  advance-Keeps R (raising ((p, k) ∷ calls) o r required) s h = record {
    had = λ q. steady.had_sets s.sess p k q;
    awaited = λ q. steady.awaited_sets s.sess p k q;
  }
  advance-Keeps R (locking required) s h = elim (Bool-cases s.locked) [
    | inl b ↦ rw b tt
    | inr b ↦ rw b (record { had = λ q k. k; awaited = λ q k. k })
  ]
  advance-Keeps R (returned n buf) s h = tt
  advance-Keeps R (ahead pieces) s h = cc
  advance-Keeps R (reading_ahead p pieces) s h = cc
  advance-Keeps R (fetching w) s h = cc
  advance-Keeps R (testing w) s h = cc
  advance-Keeps R (polling w) s h = cc
  advance-Keeps R (loading w) s h = cc
  advance-Keeps R (awaiting w) s h = cc
  advance-Keeps R (saving w) s h = cc
  advance-Keeps R (unlocking n buf) s h = cc

  module _ (R : Range) (s t : Io S) (k : Keeps s t) where
    pub Ready-Keeps : (p : Phase) → Ready L ti R p s → Ready L ti R p t
    Ready-Keeps (loading w) h = k.had _ h
    Ready-Keeps (awaiting w) h = k.awaited _ h
    Ready-Keeps (asking o r required) h = h
    Ready-Keeps (raising calls o r required) h = h
    Ready-Keeps (locking required) h = h
    Ready-Keeps (ahead pieces) h = h
    Ready-Keeps (reading_ahead p pieces) h = h
    Ready-Keeps (fetching w) h = h
    Ready-Keeps (testing w) h = h
    Ready-Keeps (polling w) h = h
    Ready-Keeps (saving w) h = h
    Ready-Keeps (unlocking n buf) h = h
    Ready-Keeps (returned n buf) h = h

  -- Of a thread without the mutex nothing is owed.
  pub outside-Ready : (R : Range) (p : Phase) (s : Io S) → inside p ≡ false → Ready L ti R p s
  outside-Ready R (asking o r required) s h = tt
  outside-Ready R (raising calls o r required) s h = tt
  outside-Ready R (locking required) s h = tt
  outside-Ready R (returned n buf) s h = tt
  outside-Ready R (ahead pieces) s h = cc
  outside-Ready R (reading_ahead p pieces) s h = cc
  outside-Ready R (fetching w) s h = cc
  outside-Ready R (testing w) s h = cc
  outside-Ready R (polling w) s h = cc
  outside-Ready R (loading w) s h = cc
  outside-Ready R (awaiting w) s h = cc
  outside-Ready R (saving w) s h = cc
  outside-Ready R (unlocking n buf) s h = cc
