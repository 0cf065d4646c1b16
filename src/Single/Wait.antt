-- ===== src/Single/Wait.antt =====
-- wait_for_piece_download of bitFS.cpp, with the counters that it keeps.
use bitfs.Base.{
  ℕ, zero, suc, ◌+◌, ◌≤◌, ◌≡◌, refl, ◌∙◌, ◌⊎◌, inl, inr, Bool, true, false, List, ok, arith,
  Bool-cases,
}
use bitfs.Session.{Session, Call, asks, polls, reads, sets, IsServing}
use bitfs.Fs.Read.{Io, have_piece, get_piece_buffers, poll_have}
use bitfs.Fs.Read.Wait.{
  After, After-trans, After-Call, have_piece-After, have_piece-Had, poll_have-ends,
}
use bitfs.Single.{SessionStat, counted, count_hit, raise_priority, bitfs_wait}

module _ {S : Session} {pd : ℕ → List ℕ} (L : IsServing S pd) where
  pub Coming_counted :
      (s t : SessionStat × S.State)
      → Call (counted S) s t
      → (p : ℕ) → L.Coming s.1 p
      → L.Coming t.1 p
  Coming_counted s _ (asks _ q) p c = L.Coming_kept s.1 _ (asks s.1 q) p c
  Coming_counted s _ (polls _) p c = L.Coming_kept s.1 _ (polls s.1) p c
  Coming_counted s _ (reads _ q) p c = L.Coming_kept s.1 _ (reads s.1 q) p c
  Coming_counted s _ (sets _ q k h) p c = L.Coming_kept s.1 _ (sets s.1 q k h) p c

  -- The counters beside it do not keep a session from serving.
  abbrev pub counted-IsServing : IsServing (counted S) pd
  counted-IsServing = record {
    Had = λ s p. L.Had s.1 p;
    Coming = λ s p. L.Coming s.1 p;
    Awaited = λ s p. L.Awaited s.1 p;
    due = λ s p. L.due s.1 p;
    wait = λ s p. L.wait s.1 p;
    bound = L.bound;
    due_lt = λ s p. L.due_lt s.1 p;
    wait_lt = λ s p. L.wait_lt s.1 p;
    Had_of_answer = λ s p. L.Had_of_answer s.1 p;
    answer_of_due = λ s p. L.answer_of_due s.1 p;
    Coming_of_answer = λ s p. L.Coming_of_answer s.1 p;
    Coming_of_priority = λ s p k. L.Coming_of_priority s.1 p k;
    Coming_kept = Coming_counted;
    due_kept = λ s q p. L.due_kept s.1 q p;
    due_falls = λ s p. L.due_falls s.1 p;
    Awaited_of_read = λ s p. L.Awaited_of_read s.1 p;
    answered = λ s p. L.answered s.1 p;
    truthful = λ s. L.truthful s.1;
  }

-- One more hit of the cache, which counts as a download too.
abbrev pub one_more : SessionStat → SessionStat
one_more stats = record stats {
  cache_hit_counter = stats.cache_hit_counter + 1;
  piece_download_counter = stats.piece_download_counter + 1;
}

poll_have-stats :
    (S : Session) (fuel p : ℕ) (have : Bool) (s t : Io (counted S))
    → poll_have fuel p have s ≡ ok t
    → t.sess.0 ≡ s.sess.0
unfolding poll_have have_piece get_piece_buffers
poll_have-stats S fuel p true s t e = cc
poll_have-stats S zero p false s t e = cc
poll_have-stats S (suc fuel) p false s t e = poll_have-stats S fuel p _ _ t e

module _ {S : Session} {pd : ℕ → List ℕ} (L : IsServing S pd) where
  abbrev M : IsServing (counted S) pd
  M = counted-IsServing L

  count_hit-After : (s : Io (counted S)) → After M s (count_hit S s)
  unfolding count_hit
  count_hit-After s = record { loaded = λ l. l; coming = λ q h. h; known = λ q h. h; mutex = refl }

  pub raise_priority-After : (p : ℕ) (s : Io (counted S)) → After M s (raise_priority S p s)
  unfolding raise_priority
  raise_priority-After p s = After-Call M s (sets s.sess p 7 (omega arith))

  pub raise_priority-Coming : (p : ℕ) (s : Io (counted S)) → M.Coming (raise_priority S p s).sess p
  unfolding raise_priority
  raise_priority-Coming p s = L.Coming_of_priority s.sess.1 p 7 (omega arith)

  count_hit-Had : (q : ℕ) (u : Io (counted S)) → L.Had u.sess.1 q → L.Had (count_hit S u).sess.1 q
  unfolding count_hit
  count_hit-Had q u had = had

  hit_stats :
      (q : ℕ) (u : Io (counted S)) → (count_hit S (have_piece q u).1).sess.0 ≡ one_more u.sess.0
  unfolding count_hit have_piece
  hit_stats q u = refl

  kept_stats :
      (q : ℕ) (u : Io (counted S))
      → (have_piece q (raise_priority S q (have_piece q u).1)).1.sess.0 ≡ u.sess.0
  unfolding raise_priority have_piece
  kept_stats q u = refl

  -- With a session that serves and fuel for its bound, wait_for_piece_download of bitFS.cpp
  -- returns whether or not the piece had been asked for, and the piece is there. Where the piece
  -- was there at the first test, both counters have grown by one; where it had to be downloaded,
  -- neither has.
  pub bitfs_wait-ends :
      (fuel p : ℕ) (s : Io (counted S))
      → L.bound ≤ fuel
      → (t : Io (counted S)) × (bitfs_wait S fuel p s ≡ ok t)
        × After (counted-IsServing L) s t
        × L.Had t.sess.1 p
        × ((((have_piece p s).0 ≡ true) × (t.sess.0 ≡ one_more s.sess.0))
            ⊎ (((have_piece p s).0 ≡ false) × (t.sess.0 ≡ s.sess.0)))
  unfolding bitfs_wait poll_have
  bitfs_wait-ends fuel p s h = elim (Bool-cases (have_piece p s).0) [
    | inl e ↦
        let s1 = (have_piece p s).1 in
        (
          count_hit S s1,
          rw (e, bitfs_wait) refl,
          After-trans M s s1 _ (have_piece-After M p s) (count_hit-After s1),
          count_hit-Had p s1 (have_piece-Had M p s e),
          inl (e, hit_stats p s),
        )
    | inr e ↦
        let s1 = (have_piece p s).1 in
        let s2 = raise_priority S p s1 in
        let s3 = (have_piece p s2).1 in
        let begun : After M s s2 =
          After-trans M s s1 s2 (have_piece-After M p s) (raise_priority-After p s1) in
        let asked : After M s s3 = After-trans M s s2 s3 begun (have_piece-After M p s2) in
        elim (Bool-cases (have_piece p s2).0) [
          | inl f ↦ (
            s3,
            rw (e, f, bitfs_wait) refl,
            asked,
            have_piece-Had M p s2 f,
            inr (e, kept_stats p s),
          )
          | inr f ↦
              let coming : M.Coming s3.sess p =
                (have_piece-After M p s2).coming p (raise_priority-Coming p s1) in
              let (t, g, a, had) =
                poll_have-ends M fuel p s3 coming (omega (arith, L.due_lt s3.sess.1 p)) in
              (
                t,
                rw (e, f, bitfs_wait) g,
                After-trans M s s3 t asked a,
                had,
                inr (e, poll_have-stats S fuel p false s3 t g ∙ kept_stats p s),
              )
        ]
  ]
