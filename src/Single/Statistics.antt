-- ===== src/Single/Statistics.antt =====
-- The statistics of bitFS.cpp.
use bitfs.Base.{
  List, [], ◌∷◌, ap, ◌∙◌, ℕ, zero, suc, ◌*◌, ◌/◌, ◌<◌, ◌≡◌, refl, ◌⊎◌, inl, inr, ok, fault, arith,
  ◌==◌, Bool, true, false, ltb, lt→ltb, le→ltb,
}
use native.Mathlib.Decide.{dec_lt}
use native.Mathlib.Nat.{mul-div_cancel_left}
use bitfs.Torrent.{TorrentInfo}
use Prim.Native.String.{String}
use bitfs.Base.Int.{ℤ, to_int, pos, sub_ℕ, int_max}
use bitfs.Base.Reals.{Reals}
use bitfs.Single.{SessionStat, initialize_stats}
use bitfs.Single.Display.{StatLine, says, time, whole, number, over_int, print_stats, display_stats}
use bitfs.Single.Wait.{one_more}

-- The statistics after a number of waits for pieces that were there.
abbrev pub after_hits : ℕ → SessionStat → SessionStat
after_hits zero stats = stats
after_hits (suc n) stats = one_more (after_hits n stats)

hits_counted :
    (n now : ℕ) (ti : TorrentInfo) (stats : SessionStat)
    → let after = after_hits n (initialize_stats now ti stats) in
      (after.cache_hit_counter ≡ n) × (after.piece_download_counter ≡ n)
unfolding initialize_stats
hits_counted zero now ti stats = (refl, refl)
hits_counted (suc n) now ti stats =
    let (a, b) = hits_counted n now ti stats in (omega arith, omega arith)

nonzero : (n : ℕ) → 0 < n → (n == 0) ≡ false
nonzero n h = ground arith

no_count : (n : ℕ) → n ≡ 0 → (n == 0) ≡ true
no_count n h = ground arith

hundred : (n : ℕ) → 0 < n → n * 100 / n ≡ 100
hundred n h = mul-div_cancel_left 100 h

-- The numbers of type int in an output, each with the text in front of it.
abbrev pub ints : {Real : Type 0} → List (StatLine Real) → List (String × ℤ)
ints [] = []
ints (whole label n suffix ∷ out) = (label, n) ∷ ints out
ints (says label ∷ out) = ints out
ints (time label t ∷ out) = ints out
ints (number label r suffix ∷ out) = ints out

-- A number of bytes in MB, as two quotients of type int give it.
abbrev pub megabytes : ℤ → ℤ
megabytes size = over_int (over_int size 1024) 1024

-- What is printed with enable_caching alone.
abbrev pub rate_ints : Bool → ℕ → List (String × ℤ)
rate_ints true n = ("Cache hit counter : ", pos n) ∷ ("Cache hit rate : ", pos 100) ∷ []
rate_ints false n = []

ints-print_stats :
    (R : Reals) (caching : Bool) (elapsed download : R.Real) (stats : SessionStat) (n : ℕ)
    → stats.piece_download_counter ≡ n
    → stats.cache_hit_counter ≡ n
    → stats.cache_hit_rate ≡ 100
    → ints (print_stats R caching elapsed download stats)
      ≡ ("Pieces Downloaded : ", pos n)
        ∷ ("Total File Size : ", megabytes stats.file_size)
        ∷ rate_ints caching n
unfolding print_stats
ints-print_stats R true elapsed download stats n d h r = rw (d, h, r) refl
ints-print_stats R false elapsed download stats n d h r = rw d refl

-- The size that initialize_stats has stored stays.
file_size-after_hits :
    (n now : ℕ) (ti : TorrentInfo) (stats : SessionStat)
    → (after_hits n (initialize_stats now ti stats)).file_size ≡ to_int ti.total_size
unfolding initialize_stats
file_size-after_hits zero now ti stats = refl
file_size-after_hits (suc n) now ti stats = file_size-after_hits n now ti stats

-- After initialize_stats and any number of hits, which are all that the waits count: display_stats
-- overflows int where the bytes of the counted pieces, or the hits times 100, do not fit it; divides
-- by zero when there was no hit; and otherwise stores a rate of 100 %, and the numbers of type int
-- that it prints are, in this order, the number of hits as that of the pieces downloaded, the size of
-- the torrent, cut to int, in MB, and with enable_caching alone the number of hits and a rate of 100 %.
pub display_stats_cases :
    (R : Reals) (caching : Bool) (n start now : ℕ) (ti : TorrentInfo) (stats : SessionStat)
    → let after = after_hits n (initialize_stats start ti stats) in
      (((int_max < n * ti.piece_length) ⊎ (int_max < n * 100))
        × (display_stats R caching now ti after ≡ fault))
      ⊎ (((n ≡ 0) × (display_stats R caching now ti after ≡ fault))
          ⊎ ((0 < n)
              × ((out : List (StatLine R.Real)) × (display_stats R caching now ti after
                    ≡ ok (record after { end_time = now; cache_hit_rate = 100 }, out))
                  × (ints out
                      ≡ ("Pieces Downloaded : ", pos n)
                        ∷ ("Total File Size : ", megabytes (to_int ti.total_size))
                        ∷ rate_ints caching n))))
unfolding display_stats
display_stats_cases R caching n start now ti stats =
    let (hits, downloads) = hits_counted n start ti stats in
    elim (dec_lt int_max (n * ti.piece_length)) [
      | yes large ↦ inl (inl large, rw (downloads, lt→ltb _ _ large) refl)
      | no small ↦
          let bytes : ltb int_max (n * ti.piece_length) ≡ false =
            le→ltb int_max (n * ti.piece_length) (omega arith) in
          elim (dec_lt 0 n) [
            | no no_hits ↦
                let none_counted : n ≡ 0 = omega arith in
                inr (inl (none_counted, rw (downloads, bytes, no_count n none_counted) refl))
            | yes some_hits ↦ elim (dec_lt int_max (n * 100)) [
              | yes many ↦
                  inl (
                    inr many,
                    rw (downloads, hits, bytes, nonzero n some_hits, lt→ltb _ _ many) refl,
                  )
              | no few ↦
                  let shown : SessionStat =
                    record (after_hits n (initialize_stats start ti stats)) {
                      end_time = now;
                      cache_hit_rate = 100;
                    } in
                  inr (
                    inr (
                      some_hits,
                      (
                        print_stats R caching
                            (R.of_int (
                              sub_ℕ now
                                (after_hits n (initialize_stats start ti stats)).start_time))
                            (R.of_int (pos (n * ti.piece_length / 1024 / 1024))) shown,
                        rw
                            (
                              downloads,
                              hits,
                              bytes,
                              nonzero n some_hits,
                              le→ltb int_max (n * 100) (omega arith),
                              hundred n some_hits,
                            )
                            refl,
                        ints-print_stats R caching _ _ shown n downloads hits refl
                            ∙ ap
                                (λ size.
                                  ("Pieces Downloaded : ", pos n)
                                  ∷ ("Total File Size : ", megabytes size)
                                  ∷ rate_ints caching n)
                                (file_size-after_hits n start ti stats),
                      ),
                    ))
            ]
          ]
    ]
