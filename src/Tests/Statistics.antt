-- ===== src/Tests/Statistics.antt =====
-- Runs of the earlier program on the sample.
use bitfs.Base.{
  ℕ, ◌+◌, ◌-◌, ◌*◌, ◌<◌, min, ◌≡◌, refl, ◌⊎◌, true, false, List, [], ◌∷◌, ok, fault, arith,
}
use bitfs.Base.Int.{ℤ, pos, to_int, int_max}
use bitfs.Base.Bytes.{bytes, splice}
use bitfs.Boost.{slash}
use bitfs.Tree.{empty_tree, fill_tree}
use bitfs.Tree.Paths.{IsFile, IsDir}
use bitfs.Fs.{no_entry, zero_stat, getattr}
use bitfs.Fs.Attributes.{dir_stat, regular_stat, IsFirst}
use bitfs.Fs.Read.{Io, have_piece}
use bitfs.Fs.Read.Wait.{Loaded, After}
use bitfs.Fs.Read.Copy.{piece_data}
use bitfs.Base.Dict.{lookup}
use bitfs.Single.{SessionStat, initialize_stats, counted, bitfs_getattr, bitfs_wait, bitfs_read}
use bitfs.Single.Attributes.{bitfs_getattr_cases}
use bitfs.Single.Wait.{counted-IsServing, one_more, bitfs_wait-ends}
use bitfs.Single.Read.{bitfs_read_correct}
use bitfs.Base.Reals.{Reals}
use bitfs.Single.Display.{StatLine, display_stats}
use bitfs.Single.Statistics.{ints, megabytes, after_hits, display_stats_cases}
use bitfs.Tests.Samples.{
  split_slash, split_law, sample, sample_law, sample_clean, sample_content, Swarm, swarm, serving,
  file_ab,
}

abbrev no_stats : SessionStat
no_stats = record {
  start_time = 0;
  end_time = 0;
  piece_download_counter = 0;
  file_size = pos 0;
  cache_hit_counter = 0;
  cache_hit_rate = 0;
}

abbrev pub counted_io : Io (counted swarm)
counted_io = record {
  sess = (no_stats, record { polled = 0; pending = [] });
  buffers = [];
  locked = false;
}

pub nothing_kept : Loaded (piece_data sample sample_content) []
unfolding lookup
nothing_kept p b e = cc

bitfs_getattr_cases_example :
    let t = fill_tree split_slash sample empty_tree in
    let result = getattr sample t (slash ∷ file_ab) in
    let earlier = bitfs_getattr sample t (slash ∷ file_ab) in
    (IsDir sample file_ab × (result ≡ ok (pos 0, dir_stat)) × (earlier ≡ (pos 0, dir_stat)))
    ⊎ ((¬ IsDir sample file_ab)
        × ((k : ℕ) × IsFirst sample file_ab k
            × (result ≡ ok (pos 0, regular_stat (to_int (sample.file_size k))))
            × (earlier ≡ (pos 0, regular_stat (pos sample.total_size)))))
    ⊎ ((¬ IsDir sample file_ab)
        × (¬ IsFile sample file_ab)
        × (result ≡ ok (no_entry, zero_stat))
        × (earlier ≡ (no_entry, zero_stat)))
bitfs_getattr_cases_example =
    bitfs_getattr_cases split_slash split_law sample sample_clean file_ab (omega arith)

bitfs_wait-ends_example :
    (t : Io (counted swarm)) × (bitfs_wait swarm 2 1 counted_io ≡ ok t)
    × After (counted-IsServing serving) counted_io t
    × serving.Had t.sess.1 1
    × ((((have_piece 1 counted_io).0 ≡ true) × (t.sess.0 ≡ one_more no_stats))
        ⊎ (((have_piece 1 counted_io).0 ≡ false) × (t.sess.0 ≡ no_stats)))
bitfs_wait-ends_example = bitfs_wait-ends serving 2 1 counted_io (omega arith)

abbrev four_zeros : List ℕ
four_zeros = 0 ∷ 0 ∷ 0 ∷ 0 ∷ []

abbrev pub unlimited : Swarm → ℕ → Swarm
unlimited s limit = s

bitfs_read_correct_example :
    (k : ℕ) × IsFirst sample file_ab k
    × ((t : Io (counted swarm)) × (bitfs_read swarm sample unlimited 4 2
            (slash ∷ file_ab)
            four_zeros
            4
            1
            counted_io
          ≡ ok (
            pos (min 4 (5 - 1)),
            splice four_zeros 0 (bytes sample_content (sample.file_offset k + 1) (min 4 (5 - 1))),
            t,
          ))
        × Loaded (piece_data sample sample_content) t.buffers
        × (t.locked ≡ false))
bitfs_read_correct_example =
    bitfs_read_correct sample sample_content serving sample_law 4 2 (omega arith) unlimited
      (λ s k q c. c) file_ab four_zeros 4 1 counted_io sample_clean (omega arith)
      (0, omega arith, refl) (λ k. omega arith) (omega arith) (omega arith) (omega arith) refl
      nothing_kept

-- Integers and pairs of them stand for the numbers of type double.
abbrev pub test_reals : Reals
test_reals = record {
  Real = ℤ × ℤ;
  of_int = λ n. (n, pos 1);
  times = λ a n. (a.0, a.1);
  over = λ a n. (a.0, pos n);
  quotient = λ a b. (a.0, b.0);
}

display_stats_cases_example :
    let after = after_hits 2 (initialize_stats 5 sample no_stats) in
    (((int_max < 2 * 4) ⊎ (int_max < 2 * 100))
      × (display_stats test_reals true 9 sample after ≡ fault))
    ⊎ ((◌≡◌ {A = ℕ} 2 0 × (display_stats test_reals true 9 sample after ≡ fault))
        ⊎ ((0 < 2)
            × ((out : List (StatLine (ℤ × ℤ))) × (display_stats test_reals true 9 sample after
                  ≡ ok (record after { end_time = 9; cache_hit_rate = 100 }, out))
                × (ints out
                    ≡ ("Pieces Downloaded : ", pos 2)
                      ∷ ("Total File Size : ", megabytes (to_int 10))
                      ∷ ("Cache hit counter : ", pos 2)
                      ∷ ("Cache hit rate : ", pos 100)
                      ∷ []))))
display_stats_cases_example = display_stats_cases test_reals true 2 5 9 sample no_stats
