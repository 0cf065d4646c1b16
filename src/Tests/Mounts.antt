-- ===== src/Tests/Mounts.antt =====
-- The sample torrent mounted by init_bitfs.
use bitfs.Base.{ℕ, ◌≤◌, ◌≡◌, refl, List, [], ◌∷◌, some, ok, arith, length}
use bitfs.Base.Int.{int_max}
use bitfs.Base.Text.{Text, NoNul}
use bitfs.Tree.{empty_tree}
use bitfs.Fs.Init.{Library, init_bitfs}
use bitfs.Client.Serve.{Request, getattr_call, readdir_call, read_call, Reply, Mount, serve}
use bitfs.Client.Start.{start, init_bitfs-serve}
use bitfs.Single.Init.{bitfs_init, bitfs_init-tree}
use bitfs.Tests.Samples.{
  split_slash, split_law, sample, sample_law, sample_clean, sample_content, Swarm, swarm, serving,
  file_ab,
}

abbrev quiet : Swarm
quiet = record { polled = 0; pending = [] }

abbrev sample_library : Library swarm
sample_library = record {
  new_session = λ values. quiet;
  load = λ path. some sample;
  add_torrent = λ sess ti. some sess;
}

abbrev torrent_file : Text
torrent_file = b't' ∷ []

abbrev calls : List Request
calls = readdir_call [] ∷ read_call file_ab (0 ∷ 0 ∷ 0 ∷ []) 3 1 ∷ getattr_call file_ab ∷ []

ab_clean : NoNul file_ab
ab_clean = (omega arith, (omega arith, (omega arith, tt)))

within_bound : serving.bound ≤ 2
within_bound = omega arith

small_files : (k : ℕ) → sample.file_size k ≤ int_max
small_files k = omega arith

init_bitfs-serve_example :
    let mounted = init_bitfs split_slash sample_library torrent_file empty_tree in
    (sess : Swarm) × (mounted.torrent ≡ some (sample, sess))
    × ((replies : List Reply) × (m : Mount swarm) × (serve sample 3 2 calls (start mounted sess)
          ≡ ok (replies, m))
        × (length replies ≡ length calls))
init_bitfs-serve_example =
    init_bitfs-serve split_slash split_law sample sample_content serving sample_law 3 2 within_bound
      sample_clean small_files sample_library torrent_file quiet refl refl calls
      (
        tt,
        ((ab_clean, (0, omega arith, refl), omega arith, omega arith, omega arith), (ab_clean, tt)),
      )

bitfs_init-tree_example :
    (bitfs_init split_slash sample_library (λ s k. s) (λ s. s) torrent_file empty_tree).tree
    ≡ (init_bitfs split_slash sample_library torrent_file empty_tree).tree
bitfs_init-tree_example =
    bitfs_init-tree split_slash sample_library (λ s k. s) (λ s. s) split_law torrent_file empty_tree
      sample quiet quiet refl refl refl
