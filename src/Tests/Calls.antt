-- ===== src/Tests/Calls.antt =====
-- Runs of the client on the sample.
use bitfs.Base.{ℕ, ◌≤◌, ◌≡◌, refl, List, [], ◌∷◌, ok, none, arith, length}
use bitfs.Tree.{empty_tree, fill_tree}
use bitfs.Fs.Read.Copy.{piece_data}
use bitfs.Fs.Read.Wait.{Loaded}
use bitfs.Base.Text.{NoNul}
use bitfs.Base.Dict.{lookup}
use bitfs.Client.{Objects, instances, AllEq, instances_one}
use bitfs.Client.Serve.{
  Request, getattr_call, readdir_call, open_call, read_call, Reply, Mount, serve, IsServiceable,
  serve-IsServiceable,
}
use bitfs.Tests.Samples.{
  split_slash, split_law, sample, sample_law, sample_clean, sample_content, swarm, serving,
  start_io, file_ab,
}

instances_one_example :
    let g : Objects = record { _instance = none; made = 0 } in
    AllEq 0 (instances 3 g).0 × ((instances 3 g).1.made ≡ 1)
instances_one_example = instances_one 2

abbrev sample_mount : Mount swarm
sample_mount = record { tree = fill_tree split_slash sample empty_tree; io = start_io }

pub sample_sizes : (k : ℕ) → sample.file_size k ≤ 0x7fff_ffff
sample_sizes k = omega arith

abbrev session : List Request
session =
    readdir_call []
    ∷ getattr_call file_ab
    ∷ open_call file_ab
    ∷ read_call file_ab (0 ∷ 0 ∷ 0 ∷ 0 ∷ []) 4 2
    ∷ []

no_piece_kept : Loaded (piece_data sample sample_content) []
unfolding lookup
no_piece_kept p b e = cc

sample_bounded : serving.bound ≤ 2
sample_bounded = omega arith

pub file_ab_clean : NoNul file_ab
file_ab_clean = (omega arith, (omega arith, (omega arith, tt)))

serve-IsServiceable_example :
    (replies : List Reply) × (m : Mount swarm) × (serve sample 4 2 session sample_mount
      ≡ ok (replies, m))
    × IsServiceable split_slash split_law sample sample_content serving sample_law 4 2
        sample_bounded sample_clean sample_sizes m
    × (length replies ≡ length session)
serve-IsServiceable_example =
    serve-IsServiceable split_slash split_law sample sample_content serving sample_law 4 2
      sample_bounded sample_clean sample_sizes session sample_mount
      (
        tt,
        (
          file_ab_clean,
          (
            file_ab_clean,
            ((file_ab_clean, (0, omega arith, refl), omega arith, omega arith, omega arith), tt),
          ),
        ),
      )
      (record { tree_as_mounted = refl; mutex_free = refl; buffers_correct = no_piece_kept })
