-- ===== src/Tests/Earlier.antt =====
-- Calls of the handlers of the earlier program on the sample.
use bitfs.Base.{◌≡◌, refl, List, [], ◌∷◌, ok, arith, length}
use bitfs.Tree.{empty_tree, fill_tree}
use bitfs.Client.Serve.{Request, getattr_call, readdir_call, read_call, Reply, Mount}
use bitfs.Single.{counted}
use bitfs.Single.Serve.{bitfs_serve, Serviceable, bitfs_serve-Serviceable}
use bitfs.Tests.Calls.{file_ab_clean, sample_sizes}
use bitfs.Tests.Statistics.{counted_io, unlimited, nothing_kept}
use bitfs.Tests.Samples.{
  split_slash, split_law, sample, sample_law, sample_clean, sample_content, swarm, serving, file_ab,
}

abbrev session : List Request
session = readdir_call [] ∷ read_call file_ab (0 ∷ 0 ∷ 0 ∷ 0 ∷ []) 4 2 ∷ getattr_call file_ab ∷ []

abbrev earlier_mount : Mount (counted swarm)
earlier_mount = record { tree = fill_tree split_slash sample empty_tree; io = counted_io }

bitfs_serve-Serviceable_example :
    (replies : List Reply) × (m : Mount (counted swarm)) × (bitfs_serve swarm sample unlimited 4 2
        session earlier_mount
      ≡ ok (replies, m))
    × Serviceable split_slash split_law sample sample_content serving sample_law 4 2
        (omega arith)
        sample_clean
        sample_sizes
        unlimited
        (λ s k q c. c)
        m
    × (length replies ≡ length session)
bitfs_serve-Serviceable_example =
    bitfs_serve-Serviceable split_slash split_law sample sample_content serving sample_law 4 2
      (omega arith) sample_clean sample_sizes unlimited (λ s k q c. c) session earlier_mount
      (
        tt,
        (
          (file_ab_clean, (0, omega arith, refl), omega arith, omega arith, omega arith),
          (file_ab_clean, tt),
        ),
      )
      (record { tree_as_mounted = refl; mutex_free = refl; buffers_correct = nothing_kept })
