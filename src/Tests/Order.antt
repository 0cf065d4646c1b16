-- ===== src/Tests/Order.antt =====
-- The files of the sample in another order, and one of its paths twice.
use bitfs.Base.{ℕ, zero, suc, ◌≡◌, [], ◌∷◌, arith}
use bitfs.Base.Text.{Text}
use bitfs.Boost.{slash}
use bitfs.Torrent.{TorrentInfo}
use bitfs.Tree.{empty_tree, at, fill_tree}
use bitfs.Tree.Names.{SomeFile}
use bitfs.Tree.Order.{fill_tree-SamePaths}
use bitfs.Fs.Order.{Factors, open-readdir_factor}
use bitfs.Tests.Samples.{split_slash, split_law, sample}

abbrev other_path : ℕ → Text
other_path zero = b'c' ∷ []
other_path (suc zero) = b'a' ∷ slash ∷ b'b' ∷ []
other_path (suc (suc i)) = b'c' ∷ []

abbrev other : TorrentInfo
other = record sample { num_files = 3; file_path = other_path }

to_other : (p : Text) → SomeFile sample (λ q. q ≡ p) → SomeFile other (λ q. q ≡ p)
to_other p (zero, l, e) = (1, omega arith, e)
to_other p (suc zero, l, e) = (0, omega arith, e)
to_other p (suc (suc k), l, e) = absurd (omega arith)

from_other : (p : Text) → SomeFile other (λ q. q ≡ p) → SomeFile sample (λ q. q ≡ p)
from_other p (zero, l, e) = (1, omega arith, e)
from_other p (suc zero, l, e) = (0, omega arith, e)
from_other p (suc (suc k), l, e) = (1, omega arith, e)

fill_tree-SamePaths_example :
    ((fill_tree split_slash sample empty_tree).filenames
      ≡ (fill_tree split_slash other empty_tree).filenames)
    × ((fill_tree split_slash sample empty_tree).dirmap
        ≡ (fill_tree split_slash other empty_tree).dirmap)
    × ((x : Text)
        → at x (fill_tree split_slash sample empty_tree).entries
          ≡ at x (fill_tree split_slash other empty_tree).entries)
fill_tree-SamePaths_example =
    fill_tree-SamePaths split_slash split_law sample other (λ p. (to_other p, from_other p))

open-readdir_factor_example :
    (f : Factors split_slash split_law) × ((g : Factors split_slash split_law) → f ≡ g)
open-readdir_factor_example = open-readdir_factor split_slash split_law
