-- ===== src/Tree/Order.antt =====
-- What init_bitfs fills depends on the set of the paths alone: not on the order of the files in the
-- torrent, and not on how often a path comes.
use bitfs.Base.{ℕ, zero, suc, ◌+◌, ◌≡◌, refl, sym, subst, ◌↔◌, ◌⊎◌, true, List, [], ◌∷◌}
use bitfs.Base.Text.{Text, text_ord}
use bitfs.Base.Ordered.{contains, IsSorted, insert-IsSorted}
use bitfs.Base.Ordered.Agreement.{sorted_unique}
use bitfs.Boost.{IsSplit}
use bitfs.Torrent.{TorrentInfo}
use bitfs.Tree.{Tree, empty_tree, at, below, root, fill_components, add_file, fill_from, fill_tree}
use bitfs.Tree.Spec.{FileAt, DirAt, EntryAt}
use bitfs.Tree.Names.{SomeFile, fill_tree-filenames, fill_tree-dirmap, fill_tree-entries}
use bitfs.Tree.Entries.{fill_tree-IsSorted}

abbrev SetsSorted : Tree → Type 0
SetsSorted t = IsSorted t.dirmap × IsSorted t.filenames

fill_components-SetsSorted :
    (d : Text) (cs : List Text) (t : Tree) → SetsSorted t → SetsSorted (fill_components d cs t)
unfolding fill_components
fill_components-SetsSorted d [] t s = s
fill_components-SetsSorted d (a ∷ []) t (s, s') = (s, insert-IsSorted (below d a) t.filenames s')
fill_components-SetsSorted d (a ∷ b ∷ rest) t (s, s') =
    fill_components-SetsSorted (below d a) (b ∷ rest) _ (insert-IsSorted (below d a) t.dirmap s, s')

fill_from-SetsSorted :
    (split : Text → List Text) (ti : TorrentInfo) (n i : ℕ) (t : Tree)
    → SetsSorted t
    → SetsSorted (fill_from split ti n i t)
unfolding fill_from add_file
fill_from-SetsSorted split ti zero i t s = s
fill_from-SetsSorted split ti (suc n) i t (s, s') =
    fill_from-SetsSorted split ti n (i + 1) _
      (fill_components-SetsSorted root _ _ (insert-IsSorted root t.dirmap s, s'))

fill_tree-SetsSorted :
    (split : Text → List Text) (ti : TorrentInfo) → SetsSorted (fill_tree split ti empty_tree)
unfolding fill_tree
fill_tree-SetsSorted split ti = fill_from-SetsSorted split ti ti.num_files 0 empty_tree (tt, tt)

-- Every path of a file of one torrent is the path of a file of the other.
abbrev pub SamePaths : TorrentInfo → TorrentInfo → Type 0
SamePaths a b = (p : Text) → SomeFile a (λ q. q ≡ p) ↔ SomeFile b (λ q. q ≡ p)

SomeFile-of_paths :
    (a b : TorrentInfo)
    → ((p : Text) → SomeFile a (λ q. q ≡ p) → SomeFile b (λ q. q ≡ p))
    → (P : Text → Type 0) → SomeFile a P
    → SomeFile b P
SomeFile-of_paths a b h P (k, l, x) =
    let (j, m, e) = h (a.file_path k) (k, l, refl) in (j, m, subst P (sym e) x)

SomeFile_iff :
    (a b : TorrentInfo) → SamePaths a b → (P : Text → Type 0) → SomeFile a P ↔ SomeFile b P
SomeFile_iff a b h P =
    (SomeFile-of_paths a b (λ p. (h p).0) P, SomeFile-of_paths b a (λ p. (h p).1) P)

module _ (split : Text → List Text) (law : IsSplit split) (a b : TorrentInfo)
    (same_paths : SamePaths a b) where
  -- Sets that hold what has P of the path of some file.
  same_set :
      (xs ys : List Text) (P : Text → Text → Type 0)
      → IsSorted xs
      → IsSorted ys
      → ((x : Text) → (contains xs x ≡ true) ↔ SomeFile a (λ p. P p x))
      → ((x : Text) → (contains ys x ≡ true) ↔ SomeFile b (λ p. P p x))
      → xs ≡ ys
  same_set xs ys P s s' f g = sorted_unique xs ys s s' (λ x. (
    λ h. (g x).1 ((SomeFile_iff a b same_paths (λ p. P p x)).0 ((f x).0 h)),
    λ h. (f x).1 ((SomeFile_iff a b same_paths (λ p. P p x)).1 ((g x).0 h)),
  ))

  -- For two torrents with the same file paths, in whatever order and however often each comes,
  -- init_bitfs fills equal sets filenames and dirmap, and an equal set of entries for every key.
  pub fill_tree-SamePaths :
      let t = fill_tree split a empty_tree in
      let u = fill_tree split b empty_tree in
      (t.filenames ≡ u.filenames)
      × (t.dirmap ≡ u.dirmap)
      × ((x : Text) → at x t.entries ≡ at x u.entries)
  fill_tree-SamePaths = (
    same_set _ _ (λ p x. FileAt root p x) (fill_tree-SetsSorted split a).1
        (fill_tree-SetsSorted split b).1 (fill_tree-filenames split law a)
        (fill_tree-filenames split law b),
    same_set _ _ (λ p x. (x ≡ root) ⊎ DirAt root p x) (fill_tree-SetsSorted split a).0
        (fill_tree-SetsSorted split b).0 (fill_tree-dirmap split law a)
        (fill_tree-dirmap split law b),
    λ x.
        same_set _ _ (λ p n. EntryAt root p x n) (fill_tree-IsSorted split a x)
          (fill_tree-IsSorted split b x) (fill_tree-entries split law a x)
          (fill_tree-entries split law b x),
  )
