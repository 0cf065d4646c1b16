-- ===== src/Tree/Names.antt =====
-- The directory map after init_bitfs: its three sets against the paths of the torrent's files.
use bitfs.Base.{
  ℕ, zero, suc, ◌+◌, ◌≤◌, ◌<◌, ◌≡◌, ◌↔◌, ◌⊎◌, inl, inr, ◌≢◌, true, List, arith, Bool, subst,
}
use native.Mathlib.Decide.{ℕ_discrete}
use bitfs.Base.Text.{Text, text_ord}
use bitfs.Base.Ordered.{insert, contains, contains-insert_iff}
use bitfs.Base.Dict.{lookup}
use bitfs.Boost.{IsSplit}
use bitfs.Torrent.{TorrentInfo}
use bitfs.Tree.{Tree, empty_tree, at, root, add_file, fill_from, fill_tree}
use bitfs.Tree.Spec.{FileAt, DirAt, EntryAt}
use bitfs.Tree.Fill.{
  step_iff, fill_components-filenames, fill_components-dirmap, fill_components-entries,
}

-- Some file of the torrent has this property of its path.
abbrev pub SomeFile : TorrentInfo → (Text → Type 0) → Type 0
SomeFile ti P = (k : ℕ) × (k < ti.num_files) × P (ti.file_path k)

module _ (split : Text → List Text) (law : IsSplit split) where
  -- A set that each file extends by what has P of its path holds at the end what has P of the
  -- path of some file.
  module _ (ti : TorrentInfo) (query : Tree → Bool) (P : Text → Type 0)
      (adds : (p : Text) (t : Tree)
        → (query (add_file split p t) ≡ true) ↔ (P p ⊎ (query t ≡ true))) where
    fill_from_iff :
        (n i : ℕ) (t : Tree)
        → (query (fill_from split ti n i t) ≡ true)
          ↔ (((k : ℕ) × (i ≤ k) × (k < i + n) × P (ti.file_path k)) ⊎ (query t ≡ true))
    unfolding fill_from
    fill_from_iff zero i t = (inr, elim [ inl (k, a, b, _) ↦ absurd (omega arith) | inr e ↦ e ])
    fill_from_iff (suc n) i t =
        step_iff (fill_from_iff n (i + 1) (add_file split (ti.file_path i) t))
          (adds (ti.file_path i) t)
          (
            λ (k, a, b, e). first_or_later k a b e,
            elim [
              | inl e ↦ (i, omega arith, omega arith, e)
              | inr (k, a, b, e) ↦ (k, omega arith, omega arith, e)
            ],
          )
      where
        first_or_later :
            (k : ℕ)
            → i ≤ k
            → k < i + suc n
            → P (ti.file_path k)
            → P (ti.file_path i) ⊎ ((k : ℕ) × (i + 1 ≤ k) × (k < i + 1 + n) × P (ti.file_path k))
        first_or_later k a b e = elim (ℕ_discrete k i) [
          | yes same_round ↦ inl (subst (λ m. P (ti.file_path m)) same_round e)
          | no other ↦ inr (k, omega arith, omega arith, e)
        ]

    pub fill_tree_iff :
        query empty_tree ≢ true → (query (fill_tree split ti empty_tree) ≡ true) ↔ SomeFile ti P
    unfolding fill_tree
    fill_tree_iff absent = (
      λ h. elim ((fill_from_iff ti.num_files 0 empty_tree).0 h) [
        | inl (k, a, b, e) ↦ (k, omega arith, e)
        | inr e ↦ absurd (absent e)
      ],
      λ (k, b, e).
          (fill_from_iff ti.num_files 0 empty_tree).1 (inl (k, omega arith, omega arith, e)),
    )

  module _ (ti : TorrentInfo) (x : Text) where
    add_file-filenames :
        (p : Text) (t : Tree)
        → (contains (add_file split p t).filenames x ≡ true)
          ↔ (FileAt root p x ⊎ (contains t.filenames x ≡ true))
    unfolding add_file
    add_file-filenames p t = rw (law.join_split p) at (
        fill_components-filenames x root (split p) (record t { dirmap = insert root t.dirmap })
          (law.some_component p))

    add_file-dirmap :
        (p : Text) (t : Tree)
        → (contains (add_file split p t).dirmap x ≡ true)
          ↔ (((x ≡ root) ⊎ DirAt root p x) ⊎ (contains t.dirmap x ≡ true))
    unfolding add_file
    add_file-dirmap p t =
        step_iff
          (rw (law.join_split p) at (
            fill_components-dirmap x root (split p) (record t { dirmap = insert root t.dirmap })
              (law.some_component p) (law.no_separator p)))
          (contains-insert_iff root x t.dirmap) ((λ e. e), (λ e. e))

    add_file-entries :
        (n p : Text) (t : Tree)
        → (contains (at x (add_file split p t).entries) n ≡ true)
          ↔ (EntryAt root p x n ⊎ (contains (at x t.entries) n ≡ true))
    unfolding add_file
    add_file-entries n p t = rw (law.join_split p) at (
        fill_components-entries x n root (split p) (record t { dirmap = insert root t.dirmap })
          (law.some_component p) (law.no_separator p))

    -- The file names are exactly the paths of the files, between two separators.
    pub fill_tree-filenames :
        (contains (fill_tree split ti empty_tree).filenames x ≡ true)
        ↔ SomeFile ti (λ p. FileAt root p x)
    unfolding contains
    fill_tree-filenames =
        fill_tree_iff ti (λ t. contains t.filenames x) (λ p. FileAt root p x) add_file-filenames
          (λ e. cc)

    -- The directories are exactly the root and the parts of the paths before a separator.
    pub fill_tree-dirmap :
        (contains (fill_tree split ti empty_tree).dirmap x ≡ true)
        ↔ SomeFile ti (λ p. (x ≡ root) ⊎ DirAt root p x)
    unfolding contains
    fill_tree-dirmap =
        fill_tree_iff ti (λ t. contains t.dirmap x) (λ p. (x ≡ root) ⊎ DirAt root p x)
          add_file-dirmap (λ e. cc)

    -- The entries of a directory x in the map that init_bitfs fills are exactly the components
    -- that come next after x in the path of some file.
    pub fill_tree-entries :
        (n : Text)
        → (contains (at x (fill_tree split ti empty_tree).entries) n ≡ true)
          ↔ SomeFile ti (λ p. EntryAt root p x n)
    unfolding contains at lookup
    fill_tree-entries n =
        fill_tree_iff ti (λ t. contains (at x t.entries) n) (λ p. EntryAt root p x n)
          (add_file-entries n) (λ e. cc)
