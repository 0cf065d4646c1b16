-- ===== src/Single/Attributes.antt =====
-- bitfs_getattr of bitFS.cpp against the getattr of FS.cpp.
use bitfs.Base.{ℕ, ◌≡◌, refl, ◌⊎◌, inl, inr, List, ◌∷◌, ok, Bool-cases}
use bitfs.Base.Int.{pos, to_int}
use bitfs.Base.Text.{Text, NoNul}
use bitfs.Boost.{slash, IsSplit}
use bitfs.Torrent.{TorrentInfo}
use bitfs.Tree.{empty_tree, has_file, has_dir, fill_tree}
use bitfs.Tree.Paths.{IsFile, IsDir, key, has_dir_iff, has_file-key_iff}
use bitfs.Fs.{no_entry, zero_stat, getattr}
use bitfs.Fs.Attributes.{dir_stat, regular_stat, dir_key-key, IsFirst, NoNulPaths, file_stat_known}
use bitfs.Single.{bitfs_getattr}

module _ (split : Text → List Text) (law : IsSplit split) (ti : TorrentInfo) (clean : NoNulPaths ti)
    (s : Text) (h : NoNul s) where
  -- Where neither the path of a call nor a path of the torrent has a NUL: on the directories of the
  -- torrent both programs answer getattr with the attributes of a directory; on the path of a file,
  -- otherwise, with those of a regular file, to which FS.cpp gives the size of the first file of the
  -- path, cut to int, and the earlier program the size of the whole torrent; and on all other paths
  -- both with -ENOENT and cleared attributes.
  pub bitfs_getattr_cases :
      let t = fill_tree split ti empty_tree in
      let result = getattr ti t (slash ∷ s) in
      let earlier = bitfs_getattr ti t (slash ∷ s) in
      (IsDir ti s × (result ≡ ok (pos 0, dir_stat)) × (earlier ≡ (pos 0, dir_stat)))
      ⊎ ((¬ IsDir ti s)
          × ((k : ℕ) × IsFirst ti s k
              × (result ≡ ok (pos 0, regular_stat (to_int (ti.file_size k))))
              × (earlier ≡ (pos 0, regular_stat (pos ti.total_size)))))
      ⊎ ((¬ IsDir ti s)
          × (¬ IsFile ti s)
          × (result ≡ ok (no_entry, zero_stat))
          × (earlier ≡ (no_entry, zero_stat)))
  unfolding getattr bitfs_getattr
  bitfs_getattr_cases =
      rw (dir_key-key s h) (elim (Bool-cases (has_dir (fill_tree split ti empty_tree) (key s))) [
        | inl e ↦ inl ((has_dir_iff split law ti s h).0 e, rw e refl, rw e refl)
        | inr e ↦
            let not_dir : ¬ IsDir ti s = λ d. cc ((has_dir_iff split law ti s h).1 d) in
            elim (Bool-cases (has_file (fill_tree split ti empty_tree) (key s))) [
              | inl f ↦
                  let (k, first, g) =
                    file_stat_known split law ti clean s h
                      ((has_file-key_iff split law ti s h not_dir).0 f) in
                  inr (inl (not_dir, (k, first, rw (e, f) g, rw (e, f) refl)))
              | inr f ↦ inr (
                  inr (
                    not_dir,
                    λ known. cc ((has_file-key_iff split law ti s h not_dir).1 known),
                    rw (e, f) refl,
                    rw (e, f) refl,
                  ))
            ]
      ])
