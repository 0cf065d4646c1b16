-- ===== src/Fs/Attributes.antt =====
-- getattr and open, after init_bitfs has filled the directory map.
use bitfs.Base.{
  ℕ, ◌<◌, ◌≡◌, refl, ◌⊎◌, inl, inr, ◌≢◌, List, [], ◌∷◌, arith, sym, ap, ◌∙◌, ok, Bool-cases, lt→ltb,
}
use native.Mathlib.Decide.{dec_lt}
use bitfs.Base.Int.{ℤ, pos, to_int}
use bitfs.Base.Text.{Text, NoNul, c_str, c_str_id, text_eq, text_ord}
use bitfs.Boost.{slash, IsSplit}
use bitfs.Torrent.{TorrentInfo}
use bitfs.Tree.{empty_tree, below, root, has_file, has_dir, fill_tree}
use bitfs.Tree.Paths.{IsFile, IsDir, key, has_file_iff, has_dir_iff, has_file-key_iff}
use bitfs.Fs.{
  Stat, no_entry, zero_stat, dir_mode, file_mode, get_file_index, get_file_size, dir_key, file_stat,
  getattr, open_file,
}
use bitfs.Fs.Index.{get_file_index-Finds}

abbrev pub dir_stat : Stat
dir_stat = record { st_mode = dir_mode; st_nlink = 2; st_size = pos 0 }

abbrev pub regular_stat : ℤ → Stat
regular_stat size = record { st_mode = file_mode; st_nlink = 1; st_size = size }

pub dir_key-key : (s : Text) → NoNul s → dir_key (slash ∷ s) ≡ key s
unfolding dir_key c_str text_eq
dir_key-key [] h = refl
dir_key-key (c ∷ s) h = rw (c_str_id (c ∷ s) h) refl

-- The first file whose path is s.
abbrev pub IsFirst : TorrentInfo → Text → ℕ → Type 0
IsFirst ti s k = (k < ti.num_files) × (s ≡ ti.file_path k) × ((j : ℕ) → j < k → s ≢ ti.file_path j)

pub IsFirst-unique :
    (ti : TorrentInfo) (s : Text) (j k : ℕ) → IsFirst ti s j → IsFirst ti s k → j ≡ k
IsFirst-unique ti s j k (_, e, first) (_, e', first') = elim (dec_lt j k) [
  | yes l ↦ absurd (first' j l e)
  | no m ↦ elim (dec_lt k j) [ yes l ↦ absurd (first k l e') | no n ↦ omega arith ]
]

abbrev pub NoNulPaths : TorrentInfo → Type 0
NoNulPaths ti = (k : ℕ) → NoNul (ti.file_path k)

-- A path that some file has is found, and it is the first such file that is found.
pub get_file_index_known :
    (ti : TorrentInfo) (s : Text)
    → NoNulPaths ti
    → NoNul s
    → IsFile ti s
    → (k : ℕ) × (get_file_index ti (slash ∷ s) ≡ ok (pos k)) × IsFirst ti s k
get_file_index_known ti s clean h (m, b, f) =
    let (r, e, found) = get_file_index-Finds ti s h in
    elim found [
      | inl (k, p, _, c, g, first) ↦ (
        k,
        e ∙ ap ok p,
        (
          omega arith,
          g ∙ c_str_id _ (clean k),
          λ j l same_path. first j (omega arith) l (same_path ∙ sym (c_str_id _ (clean j))),
        ),
      )
      | inr (_, missing) ↦
          absurd (missing m (omega arith) (omega arith) (f ∙ sym (c_str_id _ (clean m))))
    ]

module _ (split : Text → List Text) (law : IsSplit split) (ti : TorrentInfo) (clean : NoNulPaths ti)
    (s : Text) (h : NoNul s) where
  pub file_stat_known :
      IsFile ti s
      → (k : ℕ) × IsFirst ti s k
        × (file_stat ti (slash ∷ s) ≡ ok (pos 0, regular_stat (to_int (ti.file_size k))))
  unfolding file_stat get_file_size
  file_stat_known f =
      let (k, e, first) = get_file_index_known ti s clean h f in
      (k, first, rw (e, lt→ltb k ti.num_files first.0) refl)

  -- Where neither the path of a call nor a path of the torrent has a NUL, getattr on the map that
  -- init_bitfs fills gives the attributes of a directory exactly for the root and the directories
  -- of the torrent; otherwise those of a regular file, with the size of the first file of that
  -- path cut to int, when there is one; and otherwise -ENOENT with cleared attributes. No case is
  -- undefined.
  pub getattr_cases :
      let result = getattr ti (fill_tree split ti empty_tree) (slash ∷ s) in
      (IsDir ti s × (result ≡ ok (pos 0, dir_stat)))
      ⊎ ((¬ IsDir ti s)
          × ((k : ℕ) × IsFirst ti s k
              × (result ≡ ok (pos 0, regular_stat (to_int (ti.file_size k))))))
      ⊎ ((¬ IsDir ti s) × (¬ IsFile ti s) × (result ≡ ok (no_entry, zero_stat)))
  unfolding getattr
  getattr_cases =
      rw (dir_key-key s h) (elim (Bool-cases (has_dir (fill_tree split ti empty_tree) (key s))) [
        | inl e ↦ inl ((has_dir_iff split law ti s h).0 e, rw e refl)
        | inr e ↦
            let not_dir : ¬ IsDir ti s = λ d. cc ((has_dir_iff split law ti s h).1 d) in
            elim (Bool-cases (has_file (fill_tree split ti empty_tree) (key s))) [
              | inl f ↦
                  let (k, first, g) =
                    file_stat_known ((has_file-key_iff split law ti s h not_dir).0 f) in
                  inr (inl (not_dir, (k, first, rw (e, f) g)))
              | inr f ↦ inr (
                  inr (
                    not_dir,
                    λ d. cc ((has_file-key_iff split law ti s h not_dir).1 d),
                    rw (e, f) refl,
                  ))
            ]
      ])

  -- Where neither the path of a call nor a path of the torrent has a NUL, open succeeds exactly on
  -- the paths of files, and fails with -ENOENT on all others.
  pub open_file_cases :
      let result = open_file (fill_tree split ti empty_tree) (slash ∷ s) in
      (IsFile ti s × (result ≡ pos 0)) ⊎ ((¬ IsFile ti s) × (result ≡ no_entry))
  unfolding open_file c_str
  open_file_cases =
      rw (c_str_id s h)
        (elim (Bool-cases (has_file (fill_tree split ti empty_tree) (below root s))) [
          | inl e ↦ inl ((has_file_iff split law ti s h).0 e, rw e refl)
          | inr e ↦ inr (λ d. cc ((has_file_iff split law ti s h).1 d), rw e refl)
        ])
