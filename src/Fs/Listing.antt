-- ===== src/Fs/Listing.antt =====
-- readdir, after init_bitfs has filled the directory map, and getattr of what it lists.
use bitfs.Base.{
  ◌≡◌, refl, ◌↔◌, ◌⊎◌, inl, inr, ◌≢◌, true, List, [], ◌∷◌, ◌++◌, none, sym, ap, subst, ok, ◌∙◌,
  append_assoc, Bool-cases, Option-cases,
}
use bitfs.Base.Int.{pos, to_int}
use bitfs.Base.Text.{Text, NoNul, Lacks-of_append, text_ord}
use bitfs.Base.Ordered.{contains, IsSorted}
use bitfs.Base.Dict.{Dict, lookup}
use bitfs.Boost.{slash, IsSplit}
use bitfs.Torrent.{TorrentInfo}
use bitfs.Tree.{empty_tree, at, has_dir, fill_tree}
use bitfs.Tree.Paths.{IsFile, IsDir, key, has_dir_iff}
use bitfs.Tree.Entries.{fill_tree-IsSorted, IsEntry, entries_iff, IsDir-lookup}
use bitfs.Fs.{Stat, no_entry, dir_mode, file_mode, dir_key, getattr, touch, fill_names, readdir}
use bitfs.Fs.Attributes.{NoNulPaths, dir_key-key, dir_stat, regular_stat, getattr_cases}

touch_known : (x : Text) (m : Dict Text (List Text)) → lookup x m ≢ none → touch x m ≡ m
unfolding touch
touch_known x m h = elim (Option-cases (lookup x m)) [
  | inl e ↦ absurd (h e)
  | inr (v, e) ↦ rw (e, touch) refl
]

-- The path of an entry n of the directory with path "/" and s.
abbrev pub child : Text → Text → Text
child [] n = n
child (c ∷ s) n = c ∷ (s ++ (slash ∷ n))

module _ (split : Text → List Text) (law : IsSplit split) (ti : TorrentInfo) where
  -- For a path without NUL: on a directory readdir hands the filler, in strictly increasing order, exactly the names
  -- that come next after the directory in the files' paths, each cut at a NUL, and returns 0.
  -- On another path it returns -ENOENT and hands over nothing. The directory map stays as it was.
  pub readdir_cases {ℓ} :
      {B : Type ℓ} (filler : B → Text → B) (s : Text) (buf : B)
      → NoNul s
      → let t = fill_tree split ti empty_tree in
        let result = readdir filler t (slash ∷ s) buf in
        (IsDir ti s
          × ((names : List Text) × IsSorted names
              × ((n : Text) → (contains names n ≡ true) ↔ IsEntry ti s n)
              × (result ≡ (pos 0, fill_names filler names buf, t))))
        ⊎ ((¬ IsDir ti s) × (result ≡ (no_entry, buf, t)))
  unfolding readdir
  readdir_cases filler s buf h =
      rw (dir_key-key s h) (elim (Bool-cases (has_dir (fill_tree split ti empty_tree) (key s))) [
        | inl e ↦
            let d : IsDir ti s = (has_dir_iff split law ti s h).0 e in
            inl (
              d,
              (
                at (key s) (fill_tree split ti empty_tree).entries,
                fill_tree-IsSorted split ti (key s),
                entries_iff split law ti s,
                rw (e, touch_known (key s) _ (IsDir-lookup split law ti s d)) refl,
              ),
            )
        | inr e ↦ inr (λ d. cc ((has_dir_iff split law ti s h).1 d), rw e refl)
      ])

  entry-child : (s n : Text) → IsEntry ti s n → IsDir ti (child s n) ⊎ IsFile ti (child s n)
  entry-child [] n (k, b, (l, inl e)) = inr (k, b, e)
  entry-child [] n (k, b, (l, inr (v, e))) = inl (k, b, inr (v, e))
  entry-child (c ∷ s) n (k, b, (q, e, (l, inl f))) =
      inr (k, b, subst (λ u. c ∷ (s ++ (slash ∷ u)) ≡ ti.file_path k) (sym f) e)
  entry-child (c ∷ s) n (k, b, (q, e, (l, inr (v, f)))) = inl (
    k,
    b,
    inr (
      v,
      ap (◌∷◌ c) (append_assoc s (slash ∷ n) (slash ∷ v))
          ∙ subst (λ u. c ∷ (s ++ (slash ∷ u)) ≡ ti.file_path k) (sym f) e,
    ),
  )

  known-NoNul : NoNulPaths ti → (s : Text) → IsDir ti s ⊎ IsFile ti s → NoNul s
  known-NoNul clean s (inl (k, b, inl e)) = subst NoNul (sym e) tt
  known-NoNul clean s (inl (k, b, inr (q, e))) =
      Lacks-of_append 0 s (slash ∷ q) (subst NoNul (sym e) (clean k))
  known-NoNul clean s (inr (k, b, e)) = subst NoNul (sym e) (clean k)

  -- In a torrent whose paths have no NUL, whatever readdir lists can be looked up: at the path of an entry of a directory getattr
  -- succeeds, with the attributes of a directory or of a regular file.
  pub getattr-entry :
      NoNulPaths ti
      → (s n : Text) → NoNul s
      → let t = fill_tree split ti empty_tree in
        contains (at (dir_key (slash ∷ s)) t.entries) n ≡ true
        → (stat : Stat) × (getattr ti t (slash ∷ child s n) ≡ ok (pos 0, stat))
          × ((stat.st_mode ≡ dir_mode) ⊎ (stat.st_mode ≡ file_mode))
  getattr-entry clean s n h listed =
      let entry : IsEntry ti s n = (entries_iff split law ti s n).0 (
        subst (λ k. contains (at k (fill_tree split ti empty_tree).entries) n ≡ true)
          (dir_key-key s h) listed) in
      let known : IsDir ti (child s n) ⊎ IsFile ti (child s n) = entry-child s n entry in
      elim (getattr_cases split law ti clean (child s n) (known-NoNul clean (child s n) known)) [
        | inl (d, e) ↦ (dir_stat, e, inl refl)
        | inr (inl (_, (k, _, e))) ↦ (regular_stat (to_int (ti.file_size k)), e, inr refl)
        | inr (inr (not_dir, not_file, _)) ↦
            absurd (elim known [ inl d ↦ not_dir d | inr f ↦ not_file f ])
      ]
