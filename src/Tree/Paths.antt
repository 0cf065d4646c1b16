-- ===== src/Tree/Paths.antt =====
-- has_file and has_dir at the path of a call of FUSE, which is "/" and a text s.
use mathlib.Core.List.{append_cancel_right}
use bitfs.Base.{
  ℕ, ◌≡◌, refl, ◌↔◌, ◌⊎◌, inl, inr, true, List, [], ◌∷◌, ◌++◌, arith, sym, ap, subst, Bool-cases,
}
use bitfs.Base.Text.{
  Text, NoNul, Lacks-append, c_str, c_str_id, text_ord, text_eq, text_eq→eq, text_eq_refl,
}
use bitfs.Base.Ordered.{contains, same, same→eq, same_refl}
use bitfs.Boost.{slash, IsSplit}
use bitfs.Torrent.{TorrentInfo}
use bitfs.Tree.{empty_tree, below, root, find_text, has_file, has_dir, fill_tree}
use bitfs.Tree.Spec.{DirAt}
use bitfs.Tree.Names.{SomeFile, fill_tree-filenames, fill_tree-dirmap}

-- s is the path of some file.
abbrev pub IsFile : TorrentInfo → Text → Type 0
IsFile ti s = SomeFile ti (λ p. s ≡ p)

-- s is the root, of a torrent with files, or what stands before a separator in some file's path.
abbrev pub IsDir : TorrentInfo → Text → Type 0
IsDir ti s = SomeFile ti (λ p. (s ≡ []) ⊎ ((q : Text) × (s ++ (slash ∷ q) ≡ p)))

pub below-injective : (d s p : Text) → below d s ≡ below d p → s ≡ p
below-injective [] s p e = append_cancel_right s p root e
below-injective (c ∷ d) s p e = below-injective d s p (cc)

text_eq-eq-same : (x s : Text) → text_eq x s ≡ same s x
text_eq-eq-same x s = elim (Bool-cases (text_eq x s)) [
  | inl e ↦ rw (text_eq→eq x s e, text_eq_refl s, same_refl s)
  | inr e ↦ elim (Bool-cases (same s x)) [
    | inl f ↦ absurd (cc (text_eq_refl x, ap (text_eq x) (same→eq s x f)))
    | inr f ↦ rw (e, f)
  ]
]

-- std::find and the sets' own search agree.
find_text-eq-contains : (xs : List Text) (s : Text) → find_text xs s ≡ contains xs s
unfolding find_text contains
find_text-eq-contains [] s = refl
find_text-eq-contains (x ∷ xs) s = rw (text_eq-eq-same, find_text-eq-contains xs s)

below-NoNul : (s : Text) → NoNul s → NoNul (below root s)
below-NoNul s h = (λ e. omega arith, Lacks-append 0 s root h (λ e. omega arith, tt))

-- The key under which the path "/" and s is looked up.
abbrev pub key : Text → Text
key [] = root
key (c ∷ s) = below root (c ∷ s)

module _ (split : Text → List Text) (law : IsSplit split) (ti : TorrentInfo) where
  pub has_file_iff :
      (s : Text)
      → NoNul s
      → (has_file (fill_tree split ti empty_tree) (below root s) ≡ true) ↔ IsFile ti s
  unfolding has_file
  has_file_iff s h =
      rw (c_str_id _ (below-NoNul s h), find_text-eq-contains)
        (
          λ e.
              let (k, b, f) = (fill_tree-filenames split law ti _).0 e in
              (k, b, below-injective root s _ f),
          λ (k, b, f). (fill_tree-filenames split law ti _).1 (k, b, ap (below root) f),
        )

  -- On the map that init_bitfs fills, has_dir holds of the key of a path without NUL exactly for
  -- the root of a torrent with a file, and for the paths that go on with a separator in some file's path.
  pub has_dir_iff :
      (s : Text) → NoNul s → (has_dir (fill_tree split ti empty_tree) (key s) ≡ true) ↔ IsDir ti s
  unfolding has_dir c_str
  has_dir_iff [] h = (
    λ e. let (k, b, _) = (fill_tree-dirmap split law ti _).0 e in (k, b, inl refl),
    λ (k, b, _). (fill_tree-dirmap split law ti _).1 (k, b, inl refl),
  )
  has_dir_iff (c ∷ s) h = rw (c_str_id _ (below-NoNul (c ∷ s) h)) (
    λ e. let (k, b, f) = (fill_tree-dirmap split law ti _).0 e in (k, b, inr (part k f)),
    λ (k, b, f). (fill_tree-dirmap split law ti _).1 (k, b, inr (place k f)),
  )
    where
      part :
          (k : ℕ)
          → (below root (c ∷ s) ≡ root) ⊎ DirAt root (ti.file_path k) (below root (c ∷ s))
          → (q : Text) × (c ∷ (s ++ (slash ∷ q)) ≡ ti.file_path k)
      part k (inl e) = cc
      part k (inr (w, q, e, f)) = (
        q,
        subst (λ u. u ++ (slash ∷ q) ≡ ti.file_path k) (sym (below-injective root (c ∷ s) w e)) f,
      )

      place :
          (k : ℕ)
          → ((c ∷ s) ≡ []) ⊎ ((q : Text) × (c ∷ (s ++ (slash ∷ q)) ≡ ti.file_path k))
          → DirAt root (ti.file_path k) (below root (c ∷ s))
      place k (inl e) = cc
      place k (inr (q, f)) = (c ∷ s, q, refl, f)

  -- Where there is no directory, has_file answers by the paths alone.
  pub has_file-key_iff :
      (s : Text)
      → NoNul s
      → ¬ IsDir ti s
      → (has_file (fill_tree split ti empty_tree) (key s) ≡ true) ↔ IsFile ti s
  unfolding has_file c_str
  has_file-key_iff [] h d = (
    λ e.
        let (k, b, _) = (fill_tree-filenames split law ti root).0 (rw find_text-eq-contains at e) in
        absurd (d (k, b, inl refl)),
    λ (k, b, _). absurd (d (k, b, inl refl)),
  )
  has_file-key_iff (c ∷ s) h d = has_file_iff (c ∷ s) h
