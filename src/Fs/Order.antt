-- ===== src/Fs/Order.antt =====
-- open and readdir after init_bitfs, as functions of the set of the torrent's paths.
use mathlib.Core.Quot
use mathlib.Core.Quot.{Quot}
use mathlib.Core.HLevel.{Σ_prop_path}
use bitfs.Base.{sym, ◌≡◌, refl, List, [], ◌∷◌, ◌++◌, inl, inr, Bool-cases}
use bitfs.Base.Int.{ℤ}
use bitfs.Base.Text.{Text}
use bitfs.Boost.{IsSplit}
use bitfs.Torrent.{TorrentInfo}
use bitfs.Tree.{Tree, empty_tree, at, has_dir, has_file, fill_tree}
use bitfs.Tree.Order.{SamePaths, fill_tree-SamePaths}
use bitfs.Fs.{dir_key, open_file, readdir}

-- What open returns, what readdir returns, and the names that it hands to its filler.
abbrev pub Answer : Type 0
Answer = ℤ × ℤ × List Text

abbrev append_name : List Text → Text → List Text
append_name names name = names ++ (name ∷ [])

unfoldable pub answer : Tree → Text → Answer
answer t path = let listed = readdir append_name t path [] in (open_file t path, listed.0, listed.1)

Answer-set : IsSet Answer
Answer-set = hlevel

answer-eq :
    (t u : Tree)
    → t.filenames ≡ u.filenames
    → t.dirmap ≡ u.dirmap
    → ((x : Text) → at x t.entries ≡ at x u.entries)
    → (path : Text) → answer t path ≡ answer u path
unfolding answer open_file readdir has_dir has_file
answer-eq t u f d e path = elim (Bool-cases (has_dir u (dir_key path))) [
  | inl b ↦ rw (f, d, e, b) refl
  | inr b ↦ rw (f, d, b) refl
]

-- Torrents, up to having the same set of paths.
abbrev pub PathSet : Type 0
PathSet = Quot SamePaths

module _ (split : Text → List Text) (law : IsSplit split) where
  abbrev mounted : TorrentInfo → Text → Answer
  mounted ti = answer (fill_tree split ti empty_tree)

  mounted-SamePaths : (a b : TorrentInfo) → SamePaths a b → mounted a ≡ mounted b
  mounted-SamePaths a b h =
      let (f, d, e) = fill_tree-SamePaths split law a b h in
      λ i path. answer-eq (fill_tree split a empty_tree) (fill_tree split b empty_tree) f d e path i

  answers : PathSet → Text → Answer
  answers = Quot.lift (hlevel) mounted mounted-SamePaths

  -- A function of the set of paths that gives what open and readdir answer after init_bitfs.
  abbrev pub Factors : Type 0
  Factors =
      (f : PathSet → Text → Answer) × ((ti : TorrentInfo) (path : Text)
        → f (Quot.mk ti) path ≡ answer (fill_tree split ti empty_tree) path)

  -- After init_bitfs what open and readdir return, and the names that readdir lists, are a function of the set of
  -- the torrent's paths and the path of the call, whatever the order and number of the files: there
  -- is exactly one function on torrents up to having the same set of paths that gives these answers.
  pub open-readdir_factor : (f : Factors) × ((g : Factors) → f ≡ g)
  unfolding answers
  open-readdir_factor = (
    (answers, λ ti path. refl),
    λ (g, h).
        Σ_prop_path (λ f. hlevel)
          (λ i m path.
            Quot.ind (λ q. Answer-set (answers q path) (g q path)) (λ ti. sym (h ti path)) m i),
  )
