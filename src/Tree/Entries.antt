-- ===== src/Tree/Entries.antt =====
-- The entries of a directory, after init_bitfs has filled the map: their order, and where they are.
use bitfs.Base.{
  ℕ, zero, suc, ◌+◌, ◌≡◌, refl, ◌↔◌, inl, inr, ◌≢◌, true, List, [], ◌∷◌, ◌++◌, none, sym, ap, subst,
  Bool-cases,
}
use native.Mathlib.Decide.{ℕ_discrete}
use bitfs.Base.Text.{Text, text_ord}
use bitfs.Base.Ordered.{contains, same, IsSorted, insert-IsSorted}
use bitfs.Base.Dict.{Dict, lookup}
use bitfs.Boost.{slash, IsSplit}
use bitfs.Torrent.{TorrentInfo}
use bitfs.Tree.{
  Tree, empty_tree, at, insert_entry, below, root, fill_components, add_file, fill_from, fill_tree,
}
use bitfs.Tree.Spec.{Leads, EntryAt}
use bitfs.Tree.Fill.{at-set}
use bitfs.Tree.Names.{SomeFile, fill_tree-entries}
use bitfs.Tree.Paths.{IsDir, key, below-injective}

abbrev EntriesSorted : Tree → Type 0
EntriesSorted t = (x : Text) → IsSorted (at x t.entries)

insert_entry-IsSorted :
    (d a : Text) (m : Dict Text (List Text))
    → ((x : Text) → IsSorted (at x m))
    → (x : Text) → IsSorted (at x (insert_entry d a m))
unfolding insert_entry
insert_entry-IsSorted d a m s x = elim (Bool-cases (same x d)) [
  | inl e ↦ rw (at-set, e) (insert-IsSorted a (at d m) (s d))
  | inr e ↦ rw (at-set, e) (s x)
]

fill_components-IsSorted :
    (d : Text) (cs : List Text) (t : Tree)
    → EntriesSorted t
    → EntriesSorted (fill_components d cs t)
unfolding fill_components
fill_components-IsSorted d [] t s = s
fill_components-IsSorted d (a ∷ []) t s = insert_entry-IsSorted d a t.entries s
fill_components-IsSorted d (a ∷ b ∷ rest) t s =
    fill_components-IsSorted (below d a) (b ∷ rest) _ (insert_entry-IsSorted d a t.entries s)

fill_from-IsSorted :
    (split : Text → List Text) (ti : TorrentInfo) (n i : ℕ) (t : Tree)
    → EntriesSorted t
    → EntriesSorted (fill_from split ti n i t)
unfolding fill_from add_file
fill_from-IsSorted split ti zero i t s = s
fill_from-IsSorted split ti (suc n) i t s =
    fill_from-IsSorted split ti n (i + 1) _ (fill_components-IsSorted root _ _ s)

-- Each directory's names increase strictly.
pub fill_tree-IsSorted :
    (split : Text → List Text) (ti : TorrentInfo) → EntriesSorted (fill_tree split ti empty_tree)
unfolding fill_tree at lookup
fill_tree-IsSorted split ti = fill_from-IsSorted split ti ti.num_files 0 empty_tree (λ x. tt)

-- n comes next after the directory s in the path p.
abbrev pub Next : Text → Text → Text → Type 0
Next [] n p = Leads n p
Next (c ∷ s) n p = (q : Text) × (c ∷ (s ++ (slash ∷ q)) ≡ p) × Leads n q

-- n comes next after the directory s in some path.
abbrev pub IsEntry : TorrentInfo → Text → Text → Type 0
IsEntry ti s n = SomeFile ti (Next s n)

not_below-root : (w : Text) → root ≢ below root w
not_below-root [] e = cc
not_below-root (c ∷ w) e = cc

EntryAt-key : (s n p : Text) → EntryAt root p (key s) n ↔ Next s n p
EntryAt-key [] n p =
    (elim [ inl e ↦ e.1 | inr (w, q, e, f, l) ↦ absurd (not_below-root w e) ], λ l. inl (refl, l))
EntryAt-key (c ∷ s) n p = (
  elim [
    | inl e ↦ absurd (not_below-root (c ∷ s) (sym e.0))
    | inr (w, q, e, f, l) ↦
        (q, subst (λ u. u ++ (slash ∷ q) ≡ p) (sym (below-injective root (c ∷ s) w e)) f, l)
  ],
  λ (q, f, l). inr (c ∷ s, q, refl, f, l),
)

not_in_missing :
    (m : Dict Text (List Text)) (x n : Text) → lookup x m ≡ none → contains (at x m) n ≢ true
unfolding at contains
not_in_missing m x n e l = cc (rw (e, at) at l)

-- Every text has a first component.
pub first_component : (q : Text) → (n : Text) × Leads n q
first_component [] = ([], (tt, inl refl))
first_component (c ∷ q) = elim (ℕ_discrete c slash) [
  | yes e ↦ ([], (tt, inr (q, ap (λ b. b ∷ q) (sym e))))
  | no e ↦
      let (n, (l, f)) = first_component q in
      (c ∷ n, ((e, l), elim f [ inl g ↦ inl (ap (◌∷◌ c) g) | inr (v, g) ↦ inr (v, ap (◌∷◌ c) g) ]))
]

module _ (split : Text → List Text) (law : IsSplit split) (ti : TorrentInfo) where
  pub entries_iff :
      (s n : Text)
      → (contains (at (key s) (fill_tree split ti empty_tree).entries) n ≡ true) ↔ IsEntry ti s n
  entries_iff s n = (
    λ e.
        let (k, b, f) = (fill_tree-entries split law ti (key s) n).0 e in
        (k, b, (EntryAt-key s n _).0 f),
    λ (k, b, f). (fill_tree-entries split law ti (key s) n).1 (k, b, (EntryAt-key s n _).1 f),
  )

  IsDir-IsEntry : (s : Text) → IsDir ti s → (n : Text) × IsEntry ti s n
  IsDir-IsEntry [] (k, b, _) = let (n, l) = first_component (ti.file_path k) in (n, (k, b, l))
  IsDir-IsEntry (c ∷ s) (k, b, inl e) = cc
  IsDir-IsEntry (c ∷ s) (k, b, inr (q, f)) =
      let (n, l) = first_component q in (n, (k, b, (q, f, l)))

  -- No directory is empty, so each has its key in the map.
  pub IsDir-lookup :
      (s : Text) → IsDir ti s → lookup (key s) (fill_tree split ti empty_tree).entries ≢ none
  IsDir-lookup s d e =
      let (n, l) = IsDir-IsEntry s d in not_in_missing _ (key s) n e ((entries_iff s n).1 l)
