-- ===== src/Tree/Fill.antt =====
-- What one file adds to the directory map (the inner loop of init_bitfs), component by component.
use bitfs.Base.{
  ◌≡◌, refl, ◌↔◌, ◌⊎◌, inl, inr, ◌≢◌, true, List, [], ◌∷◌, arith, if◌then◌else◌, Bool-cases,
}
use bitfs.Base.Text.{Text, text_ord}
use bitfs.Base.Ordered.{contains, contains-insert_iff, same, same→eq, same_refl}
use bitfs.Base.Dict.{Dict, set, lookup-set}
use bitfs.Boost.{slash, join, AllLack}
use bitfs.Tree.{Tree, at, insert_entry, below, fill_components}
use bitfs.Tree.Spec.{
  FileAt, DirAt, EntryAt, below-below, not_split, DirAt-iff, EntryAt-iff, EntryAt-one,
}

-- What a later step adds, and what this one does, are together what the whole adds.
pub step_iff : {A B C D E F : Type 0} → A ↔ (B ⊎ C) → C ↔ (D ⊎ E) → F ↔ (D ⊎ B) → A ↔ (F ⊎ E)
step_iff later here split = (
  λ a. elim (later.0 a) [
    | inl b ↦ inl (split.1 (inr b))
    | inr c ↦ elim (here.0 c) [ inl x ↦ inl (split.1 (inl x)) | inr e ↦ inr e ]
  ],
  elim [
    | inl f ↦ elim (split.0 f) [ inl x ↦ later.1 (inr (here.1 (inl x))) | inr b ↦ later.1 (inl b) ]
    | inr e ↦ later.1 (inr (here.1 (inr e)))
  ],
)

pub at-set :
    (x d : Text) (v : List Text) (m : Dict Text (List Text))
    → at x (set d v m) ≡ (if same x d then v else at x m)
unfolding at
at-set x d v m = rw (lookup-set x d v m) (ground arith)

pub insert_entry_iff :
    (d a x n : Text) (m : Dict Text (List Text))
    → (contains (at x (insert_entry d a m)) n ≡ true)
      ↔ (((x ≡ d) × (n ≡ a)) ⊎ (contains (at x m) n ≡ true))
unfolding insert_entry
insert_entry_iff d a x n m = elim (Bool-cases (same x d)) [
  | inl e ↦
      let same_key : x ≡ d = same→eq x d e in
      (
        λ h. elim ((contains-insert_iff a n (at d m)).0 (rw (at-set, e) at h)) [
          | inl f ↦ inl (same_key, f)
          | inr f ↦ inr (rw same_key f)
        ],
        elim [
          | inl f ↦ rw (at-set, e) ((contains-insert_iff a n (at d m)).1 (inl f.1))
          | inr f ↦ rw (at-set, e) ((contains-insert_iff a n (at d m)).1 (inr (rw same_key at f)))
        ],
      )
  | inr e ↦ (
    λ h. inr (rw (at-set, e) at h),
    elim [ inl f ↦ absurd (ground (arith, f.0, same_refl d)) | inr f ↦ rw (at-set, e) f ],
  )
]

module _ (x : Text) where
  pub fill_components-filenames :
      (d : Text) (cs : List Text) (t : Tree)
      → cs ≢ []
      → (contains (fill_components d cs t).filenames x ≡ true)
        ↔ (FileAt d (join cs) x ⊎ (contains t.filenames x ≡ true))
  unfolding fill_components join
  fill_components-filenames d [] t h = absurd (h refl)
  fill_components-filenames d (s ∷ []) t h = contains-insert_iff (below d s) x t.filenames
  fill_components-filenames d (s ∷ s' ∷ rest) t h =
      rw (← below-below d s (join (s' ∷ rest)))
        (fill_components-filenames (below d s) (s' ∷ rest) _ (λ e. cc))

  pub fill_components-dirmap :
      (d : Text) (cs : List Text) (t : Tree)
      → cs ≢ []
      → AllLack slash cs
      → (contains (fill_components d cs t).dirmap x ≡ true)
        ↔ (DirAt d (join cs) x ⊎ (contains t.dirmap x ≡ true))
  unfolding fill_components join
  fill_components-dirmap d [] t h l = absurd (h refl)
  fill_components-dirmap d (s ∷ []) t h l =
      (inr, elim [ inl (w, q, _, f) ↦ absurd (not_split slash w s q l.0 f) | inr e ↦ e ])
  fill_components-dirmap d (s ∷ s' ∷ rest) t h l =
      step_iff (fill_components-dirmap (below d s) (s' ∷ rest) _ (λ e. cc) l.1)
        (contains-insert_iff (below d s) x t.dirmap) (DirAt-iff d s (join (s' ∷ rest)) l.0 x)

  pub fill_components-entries :
      (n d : Text) (cs : List Text) (t : Tree)
      → cs ≢ []
      → AllLack slash cs
      → (contains (at x (fill_components d cs t).entries) n ≡ true)
        ↔ (EntryAt d (join cs) x n ⊎ (contains (at x t.entries) n ≡ true))
  unfolding fill_components join
  fill_components-entries n d [] t h l = absurd (h refl)
  fill_components-entries n d (s ∷ []) t h l = (
    λ e. elim (here.0 e) [ inl (f, g) ↦ inl (inl (f, (rw g l.0, inl g))) | inr f ↦ inr f ],
    elim [ inl f ↦ here.1 (inl (EntryAt-one d s l.0 x n f)) | inr f ↦ here.1 (inr f) ],
  )
    where
      here :
          (contains (at x (insert_entry d s t.entries)) n ≡ true)
          ↔ (((x ≡ d) × (n ≡ s)) ⊎ (contains (at x t.entries) n ≡ true))
      here = insert_entry_iff d s x n t.entries
  fill_components-entries n d (s ∷ s' ∷ rest) t h l =
      step_iff (fill_components-entries n (below d s) (s' ∷ rest) _ (λ e. cc) l.1)
        (insert_entry_iff d s x n t.entries) (EntryAt-iff d s (join (s' ∷ rest)) l.0 x n)
