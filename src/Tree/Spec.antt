-- ===== src/Tree/Spec.antt =====
-- What the directory map means, in terms of the paths of the files alone.
use bitfs.Base.{ℕ, ◌≡◌, refl, sym, ap, subst, ◌∙◌, ◌⊎◌, inl, inr, ◌↔◌, [], ◌∷◌, ◌++◌, append_assoc}
use bitfs.Base.Text.{Text, Lacks}
use bitfs.Boost.{slash}
use bitfs.Tree.{below}

-- n is the first component of q.
abbrev pub Leads : Text → Text → Type 0
Leads n q = Lacks slash n × ((n ≡ q) ⊎ ((v : Text) × (n ++ (slash ∷ v) ≡ q)))

-- x is the key of the file with path p below the directory d.
abbrev pub FileAt : Text → Text → Text → Type 0
FileAt d p x = x ≡ below d p

-- x is d followed by a part w of the path p that ends before a separator.
abbrev pub DirAt : Text → Text → Text → Type 0
DirAt d p x = (w : Text) × (q : Text) × (x ≡ below d w) × (w ++ (slash ∷ q) ≡ p)

-- n is the component of the path p that comes next after the directory x.
abbrev pub EntryAt : Text → Text → Text → Text → Type 0
EntryAt d p x n =
    ((x ≡ d) × Leads n p)
    ⊎ ((w : Text) × (q : Text) × (x ≡ below d w) × (w ++ (slash ∷ q) ≡ p) × Leads n q)

pub below-below : (d s w : Text) → below (below d s) w ≡ below d (s ++ (slash ∷ w))
below-below d s w = simp append_assoc

-- Where two texts agree and the second starts with s and a separator, so does the first, unless
-- it is s.
pub split_at :
    (b : ℕ) (u s rest t : Text)
    → Lacks b s
    → u ++ (b ∷ rest) ≡ s ++ (b ∷ t)
    → ((u ≡ s) × (rest ≡ t)) ⊎ ((u' : Text) × (u ≡ s ++ (b ∷ u')) × (u' ++ (b ∷ rest) ≡ t))
split_at b [] [] rest t h e = inl (refl, cc)
split_at b [] (c ∷ s) rest t h e = absurd (h.0 (cc))
split_at b (x ∷ u) [] rest t h e = inr (u, cc, cc)
split_at b (x ∷ u) (c ∷ s) rest t h e =
    let same_rest : u ++ (b ∷ rest) ≡ s ++ (b ∷ t) = cc in
    let same_head : x ≡ c = cc in
    elim (split_at b u s rest t h.1 same_rest) [
      | inl (p, q) ↦ inl (cc, q)
      | inr (u', p, q) ↦ inr (u', cc, q)
    ]

-- A text without the separator is no prefix with a separator after it.
pub not_split : (b : ℕ) (u s rest : Text) → Lacks b s → u ++ (b ∷ rest) ≡ s → ⊥
not_split b [] [] rest h e = cc
not_split b [] (c ∷ s) rest h e = h.0 (cc)
not_split b (x ∷ u) [] rest h e = cc
not_split b (x ∷ u) (c ∷ s) rest h e = not_split b u s rest h.1 (cc)

-- In a path that starts with a component s, the directories are that of s and those below it.
pub DirAt-iff :
    (d s j : Text)
    → Lacks slash s
    → (x : Text) → DirAt d (s ++ (slash ∷ j)) x ↔ ((x ≡ below d s) ⊎ DirAt (below d s) j x)
DirAt-iff d s j h x = (
  λ (w, q, e, f). elim (split_at slash w s q j h f) [
    | inl (p, _) ↦ inl (e ∙ ap (below d) p)
    | inr (u, p, g) ↦ inr (u, q, e ∙ ap (below d) p ∙ sym (below-below d s u), g)
  ],
  elim [
    | inl e ↦ (s, j, e, refl)
    | inr (w, q, e, f) ↦ (s ++ (slash ∷ w), q, e ∙ below-below d s w, rw (← f) (append_assoc s _ _))
  ],
)

Leads-eq : (s j : Text) → Lacks slash s → (n : Text) → Leads n (s ++ (slash ∷ j)) → n ≡ s
Leads-eq s j h n (k, inl e) = absurd (not_split slash s n j k (sym e))
Leads-eq s j h n (k, inr (v, e)) = elim (split_at slash n s v j h e) [
  | inl (p, _) ↦ p
  | inr (u, p, _) ↦ absurd (not_split slash s n u k (sym p))
]

-- Its entries are s in the directory d, and those of the rest.
pub EntryAt-iff :
    (d s j : Text)
    → Lacks slash s
    → (x n : Text)
    → EntryAt d (s ++ (slash ∷ j)) x n ↔ (((x ≡ d) × (n ≡ s)) ⊎ EntryAt (below d s) j x n)
EntryAt-iff d s j h x n = (
  elim [
    | inl (e, l) ↦ inl (e, Leads-eq s j h n l)
    | inr (w, q, e, f, l) ↦ elim (split_at slash w s q j h f) [
      | inl (p, g) ↦ inr (inl (e ∙ ap (below d) p, subst (Leads n) g l))
      | inr (u, p, g) ↦ inr (inr (u, q, e ∙ ap (below d) p ∙ sym (below-below d s u), g, l))
    ]
  ],
  elim [
    | inl (e, f) ↦ inl (e, (subst (Lacks slash) (sym f) h, inr (j, ap (λ k. k ++ (slash ∷ j)) f)))
    | inr (inl (e, l)) ↦ inr (s, j, e, refl, l)
    | inr (inr (w, q, e, f, l)) ↦
        inr (s ++ (slash ∷ w), q, e ∙ below-below d s w, rw (← f) (append_assoc s _ _), l)
  ],
)

-- A path of one component has that entry alone.
pub EntryAt-one : (d s : Text) → Lacks slash s → (x n : Text) → EntryAt d s x n → (x ≡ d) × (n ≡ s)
EntryAt-one d s h x n (inl (e, (k, inl f))) = (e, f)
EntryAt-one d s h x n (inl (e, (k, inr (v, f)))) = absurd (not_split slash n s v h f)
EntryAt-one d s h x n (inr (w, q, e, f, l)) = absurd (not_split slash w s q h f)
