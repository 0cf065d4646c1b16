-- ===== src/Base/Ordered/Agreement.antt =====
-- A std::set is determined by what it contains.
use bitfs.Base.{◌≡◌, refl, sym, subst, true, List, [], ◌∷◌, ◌↔◌, ◌⊎◌, inl, inr, or_cases, arith}
use bitfs.Base.Ordered.{Ord, same_refl, same→eq, contains, IsSorted}

module _ {ℓ} {A : Type ℓ} ⦃o : Ord A⦄ where
  contains_cases :
      (x a : A) (xs : List A) → contains (x ∷ xs) a ≡ true → (a ≡ x) ⊎ (contains xs a ≡ true)
  unfolding contains
  contains_cases x a xs h = elim (or_cases _ _ h) [ inl e ↦ inl (same→eq a x e) | inr e ↦ inr e ]

  contains-head : (x : A) (xs : List A) → contains (x ∷ xs) x ≡ true
  unfolding contains
  contains-head x xs = rw (same_refl x) refl

  contains-tail : (x a : A) (xs : List A) → contains xs a ≡ true → contains (x ∷ xs) a ≡ true
  unfolding contains
  contains-tail x a xs h = ground arith

  IsSorted-tail : (x : A) (xs : List A) → IsSorted (x ∷ xs) → IsSorted xs
  IsSorted-tail x [] s = tt
  IsSorted-tail x (y ∷ xs) s = s.1

  -- The first item is less than all others.
  less_head :
      (x : A) (xs : List A) → IsSorted (x ∷ xs) → (a : A) → contains xs a ≡ true → o.less x a ≡ true
  unfolding contains
  less_head x [] s a h = cc
  less_head x (y ∷ xs) s a h = elim (contains_cases y a xs h) [
    | inl e ↦ subst (λ b. o.less x b ≡ true) (sym e) s.0
    | inr e ↦ o.less_trans x y a s.0 (less_head y xs s.1 a e)
  ]

  not_less : (a : A) → o.less a a ≡ true → ⊥
  not_less a h = cc (o.less_irrefl a, h)

  heads_equal :
      (x y : A) (xs ys : List A)
      → IsSorted (x ∷ xs)
      → IsSorted (y ∷ ys)
      → contains (y ∷ ys) x ≡ true
      → contains (x ∷ xs) y ≡ true
      → x ≡ y
  heads_equal x y xs ys s s' h h' = elim (contains_cases y x ys h) [
    | inl e ↦ e
    | inr e ↦ elim (contains_cases x y xs h') [
      | inl f ↦ sym f
      | inr f ↦
          absurd (not_less x (o.less_trans x y x (less_head x xs s y f) (less_head y ys s' x e)))
    ]
  ]

  tail_in :
      (x : A) (xs ys : List A)
      → IsSorted (x ∷ xs)
      → ((a : A) → contains (x ∷ xs) a ≡ true → contains (x ∷ ys) a ≡ true)
      → (a : A) → contains xs a ≡ true
      → contains ys a ≡ true
  tail_in x xs ys s h a e = elim (contains_cases x a ys (h a (contains-tail x a xs e))) [
    | inl f ↦ absurd (not_less x (subst (λ b. o.less x b ≡ true) f (less_head x xs s a e)))
    | inr f ↦ f
  ]

  pub sorted_unique :
      (xs ys : List A)
      → IsSorted xs
      → IsSorted ys
      → ((a : A) → (contains xs a ≡ true) ↔ (contains ys a ≡ true))
      → xs ≡ ys
  unfolding contains
  sorted_unique [] [] s s' h = refl
  sorted_unique [] (y ∷ ys) s s' h = cc ((h y).1 (contains-head y ys))
  sorted_unique (x ∷ xs) [] s s' h = cc ((h x).0 (contains-head x xs))
  sorted_unique (x ∷ xs) (y ∷ ys) s s' h =
      let e =
        heads_equal x y xs ys s s' ((h x).0 (contains-head x xs)) ((h y).1 (contains-head y ys)) in
      let into : (a : A) → contains (x ∷ xs) a ≡ true → contains (x ∷ ys) a ≡ true =
        subst (λ z. (a : A) → contains (x ∷ xs) a ≡ true → contains (z ∷ ys) a ≡ true) (sym e)
          (λ a. (h a).0) in
      let back : (a : A) → contains (x ∷ ys) a ≡ true → contains (x ∷ xs) a ≡ true =
        subst (λ z. (a : A) → contains (z ∷ ys) a ≡ true → contains (x ∷ xs) a ≡ true) (sym e)
          (λ a. (h a).1) in
      let rest = sorted_unique xs ys (IsSorted-tail x xs s) (IsSorted-tail y ys s') (λ a. (
        tail_in x xs ys s into a,
        tail_in x ys xs (subst (λ z. IsSorted (z ∷ ys)) (sym e) s') back a,
      )) in
      cc
