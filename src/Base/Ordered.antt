-- ===== src/Base/Ordered.antt =====
-- std::set as a sorted list without repetitions, over the keys' operator<.
pub mod Agreement
use bitfs.Base.{
  ℕ, ◌≡◌, refl, Bool, true, false, not, ◌&&◌, ◌||◌, List, [], ◌∷◌, arith, ltb, if◌then◌else◌,
  or_cases, ◌↔◌, ◌⊎◌, inl, inr,
}

-- A strict total order.
pub record Ord {ℓ} (A : Type ℓ) : Type ℓ where
  pub less : A → A → Bool
  pub less_irrefl : (a : A) → less a a ≡ false
  pub less_trans : (a b c : A) → less a b ≡ true → less b c ≡ true → less a c ≡ true
  pub less_total : (a b : A) → less a b ≡ false → less b a ≡ false → a ≡ b

instance abbrev pub nat_ord : Ord ℕ
nat_ord = record {
  less = ltb;
  less_irrefl = λ a. ground arith;
  less_trans = λ a b c p q. ground arith;
  less_total = λ a b p q. ground arith;
}

module _ {ℓ} {A : Type ℓ} ⦃o : Ord A⦄ where
  -- The containers take two keys for the same when neither is less than the other.
  unfoldable pub same : A → A → Bool
  same a b = not (o.less a b) && not (o.less b a)

  pub same_refl : (a : A) → same a a ≡ true
  unfolding same
  same_refl a = rw (o.less_irrefl a)

  pub same→eq : (a b : A) → same a b ≡ true → a ≡ b
  unfolding same
  same→eq a b h = ground (arith, o.less_total a b)

  unfoldable pub insert : A → List A → List A
  insert a [] = a ∷ []
  insert a (x ∷ xs) =
      let rest = insert a xs in
      if o.less a x then a ∷ x ∷ xs else if o.less x a then x ∷ rest else x ∷ xs

  unfoldable pub contains : List A → A → Bool
  contains [] a = false
  contains (x ∷ xs) a = same a x || contains xs a

  pub contains-nil : (a : A) → contains [] a ≡ false
  unfolding contains
  contains-nil a = refl

  pub contains-insert :
      (a b : A) (xs : List A) → contains (insert a xs) b ≡ (same b a || contains xs b)
  unfolding contains insert
  contains-insert a b [] = refl
  contains-insert a b (x ∷ xs) = ground (arith, contains-insert a b xs, o.less_total a x)

  -- Strictly increasing, from a bound that need not be there.
  abbrev pub IsSorted : List A → Type 0
  IsSorted [] = Unit
  IsSorted (x ∷ []) = Unit
  IsSorted (x ∷ y ∷ ys) = (o.less x y ≡ true) × IsSorted (y ∷ ys)

  pub insert-IsSorted : (a : A) (xs : List A) → IsSorted xs → IsSorted (insert a xs)
  unfolding insert
  insert-IsSorted a [] s = tt
  insert-IsSorted a (x ∷ []) s = ground arith
  insert-IsSorted a (x ∷ y ∷ ys) s = ground (arith, insert-IsSorted a (y ∷ ys))

  -- A lookup after an insertion finds the new key and the old ones.
  pub contains-insert_iff :
      (a b : A) (xs : List A)
      → (contains (insert a xs) b ≡ true) ↔ ((b ≡ a) ⊎ (contains xs b ≡ true))
  contains-insert_iff a b xs = (
    λ h. elim (or_cases _ _ (rw contains-insert at h)) [
      | inl e ↦ inl (same→eq b a e)
      | inr e ↦ inr e
    ],
    elim [
      | inl e ↦ rw (contains-insert, e, same_refl)
      | inr e ↦ rw (contains-insert, e) (ground arith)
    ],
  )
