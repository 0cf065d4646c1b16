-- ===== src/Base/Dict.antt =====
-- std::map as an association list in order of insertion: no operation modelled here reads the
-- order of a map's keys.
use bitfs.Base.{◌≡◌, refl, List, [], ◌∷◌, Option, none, some, arith, if◌then◌else◌}
use bitfs.Base.Ordered.{Ord, same, same→eq, same_refl}

abbrev pub Dict {ℓ κ} : Type ℓ → Type κ → Type (ℓ ⊔ κ)
Dict K V = List (K × V)

module _ {ℓ κ} {K : Type ℓ} {V : Type κ} ⦃o : Ord K⦄ where
  unfoldable pub lookup : K → Dict K V → Option V
  lookup k [] = none
  lookup k ((j, v) ∷ m) = if same k j then some v else lookup k m

  -- m[k] = v
  unfoldable pub set : K → V → Dict K V → Dict K V
  set k v [] = (k, v) ∷ []
  set k v ((j, w) ∷ m) = if same k j then (k, v) ∷ m else (j, w) ∷ set k v m

  pub lookup-nil : (k : K) → lookup k [] ≡ none
  unfolding lookup
  lookup-nil k = refl

  pub lookup-set :
      (j k : K) (v : V) (m : Dict K V)
      → lookup j (set k v m) ≡ (if same j k then some v else lookup j m)
  unfolding lookup set
  lookup-set j k v [] = refl
  lookup-set j k v ((i, w) ∷ m) =
      ground (arith, same→eq k i, same→eq j i, same→eq j k, same_refl k, lookup-set j k v m)
