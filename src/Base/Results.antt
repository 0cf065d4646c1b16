-- ===== src/Base/Results.antt =====
-- How a call ends: with a value, in undefined behaviour, or not within the fuel.
use mathlib.Core.Path.{◌≡◌, refl, ap}

pub data Outcome {ℓ} (A : Type ℓ) : Type ℓ where
  fault timeout : Outcome A
  ok : A → Outcome A

infixl 5 ◌>>=◌
abbrev pub ◌>>=◌ {ℓ ℓ'} :
    {A : Type ℓ} {B : Type ℓ'} (first : Outcome A) (next : A → Outcome B) → Outcome B
fault >>= next = fault
timeout >>= next = timeout
ok result >>= next = next result

value {ℓ} : {A : Type ℓ} → A → Outcome A → A
value a (ok b) = b
value a fault = a
value a timeout = a

pub ok-injective {ℓ} : {A : Type ℓ} (a b : A) → ok a ≡ ok b → a ≡ b
unfolding value
ok-injective a b e = ap (value a) e

-- A chain ends with a value when its first part does, and the next one on that value.
pub bind_ok {ℓ ℓ'} :
    {A : Type ℓ} {B : Type ℓ'} (m : Outcome A) (next : A → Outcome B) (b : B)
    → (m >>= next) ≡ ok b
    → (a : A) × (m ≡ ok a) × (next a ≡ ok b)
bind_ok fault next b e = cc
bind_ok timeout next b e = cc
bind_ok (ok a) next b e = (a, refl, e)
