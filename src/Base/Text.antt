-- ===== src/Base/Text.antt =====
-- std::string and C strings as lists of bytes.
use bitfs.Base.{
  ℕ, ◌≡◌, ◌≢◌, refl, Bool, true, false, ◌&&◌, ◌||◌, List, [], ◌∷◌, ◌++◌, arith, ltb, ◌==◌,
  if◌then◌else◌,
}
use bitfs.Base.Ordered.{Ord}

abbrev pub Text : Type 0
Text = List ℕ

-- The std::string that a C string gives: the bytes before the first NUL.
unfoldable pub c_str : Text → Text
c_str [] = []
c_str (c ∷ s) = if c == 0 then [] else c ∷ c_str s

-- operator== of std::string, and strcmp(...) == 0 on the texts that it reads.
unfoldable pub text_eq : Text → Text → Bool
text_eq [] [] = true
text_eq [] (_ ∷ _) = false
text_eq (_ ∷ _) [] = false
text_eq (a ∷ s) (b ∷ t) = a == b && text_eq s t

-- operator< of std::string: byte by byte, a proper prefix first.
unfoldable pub text_less : Text → Text → Bool
text_less [] [] = false
text_less [] (_ ∷ _) = true
text_less (_ ∷ _) [] = false
text_less (a ∷ s) (b ∷ t) = ltb a b || a == b && text_less s t

pub text_less_irrefl : (s : Text) → text_less s s ≡ false
unfolding text_less
text_less_irrefl [] = refl
text_less_irrefl (a ∷ s) = ground (arith, text_less_irrefl s)

pub text_less_trans :
    (s t u : Text) → text_less s t ≡ true → text_less t u ≡ true → text_less s u ≡ true
unfolding text_less
text_less_trans [] [] u p q = q
text_less_trans [] (b ∷ t) [] p q = cc
text_less_trans [] (b ∷ t) (c ∷ u) p q = refl
text_less_trans (a ∷ s) [] u p q = cc
text_less_trans (a ∷ s) (b ∷ t) [] p q = cc
text_less_trans (a ∷ s) (b ∷ t) (c ∷ u) p q = ground (arith, text_less_trans s t u)

pub text_less_total : (s t : Text) → text_less s t ≡ false → text_less t s ≡ false → s ≡ t
unfolding text_less
text_less_total [] [] p q = refl
text_less_total [] (b ∷ t) p q = cc
text_less_total (a ∷ s) [] p q = cc
text_less_total (a ∷ s) (b ∷ t) p q = ground (arith, text_less_total s t)

instance abbrev pub text_ord : Ord Text
text_ord = record {
  less = text_less;
  less_irrefl = text_less_irrefl;
  less_trans = text_less_trans;
  less_total = text_less_total;
}

pub text_eq_refl : (s : Text) → text_eq s s ≡ true
unfolding text_eq
text_eq_refl [] = refl
text_eq_refl (a ∷ s) = ground (arith, text_eq_refl s)

pub text_eq→eq : (s t : Text) → text_eq s t ≡ true → s ≡ t
unfolding text_eq
text_eq→eq [] [] h = refl
text_eq→eq [] (b ∷ t) h = cc
text_eq→eq (a ∷ s) [] h = cc
text_eq→eq (a ∷ s) (b ∷ t) h = ground (arith, text_eq→eq s t)

-- A text without a byte of this value.
abbrev pub Lacks : ℕ → Text → Type 0
Lacks b [] = Unit
Lacks b (c ∷ s) = (c ≢ b) × Lacks b s

abbrev pub NoNul : Text → Type 0
NoNul = Lacks 0

pub Lacks-append : (b : ℕ) (s t : Text) → Lacks b s → Lacks b t → Lacks b (s ++ t)
Lacks-append b [] t p q = q
Lacks-append b (c ∷ s) t p q = (p.0, Lacks-append b s t p.1 q)

pub Lacks-of_append : (b : ℕ) (s t : Text) → Lacks b (s ++ t) → Lacks b s
Lacks-of_append b [] t h = tt
Lacks-of_append b (c ∷ s) t h = (h.0, Lacks-of_append b s t h.1)

-- A text without NUL bytes survives the trip through `const char *`.
pub c_str_id : (s : Text) → NoNul s → c_str s ≡ s
unfolding c_str
c_str_id [] h = refl
c_str_id (c ∷ s) h = ground (arith, c_str_id s h.1)
