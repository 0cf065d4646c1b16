-- ===== src/Base/Int.antt =====
-- The machine integers of the program: int as a signed number of 32 bits.
use bitfs.Base.{ℕ, suc, ◌+◌, ◌-◌, ◌%◌, ◌^◌, ◌≤◌, ◌<◌, ◌≡◌, Bool, arith, ltb, if◌then◌else◌}

-- `negsuc n` is -(n + 1).
pub data ℤ : Type 0 where
  pos : ℕ → ℤ
  negsuc : ℕ → ℤ

abbrev pub pos_part : ℤ → ℕ
pos_part (pos n) = n
pos_part (negsuc n) = 0

abbrev pub neg_part : ℤ → ℕ
neg_part (pos n) = 0
neg_part (negsuc n) = suc n

-- a - b, as an integer.
abbrev pub sub_ℕ : ℕ → ℕ → ℤ
sub_ℕ a b = if ltb a b then negsuc (b - a - 1) else pos (a - b)

abbrev pub ltb_ℤ : ℤ → ℤ → Bool
ltb_ℤ a b = ltb (pos_part a + neg_part b) (pos_part b + neg_part a)

-- std::min
abbrev pub min_ℤ : ℤ → ℤ → ℤ
min_ℤ a b = if ltb_ℤ b a then b else a

abbrev pub int_mod : ℕ
int_mod = 2 ^ 32

abbrev pub int_max : ℕ
int_max = 2 ^ 31 - 1

-- The conversion of a wider number to int keeps the low 32 bits, read as two's complement.
unfoldable pub to_int : ℕ → ℤ
to_int n =
    if ltb (n % int_mod) (2 ^ 31) then pos (n % int_mod) else negsuc (int_mod - n % int_mod - 1)

pub to_int_small : (n : ℕ) → n ≤ int_max → to_int n ≡ pos n
unfolding to_int
to_int_small n h = ground arith

-- Numbers from 2 ^ 31 up to 2 ^ 32 come out negative.
pub to_int_negative : (n : ℕ) → int_max < n → n < int_mod → to_int n ≡ negsuc (int_mod - n - 1)
unfolding to_int
to_int_negative n h k = ground arith

infixl 65 ◌-ℤ◌
unfoldable pub ◌-ℤ◌ : ℤ → ℤ → ℤ
a -ℤ b = sub_ℕ (pos_part a + neg_part b) (neg_part a + pos_part b)

infixl 65 ◌+ℤ◌
unfoldable pub ◌+ℤ◌ : ℤ → ℤ → ℤ
a +ℤ b = sub_ℕ (pos_part a + pos_part b) (neg_part a + neg_part b)

pub +ℤ-pos : (a b : ℕ) → pos a +ℤ pos b ≡ pos (a + b)
unfolding ◌+ℤ◌
+ℤ-pos a b = ground arith
