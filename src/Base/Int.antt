-- ===== src/Base/Int.antt =====
-- Go's int64 as an integer: every value the source holds lies between -2^63 and 2^63 - 1, and the
-- source adds only where it has tested the bound. Orders go through the two parts of an integer.
use cote_ai_simulation.Base.{
  ℕ, suc, ◌+◌, ◌-◌, ◌≤◌, ◌<◌, ◌≡◌, Bool, true, arith, ltb, leb, ◌==◌, if◌then◌else◌, ◌^◌,
}

-- `negsuc n` is -(n + 1).
pub data ℤ : Type 0 where
  pos : ℕ → ℤ
  negsuc : ℕ → ℤ

abbrev pub pos_part : ℤ → ℕ
pos_part (pos n) = n
pos_part (negsuc n) = 0

abbrev pub neg_part : ℤ → ℕ
neg_part (pos n) = 0
neg_part (negsuc n) = suc n

infix 50 ◌≤ℤ◌ ◌<ℤ◌
abbrev pub ◌≤ℤ◌ : ℤ → ℤ → Type 0
a ≤ℤ b = pos_part a + neg_part b ≤ pos_part b + neg_part a

abbrev pub ◌<ℤ◌ : ℤ → ℤ → Type 0
a <ℤ b = pos_part a + neg_part b < pos_part b + neg_part a

abbrev pub ltb_ℤ : ℤ → ℤ → Bool
ltb_ℤ a b = ltb (pos_part a + neg_part b) (pos_part b + neg_part a)

abbrev pub leb_ℤ : ℤ → ℤ → Bool
leb_ℤ a b = leb (pos_part a + neg_part b) (pos_part b + neg_part a)

abbrev pub eqb_ℤ : ℤ → ℤ → Bool
eqb_ℤ a b = (pos_part a + neg_part b) == (pos_part b + neg_part a)

-- a + 1
unfoldable pub succ_ℤ : ℤ → ℤ
succ_ℤ (pos n) = pos (n + 1)
succ_ℤ (negsuc n) = if n == 0 then pos 0 else negsuc (n - 1)

pub eq_of_parts : (a b : ℤ) → pos_part a + neg_part b ≡ pos_part b + neg_part a → a ≡ b
eq_of_parts a b h = ground arith

pub eqb_ℤ_refl : (a : ℤ) → eqb_ℤ a a ≡ true
eqb_ℤ_refl a = ground arith

pub eqb_ℤ-eq : (a b : ℤ) → eqb_ℤ a b ≡ true → a ≡ b
eqb_ℤ-eq a b h = ground arith

pub succ_ℤ_parts : (a : ℤ) → pos_part (succ_ℤ a) + neg_part a ≡ neg_part (succ_ℤ a) + pos_part a + 1
unfolding succ_ℤ
succ_ℤ_parts a = ground arith

-- 2^63, the first value above int64, and 2^64, the first above uint64.
abbrev pub int64_bound : ℕ
int64_bound = 2 ^ 63

abbrev pub uint64_bound : ℕ
uint64_bound = 2 ^ 64

abbrev pub max_int64 : ℤ
max_int64 = pos (2 ^ 63 - 1)

-- The value fits an int64.
abbrev pub IsInt64 : ℤ → Type 0
IsInt64 a = (pos_part a < int64_bound) × (neg_part a ≤ int64_bound)

-- The conversions uint64(a) and, of a value below 2^63, int64(n).
abbrev pub to_uint64 : ℤ → ℕ
to_uint64 (pos n) = n
to_uint64 (negsuc n) = 2 ^ 64 - suc n

-- The integer a - b of two natural numbers.
abbrev pub difference : ℕ → ℕ → ℤ
difference a b = if leb b a then pos (a - b) else negsuc (b - a - 1)

infixl 60 ◌+ℤ◌ ◌-ℤ◌
abbrev pub ◌+ℤ◌ : ℤ → ℤ → ℤ
a +ℤ b = difference (pos_part a + pos_part b) (neg_part a + neg_part b)

abbrev pub ◌-ℤ◌ : ℤ → ℤ → ℤ
a -ℤ b = difference (pos_part a + neg_part b) (neg_part a + pos_part b)
