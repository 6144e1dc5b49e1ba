-- ===== src/Base/Bytes.antt =====
-- Go byte strings, and fixed arrays of bytes, as lists of numbers: `bytes.Equal`, `==` on strings
-- and arrays, and the lexicographic `bytes.Compare` and `<` on strings.
use Prim.Native.String.{String}
use Prim.Native.Char.{code}
use cote_ai_simulation.Base.{
  ℕ, ◌≡◌, refl, ◌↔◌, Bool, true, false, List, [], ◌∷◌, arith, ltb, ◌==◌, if◌then◌else◌, Ordering,
  ◌&&◌, ◌≢◌, ◌+◌, ◌/◌, ◌%◌,
}

abbrev pub Bytes : Type 0
Bytes = List ℕ

-- The bytes of an ASCII literal of the source.
abbrev pub literal : String → Bytes
literal String.[] = []
literal (String.◌∷◌ c s) = code c ∷ literal s

-- `domain.ID{}`
abbrev pub zero_id : Bytes
zero_id =
    0 ∷ 0 ∷ 0 ∷ 0 ∷ 0 ∷ 0 ∷ 0 ∷ 0 ∷ 0 ∷ 0 ∷ 0 ∷ 0 ∷ 0 ∷ 0 ∷ 0 ∷ 0 ∷ 0 ∷ 0 ∷ 0 ∷ 0 ∷ 0 ∷ 0 ∷ 0 ∷ 0
    ∷ 0 ∷ 0 ∷ 0 ∷ 0 ∷ 0 ∷ 0 ∷ 0 ∷ 0 ∷ []

-- A digit of `%x`.
abbrev digit : ℕ → ℕ
digit n = if ltb n 10 then 48 + n else 87 + n

-- `%x` of bytes.
unfoldable pub hex : Bytes → Bytes
hex [] = []
hex (b ∷ bs) = digit (b / 16) ∷ digit (b % 16) ∷ hex bs

unfoldable pub bytes_equal : Bytes → Bytes → Bool
bytes_equal [] [] = true
bytes_equal [] (y ∷ ys) = false
bytes_equal (x ∷ xs) [] = false
bytes_equal (x ∷ xs) (y ∷ ys) = x == y && bytes_equal xs ys

pub bytes_equal_refl : (xs : Bytes) → bytes_equal xs xs ≡ true
unfolding bytes_equal
bytes_equal_refl [] = refl
bytes_equal_refl (x ∷ xs) = ground (arith, bytes_equal_refl xs)

pub bytes_equal-eq : (xs ys : Bytes) → bytes_equal xs ys ≡ true → xs ≡ ys
unfolding bytes_equal
bytes_equal-eq [] [] h = refl
bytes_equal-eq [] (y ∷ ys) h = cc
bytes_equal-eq (x ∷ xs) [] h = cc
bytes_equal-eq (x ∷ xs) (y ∷ ys) h = ground (arith, bytes_equal-eq xs ys)

pub bytes_equal_iff : (xs ys : Bytes) → (bytes_equal xs ys ≡ true) ↔ (xs ≡ ys)
bytes_equal_iff xs ys = (bytes_equal-eq xs ys, λ e. rw e (bytes_equal_refl ys))

pub bytes_equal-false : (xs ys : Bytes) → bytes_equal xs ys ≡ false → xs ≢ ys
bytes_equal-false xs ys h e = cc (bytes_equal_refl xs)

unfoldable pub bytes_compare : Bytes → Bytes → Ordering
bytes_compare [] [] = Ordering.eq
bytes_compare [] (y ∷ ys) = Ordering.lt
bytes_compare (x ∷ xs) [] = Ordering.gt
bytes_compare (x ∷ xs) (y ∷ ys) =
    let rest = bytes_compare xs ys in
    if ltb x y then Ordering.lt else if ltb y x then Ordering.gt else rest

pub bytes_compare-eq : (xs ys : Bytes) → bytes_compare xs ys ≡ Ordering.eq → xs ≡ ys
unfolding bytes_compare
bytes_compare-eq [] [] h = refl
bytes_compare-eq [] (y ∷ ys) h = cc
bytes_compare-eq (x ∷ xs) [] h = cc
bytes_compare-eq (x ∷ xs) (y ∷ ys) h = ground (arith, bytes_compare-eq xs ys)

pub bytes_compare_refl : (xs : Bytes) → bytes_compare xs xs ≡ Ordering.eq
unfolding bytes_compare
bytes_compare_refl [] = refl
bytes_compare_refl (x ∷ xs) = ground (arith, bytes_compare_refl xs)

pub bytes_compare-flip :
    (xs ys : Bytes) → bytes_compare xs ys ≡ Ordering.lt → bytes_compare ys xs ≡ Ordering.gt
unfolding bytes_compare
bytes_compare-flip [] [] h = cc
bytes_compare-flip [] (y ∷ ys) h = refl
bytes_compare-flip (x ∷ xs) [] h = cc
bytes_compare-flip (x ∷ xs) (y ∷ ys) h = ground (arith, bytes_compare-flip xs ys)

pub bytes_compare-unflip :
    (xs ys : Bytes) → bytes_compare xs ys ≡ Ordering.gt → bytes_compare ys xs ≡ Ordering.lt
unfolding bytes_compare
bytes_compare-unflip [] [] h = cc
bytes_compare-unflip [] (y ∷ ys) h = cc
bytes_compare-unflip (x ∷ xs) [] h = refl
bytes_compare-unflip (x ∷ xs) (y ∷ ys) h = ground (arith, bytes_compare-unflip xs ys)

pub bytes_compare_trans :
    (xs ys zs : Bytes)
    → bytes_compare xs ys ≡ Ordering.lt
    → bytes_compare ys zs ≡ Ordering.lt
    → bytes_compare xs zs ≡ Ordering.lt
unfolding bytes_compare
bytes_compare_trans [] [] zs h k = cc
bytes_compare_trans [] (y ∷ ys) [] h k = cc
bytes_compare_trans [] (y ∷ ys) (z ∷ zs) h k = refl
bytes_compare_trans (x ∷ xs) [] zs h k = cc
bytes_compare_trans (x ∷ xs) (y ∷ ys) [] h k = cc
bytes_compare_trans (x ∷ xs) (y ∷ ys) (z ∷ zs) h k = ground (arith, bytes_compare_trans xs ys zs)
