-- ===== src/Domain.antt =====
-- internal/csf/domain/types.go: the causal value objects. IDs and digests are lists of the 32 bytes
-- of the Go arrays; a revision, a sequence and an ordinal is the number that the uint64 holds.
pub mod Order
pub mod Patterns
use cote_ai_simulation.Base.{
  ℕ, ◌≡◌, refl, Bool, true, false, arith, ltb, ◌==◌, if◌then◌else◌, Ordering, length, List, Option,
  some, none, Result, ok, err, not,
}
use cote_ai_simulation.Base.Bytes.{Bytes, bytes_equal}
use cote_ai_simulation.Base.Int.{ℤ, ltb_ℤ}

pub record EligibilityCoordinate : Type 0 where
  pub not_before_instant : ℤ
  pub not_before_cycle_ordinal : ℕ

-- `Compare`; the source's -1, 0 and 1 are `lt`, `eq` and `gt`.
unfoldable pub compare_coordinate : EligibilityCoordinate → EligibilityCoordinate → Ordering
compare_coordinate c other =
    if ltb_ℤ c.not_before_instant other.not_before_instant
    then Ordering.lt
    else (if ltb_ℤ other.not_before_instant c.not_before_instant
        then Ordering.gt
        else (if ltb c.not_before_cycle_ordinal other.not_before_cycle_ordinal
            then Ordering.lt
            else (if ltb other.not_before_cycle_ordinal c.not_before_cycle_ordinal
                then Ordering.gt
                else Ordering.eq)))

-- The tests that callers make of the result: `< 0`, `<= 0`, `> 0` and `>= 0`.
abbrev pub is_lt : Ordering → Bool
is_lt o = elim o [ Ordering.lt ↦ true | _ ↦ false ]

abbrev pub is_le : Ordering → Bool
is_le o = elim o [ Ordering.gt ↦ false | _ ↦ true ]

abbrev pub is_gt : Ordering → Bool
is_gt o = elim o [ Ordering.gt ↦ true | _ ↦ false ]

abbrev pub is_ge : Ordering → Bool
is_ge o = elim o [ Ordering.lt ↦ false | _ ↦ true ]

-- `NewDigest` and `NewID`: `none` where the length is not 32.
unfoldable pub new_digest : Bytes → Option Bytes
new_digest value = if length value == 32 then some value else none

unfoldable pub new_id : Bytes → Option Bytes
new_id value = if length value == 32 then some value else none

-- `EqualPreimage`: the error is an identity collision.
unfoldable pub equal_preimage : Bytes → Bytes → Bool
equal_preimage existing candidate = bytes_equal existing candidate
