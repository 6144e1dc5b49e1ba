-- ===== src/Domain/Order.antt =====
-- The order of eligibility coordinates (internal/csf/domain/types.go, `Compare`).
use cote_ai_simulation.Base.{◌≡◌, ◌<◌, ◌⊎◌, true, arith, Ordering, inl, inr}
use cote_ai_simulation.Base.Int.{◌<ℤ◌, eq_of_parts}
use cote_ai_simulation.Domain.{EligibilityCoordinate, compare_coordinate, is_le}

-- Strictly earlier: by the instant, and within an instant by the cycle ordinal.
abbrev pub Before : EligibilityCoordinate → EligibilityCoordinate → Type 0
Before a b =
    (a.not_before_instant <ℤ b.not_before_instant)
    ⊎ ((a.not_before_instant ≡ b.not_before_instant)
        × (a.not_before_cycle_ordinal < b.not_before_cycle_ordinal))

module _ (a b : EligibilityCoordinate) where
  instants_eq : compare_coordinate a b ≡ Ordering.eq → a.not_before_instant ≡ b.not_before_instant
  unfolding compare_coordinate
  instants_eq h = eq_of_parts _ _ (ground arith)

  pub compare-eq : compare_coordinate a b ≡ Ordering.eq → a ≡ b
  unfolding compare_coordinate
  compare-eq h = ground (arith, instants_eq h)

  pub compare-Before : compare_coordinate a b ≡ Ordering.lt → Before a b
  unfolding compare_coordinate
  compare-Before h = ground (arith, eq_of_parts a.not_before_instant b.not_before_instant)

  pub Before-compare : Before a b → compare_coordinate a b ≡ Ordering.lt
  unfolding compare_coordinate
  Before-compare (inl h) = ground arith
  Before-compare (inr (e, h)) = ground arith

  pub compare-flip : compare_coordinate a b ≡ Ordering.lt → compare_coordinate b a ≡ Ordering.gt
  unfolding compare_coordinate
  compare-flip h = ground arith

  pub compare-unflip : compare_coordinate a b ≡ Ordering.gt → compare_coordinate b a ≡ Ordering.lt
  unfolding compare_coordinate
  compare-unflip h = ground arith

pub compare_refl : (a : EligibilityCoordinate) → compare_coordinate a a ≡ Ordering.eq
unfolding compare_coordinate
compare_refl a = ground arith

pub compare_trans :
    (a b c : EligibilityCoordinate)
    → compare_coordinate a b ≡ Ordering.lt
    → compare_coordinate b c ≡ Ordering.lt
    → compare_coordinate a c ≡ Ordering.lt
unfolding compare_coordinate
compare_trans a b c h k = ground arith

-- Not later than: the negation of a later coordinate.
pub le_trans :
    (a b c : EligibilityCoordinate)
    → is_le (compare_coordinate a b) ≡ true
    → is_le (compare_coordinate b c) ≡ true
    → is_le (compare_coordinate a c) ≡ true
unfolding compare_coordinate
le_trans a b c h k = ground arith
