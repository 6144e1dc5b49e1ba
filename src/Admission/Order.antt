-- ===== src/Admission/Order.antt =====
-- The order of the admitted units (`unit.less` of internal/csf/admission/fence.go) is strict and
-- total, so the fence's list does not depend on the order in which the units are collected.
use cote_ai_simulation.Base.{◌≡◌, true, false, arith}
use cote_ai_simulation.Base.Bytes.{
  bytes_compare-eq, bytes_compare_refl, bytes_compare-flip, bytes_compare-unflip,
  bytes_compare_trans,
}
use cote_ai_simulation.Base.Sort.{IsStrictOrder}
use cote_ai_simulation.Domain.Order.{
  compare_refl, compare-flip, compare-unflip, compare-eq, compare_trans,
}
use cote_ai_simulation.Admission.Units.{AdmittedUnit, unit_less}

module _ (a b : AdmittedUnit) where
  unit_less-asymm : unit_less a b ≡ true → unit_less b a ≡ false
  unfolding unit_less
  unit_less-asymm h = ground (
    arith,
    compare-flip a.eligibility b.eligibility,
    compare-eq a.eligibility b.eligibility,
    compare_refl b.eligibility,
    bytes_compare-flip a.source b.source,
    bytes_compare-eq a.source b.source,
    bytes_compare_refl b.source,
    bytes_compare-flip a.digest b.digest,
    bytes_compare-eq a.digest b.digest,
    bytes_compare_refl b.digest,
    bytes_compare-flip a.id b.id,
  )

  unit_less_antisymm : unit_less a b ≡ false → unit_less b a ≡ false → a ≡ b
  unfolding unit_less
  unit_less_antisymm h k = ground (
    arith,
    compare-unflip a.eligibility b.eligibility,
    compare-eq a.eligibility b.eligibility,
    compare_refl b.eligibility,
    bytes_compare-unflip a.source b.source,
    bytes_compare-eq a.source b.source,
    bytes_compare_refl b.source,
    bytes_compare-unflip a.digest b.digest,
    bytes_compare-eq a.digest b.digest,
    bytes_compare_refl b.digest,
    bytes_compare-unflip a.id b.id,
    bytes_compare-eq a.id b.id,
  )

unit_less_trans :
    (a b c : AdmittedUnit) → unit_less a b ≡ true → unit_less b c ≡ true → unit_less a c ≡ true
unfolding unit_less
unit_less_trans a b c h k = ground (
  arith,
  compare_trans a.eligibility b.eligibility c.eligibility,
  compare-eq a.eligibility b.eligibility,
  compare-eq b.eligibility c.eligibility,
  bytes_compare_trans a.source b.source c.source,
  bytes_compare-eq a.source b.source,
  bytes_compare-eq b.source c.source,
  bytes_compare_trans a.digest b.digest c.digest,
  bytes_compare-eq a.digest b.digest,
  bytes_compare-eq b.digest c.digest,
  bytes_compare_trans a.id b.id c.id,
)

pub unit_less-IsStrictOrder : IsStrictOrder unit_less
unit_less-IsStrictOrder = record {
  asymm = unit_less-asymm;
  trans = unit_less_trans;
  antisymm = unit_less_antisymm;
}
