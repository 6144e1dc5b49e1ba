-- ===== src/Schedule/Order.antt =====
-- The order of pending records (the comparison of internal/csf/schedule/schedule.go) is strict and
-- total, so sorting by it has one result.
use cote_ai_simulation.Base.{◌≡◌, refl, true, false, arith, [], ◌∷◌, Ordering}
use cote_ai_simulation.Base.Bytes.{Bytes, bytes_compare}
use cote_ai_simulation.Base.Sort.{IsStrictOrder}
use cote_ai_simulation.Domain.Order.{
  compare_refl, compare-flip, compare-unflip, compare-eq, compare_trans,
}
use cote_ai_simulation.Clock.{Pending}
use cote_ai_simulation.Schedule.{id_less, pending_less}

id_less-asymm : (a b : Bytes) → id_less a b ≡ true → id_less b a ≡ false
unfolding id_less
id_less-asymm [] [] h = refl
id_less-asymm [] (b ∷ bs) h = refl
id_less-asymm (a ∷ l) [] h = cc
id_less-asymm (a ∷ l) (b ∷ bs) h = ground (arith, id_less-asymm l bs)

pub id_less-lt : (a b : Bytes) → id_less a b ≡ true → bytes_compare a b ≡ Ordering.lt
unfolding id_less bytes_compare
id_less-lt [] [] h = cc
id_less-lt [] (b ∷ bs) h = refl
id_less-lt (a ∷ l) [] h = cc
id_less-lt (a ∷ l) (b ∷ bs) h = ground (arith, id_less-lt l bs)

id_less_antisymm : (a b : Bytes) → id_less a b ≡ false → id_less b a ≡ false → a ≡ b
unfolding id_less
id_less_antisymm [] [] h k = refl
id_less_antisymm [] (b ∷ bs) h k = cc
id_less_antisymm (a ∷ l) [] h k = cc
id_less_antisymm (a ∷ l) (b ∷ bs) h k = ground (arith, id_less_antisymm l bs)

id_less_trans : (a b c : Bytes) → id_less a b ≡ true → id_less b c ≡ true → id_less a c ≡ true
unfolding id_less
id_less_trans [] [] c h k = cc
id_less_trans [] (b ∷ bs) [] h k = cc
id_less_trans [] (b ∷ bs) (c ∷ cs) h k = refl
id_less_trans (a ∷ l) [] c h k = cc
id_less_trans (a ∷ l) (b ∷ bs) [] h k = cc
id_less_trans (a ∷ l) (b ∷ bs) (c ∷ cs) h k = ground (arith, id_less_trans l bs cs)

module _ (a b : Pending) where
  pending_less-asymm : pending_less a b ≡ true → pending_less b a ≡ false
  unfolding pending_less
  pending_less-asymm h = ground (
    arith,
    compare-flip a.eligibility b.eligibility,
    compare-flip b.eligibility a.eligibility,
    compare-unflip b.eligibility a.eligibility,
    id_less-asymm a.id b.id,
  )

  pending_less_antisymm : pending_less a b ≡ false → pending_less b a ≡ false → a ≡ b
  unfolding pending_less
  pending_less_antisymm h k = ground (
    arith,
    compare-unflip a.eligibility b.eligibility,
    compare-unflip b.eligibility a.eligibility,
    compare-eq a.eligibility b.eligibility,
    compare-eq b.eligibility a.eligibility,
    id_less_antisymm a.id b.id,
  )

pending_less_trans :
    (a b c : Pending) → pending_less a b ≡ true → pending_less b c ≡ true → pending_less a c ≡ true
unfolding pending_less
pending_less_trans a b c h k = ground (
  arith,
  compare_trans a.eligibility b.eligibility c.eligibility,
  compare-eq a.eligibility b.eligibility,
  compare-eq b.eligibility c.eligibility,
  compare_refl b.eligibility,
  compare_refl c.eligibility,
  compare_refl a.eligibility,
  id_less_trans a.id b.id c.id,
)

pub pending_less-IsStrictOrder : IsStrictOrder pending_less
pending_less-IsStrictOrder = record {
  asymm = pending_less-asymm;
  trans = pending_less_trans;
  antisymm = pending_less_antisymm;
}
