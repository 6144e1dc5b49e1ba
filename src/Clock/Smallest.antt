-- ===== src/Clock/Smallest.antt =====
-- The loop of `Next` (internal/csf/clock/clock.go) finds the least pending eligibility.
use cote_ai_simulation.Base.{
  ◌≡◌, refl, ◌∙◌, true, arith, List, [], ◌∷◌, ◌⊎◌, inl, inr, All, Among, map,
}
use cote_ai_simulation.Domain.{EligibilityCoordinate, compare_coordinate, is_le}
use cote_ai_simulation.Domain.Order.{compare_refl, compare-unflip, compare-eq, le_trans}
use cote_ai_simulation.Clock.{Pending, earlier, smallest_of}

-- `a` is not later than any of the pending records.
abbrev pub NotAfter : EligibilityCoordinate → List Pending → Type 0
NotAfter a = All (λ p. is_le (compare_coordinate a p.eligibility) ≡ true)

NotAfter-le :
    (a b : EligibilityCoordinate) (ps : List Pending)
    → is_le (compare_coordinate a b) ≡ true
    → NotAfter b ps
    → NotAfter a ps
NotAfter-le a b [] h n = tt
NotAfter-le a b (p ∷ ps) h n = (le_trans a b p.eligibility h n.0, NotAfter-le a b ps h n.1)

module _ (s : EligibilityCoordinate) (p : Pending) where
  earlier-le-left : is_le (compare_coordinate (earlier s p) s) ≡ true
  unfolding earlier
  earlier-le-left = ground (arith, compare_refl s)

  earlier-le-right : is_le (compare_coordinate (earlier s p) p.eligibility) ≡ true
  unfolding earlier
  earlier-le-right = ground (
    arith,
    compare_refl p.eligibility,
    compare-unflip p.eligibility s,
    compare-eq p.eligibility s,
    compare_refl s,
  )

  earlier-cases : (earlier s p ≡ s) ⊎ (earlier s p ≡ p.eligibility)
  unfolding earlier
  earlier-cases = ground arith

pub smallest_of-le :
    (s : EligibilityCoordinate) (ps : List Pending)
    → is_le (compare_coordinate (smallest_of s ps) s) ≡ true
unfolding smallest_of
smallest_of-le s [] = rw (compare_refl s)
smallest_of-le s (p ∷ ps) =
    le_trans _ (earlier s p) s (smallest_of-le (earlier s p) ps) (earlier-le-left s p)

pub smallest_of-NotAfter :
    (s : EligibilityCoordinate) (ps : List Pending) → NotAfter (smallest_of s ps) ps
unfolding smallest_of
smallest_of-NotAfter s [] = tt
smallest_of-NotAfter s (p ∷ ps) = (
  le_trans _ (earlier s p) p.eligibility (smallest_of-le (earlier s p) ps) (earlier-le-right s p),
  smallest_of-NotAfter (earlier s p) ps,
)

abbrev pub eligibilities : List Pending → List EligibilityCoordinate
eligibilities = map (λ p. p.eligibility)

Among-earlier :
    {x : EligibilityCoordinate} (s : EligibilityCoordinate) (p : Pending) (ps : List Pending)
    → Among x (earlier s p ∷ eligibilities ps)
    → Among x (s ∷ eligibilities (p ∷ ps))
Among-earlier s p ps (inr m) = inr (inr m)
Among-earlier s p ps (inl e) = elim (earlier-cases s p) [
  | inl f ↦ inl (e ∙ f)
  | inr f ↦ inr (inl (e ∙ f))
]

pub smallest_of-Among :
    (s : EligibilityCoordinate) (ps : List Pending)
    → Among (smallest_of s ps) (s ∷ eligibilities ps)
unfolding smallest_of
smallest_of-Among s [] = inl refl
smallest_of-Among s (p ∷ ps) = Among-earlier s p ps (smallest_of-Among (earlier s p) ps)
