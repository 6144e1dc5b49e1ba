-- ===== src/Clock/Advances.antt =====
-- `ApplyAdvance` and `SuccessorFloor` on the plans of `Next` (internal/csf/clock/clock.go).
use cote_ai_simulation.Base.{
  ℕ, ap₂, ◌+◌, ◌-◌, ◌<◌, ◌≡◌, refl, sym, ap, ◌∙◌, subst, subst₂, true, arith, List, [], ◌∷◌,
  Ordering, ◌⊎◌, inl, inr, Among, Option, some, Result, ok, ◌%◌,
}
use cote_ai_simulation.Base.Int.{ℤ, negsuc, ◌<ℤ◌, succ_ℤ, uint64_bound}
use cote_ai_simulation.Domain.{EligibilityCoordinate, compare_coordinate, is_le}
use cote_ai_simulation.Domain.Order.{compare-flip, compare-eq}
use cote_ai_simulation.Clock.{
  State, Plan, Pending, ClockError, work, clock_advance, next, apply_advance, successor_floor,
}
use cote_ai_simulation.Clock.Smallest.{NotAfter, eligibilities}
use cote_ai_simulation.Clock.Plans.{
  floor, Leads, IsLeast, Answers, idle, stale, planned, next-Answers, next_planned,
}

NotAfter-Among :
    (a b : EligibilityCoordinate) (ps : List Pending)
    → NotAfter a ps
    → Among b (eligibilities ps)
    → is_le (compare_coordinate a b) ≡ true
NotAfter-Among a b [] n m = absurd m
NotAfter-Among a b (p ∷ ps) n (inl e) = rw e (n.0)
NotAfter-Among a b (p ∷ ps) n (inr m) = NotAfter-Among a b ps n.1 m

le_antisymm :
    (a b : EligibilityCoordinate)
    → is_le (compare_coordinate a b) ≡ true
    → is_le (compare_coordinate b a) ≡ true
    → a ≡ b
le_antisymm a b h k = ground (arith, compare-flip a b, compare-eq a b)

pub IsLeast-unique :
    (a b : EligibilityCoordinate) (ps : List Pending) → IsLeast a ps → IsLeast b ps → a ≡ b
IsLeast-unique a b ps l k =
    le_antisymm a b (NotAfter-Among a b ps l.1 k.0) (NotAfter-Among b a ps k.1 l.0)

-- The clock after the advance of a plan.
abbrev pub advanced : State → Plan → State
advanced s p = record {
  instant = p.to;
  revision = (s.revision + 1) % uint64_bound;
  next_logical_sequence = (s.next_logical_sequence + 2) % uint64_bound;
  last_ordinal = negsuc 0;
}

-- The next coordinate of the instant, and the instant's first.
abbrev pub following : EligibilityCoordinate → EligibilityCoordinate
following c = record {
  not_before_instant = c.not_before_instant;
  not_before_cycle_ordinal = c.not_before_cycle_ordinal + 1;
}

abbrev pub start_of : EligibilityCoordinate → EligibilityCoordinate
start_of c = record { not_before_instant = c.not_before_instant; not_before_cycle_ordinal = 0 }

abbrev coordinate_at : ℤ → ℕ → EligibilityCoordinate
coordinate_at i n = record { not_before_instant = i; not_before_cycle_ordinal = n }

-- The rest is about one plan of `Next`.
module _ (s : State) (ps : List Pending) (p : Plan) (h : next s ps ≡ ok (some p)) where
  leads : Leads s p
  leads = (next_planned s ps h).1

  advances : p.kind ≡ clock_advance → p.from <ℤ p.to
  advances k = elim (leads.by_kind) [ inl w ↦ absurd (ground arith) | inr a ↦ a.1 ]

  apply_advance-advanced : p.kind ≡ clock_advance → apply_advance s p ≡ ok (advanced s p)
  unfolding apply_advance
  apply_advance-advanced k = ground (arith, leads.from_clock, advances k)

  abbrev SuccessorFloor : EligibilityCoordinate → Type 0
  SuccessorFloor c =
      (successor_floor p ≡ ok c)
      × (((p.kind ≡ work) × (c ≡ following p.target))
          ⊎ ((p.kind ≡ clock_advance)
              × (c ≡ start_of p.target)
              × (is_le (compare_coordinate c p.target) ≡ true)))

  floor_after_work :
      p.target.not_before_cycle_ordinal < uint64_bound - 1
      → p.kind ≡ work
      → p.to ≡ p.from
      → p.origin_ordinal ≡ p.target.not_before_cycle_ordinal
      → SuccessorFloor
          (record { not_before_instant = p.from; not_before_cycle_ordinal = p.origin_ordinal + 1 })
  unfolding successor_floor
  floor_after_work b k e o =
      (ground arith, inl (k, ap₂ coordinate_at (sym e ∙ leads.to_target) (ap (λ n. n + 1) o)))

  floor_after_advance :
      p.kind ≡ clock_advance
      → p.from <ℤ p.to
      → SuccessorFloor (record { not_before_instant = p.to; not_before_cycle_ordinal = 0 })
  unfolding successor_floor compare_coordinate
  floor_after_advance k l = (
    ground (arith, leads.to_target),
    inr (k, ap (λ i. coordinate_at i 0) leads.to_target, ground (arith, leads.to_target)),
  )

  -- The target of an advance is not before the first coordinate of the instant reached.
  not_before_arrival :
      (a : EligibilityCoordinate)
      → a ≡ p.target
      → ¬ (compare_coordinate a (floor (advanced s p)) ≡ Ordering.lt)
  unfolding compare_coordinate succ_ℤ
  not_before_arrival a f e =
      absurd (ground (arith, leads.to_target, ap (λ c. c.not_before_instant) f))

  Answers-after :
      (r : Result ClockError (Option Plan))
      → p.kind ≡ clock_advance
      → Answers (advanced s p) ps r
      → (q : Plan) × (r ≡ ok (some q)) × (q.kind ≡ work) × (q.target ≡ p.target)
  Answers-after r k (idle e) =
      absurd (subst (λ l. Among p.target (eligibilities l)) e (next_planned s ps h).0.0)
  Answers-after r k (stale a l e) =
      absurd (not_before_arrival a (IsLeast-unique a p.target ps l (next_planned s ps h).0) e)
  Answers-after r k (planned q l d) =
      let same = IsLeast-unique q.target p.target ps l (next_planned s ps h).0 in
      (q, refl, is_work same d.by_kind, same)
    where
      is_work :
          q.target ≡ p.target
          → ((q.kind ≡ work)
              × (q.to ≡ q.from)
              × (q.origin_ordinal ≡ q.target.not_before_cycle_ordinal))
            ⊎ ((q.kind ≡ clock_advance)
                × (q.from <ℤ q.to)
                × (q.origin_ordinal ≡ (floor (advanced s p)).not_before_cycle_ordinal))
          → q.kind ≡ work
      is_work e (inl w) = w.0
      is_work e (inr a) = absurd (
          arrived (d.to_target ∙ ap (λ c. c.not_before_instant) e ∙ sym leads.to_target)
            d.from_clock a.1)
        where
          arrived : q.to ≡ p.to → q.from ≡ p.to → q.from <ℤ q.to → ⊥
          arrived x y z = let z' : p.to <ℤ p.to = subst₂ (λ u v. u <ℤ v) y x z in omega arith

-- A planned advance is applied: the clock moves to a strictly later instant, with ordinal -1, the
-- next revision and two more sequence numbers; and from there `Next`, over the same pending records,
-- plans a work cycle for the very target of the advance.
pub apply_advance-next :
    (s : State) (ps : List Pending) (p : Plan)
    → next s ps ≡ ok (some p)
    → p.kind ≡ clock_advance
    → (apply_advance s p ≡ ok (advanced s p))
      × (s.instant <ℤ (advanced s p).instant)
      × ((q : Plan) × (next (advanced s p) ps ≡ ok (some q))
          × (q.kind ≡ work)
          × (q.target ≡ p.target))
apply_advance-next s ps p h k = (
  apply_advance-advanced s ps p h k,
  subst (λ i. i <ℤ p.to) (leads s ps p h).from_clock (advances s ps p h k),
  Answers-after s ps p h (next (advanced s p) ps) k (next-Answers (advanced s p) ps (omega arith)),
)

-- The floor for the successors of a plan's cycle: after a work cycle the target's instant with the
-- next ordinal, unless the target's ordinal is the last uint64; after an advance the target's
-- instant with the ordinal 0, which is not after the target.
pub successor_floor_planned :
    (s : State) (ps : List Pending) (p : Plan)
    → next s ps ≡ ok (some p)
    → p.target.not_before_cycle_ordinal < uint64_bound - 1
    → (c : EligibilityCoordinate) × (successor_floor p ≡ ok c)
      × (((p.kind ≡ work) × (c ≡ following p.target))
          ⊎ ((p.kind ≡ clock_advance)
              × (c ≡ start_of p.target)
              × (is_le (compare_coordinate c p.target) ≡ true)))
successor_floor_planned s ps p h b = elim ((leads s ps p h).by_kind) [
  | inl w ↦ let r = floor_after_work s ps p h b w.0 w.1 w.2 in (_, r.0, r.1)
  | inr a ↦ let r = floor_after_advance s ps p h a.0 a.1 in (_, r.0, r.1)
]
