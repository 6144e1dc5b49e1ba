-- ===== src/Clock/Plans.antt =====
-- What `Next` and `Confirm` answer (internal/csf/clock/clock.go).
use cote_ai_simulation.Base.{
  ◌-◌, ◌^◌, ◌≡◌, refl, sym, ap, true, false, arith, List, [], ◌∷◌, Ordering, ◌⊎◌, ◌↔◌, inl, inr,
  Among, Bool-cases, Option, none, some, Result, ok, err, subst, guard-eq_ok, Result-cases, ◌>>=◌,
}
use cote_ai_simulation.Base.Int.{
  pos, negsuc, ◌<ℤ◌, ◌≤ℤ◌, eq_of_parts, eqb_ℤ-eq, succ_ℤ, to_uint64, eqb_ℤ,
}
use cote_ai_simulation.Domain.{EligibilityCoordinate, compare_coordinate, is_lt}
use cote_ai_simulation.Clock.{
  State, Plan, Pending, ClockError, stale_pending, invalid_advance, work, clock_advance,
  coordinate_after_state, smallest_of, plan_for, next_from, next, plans_equal, confirm_plan,
  confirm,
}
use cote_ai_simulation.Clock.Smallest.{
  NotAfter, eligibilities, smallest_of-le, smallest_of-NotAfter, smallest_of-Among,
}

-- The last ordinal is -1 or a cycle's, and the next one fits an int64.
pub record IsClock (s : State) : Type 0 where
  pub from_minus_one : negsuc 0 ≤ℤ s.last_ordinal
  pub below_max : s.last_ordinal <ℤ pos (2 ^ 63 - 1)

-- The first coordinate after the last committed cycle.
abbrev pub floor : State → EligibilityCoordinate
floor s = record {
  not_before_instant = s.instant;
  not_before_cycle_ordinal = to_uint64 (succ_ℤ s.last_ordinal);
}

pub coordinate_after_state-eq_floor :
    (s : State) → IsClock s → coordinate_after_state s ≡ ok (floor s)
unfolding coordinate_after_state
coordinate_after_state-eq_floor s c = ground arith

pub coordinate_after_state-IsClock :
    (s : State) {c : EligibilityCoordinate} → coordinate_after_state s ≡ ok c → IsClock s
unfolding coordinate_after_state
coordinate_after_state-IsClock s h = ground arith

next-eq_next_from :
    (s : State) (ps : List Pending) → IsClock s → next s ps ≡ next_from s (floor s) ps
unfolding next
next-eq_next_from s ps c = rw (coordinate_after_state-eq_floor s c)

-- A plan leads from the clock to the target coordinate: a work cycle in the same instant, or an
-- advance of the clock to a later one.
pub record Leads (s : State) (p : Plan) : Type 0 where
  pub from_clock : p.from ≡ s.instant
  pub to_target : p.to ≡ p.target.not_before_instant
  pub not_stale : is_lt (compare_coordinate p.target (floor s)) ≡ false
  pub by_kind :
      ((p.kind ≡ work) × (p.to ≡ p.from) × (p.origin_ordinal ≡ p.target.not_before_cycle_ordinal))
      ⊎ ((p.kind ≡ clock_advance)
          × (p.from <ℤ p.to)
          × (p.origin_ordinal ≡ (floor s).not_before_cycle_ordinal))

abbrev work_plan : State → EligibilityCoordinate → Plan
work_plan s a = record {
  kind = work;
  from = s.instant;
  to = s.instant;
  origin_ordinal = a.not_before_cycle_ordinal;
  target = a;
}

abbrev advance_plan : State → EligibilityCoordinate → Plan
advance_plan s a = record {
  kind = clock_advance;
  from = s.instant;
  to = a.not_before_instant;
  origin_ordinal = (floor s).not_before_cycle_ordinal;
  target = a;
}

module _ (s : State) (a : EligibilityCoordinate)
    (h : is_lt (compare_coordinate a (floor s)) ≡ false) where
  plan_for_work :
      eqb_ℤ a.not_before_instant s.instant ≡ true
      → (plan_for s (floor s) a ≡ ok (some (work_plan s a))) × Leads s (work_plan s a)
  unfolding plan_for
  plan_for_work e = (
    rw (h, e),
    record {
      from_clock = refl;
      to_target = sym (eqb_ℤ-eq a.not_before_instant s.instant e);
      not_stale = h;
      by_kind = inl (refl, refl, refl);
    },
  )

  later : eqb_ℤ a.not_before_instant s.instant ≡ false → s.instant <ℤ a.not_before_instant
  unfolding compare_coordinate
  later e = ground arith

  plan_for_advance :
      eqb_ℤ a.not_before_instant s.instant ≡ false
      → (plan_for s (floor s) a ≡ ok (some (advance_plan s a))) × Leads s (advance_plan s a)
  unfolding plan_for
  plan_for_advance e = (
    rw (h, e) (ground (arith, later e)),
    record {
      from_clock = refl;
      to_target = refl;
      not_stale = h;
      by_kind = inr (refl, later e, refl);
    },
  )

  plan_for-some : (p : Plan) × (plan_for s (floor s) a ≡ ok (some p)) × (p.target ≡ a) × Leads s p
  plan_for-some = elim (Bool-cases (eqb_ℤ a.not_before_instant s.instant)) [
    | inl e ↦ let r = plan_for_work e in (work_plan s a, r.0, refl, r.1)
    | inr e ↦ let r = plan_for_advance e in (advance_plan s a, r.0, refl, r.1)
  ]

plan_for_stale :
    (s : State) (a : EligibilityCoordinate)
    → is_lt (compare_coordinate a (floor s)) ≡ true
    → plan_for s (floor s) a ≡ err stale_pending
unfolding plan_for
plan_for_stale s a h = rw h

-- The target of a plan is pending, and nothing pending is eligible before it.
abbrev pub IsLeast : EligibilityCoordinate → List Pending → Type 0
IsLeast a ps = Among a (eligibilities ps) × NotAfter a ps

-- What `Next` may answer in a valid clock.
pub data Answers (s : State) (ps : List Pending) : Result ClockError (Option Plan) → Type 0 where
  idle : ps ≡ [] → Answers s ps (ok none)
  stale :
      (a : EligibilityCoordinate)
      → IsLeast a ps
      → compare_coordinate a (floor s) ≡ Ordering.lt
      → Answers s ps (err stale_pending)
  planned : (p : Plan) → IsLeast p.target ps → Leads s p → Answers s ps (ok (some p))

smallest_of-IsLeast :
    (p : Pending) (ps : List Pending) → IsLeast (smallest_of p.eligibility ps) (p ∷ ps)
smallest_of-IsLeast p ps = (
  smallest_of-Among p.eligibility ps,
  (smallest_of-le p.eligibility ps, smallest_of-NotAfter p.eligibility ps),
)

is_lt-lt : (o : Ordering) → is_lt o ≡ true → o ≡ Ordering.lt
is_lt-lt o h = ground arith

next_from-Answers :
    (s : State) (p : Pending) (ps : List Pending)
    → Answers s (p ∷ ps) (plan_for s (floor s) (smallest_of p.eligibility ps))
next_from-Answers s p ps =
    let a = smallest_of p.eligibility ps in
    let least = smallest_of-IsLeast p ps in
    elim (Bool-cases (is_lt (compare_coordinate a (floor s)))) [
      | inl e ↦ rw (plan_for_stale s a e) (stale a least (is_lt-lt _ e))
      | inr e ↦
          let r = plan_for-some s a e in
          rw (r.1) (planned r.0 (subst (λ z. IsLeast z (p ∷ ps)) (sym r.2) least) r.3)
    ]

-- In a clock whose last ordinal is valid, `Next` answers idle exactly for no pending record; it
-- refuses a least record before the clock's next coordinate; and otherwise it plans for the least
-- pending eligibility, a work cycle in the same instant or an advance to a later one.
pub next-Answers : (s : State) (ps : List Pending) → IsClock s → Answers s ps (next s ps)
unfolding next
next-Answers s [] c = rw (next-eq_next_from s [] c) (idle refl)
next-Answers s (p ∷ ps) c = rw (next-eq_next_from s (p ∷ ps) c) (next_from-Answers s p ps)

next-IsClock : (s : State) (ps : List Pending) {r : Option Plan} → next s ps ≡ ok r → IsClock s
unfolding next
next-IsClock s ps h = elim (Result-cases (coordinate_after_state s)) [
  | inl (c, e) ↦ coordinate_after_state-IsClock s e
  | inr (x, e) ↦ absurd (ground arith)
]

Answers-planned :
    (s : State) (ps : List Pending) (r : Result ClockError (Option Plan)) {p : Plan}
    → Answers s ps r
    → r ≡ ok (some p)
    → IsLeast p.target ps × Leads s p
Answers-planned s ps r (idle e) h = cc
Answers-planned s ps r (stale a l e) h = cc
Answers-planned s ps r {p} (planned q l k) h =
    let e : q ≡ p = cc in (subst (λ z. IsLeast z.target ps) e l, subst (Leads s) e k)

pub next_planned :
    (s : State) (ps : List Pending) {p : Plan}
    → next s ps ≡ ok (some p)
    → IsLeast p.target ps × Leads s p
next_planned s ps h = Answers-planned s ps (next s ps) (next-Answers s ps (next-IsClock s ps h)) h

plans_equal-eq : (a b : Plan) → plans_equal a b ≡ true → a ≡ b
unfolding plans_equal
plans_equal-eq a b h = ground (
  arith,
  eq_of_parts a.from b.from,
  eq_of_parts a.to b.to,
  eq_of_parts a.target.not_before_instant b.target.not_before_instant,
)

plans_equal_refl : (a : Plan) → plans_equal a a ≡ true
unfolding plans_equal
plans_equal_refl a = ground arith

confirm_plan-eq : (r : Option Plan) (p : Plan) → confirm_plan r p ≡ ok tt → r ≡ some p
unfolding confirm_plan
confirm_plan-eq none p h = cc
confirm_plan-eq (some q) p h =
    ap some (plans_equal-eq q p (guard-eq_ok (plans_equal q p) invalid_advance h))

confirm-next :
    (n : Result ClockError (Option Plan)) (p : Plan)
    → (n >>= λ r. confirm_plan r p) ≡ ok tt
    → n ≡ ok (some p)
confirm-next (ok r) p h = ap ok (confirm_plan-eq r p h)
confirm-next (err e) p h = cc

-- `Confirm` accepts a provisional plan exactly if `Next` would plan it now.
pub confirm_iff :
    (s : State) (ps : List Pending) (p : Plan)
    → (confirm s ps p ≡ ok tt) ↔ (next s ps ≡ ok (some p))
unfolding confirm
confirm_iff s ps p = (confirm-next (next s ps) p, back)
  where
    back : next s ps ≡ ok (some p) → confirm s ps p ≡ ok tt
    back h = rw (h, plans_equal_refl p) refl
