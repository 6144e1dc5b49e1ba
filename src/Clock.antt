-- ===== src/Clock.antt =====
-- internal/csf/clock/clock.go and cascade.go: the causal clock, and the plan of the next cycle.
pub mod Draining
pub mod Smallest
pub mod Plans
pub mod Advances
pub mod Wire
use cote_ai_simulation.Base.{
  ℕ, ◌+◌, ◌%◌, ◌^◌, ◌-◌, ◌≡◌, refl, Bool, true, false, ◌&&◌, ◌||◌, not, arith, ltb, leb, ◌==◌,
  if◌then◌else◌, List, [], ◌∷◌, Option, some, none, Result, ok, err, ◌>>=◌, ◌>>◌, guard, or_fail,
  Ordering,
}
use cote_ai_simulation.Base.Bytes.{Bytes}
use cote_ai_simulation.Base.Int.{
  ℤ, pos, negsuc, ltb_ℤ, leb_ℤ, eqb_ℤ, succ_ℤ, max_int64, to_uint64, uint64_bound,
}
use cote_ai_simulation.Domain.{EligibilityCoordinate, compare_coordinate, is_lt}

pub record State : Type 0 where
  pub instant : ℤ
  pub revision : ℕ
  pub next_logical_sequence : ℕ
  pub last_ordinal : ℤ

-- `Kind` is an uint8: Work is 0 and ClockAdvance is 1.
abbrev pub work : ℕ
work = 0

abbrev pub clock_advance : ℕ
clock_advance = 1

pub record Plan : Type 0 where
  pub kind : ℕ
  pub from : ℤ
  pub to : ℤ
  pub origin_ordinal : ℕ
  pub target : EligibilityCoordinate

pub record Pending : Type 0 where
  pub id : Bytes
  pub eligibility : EligibilityCoordinate

pub data ClockError : Type 0 where
  stale_pending invalid_clock invalid_advance : ClockError

unfoldable pub coordinate_after_state : State → Result ClockError EligibilityCoordinate
coordinate_after_state state =
    if ltb_ℤ state.last_ordinal (negsuc 0)
    then err invalid_clock
    else (if leb_ℤ max_int64 state.last_ordinal
        then err invalid_clock
        else ok (record {
          not_before_instant = state.instant;
          not_before_cycle_ordinal = to_uint64 (succ_ℤ state.last_ordinal);
        }))

-- The body of the loop of `Next`: the lesser of the least so far and the next record's.
earlier : EligibilityCoordinate → Pending → EligibilityCoordinate
earlier smallest p =
    if is_lt (compare_coordinate p.eligibility smallest) then p.eligibility else smallest

-- The loop of `Next`: the least eligibility so far, and the records that are left.
unfoldable pub smallest_of : EligibilityCoordinate → List Pending → EligibilityCoordinate
unfolding earlier
smallest_of smallest [] = smallest
smallest_of smallest (p ∷ ps) = smallest_of (earlier smallest p) ps

-- The tests of `Next` after the loop.
unfoldable pub plan_for :
    State → EligibilityCoordinate → EligibilityCoordinate → Result ClockError (Option Plan)
plan_for state next smallest =
    if is_lt (compare_coordinate smallest next)
    then err stale_pending
    else (if eqb_ℤ smallest.not_before_instant state.instant
        then ok (
            some (record {
              kind = work;
              from = state.instant;
              to = state.instant;
              origin_ordinal = smallest.not_before_cycle_ordinal;
              target = smallest;
            }))
        else (if ltb_ℤ smallest.not_before_instant state.instant
            then err stale_pending
            else ok (
                some (record {
                  kind = clock_advance;
                  from = state.instant;
                  to = smallest.not_before_instant;
                  origin_ordinal = next.not_before_cycle_ordinal;
                  target = smallest;
                }))))

next_from : State → EligibilityCoordinate → List Pending → Result ClockError (Option Plan)
next_from state next [] = ok none
next_from state next (p ∷ ps) = plan_for state next (smallest_of p.eligibility ps)

-- `Next`: `ok none` is the source's (Plan{}, false, nil).
unfoldable pub next : State → List Pending → Result ClockError (Option Plan)
unfolding next_from
next state pending = do at ← coordinate_after_state state; next_from state at pending

abbrev pub coordinates_equal : EligibilityCoordinate → EligibilityCoordinate → Bool
coordinates_equal a b =
    eqb_ℤ a.not_before_instant b.not_before_instant
    && (a.not_before_cycle_ordinal == b.not_before_cycle_ordinal)

-- `==` on plans, field by field.
unfoldable pub plans_equal : Plan → Plan → Bool
plans_equal a b =
    (a.kind == b.kind)
    && (eqb_ℤ a.from b.from
        && (eqb_ℤ a.to b.to
            && ((a.origin_ordinal == b.origin_ordinal) && coordinates_equal a.target b.target)))

confirm_plan : Option Plan → Plan → Result ClockError (Unit {0})
unfolding plans_equal
confirm_plan none proposal = err invalid_advance
confirm_plan (some recomputed) proposal = guard (plans_equal recomputed proposal) invalid_advance

unfoldable pub confirm : State → List Pending → Plan → Result ClockError (Unit {0})
unfolding confirm_plan
confirm state pending proposal = do
  recomputed ← next state pending
  confirm_plan recomputed proposal

unfoldable pub successor_floor : Plan → Result ClockError EligibilityCoordinate
successor_floor plan =
    if plan.kind == clock_advance
    then (if leb_ℤ plan.to plan.from || not (eqb_ℤ plan.target.not_before_instant plan.to)
        then err invalid_advance
        else ok (record { not_before_instant = plan.to; not_before_cycle_ordinal = 0 }))
    else (if not (plan.kind == work) || (plan.origin_ordinal == (uint64_bound - 1))
        then err invalid_advance
        else ok (record {
          not_before_instant = plan.from;
          not_before_cycle_ordinal = plan.origin_ordinal + 1;
        }))

-- The revision and the sequence are uint64 and wrap.
unfoldable pub apply_advance : State → Plan → Result ClockError State
apply_advance state plan =
    if not (plan.kind == clock_advance) || not (eqb_ℤ plan.from state.instant)
    then err invalid_advance
    else (if leb_ℤ plan.to plan.from
        then err invalid_advance
        else ok (record {
          instant = plan.to;
          revision = (state.revision + 1) % uint64_bound;
          next_logical_sequence = (state.next_logical_sequence + 2) % uint64_bound;
          last_ordinal = negsuc 0;
        }))

abbrev pub max_same_instant_work_v1 : ℕ
max_same_instant_work_v1 = 64

unfoldable pub cascade_exceeded : ℕ → Bool
cascade_exceeded committed_at_instant = leb max_same_instant_work_v1 committed_at_instant
