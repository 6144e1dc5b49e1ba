-- ===== src/Tests/Clocks.antt =====
-- Examples of the clock (internal/csf/clock) and of the schedule (internal/csf/schedule).
use mathlib.Core.List.{Permᴰ}
use cote_ai_simulation.Base.{ℕ, ◌≡◌, refl, true, List, [], ◌∷◌, some, ok, ◌⊎◌, ◌↔◌, arith, Pairs}
use cote_ai_simulation.Base.Bytes.{bytes_equal}
use cote_ai_simulation.Base.Sort.{sort}
use cote_ai_simulation.Base.Int.{pos, succ_ℤ, ◌<ℤ◌}
use cote_ai_simulation.Domain.{EligibilityCoordinate, compare_coordinate, is_le}
use cote_ai_simulation.Clock.{
  State, Plan, Pending, next, confirm, coordinate_after_state, plan_for, smallest_of, apply_advance,
  successor_floor, work, clock_advance,
}
use cote_ai_simulation.Clock.Plans.{Answers, next-Answers, confirm_iff}
use cote_ai_simulation.Clock.Advances.{
  advanced, following, start_of, apply_advance-next, successor_floor_planned,
}
use cote_ai_simulation.Schedule.{
  Occurrence, pending, cancelled, pending_records, collect, check_occurrence, contains_id,
  pending_less,
}
use cote_ai_simulation.Schedule.Records.{IsRegistry, pendings, pending_records_iff}
use cote_ai_simulation.Schedule.Before.{IsBefore}
use cote_ai_simulation.Clock.Draining.{Planning, advancing, cycling, stopped, next_ends}
use cote_ai_simulation.Base.{◌*◌, ◌+◌, ◌≤◌, length}
use cote_ai_simulation.Base.Int.{ℤ, negsuc}

abbrev clock_at_five : State
clock_at_five = record {
  instant = pos 5;
  revision = 3;
  next_logical_sequence = 9;
  last_ordinal = pos 1;
}

abbrev coordinate_at : ℕ → ℕ → EligibilityCoordinate
coordinate_at t n = record { not_before_instant = pos t; not_before_cycle_ordinal = n }

abbrev late : Pending
late = record { id = 1 ∷ []; eligibility = coordinate_at 8 2 }

abbrev early : Pending
early = record { id = 2 ∷ []; eligibility = coordinate_at 7 1 }

abbrev waiting : List Pending
waiting = late ∷ early ∷ []

abbrev to_seven : Plan
to_seven = record {
  kind = clock_advance;
  from = pos 5;
  to = pos 7;
  origin_ordinal = 2;
  target = coordinate_at 7 1;
}

to_seven_planned : next clock_at_five waiting ≡ ok (some to_seven)
unfolding next compare_coordinate coordinate_after_state plan_for smallest_of succ_ℤ
to_seven_planned = refl

next-Answers_example : Answers clock_at_five waiting (next clock_at_five waiting)
next-Answers_example =
    next-Answers clock_at_five waiting
      (record { from_minus_one = omega arith; below_max = omega arith })

confirm_iff_example :
    (confirm clock_at_five waiting to_seven ≡ ok tt)
    ↔ (next clock_at_five waiting ≡ ok (some to_seven))
confirm_iff_example = confirm_iff clock_at_five waiting to_seven

apply_advance-next_example :
    (apply_advance clock_at_five to_seven ≡ ok (advanced clock_at_five to_seven))
    × (clock_at_five.instant <ℤ (advanced clock_at_five to_seven).instant)
    × ((q : Plan) × (next (advanced clock_at_five to_seven) waiting ≡ ok (some q))
        × (q.kind ≡ work)
        × (q.target ≡ to_seven.target))
apply_advance-next_example = apply_advance-next clock_at_five waiting to_seven to_seven_planned refl

successor_floor_planned_example :
    (c : EligibilityCoordinate) × (successor_floor to_seven ≡ ok c)
    × (((to_seven.kind ≡ work) × (c ≡ following to_seven.target))
        ⊎ ((to_seven.kind ≡ clock_advance)
            × (c ≡ start_of to_seven.target)
            × (is_le (compare_coordinate c to_seven.target) ≡ true)))
successor_floor_planned_example =
    successor_floor_planned clock_at_five waiting to_seven to_seven_planned (omega arith)

abbrev occurrence : ℕ → ℕ → ℕ → Occurrence
occurrence n t cycle = record {
  id = n ∷ [];
  run_id = [];
  source_id = 5 ∷ [];
  due_at = pos 4;
  eligibility = coordinate_at t 0;
  lifecycle = cycle;
  kind = 6 ∷ [];
  payload = [];
}

abbrev first : Occurrence
first = occurrence 1 9 pending

abbrev second : Occurrence
second = occurrence 2 4 cancelled

abbrev third : Occurrence
third = occurrence 3 6 pending

abbrev registered : List Pending
registered =
    record { id = 3 ∷ []; eligibility = coordinate_at 6 0 }
    ∷ record { id = 1 ∷ []; eligibility = coordinate_at 9 0 }
    ∷ []

registered_pending : pending_records (first ∷ second ∷ third ∷ []) ≡ ok registered
unfolding pending_records collect check_occurrence contains_id bytes_equal sort pending_less
    compare_coordinate
registered_pending = refl

pending_records_iff_example : (pending_records (first ∷ second ∷ third ∷ []) ≡ ok registered) ↔ (
    IsRegistry (first ∷ second ∷ third ∷ [])
    × Permᴰ registered (pendings (first ∷ second ∷ third ∷ []))
    × Pairs IsBefore registered)
pending_records_iff_example = pending_records_iff (first ∷ second ∷ third ∷ []) registered

abbrev plan_at : ℕ → ℕ → ℕ → ℕ → ℕ → ℕ → Plan
plan_at kind from to origin t n = record {
  kind = kind;
  from = pos from;
  to = pos to;
  origin_ordinal = origin;
  target = coordinate_at t n;
}

abbrev clock_at : ℕ → ℤ → ℕ → ℕ → State
clock_at t ordinal revision sequence = record {
  instant = pos t;
  revision = revision;
  next_logical_sequence = sequence;
  last_ordinal = ordinal;
}

at_seven_planned : next (clock_at 7 (negsuc 0) 4 11) waiting ≡ ok (some (plan_at work 7 7 1 7 1))
unfolding next compare_coordinate coordinate_after_state plan_for smallest_of succ_ℤ
at_seven_planned = refl

to_eight_planned :
    next (clock_at 7 (pos 1) 5 12) (late ∷ []) ≡ ok (some (plan_at clock_advance 7 8 2 8 2))
unfolding next compare_coordinate coordinate_after_state plan_for smallest_of succ_ℤ
to_eight_planned = refl

at_eight_planned :
    next (clock_at 8 (negsuc 0) 6 14) (late ∷ []) ≡ ok (some (plan_at work 8 8 2 8 2))
unfolding next compare_coordinate coordinate_after_state plan_for smallest_of succ_ℤ
at_eight_planned = refl

advanced_to_seven : apply_advance clock_at_five to_seven ≡ ok (clock_at 7 (negsuc 0) 4 11)
unfolding apply_advance
advanced_to_seven = refl

advanced_to_eight :
    apply_advance (clock_at 7 (pos 1) 5 12) (plan_at clock_advance 7 8 2 8 2)
    ≡ ok (clock_at 8 (negsuc 0) 6 14)
unfolding apply_advance
advanced_to_eight = refl

-- Two records, each worked at its own instant: four plans.
all_worked : Planning 4 clock_at_five waiting (clock_at 8 (pos 2) 7 15) []
all_worked = advancing to_seven to_seven_planned refl advanced_to_seven (
    cycling (plan_at work 7 7 1 7 1) at_seven_planned refl (omega arith) (
      advancing (plan_at clock_advance 7 8 2 8 2) to_eight_planned refl advanced_to_eight
        (cycling (plan_at work 8 8 2 8 2) at_eight_planned refl (omega arith) (stopped _ _))))

next_ends_example : 4 + 2 * length {A = Pending} [] ≤ 2 * length waiting + 1
next_ends_example = next_ends all_worked
