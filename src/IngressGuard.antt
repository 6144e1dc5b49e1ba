-- ===== src/IngressGuard.antt =====
-- internal/csf/ingressguard/guard.go: the causal coordinate of a persisted ingress record or fence,
-- read from its bytes, and the test of an ingress against a sealed cut.
pub mod Cuts
use cote_ai_simulation.Base.{
  ℕ, ◌≡◌, refl, Bool, true, false, ◌&&◌, ◌||◌, not, arith, leb, ltb, ◌==◌, if◌then◌else◌, List, [],
  ◌∷◌, Option, some, none, length, Result, ok, err, ◌>>=◌, ◌>>◌, guard, or_fail,
}
use cote_ai_simulation.Base.Bytes.{Bytes, bytes_equal}
use cote_ai_simulation.Base.Int.{ℤ}
use cote_ai_simulation.Domain.{EligibilityCoordinate, compare_coordinate, is_le}
use cote_ai_simulation.Value.{
  Value, as_array, as_bytes, as_text, as_bool, as_uint64, signed_int64, as_32_bytes, field,
}
use cote_ai_simulation.Codec.{Library, strict_decode_payload}

-- internal/csf/ports/stores.go
pub record CanonicalRecord : Type 0 where
  pub identity : Bytes
  pub canonical : Bytes

pub record Entry : Type 0 where
  pub run_id : Bytes
  pub coordinate : EligibilityCoordinate

pub data GuardError : Type 0 where
  undecodable bad_shape identity_mismatch bad_run source_mismatch bad_closure : GuardError
  bad_coordinate bad_instant bad_ordinal : GuardError
  bad_fence bad_plan bad_work_plan bad_advance_plan target_not_after_origin unknown_plan :
      GuardError
  sealed_cycle : GuardError

-- The error of the codec is wrapped.
abbrev pub decode : Library → Bytes → Result GuardError Value
decode lib b = elim (strict_decode_payload lib b) [ ok v ↦ ok v | err e ↦ err undecodable ]

unfoldable pub coord : Value → Result GuardError EligibilityCoordinate
coord v = do
  parts ← or_fail (as_array v) bad_coordinate
  guard (length parts == 2) bad_coordinate
  instant ← or_fail (signed_int64 (field parts 0)) bad_instant
  ordinal ← or_fail (as_uint64 (field parts 1)) bad_ordinal
  ok (record { not_before_instant = instant; not_before_cycle_ordinal = ordinal })

-- The field of the coordinate: 4 in a closure, whose flag must be a bool, and 9 in an input.
coordinate_index : List Value → Result GuardError ℕ
coordinate_index fields =
    if length fields == 7
    then (or_fail (as_bool (field fields 5)) bad_closure >>= λ _. ok 4)
    else ok 9

unfoldable pub parse_fields : CanonicalRecord → Bytes → List Value → Result GuardError Entry
unfolding coord coordinate_index
parse_fields r routed_source fields = do
  guard (length fields == 13 || (length fields == 7)) bad_shape
  id ← or_fail (as_bytes (field fields 0)) identity_mismatch
  guard (bytes_equal id r.identity) identity_mismatch
  run ← or_fail (as_32_bytes (field fields 1)) bad_run
  source ← or_fail (as_text (field fields 2)) source_mismatch
  guard (bytes_equal source routed_source) source_mismatch
  index ← coordinate_index fields
  coordinate ← coord (field fields index)
  ok (record { run_id = run; coordinate = coordinate })

-- `Parse`
unfoldable pub parse : Library → CanonicalRecord → Bytes → Result GuardError Entry
parse lib r routed_source = do
  decoded ← decode lib r.canonical
  fields ← or_fail (as_array decoded) bad_shape
  parse_fields r routed_source fields

-- The `switch` on the kind of a plan: a WORK fence seals its own coordinate, and a CLOCK_ADVANCE
-- its target.
plan_cut : EligibilityCoordinate → List Value → ℕ → Result GuardError EligibilityCoordinate
plan_cut cut plan kind =
    if kind == 0
    then (if length plan == 1 then ok cut else err bad_work_plan)
    else (if kind == 1
        then (if length plan == 4
            then (coord (field plan 3) >>= λ target.
                if is_le (compare_coordinate target cut)
                then err target_not_after_origin
                else ok target)
            else err bad_advance_plan)
        else err unknown_plan)

abbrev is_nil : List Value → Bool
is_nil [] = true
is_nil (v ∷ vs) = false

-- The body of `if len(fields)==18`.
planned_cut : List Value → EligibilityCoordinate → Result GuardError EligibilityCoordinate
planned_cut fields cut = do
  plan ← or_fail (as_array (field fields 6)) bad_plan
  guard (not (is_nil plan)) bad_plan
  kind ← or_fail (as_uint64 (field plan 0)) bad_plan
  plan_cut cut plan kind

fence_cut : List Value → EligibilityCoordinate → Result GuardError EligibilityCoordinate
unfolding planned_cut
fence_cut fields cut = if length fields == 18 then planned_cut fields cut else ok cut

-- `FenceCoordinate`: the run and the sealed cut of a persisted fence.
unfoldable pub fence_coordinate : Library → Bytes → Result GuardError Entry
unfolding fence_cut planned_cut plan_cut coord
fence_coordinate lib fence = do
  decoded ← decode lib fence
  fields ← or_fail (as_array decoded) bad_fence
  guard (leb 6 (length fields)) bad_fence
  run ← or_fail (as_32_bytes (field fields 0)) bad_run
  instant ← or_fail (signed_int64 (field fields 4)) bad_instant
  ordinal ← or_fail (as_uint64 (field fields 5)) bad_ordinal
  cut ←
      fence_cut fields (record { not_before_instant = instant; not_before_cycle_ordinal = ordinal })
  ok (record { run_id = run; coordinate = cut })

-- `Check`: an ingress of the sealed run at or before the cut is refused.
unfoldable pub check : Entry → Bytes → EligibilityCoordinate → Result GuardError (Unit {0})
check entry sealed_run cut =
    guard
      (not (bytes_equal entry.run_id sealed_run && is_le (compare_coordinate entry.coordinate cut)))
      sealed_cycle
