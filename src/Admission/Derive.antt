-- ===== src/Admission/Derive.antt =====
-- `Derive` and `VerifyFence` of internal/csf/admission/fence.go. The system units come from a
-- reader of the store, `none` where the store has none, as the in-memory store.
use cote_ai_simulation.Base.{
  ◌&&◌, Bool, true, ◌==◌, List, [], ◌∷◌, ◌++◌, map, Option, some, none, length, Result, ok, ◌>>=◌,
  ◌>>◌, guard, or_fail,
}
use Prim.Native.String.{String}
use cote_ai_simulation.Base.Bytes.{Bytes, bytes_equal, literal}
use cote_ai_simulation.Base.Int.{ltb_ℤ, eqb_ℤ}
use cote_ai_simulation.Base.Sort.{sort}
use cote_ai_simulation.Domain.{EligibilityCoordinate}
use cote_ai_simulation.Value.{
  Value, byte_string, uint64, int64, list, field, as_array, as_uint64, signed_int64, is_uint64,
}
use cote_ai_simulation.Codec.{canonical_payload}
use cote_ai_simulation.Identity.{Deriver, sum}
use cote_ai_simulation.Ledger.{Round, Response}
use cote_ai_simulation.Ledger.Snapshots.{Snapshot, SystemUnit, round_before}
use cote_ai_simulation.Admission.{
  Cycle, Policies, Fence, AdmissionError, bad_plan, advance_origin, advance_destination,
  advance_target, advance_admits, derivation_differs, no_system_units, of_identity, of_codec,
  verify_input, verify_closure, verify_round, verify_response, each,
}
use cote_ai_simulation.Admission.Units.{
  AdmittedUnit, unit_less, unit_value, closure_proofs, at_cycle, eligible_rounds, round_units,
  input_units, system_units,
}

-- The coordinate through which the sources are closed, for the plan of a CLOCK_ADVANCE.
unfoldable pub advance_target_of : Cycle → List Value → Result AdmissionError EligibilityCoordinate
advance_target_of cycle plan = do
  guard ((length plan == 4) && is_uint64 (field plan 0) 1) bad_plan
  from ← or_fail (signed_int64 (field plan 1)) advance_origin
  guard (eqb_ℤ from cycle.instant) advance_origin
  to ← or_fail (signed_int64 (field plan 2)) advance_destination
  guard (ltb_ℤ from to) advance_destination
  target ← or_fail (as_array (field plan 3)) advance_target
  guard (length target == 2) advance_target
  instant ← or_fail (signed_int64 (field target 0)) advance_target
  guard (eqb_ℤ instant to) advance_target
  ordinal ← or_fail (as_uint64 (field target 1)) advance_target
  ok (record { not_before_instant = instant; not_before_cycle_ordinal = ordinal })

unfoldable pub closure_at : Cycle → Result AdmissionError EligibilityCoordinate
closure_at cycle = elim cycle.plan [
  | none ↦ ok (at_cycle cycle)
  | some plan ↦ advance_target_of cycle plan
]

abbrev cycle_plan : Cycle → List Value
cycle_plan cycle = elim cycle.plan [ none ↦ uint64 0 ∷ [] | some plan ↦ plan ]

-- A CLOCK_ADVANCE admits no unit.
abbrev pub admits : Cycle → List AdmittedUnit → Bool
admits cycle units = elim cycle.plan [ none ↦ true | some plan ↦ length units == 0 ]

-- All responses of a snapshot.
unfoldable pub all_responses : List (Bytes × List (Bytes × Response)) → List Response
all_responses [] = []
all_responses ((round, m) ∷ slots) = map (λ p. p.1) m ++ all_responses slots

abbrev pub verify_records : Deriver → Snapshot → Result AdmissionError (Unit {0})
verify_records d s = do
  each (verify_input d) s.inputs
  each (verify_closure d) s.closures
  each (verify_round d) s.rounds
  each (verify_response d) (all_responses s.slots)

-- `ledger.SystemUnits`
abbrev pub read_system_units :
    Option (EligibilityCoordinate → Option (List SystemUnit))
    → EligibilityCoordinate
    → Result AdmissionError (List SystemUnit)
read_system_units none at = ok []
read_system_units (some reader) at = or_fail (reader at) no_system_units

abbrev pub fence_fields :
    Policies → Snapshot → Cycle → List Value → Value → List Value → Bytes → List Value
fence_fields policies s cycle proofs cohort units input_digest =
    byte_string s.run_id
    ∷ byte_string cycle.id
    ∷ uint64 cycle.attempt
    ∷ cycle.retry_ref
    ∷ int64 cycle.instant
    ∷ uint64 cycle.ordinal
    ∷ list (cycle_plan cycle)
    ∷ uint64 cycle.base_revision
    ∷ byte_string cycle.base_state_hash
    ∷ list proofs
    ∷ cohort
    ∷ list units
    ∷ byte_string input_digest
    ∷ policies.admission_order
    ∷ policies.causal_identity
    ∷ policies.fence
    ∷ policies.rules
    ∷ []

abbrev pub round_id_value : Round → Value
round_id_value r = byte_string r.id

abbrev pub derive_id : Deriver → String → String → Value → Result AdmissionError Bytes
derive_id d tag schema v = of_identity (sum d (literal tag) (literal schema) 1 v)

module _ (d : Deriver) (policies : Policies) (cycle : Cycle) where
  -- What follows the units: their digest, the fence's and its identity.
  unfoldable pub seal_fence :
      Snapshot → List Value → Value → List AdmittedUnit → Result AdmissionError Fence
  seal_fence s proofs cohort units = do
    let values = map unit_value units
    input_digest ←
        derive_id d "cote.csf.digest.input" "cote.csf.schema.admitted-unit-list" (list values)
    guard (admits cycle units) advance_admits
    let fields = fence_fields policies s cycle proofs cohort values input_digest
    digest ←
        derive_id d "cote.csf.digest.fence" "cote.csf.schema.admission-fence.body" (list fields)
    id ←
        derive_id d "cote.csf.id.admission-fence" "cote.csf.schema.admission-fence-id-preimage"
          (list (byte_string s.run_id ∷ byte_string cycle.id ∷ uint64 cycle.attempt ∷ []))
    canonical ← of_codec (canonical_payload d.codec (list (fields ++ byte_string digest ∷ [])))
    ok (record {
      id = id;
      digest = digest;
      fields = fields ++ byte_string digest ∷ [];
      canonical = canonical;
      input_digest = input_digest;
    })

module _ (d : Deriver) (reader : Option (EligibilityCoordinate → Option (List SystemUnit)))
    (policies : Policies) (cycle : Cycle) where
  -- `DeriveWithContext`, from the snapshot on.
  unfoldable pub derive : Snapshot → Result AdmissionError Fence
  derive s = do
    verify_records d s
    at ← closure_at cycle
    proofs ← closure_proofs s.closures at s.sources
    let rounds = sort round_before (eligible_rounds (at_cycle cycle) s.rounds)
    cohort ← round_units s.run_id cycle s.slots rounds
    cohort_id ← derive_id d "cote.csf.id.cohort" "cote.csf.schema.cohort-id-preimage" (
        list (
          byte_string cycle.id
          ∷ uint64 cycle.base_revision
          ∷ list (map round_id_value rounds)
          ∷ []))
    read ← read_system_units reader (at_cycle cycle)
    system ← system_units (at_cycle cycle) read
    let units = sort unit_less (cohort.0 ++ (input_units (at_cycle cycle) s.inputs ++ system))
    seal_fence d policies cycle s proofs (list (byte_string cohort_id ∷ list cohort.1 ∷ [])) units

  -- `VerifyFence`
  unfoldable pub verify_fence : Snapshot → Fence → Result AdmissionError (Unit {0})
  verify_fence s candidate = do
    derived ← derive s
    guard
        (bytes_equal candidate.id derived.id
          && (bytes_equal candidate.digest derived.digest
              && (bytes_equal candidate.input_digest derived.input_digest
                  && bytes_equal candidate.canonical derived.canonical)))
        derivation_differs
