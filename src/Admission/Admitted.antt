-- ===== src/Admission/Admitted.antt =====
-- What a derived admission fence holds (`DeriveWithContext` of internal/csf/admission/fence.go).
use cote_ai_simulation.Base.{◌≡◌, ◌++◌, true, List, [], map, Option, some, ok, All, Among, ◌↔◌}
use mathlib.Core.List.Permᴰ
use cote_ai_simulation.Base.Bytes.{Bytes}
use cote_ai_simulation.Base.Sort.{sort, IsAscending}
use cote_ai_simulation.Domain.{EligibilityCoordinate}
use cote_ai_simulation.Value.{Value, list, field}
use cote_ai_simulation.Identity.{Deriver}
use cote_ai_simulation.Ledger.{Stored, Round, Response}
use cote_ai_simulation.Ledger.Snapshots.{Snapshot, SystemUnit, round_before}
use cote_ai_simulation.Admission.{Cycle, Policies, Fence}
use cote_ai_simulation.Admission.Units.{
  AdmittedUnit, unit_less, unit_value, at_cycle, eligible_rounds, input_unit, input_units,
  system_unit, response_unit, responses_in, not_after,
}
use cote_ai_simulation.Admission.Derive.{closure_at, read_system_units}
use cote_ai_simulation.Admission.Derivation.{Derivation}
use cote_ai_simulation.Admission.Closed.{Proven}
use cote_ai_simulation.Admission.Cohort.{Answer, IsEligible, IsAdmissible}

module _ (d : Deriver) (reader : Option (EligibilityCoordinate → Option (List SystemUnit)))
    (policies : Policies) (cycle : Cycle) where
  -- Where an admitted unit comes from.
  pub data Origin (s : Snapshot) (read : List SystemUnit) (u : AdmittedUnit) : Type 0 where
    response :
        (round : Round) (slot : Bytes) (r : Response)
        → Among round s.rounds
        → IsEligible (at_cycle cycle) round
        → Among slot round.slots
        → Answer s.run_id cycle (responses_in s.slots round.id) slot r
        → u ≡ response_unit round r
        → Origin s read u
    input :
        (i : Stored)
        → Among i s.inputs
        → not_after (input_unit i).eligibility (at_cycle cycle) ≡ true
        → u ≡ input_unit i
        → Origin s read u
    system :
        (x : SystemUnit)
        → Among x read
        → IsAdmissible (at_cycle cycle) x
        → u ≡ system_unit x
        → Origin s read u

  -- What a derived fence holds.
  pub record Admitted (s : Snapshot) (f : Fence) : Type 0 where
    -- Field 9 proves the closure of every source.
    pub at : EligibilityCoordinate
    pub through : closure_at cycle ≡ ok at
    pub proofs : List Value
    pub proofs_in : field f.fields 9 ≡ list proofs
    pub proven : Proven s.closures at s.sources proofs
    -- Every slot of an open round that is eligible has a response of the cycle.
    pub answered :
        (round : Round) (slot : Bytes)
        → Among round s.rounds
        → IsEligible (at_cycle cycle) round
        → Among slot round.slots
        → (r : Response) × Answer s.run_id cycle (responses_in s.slots round.id) slot r
    -- Field 11 lists the units in their order.
    pub read : List SystemUnit
    pub reads : read_system_units reader (at_cycle cycle) ≡ ok read
    pub units : List AdmittedUnit
    pub units_in : field f.fields 11 ≡ list (map unit_value units)
    pub ascending : IsAscending unit_less units
    pub exactly : (u : AdmittedUnit) → Among u units ↔ Origin s read u
    pub none_after : All (λ u. not_after u.eligibility (at_cycle cycle) ≡ true) units
    pub advance_is_empty : (plan : List Value) → cycle.plan ≡ some plan → units ≡ []

  module _ (s : Snapshot) (f : Fence) (w : Derivation d reader policies cycle s f) where
    rounds : List Round
    rounds = sort round_before (eligible_rounds (at_cycle cycle) s.rounds)

    collected : List AdmittedUnit
    collected = w.cohort.0 ++ (input_units (at_cycle cycle) s.inputs ++ w.system)

    sorted : List AdmittedUnit
    sorted = sort unit_less collected
