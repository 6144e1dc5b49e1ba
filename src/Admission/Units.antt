-- ===== src/Admission/Units.antt =====
-- The units of a fence and the closures it waits for (internal/csf/admission/fence.go).
use cote_ai_simulation.Base.{
  ℕ, ◌&&◌, ◌||◌, Bool, true, false, ltb, ◌==◌, if◌then◌else◌, List, [], ◌∷◌, ◌++◌, Option, some,
  none, Result, ok, ◌>>=◌, ◌>>◌, guard, or_fail, not, Ordering,
}
use cote_ai_simulation.Base.Bytes.{Bytes, bytes_equal, bytes_compare}
use cote_ai_simulation.Base.Int.{eqb_ℤ}
use cote_ai_simulation.Domain.{EligibilityCoordinate, compare_coordinate, is_le, is_ge, is_gt}
use cote_ai_simulation.Value.{Value, text, byte_string, uint64, list, field}
use cote_ai_simulation.Store.Maps.{lookup}
use cote_ai_simulation.Ledger.{Stored, Round, Response}
use cote_ai_simulation.Ledger.Bodies.{coord_value}
use cote_ai_simulation.Ledger.Sources.{coordinate, closed_at, is_final}
use cote_ai_simulation.Ledger.Snapshots.{SystemUnit, before}
use cote_ai_simulation.Admission.{
  Cycle, AdmissionError, waiting_for_closure, waiting_for_slot, response_mismatch,
  unregistered_kind, unit_too_late,
}

-- `unit`
pub record AdmittedUnit : Type 0 where
  pub eligibility : EligibilityCoordinate
  pub kind : ℕ
  pub source : Bytes
  pub id : Bytes
  pub digest : Bytes

-- `unit.less`
unfoldable pub unit_less : AdmittedUnit → AdmittedUnit → Bool
unit_less u v = elim (compare_coordinate u.eligibility v.eligibility) [
  | Ordering.lt ↦ true
  | Ordering.gt ↦ false
  | Ordering.eq ↦
      if u.kind == v.kind
      then elim (bytes_compare u.source v.source) [
        | Ordering.lt ↦ true
        | Ordering.gt ↦ false
        | Ordering.eq ↦ elim (bytes_compare u.digest v.digest) [
          | Ordering.lt ↦ true
          | Ordering.gt ↦ false
          | Ordering.eq ↦ before u.id v.id
        ]
      ]
      else ltb u.kind v.kind
]

abbrev pub unit_value : AdmittedUnit → Value
unit_value u = list (
    coord_value u.eligibility
    ∷ uint64 u.kind
    ∷ text u.source
    ∷ byte_string u.id
    ∷ byte_string u.digest
    ∷ [])

-- A closure of the source that is final, or closes through the coordinate.
unfoldable pub qualifies : Bytes → EligibilityCoordinate → Stored → Bool
qualifies source at c =
    bytes_equal c.receipt.source_id source
    && (is_final c || is_ge (compare_coordinate (closed_at c) at))

-- `selected == nil || c.Receipt.Sequence < selected.Receipt.Sequence`
abbrev pub better : Stored → Option Stored → Option Stored
better c none = some c
better c (some s) = if ltb c.receipt.sequence s.receipt.sequence then some c else some s

-- The inner loop over the closures; `selected` is its variable.
unfoldable pub select_closure :
    Bytes → EligibilityCoordinate → Option Stored → List Stored → Option Stored
select_closure source at selected [] = selected
select_closure source at selected (c ∷ cs) =
    select_closure source at (if qualifies source at c then better c selected else selected) cs

abbrev pub proof_value : Bytes → Stored → Value
proof_value source c = list (
    text source
    ∷ list (uint64 2 ∷ byte_string c.id ∷ byte_string c.digest ∷ [])
    ∷ uint64 c.receipt.sequence
    ∷ field c.fields 4
    ∷ field c.fields 5
    ∷ [])

-- The loop over the sources.
unfoldable pub closure_proofs :
    List Stored → EligibilityCoordinate → List Bytes → Result AdmissionError (List Value)
closure_proofs closures at [] = ok []
closure_proofs closures at (source ∷ sources) = do
  c ← or_fail (select_closure source at none closures) (waiting_for_closure source)
  rest ← closure_proofs closures at sources
  ok (proof_value source c ∷ rest)

abbrev pub at_cycle : Cycle → EligibilityCoordinate
at_cycle cycle = record {
  not_before_instant = cycle.instant;
  not_before_cycle_ordinal = cycle.ordinal;
}

abbrev pub not_after : EligibilityCoordinate → EligibilityCoordinate → Bool
not_after a b = is_le (compare_coordinate a b)

-- The open rounds that are eligible.
unfoldable pub eligible_rounds : EligibilityCoordinate → List Round → List Round
eligible_rounds at [] = []
eligible_rounds at (r ∷ rs) =
    let rest = eligible_rounds at rs in
    if (r.lifecycle == 0) && not_after r.eligibility at then r ∷ rest else rest

abbrev pub response_kind : Response → ℕ
response_kind r = if r.kind == 1 then 23 else 5

abbrev pub response_unit : Round → Response → AdmittedUnit
response_unit round r = record {
  eligibility = round.eligibility;
  kind = 0;
  source = round.source_id;
  id = r.id;
  digest = r.digest;
}

abbrev slot_value : Bytes → Response → Value
slot_value slot r = list (
    text slot ∷ list (uint64 (response_kind r) ∷ byte_string r.id ∷ byte_string r.digest ∷ []) ∷ [])

-- The response is of the run, the cycle, its instant and its base revision.
unfoldable pub matches_cycle : Bytes → Cycle → Response → Bool
matches_cycle run cycle r =
    bytes_equal r.run_id run
    && (bytes_equal r.cycle_id cycle.id
        && (eqb_ℤ r.effective_at cycle.instant
            && r.submitted_against_revision == cycle.base_revision))

-- The loop over the slots of a round: their units, and their values in the cohort.
unfoldable pub slot_units :
    Bytes
    → Cycle
    → Round
    → List (Bytes × Response)
    → List Bytes
    → Result AdmissionError (List AdmittedUnit × List Value)
slot_units run cycle round responses [] = ok ([], [])
slot_units run cycle round responses (slot ∷ slots) = do
  r ← or_fail (lookup slot responses) (waiting_for_slot round.id slot)
  guard (matches_cycle run cycle r) response_mismatch
  rest ← slot_units run cycle round responses slots
  ok (response_unit round r ∷ rest.0, slot_value slot r ∷ rest.1)

abbrev pub responses_in : List (Bytes × List (Bytes × Response)) → Bytes → List (Bytes × Response)
responses_in slots round = elim (lookup round slots) [ none ↦ [] | some m ↦ m ]

-- The loop over the eligible rounds. Their IDs are distinct, so `indexRound` is the position.
unfoldable pub round_units :
    Bytes
    → Cycle
    → List (Bytes × List (Bytes × Response))
    → List Round
    → Result AdmissionError (List AdmittedUnit × List Value)
round_units run cycle slots [] = ok ([], [])
round_units run cycle slots (r ∷ rs) = do
  us ← slot_units run cycle r (responses_in slots r.id) r.slots
  rest ← round_units run cycle slots rs
  ok (us.0 ++ rest.0, list (byte_string r.id ∷ list us.1 ∷ []) ∷ rest.1)

abbrev pub input_unit : Stored → AdmittedUnit
input_unit input = record {
  eligibility = coordinate (field input.fields 9);
  kind = 1;
  source = input.receipt.source_id;
  id = input.id;
  digest = input.digest;
}

-- The loop over the inputs.
unfoldable pub input_units : EligibilityCoordinate → List Stored → List AdmittedUnit
input_units at [] = []
input_units at (i ∷ is) =
    let rest = input_units at is in
    if not_after (input_unit i).eligibility at then input_unit i ∷ rest else rest

abbrev pub system_unit : SystemUnit → AdmittedUnit
system_unit s = record {
  eligibility = s.eligibility;
  kind = s.kind;
  source = s.source;
  id = s.id;
  digest = s.digest;
}

-- The loop over the system units.
unfoldable pub system_units :
    EligibilityCoordinate → List SystemUnit → Result AdmissionError (List AdmittedUnit)
system_units at [] = ok []
system_units at (s ∷ ss) = do
  guard ((s.kind == 2) || (s.kind == 3)) unregistered_kind
  guard (not (is_gt (compare_coordinate s.eligibility at))) unit_too_late
  rest ← system_units at ss
  ok (system_unit s ∷ rest)
