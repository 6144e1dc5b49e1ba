-- ===== src/Decision/Bridge.antt =====
-- internal/csf/decision/fence_bridge.go: the input of a decision from a fence that is published.
-- The reader of the published fences is an argument, with `none` where it fails.
use cote_ai_simulation.Base.{
  ℕ, ◌&&◌, ◌||◌, Bool, true, false, not, ◌==◌, leb, List, [], ◌∷◌, map, Option, some, none, length,
  Result, ok, err, ◌>>=◌, ◌>>◌, guard, or_fail,
}
use cote_ai_simulation.Base.Bytes.{Bytes, bytes_equal}
use cote_ai_simulation.Domain.{EligibilityCoordinate}
use cote_ai_simulation.Value.{Value, field, as_array, as_text, as_uint64, as_32_bytes}
use cote_ai_simulation.Identity.{Deriver}
use cote_ai_simulation.Store.Maps.{lookup, put}
use cote_ai_simulation.Ledger.{Response, Round}
use cote_ai_simulation.Ledger.Snapshots.{SystemUnit}
use cote_ai_simulation.Ledger.Snapshots
use cote_ai_simulation.Admission.{Cycle, Policies, Fence}
use cote_ai_simulation.Admission.Derive.{verify_fence}
use cote_ai_simulation.Decision.{
  DecisionError, DeliveredUnit, ActionSchema, HistoryBinding, Snapshot, Input, provenance,
  indeterminate, no_slot_response, or_provenance,
}

-- `slots[id]`: a missing round has no responses.
abbrev pub slots_of : Bytes → List (Bytes × List (Bytes × Response)) → List (Bytes × Response)
slots_of id slots = elim (lookup id slots) [ none ↦ [] | some rs ↦ rs ]

-- The responses of the ledger by ID, none twice, with the source of the round as their scope.
abbrev pub Responses : Type 0
Responses = List (Bytes × DeliveredUnit)

unfoldable pub add_responses :
    Bytes → Responses → List (Bytes × Response) → Result DecisionError Responses
add_responses scope m [] = ok m
add_responses scope m ((key, r) ∷ rs) = elim (lookup r.id m) [
  | some old ↦ err provenance
  | none ↦ add_responses scope (put r.id (record { response = r; producer_scope = scope }) m) rs
]

unfoldable pub responses_by_id :
    Responses → List Round → List (Bytes × List (Bytes × Response)) → Result DecisionError Responses
responses_by_id m [] slots = ok m
responses_by_id m (round ∷ rounds) slots = do
  next ← add_responses round.source_id m (slots_of round.id slots)
  responses_by_id next rounds slots

-- A fenced slot response, which the ledger has with the same source and digest.
unfoldable pub resolve_slot : Responses → List Value → Result DecisionError (Bytes × DeliveredUnit)
resolve_slot responses unit = do
  source ← or_fail (as_text (field unit 2)) provenance
  id ← or_fail (as_32_bytes (field unit 3)) provenance
  digest ← or_fail (as_32_bytes (field unit 4)) provenance
  stored ← or_fail (lookup id responses) provenance
  guard (bytes_equal source stored.producer_scope && bytes_equal digest stored.response.digest)
      provenance
  ok (id, stored)

-- A unit of a kind, before the units that follow. Units of the system are left out where their
-- handlers are elsewhere.
unfoldable pub resolve_kind :
    Bool
    → Responses
    → List Value
    → ℕ
    → Result DecisionError (List (Bytes × DeliveredUnit))
    → Result DecisionError (List (Bytes × DeliveredUnit))
resolve_kind allow_system responses unit kind rest = elim (kind == 0) [
  | true ↦ (resolve_slot responses unit >>= λ u. (rest >>= λ us. ok (u ∷ us)))
  | false ↦ (guard (allow_system && ((kind == 2) || (kind == 3))) indeterminate >> rest)
]

-- The admitted slot responses, in the fence's order.
unfoldable pub resolve_fenced :
    Bool → Responses → List Value → Result DecisionError (List (Bytes × DeliveredUnit))
resolve_fenced allow_system responses [] = ok []
resolve_fenced allow_system responses (raw ∷ raws) = do
  unit ← or_fail (as_array raw) provenance
  guard (length unit == 5) provenance
  kind ← or_fail (as_uint64 (field unit 1)) provenance
  resolve_kind allow_system responses unit kind (resolve_fenced allow_system responses raws)

module _ (d : Deriver) (reader : Option (EligibilityCoordinate → Option (List SystemUnit)))
    (published : Bytes → Option Bytes) where
  -- `fromPersistedFence`
  unfoldable pub from_persisted_fence :
      Snapshots.Snapshot
      → Cycle
      → Policies
      → Fence
      → Snapshot
      → List ActionSchema
      → Bytes
      → List HistoryBinding
      → Bool
      → Result DecisionError Input
  from_persisted_fence ledger cycle policies fence snapshot schemas seed history allow_system = do
    persisted ← or_fail (published fence.id) provenance
    guard (bytes_equal persisted fence.canonical) provenance
    or_provenance (verify_fence d reader policies cycle ledger fence)
    guard (snapshot.base_revision == cycle.base_revision) provenance
    responses ← responses_by_id [] ledger.rounds ledger.slots
    guard (leb 12 (length fence.fields)) provenance
    raw_units ← or_fail (as_array (field fence.fields 11)) provenance
    resolved ← resolve_fenced allow_system responses raw_units
    guard (not (length resolved == 0)) no_slot_response
    ok (record {
      run_id = ledger.run_id;
      cycle_id = cycle.id;
      attempt = cycle.attempt;
      units = map (λ u. u.1) resolved;
      schemas = schemas;
      admitted = map (λ u. u.0) resolved;
      snapshot = snapshot;
      history = history;
      seed = seed;
    })
