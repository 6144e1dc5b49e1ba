-- ===== src/Decision/Fenced.antt =====
-- A decision over a published fence: `FromPersistedFence` (internal/csf/decision/fence_bridge.go),
-- then `Run` (internal/csf/decision/run.go).
use cote_ai_simulation.Base.{
  ℕ, ◌≡◌, refl, sym, ap, ◌∙◌, subst, Bool, not, ◌&&◌, ◌||◌, ◌==◌, leb, if◌then◌else◌, List, [], ◌∷◌,
  map, Option, some, none, length, Result, ok, or_fail, bind-eq_ok, then-eq_ok, guard-then-eq_ok,
  ok-injective, or_fail-eq_ok, Bool-cases, inl, inr,
}
use cote_ai_simulation.Base.Bytes.{Bytes, bytes_equal}
use cote_ai_simulation.Domain.{EligibilityCoordinate}
use cote_ai_simulation.Value.{Value, byte_string, field, as_array, as_text, as_uint64, as_32_bytes}
use cote_ai_simulation.Identity.{Deriver}
use cote_ai_simulation.Store.Maps.{lookup}
use cote_ai_simulation.Ledger.Snapshots.{SystemUnit}
use cote_ai_simulation.Ledger.Snapshots
use cote_ai_simulation.Admission.{Cycle, Policies, Fence}
use cote_ai_simulation.Admission.Derive.{verify_fence}
use cote_ai_simulation.Decision.{
  DecisionError, DeliveredUnit, ActionSchema, HistoryBinding, PolicyRefs, Snapshot, Input,
  provenance, indeterminate, no_slot_response, or_provenance,
}
use cote_ai_simulation.Decision.Bridge.{
  Responses, responses_by_id, resolve_slot, resolve_kind, resolve_fenced, from_persisted_fence,
}
use cote_ai_simulation.Decision.Results.{DecisionResult}
use cote_ai_simulation.Decision.Run.{run}
use cote_ai_simulation.Decision.Conserved.{subject_of}
use cote_ai_simulation.Decision.Decided.{run-IsDecided}

-- The IDs in the slot units, of kind 0, among the units of a fence.
unfoldable pub slot_ids : List Value → List Value
slot_ids [] = []
slot_ids (raw ∷ raws) =
    let rest = slot_ids raws in
    elim (as_array raw) [
      | none ↦ rest
      | some unit ↦ elim (as_uint64 (field unit 1)) [
        | none ↦ rest
        | some kind ↦ if kind == 0 then field unit 3 ∷ rest else rest
      ]
    ]

abbrev id_value : Bytes × DeliveredUnit → Value
id_value u = byte_string u.0

some_eq : {a b : Bytes} → some a ≡ some b → a ≡ b
some_eq h = cc

as_32_bytes-eq : (v : Value) (b : Bytes) → as_32_bytes v ≡ some b → v ≡ byte_string b
unfolding as_32_bytes
as_32_bytes-eq (byte_string c) b h = elim (Bool-cases (length c == 32)) [
  | inl e ↦ ap byte_string (some_eq (rw e at h))
  | inr e ↦ cc (rw e at h)
]
as_32_bytes-eq _ b h = cc

resolve_slot-id :
    (m : Responses) (unit : List Value) (u : Bytes × DeliveredUnit)
    → resolve_slot m unit ≡ ok u
    → field unit 3 ≡ byte_string u.0
unfolding resolve_slot
resolve_slot-id m unit u h =
    let (source, e₁, h₁) = bind-eq_ok (or_fail (as_text (field unit 2)) provenance) _ h in
    let (id, e₂, h₂) = bind-eq_ok (or_fail (as_32_bytes (field unit 3)) provenance) _ h₁ in
    let (digest, e₃, h₃) = bind-eq_ok (or_fail (as_32_bytes (field unit 4)) provenance) _ h₂ in
    let (stored, e₄, h₄) = bind-eq_ok (or_fail (lookup id m) provenance) _ h₃ in
    let (g, h₅) =
      guard-then-eq_ok
        (bytes_equal source stored.producer_scope && bytes_equal digest stored.response.digest)
        provenance _ h₄ in
    subst (λ u. field unit 3 ≡ byte_string u.0) (ok-injective h₅)
      (as_32_bytes-eq (field unit 3) id (or_fail-eq_ok (as_32_bytes (field unit 3)) provenance e₂))

slot_ids-unit :
    (raw : Value) (raws unit : List Value) (kind : ℕ)
    → as_array raw ≡ some unit
    → as_uint64 (field unit 1) ≡ some kind
    → slot_ids (raw ∷ raws) ≡ (if kind == 0 then field unit 3 ∷ slot_ids raws else slot_ids raws)
unfolding slot_ids
slot_ids-unit raw raws unit kind e f = rw (e, f, slot_ids) refl

resolve_kind-slot_ids :
    (allow : Bool) (m : Responses) (unit : List Value) (kind : ℕ)
    (rest : Result DecisionError (List (Bytes × DeliveredUnit))) (ids : List Value)
    (us : List (Bytes × DeliveredUnit))
    → resolve_kind allow m unit kind rest ≡ ok us
    → ((vs : List (Bytes × DeliveredUnit)) → rest ≡ ok vs → ids ≡ map id_value vs)
    → (if kind == 0 then field unit 3 ∷ ids else ids) ≡ map id_value us
unfolding resolve_kind
resolve_kind-slot_ids allow m unit kind rest ids us h others = elim (Bool-cases (kind == 0)) [
  | inl k ↦
      let (u, e, h₁) = bind-eq_ok (resolve_slot m unit) _ (rw (k, resolve_kind) at h) in
      let (vs, f, h₂) = bind-eq_ok rest _ h₁ in
      subst (λ us. (if kind == 0 then field unit 3 ∷ ids else ids) ≡ map id_value us)
        (ok-injective h₂) (rw (k, resolve_slot-id m unit u e, others vs f) refl)
  | inr k ↦
      let (g, h₁) =
        guard-then-eq_ok (allow && ((kind == 2) || (kind == 3))) indeterminate _
          (rw (k, resolve_kind) at h) in
      rw k (others us h₁)
]

resolve_fenced-slot_ids :
    (allow : Bool) (m : Responses) (raws : List Value) (us : List (Bytes × DeliveredUnit))
    → resolve_fenced allow m raws ≡ ok us
    → slot_ids raws ≡ map id_value us
unfolding resolve_fenced slot_ids
resolve_fenced-slot_ids allow m [] us h = subst (λ us. [] ≡ map id_value us) (ok-injective h) refl
resolve_fenced-slot_ids allow m (raw ∷ raws) us h =
    let (unit, e₁, h₁) = bind-eq_ok (or_fail (as_array raw) provenance) _ h in
    let (l, h₂) = guard-then-eq_ok (length unit == 5) provenance _ h₁ in
    let (kind, e₂, h₃) = bind-eq_ok (or_fail (as_uint64 (field unit 1)) provenance) _ h₂ in
    let opened =
      slot_ids-unit raw raws unit kind (or_fail-eq_ok (as_array raw) provenance e₁)
        (or_fail-eq_ok (as_uint64 (field unit 1)) provenance e₂) in
    opened
    ∙ resolve_kind-slot_ids allow m unit kind (resolve_fenced allow m raws) (slot_ids raws) us h₃
        (resolve_fenced-slot_ids allow m raws)

id_values :
    (us : List (Bytes × DeliveredUnit)) → map id_value us ≡ map byte_string (map (λ u. u.0) us)
id_values [] = refl
id_values (u ∷ us) = ap (λ vs. byte_string u.0 ∷ vs) (id_values us)

module _ (d : Deriver) (reader : Option (EligibilityCoordinate → Option (List SystemUnit)))
    (published : Bytes → Option Bytes) (ledger : Snapshots.Snapshot) (cycle : Cycle)
    (policies : Policies) (fence : Fence) (snapshot : Snapshot) (schemas : List ActionSchema)
    (seed : Bytes) (history : List HistoryBinding) (allow : Bool) where
  abbrev assembled : Result DecisionError Input
  assembled =
      from_persisted_fence d reader published ledger cycle policies fence snapshot schemas seed
        history allow

  assembled-admitted :
      (input : Input)
      → assembled ≡ ok input
      → (raws : List Value) × (as_array (field fence.fields 11) ≡ some raws)
        × (slot_ids raws ≡ map byte_string input.admitted)
  unfolding from_persisted_fence
  assembled-admitted input h =
      let (persisted, e₁, h₁) = bind-eq_ok (or_fail (published fence.id) provenance) _ h in
      let (g₁, h₂) = guard-then-eq_ok (bytes_equal persisted fence.canonical) provenance _ h₁ in
      let (v, h₃) =
        then-eq_ok (or_provenance (verify_fence d reader policies cycle ledger fence)) _ h₂ in
      let (g₂, h₄) =
        guard-then-eq_ok (snapshot.base_revision == cycle.base_revision) provenance _ h₃ in
      let (m, e₂, h₅) = bind-eq_ok (responses_by_id [] ledger.rounds ledger.slots) _ h₄ in
      let (g₃, h₆) = guard-then-eq_ok (leb 12 (length fence.fields)) provenance _ h₅ in
      let (raws, e₃, h₇) =
        bind-eq_ok (or_fail (as_array (field fence.fields 11)) provenance) _ h₆ in
      let (resolved, e₄, h₈) = bind-eq_ok (resolve_fenced allow m raws) _ h₇ in
      let (g₄, h₉) = guard-then-eq_ok (not (length resolved == 0)) no_slot_response _ h₈ in
      (
        raws,
        or_fail-eq_ok (as_array (field fence.fields 11)) provenance e₃,
        subst (λ input. slot_ids raws ≡ map byte_string input.admitted) (ok-injective h₉)
            (resolve_fenced-slot_ids allow m raws resolved e₄ ∙ id_values resolved),
      )

  -- The decision over a published fence has one disposition for each slot unit of the fence, and
  -- in the fence's order, where the input is assembled and the run accepted.
  pub run_fenced :
      (refs : PolicyRefs) (input : Input) (r : DecisionResult)
      → assembled ≡ ok input
      → run d refs input ≡ ok r
      → (raws : List Value) × (as_array (field fence.fields 11) ≡ some raws)
        × (map byte_string (map subject_of r.dispositions) ≡ slot_ids raws)
  run_fenced refs input r h e =
      let (raws, in_fence, ids) = assembled-admitted input h in
      let decided = run-IsDecided d refs input r e in
      (raws, in_fence, ap (map byte_string) decided.in_order ∙ sym ids)
