-- ===== src/Decision/Responses.antt =====
-- internal/csf/decision/kernel.go (validateResponse): what a unit proposes, and what of it is accepted.
use Prim.Native.String.{String}
use cote_ai_simulation.Base.{
  ℕ, ◌&&◌, Bool, true, false, ◌==◌, leb, if◌then◌else◌, List, [], ◌∷◌, ◌++◌, Option, some, none,
  length, Result, ok, err, ◌>>=◌, ◌>>◌, guard, or_fail,
}
use cote_ai_simulation.Base.Bytes.{Bytes, bytes_equal, literal}
use cote_ai_simulation.Base.Int.{pos, negsuc}
use cote_ai_simulation.Domain.Patterns.{validate_machine_id}
use cote_ai_simulation.Base.Bytes.{zero_id}
use cote_ai_simulation.Value.{
  Value, byte_string, uint64, list, field, as_array, as_text, as_bytes, as_uint64, is_literal,
  signed_int64, is_uint64,
}
use cote_ai_simulation.Codec.{canonical_payload, strict_decode_envelope}
use cote_ai_simulation.Identity.{Deriver, sum, opaque_content_hash}
use cote_ai_simulation.Ledger.{Response}
use cote_ai_simulation.Ledger.Bodies.{bytes_at, actor_at, equals_int64}
use cote_ai_simulation.Decision.{
  DecisionError, provenance, invalid_machine_id, identity_error, DeliveredUnit, ActionSchema, Input,
  Prepared, of_codec, or_provenance,
}

module _ (d : Deriver) where
  -- `derive` and `digest`
  abbrev pub derive : String → String → Value → Result DecisionError Bytes
  derive tag schema v = elim (sum d (literal tag) (literal schema) 1 v) [
    | ok b ↦ ok b
    | err e ↦ err (identity_error e)
  ]

  -- `encode`
  abbrev pub encode : List Value → Bytes → Result DecisionError Bytes
  encode fields hash = of_codec (canonical_payload d.codec (list (fields ++ byte_string hash ∷ [])))

  -- `refsEqual`
  unfoldable pub refs_equal : Value → Value → Bool
  refs_equal a b = elim (canonical_payload d.codec a) [
    | err e ↦ false
    | ok x ↦ elim (canonical_payload d.codec b) [ err e ↦ false | ok y ↦ bytes_equal x y ]
  ]

  -- `validTypedHash`
  abbrev valid_typed_hash : Bytes → Value → Bool
  valid_typed_hash raw witness = bytes_at (witness ∷ []) 0 (opaque_content_hash d raw)

abbrev unprepared : DeliveredUnit → Prepared
unprepared u = record {
  unit = u;
  id = u.response.id;
  logical = zero_id;
  namespace = [];
  alias = none;
  resource = [];
  amount = 0;
  is_indeterminate = false;
  no_proposal = u.response.kind == 1;
  producer = [];
}

-- The schema that handles the action, if one is registered.
unfoldable pub find_schema : List ActionSchema → Bytes → ℕ → Option ActionSchema
find_schema [] kind version = none
find_schema (s ∷ ss) kind version =
    let rest = find_schema ss kind version in
    if bytes_equal s.type kind
      && ((s.version == version) && bytes_equal s.operation (literal "resource.consume"))
    then some s
    else rest

-- The claim of a positive int64 amount.
abbrev pub positive_amount : Value → Option ℕ
positive_amount v = elim (signed_int64 v) [
  | none ↦ none
  | some n ↦ elim n [ pos m ↦ if m == 0 then none else some m | negsuc m ↦ none ]
]

-- `ref == []any{uint64(0)}`, of canonical payloads.
abbrev absent : Value
absent = list (uint64 0 ∷ [])

module _ (d : Deriver) (input : Input) where
  -- The part of `validateResponse` before the two kinds part: identity, digest and bytes.
  unfoldable pub check_response : DeliveredUnit → Result DecisionError (Unit {0})
  check_response u = do
    let x = u.response
    let refusal = x.kind == 1
    guard
        (leb x.kind 1
          && (bytes_equal x.run_id input.run_id
              && (bytes_equal x.cycle_id input.cycle_id
                  && x.submitted_against_revision == input.snapshot.base_revision)))
        provenance
    guard (validate_machine_id u.producer_scope) invalid_machine_id
    guard (length x.body == (if refusal then 10 else 18)) provenance
    wanted ← or_provenance (
        derive d (if refusal then "cote.csf.id.no-proposal" else "cote.csf.id.action-proposal")
          "cote.csf.schema.slot-response-id-preimage"
          (list (byte_string x.dispatch_id ∷ uint64 x.kind ∷ [])))
    guard (bytes_equal wanted x.id) provenance
    dg ← or_provenance (
        derive d
          (if refusal
            then "cote.csf.digest.no-proposal-unit"
            else "cote.csf.digest.action-proposal-unit")
          (if refusal
            then "cote.csf.schema.no-proposal.body"
            else "cote.csf.schema.action-proposal.body")
          (list (list x.body ∷ [])))
    guard (bytes_equal dg x.digest) provenance
    raw ← or_provenance (encode d x.body dg)
    guard (bytes_equal raw x.canonical) provenance
    guard
        (bytes_at x.body 0 x.id
          && (bytes_at x.body 1 x.dispatch_id
              && (bytes_at x.body 2 input.run_id && bytes_at x.body 3 input.cycle_id)))
        provenance

  -- A refusal: its fields, and one of the three registered reasons.
  unfoldable pub check_no_proposal : Response → Result DecisionError (Unit {0})
  check_no_proposal x = do
    guard
        (bytes_at x.body 4 x.round_id
          && (is_literal (field x.body 5) x.slot_id
              && (actor_at x.body 6 x.actor
                  && (is_uint64 (field x.body 8) x.submitted_against_revision
                      && equals_int64 (field x.body 7) x.effective_at))))
        provenance
    reason ← or_fail (as_uint64 (field x.body 9)) provenance
    guard (leb reason 2) provenance

  -- The typed parameters of an action are an empty list.
  unfoldable pub check_parameters : Value → Result DecisionError (Unit {0})
  check_parameters v = do
    params ← or_fail (as_array v) provenance
    guard
        ((length params == 4)
          && (is_literal (field params 0) (literal "cote.csf.schema.typed-value")
              && is_uint64 (field params 1) 1))
        provenance
    encoded ← or_fail (as_bytes (field params 2)) provenance
    guard (valid_typed_hash d encoded (field params 3)) provenance
    env ← or_provenance (strict_decode_envelope d.codec encoded)
    guard
        (bytes_equal env.schema_id (literal "cote.csf.schema.typed-value")
          && env.schema_version == 1)
        provenance
    value ← or_fail (as_array env.value) provenance
    guard (length value == 0) provenance

  -- The fields of an action before its claims.
  unfoldable pub check_action : Response → Result DecisionError (Unit {0})
  check_action x = do
    guard
        (actor_at x.body 6 x.actor
          && (bytes_at x.body 13 x.round_id
              && (is_literal (field x.body 14) x.slot_id
                  && is_uint64 (field x.body 15) x.submitted_against_revision)))
        provenance
    guard (equals_int64 (field x.body 11) x.effective_at) provenance
    targets ← or_fail (as_array (field x.body 7)) provenance
    guard (length targets == 0) provenance
    check_parameters (field x.body 8)
    guard (refs_equal d (field x.body 10) absent && refs_equal d (field x.body 12) absent)
        provenance

  -- The one claim of the resource, and its amount.
  unfoldable pub claimed_amount : Value → Result DecisionError ℕ
  claimed_amount v = do
    claims ← or_fail (as_array v) provenance
    guard (length claims == 1) provenance
    claim ← or_fail (as_array (field claims 0)) provenance
    guard
        ((length claim == 4)
          && (is_literal (field claim 0) input.snapshot.resource_kind
              && (is_literal (field claim 1) input.snapshot.resource_id
                  && is_uint64 (field claim 2) 1)))
        provenance
    or_fail (positive_amount (field claim 3)) provenance

  unfoldable pub prepare_action : DeliveredUnit → Result DecisionError Prepared
  prepare_action u = do
    let x = u.response
    check_action x
    kind ← or_fail (as_text (field x.body 4)) provenance
    guard (validate_machine_id kind) provenance
    version ← or_fail (as_uint64 (field x.body 5)) provenance
    elim (find_schema input.schemas kind version) [
      | none ↦ ok (record (unprepared u) { is_indeterminate = true })
      | some schema ↦
          (claimed_amount (field x.body 9) >>= λ amount. ok (record (unprepared u) {
            producer = schema.producer;
            amount = amount;
            resource = input.snapshot.resource_id;
          }))
    ]

  abbrev prepare : DeliveredUnit → Result DecisionError Prepared
  prepare u =
      if u.response.kind == 1
      then (check_no_proposal u.response >>= λ _. ok (unprepared u))
      else prepare_action u

  -- `validateResponse`
  unfoldable pub validate_response : DeliveredUnit → Result DecisionError Prepared
  validate_response u = (check_response u >>= λ _. prepare u)
