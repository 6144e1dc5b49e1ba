-- ===== src/Ledger/Records/Replies.antt =====
-- internal/csf/inputledger/ledger.go: restoreDispatch and restoreResponse.
use cote_ai_simulation.Base.{
  ℕ, ◌%◌, ◌^◌, ◌-◌, ◌==◌, if◌then◌else◌, List, [], ◌∷◌, length, Result, ok, err, ◌>>=◌, ◌>>◌, guard,
  or_fail,
}
use cote_ai_simulation.Base.Bytes.{Bytes}
use cote_ai_simulation.Value.{
  Value, byte_string, uint64, list, field, as_array, as_32_bytes, signed_int64,
}
use cote_ai_simulation.Identity.{Deriver}
use cote_ai_simulation.IngressGuard.{CanonicalRecord}
use cote_ai_simulation.Ledger.{Dispatch, Response}
use cote_ai_simulation.Ledger.Bodies.{bytes_at, validate_response_body}
use cote_ai_simulation.Ledger.Sources.{parse_coordinate}
use cote_ai_simulation.Ledger.Records.{
  RestoreError, digest_differs, malformed_actor, malformed_references, malformed_response,
  response_body, or_zero, assert_text, take, of_this_run, derived, identity_of, canonical_of,
}

module _ (d : Deriver) (run_id : Bytes) where
  unfoldable pub restore_dispatch : CanonicalRecord → List Value → Result RestoreError Dispatch
  restore_dispatch r fields = do
    of_this_run d run_id fields
    id ←
        identity_of d run_id "cote.csf.id.dispatch" "cote.csf.schema.dispatch-id-preimage"
          (field fields 1 ∷ field fields 2 ∷ field fields 3 ∷ field fields 4 ∷ field fields 5 ∷ [])
          fields r
    digest ←
        derived d run_id "cote.csf.digest.slot-dispatch" "cote.csf.schema.slot-dispatch"
          (list fields) digest_differs
    actor ← or_fail (as_array (field fields 6)) malformed_actor
    guard (length actor == 2) malformed_actor
    cycle_id ← or_fail (as_32_bytes (field fields 2)) malformed_references
    round_id ← or_fail (as_32_bytes (field fields 3)) malformed_references
    instant ← or_fail (signed_int64 (field fields 9)) malformed_references
    request ← or_fail (as_32_bytes (field fields 10)) malformed_references
    eligibility ← or_fail (parse_coordinate (field fields 7)) malformed_references
    canonical ← canonical_of d run_id fields r
    slot ← assert_text (field fields 4)
    namespace ← assert_text (field actor 0)
    actor_id ← assert_text (field actor 1)
    ok (record {
      id = id;
      run_id = run_id;
      cycle_id = cycle_id;
      round_id = round_id;
      slot_id = slot;
      ordinal = or_zero (field fields 5) % 2 ^ 32;
      actor = record { namespace = namespace; actor_id = actor_id };
      eligibility = eligibility;
      base_revision = or_zero (field fields 8);
      effective_at = instant;
      request_digest = request;
      digest = digest;
      canonical = canonical;
    })

  -- 19 fields are an action proposal, kind 0, and 11 are a refusal, kind 1.
  abbrev pub kind_of : List Value → Result RestoreError ℕ
  kind_of fields =
      if length fields == 19
      then ok 0
      else if length fields == 11
      then ok 1
      else err malformed_response

  abbrev check_body : Response → Result RestoreError (Unit {0})
  check_body response = elim (validate_response_body response) [
    | ok u ↦ ok u
    | err e ↦ err (response_body e)
  ]

  unfoldable pub restore_response :
      CanonicalRecord → List Value → Dispatch → Result RestoreError Response
  unfolding take
  restore_response r fields dispatch = do
    kind ← kind_of fields
    let body = take (length fields - 1) fields
    id ←
        identity_of d run_id
          (if kind == 0 then "cote.csf.id.action-proposal" else "cote.csf.id.no-proposal")
          "cote.csf.schema.slot-response-id-preimage" (byte_string dispatch.id ∷ uint64 kind ∷ [])
          fields r
    digest ←
        derived d run_id
          (if kind == 0
            then "cote.csf.digest.action-proposal-unit"
            else "cote.csf.digest.no-proposal-unit")
          (if kind == 0
            then "cote.csf.schema.action-proposal.body"
            else "cote.csf.schema.no-proposal.body")
          (list (list body ∷ [])) digest_differs
    guard (bytes_at fields (length fields - 1) digest) digest_differs
    canonical ← canonical_of d run_id fields r
    let response : Response = record {
      kind = kind;
      id = id;
      dispatch_id = dispatch.id;
      run_id = dispatch.run_id;
      cycle_id = dispatch.cycle_id;
      round_id = dispatch.round_id;
      slot_id = dispatch.slot_id;
      actor = dispatch.actor;
      effective_at = dispatch.effective_at;
      submitted_against_revision = dispatch.base_revision;
      body = body;
      digest = digest;
      canonical = canonical;
    }
    check_body response
    ok response
