-- ===== src/Ledger/Records.antt =====
-- The reading of single records when a ledger is opened again (internal/csf/inputledger/ledger.go:
-- `restoreInput`, `restoreClosure`, `restoreRound`, `restoreDispatch`, `restoreResponse`).
pub mod Replies
use Prim.Native.String.{String}
use cote_ai_simulation.Base.{
  ℕ, zero, suc, ◌&&◌, ◌%◌, ◌^◌, ◌-◌, Bool, true, false, not, ◌==◌, if◌then◌else◌, List, [], ◌∷◌,
  map, some, none, length, Result, ok, err, ◌>>=◌, ◌>>◌, guard, or_fail,
}
use cote_ai_simulation.Base.Bytes.{Bytes, bytes_equal, literal}
use cote_ai_simulation.Value.{
  Value, byte_string, uint64, list, field, as_array, as_text, as_bytes, as_bool, as_uint64,
  as_32_bytes, signed_int64,
}
use cote_ai_simulation.Codec.{canonical_payload}
use cote_ai_simulation.Identity.{Deriver, sum}
use cote_ai_simulation.IngressGuard.{CanonicalRecord}
use cote_ai_simulation.Ledger.{Stored, IngressReceipt, Round, Dispatch, Response, LedgerError}
use cote_ai_simulation.Ledger.Bodies.{bytes_at, validate_response_body}
use cote_ai_simulation.Ledger.Sources.{parse_coordinate}

-- `type_assertion` stands for the panic of an assertion `v.(string)` on another value.
pub data RestoreError : Type 0 where
  another_run identity_differs digest_differs not_canonical : RestoreError
  malformed_round malformed_actor malformed_references malformed_response : RestoreError
  type_assertion : RestoreError
  response_body : LedgerError → RestoreError
  receipt_identity malformed_receipt duplicate_receipt : RestoreError
  undecodable not_an_array invalid_source unbound_dispatch revocation_identity unrecognized :
      RestoreError
  undeclared_source ingress_after_final ingress_gap receipt_differs input_not_above : RestoreError
  closure_regressed missing_record missing_receipt : RestoreError

-- `isString`, `isBytes`, `isBool`
abbrev pub is_string : Value → Bool
is_string v = elim (as_text v) [ none ↦ false | some s ↦ true ]

abbrev pub is_bytes : Value → Bool
is_bytes v = elim (as_bytes v) [ none ↦ false | some s ↦ true ]

abbrev pub is_bool : Value → Bool
is_bool v = elim (as_bool v) [ none ↦ false | some s ↦ true ]

-- An unsigned field whose assertion is not tested: 0 where it fails.
abbrev or_zero : Value → ℕ
or_zero v = elim (as_uint64 v) [ none ↦ 0 | some n ↦ n ]

-- `v.(string)`, which panics.
abbrev assert_text : Value → Result RestoreError Bytes
assert_text v = or_fail (as_text v) type_assertion

-- The fields before the n-th.
unfoldable pub take : ℕ → List Value → List Value
take zero vs = []
take (suc n) [] = []
take (suc n) (v ∷ vs) = v ∷ take n vs

-- `stringSlice`: an entry that is no string is the empty one.
abbrev string_of : Value → Bytes
string_of v = elim (as_text v) [ none ↦ [] | some s ↦ s ]

abbrev pub no_receipt : IngressReceipt
no_receipt = record {
  source_id = [];
  sequence = 0;
  ref_kind = 0;
  ref_id = [];
  ref_digest = [];
  canonical = [];
}

module _ (d : Deriver) (run_id : Bytes) where
  abbrev of_this_run : List Value → Result RestoreError (Unit {0})
  of_this_run fields = guard (bytes_at fields 1 run_id) another_run

  -- A derivation whose error is replaced.
  abbrev pub derived : String → String → Value → RestoreError → Result RestoreError Bytes
  derived tag schema v e = elim (sum d (literal tag) (literal schema) 1 v) [
    | ok b ↦ ok b
    | err x ↦ err e
  ]

  -- The identity stands in field 0 and is the record's.
  abbrev identity_of :
      String → String → List Value → List Value → CanonicalRecord → Result RestoreError Bytes
  identity_of tag schema preimage fields r = do
    id ← derived tag schema (list preimage) identity_differs
    guard (bytes_at fields 0 id && bytes_equal id r.identity) identity_differs
    ok id

  -- The canonical bytes of the fields are the record's.
  abbrev canonical_of : List Value → CanonicalRecord → Result RestoreError Bytes
  canonical_of fields r = elim (canonical_payload d.codec (list fields)) [
    | err x ↦ err not_canonical
    | ok b ↦ (guard (bytes_equal b r.canonical) not_canonical >> ok b)
  ]

  unfoldable pub restore_input : CanonicalRecord → List Value → Result RestoreError Stored
  unfolding take
  restore_input r fields = do
    of_this_run fields
    id ←
        identity_of "cote.csf.id.exogenous-input" "cote.csf.schema.exogenous-input-id-preimage"
          (field fields 1 ∷ field fields 2 ∷ field fields 3 ∷ []) fields r
    digest ←
        derived "cote.csf.digest.exogenous-input-unit" "cote.csf.schema.exogenous-input.body"
          (list (list (take 12 fields) ∷ [])) digest_differs
    guard (bytes_at fields 12 digest) digest_differs
    canonical ← canonical_of fields r
    ok (record {
      id = id;
      digest = digest;
      fields = fields;
      canonical = canonical;
      receipt = no_receipt;
    })

  unfoldable pub restore_closure : CanonicalRecord → List Value → Result RestoreError Stored
  restore_closure r fields = do
    of_this_run fields
    id ←
        identity_of "cote.csf.id.source-closure" "cote.csf.schema.source-closure-id-preimage"
          (field fields 1 ∷ field fields 2 ∷ field fields 3 ∷ []) fields r
    digest ←
        derived "cote.csf.digest.source-closure" "cote.csf.schema.source-closure" (list fields)
          digest_differs
    canonical ← canonical_of fields r
    ok (record {
      id = id;
      digest = digest;
      fields = fields;
      canonical = canonical;
      receipt = no_receipt;
    })

  unfoldable pub restore_round : CanonicalRecord → List Value → Result RestoreError Round
  restore_round r fields = do
    of_this_run fields
    id ←
        identity_of "cote.csf.id.decision-round" "cote.csf.schema.decision-round-id-preimage"
          (field fields 6 ∷ field fields 7 ∷ field fields 8 ∷ []) fields r
    digest ←
        derived "cote.csf.digest.round-declaration" "cote.csf.schema.round-declaration"
          (list fields) digest_differs
    canonical ← canonical_of fields r
    actor ← or_fail (as_array (field fields 3)) malformed_round
    guard (length actor == 2) malformed_round
    slots ← or_fail (as_array (field fields 4)) malformed_round
    guard (not (length slots == 0)) malformed_round
    eligibility ← or_fail (parse_coordinate (field fields 5)) malformed_round
    source ← assert_text (field fields 2)
    namespace ← assert_text (field actor 0)
    actor_id ← assert_text (field actor 1)
    ok (record {
      id = id;
      source_id = source;
      actor = record { namespace = namespace; actor_id = actor_id };
      slots = map string_of slots;
      eligibility = eligibility;
      created_by = field fields 6;
      role = or_zero (field fields 7) % 2 ^ 16;
      local_ordinal = or_zero (field fields 8) % 2 ^ 32;
      lifecycle = or_zero (field fields 9) % 2 ^ 8;
      idempotency_key = field fields 10;
      digest = digest;
      fields = fields;
      canonical = canonical;
    })
