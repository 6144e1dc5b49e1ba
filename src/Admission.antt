-- ===== src/Admission.antt =====
-- internal/csf/admission/fence.go: the data of an admission fence, and the checks of the ledger's
-- records that come before one is derived.
pub mod Units
pub mod Derive
pub mod Order
pub mod Closed
pub mod Sufficient
pub mod Cohort
pub mod Derivation
pub mod Admitted
pub mod Arrival
pub mod Coordinator
use cote_ai_simulation.Base.{
  ℕ, ◌&&◌, Bool, true, false, ◌==◌, if◌then◌else◌, List, [], ◌∷◌, ◌++◌, Option, some, none, length,
  Result, ok, err, ◌>>=◌, ◌>>◌, guard, map_err,
}
use Prim.Native.String.{String}
use cote_ai_simulation.Base.Bytes.{Bytes, bytes_equal, literal}
use cote_ai_simulation.Base.Int.{ℤ}
use cote_ai_simulation.Value.{
  Value, text, byte_string, uint64, list, field, as_uint64, is_uint64, is_literal,
}
use cote_ai_simulation.Codec.{Library, CodecError, canonical_payload, canonical_bytes}
use cote_ai_simulation.Identity.{Deriver, IdentityError, sum}
use cote_ai_simulation.Ledger.{Stored, Round, Response}
use cote_ai_simulation.Ledger.Bodies.{bytes_at}
use cote_ai_simulation.Ledger.Sources.{parse_coordinate}
use cote_ai_simulation.Ledger.Records.{RestoreError}
use cote_ai_simulation.Store.{StoreError}

-- `plan` is `none` for a nil plan, which is a work cycle.
pub record Cycle : Type 0 where
  pub id : Bytes
  pub attempt : ℕ
  pub plan : Option (List Value)
  pub instant : ℤ
  pub ordinal : ℕ
  pub base_revision : ℕ
  pub base_state_hash : Bytes
  pub retry_ref : Value

pub record Policies : Type 0 where
  pub admission_order : Value
  pub causal_identity : Value
  pub fence : Value
  pub rules : Value

pub record Fence : Type 0 where
  pub id : Bytes
  pub digest : Bytes
  pub fields : List Value
  pub canonical : Bytes
  pub input_digest : Bytes

pub data AdmissionError : Type 0 where
  malformed_record identity_mismatch digest_mismatch bytes_mismatch receipt_mismatch :
      AdmissionError
  bad_plan advance_origin advance_destination advance_target : AdmissionError
  waiting_for_closure : (source : Bytes) → AdmissionError
  waiting_for_slot : (round slot : Bytes) → AdmissionError
  response_mismatch unregistered_kind unit_too_late advance_admits : AdmissionError
  derivation_differs no_shared_authority no_system_units direct_append : AdmissionError
  identity_error : IdentityError → AdmissionError
  codec_error : CodecError → AdmissionError
  restore_error : RestoreError → AdmissionError
  store_error : StoreError → AdmissionError

abbrev pub of_identity {ℓ} : {A : Type ℓ} → Result IdentityError A → Result AdmissionError A
of_identity r = map_err identity_error r

abbrev pub of_codec {ℓ} : {A : Type ℓ} → Result CodecError A → Result AdmissionError A
of_codec r = map_err codec_error r

-- The test that a field is a coordinate.
abbrev has_coordinate : Value → Bool
has_coordinate v = elim (parse_coordinate v) [ none ↦ false | some c ↦ true ]

-- `f[:12]` of the fields of an input.
abbrev pub first_twelve : List Value → List Value
first_twelve f =
    field f 0
    ∷ field f 1
    ∷ field f 2
    ∷ field f 3
    ∷ field f 4
    ∷ field f 5
    ∷ field f 6
    ∷ field f 7
    ∷ field f 8
    ∷ field f 9
    ∷ field f 10
    ∷ field f 11
    ∷ []

module _ (d : Deriver) where
  -- The identity, of three of the fields, stands in field 0 and is the record's.
  abbrev pub check_identity :
      String → String → Value → Value → Value → Value → Bytes → Result AdmissionError (Unit {0})
  check_identity tag schema a b c first id = do
    derived ← of_identity (sum d (literal tag) (literal schema) 1 (list (a ∷ b ∷ c ∷ [])))
    guard (bytes_at (first ∷ []) 0 derived && bytes_equal derived id) identity_mismatch

  abbrev pub check_canonical : List Value → Bytes → Result AdmissionError (Unit {0})
  check_canonical fields bytes = do
    canonical ← of_codec (canonical_payload d.codec (list fields))
    guard (bytes_equal canonical bytes) bytes_mismatch

  -- The receipt refers to the record, and its bytes are those of its fields.
  abbrev pub check_receipt : ℕ → Stored → Result AdmissionError (Unit {0})
  check_receipt kind stored = do
    guard
        (bytes_equal stored.id stored.receipt.ref_id
          && (bytes_equal stored.digest stored.receipt.ref_digest
              && stored.receipt.ref_kind == kind))
        receipt_mismatch
    receipt ← of_codec (
        canonical_bytes d.codec (literal "cote.csf.record.source-ingress-receipt")
          (literal "cote.csf.schema.source-ingress-receipt") 1
          (list (
            text stored.receipt.source_id
            ∷ uint64 stored.receipt.sequence
            ∷ list (uint64 kind ∷ byte_string stored.id ∷ byte_string stored.digest ∷ [])
            ∷ [])))
    guard (bytes_equal receipt stored.receipt.canonical) receipt_mismatch

  -- The body of the loop of `verifyInputs`.
  unfoldable pub verify_input : Stored → Result AdmissionError (Unit {0})
  verify_input input = do
    let f = input.fields
    guard (length f == 13) malformed_record
    guard (has_coordinate (field f 9)) malformed_record
    check_identity "cote.csf.id.exogenous-input" "cote.csf.schema.exogenous-input-id-preimage"
        (field f 1) (field f 2) (field f 3) (field f 0) input.id
    digest ← of_identity (
        sum d (literal "cote.csf.digest.exogenous-input-unit")
          (literal "cote.csf.schema.exogenous-input.body") 1 (list (list (first_twelve f) ∷ [])))
    guard (bytes_at f 12 digest && bytes_equal digest input.digest) digest_mismatch
    check_canonical f input.canonical
    guard (is_literal (field f 2) input.receipt.source_id) receipt_mismatch
    check_receipt 1 input

  -- The body of the loop of `verifyClosures`.
  unfoldable pub verify_closure : Stored → Result AdmissionError (Unit {0})
  verify_closure closure = do
    let f = closure.fields
    guard (length f == 7) malformed_record
    guard (has_coordinate (field f 4)) malformed_record
    check_identity "cote.csf.id.source-closure" "cote.csf.schema.source-closure-id-preimage"
        (field f 1) (field f 2) (field f 3) (field f 0) closure.id
    digest ← of_identity (
        sum d (literal "cote.csf.digest.source-closure") (literal "cote.csf.schema.source-closure")
          1 (list f))
    guard (bytes_equal digest closure.digest) digest_mismatch
    check_canonical f closure.canonical
    guard
        (is_literal (field f 2) closure.receipt.source_id
          && is_uint64 (field f 6) closure.receipt.sequence)
        receipt_mismatch
    check_receipt 2 closure

  -- The body of the loop of `verifyRounds`.
  unfoldable pub verify_round : Round → Result AdmissionError (Unit {0})
  verify_round round = do
    let f = round.fields
    guard (length f == 11) malformed_record
    guard (has_coordinate (field f 5)) malformed_record
    check_identity "cote.csf.id.decision-round" "cote.csf.schema.decision-round-id-preimage"
        (field f 6) (field f 7) (field f 8) (field f 0) round.id
    digest ← of_identity (
        sum d (literal "cote.csf.digest.round-declaration")
          (literal "cote.csf.schema.round-declaration") 1 (list f))
    guard (bytes_equal digest round.digest) digest_mismatch
    check_canonical f round.canonical

  -- The body of the loops of `verifyResponses`; kind 0 is an action proposal.
  unfoldable pub verify_response : Response → Result AdmissionError (Unit {0})
  verify_response response = do
    let f = response.body
    let is_action = response.kind == 0
    id ← of_identity (
        sum d
          (if is_action
            then literal "cote.csf.id.action-proposal"
            else literal "cote.csf.id.no-proposal")
          (literal "cote.csf.schema.slot-response-id-preimage") 1
          (list (byte_string response.dispatch_id ∷ uint64 response.kind ∷ [])))
    guard (bytes_equal id response.id) identity_mismatch
    digest ← of_identity (
        sum d
          (if is_action
            then literal "cote.csf.digest.action-proposal-unit"
            else literal "cote.csf.digest.no-proposal-unit")
          (if is_action
            then literal "cote.csf.schema.action-proposal.body"
            else literal "cote.csf.schema.no-proposal.body")
          1 (list (list f ∷ [])))
    guard (bytes_equal digest response.digest) digest_mismatch
    check_canonical (f ++ byte_string digest ∷ []) response.canonical

-- A loop that returns the first error.
unfoldable pub each {ℓ} :
    {A : Type ℓ}
    → (A → Result AdmissionError (Unit {0}))
    → List A
    → Result AdmissionError (Unit {0})
each check [] = ok tt
each check (x ∷ xs) = let rest = each check xs in (check x >>= λ _. rest)
