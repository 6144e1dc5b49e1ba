-- ===== src/Ledger/Restore/Answers.antt =====
-- internal/csf/inputledger/ledger.go (restore): revocations and answers of slots, and the loop over the records.
use cote_ai_simulation.Base.{
  ◌&&◌, ◌||◌, true, ◌==◌, if◌then◌else◌, List, [], ◌∷◌, Option, some, none, length, Result, ok, err,
  ◌>>=◌, ◌>>◌, guard,
}
use cote_ai_simulation.Base.Bytes.{Bytes, bytes_equal, literal}
use cote_ai_simulation.Value.{Value, field, as_array, as_32_bytes, is_literal}
use cote_ai_simulation.Codec.{strict_decode_payload}
use cote_ai_simulation.Identity.{Deriver}
use cote_ai_simulation.IngressGuard.{CanonicalRecord}
use cote_ai_simulation.Store.Maps.{lookup, entries}
use cote_ai_simulation.Ledger.{Dispatch, SlotState, put_slot}
use cote_ai_simulation.Ledger.Records.{
  RestoreError, undecodable, not_an_array, revocation_identity, unrecognized, is_string, is_bytes,
  is_bool,
}
use cote_ai_simulation.Ledger.Restore.{
  Reading, receipt_value, is_content_hash, read_receipt, read_source, read_input, read_closure,
  read_round, read_dispatch, read_response,
}

module _ (d : Deriver) where
  -- `findDispatchState`: the round and the slot of a state whose dispatch has the ID.
  unfoldable pub find_slot : Bytes → List (Bytes × SlotState) → Option (Bytes × SlotState)
  find_slot id [] = none
  find_slot id ((slot, state) ∷ m) =
      let rest = find_slot id m in
      if bytes_equal state.dispatch.id id then some (slot, state) else rest

  unfoldable pub find_dispatch_state :
      Bytes → List (Bytes × List (Bytes × SlotState)) → Option (Bytes × Bytes × SlotState)
  find_dispatch_state id [] = none
  find_dispatch_state id ((round, m) ∷ providers) =
      let rest = find_dispatch_state id providers in
      elim (find_slot id (entries m)) [ none ↦ rest | some found ↦ some (round, found.0, found.1) ]

  unfoldable pub read_revocation :
      Reading → CanonicalRecord → Bytes × Bytes × SlotState → Result RestoreError Reading
  read_revocation s r found = do
    guard (is_content_hash d r) revocation_identity
    ok (record s { ledger = put_slot s.ledger found.0 found.1 (record found.2 { revoked = true }) })

  -- The dispatch that a response answers.
  unfoldable pub answered_dispatch : Reading → List Value → Option Dispatch
  answered_dispatch s fields = elim (as_32_bytes (field fields 1)) [
    | none ↦ none
    | some id ↦ lookup id s.dispatches
  ]

  -- The state whose dispatch is revoked.
  unfoldable pub revoked_state : Reading → List Value → Option (Bytes × Bytes × SlotState)
  revoked_state s fields = elim (as_32_bytes (field fields 0)) [
    | none ↦ none
    | some id ↦ find_dispatch_state id (entries s.ledger.providers)
  ]

  -- The last two kinds of record.
  unfoldable pub read_revoked : Reading → CanonicalRecord → List Value → Result RestoreError Reading
  read_revoked s r fields =
      if (length fields == 3) && is_bytes (field fields 0)
      then elim (revoked_state s fields) [
        | none ↦ err unrecognized
        | some found ↦ read_revocation s r found
      ]
      else err unrecognized

  unfoldable pub read_answer : Reading → CanonicalRecord → List Value → Result RestoreError Reading
  read_answer s r fields =
      if ((length fields == 11) || (length fields == 19)) && is_bytes (field fields 1)
      then elim (answered_dispatch s fields) [
        | none ↦ read_revoked s r fields
        | some dispatch ↦ read_response d s r fields dispatch
      ]
      else read_revoked s r fields

  -- The kinds of record, in the order in which they are tried.
  unfoldable pub read_fields : Reading → CanonicalRecord → List Value → Result RestoreError Reading
  read_fields s r fields =
      let n = length fields in
      if (n == 3) && is_literal (field fields 0) (literal "source-declaration-v1")
      then read_source d s r fields
      else if (n == 13)
          && (is_string (field fields 2)
              && (is_string (field fields 3) && is_string (field fields 4)))
      then read_input d s r fields
      else if (n == 7)
          && (is_string (field fields 2)
              && (is_string (field fields 3) && is_bool (field fields 5)))
      then read_closure d s r fields
      else if (n == 11) && is_string (field fields 2)
      then read_round d s r fields
      else if (n == 11) && (is_bytes (field fields 2) && is_string (field fields 4))
      then read_dispatch d s r fields
      else read_answer s r fields

  -- The body of the loop over the records.
  unfoldable pub read_record : Reading → CanonicalRecord → Result RestoreError Reading
  read_record s r = elim (receipt_value d.codec r.canonical) [
    | some value ↦ read_receipt d s r value
    | none ↦ elim (strict_decode_payload d.codec r.canonical) [
      | err e ↦ err undecodable
      | ok payload ↦ elim (as_array payload) [
        | none ↦ err not_an_array
        | some fields ↦ read_fields s r fields
      ]
    ]
  ]

  unfoldable pub read_records : Reading → List CanonicalRecord → Result RestoreError Reading
  read_records s [] = ok s
  read_records s (r ∷ rs) = (read_record s r >>= λ t. read_records t rs)
