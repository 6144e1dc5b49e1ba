-- ===== src/Ledger/Restore.antt =====
-- `restore` of internal/csf/inputledger/ledger.go: the ledger that the records of a store make. A
-- `range` over the map of the receipts is made in the order of the records; each source's history
-- is read by itself, so the order decides only which error is returned.
pub mod Answers
use cote_ai_simulation.Base.{
  ℕ, ◌&&◌, ◌||◌, Bool, true, false, not, ◌==◌, if◌then◌else◌, List, [], ◌∷◌, Option, some, none,
  length, Result, ok, err, ◌>>=◌, ◌>>◌, guard, or_fail,
}
use cote_ai_simulation.Base.Bytes.{Bytes, bytes_equal, literal}
use cote_ai_simulation.Domain.{compare_coordinate}
use cote_ai_simulation.Domain.Patterns.{validate_machine_id}
use cote_ai_simulation.Value.{Value, field, as_array, as_text, as_uint64, as_32_bytes, is_literal}
use cote_ai_simulation.Codec.{Library, strict_decode_payload, strict_decode_envelope}
use cote_ai_simulation.Identity.{Deriver, opaque_content_hash}
use cote_ai_simulation.IngressGuard.{CanonicalRecord}
use cote_ai_simulation.Store.{Store}
use cote_ai_simulation.Store.Maps.{lookup, put, entries}
use cote_ai_simulation.Ledger.{
  Ledger, Stored, Dispatch, Response, SlotState, actor_equal, contains, slots_of, put_slot,
}
use cote_ai_simulation.Ledger.Bodies.{bytes_at}
use cote_ai_simulation.Ledger.Closures.{is_eq}
use cote_ai_simulation.Ledger.Records.{
  RestoreError, receipt_identity, malformed_receipt, duplicate_receipt, undecodable, not_an_array,
  invalid_source, another_run, unbound_dispatch, revocation_identity, unrecognized, is_string,
  is_bytes, is_bool, restore_input, restore_closure, restore_round,
}
use cote_ai_simulation.Ledger.Records.Replies.{restore_dispatch, restore_response}

-- `newLedger`
unfoldable pub new_ledger : Bytes → Deriver → Store → Ledger
new_ledger run_id d store = record {
  run_id = run_id;
  deriver = d;
  sources = [];
  cursors = [];
  inputs = [];
  closures = [];
  input_by_id = [];
  closure_by_id = [];
  sources_frozen = false;
  rounds = [];
  providers = [];
  input_store = store;
}

-- `receiptRecord`
pub record Receipt : Type 0 where
  pub source : Bytes
  pub seq : ℕ
  pub kind : ℕ
  pub id : Bytes
  pub digest : Bytes
  pub bytes : Bytes

-- The variables of the loop over the records.
pub record Reading : Type 0 where
  pub ledger : Ledger
  pub receipts : List (Bytes × Receipt)
  pub inputs : List (Bytes × Stored)
  pub closures : List (Bytes × Stored)
  pub dispatches : List (Bytes × Dispatch)

abbrev receipt_tag : Bytes
receipt_tag = literal "cote.csf.record.source-ingress-receipt"

-- The value of the envelope of a receipt; other records are read as payloads.
unfoldable pub receipt_value : Library → Bytes → Option Value
receipt_value lib b = elim (strict_decode_envelope lib b) [
  | err e ↦ none
  | ok envelope ↦ if bytes_equal envelope.domain_tag receipt_tag then some envelope.value else none
]

abbrev pub has_key {ℓ} : {V : Type ℓ} → Bytes → List (Bytes × V) → Bool
has_key k m = elim (lookup k m) [ none ↦ false | some v ↦ true ]

module _ (d : Deriver) where
  abbrev is_content_hash : CanonicalRecord → Bool
  is_content_hash r = bytes_equal (opaque_content_hash d r.canonical) r.identity

  unfoldable pub read_receipt : Reading → CanonicalRecord → Value → Result RestoreError Reading
  read_receipt s r value = do
    guard (is_content_hash r) receipt_identity
    f ← or_fail (as_array value) malformed_receipt
    guard (length f == 3) malformed_receipt
    source ← or_fail (as_text (field f 0)) malformed_receipt
    guard (validate_machine_id source) malformed_receipt
    seq ← or_fail (as_uint64 (field f 1)) malformed_receipt
    ref ← or_fail (as_array (field f 2)) malformed_receipt
    guard (length ref == 3) malformed_receipt
    kind ← or_fail (as_uint64 (field ref 0)) malformed_receipt
    guard ((kind == 1) || (kind == 2)) malformed_receipt
    id ← or_fail (as_32_bytes (field ref 1)) malformed_receipt
    digest ← or_fail (as_32_bytes (field ref 2)) malformed_receipt
    guard (not (has_key id s.receipts)) duplicate_receipt
    ok (record s {
      receipts =
          put id
            (record {
              source = source;
              seq = seq;
              kind = kind;
              id = id;
              digest = digest;
              bytes = r.canonical;
            })
            s.receipts;
    })

  -- `l.sources[source] = true`
  abbrev add_source : Ledger → Bytes → Ledger
  add_source l source =
      if contains l.sources source then l else record l { sources = source ∷ l.sources }

  unfoldable pub read_source : Reading → CanonicalRecord → List Value → Result RestoreError Reading
  read_source s r fields = do
    guard (bytes_at fields 1 s.ledger.run_id) another_run
    source ← or_fail (as_text (field fields 2)) invalid_source
    guard (validate_machine_id source && is_content_hash r) invalid_source
    ok (record s { ledger = add_source s.ledger source })

  unfoldable pub read_input : Reading → CanonicalRecord → List Value → Result RestoreError Reading
  read_input s r fields = do
    stored ← restore_input d s.ledger.run_id r fields
    ok (record s { inputs = put stored.id stored s.inputs })

  unfoldable pub read_closure : Reading → CanonicalRecord → List Value → Result RestoreError Reading
  read_closure s r fields = do
    stored ← restore_closure d s.ledger.run_id r fields
    ok (record s { closures = put stored.id stored s.closures })

  unfoldable pub read_round : Reading → CanonicalRecord → List Value → Result RestoreError Reading
  read_round s r fields = do
    round ← restore_round d s.ledger.run_id r fields
    let l = s.ledger
    ok (record s { ledger = record l { rounds = put round.id round l.rounds } })

  -- The dispatch is of a slot of a round that was read, with its actor and eligibility.
  unfoldable pub bound : Ledger → Dispatch → Bool
  bound l dispatch = elim (lookup dispatch.round_id l.rounds) [
    | none ↦ false
    | some round ↦
        actor_equal round.actor dispatch.actor
        && (is_eq (compare_coordinate round.eligibility dispatch.eligibility)
            && contains round.slots dispatch.slot_id)
  ]

  unfoldable pub read_dispatch :
      Reading → CanonicalRecord → List Value → Result RestoreError Reading
  read_dispatch s r fields = do
    dispatch ← restore_dispatch d s.ledger.run_id r fields
    guard (bound s.ledger dispatch) unbound_dispatch
    ok (record s {
      dispatches = put dispatch.id dispatch s.dispatches;
      ledger =
          put_slot s.ledger dispatch.round_id dispatch.slot_id
            (record { dispatch = dispatch; revoked = false; response = none });
    })

  -- `l.providers[...][...].Response = &response`
  unfoldable pub set_response : Ledger → Response → Ledger
  set_response l response = elim (lookup response.slot_id (slots_of l response.round_id)) [
    | none ↦ l
    | some state ↦
        put_slot l response.round_id response.slot_id (record state { response = some response })
  ]

  unfoldable pub read_response :
      Reading → CanonicalRecord → List Value → Dispatch → Result RestoreError Reading
  read_response s r fields dispatch = do
    response ← restore_response d s.ledger.run_id r fields dispatch
    ok (record s { ledger = set_response s.ledger response })
