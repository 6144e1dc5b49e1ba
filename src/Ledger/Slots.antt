-- ===== src/Ledger/Slots.antt =====
-- `RegisterDispatch`, `RevokeDispatch` and `Respond` of internal/csf/inputledger/ledger.go.
use cote_ai_simulation.Base.{
  ℕ, ◌&&◌, ◌||◌, Bool, true, false, not, ◌==◌, ◌+◌, ◌%◌, ◌^◌, if◌then◌else◌, [], ◌∷◌, ◌++◌, Option,
  some, none, Result, ok, err, ◌>>=◌, ◌>>◌, guard, or_fail, leb,
}
use cote_ai_simulation.Base.Bytes.{Bytes, bytes_equal, literal}
use cote_ai_simulation.Base.Int.{eqb_ℤ}
use cote_ai_simulation.Domain.Patterns.{validate_machine_id}
use cote_ai_simulation.Value.{Value, text, byte_string, uint64, uint32, int64, list}
use cote_ai_simulation.Codec.{canonical_payload}
use cote_ai_simulation.Clock.{coordinates_equal}
use cote_ai_simulation.Identity.{sum, opaque_content_hash}
use cote_ai_simulation.Store.{Store}
use cote_ai_simulation.Store.Maps.{lookup}
use cote_ai_simulation.Store.Methods.{append, append_if_absent}
use cote_ai_simulation.Ledger.{
  Ledger, LedgerError, Round, Dispatch, Response, SlotState, CycleBinding, slot_mismatch,
  slot_filled, slot_revoked, invalid_machine_id, open_dispatch, first_ordinal,
  ordinal_not_following, dispatch_id_mismatch, response_kind, response_id_mismatch, of_identity,
  of_codec, of_store, slot_of, put_slot, contains, actor_equal,
}
use cote_ai_simulation.Ledger.Bodies.{coord_value, validate_response_body}

abbrev is_empty : Bytes → Bool
is_empty [] = true
is_empty (b ∷ bs) = false

-- The first test of `RegisterDispatch`: the run, and the tuple of the cycle.
abbrev pub binds_cycle : Ledger → Dispatch → CycleBinding → Bool
binds_cycle l d cycle =
    bytes_equal d.run_id l.run_id
    && (bytes_equal d.cycle_id cycle.id
        && (d.base_revision == cycle.base_revision
            && (eqb_ℤ d.effective_at cycle.instant && not (is_empty d.slot_id))))

abbrev pub binds_round : Round → Dispatch → Bool
binds_round round d =
    actor_equal round.actor d.actor
    && (coordinates_equal round.eligibility d.eligibility && contains round.slots d.slot_id)

-- The four tests of the slot's state; the ordinal is an uint32.
unfoldable pub may_dispatch : Option SlotState → ℕ → Result LedgerError (Unit {0})
may_dispatch none ordinal = guard (ordinal == 0) first_ordinal
may_dispatch (some state) ordinal = elim state.response [
  | some r ↦ err slot_filled
  | none ↦
      (guard state.revoked open_dispatch
        >> guard (ordinal == (state.dispatch.ordinal + 1) % 2 ^ 32) ordinal_not_following)
]

abbrev pub dispatch_preimage : Dispatch → Value
dispatch_preimage d = list (
    byte_string d.run_id
    ∷ byte_string d.cycle_id
    ∷ byte_string d.round_id
    ∷ text d.slot_id
    ∷ uint64 d.ordinal
    ∷ [])

abbrev pub dispatch_fields : Dispatch → Value
dispatch_fields d = list (
    byte_string d.id
    ∷ byte_string d.run_id
    ∷ byte_string d.cycle_id
    ∷ byte_string d.round_id
    ∷ text d.slot_id
    ∷ uint32 d.ordinal
    ∷ list (text d.actor.namespace ∷ text d.actor.actor_id ∷ [])
    ∷ coord_value d.eligibility
    ∷ uint64 d.base_revision
    ∷ int64 d.effective_at
    ∷ byte_string d.request_digest
    ∷ [])

abbrev pub dispatch_id : Ledger → Dispatch → Result LedgerError Bytes
dispatch_id l d = of_identity (
    sum l.deriver (literal "cote.csf.id.dispatch") (literal "cote.csf.schema.dispatch-id-preimage")
      1 (dispatch_preimage d))

abbrev pub dispatch_digest : Ledger → Dispatch → Result LedgerError Bytes
dispatch_digest l d = of_identity (
    sum l.deriver (literal "cote.csf.digest.slot-dispatch")
      (literal "cote.csf.schema.slot-dispatch") 1 (dispatch_fields d))

-- The append of canonical bytes to the input store.
abbrev pub append_record : Ledger → Bytes → Bytes → Result LedgerError Store
append_record l id bytes =
    of_store (append l.deriver.codec l.input_store (record { identity = id; canonical = bytes }))

-- `RegisterDispatch`
unfoldable pub register_dispatch : Ledger → Dispatch → CycleBinding → Result LedgerError Ledger
register_dispatch l d cycle = do
  guard (binds_cycle l d cycle) slot_mismatch
  guard (validate_machine_id d.slot_id) invalid_machine_id
  round ← or_fail (lookup d.round_id l.rounds) slot_mismatch
  guard (binds_round round d) slot_mismatch
  may_dispatch (slot_of l d.round_id d.slot_id) d.ordinal
  derived_id ← dispatch_id l d
  guard (bytes_equal derived_id d.id) dispatch_id_mismatch
  digest ← dispatch_digest l d
  canonical ← of_codec (canonical_payload l.deriver.codec (dispatch_fields d))
  store ← append_record l d.id canonical
  ok (
      put_slot (record l { input_store = store }) d.round_id d.slot_id
        (record {
          dispatch = record d { digest = digest; canonical = canonical };
          revoked = false;
          response = none;
        }))

abbrev pub is_open : SlotState → Bool
is_open state = elim state.response [ some r ↦ false | none ↦ not state.revoked ]

-- The bytes of a revocation.
abbrev pub revocation_bytes : Ledger → SlotState → ℕ → Value → Result LedgerError Bytes
revocation_bytes l state reason policy_ref = of_codec (
    canonical_payload l.deriver.codec
      (list (byte_string state.dispatch.id ∷ uint64 reason ∷ policy_ref ∷ [])))

-- `RevokeDispatch`
unfoldable pub revoke_dispatch : Ledger → Bytes → Bytes → ℕ → Value → Result LedgerError Ledger
revoke_dispatch l round_id slot_id reason policy_ref = do
  state ← or_fail (slot_of l round_id slot_id) slot_mismatch
  guard (is_open state) slot_mismatch
  canonical ← revocation_bytes l state reason policy_ref
  store ← append_record l (opaque_content_hash l.deriver canonical) canonical
  ok (
      put_slot (record l { input_store = store }) round_id slot_id
        (record state { revoked = true }))

-- The tuple of a response is that of the dispatch it answers.
abbrev pub answers : Response → Dispatch → Bool
answers r d =
    bytes_equal r.dispatch_id d.id
    && (bytes_equal r.run_id d.run_id
        && (bytes_equal r.cycle_id d.cycle_id
            && (bytes_equal r.round_id d.round_id
                && (bytes_equal r.slot_id d.slot_id
                    && (actor_equal r.actor d.actor
                        && (eqb_ℤ r.effective_at d.effective_at
                            && r.submitted_against_revision == d.base_revision))))))

abbrev response_id_tag : ℕ → Bytes
response_id_tag kind =
    if kind == 0 then literal "cote.csf.id.action-proposal" else literal "cote.csf.id.no-proposal"

abbrev digest_schema : ℕ → Bytes
digest_schema kind =
    if kind == 0
    then literal "cote.csf.digest.action-proposal-unit"
    else literal "cote.csf.digest.no-proposal-unit"

abbrev body_schema : ℕ → Bytes
body_schema kind =
    if kind == 0
    then literal "cote.csf.schema.action-proposal.body"
    else literal "cote.csf.schema.no-proposal.body"

-- The key under which the store binds the one response of a slot.
unfoldable pub slot_key : Ledger → Bytes → Bytes → Result LedgerError Bytes
slot_key l round_id slot_id = do
  key_bytes ←
      of_codec (canonical_payload l.deriver.codec (list (byte_string round_id ∷ text slot_id ∷ [])))
  ok (opaque_content_hash l.deriver (literal "csf-slot-response-v1" ++ 0 ∷ key_bytes))

abbrev pub bind_if_absent :
    Ledger → Bytes → Bytes → Bytes → Result LedgerError (Store × Bool × Bytes)
bind_if_absent l key id bytes =
    of_store (append_if_absent l.input_store key (record { identity = id; canonical = bytes }))

-- The end of `Respond`, behind the test that the slot has no response.
unfoldable pub bind_response :
    Ledger → SlotState → Response → Bytes → Bytes → Result LedgerError Ledger
bind_response l state r digest canonical = do
  key ← slot_key l r.round_id r.slot_id
  (store, inserted, existing) ← bind_if_absent l key r.id canonical
  guard (inserted || bytes_equal existing canonical) slot_filled
  ok (
      put_slot (record l { input_store = store }) r.round_id r.slot_id
        (record state { response = some (record r { digest = digest; canonical = canonical }) }))

abbrev pub response_id : Ledger → Dispatch → Response → Result LedgerError Bytes
response_id l d r = of_identity (
    sum l.deriver (response_id_tag r.kind) (literal "cote.csf.schema.slot-response-id-preimage") 1
      (list (byte_string d.id ∷ uint64 r.kind ∷ [])))

abbrev pub response_digest : Ledger → Response → Result LedgerError Bytes
response_digest l r =
    of_identity
      (sum l.deriver (digest_schema r.kind) (body_schema r.kind) 1 (list (list r.body ∷ [])))

abbrev pub response_bytes : Ledger → Response → Bytes → Result LedgerError Bytes
response_bytes l r digest =
    of_codec (canonical_payload l.deriver.codec (list (r.body ++ byte_string digest ∷ [])))

-- What `Respond` checks of a response before it looks at the slot's: the digest and the bytes.
unfoldable pub check_response : Ledger → Dispatch → Response → Result LedgerError (Bytes × Bytes)
check_response l d r = do
  guard (answers r d) slot_mismatch
  guard (leb r.kind 1) response_kind
  expected_id ← response_id l d r
  guard (bytes_equal expected_id r.id) response_id_mismatch
  validate_response_body r
  digest ← response_digest l r
  canonical ← response_bytes l r digest
  ok (digest, canonical)

-- The last part of `Respond`: a slot that is filled takes only the bytes that it has.
unfoldable pub fill : Ledger → SlotState → Response → Bytes → Bytes → Result LedgerError Ledger
fill l state r digest canonical = elim state.response [
  | some prior ↦ (guard (bytes_equal prior.canonical canonical) slot_filled >> ok l)
  | none ↦ bind_response l state r digest canonical
]

-- `Respond`
unfoldable pub respond : Ledger → Response → Result LedgerError Ledger
respond l r = do
  state ← or_fail (slot_of l r.round_id r.slot_id) slot_mismatch
  guard (not state.revoked) slot_revoked
  (digest, canonical) ← check_response l state.dispatch r
  fill l state r digest canonical
