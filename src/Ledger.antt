-- ===== src/Ledger.antt =====
-- internal/csf/inputledger/ledger.go: the ledger's rounds, and the dispatches and responses of their
-- slots. The input store is the in-memory store; a nil store is not a value of the model. The locks
-- make each call one step, and a call that returns an error leaves the ledger as it was.
pub mod Bodies
pub mod Recount
pub mod Slots
pub mod Lifecycle
pub mod Run
pub mod Agreement
pub mod Sources
pub mod Closures
pub mod Normal
pub mod History
pub mod Rounds
pub mod RoundSlots
pub mod Snapshots
pub mod Records
pub mod Restore
pub mod Histories
pub mod Restored
pub mod Ingress
pub mod Reopened
use cote_ai_simulation.Base.{
  ℕ, ◌≡◌, refl, ◌&&◌, Bool, true, false, not, ◌==◌, ◌+◌, ◌%◌, ◌^◌, if◌then◌else◌, List, [], ◌∷◌,
  Option, some, none, length, Result, ok, err, ◌>>=◌, ◌>>◌, guard, or_fail, leb, ltb, arith,
  map_err,
}
use cote_ai_simulation.Base.Bytes.{Bytes, bytes_equal, literal}
use cote_ai_simulation.Base.Int.{ℤ, pos, eqb_ℤ, int64_bound, uint64_bound}
use cote_ai_simulation.Domain.{EligibilityCoordinate}
use cote_ai_simulation.Value.{
  Value, text, byte_string, uint64, int64, list, field, as_array, as_bytes, signed_int64,
  is_literal,
}
use cote_ai_simulation.Codec.{CodecError}
use cote_ai_simulation.Identity.{Deriver, IdentityError}
use cote_ai_simulation.Store.{Store, StoreError}
use cote_ai_simulation.Store.Maps.{lookup, put}

-- A `[2]string`: the namespace and the ID.
pub record Actor : Type 0 where
  pub namespace : Bytes
  pub actor_id : Bytes

abbrev pub actor_equal : Actor → Actor → Bool
actor_equal a b = bytes_equal a.namespace b.namespace && bytes_equal a.actor_id b.actor_id

pub record Round : Type 0 where
  pub id : Bytes
  pub source_id : Bytes
  pub actor : Actor
  pub slots : List Bytes
  pub eligibility : EligibilityCoordinate
  pub created_by : Value
  pub role : ℕ
  pub local_ordinal : ℕ
  pub lifecycle : ℕ
  pub idempotency_key : Value
  pub digest : Bytes
  pub fields : List Value
  pub canonical : Bytes

pub record Dispatch : Type 0 where
  pub id : Bytes
  pub run_id : Bytes
  pub cycle_id : Bytes
  pub round_id : Bytes
  pub slot_id : Bytes
  pub ordinal : ℕ
  pub actor : Actor
  pub eligibility : EligibilityCoordinate
  pub base_revision : ℕ
  pub effective_at : ℤ
  pub request_digest : Bytes
  pub digest : Bytes
  pub canonical : Bytes

pub record CycleBinding : Type 0 where
  pub id : Bytes
  pub base_revision : ℕ
  pub instant : ℤ

pub record Response : Type 0 where
  pub kind : ℕ
  pub id : Bytes
  pub dispatch_id : Bytes
  pub run_id : Bytes
  pub cycle_id : Bytes
  pub round_id : Bytes
  pub slot_id : Bytes
  pub actor : Actor
  pub effective_at : ℤ
  pub submitted_against_revision : ℕ
  pub body : List Value
  pub digest : Bytes
  pub canonical : Bytes

-- Each place that makes a state sets its dispatch, so the pointer is not nil.
pub record SlotState : Type 0 where
  pub dispatch : Dispatch
  pub revoked : Bool
  pub response : Option Response

-- A `RecordRef` is the kind of the record, its ID and its digest.
pub record IngressReceipt : Type 0 where
  pub source_id : Bytes
  pub sequence : ℕ
  pub ref_kind : ℕ
  pub ref_id : Bytes
  pub ref_digest : Bytes
  pub canonical : Bytes

-- `StoredInput` and `StoredClosure`, which have the same fields.
pub record Stored : Type 0 where
  pub id : Bytes
  pub digest : Bytes
  pub fields : List Value
  pub canonical : Bytes
  pub receipt : IngressReceipt

-- The maps of the sources and of their inputs and closures; a source that was declared is in the
-- list of the sources.
pub record Ledger : Type 0 where
  pub run_id : Bytes
  pub deriver : Deriver
  pub sources : List Bytes
  pub cursors : List (Bytes × ℕ)
  pub inputs : List (Bytes × List Stored)
  pub closures : List (Bytes × List Stored)
  pub input_by_id : List (Bytes × Stored)
  pub closure_by_id : List (Bytes × Stored)
  pub sources_frozen : Bool
  pub rounds : List (Bytes × Round)
  pub providers : List (Bytes × List (Bytes × SlotState))
  pub input_store : Store

pub data LedgerError : Type 0 where
  slot_mismatch slot_filled slot_revoked invalid_machine_id : LedgerError
  open_dispatch first_ordinal ordinal_not_following dispatch_id_mismatch : LedgerError
  response_kind response_id_mismatch body_length : LedgerError
  unknown_source final_source sources_are_frozen source_declared closure_backward : LedgerError
  identity_collision slot_count duplicate_slot round_origin round_lifecycle : LedgerError
  identity_error : IdentityError → LedgerError
  codec_error : CodecError → LedgerError
  store_error : StoreError → LedgerError

abbrev pub of_identity {ℓ} : {A : Type ℓ} → Result IdentityError A → Result LedgerError A
of_identity r = map_err identity_error r

abbrev pub of_codec {ℓ} : {A : Type ℓ} → Result CodecError A → Result LedgerError A
of_codec r = map_err codec_error r

abbrev pub of_store {ℓ} : {A : Type ℓ} → Result StoreError A → Result LedgerError A
of_store r = map_err store_error r

-- `l.providers[idKey(roundID)]`; a missing one is the nil map. The key is the ID, of which `idKey`
-- is the hexadecimal text.
abbrev pub slots_of : Ledger → Bytes → List (Bytes × SlotState)
slots_of l round = elim (lookup round l.providers) [ none ↦ [] | some m ↦ m ]

unfoldable pub slot_of : Ledger → Bytes → Bytes → Option SlotState
slot_of l round slot = lookup slot (slots_of l round)

unfoldable pub put_slot : Ledger → Bytes → Bytes → SlotState → Ledger
put_slot l round slot state = record l {
  providers = put round (put slot state (slots_of l round)) l.providers;
}

-- `contains`
unfoldable pub contains : List Bytes → Bytes → Bool
contains [] target = false
contains (v ∷ vs) target =
    let rest = contains vs target in if bytes_equal v target then true else rest
