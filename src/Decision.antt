-- ===== src/Decision.antt =====
-- internal/csf/decision/kernel.go: the data of the decision kernel, and the reading of a response.
pub mod Responses
pub mod Aliases
pub mod Allocation
pub mod Bridge
pub mod Candidates
pub mod Claims
pub mod Claimed
pub mod Conserved
pub mod Counts
pub mod Decided
pub mod Disposal
pub mod Draws
pub mod Fenced
pub mod Gather
pub mod Granted
pub mod Held
pub mod Ordered
pub mod Partition
pub mod Policies
pub mod Results
pub mod Run
pub mod Stages
use Prim.Native.String.{String}
use cote_ai_simulation.Base.{
  ℕ, ◌&&◌, ◌||◌, Bool, true, false, not, ◌==◌, leb, ltb, if◌then◌else◌, List, [], ◌∷◌, ◌++◌, map,
  Option, some, none, length, Result, ok, err, ◌>>=◌, ◌>>◌, guard, or_fail, map_err,
}
use cote_ai_simulation.Base.Bytes.{Bytes, bytes_equal, literal}
use cote_ai_simulation.Base.Int.{ℤ, pos, negsuc, int64_bound}
use cote_ai_simulation.Domain.Patterns.{validate_machine_id}
pub use cote_ai_simulation.Base.Bytes.{zero_id}
use cote_ai_simulation.Value.{
  Value, text, byte_string, uint64, int64, list, field, as_array, as_text, as_bytes, as_uint64,
  is_literal, signed_int64, is_uint64,
}
use cote_ai_simulation.Codec.{
  Library, Envelope, CodecError, canonical_payload, strict_decode_envelope,
}
use cote_ai_simulation.Identity.{Deriver, IdentityError, sum, opaque_content_hash}
use cote_ai_simulation.Ledger.{Response, Actor}
use cote_ai_simulation.Ledger.Bodies.{bytes_at, actor_at, equals_int64}

pub data DecisionError : Type 0 where
  provenance idempotency indeterminate invalid_machine_id : DecisionError
  draw_without_competitors missing_rng_policy no_slot_response : DecisionError
  identity_error : IdentityError → DecisionError
  codec_error : CodecError → DecisionError

-- `Unit`
pub record DeliveredUnit : Type 0 where
  pub response : Response
  pub producer_scope : Bytes

pub record ActionSchema : Type 0 where
  pub type : Bytes
  pub version : ℕ
  pub operation : Bytes
  pub producer : Bytes

-- The maps of the actors: a missing actor is unknown.
pub record Snapshot : Type 0 where
  pub base_revision : ℕ
  pub resource_kind : Bytes
  pub resource_id : Bytes
  pub available : ℤ
  pub known : Bool
  pub accessible_actors : List (Bytes × Bool)
  pub forbidden_actors : List (Bytes × Bool)

pub record HistoryBinding : Type 0 where
  pub namespace : Bytes
  pub logical_digest : Bytes
  pub canonical_unit : Bytes

-- The policy references that `policyRefs` reads from the pinned bundle.
pub record PolicyRefs : Type 0 where
  pub validators : List Value
  pub conflict_resolvers : List Value
  pub rng : List Value
  pub idempotency : List Value

pub record Input : Type 0 where
  pub run_id : Bytes
  pub cycle_id : Bytes
  pub attempt : ℕ
  pub units : List DeliveredUnit
  pub schemas : List ActionSchema
  pub admitted : List Bytes
  pub snapshot : Snapshot
  pub history : List HistoryBinding
  pub seed : Bytes

-- `prepared`. The amount is 0 or the positive int64 that was claimed; `alias` is `none` where
-- `aliasFound` is false.
pub record Prepared : Type 0 where
  pub unit : DeliveredUnit
  pub id : Bytes
  pub logical : Bytes
  pub namespace : Bytes
  pub alias : Option Bytes
  pub resource : Bytes
  pub amount : ℕ
  pub is_indeterminate : Bool
  pub no_proposal : Bool
  pub producer : Bytes

abbrev pub of_codec {ℓ} : {A : Type ℓ} → Result CodecError A → Result DecisionError A
of_codec r = map_err codec_error r

-- An error of a call that the source replaces by `ErrProvenance`.
abbrev pub or_provenance {ℓ κ} : {E : Type ℓ} {A : Type κ} → Result E A → Result DecisionError A
or_provenance r = map_err (λ _. provenance) r

-- `bytesIDs`
abbrev pub bytes_ids : List Bytes → Value
bytes_ids ids = list (map byte_string ids)
