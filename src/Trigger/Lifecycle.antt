-- ===== src/Trigger/Lifecycle.antt =====
-- internal/csf/trigger/authority.go: the record of an activation, and the lifecycle events of a
-- trigger. The deriver of the bundle is an argument.
use cote_ai_simulation.Base.{
  ℕ, ◌==◌, if◌then◌else◌, List, [], ◌∷◌, ◌++◌, map, Result, ok, err, ◌>>=◌, map_err,
}
use cote_ai_simulation.Base.Bytes.{Bytes, literal, hex}
use cote_ai_simulation.Base.Int.{ℤ}
use cote_ai_simulation.Value.{Value, boolean, byte_string, text, int64, uint64, list}
use cote_ai_simulation.Codec.{CodecError, canonical_bytes, canonical_payload}
use cote_ai_simulation.Identity.{Deriver, IdentityError, sum}
use cote_ai_simulation.Trigger.{Definition, Runtime, predicate_value}

pub data LifecycleError : Type 0 where
  identity_error : IdentityError → LifecycleError
  codec_error : CodecError → LifecycleError
  unknown_phase : LifecycleError

abbrev of_identity {ℓ} : {A : Type ℓ} → Result IdentityError A → Result LifecycleError A
of_identity r = map_err identity_error r

abbrev of_codec {ℓ} : {A : Type ℓ} → Result CodecError A → Result LifecycleError A
of_codec r = map_err codec_error r

abbrev typed_value_id : Bytes
typed_value_id = literal "cote.csf.schema.typed-value"

module _ (d : Deriver) where
  -- The typed value of encoded bytes.
  abbrev typed_value : Bytes → Value
  typed_value encoded =
      list
        (text typed_value_id ∷ uint64 1 ∷ byte_string encoded ∷ byte_string (d.sha256 encoded) ∷ [])

  -- The identity of an activation.
  unfoldable pub activation_id : Bytes → Definition → Runtime → ℕ → Result LifecycleError Bytes
  activation_id run_id def r revision = of_identity (
      sum d (literal "cote.csf.id.trigger-activation")
        (literal "cote.csf.schema.trigger-activation-id-preimage") 1
        (list (
          byte_string run_id
          ∷ byte_string def.id
          ∷ uint64 def.version
          ∷ uint64 revision
          ∷ uint64 r.activation_count
          ∷ [])))

  -- `CycleActivation`: the identity and the record.
  unfoldable pub cycle_activation :
      Bytes
      → Definition
      → Runtime
      → Bytes
      → ℕ
      → ℤ
      → List Bytes
      → Result LifecycleError (Bytes × Bytes)
  cycle_activation run_id def r cycle_id revision instant causes = do
    id ← activation_id run_id def r revision
    predicate ← of_codec (
        canonical_bytes d.codec (literal "cote.csf.trigger.predicate") typed_value_id 1
          (boolean (predicate_value def instant)))
    digest ← of_identity (
        sum d (literal "cote.csf.digest.trigger-predicate-result") typed_value_id 1
          (typed_value predicate))
    let fields : List Value =
        byte_string id
        ∷ byte_string run_id
        ∷ text (literal "trigger:" ++ hex def.id)
        ∷ byte_string def.id
        ∷ uint64 def.version
        ∷ list
            (uint64 0 ∷ byte_string cycle_id ∷ uint64 revision ∷ list (map byte_string causes) ∷ [])
        ∷ list (int64 instant ∷ uint64 0 ∷ [])
        ∷ uint64 r.activation_count
        ∷ byte_string digest
        ∷ uint64 0
        ∷ list (uint64 0 ∷ [])
        ∷ []
    full_digest ← of_identity (
        sum d (literal "cote.csf.digest.trigger-activation-unit")
          (literal "cote.csf.schema.trigger-activation.body") 1 (list fields))
    raw ← of_codec (canonical_payload d.codec (list (fields ++ (byte_string full_digest ∷ []))))
    ok (id, raw)

  -- The kind and the tag of a phase.
  unfoldable pub phase_kind : ℕ → Result LifecycleError (Bytes × Bytes)
  phase_kind phase =
      if phase == 3
      then ok
          (literal "trigger.runtime.transition", literal "cote.csf.trigger.runtime-transition.v1")
      else (if phase == 4
          then ok (
            literal "trigger.activation.created",
            literal "cote.csf.trigger.activation-created.v1",
          )
          else err unknown_phase)

  -- `LifecycleEvent`: the identity and the record.
  unfoldable pub lifecycle_event :
      Bytes → Bytes → ℤ → ℕ → ℕ → ℕ → Bytes → Bytes → Result LifecycleError (Bytes × Bytes)
  lifecycle_event run_id cycle_id from base sequence phase origin payload = do
    kind ← phase_kind phase
    let key : Value = list (
        uint64 phase
        ∷ byte_string origin
        ∷ text (literal "trigger")
        ∷ uint64 1
        ∷ uint64 0
        ∷ uint64 0
        ∷ [])
    id ← of_identity (
        sum d (literal "cote.csf.id.event") (literal "cote.csf.schema.event-id-preimage") 1
          (list (byte_string run_id ∷ byte_string cycle_id ∷ key ∷ [])))
    env ← of_codec (
        canonical_bytes d.codec kind.1 typed_value_id 1
          (list (byte_string origin ∷ byte_string payload ∷ [])))
    let body : List Value =
        byte_string id
        ∷ byte_string run_id
        ∷ key
        ∷ text kind.0
        ∷ uint64 1
        ∷ int64 from
        ∷ uint64 sequence
        ∷ byte_string cycle_id
        ∷ uint64 base
        ∷ typed_value env
        ∷ list []
        ∷ list []
        ∷ list []
        ∷ list []
        ∷ list (uint64 0 ∷ [])
        ∷ uint64 2
        ∷ text (literal "trigger")
        ∷ uint64 1
        ∷ []
    digest ← of_identity (
        sum d (literal "cote.csf.digest.event") (literal "cote.csf.schema.event.body") 1
          (list body))
    raw ← of_codec (canonical_payload d.codec (list (body ++ (byte_string digest ∷ []))))
    ok (id, raw)
