-- ===== src/Trigger/Registry.antt =====
-- internal/csf/trigger/authority.go: the canonical records of trigger definitions, and the order in
-- which they are registered. The bundle that DecodeDefinition takes is not read.
pub mod Definitions
pub mod ReadBack
pub mod RoundTrip
use cote_ai_simulation.Base.{
  ℕ, Bool, true, false, ◌&&◌, ◌||◌, not, ltb, leb, ◌==◌, ◌^◌, if◌then◌else◌, List, [], ◌∷◌, map,
  length, Option, some, none, Result, ok, err, ◌>>=◌, ◌>>◌, guard, or_fail, map_err,
}
use cote_ai_simulation.Base.Bytes.{Bytes, literal, bytes_equal, bytes_compare}
use cote_ai_simulation.Base.Int.{ℤ, pos}
use cote_ai_simulation.Base.Sort.{sort}
use cote_ai_simulation.Domain.{is_lt}
use cote_ai_simulation.Value.{
  Value, boolean, byte_string, text, int64, uint64, array, mapping, list, as_array, as_bool,
  as_bytes, as_text, as_uint64, as_32_bytes, signed_int64, field, is_literal, is_uint64,
}
use cote_ai_simulation.Codec.{
  Library, CodecError, Envelope, canonical_bytes, canonical_payload, strict_decode_payload,
  strict_decode_envelope, key_equal,
}
use cote_ai_simulation.Trigger.{Definition, TriggerError, repeat_while_true, validate}

-- `panicked` is the runtime panic of `==` on two values of one type that is not comparable.
pub data RegistryError : Type 0 where
  codec_error : CodecError → RegistryError
  invalid_definition : TriggerError → RegistryError
  bad_handler bad_definition bad_predicate not_admitted non_canonical_definition : RegistryError
  duplicate_trigger unregistered_footprint panicked : RegistryError

abbrev of_codec {ℓ} : {A : Type ℓ} → Result CodecError A → Result RegistryError A
of_codec r = map_err codec_error r

abbrev of_trigger {ℓ} : {A : Type ℓ} → Result TriggerError A → Result RegistryError A
of_trigger r = map_err invalid_definition r

abbrev of_envelope : Result CodecError Envelope → Result RegistryError Envelope
of_envelope r = map_err (λ _. bad_predicate) r

-- `PredicateSchemaID`
abbrev pub predicate_schema_id : Bytes
predicate_schema_id = literal "cote.csf.schema.typed-value"

-- `PredicateTag`
abbrev pub predicate_tag : Bytes
predicate_tag = literal "cote.csf.trigger.clock-threshold.v1"

-- `==` of two `any`: `none` is the panic.
abbrev any_equal : Value → Value → Option Bool
any_equal (byte_string a) (byte_string b) = none
any_equal (array a) (array b) = none
any_equal (mapping a) (mapping b) = none
any_equal a b = some (key_equal a b)

abbrev same_hash : Value → Value → Bool
same_hash (byte_string x) (byte_string y) = bytes_equal x y
same_hash _ _ = false

-- `samePolicy`
unfoldable pub same_policy : List Value → List Value → Result RegistryError Bool
same_policy a b =
    if (length a == 3) && (length b == 3)
    then (or_fail (any_equal (field a 0) (field b 0)) panicked >>= λ first.
        if first
        then (or_fail (any_equal (field a 1) (field b 1)) panicked >>= λ second.
            ok (second && same_hash (field a 2) (field b 2)))
        else ok false)
    else ok false

-- The loop over the handlers that the genesis policy admits.
unfoldable pub is_permitted : List (List Value) → List Value → Result RegistryError Bool
is_permitted [] ref = ok false
is_permitted (grant ∷ grants) ref =
    let rest = is_permitted grants ref in
    (same_policy grant ref >>= λ same. if same then ok true else rest)

-- The repetition of a definition.
abbrev repeat_value : Definition → Value
repeat_value d =
    if d.policy == repeat_while_true
    then list (uint64 1 ∷ int64 d.repeat_every ∷ [])
    else list (uint64 0 ∷ [])

unfoldable pub decode_repeat : List Value → Result RegistryError ℤ
decode_repeat repeat =
    if (length repeat == 2) && is_uint64 (field repeat 0) 1
    then or_fail (signed_int64 (field repeat 1)) bad_definition
    else (guard ((length repeat == 1) && is_uint64 (field repeat 0) 0) bad_definition >> ok (pos 0))

-- The loop over the selectors.
unfoldable pub decode_selectors : List Value → Result RegistryError (List Bytes)
decode_selectors [] = ok []
decode_selectors (v ∷ vs) = do
  x ← or_fail (as_text v) bad_definition
  xs ← decode_selectors vs
  ok (x ∷ xs)

module _ (lib : Library) (sum256 : Bytes → Bytes) where
  -- The typed value of the predicate.
  abbrev predicate_value_of : Bytes → Value
  predicate_value_of payload = list (
      text predicate_schema_id ∷ uint64 1 ∷ byte_string payload ∷ byte_string (sum256 payload) ∷ [])

  -- `DefinitionBytes`
  unfoldable pub definition_bytes : Definition → List Value → Result RegistryError Bytes
  definition_bytes d handler = do
    of_trigger (validate d)
    guard (length handler == 3) bad_handler
    digest ← or_fail (as_32_bytes (field handler 2)) bad_handler
    payload ← of_codec (
        canonical_bytes lib predicate_tag predicate_schema_id 1
          (list (int64 d.predicate_threshold ∷ [])))
    of_codec (
        canonical_payload lib (
          list (
            byte_string d.id
            ∷ uint64 d.version
            ∷ predicate_value_of payload
            ∷ uint64 d.policy
            ∷ boolean d.fire_on_initial_true
            ∷ repeat_value d
            ∷ list (map text d.dependencies)
            ∷ list handler
            ∷ [])))

  -- The part of `DecodeDefinition` that reads the predicate: the threshold.
  unfoldable pub decode_predicate : List Value → Result RegistryError ℤ
  decode_predicate typed = do
    guard
        ((length typed == 4)
          && (is_literal (field typed 0) predicate_schema_id && is_uint64 (field typed 1) 1))
        bad_predicate
    payload ← or_fail (as_bytes (field typed 2)) bad_predicate
    provided ← or_fail (as_bytes (field typed 3)) bad_predicate
    guard (bytes_equal (sum256 payload) provided) bad_predicate
    env ← of_envelope (strict_decode_envelope lib payload)
    guard
        (bytes_equal env.domain_tag predicate_tag
          && (bytes_equal env.schema_id predicate_schema_id && env.schema_version == 1))
        bad_predicate
    args ← or_fail (as_array env.value) bad_predicate
    guard (length args == 1) bad_predicate
    or_fail (signed_int64 (field args 0)) bad_predicate

  -- The part of `DecodeDefinition` that reads the fields: the definition and its handler.
  unfoldable pub decode_definition_fields :
      List Value → Result RegistryError (Definition × List Value)
  decode_definition_fields fields = do
    guard (length fields == 8) bad_definition
    id ← or_fail (as_32_bytes (field fields 0)) bad_definition
    version ← or_fail (as_uint64 (field fields 1)) bad_definition
    guard (not (version == 0) && ltb version (2 ^ 32)) bad_definition
    typed ← or_fail (as_array (field fields 2)) bad_predicate
    threshold ← decode_predicate typed
    kind ← or_fail (as_uint64 (field fields 3)) bad_definition
    guard (leb kind repeat_while_true) bad_definition
    fire ← or_fail (as_bool (field fields 4)) bad_definition
    repeat ← or_fail (as_array (field fields 5)) bad_definition
    every ← decode_repeat repeat
    selectors ← or_fail (as_array (field fields 6)) bad_definition
    dependencies ← decode_selectors selectors
    ref ← or_fail (as_array (field fields 7)) bad_handler
    guard (length ref == 3) bad_handler
    ok (
      record {
        id = id;
        predicate_threshold = threshold;
        version = version;
        policy = kind;
        fire_on_initial_true = fire;
        repeat_every = every;
        dependencies = dependencies;
      },
      ref,
    )

  -- `DecodeDefinition`
  unfoldable pub decode_definition :
      Bytes → List (List Value) → Result RegistryError (Definition × List Value)
  decode_definition raw allowed = do
    v ← of_codec (strict_decode_payload lib raw)
    fields ← or_fail (as_array v) bad_definition
    decoded ← decode_definition_fields fields
    permitted ← is_permitted allowed decoded.1
    guard permitted not_admitted
    of_trigger (validate decoded.0)
    rebuilt ← definition_bytes decoded.0 decoded.1
    guard (bytes_equal rebuilt raw) non_canonical_definition
    ok decoded

-- The test that sorts definitions.
abbrev pub definition_less : Definition → Definition → Bool
definition_less a b = is_lt (bytes_compare a.id b.id)

-- The loop of `CanonicalDefinitions` from the second definition on, behind `previous`.
unfoldable pub check_after : Definition → List Definition → Result RegistryError (Unit {0})
check_after previous [] = ok tt
check_after previous (d ∷ ds) = do
  of_trigger (validate d)
  guard (not (bytes_equal previous.id d.id)) duplicate_trigger
  check_after d ds

unfoldable pub check_definitions : List Definition → Result RegistryError (Unit {0})
check_definitions [] = ok tt
check_definitions (d ∷ ds) = do of_trigger (validate d); check_after d ds

-- `CanonicalDefinitions`. Definitions with one ID may stand in any order after the sort, which is
-- not stable, and are refused.
unfoldable pub canonical_definitions : List Definition → Result RegistryError (List Definition)
canonical_definitions ds = do
  check_definitions (sort definition_less ds)
  ok (sort definition_less ds)

-- `EventFootprint`
unfoldable pub event_footprint : Bytes → Result RegistryError (List Bytes)
event_footprint kind =
    if bytes_equal kind (literal "clock.advanced")
    then ok (literal "clock" ∷ [])
    else (if bytes_equal kind (literal "body.advanced")
        then ok (literal "body" ∷ [])
        else err unregistered_footprint)
