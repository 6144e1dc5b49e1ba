-- ===== src/Tests/Definitions.antt =====
-- An example of the record of a definition (internal/csf/trigger/authority.go).
use cote_ai_simulation.Base.{◌≡◌, refl, false, List, [], ◌∷◌, ok, true, arith, ◌↔◌}
use cote_ai_simulation.Base.Bytes.{Bytes, literal, bytes_equal, bytes_compare, zero_id}
use cote_ai_simulation.Base.Int.{pos}
use cote_ai_simulation.Value.{
  Value, byte_string, text, uint64, boolean, list, as_32_bytes, signed_int64,
}
use cote_ai_simulation.Domain.Patterns.{validate_domain_tag}
use cote_ai_simulation.Codec.{
  strict_decode_payload, strict_decode_envelope, canonical_payload, canonical_bytes, normalize,
  normalize_text, contains_unassigned, search_unassigned, key_equal,
}
use cote_ai_simulation.Trigger.{
  Definition, once_when_true, validate, valid_dependencies, sorted_after,
}
use cote_ai_simulation.Trigger.Registry.{
  predicate_schema_id, predicate_tag, same_policy, is_permitted, decode_repeat, decode_selectors,
  definition_bytes, decode_predicate, decode_definition_fields, decode_definition,
}
use cote_ai_simulation.Trigger.Registry.RoundTrip.{decode_definition_iff}
use cote_ai_simulation.Tests.Indexed.{
  indexed, indexed-ReadsPlain, indexed-IsNormalizer, place, at_place, same,
}
use cote_ai_simulation.Codec.ReadBack.{IsNormal, IsPlain, read_back}
use cote_ai_simulation.Trigger.Registry.ReadBack.{IsDefinition, IsHandler}

abbrev handler : List Value
handler = text (literal "handler") ∷ uint64 1 ∷ byte_string zero_id ∷ []

abbrev definition : Definition
definition = record {
  id = zero_id;
  predicate_threshold = pos 5;
  version = 1;
  policy = once_when_true;
  fire_on_initial_true = false;
  repeat_every = pos 0;
  dependencies = literal "clock" ∷ [];
}

abbrev predicate_envelope : Value
predicate_envelope = list (
    byte_string (67 ∷ 83 ∷ 70 ∷ 0 ∷ [])
    ∷ uint64 1
    ∷ text predicate_tag
    ∷ text predicate_schema_id
    ∷ uint64 1
    ∷ list (uint64 5 ∷ [])
    ∷ [])

abbrev digest : Bytes → Bytes
digest b = zero_id

abbrev payload : Bytes
payload = 0 ∷ []

abbrev definition_record : Value
definition_record = list (
    byte_string zero_id
    ∷ uint64 1
    ∷ list (text predicate_schema_id ∷ uint64 1 ∷ byte_string payload ∷ byte_string zero_id ∷ [])
    ∷ uint64 2
    ∷ boolean false
    ∷ list (uint64 0 ∷ [])
    ∷ list (text (literal "clock") ∷ [])
    ∷ list handler
    ∷ [])

abbrev records : List Value
records = predicate_envelope ∷ definition_record ∷ []

schema-IsNormal : IsNormal (indexed records) (text predicate_schema_id)
unfolding normalize normalize_text contains_unassigned search_unassigned
schema-IsNormal = refl

tag-IsNormal : IsNormal (indexed records) (text predicate_tag)
unfolding normalize normalize_text contains_unassigned search_unassigned
tag-IsNormal = refl

clock-IsNormal : IsNormal (indexed records) (text (literal "clock"))
unfolding normalize normalize_text contains_unassigned search_unassigned
clock-IsNormal = refl

definition_fits : IsDefinition (indexed records) definition
definition_fits = record {
  id_fits = refl;
  version_fits = omega arith;
  threshold_fits = (omega arith, omega arith);
  repeat_fits = (omega arith, omega arith);
  few = omega arith;
  normal = (clock-IsNormal, tt);
}

handler_kept : IsHandler (indexed records) handler
unfolding IsPlain normalize normalize_text contains_unassigned search_unassigned read_back
handler_kept = record {
  plain = (omega arith, (tt, (omega arith, (tt, tt))));
  normal = refl;
  unchanged = refl;
}

definition_read :
    decode_definition (indexed records) digest (1 ∷ []) (handler ∷ []) ≡ ok (definition, handler)
unfolding decode_definition decode_definition_fields decode_predicate definition_bytes same_policy
    is_permitted decode_repeat decode_selectors validate valid_dependencies sorted_after
    strict_decode_payload strict_decode_envelope canonical_payload canonical_bytes normalize
    normalize_text contains_unassigned search_unassigned key_equal validate_domain_tag bytes_equal
    bytes_compare as_32_bytes signed_int64 place at_place same read_back
definition_read = refl

decode_definition_iff_example :
    (decode_definition (indexed records) digest (1 ∷ []) (handler ∷ []) ≡ ok (definition, handler))
    ↔ ((is_permitted (handler ∷ []) handler ≡ ok true)
        × (definition_bytes (indexed records) digest definition handler ≡ ok (1 ∷ [])))
decode_definition_iff_example =
    decode_definition_iff (indexed records) digest (1 ∷ []) (handler ∷ []) definition handler
      (indexed-IsNormalizer records) (indexed-ReadsPlain records) schema-IsNormal tag-IsNormal
      definition_fits handler_kept
