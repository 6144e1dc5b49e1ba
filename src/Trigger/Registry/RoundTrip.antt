-- ===== src/Trigger/Registry/RoundTrip.antt =====
-- The record of a definition decodes to the definition it was encoded from
-- (internal/csf/trigger/authority.go).
use cote_ai_simulation.Base.{
  ◌≡◌, ◌↔◌, refl, ap, ◌∙◌, subst, true, ◌==◌, List, [], ◌∷◌, length, ok, or_fail, bind-eq_ok,
  then-eq_ok, guard-then-eq_ok, or_fail-eq_ok, ok-injective, map_err-eq_ok,
}
use cote_ai_simulation.Base.Bytes.{Bytes, bytes_equal, bytes_equal_refl, bytes_equal-eq}
use cote_ai_simulation.Value.{Value, text, int64, list, as_array, as_32_bytes, field}
use cote_ai_simulation.Codec.{
  Library, canonical_bytes, canonical_payload, strict_decode_payload, encode_failed,
}
use cote_ai_simulation.Codec.Canonical.{IsNormalizer}
use cote_ai_simulation.Codec.ReadBack.{
  read_back, IsPlain, IsNormal, max_depth, ReadsPlain, strict_decode_normal,
}
use cote_ai_simulation.Trigger.{Definition, validate}
use cote_ai_simulation.Trigger.Registry.{
  predicate_schema_id, predicate_tag, definition_bytes, decode_definition_fields, decode_definition,
  is_permitted, codec_error, of_codec, of_trigger, bad_handler, invalid_definition, bad_definition,
  not_admitted, non_canonical_definition,
}
use cote_ai_simulation.Trigger.Registry.ReadBack.{
  IsDefinition, IsHandler, definition_value, definition_value-IsNormal, definition_value-IsPlain,
  decode_predicate-read_back, decode_definition_fields-read_back,
}

module _ (lib : Library) (sum256 : Bytes → Bytes) (raw : Bytes) (allowed : List (List Value))
    (d : Definition) (ref : List Value) where
  accepted :
      decode_definition lib sum256 raw allowed ≡ ok (d, ref)
      → (is_permitted allowed ref ≡ ok true) × (definition_bytes lib sum256 d ref ≡ ok raw)
  unfolding decode_definition
  accepted h =
      let (v, p, h₁) = bind-eq_ok (of_codec (strict_decode_payload lib raw)) _ h in
      let (fields, a, h₂) = bind-eq_ok (or_fail (as_array v) bad_definition) _ h₁ in
      let (x, f, h₃) = bind-eq_ok (decode_definition_fields lib sum256 fields) _ h₂ in
      let (b, i, h₄) = bind-eq_ok (is_permitted allowed x.1) _ h₃ in
      let (t, h₅) = guard-then-eq_ok b not_admitted _ h₄ in
      let (w, h₆) = then-eq_ok (of_trigger (validate x.0)) _ h₅ in
      let (c, r, h₇) = bind-eq_ok (definition_bytes lib sum256 x.0 x.1) _ h₆ in
      let (q, h₈) = guard-then-eq_ok (bytes_equal c raw) non_canonical_definition _ h₇ in
      subst
        (λ (z : Definition × List Value).
          (is_permitted allowed z.1 ≡ ok true) × (definition_bytes lib sum256 z.0 z.1 ≡ ok raw))
        (ok-injective h₈) (rw t at i, r ∙ ap ok (bytes_equal-eq c raw q))

  strict_decode_payload-definition :
      (payload : Bytes)
      → ReadsPlain lib
      → IsPlain max_depth (definition_value lib sum256 d ref payload)
      → IsNormal lib (definition_value lib sum256 d ref payload)
      → canonical_payload lib (definition_value lib sum256 d ref payload) ≡ ok raw
      → strict_decode_payload lib raw ≡ ok (read_back (definition_value lib sum256 d ref payload))
  unfolding canonical_payload
  strict_decode_payload-definition payload l p n e =
      strict_decode_normal lib (definition_value lib sum256 d ref payload) raw l p n
        (or_fail-eq_ok _ encode_failed (rw n at e))

  -- What DefinitionBytes has done.
  definition_bytes-ok :
      definition_bytes lib sum256 d ref ≡ ok raw
      → (validate d ≡ ok tt)
        × ((length ref == 3) ≡ true)
        × (payload : Bytes) × (canonical_bytes lib predicate_tag predicate_schema_id 1
              (list (int64 d.predicate_threshold ∷ []))
            ≡ ok payload)
        × (canonical_payload lib (definition_value lib sum256 d ref payload) ≡ ok raw)
  unfolding definition_bytes
  definition_bytes-ok e =
      let (v, e₁) = then-eq_ok (of_trigger (validate d)) _ e in
      let (n, e₂) = guard-then-eq_ok (length ref == 3) bad_handler _ e₁ in
      let (digest, g, e₃) = bind-eq_ok (or_fail (as_32_bytes (field ref 2)) bad_handler) _ e₂ in
      let (payload, c, e₄) =
        bind-eq_ok
          (of_codec (
            canonical_bytes lib predicate_tag predicate_schema_id 1
              (list (int64 d.predicate_threshold ∷ []))))
          _ e₃ in
      (
        map_err-eq_ok invalid_definition (validate d) v,
        n,
        payload,
        map_err-eq_ok codec_error _ c,
        map_err-eq_ok codec_error _ e₄,
      )

  accepts :
      IsNormalizer lib
      → ReadsPlain lib
      → IsNormal lib (text predicate_schema_id)
      → IsNormal lib (text predicate_tag)
      → IsDefinition lib d
      → IsHandler lib ref
      → is_permitted allowed ref ≡ ok true
      → definition_bytes lib sum256 d ref ≡ ok raw
      → decode_definition lib sum256 raw allowed ≡ ok (d, ref)
  unfolding decode_definition
  accepts u l s t h k granted e =
      let (v, n, payload, c, m) = definition_bytes-ok e in
      let (typed, a, p) =
        decode_predicate-read_back lib sum256 d ref payload u l s t h.threshold_fits c in
      let (fields, b, q) =
        decode_definition_fields-read_back lib sum256 d ref payload typed a p v h k n in
      let w =
        strict_decode_payload-definition payload l
          (definition_value-IsPlain lib sum256 d ref payload v h k)
          (definition_value-IsNormal lib sum256 d ref payload s h k) m in
      rw (w, b, q, granted, v, e, bytes_equal_refl raw) refl

  -- For a definition whose parts fit their types, with dependencies in normal form, and a handler
  -- reference that is plain, normal and read back unchanged: DecodeDefinition returns both exactly
  -- where the genesis policy admits the handler and the bytes are those that DefinitionBytes writes.
  -- The CBOR library reads plain values back, the normal form of a text is its own normal form, and
  -- the schema and the tag of the predicate are in normal form.
  pub decode_definition_iff :
      IsNormalizer lib
      → ReadsPlain lib
      → IsNormal lib (text predicate_schema_id)
      → IsNormal lib (text predicate_tag)
      → IsDefinition lib d
      → IsHandler lib ref
      → (decode_definition lib sum256 raw allowed ≡ ok (d, ref))
        ↔ ((is_permitted allowed ref ≡ ok true) × (definition_bytes lib sum256 d ref ≡ ok raw))
  decode_definition_iff u l s t h k = (accepted, λ (g, e). accepts u l s t h k g e)
