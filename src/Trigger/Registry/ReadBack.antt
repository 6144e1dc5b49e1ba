-- ===== src/Trigger/Registry/ReadBack.antt =====
-- What the parts of a definition's record are decoded to (internal/csf/trigger/authority.go).
use cote_ai_simulation.Base.{
  suc, ◌≡◌, ◌≤◌, ◌<◌, refl, sym, ap, true, false, ◌&&◌, not, arith, ltb, leb, ◌==◌, ◌^◌, List, [],
  ◌∷◌, map, length, some, ok, guard-then-eq_ok, Bool-cases, inl, inr, All,
}
use cote_ai_simulation.Base.Bytes.{Bytes, bytes_equal, bytes_equal_refl}
use cote_ai_simulation.Base.Int.{pos, IsInt64, eqb_ℤ, eqb_ℤ-eq, uint64_bound}
use cote_ai_simulation.Value.{
  Value, boolean, byte_string, text, int64, uint64, list, values, items, as_array,
}
use cote_ai_simulation.Codec.{Library, canonical_bytes, normalize, normalize_items}
use cote_ai_simulation.Codec.Canonical.{IsNormalizer}
use cote_ai_simulation.Codec.ReadBack.{
  as_32_bytes-byte_string, read_back, read_back_each, signed_int64-read_back, IsPlain, ArePlain,
  IsNormal, max_depth, ReadsPlain,
}
use cote_ai_simulation.Codec.Envelopes.{strict_decode_envelope-canonical_bytes}
use cote_ai_simulation.Trigger.{
  Definition, validate, repeat_while_true, cadence_forbidden, invalid_identity,
}
use cote_ai_simulation.Trigger.Registry.{
  predicate_schema_id, predicate_tag, repeat_value, decode_repeat, decode_selectors,
  predicate_value_of, decode_predicate, decode_definition_fields,
}

-- The parts of a definition fit their types, and its dependencies are normal text.
pub record IsDefinition (lib : Library) (d : Definition) : Type 0 where
  pub id_fits : length d.id ≡ 32
  pub version_fits : d.version < 2 ^ 32
  pub threshold_fits : IsInt64 d.predicate_threshold
  pub repeat_fits : IsInt64 d.repeat_every
  pub few : length d.dependencies ≤ 65535
  pub normal : All (λ x. IsNormal lib (text x)) d.dependencies

-- What a definition and a handler are valid for, as far as the decoder tests it again.
validate-policy :
    (d : Definition)
    → validate d ≡ ok tt
    → (not (d.version == 0) ≡ true) × (leb d.policy repeat_while_true ≡ true)
unfolding validate
validate-policy d h =
    let (g, h₁) =
      guard-then-eq_ok (not (d.version == 0) && leb d.policy repeat_while_true) invalid_identity _
        h in
    (ground arith, ground arith)

no_repeat :
    (d : Definition)
    → validate d ≡ ok tt
    → (d.policy == repeat_while_true) ≡ false
    → pos 0 ≡ d.repeat_every
unfolding validate
no_repeat d h n =
    let (g, h₁) =
      guard-then-eq_ok (not (d.version == 0) && leb d.policy repeat_while_true) invalid_identity _
        h in
    let (c, h₂) =
      guard-then-eq_ok (eqb_ℤ d.repeat_every (pos 0)) cadence_forbidden _ (rw n at h₁) in
    sym (eqb_ℤ-eq d.repeat_every (pos 0) c)

decode_repeat-read_back :
    (d : Definition)
    → IsInt64 d.repeat_every
    → validate d ≡ ok tt
    → (opt : List Value) × (as_array (read_back (repeat_value d)) ≡ some opt)
      × (decode_repeat opt ≡ ok d.repeat_every)
unfolding read_back decode_repeat
decode_repeat-read_back d f v = elim (Bool-cases (d.policy == repeat_while_true)) [
  | inl r ↦ rw r (_, refl, rw (signed_int64-read_back d.repeat_every f) refl)
  | inr r ↦ rw r (_, refl, ap ok (no_repeat d v r))
]

decode_selectors-texts :
    (xs : List Bytes) → decode_selectors (items (read_back_each (values (map text xs)))) ≡ ok xs
unfolding read_back decode_selectors
decode_selectors-texts [] = refl
decode_selectors-texts (x ∷ xs) = rw (decode_selectors-texts xs) refl

-- A handler reference that the codec keeps as it is.
pub record IsHandler (lib : Library) (ref : List Value) : Type 0 where
  pub plain : IsPlain 31 (list ref)
  pub normal : IsNormal lib (list ref)
  pub unchanged : as_array (read_back (list ref)) ≡ some ref

module _ (lib : Library) where
  texts-IsNormal :
      (xs : List Bytes)
      → All (λ x. IsNormal lib (text x)) xs
      → normalize_items lib (values (map text xs)) ≡ ok (values (map text xs))
  unfolding normalize
  texts-IsNormal [] h = refl
  texts-IsNormal (x ∷ xs) h = rw (h.0, texts-IsNormal xs h.1) refl

  repeat_value-IsNormal : (d : Definition) → IsNormal lib (repeat_value d)
  unfolding normalize
  repeat_value-IsNormal d = elim (Bool-cases (d.policy == repeat_while_true)) [
    | inl r ↦ rw r refl
    | inr r ↦ rw r refl
  ]

texts-ArePlain : (xs : List Bytes) → ArePlain 30 (values (map text xs))
unfolding IsPlain
texts-ArePlain [] = tt
texts-ArePlain (x ∷ xs) = (tt, texts-ArePlain xs)

length-texts : (xs : List Bytes) → length (items (values (map text xs))) ≡ length xs
length-texts [] = refl
length-texts (x ∷ xs) = ap suc (length-texts xs)

repeat_value-IsPlain : (d : Definition) → IsInt64 d.repeat_every → IsPlain 31 (repeat_value d)
unfolding IsPlain
repeat_value-IsPlain d f = elim (Bool-cases (d.policy == repeat_while_true)) [
  | inl r ↦ rw r (omega arith, (omega arith, (f, tt)))
  | inr r ↦ rw r (omega arith, (omega arith, tt))
]

module _ (lib : Library) (sum256 : Bytes → Bytes) (d : Definition) (ref : List Value)
    (payload : Bytes) where
  -- What is encoded.
  abbrev pub definition_value : Value
  definition_value = list (
      byte_string d.id
      ∷ uint64 d.version
      ∷ predicate_value_of lib sum256 payload
      ∷ uint64 d.policy
      ∷ boolean d.fire_on_initial_true
      ∷ repeat_value d
      ∷ list (map text d.dependencies)
      ∷ list ref
      ∷ [])

  pub definition_value-IsNormal :
      IsNormal lib (text predicate_schema_id)
      → IsDefinition lib d
      → IsHandler lib ref
      → IsNormal lib definition_value
  unfolding normalize
  definition_value-IsNormal s h k =
      rw (s, repeat_value-IsNormal lib d, texts-IsNormal lib d.dependencies h.normal, k.normal) refl

  pub definition_value-IsPlain :
      validate d ≡ ok tt
      → IsDefinition lib d
      → IsHandler lib ref
      → IsPlain max_depth definition_value
  unfolding IsPlain
  definition_value-IsPlain v h k =
      let policy : d.policy < uint64_bound = ground (arith, (validate-policy d v).1) in
      let version : d.version < uint64_bound = omega (arith, h.version_fits) in
      let few : length (items (values (map text d.dependencies))) ≤ 65535 =
        rw (length-texts d.dependencies) h.few in
      let typed : IsPlain 31 (predicate_value_of lib sum256 payload) =
        (omega arith, (tt, (omega arith, (tt, (tt, tt))))) in
      let repeat = repeat_value-IsPlain d h.repeat_fits in
      let texts : IsPlain 31 (list (map text d.dependencies)) =
        (few, texts-ArePlain d.dependencies) in
      (omega arith, (tt, (version, (typed, (policy, (tt, (repeat, (texts, (k.plain, tt)))))))))

  pub decode_predicate-read_back :
      IsNormalizer lib
      → ReadsPlain lib
      → IsNormal lib (text predicate_schema_id)
      → IsNormal lib (text predicate_tag)
      → IsInt64 d.predicate_threshold
      → canonical_bytes lib predicate_tag predicate_schema_id 1
          (list (int64 d.predicate_threshold ∷ []))
        ≡ ok payload
      → (typed : List Value) × (as_array (read_back (predicate_value_of lib sum256 payload))
          ≡ some typed)
        × (decode_predicate lib sum256 typed ≡ ok d.predicate_threshold)
  unfolding decode_predicate read_back IsPlain normalize bytes_equal
  decode_predicate-read_back u l s t f c =
      let e =
        strict_decode_envelope-canonical_bytes lib predicate_tag predicate_schema_id 1
          (list (int64 d.predicate_threshold ∷ [])) (list (int64 d.predicate_threshold ∷ []))
          payload refl u l (omega arith) t s (omega arith, (f, tt)) c in
      (
        _,
        refl,
        rw (bytes_equal_refl (sum256 payload), e, signed_int64-read_back d.predicate_threshold f)
            refl,
      )

  decode_definition_fields_of :
      (t r s k : Value) (typed opt selectors : List Value)
      → as_array t ≡ some typed
      → decode_predicate lib sum256 typed ≡ ok d.predicate_threshold
      → as_array r ≡ some opt
      → decode_repeat opt ≡ ok d.repeat_every
      → as_array s ≡ some selectors
      → decode_selectors selectors ≡ ok d.dependencies
      → as_array k ≡ some ref
      → validate d ≡ ok tt
      → IsDefinition lib d
      → (length ref == 3) ≡ true
      → decode_definition_fields lib sum256 (
          byte_string d.id
          ∷ uint64 d.version
          ∷ t
          ∷ uint64 d.policy
          ∷ boolean d.fire_on_initial_true
          ∷ r
          ∷ s
          ∷ k
          ∷ [])
        ≡ ok (d, ref)
  unfolding decode_definition_fields
  decode_definition_fields_of t r s k typed opt selectors a p b q c o e v h n =
      let (version, policy) = validate-policy d v in
      let fits : (not (d.version == 0) && ltb d.version (2 ^ 32)) ≡ true =
        ground (arith, h.version_fits, version) in
      rw (as_32_bytes-byte_string d.id h.id_fits, fits, a, p, policy, b, q, c, o, e, n) refl

  pub decode_definition_fields-read_back :
      (typed : List Value)
      → as_array (read_back (predicate_value_of lib sum256 payload)) ≡ some typed
      → decode_predicate lib sum256 typed ≡ ok d.predicate_threshold
      → validate d ≡ ok tt
      → IsDefinition lib d
      → IsHandler lib ref
      → (length ref == 3) ≡ true
      → (fields : List Value) × (as_array (read_back definition_value) ≡ some fields)
        × (decode_definition_fields lib sum256 fields ≡ ok (d, ref))
  unfolding read_back
  decode_definition_fields-read_back typed a p v h k n =
      let (opt, o, q) = decode_repeat-read_back d h.repeat_fits v in
      (
        _,
        refl,
        decode_definition_fields_of _ _ _ _ typed opt _ a p o q refl
            (decode_selectors-texts d.dependencies) k.unchanged v h n,
      )
