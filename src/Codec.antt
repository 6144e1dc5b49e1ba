-- ===== src/Codec.antt =====
-- internal/csf/codec/codec.go: the canonical CBOR profile. The CBOR library, the Unicode
-- normaliser and the generated table of unassigned code points are parameters.
pub mod Unassigned
pub mod Canonical
pub mod ReadBack
pub mod Envelopes
use cote_ai_simulation.Base.{
  ℕ, zero, suc, ◌+◌, ◌-◌, ◌*◌, ◌/◌, ◌^◌, ◌%◌, ◌≡◌, refl, Bool, true, false, ◌&&◌, ◌||◌, not, arith,
  leb, ltb, ◌==◌, if◌then◌else◌, List, [], ◌∷◌, Option, some, none, length, get_elem?, Result, ok,
  err, ◌>>=◌, ◌>>◌, guard, or_fail,
}
use cote_ai_simulation.Base.Bytes.{Bytes, bytes_equal, literal}
use cote_ai_simulation.Base.Int.{ℤ, eqb_ℤ}
use cote_ai_simulation.Value.{
  Value, Values, Entries, null, boolean, byte_string, text, float64, int64, uint64, uint32, array,
  mapping, nil, cons, empty, entry, list, as_array, as_bytes, as_text, field,
}
use cote_ai_simulation.Domain.Patterns.{validate_domain_tag}

-- What the codec takes from elsewhere: `decMode.Unmarshal` and `encMode.Marshal` of the CBOR
-- library, `norm.NFC.String`, the code points of a string (`none` where it is no UTF-8), and the
-- table of unicode15_unassigned_generated.go.
pub record Library : Type 0 where
  pub unmarshal : Bytes → Option Value
  pub marshal : Value → Option Bytes
  pub nfc : Bytes → Bytes
  pub code_points : Bytes → Option (List ℕ)
  pub unassigned : List (ℕ × ℕ)

pub data CodecError : Type 0 where
  non_canonical non_finite invalid_utf8 unassigned_code_point text_too_long : CodecError
  complex_map_key duplicate_map_key encode_failed decode_failed invalid_tag : CodecError
  envelope_too_long bad_envelope bad_magic bad_version : CodecError

pub record Envelope : Type 0 where
  pub domain_tag : Bytes
  pub schema_id : Bytes
  pub schema_version : ℕ
  pub value : Value

-- `unsigned`: an unsigned integer of any width.
abbrev unsigned : Value → Option ℕ
unsigned (uint64 n) = some n
unsigned (uint32 n) = some n
unsigned _ = none

abbrev pub in_table : List (ℕ × ℕ) → ℕ → ℕ × ℕ
in_table table i = elim (get_elem? table i) [ none ↦ (0, 0) | some e ↦ e ]

-- The inner loop of `containsUnicode15Unassigned`, a binary search between `low` and `high`. The
-- fuel is the length of the table, which the width of the range never exceeds.
unfoldable pub search_unassigned : ℕ → List (ℕ × ℕ) → ℕ → ℕ → ℕ → Bool
search_unassigned zero table low high code_point = false
search_unassigned (suc fuel) table low high code_point =
    let middle = low + (high - low) / 2 in
    let e = in_table table middle in
    let left = search_unassigned fuel table low middle code_point in
    let right = search_unassigned fuel table (middle + 1) high code_point in
    if ltb low high
    then (if ltb code_point e.0 then left else if ltb e.1 code_point then right else true)
    else false

unfoldable pub contains_unassigned : List (ℕ × ℕ) → List ℕ → Bool
contains_unassigned table [] = false
contains_unassigned table (c ∷ cs) =
    search_unassigned (length table) table 0 (length table) c || contains_unassigned table cs

-- A float64 is not finite where its exponent is all ones; both zeros have a zero magnitude.
abbrev is_finite : ℕ → Bool
is_finite bits = not (bits / 2 ^ 52 % 2048 == 2047)

abbrev is_zero : ℕ → Bool
is_zero bits = bits % 2 ^ 63 == 0

-- `==` of two normalised map keys; the kinds that are not comparable are refused before.
unfoldable pub key_equal : Value → Value → Bool
key_equal null null = true
key_equal (boolean true) (boolean true) = true
key_equal (boolean false) (boolean false) = true
key_equal (text a) (text b) = bytes_equal a b
key_equal (float64 a) (float64 b) = a == b
key_equal (int64 a) (int64 b) = eqb_ℤ a b
key_equal (uint64 a) (uint64 b) = a == b
key_equal (uint32 a) (uint32 b) = a == b
key_equal _ _ = false

abbrev is_comparable : Value → Bool
is_comparable (byte_string b) = false
is_comparable (array vs) = false
is_comparable (mapping es) = false
is_comparable _ = true

pub has_key : Value → Entries → Bool
unfolding key_equal
has_key key empty = false
has_key key (entry k v es) = key_equal k key || has_key key es

-- An assignment to a new key of the Go map, which has no order: the entry stands last.
pub append_entry : Entries → Value → Value → Entries
append_entry empty key item = entry key item empty
append_entry (entry k v es) key item = entry k v (append_entry es key item)

module _ (lib : Library) where
  open lib use {unmarshal, marshal, nfc, code_points, unassigned}

  -- The code points that a `range` over a string visits.
  abbrev runes : Bytes → List ℕ
  runes s = elim (code_points s) [ none ↦ [] | some cs ↦ cs ]

  -- The case of a string.
  unfoldable pub normalize_text : Bytes → Result CodecError Value
  normalize_text s = do
    cs ← or_fail (code_points s) invalid_utf8
    guard (not (contains_unassigned unassigned cs)) unassigned_code_point
    let normalized = nfc s
    guard (not (contains_unassigned unassigned (runes normalized))) unassigned_code_point
    guard (leb (length normalized) 1_048_576) text_too_long
    ok (text normalized)

  unfoldable mutual
    unfolding normalize_text has_key append_entry

    -- `normalize` on the kinds of the value tree; the entries of a map come in the order in which
    -- the iteration visits them.
    pub normalize : Value → Result CodecError Value
    normalize null = ok null
    normalize (boolean b) = ok (boolean b)
    normalize (byte_string b) = ok (byte_string b)
    normalize (text s) = normalize_text s
    normalize (float64 bits) =
        if is_finite bits then ok (float64 (if is_zero bits then 0 else bits)) else err non_finite
    normalize (int64 n) = ok (int64 n)
    normalize (uint64 n) = ok (uint64 n)
    normalize (uint32 n) = ok (uint32 n)
    normalize (array vs) = do result ← normalize_items vs; ok (array result)
    normalize (mapping es) = do result ← normalize_entries es empty; ok (mapping result)

    pub normalize_items : Values → Result CodecError Values
    normalize_items nil = ok nil
    normalize_items (cons v vs) = do
      normalized ← normalize v
      rest ← normalize_items vs
      ok (cons normalized rest)

    pub normalize_entries : Entries → Entries → Result CodecError Entries
    normalize_entries empty result = ok result
    normalize_entries (entry key item es) result = do
      normalized_key ← normalize key
      guard (is_comparable normalized_key) complex_map_key
      guard (not (has_key normalized_key result)) duplicate_map_key
      normalized_item ← normalize item
      normalize_entries es (append_entry result normalized_key normalized_item)

  unfoldable pub canonical_payload : Value → Result CodecError Bytes
  canonical_payload value = do
    normalized ← normalize value
    or_fail (marshal normalized) encode_failed

  unfoldable pub strict_decode_payload : Bytes → Result CodecError Value
  strict_decode_payload encoded = do
    value ← or_fail (unmarshal encoded) decode_failed
    reencoded ← canonical_payload value
    guard (bytes_equal encoded reencoded) non_canonical
    ok value

  -- {'C', 'S', 'F', 0}
  abbrev magic : Bytes
  magic = 67 ∷ 83 ∷ 70 ∷ 0 ∷ []

  unfoldable pub canonical_bytes : Bytes → Bytes → ℕ → Value → Result CodecError Bytes
  canonical_bytes domain_tag schema_id schema_version value = do
    guard (validate_domain_tag domain_tag) invalid_tag
    guard (validate_domain_tag schema_id) invalid_tag
    normalized ← normalize value
    encoded ←
        or_fail
          (marshal (
            list (
              byte_string magic
              ∷ uint64 1
              ∷ text domain_tag
              ∷ text schema_id
              ∷ uint64 schema_version
              ∷ normalized
              ∷ [])))
          encode_failed
    guard (leb (length encoded) 16_777_216) envelope_too_long
    ok encoded

  unfoldable pub strict_decode_envelope : Bytes → Result CodecError Envelope
  strict_decode_envelope encoded = do
    value ← strict_decode_payload encoded
    fields ← or_fail (as_array value) bad_envelope
    guard (length fields == 6) bad_envelope
    got_magic ← or_fail (as_bytes (field fields 0)) bad_magic
    guard (bytes_equal got_magic magic) bad_magic
    version ← or_fail (unsigned (field fields 1)) bad_version
    guard (version == 1) bad_version
    domain_tag ← or_fail (as_text (field fields 2)) invalid_tag
    guard (validate_domain_tag domain_tag) invalid_tag
    schema_id ← or_fail (as_text (field fields 3)) invalid_tag
    guard (validate_domain_tag schema_id) invalid_tag
    schema_version ← or_fail (unsigned (field fields 4)) bad_version
    guard (ltb schema_version (2 ^ 32)) bad_version
    ok (record {
      domain_tag = domain_tag;
      schema_id = schema_id;
      schema_version = schema_version;
      value = field fields 5;
    })
