-- ===== src/Tests/Codecs.antt =====
-- Examples of the canonical codec (internal/csf/codec).
use cote_ai_simulation.Tests.Toy.{read}
use cote_ai_simulation.Base.Bytes.{bytes_equal}
use cote_ai_simulation.Codec.{search_unassigned}
use cote_ai_simulation.Base.{
  ℕ, zero, suc, ◌≡◌, refl, true, List, [], ◌∷◌, some, ok, ◌↔◌, arith, ◌<◌, ◌≤◌,
}
use cote_ai_simulation.Base.Bytes.{Bytes}
use cote_ai_simulation.Value.{Value, uint64, text, list}
use cote_ai_simulation.Codec.{
  strict_decode_payload, canonical_payload, normalize, contains_unassigned, in_table,
}
use cote_ai_simulation.Codec.Canonical.{strict_decode_iff}
use cote_ai_simulation.Base.Int.{pos, negsuc}
use cote_ai_simulation.Base.Bytes.{literal}
use cote_ai_simulation.Value.{int64, uint32, byte_string}
use cote_ai_simulation.Domain.Patterns.{validate_domain_tag, match_string}
use cote_ai_simulation.Codec.{Library, normalize_text, canonical_bytes, strict_decode_envelope}
use cote_ai_simulation.Codec.ReadBack.{read_back, IsPlain, max_depth}
use cote_ai_simulation.Codec.Envelopes.{strict_decode_envelope-canonical_bytes}
use cote_ai_simulation.Tests.Indexed.{
  indexed, indexed-ReadsPlain, indexed-IsNormalizer, place, same,
}
use cote_ai_simulation.Codec.Unassigned.{IsTable, HasUnassigned, contains_unassigned_iff}
use cote_ai_simulation.Tests.Toy.{toy, encode}

abbrev pair : Value
pair = list (uint64 7 ∷ text (65 ∷ []) ∷ [])

abbrev pair_bytes : Bytes
pair_bytes = encode pair

pair_decoded : strict_decode_payload (toy (pair ∷ [])) pair_bytes ≡ ok pair
unfolding strict_decode_payload encode read bytes_equal canonical_payload normalize
    contains_unassigned search_unassigned
pair_decoded = refl

strict_decode_iff_example : (strict_decode_payload (toy (pair ∷ [])) pair_bytes ≡ ok pair) ↔ (
    ((toy (pair ∷ [])).unmarshal pair_bytes ≡ some pair)
    × (canonical_payload (toy (pair ∷ [])) pair ≡ ok pair_bytes))
strict_decode_iff_example = strict_decode_iff (toy (pair ∷ [])) pair_bytes pair

-- Integers of three Go types, and the same as they are read back.
abbrev numbers : Value
numbers = list (int64 (pos 7) ∷ int64 (negsuc 1) ∷ uint32 3 ∷ list (text (65 ∷ []) ∷ []) ∷ [])

abbrev numbers_back : Value
numbers_back = list (uint64 7 ∷ int64 (negsuc 1) ∷ uint64 3 ∷ list (text (65 ∷ []) ∷ []) ∷ [])

abbrev tag : Bytes
tag = literal "cote.csf.test"

abbrev schema : Bytes
schema = literal "cote.csf.schema.typed-value"

abbrev numbers_table : List Value
numbers_table =
    numbers_back
    ∷ list (
        byte_string (67 ∷ 83 ∷ 70 ∷ 0 ∷ [])
        ∷ uint64 1
        ∷ text tag
        ∷ text schema
        ∷ uint64 1
        ∷ numbers_back
        ∷ [])
    ∷ []

abbrev lib : Library
lib = indexed numbers_table

numbers-IsPlain : IsPlain 31 numbers
unfolding IsPlain
numbers-IsPlain = (
  omega arith,
  (
    (omega arith, omega arith),
    ((omega arith, omega arith), (omega arith, ((omega arith, (tt, tt)), tt))),
  ),
)

numbers-IsPlain_max : IsPlain max_depth numbers
unfolding IsPlain
numbers-IsPlain_max = (
  omega arith,
  (
    (omega arith, omega arith),
    ((omega arith, omega arith), (omega arith, ((omega arith, (tt, tt)), tt))),
  ),
)

numbers_normalized : normalize lib numbers ≡ ok numbers
unfolding normalize normalize_text contains_unassigned search_unassigned
numbers_normalized = refl

numbers_written : canonical_payload lib numbers ≡ ok (0 ∷ [])
unfolding canonical_payload normalize normalize_text contains_unassigned search_unassigned place
    same read_back bytes_equal
numbers_written = refl

envelope_written : canonical_bytes lib tag schema 1 numbers ≡ ok (1 ∷ [])
unfolding canonical_bytes normalize normalize_text validate_domain_tag match_string
    contains_unassigned search_unassigned place same read_back bytes_equal
envelope_written = refl

tag_normal : normalize lib (text tag) ≡ ok (text tag)
unfolding normalize normalize_text contains_unassigned search_unassigned
tag_normal = refl

schema_normal : normalize lib (text schema) ≡ ok (text schema)
unfolding normalize normalize_text contains_unassigned search_unassigned
schema_normal = refl

strict_decode_envelope-canonical_bytes_example :
    strict_decode_envelope lib (1 ∷ [])
    ≡ ok (record { domain_tag = tag; schema_id = schema; schema_version = 1; value = numbers_back })
unfolding read_back
strict_decode_envelope-canonical_bytes_example =
    strict_decode_envelope-canonical_bytes lib tag schema 1 numbers numbers (1 ∷ [])
      numbers_normalized (indexed-IsNormalizer numbers_table) (indexed-ReadsPlain numbers_table)
      (omega arith) tag_normal schema_normal numbers-IsPlain envelope_written

abbrev table : List (ℕ × ℕ)
table = (888, 889) ∷ (1000, 1002) ∷ []

table-IsTable : IsTable table
table-IsTable = record { ranges = ranges; ascends = ascends }
  where
    ranges : (i : ℕ) → i < 2 → (in_table table i).0 ≤ (in_table table i).1
    ranges zero h = omega arith
    ranges (suc zero) h = omega arith
    ranges (suc (suc i)) h = absurd (omega arith)

    ascends : (i j : ℕ) → i < j → j < 2 → (in_table table i).1 < (in_table table j).0
    ascends zero (suc zero) h k = omega arith
    ascends i (suc (suc j)) h k = absurd (omega arith)
    ascends (suc i) (suc zero) h k = absurd (omega arith)
    ascends i zero h k = absurd (omega arith)

contains_unassigned_iff_example :
    (contains_unassigned table (65 ∷ 1001 ∷ []) ≡ true) ↔ HasUnassigned table (65 ∷ 1001 ∷ [])
contains_unassigned_iff_example = contains_unassigned_iff table (65 ∷ 1001 ∷ []) table-IsTable
