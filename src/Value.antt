-- ===== src/Value.antt =====
-- The values that the Go code passes as `any`, in the kinds that the canonical codec knows
-- (internal/csf/codec/codec.go): the results of a decode, and what is handed to an encode.
use cote_ai_simulation.Base.{
  ℕ, Bool, false, ◌==◌, ltb, if◌then◌else◌, List, [], ◌∷◌, Option, some, none, length, get_elem?,
}
use cote_ai_simulation.Base.Bytes.{Bytes, bytes_equal}
use cote_ai_simulation.Base.Int.{ℤ, pos, int64_bound}

-- A string is `text` and a []byte is `byte_string`; a float64 is given by its IEEE 754 bits; an
-- integer keeps its Go type, since a type assertion and `==` on `any` see it.
mutual
  pub data Value : Type 0 where
    null : Value
    boolean : Bool → Value
    byte_string : Bytes → Value
    text : Bytes → Value
    float64 : ℕ → Value
    int64 : ℤ → Value
    uint64 : ℕ → Value
    uint32 : ℕ → Value
    array : Values → Value
    mapping : Entries → Value

  pub data Values : Type 0 where
    nil : Values
    cons : Value → Values → Values

  pub data Entries : Type 0 where
    empty : Entries
    entry : Value → Value → Entries → Entries

abbrev pub values : List Value → Values
values [] = nil
values (v ∷ vs) = cons v (values vs)

abbrev pub items : Values → List Value
items nil = []
items (cons v vs) = v ∷ items vs

-- `[]any{...}`
abbrev pub list : List Value → Value
list vs = array (values vs)

-- The type assertions `v.(T)`.
abbrev pub as_bytes : Value → Option Bytes
as_bytes (byte_string b) = some b
as_bytes _ = none

abbrev pub as_text : Value → Option Bytes
as_text (text s) = some s
as_text _ = none

abbrev pub as_bool : Value → Option Bool
as_bool (boolean b) = some b
as_bool _ = none

abbrev pub as_uint64 : Value → Option ℕ
as_uint64 (uint64 n) = some n
as_uint64 _ = none

abbrev pub as_array : Value → Option (List Value)
as_array (array vs) = some (items vs)
as_array _ = none

-- A signed integer, which the decoder yields as an uint64 where it is not negative
-- (`signedInt64`, `decodedInstant`, `asInstant`, `signed` and `signedInstant` of the packages).
unfoldable pub signed_int64 : Value → Option ℤ
signed_int64 (int64 n) = some n
signed_int64 (uint64 n) = if ltb n int64_bound then some (pos n) else none
signed_int64 _ = none

-- `fields[i]` behind a test of the length.
abbrev pub field : List Value → ℕ → Value
field vs i = elim (get_elem? vs i) [ none ↦ null | some v ↦ v ]

-- `v == "literal"` on an `any`.
abbrev pub is_literal : Value → Bytes → Bool
is_literal (text s) l = bytes_equal s l
is_literal _ l = false

-- `v == uint64(n)` on an `any`.
abbrev pub is_uint64 : Value → ℕ → Bool
is_uint64 v n = elim (as_uint64 v) [ none ↦ false | some m ↦ m == n ]

-- `bytes, ok := v.([]byte); ok && len(bytes) == 32`
unfoldable pub as_32_bytes : Value → Option Bytes
as_32_bytes (byte_string b) = if length b == 32 then some b else none
as_32_bytes _ = none
