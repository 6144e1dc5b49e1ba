-- ===== src/Reducer.antt =====
-- The test resource's reducer (internal/csf/reducer/testresource.go): the typed value of a stock,
-- and the consumption of an amount. SHA-256 is a parameter.
pub mod Consumption
use cote_ai_simulation.Base.{
  ℕ, ◌-◌, Bool, false, not, ◌==◌, ltb, List, [], ◌∷◌, length, Result, ok, err, ◌>>=◌, ◌>>◌, guard,
  or_fail, map_err,
}
use cote_ai_simulation.Base.Bytes.{Bytes, literal, bytes_equal}
use cote_ai_simulation.Value.{
  Value, uint64, text, byte_string, list, as_array, as_bytes, as_uint64, as_32_bytes, is_literal,
  field,
}
use cote_ai_simulation.Codec.{Library, CodecError, canonical_bytes, strict_decode_envelope}

abbrev pub stock_schema_id : Bytes
stock_schema_id = literal "cote.csf.schema.typed-value"

abbrev pub stock_domain_tag : Bytes
stock_domain_tag = literal "cote.csf.hash.world-state"

abbrev pub stock_variant : Bytes
stock_variant = literal "testresource.stock.v1"

pub data StockError : Type 0 where
  invalid_stock insufficient_stock : StockError
  not_encoded : CodecError → StockError

pub record Stock : Type 0 where
  pub available : ℕ

-- `v == uint64(1)` on an `any`.
abbrev is_one : Value → Bool
is_one (uint64 n) = n == 1
is_one _ = false

-- `ValidateStockPayload`, with the number of the one row, which `DecodeStock` takes out of an
-- accepted payload.
unfoldable pub validate_stock_payload : Value → Result StockError ℕ
validate_stock_payload value = do
  p ← or_fail (as_array value) invalid_stock
  guard (length p == 3) invalid_stock
  guard (is_literal (field p 0) stock_variant) invalid_stock
  guard (is_one (field p 1)) invalid_stock
  rows ← or_fail (as_array (field p 2)) invalid_stock
  guard (length rows == 1) invalid_stock
  item ← or_fail (as_array (field rows 0)) invalid_stock
  guard (length item == 3) invalid_stock
  guard (is_literal (field item 0) (literal "inventory")) invalid_stock
  guard (is_literal (field item 1) (literal "last.resource")) invalid_stock
  or_fail (as_uint64 (field item 2)) invalid_stock

abbrev pub stock_payload : Stock → Value
stock_payload stock = list (
    text stock_variant
    ∷ uint64 1
    ∷ list (
        list (
          text (literal "inventory") ∷ text (literal "last.resource") ∷ uint64 stock.available ∷ [])
        ∷ [])
    ∷ [])

abbrev or_invalid {ℓ} : {A : Type ℓ} → Result CodecError A → Result StockError A
or_invalid r = map_err (λ _. invalid_stock) r

abbrev encoding {ℓ} : {A : Type ℓ} → Result CodecError A → Result StockError A
encoding r = map_err not_encoded r

module _ (lib : Library) (sum256 : Bytes → Bytes) where
  unfoldable pub encode_stock : Stock → Result StockError (List Value × Bytes)
  encode_stock stock = do
    inner ← encoding (canonical_bytes lib stock_domain_tag stock_schema_id 1 (stock_payload stock))
    let dg = sum256 inner
    ok (text stock_schema_id ∷ uint64 1 ∷ byte_string inner ∷ byte_string dg ∷ [], dg)

  unfoldable pub decode_stock : Value → Result StockError Stock
  decode_stock value = do
    typed ← or_fail (as_array value) invalid_stock
    guard (length typed == 4) invalid_stock
    guard (is_literal (field typed 0) stock_schema_id) invalid_stock
    guard (is_one (field typed 1)) invalid_stock
    raw ← or_fail (as_bytes (field typed 2)) invalid_stock
    hash ← or_fail (as_32_bytes (field typed 3)) invalid_stock
    env ← or_invalid (strict_decode_envelope lib raw)
    guard (bytes_equal env.domain_tag stock_domain_tag) invalid_stock
    guard (bytes_equal env.schema_id stock_schema_id) invalid_stock
    guard (env.schema_version == 1) invalid_stock
    available ← validate_stock_payload env.value
    guard (bytes_equal hash (sum256 raw)) invalid_stock
    ok (record { available = available })

  unfoldable pub consume : List Value → ℕ → Result StockError (List Value × Bytes)
  consume before amount = do
    guard (not (amount == 0)) invalid_stock
    stock ← decode_stock (list before)
    guard (not (ltb stock.available amount)) insufficient_stock
    encode_stock (record { available = stock.available - amount })
