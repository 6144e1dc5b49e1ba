-- ===== src/Tests/Stocks.antt =====
-- Examples of the test resource's reducer (internal/csf/reducer/testresource.go), with a codec of
-- the envelopes of stocks.
use cote_ai_simulation.Base.{ℕ, ◌+◌, ◌≡◌, refl, false, List, [], ◌∷◌, ok, length, arith}
use cote_ai_simulation.Base.Bytes.{Bytes}
use cote_ai_simulation.Value.{Value, text, uint64, byte_string, list}
use cote_ai_simulation.Codec.{
  Library, contains_unassigned, search_unassigned, canonical_bytes, normalize, normalize_text,
}
use cote_ai_simulation.Domain.Patterns.{validate_domain_tag}
use cote_ai_simulation.Reducer.{Stock, stock_schema_id, encode_stock, decode_stock, consume}
use cote_ai_simulation.Base.Bytes.{bytes_equal}
use cote_ai_simulation.Codec.ReadBack.{read_back}
use cote_ai_simulation.Reducer.{stock_domain_tag, stock_payload}
use cote_ai_simulation.Tests.Indexed.{
  indexed, indexed-ReadsPlain, indexed-IsNormalizer, place, same,
}
use cote_ai_simulation.Reducer.Consumption.{
  ReadsStock, Consumed, decode_stock-encode_stock, consume-Consumed, consume_each,
  consume_each-total, total,
}

-- The envelope of a stock.
abbrev stock_envelope : ℕ → Value
stock_envelope n = list (
    byte_string (67 ∷ 83 ∷ 70 ∷ 0 ∷ [])
    ∷ uint64 1
    ∷ text stock_domain_tag
    ∷ text stock_schema_id
    ∷ uint64 1
    ∷ stock_payload (record { available = n })
    ∷ [])

abbrev envelopes : List Value
envelopes = stock_envelope 0 ∷ stock_envelope 4 ∷ stock_envelope 7 ∷ []

abbrev stocks : Library
stocks = indexed envelopes

nothing_unassigned : (s : Bytes) → contains_unassigned [] s ≡ false
unfolding contains_unassigned search_unassigned
nothing_unassigned [] = refl
nothing_unassigned (c ∷ cs) = nothing_unassigned cs

stocks-ReadsStock : ReadsStock stocks
stocks-ReadsStock = record {
  code_points = λ s h. refl;
  nfc = λ s h. refl;
  assigned = λ s h. nothing_unassigned s;
  normalizer = indexed-IsNormalizer envelopes;
  plain = indexed-ReadsPlain envelopes;
}

-- A digest of 32 bytes.
abbrev digest_of : Bytes → Bytes
digest_of b =
    0
    ∷ 0
    ∷ 0
    ∷ 0
    ∷ 0
    ∷ 0
    ∷ 0
    ∷ 0
    ∷ 0
    ∷ 0
    ∷ 0
    ∷ 0
    ∷ 0
    ∷ 0
    ∷ 0
    ∷ 0
    ∷ 0
    ∷ 0
    ∷ 0
    ∷ 0
    ∷ 0
    ∷ 0
    ∷ 0
    ∷ 0
    ∷ 0
    ∷ 0
    ∷ 0
    ∷ 0
    ∷ 0
    ∷ 0
    ∷ 0
    ∷ length b
    ∷ []

digest_length : (b : Bytes) → length (digest_of b) ≡ 32
digest_length b = refl

abbrev stock : ℕ → Stock
stock n = record { available = n }

-- The typed value of the stock at a place of the table.
abbrev stored : ℕ → List Value
stored n =
    text stock_schema_id ∷ uint64 1 ∷ byte_string (n ∷ []) ∷ byte_string (digest_of (n ∷ [])) ∷ []

seven_encoded : encode_stock stocks digest_of (stock 7) ≡ ok (stored 2, digest_of (2 ∷ []))
unfolding encode_stock canonical_bytes normalize normalize_text validate_domain_tag
    contains_unassigned search_unassigned place same read_back bytes_equal
seven_encoded = refl

seven_stored : decode_stock stocks digest_of (list (stored 2)) ≡ ok (stock 7)
seven_stored =
    (decode_stock-encode_stock stocks stocks-ReadsStock digest_of digest_length (stock 7) (stored 2)
      (digest_of (2 ∷ [])) (omega arith) seven_encoded).0

decode_stock-encode_stock_example :
    (decode_stock stocks digest_of (list (stored 2)) ≡ ok (stock 7))
    × (length (digest_of (2 ∷ [])) ≡ 32)
decode_stock-encode_stock_example =
    decode_stock-encode_stock stocks stocks-ReadsStock digest_of digest_length (stock 7) (stored 2)
      (digest_of (2 ∷ [])) (omega arith) seven_encoded

three_consumed : consume stocks digest_of (stored 2) 3 ≡ ok (stored 1, digest_of (1 ∷ []))
unfolding consume encode_stock canonical_bytes normalize normalize_text validate_domain_tag
    contains_unassigned search_unassigned place same read_back bytes_equal
three_consumed = rw seven_stored refl

consume-Consumed_example :
    Consumed stocks stocks-ReadsStock digest_of digest_length (stock 7) 3 (stored 1)
consume-Consumed_example =
    consume-Consumed stocks stocks-ReadsStock digest_of digest_length (stored 2) (stock 7) 3
      (stored 1) (digest_of (1 ∷ [])) (omega arith) seven_stored three_consumed

four_consumed : consume stocks digest_of (stored 1) 4 ≡ ok (stored 0, digest_of (0 ∷ []))
unfolding consume encode_stock canonical_bytes normalize normalize_text validate_domain_tag
    contains_unassigned search_unassigned place same read_back bytes_equal
four_consumed =
    rw
      ((consume-Consumed stocks stocks-ReadsStock digest_of digest_length (stored 2) (stock 7) 3
        (stored 1) (digest_of (1 ∷ [])) (omega arith) seven_stored three_consumed).left)
      refl

both_consumed :
    consume_each stocks stocks-ReadsStock digest_of digest_length (stored 2) (3 ∷ 4 ∷ [])
    ≡ ok (stored 0)
unfolding consume_each
both_consumed = rw (three_consumed, four_consumed) refl

consume_each-total_example :
    (t : Stock) × (decode_stock stocks digest_of (list (stored 0)) ≡ ok t)
    × (t.available + total (3 ∷ 4 ∷ []) ≡ 7)
consume_each-total_example =
    consume_each-total stocks stocks-ReadsStock digest_of digest_length (stored 2) (stock 7)
      (3 ∷ 4 ∷ []) (stored 0) (omega arith) seven_stored both_consumed
