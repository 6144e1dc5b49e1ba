-- ===== src/Reducer/Consumption.antt =====
-- What a consumption leaves of the stock (internal/csf/reducer/testresource.go).
use cote_ai_simulation.Base.{
  ℕ, ◌+◌, ◌-◌, ◌≡◌, ◌≤◌, ◌<◌, refl, Bool, true, false, ◌&&◌, not, ◌==◌, ltb, leb, arith, List, [],
  ◌∷◌, length, some, ◌>>=◌, sym, ◌∙◌, subst, Result, ok, bind-eq_ok, guard-then-eq_ok, ok-injective,
  map_err-eq_ok,
}
use cote_ai_simulation.Base.Bytes.{Bytes, literal, bytes_equal, bytes_equal_refl}
use cote_ai_simulation.Base.Int.{uint64_bound}
use cote_ai_simulation.Value.{Value, uint64, text, byte_string, list, as_32_bytes}
use cote_ai_simulation.Codec.{
  Library, canonical_bytes, strict_decode_envelope, normalize, normalize_text, contains_unassigned,
}
use cote_ai_simulation.Codec.Canonical.{IsNormalizer}
use cote_ai_simulation.Codec.ReadBack.{read_back, IsPlain, ReadsPlain}
use cote_ai_simulation.Codec.Envelopes.{strict_decode_envelope-canonical_bytes}
use cote_ai_simulation.Reducer.{
  Stock, StockError, stock_payload, stock_schema_id, stock_domain_tag, stock_variant, encode_stock,
  decode_stock, consume, invalid_stock, insufficient_stock, encoding, validate_stock_payload,
  not_encoded,
}

abbrev pub is_ascii : Bytes → Bool
is_ascii [] = true
is_ascii (c ∷ cs) = ltb c 128 && is_ascii cs

abbrev pub total : List ℕ → ℕ
total [] = 0
total (n ∷ ns) = n + total ns

-- What the reducer relies on in the Unicode and CBOR libraries: ASCII text is assigned and its own
-- normal form, and plain values are read back.
pub record ReadsStock (lib : Library) : Type 0 where
  pub code_points : (s : Bytes) → is_ascii s ≡ true → lib.code_points s ≡ some s
  pub nfc : (s : Bytes) → is_ascii s ≡ true → lib.nfc s ≡ s
  pub assigned : (s : Bytes) → is_ascii s ≡ true → contains_unassigned lib.unassigned s ≡ false
  pub normalizer : IsNormalizer lib
  pub plain : ReadsPlain lib

module _ (lib : Library) (h : ReadsStock lib) where
  normalize-ascii :
      (s : Bytes)
      → is_ascii s ≡ true
      → leb (length s) 1_048_576 ≡ true
      → normalize lib (text s) ≡ ok (text s)
  unfolding normalize normalize_text
  normalize-ascii s a l =
      rw (h.code_points s a, h.nfc s a) (ground (arith, h.code_points s a, h.assigned s a, l))

  normalize-stock_payload : (s : Stock) → normalize lib (stock_payload s) ≡ ok (stock_payload s)
  unfolding normalize
  normalize-stock_payload s =
      rw
        (
          normalize-ascii stock_variant refl refl,
          normalize-ascii (literal "inventory") refl refl,
          normalize-ascii (literal "last.resource") refl refl,
        )
        refl

  stock_payload-IsPlain : (s : Stock) → s.available < uint64_bound → IsPlain 31 (stock_payload s)
  unfolding IsPlain
  stock_payload-IsPlain s f = (
    omega arith,
    (tt, (omega arith, ((omega arith, ((omega arith, (tt, (tt, (f, tt)))), tt)), tt))),
  )

  strict_decode_envelope-stock :
      (s : Stock) (b : Bytes)
      → s.available < uint64_bound
      → canonical_bytes lib stock_domain_tag stock_schema_id 1 (stock_payload s) ≡ ok b
      → strict_decode_envelope lib b
        ≡ ok (record {
          domain_tag = stock_domain_tag;
          schema_id = stock_schema_id;
          schema_version = 1;
          value = stock_payload s;
        })
  unfolding read_back
  strict_decode_envelope-stock s b f c =
      strict_decode_envelope-canonical_bytes lib stock_domain_tag stock_schema_id 1
        (stock_payload s) (stock_payload s) b (normalize-stock_payload s) h.normalizer h.plain
        (omega arith) (normalize-ascii stock_domain_tag refl refl)
        (normalize-ascii stock_schema_id refl refl) (stock_payload-IsPlain s f) c

  module _ (sum256 : Bytes → Bytes) (digest_length : (b : Bytes) → length (sum256 b) ≡ 32) where
    abbrev typed_value : Bytes → List Value × Bytes
    typed_value b =
        (text stock_schema_id ∷ uint64 1 ∷ byte_string b ∷ byte_string (sum256 b) ∷ [], sum256 b)

    -- An encoded stock, its number an uint64, is decoded as it was, and its digest is of 32 bytes.
    pub decode_stock-encode_stock :
        (s : Stock) (v : List Value) (dg : Bytes)
        → s.available < uint64_bound
        → encode_stock lib sum256 s ≡ ok (v, dg)
        → (decode_stock lib sum256 (list v) ≡ ok s) × (length dg ≡ 32)
    unfolding encode_stock decode_stock validate_stock_payload bytes_equal as_32_bytes
    decode_stock-encode_stock s v dg f e =
        let (b, c, e₁) =
          bind-eq_ok
            (encoding (canonical_bytes lib stock_domain_tag stock_schema_id 1 (stock_payload s))) _
            e in
        let q : typed_value b ≡ (v, dg) = ok-injective e₁ in
        let d = strict_decode_envelope-stock s b f (
          map_err-eq_ok not_encoded
            (canonical_bytes lib stock_domain_tag stock_schema_id 1 (stock_payload s)) c) in
        subst (λ x. (decode_stock lib sum256 (list x.0) ≡ ok s) × (length x.1 ≡ 32)) q
          (rw (d, digest_length b, bytes_equal_refl (sum256 b)) refl, digest_length b)

    -- What an accepted consumption takes, and what it leaves for the next one.
    pub record Consumed (s : Stock) (amount : ℕ) (v : List Value) : Type 0 where
      pub some_taken : 0 < amount
      pub covered : amount ≤ s.available
      pub left : decode_stock lib sum256 (list v) ≡ ok (record { available = s.available - amount })

    -- From a stock that decodes to a number below 2^64, an accepted consumption takes an amount
    -- above 0 that is available, and its result decodes to what is left.
    pub consume-Consumed :
        (before : List Value) (s : Stock) (amount : ℕ) (v : List Value) (dg : Bytes)
        → s.available < uint64_bound
        → decode_stock lib sum256 (list before) ≡ ok s
        → consume lib sum256 before amount ≡ ok (v, dg)
        → Consumed s amount v
    unfolding consume
    consume-Consumed before s amount v dg f d e =
        let (z, e₁) = guard-then-eq_ok (not (amount == 0)) invalid_stock _ e in
        let (s', d', e₂) = bind-eq_ok (decode_stock lib sum256 (list before)) _ e₁ in
        let (c, e₃) = guard-then-eq_ok (not (ltb s'.available amount)) insufficient_stock _ e₂ in
        let q : s' ≡ s = ok-injective (sym d' ∙ d) in
        let c' : not (ltb s.available amount) ≡ true =
          subst (λ (x : Stock). not (ltb x.available amount) ≡ true) q c in
        let e' =
          subst
            (λ (x : Stock).
              encode_stock lib sum256 (record { available = x.available - amount }) ≡ ok (v, dg))
            q e₃ in
        record {
          some_taken = ground (arith, z);
          covered = ground (arith, c');
          left = (decode_stock-encode_stock _ v dg (omega arith) e').0;
        }

    -- The consumptions of a list of amounts, one after the other.
    unfoldable pub consume_each : List Value → List ℕ → Result StockError (List Value)
    consume_each before [] = ok before
    consume_each before (amount ∷ amounts) = do
      after ← consume lib sum256 before amount
      consume_each after.0 amounts

    -- After any accepted sequence of consumptions, what was taken and what is left make up the
    -- first stock.
    pub consume_each-total :
        (before : List Value) (s : Stock) (amounts : List ℕ) (after : List Value)
        → s.available < uint64_bound
        → decode_stock lib sum256 (list before) ≡ ok s
        → consume_each before amounts ≡ ok after
        → (t : Stock) × (decode_stock lib sum256 (list after) ≡ ok t)
          × (t.available + total amounts ≡ s.available)
    unfolding consume_each
    consume_each-total before s [] after f d e =
        (s, subst (λ x. decode_stock lib sum256 (list x) ≡ ok s) (ok-injective e) d, omega arith)
    consume_each-total before s (amount ∷ amounts) after f d e =
        let ((v, dg), c, e₁) = bind-eq_ok (consume lib sum256 before amount) _ e in
        let r = consume-Consumed before s amount v dg f d c in
        let (t, g, m) =
          consume_each-total v (record { available = s.available - amount }) amounts after
            (omega arith) r.left e₁ in
        let k = r.covered in (t, g, omega arith)
