-- ===== src/Codec/Envelopes.antt =====
-- An envelope that was encoded is decoded as it was (internal/csf/codec/codec.go, `CanonicalBytes` and
-- `StrictDecodeEnvelope`).
use cote_ai_simulation.Base.{
  ℕ, ◌≡◌, ◌<◌, refl, sym, ap, ◌∙◌, subst, true, arith, [], ◌∷◌, length, Option, some, none, Result,
  ok, ◌^◌, bind-eq_ok, guard-then-eq_ok, or_fail, ok-injective, leb, ltb, guard, ◌>>=◌, ◌>>◌,
}
use cote_ai_simulation.Base.Bytes.{Bytes, bytes_equal}
use cote_ai_simulation.Value.{Value, text, byte_string, uint64, list}
use cote_ai_simulation.Domain.Patterns.{validate_domain_tag}
use cote_ai_simulation.Codec.{
  Library, CodecError, canonical_bytes, strict_decode_envelope, normalize, encode_failed,
  invalid_tag, envelope_too_long, magic,
}
use cote_ai_simulation.Codec.Canonical.{IsNormalizer, normalize_idempotent}
use cote_ai_simulation.Codec.ReadBack.{
  read_back, IsPlain, IsNormal, ReadsPlain, strict_decode_normal,
}

-- The fields that are encoded.
abbrev pub envelope_value : Library → Bytes → Bytes → ℕ → Value → Value
envelope_value lib tag schema version v =
    list (byte_string (magic lib) ∷ uint64 1 ∷ text tag ∷ text schema ∷ uint64 version ∷ v ∷ [])

abbrev capped : Bytes → Result CodecError Bytes
capped encoded = do guard (leb (length encoded) 16_777_216) envelope_too_long; ok encoded

written : (o : Option Bytes) (b : Bytes) → (or_fail o encode_failed >>= capped) ≡ ok b → o ≡ some b
written none b e = cc
written (some x) b e =
    ap some
      (ok-injective (guard-then-eq_ok (leb (length x) 16_777_216) envelope_too_long (ok x) e).1)

module _ (lib : Library) (tag schema : Bytes) (version : ℕ) (v w : Value) (b : Bytes)
    (n : normalize lib v ≡ ok w) where
  encoded_as :
      canonical_bytes lib tag schema version v ≡ ok b
      → (validate_domain_tag tag ≡ true)
        × (validate_domain_tag schema ≡ true)
        × (lib.marshal (envelope_value lib tag schema version w) ≡ some b)
  unfolding canonical_bytes
  encoded_as c =
      let (t, c₁) = guard-then-eq_ok (validate_domain_tag tag) invalid_tag _ c in
      let (u, c₂) = guard-then-eq_ok (validate_domain_tag schema) invalid_tag _ c₁ in
      let (x, m, c₃) = bind-eq_ok (normalize lib v) _ c₂ in
      let e : x ≡ w = ok-injective (sym m ∙ n) in
      (
        t,
        u,
        written _ b (
            subst
              (λ y.
                (or_fail (lib.marshal (envelope_value lib tag schema version y)) encode_failed
                  >>= capped)
                ≡ ok b)
              e c₃),
      )

  envelope-IsNormal :
      IsNormal lib (text tag)
      → IsNormal lib (text schema)
      → IsNormal lib w
      → IsNormal lib (envelope_value lib tag schema version w)
  unfolding normalize
  envelope-IsNormal t s p = rw (t, s, p) refl

  -- The bytes that CanonicalBytes writes for a tag, a schema and a version, in normal form and fitting
  -- its type, and a value whose normal form is plain, are decoded by StrictDecodeEnvelope to these and
  -- the normal form, with every integer that is not negative an uint64.
  pub strict_decode_envelope-canonical_bytes :
      IsNormalizer lib
      → ReadsPlain lib
      → version < 2 ^ 32
      → IsNormal lib (text tag)
      → IsNormal lib (text schema)
      → IsPlain 31 w
      → canonical_bytes lib tag schema version v ≡ ok b
      → strict_decode_envelope lib b
        ≡ ok (record {
          domain_tag = tag;
          schema_id = schema;
          schema_version = version;
          value = read_back w;
        })
  unfolding strict_decode_envelope read_back IsPlain bytes_equal
  strict_decode_envelope-canonical_bytes u l f t s p c =
      let (g, k, m) = encoded_as c in
      let d =
        strict_decode_normal lib (envelope_value lib tag schema version w) b l
          (omega arith, (tt, (omega arith, (tt, (tt, (omega arith, (p, tt)))))))
          (envelope-IsNormal t s (normalize_idempotent lib u v w n)) m in
      let fits : ltb version (2 ^ 32) ≡ true = ground arith in rw (d, g, k, fits) refl
