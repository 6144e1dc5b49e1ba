-- ===== src/Codec/ReadBack.antt =====
-- What a canonical encoding is decoded to (internal/csf/codec/codec.go): the value, but for the Go
-- types of its integers.
use cote_ai_simulation.Base.{
  ℕ, zero, suc, arith, ◌≡◌, ◌≤◌, ◌<◌, refl, ap, ◌∙◌, length, some, ok, ◌^◌, bind-eq_ok,
  or_fail-eq_ok, ok-injective,
}
use cote_ai_simulation.Base.Bytes.{Bytes}
use cote_ai_simulation.Base.Int.{ℤ, pos, negsuc, IsInt64, uint64_bound}
use cote_ai_simulation.Value.{
  Value, Values, null, boolean, byte_string, text, float64, int64, uint64, uint32, signed_int64,
  as_32_bytes, array, mapping, nil, cons, items,
}
use cote_ai_simulation.Codec.{
  Library, canonical_payload, strict_decode_payload, normalize, normalize_items, encode_failed,
}
use cote_ai_simulation.Codec.Canonical.{strict_decode_iff, IsNormalizer, normalize_idempotent}

unfoldable mutual
  -- An integer that is not negative comes back as an uint64.
  pub read_back : Value → Value
  read_back (int64 (pos n)) = uint64 n
  read_back (uint32 n) = uint64 n
  read_back (array vs) = array (read_back_each vs)
  read_back v = v

  pub read_back_each : Values → Values
  read_back_each nil = nil
  read_back_each (cons v vs) = cons (read_back v) (read_back_each vs)

unfoldable mutual
  -- A value without maps and floats, nested to a depth at most, whose numbers fit their types.
  pub IsPlain : ℕ → Value → Type 0
  IsPlain depth null = Unit
  IsPlain depth (boolean b) = Unit
  IsPlain depth (byte_string b) = Unit
  IsPlain depth (text s) = Unit
  IsPlain depth (float64 bits) = ⊥
  IsPlain depth (int64 n) = IsInt64 n
  IsPlain depth (uint64 n) = n < uint64_bound
  IsPlain depth (uint32 n) = n < 2 ^ 32
  IsPlain zero (array vs) = ⊥
  IsPlain (suc depth) (array vs) = (length (items vs) ≤ 65535) × ArePlain depth vs
  IsPlain depth (mapping es) = ⊥

  pub ArePlain : ℕ → Values → Type 0
  ArePlain depth nil = Unit
  ArePlain depth (cons v vs) = IsPlain depth v × ArePlain depth vs

-- The nesting that the decoder's options allow is 64.
abbrev pub max_depth : ℕ
max_depth = 32

abbrev pub IsNormal : Library → Value → Type 0
IsNormal lib v = normalize lib v ≡ ok v

-- What is relied on in the CBOR library: it reads a plain value in normal form back, and an integer
-- is written the same with either type.
pub record ReadsPlain (lib : Library) : Type 0 where
  pub reads :
      (v : Value) (b : Bytes)
      → IsPlain max_depth v
      → IsNormal lib v
      → lib.marshal v ≡ some b
      → lib.unmarshal b ≡ some (read_back v)
  pub writes_alike :
      (v : Value) → IsPlain max_depth v → IsNormal lib v → lib.marshal (read_back v) ≡ lib.marshal v

pub as_32_bytes-byte_string : (b : Bytes) → length b ≡ 32 → as_32_bytes (byte_string b) ≡ some b
unfolding as_32_bytes
as_32_bytes-byte_string b h = rw h refl

pub signed_int64-read_back : (n : ℤ) → IsInt64 n → signed_int64 (read_back (int64 n)) ≡ some n
unfolding signed_int64 read_back
signed_int64-read_back (pos n) h = ground (arith, h.0)
signed_int64-read_back (negsuc n) h = refl

cons_eq : {v w : Value} {vs ws : Values} → cons v vs ≡ cons w ws → (v ≡ w) × (vs ≡ ws)
cons_eq h = (cc, cc)

array_eq : {vs ws : Values} → array vs ≡ array ws → vs ≡ ws
array_eq h = cc

module _ (lib : Library) where
  array-IsNormal : (vs : Values) → IsNormal lib (array vs) → normalize_items lib vs ≡ ok vs
  unfolding normalize
  array-IsNormal vs h =
      let (ws, e, h₁) = bind-eq_ok (normalize_items lib vs) _ h in
      e ∙ ap ok (array_eq (ok-injective h₁))

  cons-IsNormal :
      (v : Value) (vs : Values)
      → normalize_items lib (cons v vs) ≡ ok (cons v vs)
      → IsNormal lib v × (normalize_items lib vs ≡ ok vs)
  unfolding normalize
  cons-IsNormal v vs h =
      let (w, e, h₁) = bind-eq_ok (normalize lib v) _ h in
      let (ws, f, h₂) = bind-eq_ok (normalize_items lib vs) _ h₁ in
      let (p, q) = cons_eq (ok-injective h₂) in (e ∙ ap ok p, f ∙ ap ok q)

  mutual
    unfolding read_back normalize

    -- What is read back of a normal form is a normal form.
    pub read_back-IsNormal : (v : Value) → IsNormal lib v → IsNormal lib (read_back v)
    read_back-IsNormal null h = h
    read_back-IsNormal (boolean b) h = h
    read_back-IsNormal (byte_string b) h = h
    read_back-IsNormal (text s) h = h
    read_back-IsNormal (float64 bits) h = h
    read_back-IsNormal (int64 (pos n)) h = refl
    read_back-IsNormal (int64 (negsuc n)) h = h
    read_back-IsNormal (uint64 n) h = h
    read_back-IsNormal (uint32 n) h = refl
    read_back-IsNormal (array vs) h = rw (read_back_each-normal vs (array-IsNormal vs h)) refl
    read_back-IsNormal (mapping es) h = h

    read_back_each-normal :
        (vs : Values)
        → normalize_items lib vs ≡ ok vs
        → normalize_items lib (read_back_each vs) ≡ ok (read_back_each vs)
    read_back_each-normal nil h = refl
    read_back_each-normal (cons v vs) h =
        let (e, f) = cons-IsNormal v vs h in
        rw (read_back-IsNormal v e, read_back_each-normal vs f) refl

  -- The canonical bytes of a plain value in normal form are strictly decoded to what is read back.
  pub strict_decode_normal :
      (v : Value) (b : Bytes)
      → ReadsPlain lib
      → IsPlain max_depth v
      → IsNormal lib v
      → lib.marshal v ≡ some b
      → strict_decode_payload lib b ≡ ok (read_back v)
  unfolding canonical_payload
  strict_decode_normal v b l p n m =
      (strict_decode_iff lib b (read_back v)).1
        (l.reads v b p n m, rw (read_back-IsNormal v n, l.writes_alike v p n, m) refl)

  -- The canonical bytes of a value whose normal form is plain are strictly decoded to the normal
  -- form, with every integer that is not negative an uint64.
  pub strict_decode_payload-canonical_payload :
      (v w : Value) (b : Bytes)
      → IsNormalizer lib
      → ReadsPlain lib
      → normalize lib v ≡ ok w
      → IsPlain max_depth w
      → canonical_payload lib v ≡ ok b
      → strict_decode_payload lib b ≡ ok (read_back w)
  unfolding canonical_payload
  strict_decode_payload-canonical_payload v w b u l n p e =
      strict_decode_normal w b l p (normalize_idempotent lib u v w n)
        (or_fail-eq_ok _ encode_failed (rw n at e))
