-- ===== src/Trigger/Wire/RoundTrip.antt =====
-- The bytes of a runtime decode to the runtime they were encoded from
-- (internal/csf/trigger/runtime_codec.go).
use cote_ai_simulation.Base.{
  List, ◌<◌, ◌≡◌, ◌↔◌, refl, subst₂, Bool, true, false, arith, some, ok, or_fail, or_fail-eq_ok,
  bind-eq_ok, guard-then-eq_ok, ok-injective, map_err-eq_ok,
}
use cote_ai_simulation.Base.Bytes.{Bytes, bytes_equal, bytes_equal-eq, bytes_equal_refl}
use cote_ai_simulation.Base.Int.{ℤ, pos, negsuc, IsInt64, uint64_bound}
use cote_ai_simulation.Value.{Value, as_array, signed_int64}
use cote_ai_simulation.Codec.{
  Library, canonical_payload, strict_decode_payload, normalize, encode_failed,
}
use cote_ai_simulation.Codec.ReadBack.{
  as_32_bytes-byte_string, read_back, IsPlain, max_depth, ReadsPlain, strict_decode_normal,
}
use cote_ai_simulation.Trigger.{Runtime}
use cote_ai_simulation.Trigger.Wire.{
  bad_runtime, non_canonical_runtime, of_codec, last_value, next_value, runtime_value,
  runtime_bytes, decode_last, decode_next, decode_runtime_fields, decode_runtime, IsRuntime,
  codec_error,
}

module _ (lib : Library) where
  normalize-last_value :
      (has last : Bool) → normalize lib (last_value has last) ≡ ok (last_value has last)
  unfolding normalize
  normalize-last_value true last = refl
  normalize-last_value false last = refl

  normalize-next_value :
      (has : Bool) (n : ℤ) → normalize lib (next_value has n) ≡ ok (next_value has n)
  unfolding normalize
  normalize-next_value true n = refl
  normalize-next_value false n = refl

  normalize-runtime_value : (r : Runtime) → normalize lib (runtime_value r) ≡ ok (runtime_value r)
  unfolding normalize
  normalize-runtime_value r =
      rw
        (
          normalize-last_value r.has_last r.last,
          normalize-next_value r.has_next_repeat r.next_repeat,
        )
        refl

decode_last-read_back :
    (has last : Bool)
    → (has ≡ false → last ≡ false)
    → (opt : List Value) × (as_array (read_back (last_value has last)) ≡ some opt)
      × (decode_last opt ≡ ok (has, last))
unfolding read_back decode_last
decode_last-read_back true last h = (_, refl, refl)
decode_last-read_back false last h = (_, refl, rw (h refl) refl)

decode_next-read_back :
    (has : Bool) (n : ℤ)
    → IsInt64 n
    → (has ≡ false → n ≡ pos 0)
    → (opt : List Value) × (as_array (read_back (next_value has n)) ≡ some opt)
      × (decode_next opt ≡ ok (has, n))
unfolding read_back decode_next signed_int64
decode_next-read_back true (pos n) f h = (_, refl, ground (arith, f.0))
decode_next-read_back true (negsuc n) f h = (_, refl, refl)
decode_next-read_back false n f h = (_, refl, rw (h refl) refl)

decode_fields-read_back :
    (r : Runtime)
    → IsRuntime r
    → (fields : List Value) × (as_array (read_back (runtime_value r)) ≡ some fields)
      × (decode_runtime_fields fields ≡ ok r)
unfolding read_back decode_runtime_fields
decode_fields-read_back r h =
    let (opt, a, d) = decode_last-read_back r.has_last r.last h.no_last in
    let (opt', a', d') =
      decode_next-read_back r.has_next_repeat r.next_repeat h.next_fits h.no_next in
    (
      _,
      refl,
      rw (as_32_bytes-byte_string r.definition_id h.id_fits, h.version_fits, a, d, a', d') refl,
    )

last_value-IsPlain : (has last : Bool) → IsPlain 31 (last_value has last)
unfolding IsPlain
last_value-IsPlain true last = (omega arith, (omega arith, (tt, tt)))
last_value-IsPlain false last = (omega arith, (omega arith, tt))

next_value-IsPlain : (has : Bool) (n : ℤ) → IsInt64 n → IsPlain 31 (next_value has n)
unfolding IsPlain
next_value-IsPlain true n h = (omega arith, (omega arith, (h, tt)))
next_value-IsPlain false n h = (omega arith, (omega arith, tt))

runtime_value-IsPlain : (r : Runtime) → IsRuntime r → IsPlain max_depth (runtime_value r)
unfolding IsPlain
runtime_value-IsPlain r h =
    let version : r.version < uint64_bound = ground (arith, h.version_fits) in
    (
      omega arith,
      (
        tt,
        (
          version,
          (
            last_value-IsPlain r.has_last r.last,
            (
              tt,
              (
                tt,
                (
                  h.count_fits,
                  (
                    next_value-IsPlain r.has_next_repeat r.next_repeat h.next_fits,
                    (h.revision_fits, tt),
                  ),
                ),
              ),
            ),
          ),
        ),
      ),
    )

module _ (lib : Library) where
  strict_decode_payload-runtime :
      (r : Runtime) (b : Bytes)
      → ReadsPlain lib
      → IsRuntime r
      → canonical_payload lib (runtime_value r) ≡ ok b
      → strict_decode_payload lib b ≡ ok (read_back (runtime_value r))
  unfolding canonical_payload
  strict_decode_payload-runtime r b l h e =
      let n = normalize-runtime_value lib r in
      strict_decode_normal lib (runtime_value r) b l (runtime_value-IsPlain r h) n
        (or_fail-eq_ok _ encode_failed (rw n at e))

  accepts :
      (r : Runtime) (b : Bytes)
      → ReadsPlain lib
      → IsRuntime r
      → runtime_bytes lib r ≡ ok b
      → decode_runtime lib b ≡ ok r
  unfolding decode_runtime runtime_bytes
  accepts r b l h e =
      let c = map_err-eq_ok codec_error (canonical_payload lib (runtime_value r)) e in
      let (fields, a, d) = decode_fields-read_back r h in
      rw (strict_decode_payload-runtime r b l h c, a, d, c, bytes_equal_refl b) refl

  accepted : (r : Runtime) (b : Bytes) → decode_runtime lib b ≡ ok r → runtime_bytes lib r ≡ ok b
  unfolding decode_runtime
  accepted r b h =
      let (v, p, h₁) = bind-eq_ok (of_codec (strict_decode_payload lib b)) _ h in
      let (fields, a, h₂) = bind-eq_ok (or_fail (as_array v) bad_runtime) _ h₁ in
      let (s, d, h₃) = bind-eq_ok (decode_runtime_fields fields) _ h₂ in
      let (c, e, h₄) = bind-eq_ok (runtime_bytes lib s) _ h₃ in
      let (q, h₅) = guard-then-eq_ok (bytes_equal c b) non_canonical_runtime _ h₄ in
      subst₂ (λ (x : Runtime) (y : Bytes). runtime_bytes lib x ≡ ok y) (ok-injective h₅)
        (bytes_equal-eq c b q) e

  -- For a runtime whose numbers fit their types, whose version is not 0, and whose last predicate is
  -- false and next repetition 0 where they are marked absent, DecodeRuntime returns it exactly from
  -- the bytes that RuntimeBytes writes, where the CBOR library reads plain values back.
  pub decode_runtime_iff :
      (r : Runtime) (b : Bytes)
      → ReadsPlain lib
      → IsRuntime r
      → (decode_runtime lib b ≡ ok r) ↔ (runtime_bytes lib r ≡ ok b)
  decode_runtime_iff r b l h = (accepted r b, accepts r b l h)
