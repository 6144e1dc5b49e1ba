-- ===== src/Trigger/Wire.antt =====
-- internal/csf/trigger/runtime_codec.go: the canonical bytes of the runtime of a trigger.
pub mod RoundTrip
pub mod Absent
use cote_ai_simulation.Base.{
  ℕ, ◌≡◌, ◌↔◌, ◌<◌, refl, sym, ap, ◌∙◌, subst, Bool, true, false, ◌&&◌, not, arith, ltb, ◌==◌,
  if◌then◌else◌, List, [], ◌∷◌, length, some, Result, ok, err, ◌>>=◌, ◌>>◌, guard, or_fail,
  or_fail-eq_ok, bind-eq_ok, guard-then-eq_ok, ok-injective, ◌^◌, map_err,
}
use cote_ai_simulation.Base.Bytes.{Bytes, bytes_equal, bytes_equal-eq, bytes_equal_refl}
use cote_ai_simulation.Base.Int.{ℤ, pos, negsuc, IsInt64, uint64_bound}
use cote_ai_simulation.Value.{
  Value, Values, boolean, byte_string, int64, uint64, array, nil, cons, list, as_array, as_bool,
  as_uint64, as_32_bytes, signed_int64, field, is_uint64,
}
use cote_ai_simulation.Codec.{
  Library, CodecError, canonical_payload, strict_decode_payload, normalize, encode_failed,
}
use cote_ai_simulation.Codec.Canonical.{strict_decode_iff}
use cote_ai_simulation.Trigger.{Runtime}

pub data RuntimeError : Type 0 where
  codec_error : CodecError → RuntimeError
  bad_runtime non_canonical_runtime : RuntimeError

abbrev of_codec {ℓ} : {A : Type ℓ} → Result CodecError A → Result RuntimeError A
of_codec r = map_err codec_error r

-- `last` of `RuntimeBytes`.
abbrev pub last_value : Bool → Bool → Value
last_value has last = if has then list (uint64 1 ∷ boolean last ∷ []) else list (uint64 0 ∷ [])

-- `next` of `RuntimeBytes`.
abbrev pub next_value : Bool → ℤ → Value
next_value has next = if has then list (uint64 1 ∷ int64 next ∷ []) else list (uint64 0 ∷ [])

abbrev pub runtime_value : Runtime → Value
runtime_value r = list (
    byte_string r.definition_id
    ∷ uint64 r.version
    ∷ last_value r.has_last r.last
    ∷ boolean r.armed
    ∷ boolean r.exhausted
    ∷ uint64 r.activation_count
    ∷ next_value r.has_next_repeat r.next_repeat
    ∷ uint64 r.evaluated_through
    ∷ [])

-- `RuntimeBytes`
unfoldable pub runtime_bytes : Library → Runtime → Result RuntimeError Bytes
runtime_bytes lib r = of_codec (canonical_payload lib (runtime_value r))

-- The option of the last predicate: whether there is one, and its value.
unfoldable pub decode_last : List Value → Result RuntimeError (Bool × Bool)
decode_last opt =
    if (length opt == 2) && is_uint64 (field opt 0) 1
    then (or_fail (as_bool (field opt 1)) bad_runtime >>= λ last. ok (true, last))
    else (guard ((length opt == 1) && is_uint64 (field opt 0) 0) bad_runtime >> ok (false, false))

-- The option of the next repetition.
unfoldable pub decode_next : List Value → Result RuntimeError (Bool × ℤ)
decode_next opt =
    if (length opt == 2) && is_uint64 (field opt 0) 1
    then (or_fail (signed_int64 (field opt 1)) bad_runtime >>= λ next. ok (true, next))
    else (guard ((length opt == 1) && is_uint64 (field opt 0) 0) bad_runtime >> ok (false, pos 0))

-- The fields of `DecodeRuntime`.
unfoldable pub decode_runtime_fields : List Value → Result RuntimeError Runtime
decode_runtime_fields fields = do
  guard (length fields == 8) bad_runtime
  id ← or_fail (as_32_bytes (field fields 0)) bad_runtime
  version ← or_fail (as_uint64 (field fields 1)) bad_runtime
  guard (not (version == 0) && ltb version (2 ^ 32)) bad_runtime
  opt ← or_fail (as_array (field fields 2)) bad_runtime
  last ← decode_last opt
  armed ← or_fail (as_bool (field fields 3)) bad_runtime
  exhausted ← or_fail (as_bool (field fields 4)) bad_runtime
  count ← or_fail (as_uint64 (field fields 5)) bad_runtime
  repeat ← or_fail (as_array (field fields 6)) bad_runtime
  next ← decode_next repeat
  revision ← or_fail (as_uint64 (field fields 7)) bad_runtime
  ok (record {
    definition_id = id;
    version = version;
    has_last = last.0;
    last = last.1;
    armed = armed;
    exhausted = exhausted;
    activation_count = count;
    has_next_repeat = next.0;
    next_repeat = next.1;
    evaluated_through = revision;
  })

-- `DecodeRuntime`
unfoldable pub decode_runtime : Library → Bytes → Result RuntimeError Runtime
decode_runtime lib raw = do
  v ← of_codec (strict_decode_payload lib raw)
  fields ← or_fail (as_array v) bad_runtime
  r ← decode_runtime_fields fields
  canonical ← runtime_bytes lib r
  guard (bytes_equal canonical raw) non_canonical_runtime
  ok r

-- The numbers of a runtime fit their types, its ID has 32 bytes, and what is absent is zero.
pub record IsRuntime (r : Runtime) : Type 0 where
  pub id_fits : length r.definition_id ≡ 32
  pub version_fits : (not (r.version == 0) && ltb r.version (2 ^ 32)) ≡ true
  pub count_fits : r.activation_count < uint64_bound
  pub revision_fits : r.evaluated_through < uint64_bound
  pub next_fits : IsInt64 r.next_repeat
  pub no_last : r.has_last ≡ false → r.last ≡ false
  pub no_next : r.has_next_repeat ≡ false → r.next_repeat ≡ pos 0
