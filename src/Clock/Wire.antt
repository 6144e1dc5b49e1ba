-- ===== src/Clock/Wire.antt =====
-- internal/csf/clock/codec.go: the canonical bytes of a clock state, and the plan of a fence.
use cote_ai_simulation.Base.{
  ◌≡◌, ◌<◌, refl, true, arith, ◌==◌, if◌then◌else◌, List, [], ◌∷◌, some, length, Result, ok, ◌>>=◌,
  ◌>>◌, guard, or_fail, guard-then-eq_ok, or_fail-eq_ok, not, map_err, map_err-eq_ok,
}
use cote_ai_simulation.Base.Bytes.{Bytes}
use cote_ai_simulation.Base.Int.{negsuc, ltb_ℤ, IsInt64, uint64_bound}
use cote_ai_simulation.Value.{Value, int64, uint64, list, as_array, as_uint64, signed_int64, field}
use cote_ai_simulation.Codec.{
  Library, CodecError, canonical_payload, strict_decode_payload, normalize, encode_failed,
}
use cote_ai_simulation.Codec.ReadBack.{
  read_back, signed_int64-read_back, IsPlain, IsNormal, max_depth, ReadsPlain, strict_decode_normal,
}
use cote_ai_simulation.Clock.{State, Plan, ClockError, work, invalid_clock, successor_floor}

pub data WireError : Type 0 where
  clock_error : ClockError → WireError
  codec_error : CodecError → WireError
  bad_record : WireError

abbrev of_codec {ℓ} : {A : Type ℓ} → Result CodecError A → Result WireError A
of_codec r = map_err codec_error r

abbrev state_fields : State → List Value
state_fields s =
    int64 s.instant ∷ uint64 s.revision ∷ uint64 s.next_logical_sequence ∷ int64 s.last_ordinal ∷ []

-- `Encode`
unfoldable pub encode : Library → State → Result WireError Bytes
encode lib s = do
  guard (not (ltb_ℤ s.last_ordinal (negsuc 0))) (clock_error invalid_clock)
  of_codec (canonical_payload lib (list (state_fields s)))

unfoldable pub decode_fields : List Value → Result WireError State
decode_fields fields = do
  guard (length fields == 4) bad_record
  instant ← or_fail (signed_int64 (field fields 0)) (clock_error invalid_clock)
  revision ← or_fail (as_uint64 (field fields 1)) (clock_error invalid_clock)
  next ← or_fail (as_uint64 (field fields 2)) (clock_error invalid_clock)
  ordinal ← or_fail (signed_int64 (field fields 3)) (clock_error invalid_clock)
  guard (not (ltb_ℤ ordinal (negsuc 0))) (clock_error invalid_clock)
  ok (record {
    instant = instant;
    revision = revision;
    next_logical_sequence = next;
    last_ordinal = ordinal;
  })

-- `Decode`
unfoldable pub decode : Library → Bytes → Result WireError State
decode lib b = do
  raw ← of_codec (strict_decode_payload lib b)
  fields ← or_fail (as_array raw) bad_record
  decode_fields fields

-- `EncodePlan`
unfoldable pub encode_plan : Plan → Result ClockError Value
encode_plan p =
    if p.kind == work
    then ok (list (uint64 0 ∷ []))
    else (successor_floor p >>= λ floor. ok (
        list (
          uint64 1
          ∷ int64 p.from
          ∷ int64 p.to
          ∷ list (int64 p.target.not_before_instant ∷ uint64 p.target.not_before_cycle_ordinal ∷ [])
          ∷ [])))

-- The numbers of a state fit the source's types.
pub record IsState (s : State) : Type 0 where
  pub instant_fits : IsInt64 s.instant
  pub revision_fits : s.revision < uint64_bound
  pub sequence_fits : s.next_logical_sequence < uint64_bound
  pub ordinal_fits : IsInt64 s.last_ordinal

state_fields-IsPlain : (s : State) → IsState s → IsPlain max_depth (list (state_fields s))
unfolding IsPlain
state_fields-IsPlain s h =
    (omega arith, (h.instant_fits, (h.revision_fits, (h.sequence_fits, (h.ordinal_fits, tt)))))

state_fields-IsNormal : (lib : Library) (s : State) → IsNormal lib (list (state_fields s))
unfolding normalize
state_fields-IsNormal lib s = refl

decode_fields-state_fields :
    (s : State)
    → IsState s
    → not (ltb_ℤ s.last_ordinal (negsuc 0)) ≡ true
    → (fields : List Value) × (as_array (read_back (list (state_fields s))) ≡ some fields)
      × (decode_fields fields ≡ ok s)
unfolding decode_fields read_back
decode_fields-state_fields s h g = (
  _,
  refl,
  rw
      (
        signed_int64-read_back s.instant h.instant_fits,
        signed_int64-read_back s.last_ordinal h.ordinal_fits,
        g,
      )
      refl,
)

-- A clock state whose numbers fit their types, and that is encoded, is decoded from the bytes as it
-- was, where the CBOR library reads plain values back.
pub decode-encode :
    (lib : Library) (s : State) (b : Bytes)
    → ReadsPlain lib
    → IsState s
    → encode lib s ≡ ok b
    → decode lib b ≡ ok s
unfolding encode decode canonical_payload
decode-encode lib s b r h e =
    let (g, e₁) =
      guard-then-eq_ok (not (ltb_ℤ s.last_ordinal (negsuc 0))) (clock_error invalid_clock) _ e in
    let n = state_fields-IsNormal lib s in
    let p : canonical_payload lib (list (state_fields s)) ≡ ok b =
      map_err-eq_ok codec_error (canonical_payload lib (list (state_fields s))) e₁ in
    let m =
      or_fail-eq_ok (lib.marshal (list (state_fields s))) encode_failed
        (rw (n, canonical_payload) at p) in
    let d = strict_decode_normal lib (list (state_fields s)) b r (state_fields-IsPlain s h) n m in
    let (fields, a, f) = decode_fields-state_fields s h g in rw (d, a) f
