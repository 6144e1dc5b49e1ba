-- ===== src/Tests/Wires.antt =====
-- An example of the clock's wire format (internal/csf/clock/codec.go).
use cote_ai_simulation.Base.{◌≡◌, refl, [], ◌∷◌, ok, arith, List}
use cote_ai_simulation.Base.Bytes.{bytes_equal}
use cote_ai_simulation.Base.Int.{pos, negsuc}
use cote_ai_simulation.Value.{Value, int64, uint64, list}
use cote_ai_simulation.Codec.{canonical_payload, normalize}
use cote_ai_simulation.Codec.ReadBack.{read_back}
use cote_ai_simulation.Clock.{State}
use cote_ai_simulation.Clock.Wire.{encode, decode, decode-encode}
use cote_ai_simulation.Tests.Indexed.{indexed, indexed-ReadsPlain, place, same}

abbrev clock_at_nine : State
clock_at_nine = record {
  instant = negsuc 8;
  revision = 3;
  next_logical_sequence = 4;
  last_ordinal = pos 2;
}

abbrev clocks : List Value
clocks = list (int64 (negsuc 8) ∷ uint64 3 ∷ uint64 4 ∷ uint64 2 ∷ []) ∷ []

clock_encoded : encode (indexed clocks) clock_at_nine ≡ ok (0 ∷ [])
unfolding encode canonical_payload normalize place same read_back bytes_equal
clock_encoded = refl

decode-encode_example : decode (indexed clocks) (0 ∷ []) ≡ ok clock_at_nine
decode-encode_example =
    decode-encode (indexed clocks) clock_at_nine (0 ∷ []) (indexed-ReadsPlain clocks)
      (record {
        instant_fits = (omega arith, omega arith);
        revision_fits = omega arith;
        sequence_fits = omega arith;
        ordinal_fits = (omega arith, omega arith);
      })
      clock_encoded
