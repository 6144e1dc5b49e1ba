-- ===== src/Tests/Stores.antt =====
-- Examples of the in-memory store (internal/csf/persistence/memory) and of the ingress guard
-- (internal/csf/ingressguard).
use cote_ai_simulation.Tests.Toy.{read}
use cote_ai_simulation.Base.Bytes.{bytes_equal}
use cote_ai_simulation.Codec.{canonical_payload, contains_unassigned, normalize, search_unassigned}
use cote_ai_simulation.Store.Maps.{lookup}
use cote_ai_simulation.Store.{append_input_locked, guarded_kind}
use cote_ai_simulation.Domain.{equal_preimage}
use cote_ai_simulation.Base.{◌≡◌, refl, true, false, List, [], ◌∷◌, ◌++◌, ok}
use cote_ai_simulation.Base.Int.{pos}
use cote_ai_simulation.Domain.{EligibilityCoordinate, compare_coordinate, is_le}
use cote_ai_simulation.Value.{Value, null, uint64, byte_string, list, as_32_bytes, signed_int64}
use cote_ai_simulation.Codec.{strict_decode_payload}
use cote_ai_simulation.IngressGuard.{CanonicalRecord, Entry, decode, fence_coordinate}
use cote_ai_simulation.IngressGuard.Cuts.{Origin}
use cote_ai_simulation.Store.{Store, new}
use cote_ai_simulation.Store.Methods.{append, append_if_absent, records_of, read_seal}
use cote_ai_simulation.Store.Run.{append_call, run}
use cote_ai_simulation.Store.History.{records_of-run, append_if_absent-winner}
use cote_ai_simulation.Store.Sealing.{sealed_at}
use cote_ai_simulation.Store.Fences.{read_seal-fence_coordinate}
use cote_ai_simulation.Tests.Toy.{encode}
use cote_ai_simulation.Tests.Calls.{
  nulls, run_seven, advance_fence, source_value, input_value, lib, same, fence, input_record, seal,
  calls, declared,
}

seal_read : read_seal lib fence.canonical ≡ ok seal
unfolding read_seal strict_decode_payload read bytes_equal canonical_payload normalize as_32_bytes
    signed_int64
seal_read = refl

abbrev at_four : EligibilityCoordinate
at_four = record { not_before_instant = pos 4; not_before_cycle_ordinal = 0 }

abbrev late_entry : Entry
late_entry = record { run_id = run_seven; coordinate = at_four }

-- The store with the input too.
abbrev with_input : Store
with_input = record {
  records = (1 ∷ [], encode input_value) ∷ (2 ∷ [], encode source_value) ∷ [];
  conditional = [];
  ingress_cursor = [];
  fences = [];
  seals = [];
  order = (2 ∷ []) ∷ (1 ∷ []) ∷ [];
}

input_appended : append lib declared input_record ≡ ok with_input
unfolding append guarded_kind strict_decode_payload read bytes_equal canonical_payload normalize
    contains_unassigned search_unassigned append_input_locked lookup
input_appended = refl

input_appended_again : append lib (run lib same with_input []) input_record ≡ ok with_input
unfolding append run guarded_kind strict_decode_payload read bytes_equal canonical_payload normalize
    contains_unassigned search_unassigned append_input_locked lookup equal_preimage
input_appended_again = refl

records_of-run_example :
    (added : List CanonicalRecord) × (records_of
        (run lib same (run lib same new calls) (append_call input_record ∷ []))
      ≡ records_of (run lib same new calls) ++ added)
records_of-run_example = records_of-run lib same calls (append_call input_record ∷ [])

abbrev with_binding : Store
with_binding = record {
  records = (1 ∷ [], encode input_value) ∷ (2 ∷ [], encode source_value) ∷ [];
  conditional = (8 ∷ [], input_record) ∷ [];
  ingress_cursor = [];
  fences = [];
  seals = [];
  order = (2 ∷ []) ∷ (1 ∷ []) ∷ [];
}

input_bound : append_if_absent declared (8 ∷ []) input_record ≡ ok (with_binding, true, [])
unfolding append_if_absent lookup append_input_locked bytes_equal
input_bound = refl

append_if_absent-winner_example :
    append_if_absent (run lib same with_binding calls) (8 ∷ []) fence
    ≡ ok (run lib same with_binding calls, false, encode input_value)
append_if_absent-winner_example =
    append_if_absent-winner lib same declared with_binding (8 ∷ []) [] input_record fence calls
      input_bound

abbrev advance_entry : Entry
advance_entry = record {
  run_id = run_seven;
  coordinate = record { not_before_instant = pos 9; not_before_cycle_ordinal = 0 };
}

fence_read : fence_coordinate lib (encode advance_fence) ≡ ok advance_entry
unfolding fence_coordinate strict_decode_payload read bytes_equal canonical_payload normalize
    as_32_bytes signed_int64 compare_coordinate
fence_read = refl

read_seal-fence_coordinate_example :
    (run_seven ≡ run_seven)
    × (is_le (compare_coordinate (sealed_at seal) advance_entry.coordinate) ≡ true)
read_seal-fence_coordinate_example =
    read_seal-fence_coordinate lib (encode advance_fence) seal advance_entry seal_read fence_read

fence_decoded : decode lib (encode advance_fence) ≡ ok advance_fence
unfolding strict_decode_payload read bytes_equal canonical_payload normalize
fence_decoded = refl

abbrev fence_fields : List Value
fence_fields =
    byte_string run_seven
    ∷ null
    ∷ null
    ∷ null
    ∷ uint64 5
    ∷ uint64 1
    ∷ list (uint64 1 ∷ uint64 5 ∷ uint64 9 ∷ list (uint64 9 ∷ uint64 0 ∷ []) ∷ [])
    ∷ nulls 11

fence-Origin : Origin fence_fields run_seven (sealed_at seal)
unfolding as_32_bytes signed_int64
fence-Origin = record { run_field = refl; instant_field = refl; ordinal_field = refl }
