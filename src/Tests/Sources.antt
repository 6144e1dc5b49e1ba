-- ===== src/Tests/Sources.antt =====
-- Examples of the ledger's sources (internal/csf/inputledger).
use cote_ai_simulation.Ledger.{contains}
use cote_ai_simulation.Domain.Patterns.{match_string, validate_machine_id}
use cote_ai_simulation.Ledger.Closures.{may_close, new_closure, repeat_closure}
use cote_ai_simulation.Codec.{canonical_payload, normalize_text, strict_decode_payload}
use cote_ai_simulation.Domain.{equal_preimage}
use cote_ai_simulation.IngressGuard.{check, coord, parse, parse_fields}
use cote_ai_simulation.Ledger.Sources.{
  append_receipt, new_input, next_open, normal_eligibility, repeat_input,
}
use cote_ai_simulation.Store.Methods.{
  agrees, append_ingress, guard_ingress, next_ingress_sequence, put_if_absent,
}
use cote_ai_simulation.Store.{check_seals}
use cote_ai_simulation.Tests.Toy.{read}
use cote_ai_simulation.Value.{as_32_bytes}
use cote_ai_simulation.Base.Int.{succ_ℤ}
use cote_ai_simulation.Base.Bytes.{bytes_equal}
use cote_ai_simulation.Ledger.Sources.{parse_coordinate}
use cote_ai_simulation.Value.{signed_int64}
use cote_ai_simulation.Identity.{find_in, find_operation, operation, sum}
use cote_ai_simulation.Codec.{canonical_bytes, contains_unassigned, normalize, search_unassigned}
use cote_ai_simulation.Domain.Patterns.{validate_domain_tag}
use cote_ai_simulation.Base.{
  ℕ, ◌≡◌, refl, true, false, List, [], ◌∷◌, some, none, ok, err, All, Ordering, arith, inl, inr,
  Bool-cases,
}
use cote_ai_simulation.Base.Bytes.{Bytes, literal}
use cote_ai_simulation.Base.Int.{pos}
use cote_ai_simulation.Domain.{EligibilityCoordinate, compare_coordinate, is_le}
use cote_ai_simulation.Value.{null, boolean, uint64, text, list, field}
use cote_ai_simulation.Identity.{RegistryEntry, fields, Deriver}
use cote_ai_simulation.Store.Maps.{lookup}
use cote_ai_simulation.Ledger.{Ledger, Stored, IngressReceipt}
use cote_ai_simulation.Ledger.Bodies.{coord_value}
use cote_ai_simulation.Ledger.Sources.{
  Input, Closure, append_input, input_id, listed, closed_at, any_final, coordinate,
}
use cote_ai_simulation.Ledger.Closures.{close_source}
use cote_ai_simulation.Ledger.Normal.{IsOpen, append_input_again, append_input_placed}
use cote_ai_simulation.Ledger.History.{IsHistory, close_source-IsHistory}
use cote_ai_simulation.Tests.Toy.{toy, encode}

abbrev same : Bytes → Bytes
same b = b

abbrev entry : Bytes → Bytes → RegistryEntry
entry tag schema = fields (text tag) (text schema) (some 1)

abbrev deriver : Deriver
deriver = record {
  bundle = record {
    domain_operations = some (
        entry (literal "cote.csf.id.exogenous-input")
          (literal "cote.csf.schema.exogenous-input-id-preimage")
        ∷ entry (literal "cote.csf.digest.exogenous-input-unit")
            (literal "cote.csf.schema.exogenous-input.body")
        ∷ entry (literal "cote.csf.id.source-closure")
            (literal "cote.csf.schema.source-closure-id-preimage")
        ∷ entry (literal "cote.csf.digest.source-closure")
            (literal "cote.csf.schema.source-closure")
        ∷ []);
    fixture_domain_operations = none;
  };
  include_fixtures = false;
  codec = toy [];
  sha256 = same;
}

abbrev at : ℕ → ℕ → EligibilityCoordinate
at t n = record { not_before_instant = pos t; not_before_cycle_ordinal = n }

abbrev no_receipt : IngressReceipt
no_receipt = record {
  source_id = [];
  sequence = 0;
  ref_kind = 2;
  ref_id = [];
  ref_digest = [];
  canonical = [];
}

-- A closure through (5, 2) that is not final.
abbrev through_five : Stored
through_five = record {
  id = 9 ∷ [];
  digest = [];
  fields = null ∷ null ∷ null ∷ null ∷ coord_value (at 5 2) ∷ boolean false ∷ uint64 0 ∷ [];
  canonical = [];
  receipt = no_receipt;
}

abbrev closed_ledger : Ledger
closed_ledger = record {
  run_id = 7 ∷ [];
  deriver = deriver;
  sources = (115 ∷ []) ∷ [];
  cursors = [];
  inputs = [];
  closures = (115 ∷ [], through_five ∷ []) ∷ [];
  input_by_id = [];
  closure_by_id = (9 ∷ [], through_five) ∷ [];
  sources_frozen = false;
  rounds = [];
  providers = [];
  input_store = record {
    records = [];
    conditional = [];
    ingress_cursor = [];
    fences = [];
    seals = [];
    order = [];
  };
}

abbrev late_input : Input
late_input = record {
  producer_unit_key = 117 ∷ [];
  kind = 107 ∷ [];
  schema_version = 1;
  actor = list (uint64 0 ∷ []);
  payload = null;
  declared_effective_at = pos 3;
  eligibility = at 3 0;
  provenance = list (uint64 0 ∷ []);
  idempotency_key = list (uint64 0 ∷ []);
}

appended : Ledger × Stored
appended = elim (append_input closed_ledger (115 ∷ []) late_input) [
  | ok r ↦ r
  | err e ↦ (closed_ledger, through_five)
]

late_input_appended : append_input closed_ledger (115 ∷ []) late_input ≡ ok (appended.0, appended.1)
unfolding appended append_input contains bytes_equal validate_machine_id sum operation find_in
    find_operation canonical_bytes validate_domain_tag normalize contains_unassigned
    search_unassigned encode lookup new_input any_final normal_eligibility succ_ℤ canonical_payload
    normalize_text strict_decode_payload match_string compare_coordinate equal_preimage check coord
    parse parse_fields append_receipt coordinate next_open parse_coordinate repeat_input agrees
    append_ingress guard_ingress next_ingress_sequence put_if_absent check_seals read as_32_bytes
    signed_int64
late_input_appended = refl

append_input_again_example :
    append_input appended.0 (115 ∷ []) late_input ≡ ok (appended.0, appended.1)
append_input_again_example =
    append_input_again closed_ledger appended.0 (115 ∷ []) late_input appended.1 late_input_appended

late_id : Bytes
late_id = elim (input_id closed_ledger (115 ∷ []) late_input) [ ok b ↦ b | err e ↦ [] ]

late_id_derived : input_id closed_ledger (115 ∷ []) late_input ≡ ok late_id
unfolding late_id sum operation find_in find_operation bytes_equal canonical_bytes
    validate_domain_tag normalize contains_unassigned search_unassigned encode
late_id_derived = refl

late_id_new : lookup late_id closed_ledger.input_by_id ≡ none
unfolding lookup
late_id_new = refl

abbrev closures : List Stored
closures = listed (115 ∷ []) closed_ledger.closures

closures-IsOpen : All (λ c. IsOpen (closed_at c)) closures
unfolding coordinate lookup bytes_equal parse_coordinate signed_int64
closures-IsOpen = (inl (omega arith), tt)

append_input_placed_example :
    (is_le (compare_coordinate (at 3 0) (coordinate (field appended.1.fields 9))) ≡ true)
    × All
        (λ c.
          compare_coordinate (closed_at c) (coordinate (field appended.1.fields 9)) ≡ Ordering.lt)
        closures
    × (any_final closures ≡ false)
append_input_placed_example =
    append_input_placed closed_ledger appended.0 (115 ∷ []) late_input appended.1
      late_input_appended late_id late_id_derived late_id_new closures-IsOpen

abbrev last_closure : Closure
last_closure = record { producer_key = 108 ∷ []; closed_through = at 6 0; final = true }

closed : Ledger × Stored
closed = elim (close_source closed_ledger (115 ∷ []) last_closure) [
  | ok r ↦ r
  | err e ↦ (closed_ledger, through_five)
]

last_closure_accepted : close_source closed_ledger (115 ∷ []) last_closure ≡ ok (closed.0, closed.1)
unfolding closed close_source contains bytes_equal validate_machine_id sum operation find_in
    find_operation canonical_bytes validate_domain_tag normalize contains_unassigned
    search_unassigned encode lookup new_closure may_close compare_coordinate canonical_payload
    normalize_text strict_decode_payload match_string equal_preimage check coord parse parse_fields
    repeat_closure append_receipt coordinate parse_coordinate agrees append_ingress guard_ingress
    next_ingress_sequence put_if_absent check_seals read as_32_bytes signed_int64
last_closure_accepted = refl

one_closure : IsHistory closed_ledger
unfolding lookup
one_closure source = elim (Bool-cases (bytes_equal (115 ∷ []) source)) [
  | inl e ↦ rw (e, listed) (tt, tt)
  | inr e ↦ rw (e, listed) tt
]

close_source-IsHistory_example : IsHistory closed.0
close_source-IsHistory_example =
    close_source-IsHistory closed_ledger closed.0 (115 ∷ []) last_closure closed.1
      last_closure_accepted one_closure
