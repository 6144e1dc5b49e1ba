-- ===== src/Tests/Rounds.antt =====
-- An example of a declared round (internal/csf/inputledger).
use cote_ai_simulation.Domain.Patterns.{match_string, validate_domain_tag, validate_machine_id}
use cote_ai_simulation.Ledger.Rounds.{keep_round, no_duplicate, valid_round_origin, valid_slots}
use cote_ai_simulation.Base.Sort.{insert, sort}
use cote_ai_simulation.Base.Bytes.{bytes_compare, bytes_equal}
use cote_ai_simulation.Value.{as_32_bytes, signed_int64}
use cote_ai_simulation.Identity.{find_in, find_operation, operation, sum}
use cote_ai_simulation.Codec.{
  canonical_bytes, canonical_payload, contains_unassigned, normalize, normalize_text,
  search_unassigned, strict_decode_payload,
}
use cote_ai_simulation.Tests.Toy.{encode, read}
use cote_ai_simulation.Domain.{equal_preimage}
use cote_ai_simulation.Store.Methods.{append_round_declaration}
use cote_ai_simulation.Store.{append_input_locked, guarded_kind, uncovered, validate_round}
use mathlib.Core.List.{Permᴰ}
use cote_ai_simulation.Base.{
  ℕ, zero, suc, ◌≡◌, ◌≤◌, refl, false, List, [], ◌∷◌, some, none, ok, err, Pairs,
}
use cote_ai_simulation.Base.Bytes.{Bytes, literal}
use cote_ai_simulation.Base.Int.{pos}
use cote_ai_simulation.Value.{Value, uint64, text, byte_string, list}
use cote_ai_simulation.Identity.{fields, Deriver}
use cote_ai_simulation.Store.Maps.{lookup}
use cote_ai_simulation.Ledger.{Ledger, Round}
use cote_ai_simulation.Ledger.Rounds.{RoundRequest, declare_round, round_id, round_fields, round_of}
use cote_ai_simulation.Ledger.RoundSlots.{IsBefore, declare_round_slots}
use cote_ai_simulation.Tests.Toy.{toy}

abbrev repeat : ℕ → ℕ → Bytes
repeat zero b = []
repeat (suc n) b = b ∷ repeat n b

abbrev same : Bytes → Bytes
same b = b

abbrev deriver : List Value → Deriver
deriver table = record {
  bundle = record {
    domain_operations = some (
        fields (text (literal "cote.csf.id.decision-round"))
          (text (literal "cote.csf.schema.decision-round-id-preimage")) (some 1)
        ∷ fields (text (literal "cote.csf.digest.round-declaration"))
            (text (literal "cote.csf.schema.round-declaration")) (some 1)
        ∷ []);
    fixture_domain_operations = none;
  };
  include_fixtures = false;
  codec = toy table;
  sha256 = same;
}

abbrev ledger : List Value → Ledger
ledger table = record {
  run_id = repeat 32 7;
  deriver = deriver table;
  sources = [];
  cursors = [];
  inputs = [];
  closures = [];
  input_by_id = [];
  closure_by_id = [];
  sources_frozen = false;
  rounds = [];
  providers = [];
  input_store = record {
    records = [];
    conditional = [];
    ingress_cursor = [];
    fences = [];
    seals = [];
    order = [];
  };
}

abbrev two_slots : RoundRequest
two_slots = record {
  source_id = 115 ∷ [];
  actor = record { namespace = 110 ∷ []; actor_id = 97 ∷ [] };
  slots = (98 ∷ []) ∷ (97 ∷ []) ∷ [];
  eligibility = record { not_before_instant = pos 2; not_before_cycle_ordinal = 0 };
  created_by =
      list (uint64 0 ∷ list (byte_string (repeat 32 1) ∷ byte_string (repeat 32 2) ∷ []) ∷ []);
  role = 1;
  ordinal = 0;
  lifecycle = 0;
  idempotency_key = list (uint64 0 ∷ []);
}

id : Bytes
id = elim (round_id (ledger []) two_slots) [ ok b ↦ b | err e ↦ [] ]

-- A ledger whose codec reads the round that is declared.
reading : Ledger
reading = ledger (list (round_fields (ledger []) two_slots id) ∷ [])

declared : Ledger × Round
declared = elim (declare_round reading two_slots) [
  | ok r ↦ r
  | err e ↦ (reading, round_of two_slots [] [] [] [])
]

id_derived : round_id reading two_slots ≡ ok id
unfolding id reading sum operation find_in find_operation bytes_equal canonical_bytes
    validate_domain_tag normalize encode
id_derived = refl

id_new : lookup id reading.rounds ≡ none
unfolding lookup reading
id_new = refl

round_declared : declare_round reading two_slots ≡ ok (declared.0, declared.1)
unfolding declared declare_round reading id validate_machine_id valid_slots no_duplicate sort
    bytes_compare bytes_equal valid_round_origin as_32_bytes sum operation find_in find_operation
    canonical_bytes validate_domain_tag normalize encode contains_unassigned insert
    canonical_payload normalize_text search_unassigned strict_decode_payload match_string
    equal_preimage keep_round lookup append_round_declaration append_input_locked guarded_kind
    uncovered validate_round read signed_int64
round_declared = refl

declare_round_slots_example :
    (lookup id declared.0.rounds ≡ some declared.1)
    × Permᴰ declared.1.slots two_slots.slots
    × Pairs IsBefore declared.1.slots
    × (1 ≤ 2)
    × (2 ≤ 1024)
declare_round_slots_example =
    declare_round_slots reading declared.0 two_slots id declared.1 id_derived id_new round_declared
