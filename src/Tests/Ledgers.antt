-- ===== src/Tests/Ledgers.antt =====
-- Examples of the ledger's slots (internal/csf/inputledger).
use cote_ai_simulation.Store.Maps.{lookup}
use cote_ai_simulation.Base.Bytes.{bytes_equal}
use cote_ai_simulation.Store.Maps.{lookup}
use cote_ai_simulation.Base.Bytes.{bytes_equal}
use cote_ai_simulation.Identity.{operation, find_in, find_operation}
use cote_ai_simulation.Codec.{
  canonical_bytes, normalize, contains_unassigned, search_unassigned, canonical_payload,
  normalize_text,
}
use cote_ai_simulation.Domain.Patterns.{validate_domain_tag, match_string}
use cote_ai_simulation.Domain.{equal_preimage}
use cote_ai_simulation.Value.{signed_int64}
use cote_ai_simulation.Ledger.{put_slot}
use cote_ai_simulation.Ledger.Bodies.{validate_response_body}
use cote_ai_simulation.Ledger.Slots.{check_response, bind_response, fill, slot_key}
use cote_ai_simulation.Store.Methods.{append_if_absent}
use cote_ai_simulation.Store.{append_input_locked}
use cote_ai_simulation.Tests.Toy.{read}
use cote_ai_simulation.Base.{◌≡◌, refl, false, List, [], ◌∷◌, some, none, ok, err}
use cote_ai_simulation.Base.Bytes.{Bytes, literal}
use cote_ai_simulation.Base.Int.{pos}
use cote_ai_simulation.Domain.{EligibilityCoordinate}
use cote_ai_simulation.Value.{null, uint64, text, byte_string, list}
use cote_ai_simulation.Identity.{RegistryEntry, fields, Deriver, sum}
use cote_ai_simulation.Store.Run
use cote_ai_simulation.Ledger.{Ledger, Actor, Dispatch, Response, SlotState, slot_of}
use cote_ai_simulation.Ledger.Slots.{respond, response_id}
use cote_ai_simulation.Ledger.Run.{Call, revoke_call, run, Course, run-Course}
use cote_ai_simulation.Ledger.Agreement.{answer_bytes, respond_agree}
use cote_ai_simulation.Tests.Toy.{toy, encode}

abbrev same : Bytes → Bytes
same b = b

abbrev registry_entry : Bytes → Bytes → RegistryEntry
registry_entry tag schema = fields (text tag) (text schema) (some 1)

abbrev deriver : Deriver
deriver = record {
  bundle = record {
    domain_operations = some (
        registry_entry (literal "cote.csf.id.no-proposal")
          (literal "cote.csf.schema.slot-response-id-preimage")
        ∷ registry_entry (literal "cote.csf.digest.no-proposal-unit")
            (literal "cote.csf.schema.no-proposal.body")
        ∷ []);
    fixture_domain_operations = none;
  };
  include_fixtures = false;
  codec = toy [];
  sha256 = same;
}

abbrev player : Actor
player = record { namespace = 110 ∷ []; actor_id = 97 ∷ [] }

abbrev at_two : EligibilityCoordinate
at_two = record { not_before_instant = pos 2; not_before_cycle_ordinal = 0 }

abbrev open_dispatch : Dispatch
open_dispatch = record {
  id = 4 ∷ [];
  run_id = 7 ∷ [];
  cycle_id = 5 ∷ [];
  round_id = 6 ∷ [];
  slot_id = 115 ∷ [];
  ordinal = 0;
  actor = player;
  eligibility = at_two;
  base_revision = 3;
  effective_at = pos 2;
  request_digest = [];
  digest = [];
  canonical = [];
}

abbrev open_state : SlotState
open_state = record { dispatch = open_dispatch; revoked = false; response = none }

abbrev open_ledger : Ledger
open_ledger = record {
  run_id = 7 ∷ [];
  deriver = deriver;
  sources = [];
  cursors = [];
  inputs = [];
  closures = [];
  input_by_id = [];
  closure_by_id = [];
  sources_frozen = false;
  rounds = [];
  providers = (6 ∷ [], (115 ∷ [], open_state) ∷ []) ∷ [];
  input_store = record {
    records = [];
    conditional = [];
    ingress_cursor = [];
    fences = [];
    seals = [];
    order = [];
  };
}

abbrev draft : Bytes → Response
draft id = record {
  kind = 1;
  id = id;
  dispatch_id = 4 ∷ [];
  run_id = 7 ∷ [];
  cycle_id = 5 ∷ [];
  round_id = 6 ∷ [];
  slot_id = 115 ∷ [];
  actor = player;
  effective_at = pos 2;
  submitted_against_revision = 3;
  body =
      byte_string id
      ∷ byte_string (4 ∷ [])
      ∷ byte_string (7 ∷ [])
      ∷ byte_string (5 ∷ [])
      ∷ byte_string (6 ∷ [])
      ∷ text (115 ∷ [])
      ∷ list (text (110 ∷ []) ∷ text (97 ∷ []) ∷ [])
      ∷ uint64 2
      ∷ uint64 3
      ∷ null
      ∷ [];
  digest = [];
  canonical = [];
}

pass_id : Bytes
unfolding sum operation find_in find_operation canonical_bytes
pass_id = elim (response_id open_ledger open_dispatch (draft [])) [ ok b ↦ b | err e ↦ [] ]

abbrev pass : Response
unfolding pass_id
pass = draft pass_id

after_pass : Ledger → Ledger
after_pass l = elim (respond l pass) [ ok m ↦ m | err e ↦ l ]

pass_accepted : respond open_ledger pass ≡ ok (after_pass open_ledger)
unfolding respond after_pass slot_of lookup bytes_equal pass check_response sum operation find_in
    find_operation canonical_bytes validate_domain_tag normalize encode validate_response_body
    signed_int64 contains_unassigned search_unassigned canonical_payload normalize_text match_string
    equal_preimage bind_response fill slot_key put_slot append_if_absent append_input_locked pass_id
    read
pass_accepted = refl

-- A second ledger over the store of the first, restored before the answer.
abbrev second_ledger : Ledger
second_ledger = record open_ledger { input_store = (after_pass open_ledger).input_store }

pass_accepted_again : respond second_ledger pass ≡ ok (after_pass second_ledger)
unfolding respond after_pass slot_of lookup bytes_equal pass check_response sum operation find_in
    find_operation canonical_bytes validate_domain_tag normalize encode validate_response_body
    signed_int64 contains_unassigned search_unassigned canonical_payload normalize_text match_string
    equal_preimage bind_response fill slot_key put_slot append_if_absent append_input_locked pass_id
    read
pass_accepted_again = refl

open_slot : slot_of open_ledger (6 ∷ []) (115 ∷ []) ≡ some open_state
unfolding slot_of lookup bytes_equal
open_slot = refl

second_slot : slot_of second_ledger (6 ∷ []) (115 ∷ []) ≡ some open_state
unfolding slot_of lookup bytes_equal
second_slot = refl

second_store :
    second_ledger.input_store ≡ Run.run (toy []) same (after_pass open_ledger).input_store []
unfolding Run.run
second_store = refl

respond_agree_example :
    answer_bytes (after_pass second_ledger) (6 ∷ []) (115 ∷ [])
    ≡ answer_bytes (after_pass open_ledger) (6 ∷ []) (115 ∷ [])
unfolding pass
respond_agree_example =
    respond_agree open_ledger (after_pass open_ledger) second_ledger (after_pass second_ledger) pass
      pass open_state open_state [] open_slot refl pass_accepted refl second_store refl refl
      second_slot refl pass_accepted_again

abbrev some_calls : List Call
some_calls = revoke_call (6 ∷ []) (115 ∷ []) 1 null ∷ []

run-Course_example :
    Course
      (6 ∷ [])
      (115 ∷ [])
      some_calls
      (slot_of open_ledger (6 ∷ []) (115 ∷ []))
      (slot_of (run open_ledger some_calls) (6 ∷ []) (115 ∷ []))
run-Course_example = run-Course open_ledger some_calls (6 ∷ []) (115 ∷ [])

abbrev answered_state : SlotState
answered_state = record { dispatch = open_dispatch; revoked = false; response = some (draft []) }

abbrev answered_ledger : Ledger
answered_ledger = record open_ledger { providers = (6 ∷ [], (115 ∷ [], answered_state) ∷ []) ∷ [] }

answered_slot : slot_of answered_ledger (6 ∷ []) (115 ∷ []) ≡ some answered_state
unfolding slot_of lookup bytes_equal
answered_slot = refl
