-- ===== src/Tests/Responses.antt =====
-- Data for the example of a decision: an action and a refusal, with their records.
use Prim.Native.String.{String}
use cote_ai_simulation.Identity.{sum}
use cote_ai_simulation.Codec.{canonical_payload}
use cote_ai_simulation.Tests.Fixtures.{digest_of, bytes_of}
use cote_ai_simulation.Base.{ℕ, zero, suc, true, false, List, [], ◌∷◌, ◌++◌, some, none}
use cote_ai_simulation.Base.Bytes.{Bytes, literal}
use cote_ai_simulation.Base.Int.{pos}
use cote_ai_simulation.Value.{Value, null, byte_string, text, uint64, list}
use cote_ai_simulation.Identity.{Deriver}
use cote_ai_simulation.Ledger.{Response}
use cote_ai_simulation.Decision.{DeliveredUnit, Input, zero_id}
use cote_ai_simulation.Tests.Toy.{toy}
use cote_ai_simulation.Tests.Fixtures.{zeros, entry}

abbrev pub deriver : List Value → Deriver
deriver table = record {
  bundle = record {
    domain_operations = some (
        entry "cote.csf.id.action-proposal" "cote.csf.schema.slot-response-id-preimage"
        ∷ entry "cote.csf.digest.action-proposal-unit" "cote.csf.schema.action-proposal.body"
        ∷ entry "cote.csf.id.no-proposal" "cote.csf.schema.slot-response-id-preimage"
        ∷ entry "cote.csf.digest.no-proposal-unit" "cote.csf.schema.no-proposal.body"
        ∷ entry "cote.csf.id.commit-candidate" "cote.csf.schema.candidate-id-preimage"
        ∷ entry "cote.csf.digest.commit-candidate" "cote.csf.schema.commit-candidate.body"
        ∷ entry "cote.csf.id.decision-round" "cote.csf.schema.decision-round-id-preimage"
        ∷ entry "cote.csf.digest.round-declaration" "cote.csf.schema.round-declaration"
        ∷ entry "cote.csf.id.cohort" "cote.csf.schema.cohort-id-preimage"
        ∷ entry "cote.csf.digest.input" "cote.csf.schema.admitted-unit-list"
        ∷ entry "cote.csf.digest.fence" "cote.csf.schema.admission-fence.body"
        ∷ entry "cote.csf.id.admission-fence" "cote.csf.schema.admission-fence-id-preimage"
        ∷ entry "cote.csf.digest.affordance-assessment" "cote.csf.schema.affordance-assessment.body"
        ∷ []);
    fixture_domain_operations = none;
  };
  include_fixtures = false;
  codec = toy table;
  sha256 = digest_of;
}

unfoldable pub derived : String → String → Value → Bytes
unfolding bytes_of
derived tag schema v = bytes_of (sum (deriver []) (literal tag) (literal schema) 1 v)

-- The parameters of the action: an envelope of an empty list, and its value for the codec.
abbrev pub envelope : Value
envelope = list (
    byte_string (67 ∷ 83 ∷ 70 ∷ 0 ∷ [])
    ∷ uint64 1
    ∷ text (literal "cote.csf.test")
    ∷ text (literal "cote.csf.schema.typed-value")
    ∷ uint64 1
    ∷ list []
    ∷ [])

unfoldable pub envelope_bytes : Bytes
unfolding bytes_of
envelope_bytes = bytes_of (canonical_payload (toy []) envelope)

unfoldable pub response : ℕ → Bytes → List Value → Response
unfolding bytes_of derived
response kind dispatch rest =
    let id =
      derived (if_refusal kind "cote.csf.id.no-proposal" "cote.csf.id.action-proposal")
        "cote.csf.schema.slot-response-id-preimage"
        (list (byte_string dispatch ∷ uint64 kind ∷ [])) in
    let body =
      byte_string id
      ∷ byte_string dispatch
      ∷ byte_string zero_id
      ∷ byte_string (4 ∷ zeros)
      ∷ rest in
    let digest =
      derived
        (if_refusal kind "cote.csf.digest.no-proposal-unit" "cote.csf.digest.action-proposal-unit")
        (if_refusal kind "cote.csf.schema.no-proposal.body" "cote.csf.schema.action-proposal.body")
        (list (list body ∷ [])) in
    record {
      kind = kind;
      id = id;
      dispatch_id = dispatch;
      run_id = zero_id;
      cycle_id = 4 ∷ zeros;
      round_id = 5 ∷ zeros;
      slot_id = literal "slot";
      actor = record { namespace = literal "person"; actor_id = literal "ada" };
      effective_at = pos 6;
      submitted_against_revision = 2;
      body = body;
      digest = digest;
      canonical = bytes_of (canonical_payload (toy []) (list (body ++ byte_string digest ∷ [])));
    }
  where
    if_refusal : ℕ → String → String → String
    if_refusal zero a b = b
    if_refusal (suc n) a b = a

abbrev pub actor : Value
actor = list (text (literal "person") ∷ text (literal "ada") ∷ [])

unfoldable pub action : DeliveredUnit
unfolding response envelope_bytes
action = record {
  producer_scope = literal "scope";
  response = response 0 (8 ∷ zeros) (
      text (literal "take")
      ∷ uint64 1
      ∷ actor
      ∷ list []
      ∷ list (
          text (literal "cote.csf.schema.typed-value")
          ∷ uint64 1
          ∷ byte_string envelope_bytes
          ∷ byte_string (digest_of envelope_bytes)
          ∷ [])
      ∷ list (list (text (literal "stock") ∷ text (literal "gold") ∷ uint64 1 ∷ uint64 3 ∷ []) ∷ [])
      ∷ list (uint64 0 ∷ [])
      ∷ uint64 6
      ∷ list (uint64 0 ∷ [])
      ∷ byte_string (5 ∷ zeros)
      ∷ text (literal "slot")
      ∷ uint64 2
      ∷ null
      ∷ list (uint64 0 ∷ [])
      ∷ []);
}

unfoldable pub refusal : DeliveredUnit
unfolding response
refusal = record {
  producer_scope = literal "scope";
  response = response 1 (9 ∷ zeros) (
      byte_string (5 ∷ zeros)
      ∷ text (literal "slot")
      ∷ actor
      ∷ uint64 6
      ∷ uint64 2
      ∷ uint64 0
      ∷ []);
}

unfoldable pub input : Input
unfolding action refusal
input = record {
  run_id = zero_id;
  cycle_id = 4 ∷ zeros;
  attempt = 0;
  units = action ∷ refusal ∷ [];
  schemas =
      record {
        type = literal "take";
        version = 1;
        operation = literal "resource.consume";
        producer = literal "resource.consume";
      }
      ∷ [];
  admitted = refusal.response.id ∷ action.response.id ∷ [];
  snapshot = record {
    base_revision = 2;
    resource_kind = literal "stock";
    resource_id = literal "gold";
    available = pos 10;
    known = true;
    accessible_actors = (literal "person:ada", true) ∷ [];
    forbidden_actors = (literal "person:ada", false) ∷ [];
  };
  history = [];
  seed = zeros;
}
