-- ===== src/Tests/Fences.antt =====
-- An example of a decision over a published fence (internal/csf/decision/fence_bridge.go): a round
-- of two slots, one with an action and one with a refusal.
use cote_ai_simulation.Base.{List, [], ◌∷◌, none, some, ok, err, false}
use cote_ai_simulation.Base.Bytes.{Bytes, literal, zero_id}
use cote_ai_simulation.Base.Int.{pos}
use cote_ai_simulation.Domain.{EligibilityCoordinate}
use cote_ai_simulation.Value.{Value, null, text, byte_string, uint64, list}
use cote_ai_simulation.Codec.{canonical_payload}
use cote_ai_simulation.Ledger.{Round}
use cote_ai_simulation.Ledger.Bodies.{coord_value}
use cote_ai_simulation.Ledger.Snapshots
use cote_ai_simulation.Admission.{Cycle, Policies, Fence}
use cote_ai_simulation.Admission.Derive.{derive}
use cote_ai_simulation.Decision.{Input}
use cote_ai_simulation.Decision.Bridge.{from_persisted_fence}
use cote_ai_simulation.Tests.Toy.{toy}
use cote_ai_simulation.Tests.Fixtures.{zeros, bytes_of}
use cote_ai_simulation.Tests.Responses.{deriver, derived, envelope, actor, action, refusal, input}

abbrev start : EligibilityCoordinate
start = record { not_before_instant = pos 6; not_before_cycle_ordinal = 0 }

unfoldable pub round_id : Bytes
unfolding derived
round_id =
    derived "cote.csf.id.decision-round" "cote.csf.schema.decision-round-id-preimage"
      (list (null ∷ uint64 0 ∷ uint64 0 ∷ []))

unfoldable pub round_fields : List Value
unfolding round_id
round_fields =
    byte_string round_id
    ∷ byte_string zero_id
    ∷ text (literal "scope")
    ∷ actor
    ∷ list (text (literal "slot") ∷ text (literal "slow") ∷ [])
    ∷ coord_value start
    ∷ null
    ∷ uint64 0
    ∷ uint64 0
    ∷ uint64 0
    ∷ null
    ∷ []

unfoldable pub round : Round
unfolding round_fields derived bytes_of
round = record {
  id = round_id;
  source_id = literal "scope";
  actor = record { namespace = literal "person"; actor_id = literal "ada" };
  slots = literal "slot" ∷ literal "slow" ∷ [];
  eligibility = start;
  created_by = null;
  role = 0;
  local_ordinal = 0;
  lifecycle = 0;
  idempotency_key = null;
  digest =
      derived "cote.csf.digest.round-declaration" "cote.csf.schema.round-declaration"
        (list round_fields);
  fields = round_fields;
  canonical = bytes_of (canonical_payload (toy []) (list round_fields));
}

unfoldable pub cohort : Snapshots.Snapshot
unfolding round action refusal
cohort = record {
  sources = [];
  inputs = [];
  closures = [];
  rounds = round ∷ [];
  slots =
      (round_id, (literal "slot", action.response) ∷ (literal "slow", refusal.response) ∷ []) ∷ [];
  run_id = zero_id;
}

abbrev pub cycle : Cycle
cycle = record {
  id = 4 ∷ zeros;
  attempt = 0;
  plan = none;
  instant = pos 6;
  ordinal = 0;
  base_revision = 2;
  base_state_hash = zeros;
  retry_ref = list (uint64 0 ∷ []);
}

abbrev pub policies : Policies
policies = record { admission_order = null; causal_identity = null; fence = null; rules = list [] }

abbrev empty_fence : Fence
empty_fence = record { id = []; digest = []; fields = []; canonical = []; input_digest = [] }

unfoldable pub fence : Fence
unfolding cohort
fence = elim (derive (deriver (envelope ∷ [])) none policies cycle cohort) [
  | ok f ↦ f
  | err e ↦ empty_fence
]

unfoldable pub fenced : Input
unfolding input fence cohort
fenced =
    elim (from_persisted_fence (deriver (envelope ∷ [])) none (λ id. some fence.canonical) cohort
        cycle policies fence input.snapshot input.schemas input.seed [] false)
      as (λ _. Input) [ ok x ↦ x | err e ↦ input ]
