-- ===== src/Tests/Admissions.antt =====
-- Examples of admission fences (internal/csf/admission/fence.go), over a ledger that is opened from
-- a store with a source, an input and a final closure (internal/csf/inputledger/ledger.go).
use cote_ai_simulation.Admission.{each, verify_closure, verify_input, verify_response, verify_round}
use cote_ai_simulation.Ledger.Sources.{coordinate, parse_coordinate}
use cote_ai_simulation.Value.{signed_int64}
use cote_ai_simulation.Identity.{find_in, find_operation, operation}
use cote_ai_simulation.Base.Bytes.{bytes_compare, bytes_equal}
use cote_ai_simulation.Domain.Patterns.{match_string, validate_domain_tag}
use cote_ai_simulation.Codec.{contains_unassigned, normalize, normalize_text, search_unassigned}
use cote_ai_simulation.Admission.Derive.{advance_target_of, all_responses, closure_at, seal_fence}
use cote_ai_simulation.Admission.Units.{
  closure_proofs, eligible_rounds, input_units, matches_cycle, qualifies, round_units,
  select_closure, slot_units, system_units, unit_less,
}
use cote_ai_simulation.Base.Sort.{insert, sort}
use cote_ai_simulation.Domain.{compare_coordinate}
use cote_ai_simulation.Store.Maps.{lookup}
use cote_ai_simulation.Tests.Toy.{read}
use mathlib.Core.List.{Permᴰ}
use cote_ai_simulation.Base.{◌≡◌, refl, All, map, if◌then◌else◌, List, [], ◌∷◌, none, ok, err}
use cote_ai_simulation.Base.Int.{pos}
use cote_ai_simulation.Value.{null, uint64, list}
use cote_ai_simulation.Codec.{canonical_payload, canonical_bytes}
use cote_ai_simulation.Identity.{sum}
use cote_ai_simulation.Ledger.Snapshots.{Snapshot}
use cote_ai_simulation.Ledger.{Stored, IngressReceipt}
use cote_ai_simulation.Admission.{Cycle, Policies, Fence}
use cote_ai_simulation.Admission.Derive.{derive}
use cote_ai_simulation.Admission.Admitted.{Admitted}
use cote_ai_simulation.Admission.Arrival.{derive_perm, reissued}
use cote_ai_simulation.Admission.Closed.{Outcome, closure_proofs-Outcome}
use cote_ai_simulation.Tests.Toy.{encode}
use cote_ai_simulation.Tests.Fixtures.{
  zeros, total, digest_of, run_id, deriver, bytes_of, derived, bytes_of_list, source, at,
  receipt_bytes, input_id, input_body, input, closure_id, closure_fields, closure,
}

cohort : Snapshot
unfolding input closure
cohort = record {
  sources = source ∷ [];
  inputs = input (97 ∷ []) 5 0 ∷ input (98 ∷ []) 3 1 ∷ [];
  closures = closure 2 ∷ [];
  rounds = [];
  slots = [];
  run_id = run_id;
}

abbrev cycle : Cycle
cycle = record {
  id = 4 ∷ zeros;
  attempt = 0;
  plan = none;
  instant = pos 5;
  ordinal = 0;
  base_revision = 0;
  base_state_hash = zeros;
  retry_ref = list (uint64 0 ∷ []);
}

abbrev policies : Policies
policies = record { admission_order = null; causal_identity = null; fence = null; rules = list [] }

empty_fence : Fence
empty_fence = record { id = []; digest = []; fields = []; canonical = []; input_digest = [] }

derived_fence : Fence
unfolding cohort
derived_fence = elim (derive (deriver []) none policies cycle cohort) [
  | ok f ↦ f
  | err e ↦ empty_fence
]

fence_derived : derive (deriver []) none policies cycle cohort ≡ ok derived_fence
unfolding derived_fence derive each verify_input parse_coordinate signed_int64 sum operation find_in
    find_operation bytes_equal canonical_bytes validate_domain_tag normalize contains_unassigned
    search_unassigned encode digest_of canonical_payload advance_target_of all_responses closure_at
    seal_fence closure_proofs eligible_rounds input_units matches_cycle qualifies round_units
    select_closure slot_units system_units unit_less verify_closure verify_response verify_round
    bytes_compare insert sort normalize_text match_string compare_coordinate coordinate lookup
    bytes_of bytes_of_list closure closure_fields closure_id cohort derived empty_fence input
    input_body input_id receipt_bytes total read
fence_derived = refl

-- The same inputs under other sequences, in which they arrive the other way round.
abbrev arrived : List Stored
arrived = input (98 ∷ []) 3 0 ∷ input (97 ∷ []) 5 1 ∷ []

abbrev receipts : Stored → IngressReceipt
receipts i =
    if bytes_equal i.id (input_id (97 ∷ []))
    then (input (97 ∷ []) 5 1).receipt
    else (input (98 ∷ []) 3 0).receipt

arrived_verified : All (λ i. verify_input (deriver []) i ≡ ok tt) arrived
unfolding each verify_input parse_coordinate signed_int64 sum operation find_in find_operation
    bytes_equal canonical_bytes validate_domain_tag normalize contains_unassigned search_unassigned
    encode digest_of canonical_payload advance_target_of all_responses closure_at seal_fence
    closure_proofs eligible_rounds input_units matches_cycle qualifies round_units select_closure
    slot_units system_units unit_less verify_closure verify_response verify_round bytes_compare
    insert sort normalize_text match_string compare_coordinate coordinate lookup bytes_of
    bytes_of_list closure closure_fields closure_id derived input input_body input_id receipt_bytes
    total read
arrived_verified = (refl, (refl, tt))

arrived_Permᴰ : Permᴰ (map (reissued receipts) cohort.inputs) arrived
unfolding cohort input input_id input_body derived bytes_of_list receipt_bytes bytes_equal total
    bytes_of digest_of sum operation find_in find_operation canonical_bytes validate_domain_tag
    normalize contains_unassigned search_unassigned encode
arrived_Permᴰ = Permᴰ.swap refl refl

derive_perm_example :
    derive (deriver []) none policies cycle (record cohort { inputs = arrived }) ≡ ok derived_fence
unfolding cohort
derive_perm_example =
    derive_perm (deriver []) none policies cycle cohort arrived receipts derived_fence arrived_Permᴰ
      arrived_verified fence_derived

-- One source is closed and another is not.
closure_proofs-Outcome_example :
    Outcome
      (closure 2 ∷ [])
      (at 5 0)
      (source ∷ (116 ∷ []) ∷ [])
      (closure_proofs (closure 2 ∷ []) (at 5 0) (source ∷ (116 ∷ []) ∷ []))
closure_proofs-Outcome_example =
    closure_proofs-Outcome (closure 2 ∷ []) (at 5 0) (source ∷ (116 ∷ []) ∷ [])
