-- ===== src/Tests/Decisions.antt =====
-- An example of a decision (internal/csf/decision/run.go): an action that takes 3 of 10, and a
-- refusal.
use cote_ai_simulation.Decision.Responses.{
  refs_equal, find_schema, check_response, check_no_proposal, check_parameters, check_action,
  claimed_amount, prepare_action, validate_response,
}
use cote_ai_simulation.Decision.Aliases.{
  namespace_of, agrees, bind_history, idempotency_key, logical_digest, bind_unit, resolve_keyed,
  resolve_unit, resolve_units, resolve_aliases,
}
use cote_ai_simulation.Decision.Allocation.{
  viable_of, is_exhausted, classify, unresolved, unsupported_of, asks_all, winner,
}
use cote_ai_simulation.Decision.Candidates.{
  canonical_id_less, holds, are_sources, candidate_fields, make_candidate, assess, mark, all_held,
  none_held, claim_sources, claim_all, is_covered, check_partition,
}
use cote_ai_simulation.Decision.Claims.{
  include, add_group, are_listed, verify_candidate_identity, verify_candidate, scan_claim,
  scan_claims, scan_invariants, scan_refs, scan_candidate, scan_candidates,
}
use cote_ai_simulation.Decision.Claims.Conflicts.{
  is_exceeded, group_resources, group_writes, make_conflict, make_conflicts, detect_claims,
}
use cote_ai_simulation.Decision.Disposal.{by_source, dispose_candidate, dispose_unit, dispose}
use cote_ai_simulation.Decision.Draws.{lowest_bit, named_substream, named_draw}
use cote_ai_simulation.Decision.Gather.{
  check_schemas, deliver, read_units, order_units, missing_facet, set_field, drafts, add_draft,
  drafted_candidate, gather_known, gather_faceted, gather_unit, gather,
}
use cote_ai_simulation.Decision.Results.{
  unit_digests, unit_sources, indeterminate_values, sealed_value, seal,
}
use cote_ai_simulation.Decision.Run.{
  refuse, refuse_unresolved, resolve_stage, prepare_units, check_gathered, gather_stage,
  detect_stage, draw_stage, settle_stage, allocate, run,
}
use cote_ai_simulation.Identity.{sum, operation, find_operation, find_in}
use cote_ai_simulation.Base.Bytes.{bytes_equal, bytes_compare, hex}
use cote_ai_simulation.Codec.{
  canonical_bytes, canonical_payload, normalize, normalize_text, contains_unassigned,
  search_unassigned, strict_decode_envelope, strict_decode_payload,
}
use cote_ai_simulation.Domain.Patterns.{match_string, validate_domain_tag, validate_machine_id}
use cote_ai_simulation.Value.{signed_int64, as_32_bytes}
use cote_ai_simulation.Store.Maps.{lookup, without, entries}
use cote_ai_simulation.Base.Sort.{insert, sort}
use cote_ai_simulation.Tests.Toy.{encode, read}
use cote_ai_simulation.Tests.Fixtures.{total, digest_of, bytes_of}
use cote_ai_simulation.Base.{◌≡◌, refl, List, [], ◌∷◌, ok, err}
use cote_ai_simulation.Value.{Value, uint64}
use cote_ai_simulation.Decision.{PolicyRefs}
use cote_ai_simulation.Decision.Results.{DecisionResult}
use cote_ai_simulation.Decision.Decided.{IsDecided, run-IsDecided}
use cote_ai_simulation.Tests.Responses.{
  deriver, derived, envelope, envelope_bytes, response, action, refusal, input,
}

abbrev pub refs : PolicyRefs
refs =
    let ref : List Value = uint64 0 ∷ uint64 1 ∷ uint64 2 ∷ [] in
    record { validators = ref; conflict_resolvers = ref; rng = ref; idempotency = ref }

unfoldable decided : DecisionResult
decided = elim (run (deriver (envelope ∷ [])) refs input) [ ok r ↦ r | err e ↦ e.0 ]

run_ok : run (deriver (envelope ∷ [])) refs input ≡ ok decided
unfolding derived envelope_bytes response action refusal input decided refs_equal find_schema
    check_response check_no_proposal check_parameters check_action claimed_amount prepare_action
    validate_response hex namespace_of agrees bind_history idempotency_key logical_digest bind_unit
    resolve_keyed resolve_unit resolve_units resolve_aliases viable_of is_exhausted classify
    unresolved unsupported_of asks_all winner canonical_id_less holds are_sources candidate_fields
    make_candidate assess mark all_held none_held claim_sources claim_all is_covered check_partition
    include add_group are_listed verify_candidate_identity verify_candidate scan_claim scan_claims
    scan_invariants scan_refs scan_candidate scan_candidates is_exceeded group_resources
    group_writes make_conflict make_conflicts detect_claims by_source dispose_candidate dispose_unit
    dispose lowest_bit named_substream named_draw check_schemas deliver read_units order_units
    missing_facet set_field drafts add_draft drafted_candidate gather_known gather_faceted
    gather_unit gather unit_digests unit_sources indeterminate_values sealed_value seal refuse
    refuse_unresolved resolve_stage prepare_units check_gathered gather_stage detect_stage
    draw_stage settle_stage allocate run sum operation find_operation find_in bytes_equal
    bytes_compare canonical_bytes canonical_payload normalize normalize_text contains_unassigned
    search_unassigned strict_decode_envelope strict_decode_payload match_string validate_domain_tag
    validate_machine_id signed_int64 as_32_bytes lookup without entries insert sort encode read
    total digest_of bytes_of
run_ok = refl

-- 3 of the 10 are committed.
run-IsDecided_example : IsDecided (deriver (envelope ∷ [])) refs input decided
run-IsDecided_example = run-IsDecided (deriver (envelope ∷ [])) refs input decided run_ok
