-- ===== src/Tests/Fenced.antt =====
-- An example of a decision over a published fence, from the cohort to the dispositions
-- (internal/csf/decision/fence_bridge.go, run.go).
use cote_ai_simulation.Decision.Responses.{
  check_action, check_no_proposal, check_parameters, check_response, claimed_amount, find_schema,
  prepare_action, refs_equal, validate_response,
}
use cote_ai_simulation.Decision.Aliases.{
  agrees, bind_history, bind_unit, idempotency_key, logical_digest, namespace_of, resolve_aliases,
  resolve_keyed, resolve_unit, resolve_units,
}
use cote_ai_simulation.Decision.Allocation.{
  asks_all, classify, is_exhausted, unresolved, unsupported_of, viable_of, winner,
}
use cote_ai_simulation.Decision.Candidates.{
  all_held, are_sources, assess, candidate_fields, canonical_id_less, check_partition, claim_all,
  claim_sources, holds, is_covered, make_candidate, mark, none_held,
}
use cote_ai_simulation.Decision.Claims.{
  add_group, are_listed, include, scan_candidate, scan_candidates, scan_claim, scan_claims,
  scan_invariants, scan_refs, verify_candidate, verify_candidate_identity,
}
use cote_ai_simulation.Decision.Claims.Conflicts.{
  detect_claims, group_resources, group_writes, is_exceeded, make_conflict, make_conflicts,
}
use cote_ai_simulation.Decision.Disposal.{by_source, dispose, dispose_candidate, dispose_unit}
use cote_ai_simulation.Decision.Draws.{lowest_bit, named_draw, named_substream}
use cote_ai_simulation.Decision.Gather.{
  add_draft, check_schemas, deliver, drafted_candidate, drafts, gather, gather_faceted,
  gather_known, gather_unit, missing_facet, order_units, read_units, set_field,
}
use cote_ai_simulation.Decision.Results.{
  DecisionResult, indeterminate_values, seal, sealed_value, unit_digests, unit_sources,
}
use cote_ai_simulation.Decision.Run.{
  allocate, check_gathered, detect_stage, draw_stage, gather_stage, prepare_units, refuse,
  refuse_unresolved, resolve_stage, run, settle_stage,
}
use cote_ai_simulation.Identity.{find_in, find_operation, operation, sum}
use cote_ai_simulation.Base.Bytes.{bytes_compare, bytes_equal, hex}
use cote_ai_simulation.Codec.{
  canonical_bytes, canonical_payload, contains_unassigned, normalize, normalize_text,
  search_unassigned, strict_decode_envelope, strict_decode_payload,
}
use cote_ai_simulation.Domain.Patterns.{match_string, validate_domain_tag, validate_machine_id}
use cote_ai_simulation.Value.{Value, as_32_bytes, as_array, byte_string, field, signed_int64}
use cote_ai_simulation.Store.Maps.{entries, lookup, without}
use cote_ai_simulation.Base.Sort.{insert, sort}
use cote_ai_simulation.Tests.Toy.{encode, read}
use cote_ai_simulation.Tests.Fixtures.{bytes_of, digest_of, total}
use cote_ai_simulation.Base.{List, [], err, false, map, none, ok, refl, some, ◌∷◌, ◌≡◌}
use cote_ai_simulation.Tests.Responses.{
  action, derived, deriver, envelope, envelope_bytes, input, refusal, response,
}
use cote_ai_simulation.Admission.{each, verify_closure, verify_input, verify_response, verify_round}
use cote_ai_simulation.Ledger.Sources.{coordinate, parse_coordinate}
use cote_ai_simulation.Admission.Derive.{
  advance_target_of, all_responses, closure_at, derive, seal_fence, verify_fence,
}
use cote_ai_simulation.Admission.Units.{
  closure_proofs, eligible_rounds, input_units, matches_cycle, qualifies, round_units,
  select_closure, slot_units, system_units, unit_less,
}
use cote_ai_simulation.Domain.{compare_coordinate}
use cote_ai_simulation.Decision.Bridge.{
  add_responses, from_persisted_fence, resolve_fenced, resolve_kind, resolve_slot, responses_by_id,
}
use cote_ai_simulation.Tests.Fences.{
  cohort, cycle, fence, fenced, policies, round, round_fields, round_id,
}
use cote_ai_simulation.Decision.Fenced.{run_fenced, slot_ids}
use cote_ai_simulation.Decision.Conserved.{subject_of}
use cote_ai_simulation.Tests.Decisions.{refs}

assembled_ok :
    from_persisted_fence
      (deriver (envelope ∷ []))
      none
      (λ id. some fence.canonical)
      cohort
      cycle
      policies
      fence
      input.snapshot
      input.schemas
      input.seed
      []
      false
    ≡ ok fenced
unfolding derived input cohort round round_id round_fields fence fenced envelope_bytes response
    action refusal refs_equal find_schema check_response check_no_proposal check_parameters
    check_action claimed_amount prepare_action validate_response hex namespace_of agrees
    bind_history idempotency_key logical_digest bind_unit resolve_keyed resolve_unit resolve_units
    resolve_aliases viable_of is_exhausted classify unresolved unsupported_of asks_all winner
    canonical_id_less holds are_sources candidate_fields make_candidate assess mark all_held
    none_held claim_sources claim_all is_covered check_partition include add_group are_listed
    verify_candidate_identity verify_candidate scan_claim scan_claims scan_invariants scan_refs
    scan_candidate scan_candidates is_exceeded group_resources group_writes make_conflict
    make_conflicts detect_claims by_source dispose_candidate dispose_unit dispose lowest_bit
    named_substream named_draw check_schemas deliver read_units order_units missing_facet set_field
    drafts add_draft drafted_candidate gather_known gather_faceted gather_unit gather unit_digests
    unit_sources indeterminate_values sealed_value seal refuse refuse_unresolved resolve_stage
    prepare_units check_gathered gather_stage detect_stage draw_stage settle_stage allocate run sum
    operation find_operation find_in bytes_equal bytes_compare canonical_bytes canonical_payload
    normalize normalize_text contains_unassigned search_unassigned strict_decode_envelope
    strict_decode_payload match_string validate_domain_tag validate_machine_id signed_int64
    as_32_bytes lookup without entries insert sort encode read total digest_of bytes_of derive each
    verify_input parse_coordinate advance_target_of all_responses closure_at seal_fence
    closure_proofs eligible_rounds input_units matches_cycle qualifies round_units select_closure
    slot_units system_units unit_less verify_closure verify_response verify_round compare_coordinate
    coordinate verify_fence from_persisted_fence add_responses responses_by_id resolve_slot
    resolve_kind resolve_fenced
assembled_ok = refl

unfoldable decided : DecisionResult
decided = elim (run (deriver (envelope ∷ [])) refs fenced) [ ok r ↦ r | err e ↦ e.0 ]

decided_ok : run (deriver (envelope ∷ [])) refs fenced ≡ ok decided
unfolding decided derived input cohort round round_id round_fields fence fenced envelope_bytes
    response action refusal refs_equal find_schema check_response check_no_proposal check_parameters
    check_action claimed_amount prepare_action validate_response hex namespace_of agrees
    bind_history idempotency_key logical_digest bind_unit resolve_keyed resolve_unit resolve_units
    resolve_aliases viable_of is_exhausted classify unresolved unsupported_of asks_all winner
    canonical_id_less holds are_sources candidate_fields make_candidate assess mark all_held
    none_held claim_sources claim_all is_covered check_partition include add_group are_listed
    verify_candidate_identity verify_candidate scan_claim scan_claims scan_invariants scan_refs
    scan_candidate scan_candidates is_exceeded group_resources group_writes make_conflict
    make_conflicts detect_claims by_source dispose_candidate dispose_unit dispose lowest_bit
    named_substream named_draw check_schemas deliver read_units order_units missing_facet set_field
    drafts add_draft drafted_candidate gather_known gather_faceted gather_unit gather unit_digests
    unit_sources indeterminate_values sealed_value seal refuse refuse_unresolved resolve_stage
    prepare_units check_gathered gather_stage detect_stage draw_stage settle_stage allocate run sum
    operation find_operation find_in bytes_equal bytes_compare canonical_bytes canonical_payload
    normalize normalize_text contains_unassigned search_unassigned strict_decode_envelope
    strict_decode_payload match_string validate_domain_tag validate_machine_id signed_int64
    as_32_bytes lookup without entries insert sort encode read total digest_of bytes_of derive each
    verify_input parse_coordinate advance_target_of all_responses closure_at seal_fence
    closure_proofs eligible_rounds input_units matches_cycle qualifies round_units select_closure
    slot_units system_units unit_less verify_closure verify_response verify_round compare_coordinate
    coordinate verify_fence from_persisted_fence add_responses responses_by_id resolve_slot
    resolve_kind resolve_fenced
decided_ok = refl

-- The round's action and its refusal, in the order of the fence.
run_fenced_example :
    (raws : List Value) × (as_array (field fence.fields 11) ≡ some raws)
    × (map byte_string (map subject_of decided.dispositions) ≡ slot_ids raws)
run_fenced_example =
    run_fenced (deriver (envelope ∷ [])) none (λ id. some fence.canonical) cohort cycle policies
      fence input.snapshot input.schemas input.seed [] false refs fenced decided assembled_ok
      decided_ok
