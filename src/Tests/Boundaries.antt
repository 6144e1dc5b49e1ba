-- ===== src/Tests/Boundaries.antt =====
-- Examples of a ledger that is opened from a store (internal/csf/inputledger/ledger.go), and of an
-- admission over it (internal/csf/admission/fence.go).
use cote_ai_simulation.Admission.Derive.{advance_target_of, all_responses, closure_at, seal_fence}
use cote_ai_simulation.Admission.{each, verify_closure, verify_input, verify_response, verify_round}
use cote_ai_simulation.Ledger.Sources.{coordinate, parse_coordinate}
use cote_ai_simulation.Value.{as_32_bytes, signed_int64}
use cote_ai_simulation.Identity.{find_in, find_operation, operation, sum}
use cote_ai_simulation.Base.Bytes.{bytes_compare, bytes_equal}
use cote_ai_simulation.Codec.{
  canonical_bytes, canonical_payload, contains_unassigned, normalize, normalize_text,
  search_unassigned, strict_decode_envelope, strict_decode_payload,
}
use cote_ai_simulation.Domain.Patterns.{match_string, validate_domain_tag, validate_machine_id}
use cote_ai_simulation.Tests.Toy.{encode, read}
use cote_ai_simulation.Tests.Fixtures.{
  bytes_of, closure_fields, closure_id, derived, input_body, input_id, receipt_bytes, total,
}
use cote_ai_simulation.Admission.Units.{
  closure_proofs, eligible_rounds, input_units, matches_cycle, qualifies, round_units,
  select_closure, slot_units, system_units, unit_less,
}
use cote_ai_simulation.Base.Sort.{insert, sort}
use cote_ai_simulation.Domain.{compare_coordinate, equal_preimage}
use cote_ai_simulation.Store.Maps.{lookup}
use cote_ai_simulation.Ledger.Histories.{
  all_attached, attach, attach_all, attach_closure, attach_input, attach_record, of_source,
  receipts_of, restore, restore_source, restore_sources, sources_in,
}
use cote_ai_simulation.Ledger.Restore.{
  read_closure, read_dispatch, read_input, read_receipt, read_round, read_source, receipt_value,
}
use cote_ai_simulation.Ledger.Restore.Answers.{
  read_answer, read_fields, read_record, read_records, read_revoked,
}
use cote_ai_simulation.Ledger.Records.{restore_closure, restore_input, take}
use cote_ai_simulation.Ledger.{contains}
use cote_ai_simulation.Ledger.Snapshots.{project_settled_no_proposal_rounds}
use cote_ai_simulation.Store.{append_input_locked, guarded_kind, unsealed, validate_source}
use cote_ai_simulation.Store.Methods.{append, append_source_declaration, records_of}
use cote_ai_simulation.Store.Run.{step}
use cote_ai_simulation.Base.{Bool, false, ℕ, ◌≡◌, refl, true, List, [], ◌∷◌, none, Result, ok, err}
use cote_ai_simulation.Base.Bytes.{Bytes, literal}
use cote_ai_simulation.Base.Int.{pos}
use cote_ai_simulation.Value.{Value, null, byte_string, text, uint64, list}
use cote_ai_simulation.IngressGuard.{CanonicalRecord}
use cote_ai_simulation.Store.{Store, new}
use cote_ai_simulation.Store.Run.{Call, append_call, source_call, run}
use cote_ai_simulation.Ledger.{Ledger, Stored}
use cote_ai_simulation.Ledger.Snapshots.{Snapshot}
use cote_ai_simulation.Ledger.Restore.{new_ledger}
use cote_ai_simulation.Ledger.Histories.{open_ledger}
use cote_ai_simulation.Ledger.Reopened.{open_ledger-IsRestored}
use cote_ai_simulation.Ledger.Recount.{IsRestored}
use cote_ai_simulation.Admission.{Cycle, Policies, Fence}
use cote_ai_simulation.Admission.Derive.{derive}
use cote_ai_simulation.Tests.Toy.{toy}
use cote_ai_simulation.Tests.Fixtures.{
  zeros, digest_of, run_id, deriver, bytes_of_list, source, input, closure,
}

declaration : List Value
declaration = text (literal "source-declaration-v1") ∷ byte_string run_id ∷ text source ∷ []

envelope_of : ℕ → ℕ → Stored → Value
envelope_of sequence kind stored = list (
    byte_string (67 ∷ 83 ∷ 70 ∷ 0 ∷ [])
    ∷ uint64 1
    ∷ text (literal "cote.csf.record.source-ingress-receipt")
    ∷ text (literal "cote.csf.schema.source-ingress-receipt")
    ∷ uint64 1
    ∷ list (
        text source
        ∷ uint64 sequence
        ∷ list (uint64 kind ∷ byte_string stored.id ∷ byte_string stored.digest ∷ [])
        ∷ [])
    ∷ [])

abbrev cycle : Cycle
cycle = record {
  id = 4 ∷ zeros;
  attempt = 0;
  plan = none;
  instant = pos 5;
  ordinal = 0;
  base_revision = 0;
  base_state_hash = zeros;
  retry_ref = list (uint64 0 ∷ []);
}

abbrev policies : Policies
policies = record { admission_order = null; causal_identity = null; fence = null; rules = list [] }

cohort : Snapshot
unfolding input closure
cohort = record {
  sources = source ∷ [];
  inputs = input (97 ∷ []) 5 0 ∷ [];
  closures = closure 1 ∷ [];
  rounds = [];
  slots = [];
  run_id = run_id;
}

fence_fields : List Value
unfolding cohort
fence_fields = elim (derive (deriver []) none policies cycle cohort) [
  | ok f ↦ f.fields
  | err e ↦ []
]

-- What the codec reads.
table : List Value
unfolding declaration envelope_of input closure fence_fields
table =
    list declaration
    ∷ list (input (97 ∷ []) 5 0).fields
    ∷ envelope_of 0 1 (input (97 ∷ []) 5 0)
    ∷ list (closure 1).fields
    ∷ envelope_of 1 2 (closure 1)
    ∷ list fence_fields
    ∷ []

content : Bytes → CanonicalRecord
unfolding digest_of
content b = record { identity = digest_of b; canonical = b }

stored_record : Stored → CanonicalRecord
stored_record s = record { identity = s.id; canonical = s.canonical }

-- The calls that fill the store.
calls : List Call
unfolding declaration content stored_record input closure bytes_of_list
calls =
    append_call (content (bytes_of_list declaration))
    ∷ append_call (stored_record (input (97 ∷ []) 5 0))
    ∷ append_call (content (input (97 ∷ []) 5 0).receipt.canonical)
    ∷ append_call (stored_record (closure 1))
    ∷ append_call (content (closure 1).receipt.canonical)
    ∷ []

filled : Store
unfolding table calls
filled = run (toy table) digest_of new calls

is_ok : {E A : Type 0} → Result E A → Bool
is_ok (ok x) = true
is_ok (err e) = false

ok_value : {E A : Type 0} (r : Result E A) → is_ok r ≡ true → (x : A) × (r ≡ ok x)
unfolding is_ok
ok_value (ok x) h = (x, refl)
ok_value (err e) h = cc

store_opens : is_ok (open_ledger none run_id (deriver table) filled) ≡ true
unfolding is_ok filled table calls declaration content stored_record envelope_of receipt_value
    fence_fields cohort derive each verify_input parse_coordinate signed_int64 sum operation find_in
    find_operation bytes_equal canonical_bytes validate_domain_tag normalize contains_unassigned
    search_unassigned encode digest_of canonical_payload advance_target_of all_responses closure_at
    seal_fence closure_proofs eligible_rounds input_units matches_cycle qualifies round_units
    select_closure slot_units system_units unit_less verify_closure verify_response verify_round
    bytes_compare insert sort normalize_text match_string compare_coordinate coordinate lookup
    bytes_of bytes_of_list closure closure_fields closure_id derived input input_body input_id
    receipt_bytes total read open_ledger restore attach_input attach_closure attach_record attach
    attach_all receipts_of of_source sources_in restore_source restore_sources all_attached
    new_ledger read_receipt read_source read_input read_closure read_round read_dispatch read_answer
    read_revoked read_fields read_record read_records restore_input restore_closure take contains
    project_settled_no_proposal_rounds validate_machine_id as_32_bytes strict_decode_payload
    strict_decode_envelope guarded_kind append_input_locked validate_source unsealed new append
    append_source_declaration records_of run step equal_preimage
store_opens = refl

opened : (l : Ledger) × (open_ledger none run_id (deriver table) filled ≡ ok l)
opened = ok_value (open_ledger none run_id (deriver table) filled) store_opens

open_ledger-IsRestored_example : IsRestored opened.0
open_ledger-IsRestored_example =
    open_ledger-IsRestored (deriver table) run_id filled none opened.0 opened.1

abbrev accept : Fence → Result (Unit {0}) (Unit {0})
accept fence = ok tt

writer : Ledger
unfolding filled new_ledger
writer = new_ledger run_id (deriver table) filled

-- Another writer's declaration of a source, which is refused: the record is none.
abbrev between : List Call
between = source_call run_id (record { identity = []; canonical = [] }) ∷ []
