-- ===== src/Ledger/Histories.antt =====
-- The end of `restore` of internal/csf/inputledger/ledger.go: the receipts of each source are
-- attached to their inputs and closures, in the order of their sequences; and `Open` and
-- `AdmissionView`, which call it.
use cote_ai_simulation.Base.{
  ℕ, ◌+◌, ◌&&◌, Bool, true, false, not, ◌==◌, ltb, if◌then◌else◌, List, [], ◌∷◌, ◌++◌, Option, some,
  none, length, Result, ok, err, ◌>>=◌, ◌>>◌, guard,
}
use cote_ai_simulation.Base.Bytes.{Bytes, bytes_equal}
use cote_ai_simulation.Base.Sort.{sort}
use cote_ai_simulation.Domain.{EligibilityCoordinate, compare_coordinate, is_gt, is_lt}
use cote_ai_simulation.Value.{Value, field, as_uint64, is_literal}
use cote_ai_simulation.Identity.{Deriver}
use cote_ai_simulation.IngressGuard.{CanonicalRecord}
use cote_ai_simulation.Store.{Store}
use cote_ai_simulation.Store.Methods.{records_of}
use cote_ai_simulation.Store.Maps.{lookup, put}
use cote_ai_simulation.Ledger.{Ledger, Stored, IngressReceipt, contains}
use cote_ai_simulation.Ledger.Sources.{listed, closed_at, is_final, coordinate}
use cote_ai_simulation.Ledger.Snapshots.{project_settled_no_proposal_rounds}
use cote_ai_simulation.Ledger.Records.{
  RestoreError, undeclared_source, ingress_after_final, ingress_gap, receipt_differs,
  input_not_above, closure_regressed, missing_record, missing_receipt,
}
use cote_ai_simulation.Ledger.Restore.{Receipt, new_ledger}
use cote_ai_simulation.Ledger.Restore.Answers.{read_records}

-- The variables of the loop over the receipts of a source. `last_closed` is `none` where
-- `hasClosure` is false.
pub record Attaching : Type 0 where
  pub ledger : Ledger
  pub last_closed : Option EligibilityCoordinate
  pub final : Bool
  pub attached : List Bytes

abbrev pub receipt_of : Receipt → Bytes → Stored → IngressReceipt
receipt_of r source stored = record {
  source_id = source;
  sequence = r.seq;
  ref_kind = r.kind;
  ref_id = stored.id;
  ref_digest = stored.digest;
  canonical = r.bytes;
}

-- The last closure, if there is one, is before the coordinate.
abbrev pub above_last : Option EligibilityCoordinate → EligibilityCoordinate → Bool
above_last none c = true
above_last (some last) c = is_gt (compare_coordinate c last)

-- The last closure, if there is one, is not after the coordinate.
abbrev pub not_regressed : Option EligibilityCoordinate → EligibilityCoordinate → Bool
not_regressed none c = true
not_regressed (some last) c = not (is_lt (compare_coordinate c last))

abbrev pub is_sequence : Value → ℕ → Bool
is_sequence v n = elim (as_uint64 v) [ none ↦ false | some m ↦ m == n ]

unfoldable pub attach_input : Bytes → Attaching → Receipt → Stored → Result RestoreError Attaching
attach_input source s r input = do
  guard
      ((r.kind == 1)
        && (bytes_equal r.digest input.digest && is_literal (field input.fields 2) source))
      receipt_differs
  guard (above_last s.last_closed (coordinate (field input.fields 9))) input_not_above
  let stored : Stored = record input { receipt = receipt_of r source input }
  let l = s.ledger
  ok (record s {
    ledger = record l {
      inputs = put source (listed source l.inputs ++ stored ∷ []) l.inputs;
      input_by_id = put input.id stored l.input_by_id;
    };
    attached = input.id ∷ s.attached;
  })

unfoldable pub attach_closure : Bytes → Attaching → Receipt → Stored → Result RestoreError Attaching
attach_closure source s r closure = do
  guard
      ((r.kind == 2)
        && (bytes_equal r.digest closure.digest
            && (is_literal (field closure.fields 2) source
                && is_sequence (field closure.fields 6) r.seq)))
      receipt_differs
  guard (not_regressed s.last_closed (closed_at closure)) closure_regressed
  let stored : Stored = record closure { receipt = receipt_of r source closure }
  let l = s.ledger
  ok (record {
    ledger = record l {
      closures = put source (listed source l.closures ++ stored ∷ []) l.closures;
      closure_by_id = put closure.id stored l.closure_by_id;
    };
    last_closed = some (closed_at closure);
    final = is_final closure;
    attached = closure.id ∷ s.attached;
  })

module _ (inputs closures : List (Bytes × Stored)) (source : Bytes) where
  -- The input or the closure that the receipt is of.
  unfoldable pub attach_record : Attaching → Receipt → Result RestoreError Attaching
  attach_record s r = elim (lookup r.id inputs) [
    | some input ↦ attach_input source s r input
    | none ↦ elim (lookup r.id closures) [
      | some closure ↦ attach_closure source s r closure
      | none ↦ err missing_record
    ]
  ]

  -- The body of the loop over the receipts of a source, at position i.
  unfoldable pub attach : ℕ → Attaching → Receipt → Result RestoreError Attaching
  attach i s r = do
    guard (not s.final) ingress_after_final
    guard (r.seq == i) ingress_gap
    attach_record s r

  unfoldable pub attach_all : ℕ → Attaching → List Receipt → Result RestoreError Attaching
  attach_all i s [] = ok s
  attach_all i s (r ∷ rs) = (attach i s r >>= λ t. attach_all (i + 1) t rs)

unfoldable pub receipts_of : List (Bytes × Receipt) → List Receipt
receipts_of [] = []
receipts_of ((id, r) ∷ m) = r ∷ receipts_of m

-- `bySource[source]`
unfoldable pub of_source : Bytes → List Receipt → List Receipt
of_source source [] = []
of_source source (r ∷ rs) =
    let rest = of_source source rs in if bytes_equal r.source source then r ∷ rest else rest

-- The keys of `bySource`.
unfoldable pub sources_in : List Receipt → List Bytes
sources_in [] = []
sources_in (r ∷ rs) =
    let rest = sources_in rs in if contains rest r.source then rest else r.source ∷ rest

abbrev pub seq_before : Receipt → Receipt → Bool
seq_before a b = ltb a.seq b.seq

-- The body of the loop over the sources.
unfoldable pub restore_source :
    List (Bytes × Stored)
    → List (Bytes × Stored)
    → List Receipt
    → Ledger × List Bytes
    → Bytes
    → Result RestoreError (Ledger × List Bytes)
restore_source inputs closures receipts s source = do
  guard (contains s.0.sources source) undeclared_source
  let history = sort seq_before (of_source source receipts)
  end ←
      attach_all inputs closures source 0
        (record { ledger = s.0; last_closed = none; final = false; attached = s.1 }) history
  let l = end.ledger
  ok (record l { cursors = put source (length history) l.cursors }, end.attached)

unfoldable pub restore_sources :
    List (Bytes × Stored)
    → List (Bytes × Stored)
    → List Receipt
    → Ledger × List Bytes
    → List Bytes
    → Result RestoreError (Ledger × List Bytes)
restore_sources inputs closures receipts s [] = ok s
restore_sources inputs closures receipts s (source ∷ sources) =
    (restore_source inputs closures receipts s source >>= λ t.
    restore_sources inputs closures receipts t sources)

-- The keys of the map are among the attached IDs.
unfoldable pub all_attached : List Bytes → List (Bytes × Stored) → Bool
all_attached attached [] = true
all_attached attached ((id, stored) ∷ m) = contains attached id && all_attached attached m

-- `restore`, on a new ledger.
unfoldable pub restore : Deriver → Ledger → List CanonicalRecord → Result RestoreError Ledger
restore d l records = do
  s ←
      read_records d
        (record { ledger = l; receipts = []; inputs = []; closures = []; dispatches = [] }) records
  let receipts = receipts_of s.receipts
  r ← restore_sources s.inputs s.closures receipts (s.ledger, []) (sources_in receipts)
  guard (all_attached r.1 s.inputs) missing_receipt
  guard (all_attached r.1 s.closures) missing_receipt
  let m = r.0
  ok (record m { sources_frozen = not (length records == 0) })

-- `Open`, for a store that lists its records; `settled` is the reader of settled units, if there
-- is one.
unfoldable pub open_ledger :
    Option (Bytes → Bool) → Bytes → Deriver → Store → Result RestoreError Ledger
open_ledger settled run_id d store = do
  l ← restore d (new_ledger run_id d store) (records_of store)
  ok (project_settled_no_proposal_rounds settled l)

-- `AdmissionView`: the ledger that the store's records make, and the records.
unfoldable pub admission_view :
    Option (Bytes → Bool) → Deriver → Ledger → Result RestoreError (Ledger × List CanonicalRecord)
admission_view settled d l = do
  view ← open_ledger settled l.run_id d l.input_store
  ok (view, records_of l.input_store)
