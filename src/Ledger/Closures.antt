-- ===== src/Ledger/Closures.antt =====
-- `DeclareSource` and `CloseSource` of internal/csf/inputledger/ledger.go.
use cote_ai_simulation.Base.{
  ◌&&◌, Bool, true, false, not, if◌then◌else◌, List, [], ◌∷◌, ◌++◌, some, none, Result, ok, err,
  ◌>>=◌, ◌>>◌, guard, Ordering,
}
use cote_ai_simulation.Base.Bytes.{Bytes, literal}
use cote_ai_simulation.Domain.{EligibilityCoordinate, compare_coordinate, is_gt}
use cote_ai_simulation.Domain.Patterns.{validate_machine_id}
use cote_ai_simulation.Value.{Value, boolean, text, byte_string, uint64, list, field}
use cote_ai_simulation.Identity.{sum, opaque_content_hash}
use cote_ai_simulation.Store.Maps.{lookup, put}
use cote_ai_simulation.Store.Methods.{append_source_declaration, next_ingress_sequence}
use cote_ai_simulation.Ledger.{
  Ledger, LedgerError, Stored, unknown_source, final_source, sources_are_frozen, source_declared,
  closure_backward, identity_collision, invalid_machine_id, of_identity, of_store, contains,
}
use cote_ai_simulation.Ledger.Bodies.{coord_value}
use cote_ai_simulation.Ledger.Sources.{
  Closure, closed_at, is_final, listed, canonical_fields, append_receipt,
}

-- `DeclareSource`
unfoldable pub declare_source : Ledger → Bytes → Result LedgerError Ledger
declare_source l source = do
  guard (validate_machine_id source) invalid_machine_id
  guard (not l.sources_frozen) sources_are_frozen
  guard (not (contains l.sources source)) source_declared
  canonical ←
      canonical_fields l
        (text (literal "source-declaration-v1") ∷ byte_string l.run_id ∷ text source ∷ [])
  store ← of_store (
      append_source_declaration l.deriver.codec l.input_store l.run_id
        (record { identity = opaque_content_hash l.deriver canonical; canonical = canonical }))
  ok (record l { input_store = store; sources = source ∷ l.sources })

abbrev pub closure_id : Ledger → Bytes → Closure → Result LedgerError Bytes
closure_id l source closure = of_identity (
    sum l.deriver (literal "cote.csf.id.source-closure")
      (literal "cote.csf.schema.source-closure-id-preimage") 1
      (list (byte_string l.run_id ∷ text source ∷ text closure.producer_key ∷ [])))

abbrev pub closure_fields : Ledger → Bytes → Bytes → Closure → List Value
closure_fields l id source closure =
    byte_string id
    ∷ byte_string l.run_id
    ∷ text source
    ∷ text closure.producer_key
    ∷ coord_value closure.closed_through
    ∷ boolean closure.final
    ∷ uint64 (next_ingress_sequence l.input_store source)
    ∷ []

abbrev pub closure_digest : Ledger → List Value → Result LedgerError Bytes
closure_digest l fields = of_identity (
    sum l.deriver (literal "cote.csf.digest.source-closure")
      (literal "cote.csf.schema.source-closure") 1 (list fields))

abbrev pub is_eq : Ordering → Bool
is_eq o = elim o [ Ordering.eq ↦ true | _ ↦ false ]

-- `old.Fields[5] != closure.Final`, negated.
abbrev pub has_flag : Value → Bool → Bool
has_flag (boolean true) true = true
has_flag (boolean false) false = true
has_flag _ _ = false

-- The closure of an ID that the ledger has: the same closure, or a collision.
unfoldable pub repeat_closure : Ledger → Closure → Stored → Result LedgerError (Ledger × Stored)
repeat_closure l closure old = do
  guard
      (is_eq (compare_coordinate (closed_at old) closure.closed_through)
        && has_flag (field old.fields 5) closure.final)
      identity_collision
  ok (l, old)

-- The loop over the source's closures.
unfoldable pub may_close : List Stored → EligibilityCoordinate → Result LedgerError (Unit {0})
may_close [] through = ok tt
may_close (prior ∷ rest) through =
    let later = may_close rest through in
    if is_final prior
    then err final_source
    else (if is_gt (compare_coordinate (closed_at prior) through)
        then err closure_backward
        else later)

abbrev pub new_closure_result : Ledger → Bytes → Stored → Ledger × Stored
new_closure_result m source stored = (
  record m {
    closures = put source (listed source m.closures ++ stored ∷ []) m.closures;
    closure_by_id = put stored.id stored m.closure_by_id;
  },
  stored,
)

-- `CloseSource` for a new ID.
unfoldable pub new_closure : Ledger → Bytes → Bytes → Closure → Result LedgerError (Ledger × Stored)
new_closure l source id closure = do
  may_close (listed source l.closures) closure.closed_through
  digest ← closure_digest l (closure_fields l id source closure)
  canonical ← canonical_fields l (closure_fields l id source closure)
  (m, receipt) ← append_receipt l source 2 id digest canonical
  ok (
      new_closure_result m source (record {
        id = id;
        digest = digest;
        fields = closure_fields l id source closure;
        canonical = canonical;
        receipt = receipt;
      }))

abbrev pub closure_by : Ledger → Bytes → Bytes → Closure → Result LedgerError (Ledger × Stored)
closure_by l source id closure = elim (lookup id l.closure_by_id) [
  | some old ↦ repeat_closure l closure old
  | none ↦ new_closure l source id closure
]

-- `CloseSource`
unfoldable pub close_source : Ledger → Bytes → Closure → Result LedgerError (Ledger × Stored)
close_source l source closure = do
  guard (contains l.sources source) unknown_source
  guard (validate_machine_id closure.producer_key) invalid_machine_id
  id ← closure_id l source closure
  closure_by l source id closure
