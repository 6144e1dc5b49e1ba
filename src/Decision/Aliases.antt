-- ===== src/Decision/Aliases.antt =====
-- `resolveAliases` of internal/csf/decision/kernel.go: units under one idempotency key are one
-- operation.
use cote_ai_simulation.Base.{
  ◌&&◌, ◌||◌, Bool, true, not, ◌==◌, if◌then◌else◌, List, [], ◌∷◌, ◌++◌, Option, some, none, length,
  Result, ok, ◌>>=◌, ◌>>◌, guard, or_fail,
}
use cote_ai_simulation.Base.Bytes.{Bytes, bytes_equal, literal, hex}
use cote_ai_simulation.Domain.Patterns.{validate_machine_id}
use cote_ai_simulation.Value.{
  Value, text, byte_string, uint64, list, field, as_array, as_text, is_uint64,
}
use cote_ai_simulation.Identity.{Deriver}
use cote_ai_simulation.Store.Maps.{lookup, put}
use cote_ai_simulation.Decision.{
  DecisionError, Prepared, HistoryBinding, provenance, idempotency, zero_id,
}
use cote_ai_simulation.Decision.Responses.{derive}

abbrev slash : Bytes → Bytes
slash rest = 47 ∷ rest

-- `namespace`
unfoldable pub namespace_of : Prepared → Bytes → Bytes
namespace_of p key =
    let x = p.unit.response in
    hex x.run_id
    ++ slash (
        literal "0"
        ++ slash (
            p.unit.producer_scope
            ++ slash (x.actor.namespace ++ slash (x.actor.actor_id ++ slash key))))

abbrev pub Bindings : Type 0
Bindings = List (Bytes × HistoryBinding)

-- The binding under the namespace, if there is one, is of the same unit and operation.
unfoldable pub agrees : Bindings → HistoryBinding → Bool
agrees bindings h = elim (lookup h.namespace bindings) [
  | none ↦ true
  | some old ↦
      bytes_equal old.canonical_unit h.canonical_unit
      && bytes_equal old.logical_digest h.logical_digest
]

-- The loop over the history.
unfoldable pub bind_history : Bindings → List HistoryBinding → Result DecisionError Bindings
bind_history bindings [] = ok bindings
bind_history bindings (h ∷ hs) = do
  guard (not (length h.namespace == 0) && not (bytes_equal h.canonical_unit zero_id)) provenance
  guard (agrees bindings h) idempotency
  bind_history (put h.namespace h bindings) hs

abbrev present_key : List Value → Result DecisionError (Option Bytes)
present_key opt = do
  guard (is_uint64 (field opt 0) 1 && (length opt == 2)) provenance
  key ← or_fail (as_text (field opt 1)) provenance
  guard (validate_machine_id key) provenance
  ok (some key)

abbrev key_of : List Value → Result DecisionError (Option Bytes)
key_of opt =
    if is_uint64 (field opt 0) 0
    then (guard (length opt == 1) provenance >> ok none)
    else present_key opt

-- The optional idempotency key of an action: `some none` is an absent one.
unfoldable pub idempotency_key : Value → Result DecisionError (Option Bytes)
idempotency_key v = do
  opt ← or_fail (as_array v) provenance
  guard (not (length opt == 0)) provenance
  key_of opt

-- The operation, without proposal, dispatch, delivery and admission.
abbrev logical_operation : List Value → Value
logical_operation body = list (
    field body 4
    ∷ field body 5
    ∷ field body 6
    ∷ field body 7
    ∷ field body 8
    ∷ field body 9
    ∷ field body 10
    ∷ field body 11
    ∷ field body 12
    ∷ field body 16
    ∷ [])

module _ (d : Deriver) (ref : List Value) where
  unfoldable pub logical_digest : Prepared → Bytes → Result DecisionError Bytes
  logical_digest p key =
      let x = p.unit.response in
      derive d "cote.csf.digest.idempotency" "cote.csf.schema.idempotency-preimage" (
        list (
          byte_string x.run_id
          ∷ uint64 0
          ∷ text p.unit.producer_scope
          ∷ list (uint64 1 ∷ list (text x.actor.namespace ∷ text x.actor.actor_id ∷ []) ∷ [])
          ∷ text key
          ∷ logical_operation x.body
          ∷ list ref
          ∷ []))

  -- A unit whose namespace is bound to the same operation is an alias; a new namespace is bound.
  unfoldable pub bind_unit :
      Bindings → Prepared → Bytes → Bytes → Result DecisionError (Bindings × Prepared)
  bind_unit bindings p namespace h = elim (lookup namespace bindings) [
    | some prev ↦
        (guard (bytes_equal prev.logical_digest h) idempotency
          >> ok (
            bindings,
            record p { namespace = namespace; logical = h; alias = some prev.canonical_unit },
          ))
    | none ↦ ok (
      put namespace (record { namespace = namespace; logical_digest = h; canonical_unit = p.id })
          bindings,
      record p { namespace = namespace; logical = h },
    )
  ]

  unfoldable pub resolve_keyed :
      Bindings → Prepared → Bytes → Result DecisionError (Bindings × Prepared)
  resolve_keyed bindings p key = do
    h ← logical_digest p key
    bind_unit bindings p (namespace_of p key) h

  abbrev pub resolve_key :
      Bindings → Prepared → Option Bytes → Result DecisionError (Bindings × Prepared)
  resolve_key bindings p none = ok (bindings, p)
  resolve_key bindings p (some key) = resolve_keyed bindings p key

  -- The body of the loop over the units.
  unfoldable pub resolve_unit : Bindings → Prepared → Result DecisionError (Bindings × Prepared)
  resolve_unit bindings p =
      if p.no_proposal || p.is_indeterminate
      then ok (bindings, p)
      else (idempotency_key (field p.unit.response.body 17) >>= resolve_key bindings p)

  unfoldable pub resolve_units : Bindings → List Prepared → Result DecisionError (List Prepared)
  resolve_units bindings [] = ok []
  resolve_units bindings (p ∷ ps) = do
    r ← resolve_unit bindings p
    rest ← resolve_units r.0 ps
    ok (r.1 ∷ rest)

  -- `resolveAliases`
  unfoldable pub resolve_aliases :
      List HistoryBinding → List Prepared → Result DecisionError (List Prepared)
  resolve_aliases history ps = do bindings ← bind_history [] history; resolve_units bindings ps
