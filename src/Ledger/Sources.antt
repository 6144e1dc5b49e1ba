-- ===== src/Ledger/Sources.antt =====
-- `AppendInput` of internal/csf/inputledger/ledger.go, with `appendIngress` and `nextOpen`.
use cote_ai_simulation.Base.{
  ℕ, ◌||◌, Bool, false, not, ◌==◌, ◌+◌, ◌-◌, ◌%◌, if◌then◌else◌, List, [], ◌∷◌, ◌++◌, Option, some,
  none, Result, ok, ◌>>=◌, ◌>>◌, guard, ltb, length,
}
use cote_ai_simulation.Base.Bytes.{Bytes, bytes_equal, literal}
use cote_ai_simulation.Base.Int.{ℤ, pos, ltb_ℤ, succ_ℤ, max_int64, uint64_bound}
use cote_ai_simulation.Domain.{EligibilityCoordinate, compare_coordinate, is_gt}
use cote_ai_simulation.Domain.Patterns.{validate_machine_id}
use cote_ai_simulation.Value.{
  Value, text, byte_string, uint64, uint32, int64, list, field, as_array, as_bool, signed_int64,
}
use cote_ai_simulation.Codec.{canonical_payload, canonical_bytes}
use cote_ai_simulation.Identity.{sum, opaque_content_hash}
use cote_ai_simulation.Store.{Store}
use cote_ai_simulation.Store.Maps.{lookup, put}
use cote_ai_simulation.Store.Methods.{append_ingress, next_ingress_sequence}
use cote_ai_simulation.Ledger.{
  Ledger, LedgerError, Stored, IngressReceipt, unknown_source, final_source, identity_collision,
  invalid_machine_id, of_identity, of_codec, of_store, contains,
}
use cote_ai_simulation.Ledger.Bodies.{coord_value, unsigned64}

-- The actor, the payload, the provenance and the idempotency key are values of the codec.
pub record Input : Type 0 where
  pub producer_unit_key : Bytes
  pub kind : Bytes
  pub schema_version : ℕ
  pub actor : Value
  pub payload : Value
  pub declared_effective_at : ℤ
  pub eligibility : EligibilityCoordinate
  pub provenance : Value
  pub idempotency_key : Value

pub record Closure : Type 0 where
  pub producer_key : Bytes
  pub closed_through : EligibilityCoordinate
  pub final : Bool

-- `nextOpen`
unfoldable pub next_open : EligibilityCoordinate → EligibilityCoordinate
next_open c =
    if ltb c.not_before_cycle_ordinal (uint64_bound - 1)
    then record c { not_before_cycle_ordinal = c.not_before_cycle_ordinal + 1 }
    else (if ltb_ℤ c.not_before_instant max_int64
        then record {
          not_before_instant = succ_ℤ c.not_before_instant;
          not_before_cycle_ordinal = 0;
        }
        else c)

-- `parseCoordinate`
unfoldable pub parse_coordinate : Value → Option EligibilityCoordinate
parse_coordinate v = elim (as_array v) [
  | none ↦ none
  | some fields ↦
      if length fields == 2
      then elim (signed_int64 (field fields 0)) [
        | none ↦ none
        | some instant ↦ elim (unsigned64 (field fields 1)) [
          | none ↦ none
          | some ordinal ↦
              some (record { not_before_instant = instant; not_before_cycle_ordinal = ordinal })
        ]
      ]
      else none
]

-- `coordinate`: the zero coordinate where none is parsed.
unfoldable pub coordinate : Value → EligibilityCoordinate
coordinate v = elim (parse_coordinate v) [
  | some c ↦ c
  | none ↦ record { not_before_instant = pos 0; not_before_cycle_ordinal = 0 }
]

-- `l.closures[sourceID]`, and the list of the inputs in the same way.
abbrev pub listed : Bytes → List (Bytes × List Stored) → List Stored
listed source m = elim (lookup source m) [ none ↦ [] | some xs ↦ xs ]

abbrev pub closed_at : Stored → EligibilityCoordinate
closed_at closure = coordinate (field closure.fields 4)

-- `closure.Fields[5] == true`
abbrev pub is_final : Stored → Bool
is_final closure = elim (as_bool (field closure.fields 5)) [ some b ↦ b | none ↦ false ]

unfoldable pub any_final : List Stored → Bool
any_final [] = false
any_final (c ∷ cs) = is_final c || any_final cs

-- The body of the loop that normalises a late input above a closure.
abbrev pub above : EligibilityCoordinate → EligibilityCoordinate → EligibilityCoordinate
above eligibility next = if is_gt (compare_coordinate next eligibility) then next else eligibility

unfoldable pub normal_eligibility : EligibilityCoordinate → List Stored → EligibilityCoordinate
normal_eligibility eligibility [] = eligibility
normal_eligibility eligibility (c ∷ cs) =
    normal_eligibility (above eligibility (next_open (closed_at c))) cs

abbrev pub input_id : Ledger → Bytes → Input → Result LedgerError Bytes
input_id l source input = of_identity (
    sum l.deriver (literal "cote.csf.id.exogenous-input")
      (literal "cote.csf.schema.exogenous-input-id-preimage") 1
      (list (byte_string l.run_id ∷ text source ∷ text input.producer_unit_key ∷ [])))

-- The body of an input with a given field 9.
abbrev pub input_body : Ledger → Bytes → Bytes → Input → Value → List Value
input_body l id source input eligibility =
    byte_string id
    ∷ byte_string l.run_id
    ∷ text source
    ∷ text input.producer_unit_key
    ∷ text input.kind
    ∷ uint32 input.schema_version
    ∷ input.actor
    ∷ input.payload
    ∷ int64 input.declared_effective_at
    ∷ eligibility
    ∷ input.provenance
    ∷ input.idempotency_key
    ∷ []

abbrev pub input_digest : Ledger → List Value → Result LedgerError Bytes
input_digest l body = of_identity (
    sum l.deriver (literal "cote.csf.digest.exogenous-input-unit")
      (literal "cote.csf.schema.exogenous-input.body") 1 (list (list body ∷ [])))

abbrev pub canonical_fields : Ledger → List Value → Result LedgerError Bytes
canonical_fields l fields = of_codec (canonical_payload l.deriver.codec (list fields))

abbrev pub receipt_bytes : Ledger → Bytes → ℕ → ℕ → Bytes → Bytes → Result LedgerError Bytes
receipt_bytes l source sequence ref_kind id digest = of_codec (
    canonical_bytes l.deriver.codec (literal "cote.csf.record.source-ingress-receipt")
      (literal "cote.csf.schema.source-ingress-receipt") 1
      (list (
        text source
        ∷ uint64 sequence
        ∷ list (uint64 ref_kind ∷ byte_string id ∷ byte_string digest ∷ [])
        ∷ [])))

abbrev pub store_ingress : Ledger → Bytes → ℕ → Bytes → Bytes → Bytes → Result LedgerError Store
store_ingress l source sequence id canonical receipt = of_store (
    append_ingress l.deriver.codec l.deriver.sha256 l.input_store source sequence
      (record { identity = id; canonical = canonical })
      (record { identity = opaque_content_hash l.deriver receipt; canonical = receipt }))

-- `appendIngress` of the ledger: the receipt is under the store's next sequence of the source.
unfoldable pub append_receipt :
    Ledger → Bytes → ℕ → Bytes → Bytes → Bytes → Result LedgerError (Ledger × IngressReceipt)
append_receipt l source ref_kind id digest canonical = do
  let sequence = next_ingress_sequence l.input_store source
  receipt ← receipt_bytes l source sequence ref_kind id digest
  store ← store_ingress l source sequence id canonical receipt
  ok (
    record l {
      input_store = store;
      cursors = put source ((sequence + 1) % uint64_bound) l.cursors;
    },
    record {
      source_id = source;
      sequence = sequence;
      ref_kind = ref_kind;
      ref_id = id;
      ref_digest = digest;
      canonical = receipt;
    },
  )

abbrev pub with_digest : List Value → Bytes → List Value
with_digest body digest = body ++ byte_string digest ∷ []

-- `AppendInput` for an ID that the ledger has: the same input, or a collision.
unfoldable pub repeat_input :
    Ledger → Bytes → Bytes → Input → Stored → Result LedgerError (Ledger × Stored)
repeat_input l source id input old = do
  let body = input_body l id source input (field old.fields 9)
  digest ← input_digest l body
  canonical ← canonical_fields l (with_digest body digest)
  guard (bytes_equal old.canonical canonical) identity_collision
  ok (l, old)

abbrev pub new_input_result : Ledger → Bytes → Stored → Ledger × Stored
new_input_result m source stored = (
  record m {
    inputs = put source (listed source m.inputs ++ stored ∷ []) m.inputs;
    input_by_id = put stored.id stored m.input_by_id;
  },
  stored,
)

-- `AppendInput` for a new ID.
unfoldable pub new_input : Ledger → Bytes → Bytes → Input → Result LedgerError (Ledger × Stored)
new_input l source id input = do
  guard (not (any_final (listed source l.closures))) final_source
  let eligibility = normal_eligibility input.eligibility (listed source l.closures)
  let body = input_body l id source input (coord_value eligibility)
  digest ← input_digest l body
  canonical ← canonical_fields l (with_digest body digest)
  (m, receipt) ← append_receipt l source 1 id digest canonical
  ok (
      new_input_result m source (record {
        id = id;
        digest = digest;
        fields = with_digest body digest;
        canonical = canonical;
        receipt = receipt;
      }))

abbrev pub by_id : Ledger → Bytes → Bytes → Input → Result LedgerError (Ledger × Stored)
by_id l source id input = elim (lookup id l.input_by_id) [
  | some old ↦ repeat_input l source id input old
  | none ↦ new_input l source id input
]

-- `AppendInput`
unfoldable pub append_input : Ledger → Bytes → Input → Result LedgerError (Ledger × Stored)
append_input l source input = do
  guard (contains l.sources source) unknown_source
  guard (validate_machine_id input.producer_unit_key) invalid_machine_id
  guard (validate_machine_id input.kind) invalid_machine_id
  id ← input_id l source input
  by_id l source id input
