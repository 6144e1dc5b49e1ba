-- ===== src/Ledger/Rounds.antt =====
-- `DeclareRound` of internal/csf/inputledger/ledger.go.
use cote_ai_simulation.Base.{
  ℕ, ◌&&◌, ◌||◌, Bool, true, false, not, ◌==◌, List, [], ◌∷◌, map, some, none, Result, ok, ◌>>=◌,
  ◌>>◌, guard, length, leb,
}
use cote_ai_simulation.Base.Bytes.{Bytes, bytes_equal, bytes_compare, literal}
use cote_ai_simulation.Base.Sort.{sort}
use cote_ai_simulation.Domain.{EligibilityCoordinate, is_lt}
use cote_ai_simulation.Domain.Patterns.{validate_machine_id}
use cote_ai_simulation.Value.{
  Value, text, byte_string, uint64, list, field, as_array, as_uint64, as_32_bytes,
}
use cote_ai_simulation.Identity.{sum}
use cote_ai_simulation.Store.{Store}
use cote_ai_simulation.Store.Maps.{lookup, put}
use cote_ai_simulation.Store.Methods.{append_round_declaration}
use cote_ai_simulation.Ledger.{
  Ledger, LedgerError, Actor, Round, invalid_machine_id, identity_collision, slot_count,
  duplicate_slot, round_origin, round_lifecycle, of_identity, of_store,
}
use cote_ai_simulation.Ledger.Bodies.{coord_value}
use cote_ai_simulation.Ledger.Sources.{canonical_fields}

-- The arguments of `DeclareRound`.
pub record RoundRequest : Type 0 where
  pub source_id : Bytes
  pub actor : Actor
  pub slots : List Bytes
  pub eligibility : EligibilityCoordinate
  pub created_by : Value
  pub role : ℕ
  pub ordinal : ℕ
  pub lifecycle : ℕ
  pub idempotency_key : Value

unfoldable pub valid_slots : List Bytes → Bool
valid_slots [] = true
valid_slots (s ∷ ss) = validate_machine_id s && valid_slots ss

-- `<` on strings, the order of `sort.Strings`.
abbrev pub slot_less : Bytes → Bytes → Bool
slot_less a b = is_lt (bytes_compare a b)

-- The loop over neighbours of the sorted slots.
unfoldable pub no_duplicate : List Bytes → Bool
no_duplicate [] = true
no_duplicate (a ∷ []) = true
no_duplicate (a ∷ b ∷ ss) = not (bytes_equal a b) && no_duplicate (b ∷ ss)

-- `validRoundOrigin`
unfoldable pub valid_round_origin : Value → Bool
valid_round_origin v = elim (as_array v) [
  | none ↦ false
  | some origin ↦
      length origin == 2
      && (elim (as_uint64 (field origin 0)) [ none ↦ false | some n ↦ n == 0 || (n == 2) ]
          && elim (as_array (field origin 1)) [
            | none ↦ false
            | some ref ↦
                length ref == 2
                && (elim (as_32_bytes (field ref 0)) [ none ↦ false | some b ↦ true ]
                    && elim (as_32_bytes (field ref 1)) [ none ↦ false | some b ↦ true ])
          ])
]

abbrev pub round_id : Ledger → RoundRequest → Result LedgerError Bytes
round_id l q = of_identity (
    sum l.deriver (literal "cote.csf.id.decision-round")
      (literal "cote.csf.schema.decision-round-id-preimage") 1
      (list (q.created_by ∷ uint64 q.role ∷ uint64 q.ordinal ∷ [])))

abbrev pub round_fields : Ledger → RoundRequest → Bytes → List Value
round_fields l q id =
    byte_string id
    ∷ byte_string l.run_id
    ∷ text q.source_id
    ∷ list (text q.actor.namespace ∷ text q.actor.actor_id ∷ [])
    ∷ list (map text (sort slot_less q.slots))
    ∷ coord_value q.eligibility
    ∷ q.created_by
    ∷ uint64 q.role
    ∷ uint64 q.ordinal
    ∷ uint64 q.lifecycle
    ∷ q.idempotency_key
    ∷ []

abbrev pub round_digest : Ledger → List Value → Result LedgerError Bytes
round_digest l fields = of_identity (
    sum l.deriver (literal "cote.csf.digest.round-declaration")
      (literal "cote.csf.schema.round-declaration") 1 (list fields))

abbrev pub store_round : Ledger → RoundRequest → Bytes → Bytes → Result LedgerError Store
store_round l q id canonical = of_store (
    append_round_declaration l.deriver.codec l.input_store l.run_id q.eligibility.not_before_instant
      q.eligibility.not_before_cycle_ordinal (record { identity = id; canonical = canonical }))

abbrev pub round_of : RoundRequest → Bytes → Bytes → List Value → Bytes → Round
round_of q id digest fields canonical = record {
  id = id;
  source_id = q.source_id;
  actor = q.actor;
  slots = sort slot_less q.slots;
  eligibility = q.eligibility;
  created_by = q.created_by;
  role = q.role;
  local_ordinal = q.ordinal;
  lifecycle = q.lifecycle;
  idempotency_key = q.idempotency_key;
  digest = digest;
  fields = fields;
  canonical = canonical;
}

-- The end of `DeclareRound`: a round that the ledger has under the ID is the same, or a collision.
unfoldable pub keep_round :
    Ledger → RoundRequest → Bytes → Bytes → Bytes → Result LedgerError (Ledger × Round)
keep_round l q id digest canonical = elim (lookup id l.rounds) [
  | some prior ↦ (guard (bytes_equal prior.canonical canonical) identity_collision >> ok (l, prior))
  | none ↦
      (store_round l q id canonical >>= λ store. ok (
        record l {
          input_store = store;
          rounds = put id (round_of q id digest (round_fields l q id) canonical) l.rounds;
        },
        round_of q id digest (round_fields l q id) canonical,
      ))
]

-- `DeclareRound`
unfoldable pub declare_round : Ledger → RoundRequest → Result LedgerError (Ledger × Round)
declare_round l q = do
  guard (validate_machine_id q.source_id) invalid_machine_id
  guard (validate_machine_id q.actor.namespace) invalid_machine_id
  guard (validate_machine_id q.actor.actor_id) invalid_machine_id
  guard (leb 1 (length q.slots) && leb (length q.slots) 1024) slot_count
  guard (valid_slots q.slots) invalid_machine_id
  guard (no_duplicate (sort slot_less q.slots)) duplicate_slot
  guard (valid_round_origin q.created_by) round_origin
  guard (leb q.lifecycle 2) round_lifecycle
  id ← round_id l q
  digest ← round_digest l (round_fields l q id)
  canonical ← canonical_fields l (round_fields l q id)
  keep_round l q id digest canonical
