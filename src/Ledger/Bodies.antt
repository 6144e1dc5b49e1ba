-- ===== src/Ledger/Bodies.antt =====
-- internal/csf/inputledger/ledger.go: the tests of the fields of a record, and validateResponseBody.
use cote_ai_simulation.Base.{
  ℕ, ◌&&◌, Bool, false, ◌==◌, if◌then◌else◌, List, [], ◌∷◌, Option, some, none, length, Result,
  ◌>>◌, guard,
}
use cote_ai_simulation.Base.Bytes.{Bytes, bytes_equal}
use cote_ai_simulation.Base.Int.{ℤ, pos, eqb_ℤ}
use cote_ai_simulation.Domain.{EligibilityCoordinate}
use cote_ai_simulation.Value.{
  Value, uint64, int64, list, field, as_array, as_bytes, signed_int64, is_literal,
}
use cote_ai_simulation.Ledger.{Actor, Response, LedgerError, slot_mismatch, body_length}

-- `coordValue`
abbrev pub coord_value : EligibilityCoordinate → Value
coord_value c = list (int64 c.not_before_instant ∷ uint64 c.not_before_cycle_ordinal ∷ [])

-- `unsigned64`
abbrev pub unsigned64 : Value → Option ℕ
unsigned64 (uint64 n) = some n
unsigned64 (int64 (pos n)) = some n
unsigned64 _ = none

abbrev pub equals_int64 : Value → ℤ → Bool
equals_int64 v expected = elim (signed_int64 v) [ some n ↦ eqb_ℤ n expected | none ↦ false ]

abbrev pub equals_uint64 : Value → ℕ → Bool
equals_uint64 v expected = elim (unsigned64 v) [ some n ↦ n == expected | none ↦ false ]

abbrev pub bytes_at : List Value → ℕ → Bytes → Bool
bytes_at fields index expected = elim (as_bytes (field fields index)) [
  | some b ↦ bytes_equal b expected
  | none ↦ false
]

abbrev pub actor_at : List Value → ℕ → Actor → Bool
actor_at fields index expected = elim (as_array (field fields index)) [
  | none ↦ false
  | some actor ↦
      length actor == 2
      && (is_literal (field actor 0) expected.namespace
          && is_literal (field actor 1) expected.actor_id)
]

-- `validateResponseBody`: kind 0 is an ActionProposal, any other a NoProposal.
unfoldable pub validate_response_body : Response → Result LedgerError (Unit {0})
validate_response_body r =
    if r.kind == 0
    then (do
      guard (length r.body == 18) body_length
      guard
          (bytes_at r.body 0 r.id
            && (bytes_at r.body 1 r.dispatch_id
                && (bytes_at r.body 2 r.run_id
                    && (bytes_at r.body 3 r.cycle_id
                        && (bytes_at r.body 13 r.round_id
                            && (is_literal (field r.body 14) r.slot_id
                                && (equals_int64 (field r.body 11) r.effective_at
                                    && equals_uint64 (field r.body 15)
                                        r.submitted_against_revision)))))))
          slot_mismatch
      guard (actor_at r.body 6 r.actor) slot_mismatch)
    else (do
      guard (length r.body == 10) body_length
      guard
          (bytes_at r.body 0 r.id
            && (bytes_at r.body 1 r.dispatch_id
                && (bytes_at r.body 2 r.run_id
                    && (bytes_at r.body 3 r.cycle_id
                        && (bytes_at r.body 4 r.round_id
                            && (is_literal (field r.body 5) r.slot_id
                                && (equals_int64 (field r.body 7) r.effective_at
                                    && equals_uint64 (field r.body 8)
                                        r.submitted_against_revision)))))))
          slot_mismatch
      guard (actor_at r.body 6 r.actor) slot_mismatch)
