-- ===== src/Schedule.antt =====
-- internal/csf/schedule/schedule.go: the pending records of scheduled occurrences.
pub mod Before
pub mod Order
pub mod Records
use cote_ai_simulation.Base.{
  ℕ, ◌≡◌, refl, Bool, true, false, ◌&&◌, ◌||◌, not, arith, ltb, ◌==◌, if◌then◌else◌, List, [], ◌∷◌,
  Ordering, Result, ok, err, ◌>>=◌, ◌>>◌, guard,
}
use cote_ai_simulation.Base.Bytes.{Bytes, bytes_equal}
use cote_ai_simulation.Base.Int.{ℤ, ltb_ℤ}
use cote_ai_simulation.Base.Sort.{sort}
use cote_ai_simulation.Domain.{EligibilityCoordinate, compare_coordinate}
use cote_ai_simulation.Clock.{Pending}

-- The lifecycles, an uint8.
abbrev pub pending : ℕ
pending = 0

abbrev pub cancelled : ℕ
cancelled = 1

abbrev pub consumed : ℕ
consumed = 2

pub record Occurrence : Type 0 where
  pub id : Bytes
  pub run_id : Bytes
  pub source_id : Bytes
  pub due_at : ℤ
  pub eligibility : EligibilityCoordinate
  pub lifecycle : ℕ
  pub kind : Bytes
  pub payload : Bytes

pub data ScheduleError : Type 0 where
  invalid_occurrence invalid_lifecycle duplicate_occurrence : ScheduleError

abbrev is_empty : Bytes → Bool
is_empty [] = true
is_empty (x ∷ xs) = false

-- The first two tests of the loop: the record's own fields.
unfoldable pub check_occurrence : Occurrence → Result ScheduleError (Unit {0})
check_occurrence o = do
  guard
      (not (
        is_empty o.source_id
        || (is_empty o.kind || ltb_ℤ o.eligibility.not_before_instant o.due_at)))
      invalid_occurrence
  guard (o.lifecycle == pending || (o.lifecycle == cancelled || o.lifecycle == consumed))
      invalid_lifecycle

-- Membership in the Go map `seen`.
unfoldable pub contains_id : Bytes → List Bytes → Bool
contains_id id [] = false
contains_id id (x ∷ xs) = bytes_equal x id || contains_id id xs

abbrev pub pending_of : Occurrence → Pending
pending_of o = record { id = o.id; eligibility = o.eligibility }

-- The loop: the ids seen so far, and the occurrences that are left. It yields `out` in the order
-- of the input.
unfoldable pub collect : List Bytes → List Occurrence → Result ScheduleError (List Pending)
collect seen [] = ok []
collect seen (o ∷ os) = do
  check_occurrence o
  guard (not (contains_id o.id seen)) duplicate_occurrence
  out ← collect (o.id ∷ seen) os
  ok (if o.lifecycle == pending then pending_of o ∷ out else out)

-- The comparison of two ids, byte by byte. Both have 32 bytes, so the first two clauses are
-- reached together only.
unfoldable pub id_less : Bytes → Bytes → Bool
id_less [] [] = false
id_less [] (b ∷ bs) = true
id_less (a ∷ as') [] = false
id_less (a ∷ as') (b ∷ bs) = let rest = id_less as' bs in if a == b then rest else ltb a b

unfoldable pub pending_less : Pending → Pending → Bool
pending_less a b = elim (compare_coordinate a.eligibility b.eligibility) [
  | Ordering.lt ↦ true
  | Ordering.gt ↦ false
  | Ordering.eq ↦ id_less a.id b.id
]

unfoldable pub pending_records : List Occurrence → Result ScheduleError (List Pending)
pending_records occurrences = do out ← collect [] occurrences; ok (sort pending_less out)
