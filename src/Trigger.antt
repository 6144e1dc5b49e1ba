-- ===== src/Trigger.antt =====
-- internal/csf/trigger/trigger.go: the evaluation of a trigger over the result of its predicate.
pub mod Firing
pub mod Wire
pub mod Registry
pub mod Rearm
pub mod Lifecycle
use cote_ai_simulation.Base.{
  ℕ, ◌+◌, ◌-◌, ◌%◌, Bool, true, false, ◌&&◌, ◌||◌, not, leb, ◌==◌, if◌then◌else◌, List, [], ◌∷◌,
  Result, ok, err, ◌>>=◌, ◌>>◌, guard, Ordering,
}
use cote_ai_simulation.Base.Bytes.{Bytes, bytes_equal, bytes_compare}
use cote_ai_simulation.Base.Int.{ℤ, pos, ltb_ℤ, leb_ℤ, eqb_ℤ, max_int64, uint64_bound, ◌+ℤ◌, ◌-ℤ◌}
use cote_ai_simulation.Base.Sort.{sort}
use cote_ai_simulation.Domain.{is_lt}

-- The policies, an uint8.
abbrev pub rising_edge : ℕ
rising_edge = 0

abbrev pub falling_edge : ℕ
falling_edge = 1

abbrev pub once_when_true : ℕ
once_when_true = 2

abbrev pub repeat_while_true : ℕ
repeat_while_true = 3

pub record Definition : Type 0 where
  pub id : Bytes
  pub predicate_threshold : ℤ
  pub version : ℕ
  pub policy : ℕ
  pub fire_on_initial_true : Bool
  pub repeat_every : ℤ
  pub dependencies : List Bytes

pub record Runtime : Type 0 where
  pub definition_id : Bytes
  pub version : ℕ
  pub has_last : Bool
  pub last : Bool
  pub armed : Bool
  pub exhausted : Bool
  pub activation_count : ℕ
  pub has_next_repeat : Bool
  pub next_repeat : ℤ
  pub evaluated_through : ℕ

pub record Event : Type 0 where
  pub id : Bytes
  pub order_key : Bytes
  pub footprint : List Bytes

-- `Result`
pub record Evaluation : Type 0 where
  pub runtime : Runtime
  pub fired : Bool
  pub causing_event_ids : List Bytes

pub data TriggerError : Type 0 where
  invalid_identity bad_cadence cadence_forbidden bad_dependencies duplicate_order_key : TriggerError
  version_mismatch already_evaluated unexpected_exhausted cadence_overflow : TriggerError
  activations_exhausted : TriggerError

-- `PredicateValue`
unfoldable pub predicate_value : Definition → ℤ → Bool
predicate_value d instant = leb_ℤ d.predicate_threshold instant

abbrev is_empty : Bytes → Bool
is_empty [] = true
is_empty (x ∷ xs) = false

-- The loop of `Validate` from the second dependency on.
unfoldable pub sorted_after : Bytes → List Bytes → Bool
sorted_after x [] = true
sorted_after x (y ∷ ys) = not (is_empty y) && (is_lt (bytes_compare x y) && sorted_after y ys)

unfoldable pub valid_dependencies : List Bytes → Bool
valid_dependencies [] = true
valid_dependencies (x ∷ xs) = not (is_empty x) && sorted_after x xs

-- `Validate`
unfoldable pub validate : Definition → Result TriggerError (Unit {0})
validate d = do
  guard (not (d.version == 0) && leb d.policy repeat_while_true) invalid_identity
  (if d.policy == repeat_while_true
      then guard (ltb_ℤ (pos 0) d.repeat_every) bad_cadence
      else guard (eqb_ℤ d.repeat_every (pos 0)) cadence_forbidden)
  guard (valid_dependencies d.dependencies) bad_dependencies

unfoldable pub contains : List Bytes → Bytes → Bool
contains [] f = false
contains (x ∷ xs) f = bytes_equal x f || contains xs f

-- The inner loop of `Causes`: a footprint that meets the dependencies.
unfoldable pub meets : List Bytes → List Bytes → Bool
meets dependencies [] = false
meets dependencies (f ∷ fs) = contains dependencies f || meets dependencies fs

unfoldable pub distinct_keys : List Event → Bool
distinct_keys [] = true
distinct_keys (a ∷ []) = true
distinct_keys (a ∷ b ∷ es) = not (bytes_equal b.order_key a.order_key) && distinct_keys (b ∷ es)

unfoldable pub causing : List Bytes → List Event → List Bytes
causing dependencies [] = []
causing dependencies (e ∷ es) =
    let rest = causing dependencies es in
    if meets dependencies e.footprint then e.id ∷ rest else rest

abbrev pub key_less : Event → Event → Bool
key_less a b = is_lt (bytes_compare a.order_key b.order_key)

-- `Causes`
unfoldable pub causes : List Bytes → List Event → Result TriggerError (List Bytes)
causes dependencies events = do
  guard (distinct_keys (sort key_less events)) duplicate_order_key
  ok (causing dependencies (sort key_less events))

-- Whether the `switch` on the policy fires.
unfoldable pub fires : Definition → Runtime → ℤ → Bool → Bool
fires d old now predicate =
    if d.policy == rising_edge
    then predicate
      && ((not old.has_last && d.fire_on_initial_true) || (old.has_last && not old.last))
    else (if d.policy == falling_edge
        then old.has_last && (old.last && not predicate)
        else (if d.policy == once_when_true
            then predicate && not old.exhausted
            else predicate
              && (not old.has_last
                  || (not old.last || (not old.has_next_repeat || leb_ℤ old.next_repeat now)))))

-- The runtime that the `switch` leaves.
unfoldable pub after_policy : Definition → Runtime → ℤ → Bool → Bool → Result TriggerError Runtime
after_policy d next now predicate fired =
    if d.policy == rising_edge
    then ok (record next { armed = not predicate })
    else (if d.policy == falling_edge
        then ok (record next { armed = predicate })
        else (if d.policy == once_when_true
            then ok (record next {
              exhausted = fired || next.exhausted;
              armed = not (fired || next.exhausted);
            })
            else (if fired
                then (if ltb_ℤ (max_int64 -ℤ d.repeat_every) now
                    then err cadence_overflow
                    else ok (record next {
                      next_repeat = now +ℤ d.repeat_every;
                      has_next_repeat = true;
                    }))
                else ok (
                    if predicate
                    then next
                    else record next { has_next_repeat = false; armed = true }))))

-- The end of `Evaluate`: the count of the activations.
unfoldable pub count_activation : Runtime → Bool → Result TriggerError Runtime
count_activation next fired =
    if fired
    then (if next.activation_count == (uint64_bound - 1)
        then err activations_exhausted
        else ok (record next { activation_count = next.activation_count + 1 }))
    else ok next

-- `Evaluate`
unfoldable pub evaluate :
    Definition → Runtime → ℤ → ℕ → Bool → List Event → Result TriggerError Evaluation
evaluate d old now revision predicate events = do
  validate d
  guard (bytes_equal old.definition_id d.id && old.version == d.version) version_mismatch
  guard (not (leb revision old.evaluated_through && old.has_last)) already_evaluated
  guard (not (old.exhausted && not (d.policy == once_when_true))) unexpected_exhausted
  switched ←
      after_policy d (record old { evaluated_through = revision }) now predicate
        (fires d old now predicate)
  counted ←
      count_activation (record switched { has_last = true; last = predicate })
        (fires d old now predicate)
  ids ← causes d.dependencies events
  ok (record { runtime = counted; fired = fires d old now predicate; causing_event_ids = ids })
