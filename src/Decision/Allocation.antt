-- ===== src/Decision/Allocation.antt =====
-- The allocation of the resource by `Run` (internal/csf/decision/run.go): the viable candidates,
-- the capacity test and the detected conflicts.
use Prim.Native.String.{String}
use cote_ai_simulation.Base.{
  ℕ, ◌+◌, ◌-◌, ◌&&◌, Bool, true, false, not, ◌==◌, ltb, leb, if◌then◌else◌, List, [], ◌∷◌, ◌++◌,
  Option, some, none, get_elem?, Result, ok, err, ◌>>◌, guard,
}
use cote_ai_simulation.Base.Bytes.{Bytes, literal}
use cote_ai_simulation.Value.{Value, field, is_literal, is_uint64}
use cote_ai_simulation.Store.Maps.{lookup}
use cote_ai_simulation.Decision.{DecisionError, provenance, zero_id}
use cote_ai_simulation.Decision.Candidates.{Candidate, holds}
use cote_ai_simulation.Decision.Claims.{Conflict}
use cote_ai_simulation.Decision.Results.{Indeterminate}

-- A missing key reads as the zero value.
abbrev pub is_set : Bytes → List (Bytes × Bool) → Bool
is_set k m = elim (lookup k m) [ none ↦ false | some b ↦ b ]

abbrev pub amount_of : Bytes → List (Bytes × ℕ) → ℕ
amount_of k m = elim (lookup k m) [ none ↦ 0 | some n ↦ n ]

abbrev first_source : Candidate → Bytes
first_source c = elim c.source_unit_ids [ [] ↦ zero_id | id ∷ ids ↦ id ]

-- The candidates that no facet rejects by itself.
unfoldable pub viable_of : List (Bytes × Bool) → List Candidate → List Candidate
viable_of blocked [] = []
viable_of blocked (c ∷ cs) =
    let rest = viable_of blocked cs in if is_set (first_source c) blocked then rest else c ∷ rest

-- Whether the viable candidates ask for more than there is.
unfoldable pub is_exhausted : ℕ → List (Bytes × ℕ) → ℕ → List Candidate → Result DecisionError Bool
is_exhausted available current total [] = ok false
is_exhausted available current total (c ∷ cs) = do
  let qty = amount_of c.id current
  guard (not (qty == 0) && leb qty available) provenance
  elim (ltb (available - qty) total) [
    | true ↦ ok true
    | false ↦ is_exhausted available current (total + qty) cs
  ]

-- The detected conflicts: the one of the resource, and those that no resolver supports.
pub record Detected : Type 0 where
  pub resource_conflict : Option Conflict
  pub unsupported : List Bytes
  pub conflicts : List Conflict

-- A second conflict of the resource is an error; the conflicts until then stay.
unfoldable pub classify : Bytes → Detected → List Conflict → Result Detected Detected
classify resource s [] = ok s
classify resource s (c ∷ cs) =
    let kind = field c.fields 2 in
    let key = field c.fields 3 in
    elim (is_uint64 kind 2 && is_literal key (literal "resource.nonnegative")) [
      | true ↦ classify resource s cs
      | false ↦ elim (is_uint64 kind 0 && is_literal key resource) [
        | true ↦ elim s.resource_conflict [
          | some old ↦ err s
          | none ↦ classify resource (record s { resource_conflict = some c }) cs
        ]
        | false ↦
            classify resource
              (record s {
                conflicts = s.conflicts ++ c ∷ [];
                unsupported = c.candidate_ids ++ s.unsupported;
              })
              cs
      ]
    ]

-- The candidates whose resolution is unknown.
unfoldable pub unresolved : List Value → String → List Candidate → List Indeterminate
unresolved validator reason [] = []
unresolved validator reason (c ∷ cs) =
    record {
      subject = c.id;
      subject_digest = c.digest;
      subject_kind = 1;
      facet = 2;
      validator = validator;
      reason = reason;
    }
    ∷ unresolved validator reason cs

unfoldable pub unsupported_of : List Bytes → List Candidate → List Candidate
unsupported_of ids [] = []
unsupported_of ids (c ∷ cs) =
    let rest = unsupported_of ids cs in if holds c.id ids then c ∷ rest else rest

abbrev pub ids_of : List Candidate → List Bytes
ids_of [] = []
ids_of (c ∷ cs) = c.id ∷ ids_of cs

-- Each candidate asks for all that there is.
unfoldable pub asks_all : ℕ → List (Bytes × ℕ) → List Candidate → Bool
asks_all available current [] = true
asks_all available current (c ∷ cs) =
    (amount_of c.id current == available) && asks_all available current cs

-- `ids[index]`
unfoldable pub winner : List Bytes → ℕ → Bytes
winner ids index = elim (get_elem? ids index) [ none ↦ zero_id | some id ↦ id ]
