-- ===== src/Decision/Results.antt =====
-- The result of a decision and `seal` (internal/csf/decision/run.go).
use Prim.Native.String.{String}
use cote_ai_simulation.Base.{
  ℕ, ◌==◌, List, [], ◌∷◌, map, some, none, length, Result, ok, err, ◌>>=◌, ◌>>◌, guard, or_fail,
}
use cote_ai_simulation.Base.Bytes.{Bytes, literal}
use cote_ai_simulation.Base.Int.{ℤ}
use cote_ai_simulation.Value.{Value, text, byte_string, uint64, int64, list, field}
use cote_ai_simulation.Codec.{canonical_payload}
use cote_ai_simulation.Identity.{Deriver}
use cote_ai_simulation.Store.Maps.{lookup, put}
use cote_ai_simulation.Decision.{DecisionError, DeliveredUnit, Input, provenance, of_codec}
use cote_ai_simulation.Decision.Candidates.{Assessment, Candidate}
use cote_ai_simulation.Decision.Claims.{Conflict}
use cote_ai_simulation.Decision.Draws.{Draw}

pub record Indeterminate : Type 0 where
  pub subject : Bytes
  pub subject_digest : Bytes
  pub subject_kind : ℕ
  pub facet : ℕ
  pub validator : List Value
  pub reason : String

pub data Status : Type 0 where
  no_proposal deduplicated reject commit : Status

-- `CandidateID` and `CanonicalUnit` are the zero ID where the disposition has none.
pub record Disposition : Type 0 where
  pub subject : Bytes
  pub candidate_id : Bytes
  pub status : Status
  pub reason : String
  pub canonical_unit : Bytes

-- `Result`
pub record DecisionResult : Type 0 where
  pub assessments : List Assessment
  pub candidates : List Candidate
  pub conflicts : List Conflict
  pub draws : List Draw
  pub indeterminate : List Indeterminate
  pub dispositions : List Disposition
  pub post_available : ℤ
  pub failure : Bytes
  pub canonical : Bytes

abbrev status_text : Status → Bytes
status_text no_proposal = literal "NO_PROPOSAL"
status_text deduplicated = literal "DEDUPLICATED"
status_text reject = literal "REJECT"
status_text commit = literal "COMMIT"

abbrev disposition_value : Disposition → Value
disposition_value v = list (
    byte_string v.subject
    ∷ byte_string v.candidate_id
    ∷ text (status_text v.status)
    ∷ text (literal v.reason)
    ∷ byte_string v.canonical_unit
    ∷ [])

-- The digests of the units, none delivered twice.
unfoldable pub unit_digests :
    List (Bytes × Bytes) → List DeliveredUnit → Result DecisionError (List (Bytes × Bytes))
unit_digests m [] = ok m
unit_digests m (u ∷ us) = elim (lookup u.response.id m) [
  | some old ↦ err provenance
  | none ↦ unit_digests (put u.response.id u.response.digest m) us
]

-- The admitted units with their digests, in the fence's order.
unfoldable pub unit_sources : List (Bytes × Bytes) → List Bytes → Result DecisionError (List Value)
unit_sources m [] = ok []
unit_sources m (id ∷ ids) = do
  digest ← or_fail (lookup id m) provenance
  rest ← unit_sources m ids
  ok (list (byte_string id ∷ byte_string digest ∷ []) ∷ rest)

unfoldable pub indeterminate_values : List Indeterminate → Result DecisionError (List Value)
indeterminate_values [] = ok []
indeterminate_values (v ∷ vs) = do
  guard (length v.validator == 3) provenance
  rest ← indeterminate_values vs
  ok (
      list (
        list (uint64 v.subject_kind ∷ byte_string v.subject ∷ byte_string v.subject_digest ∷ [])
        ∷ uint64 v.facet
        ∷ field v.validator 0
        ∷ field v.validator 1
        ∷ field v.validator 2
        ∷ text (literal v.reason)
        ∷ list []
        ∷ list v.validator
        ∷ [])
      ∷ rest)

-- What is sealed: the units with their digests, and the result.
unfoldable pub sealed_value : Input → DecisionResult → List Value → List Value → Value
sealed_value input r sources unclear = list (
    text (literal "csfrv1-4.provisional")
    ∷ byte_string input.run_id
    ∷ byte_string input.cycle_id
    ∷ uint64 input.attempt
    ∷ uint64 input.snapshot.base_revision
    ∷ text input.snapshot.resource_kind
    ∷ text input.snapshot.resource_id
    ∷ int64 input.snapshot.available
    ∷ list sources
    ∷ list (map (λ a. byte_string a.canonical) r.assessments)
    ∷ list (map (λ c. byte_string c.canonical) r.candidates)
    ∷ list (map (λ c. byte_string c.canonical) r.conflicts)
    ∷ list (map (λ w. byte_string w.canonical) r.draws)
    ∷ list unclear
    ∷ list (map disposition_value r.dispositions)
    ∷ int64 r.post_available
    ∷ text r.failure
    ∷ [])

-- `seal`: the result with its audit bytes.
unfoldable pub seal : Deriver → Input → DecisionResult → Result DecisionError DecisionResult
seal d input r = do
  digests ← unit_digests [] input.units
  sources ← unit_sources digests input.admitted
  guard (length sources == length digests) provenance
  unclear ← indeterminate_values r.indeterminate
  raw ← of_codec (canonical_payload d.codec (sealed_value input r sources unclear))
  ok (record r { canonical = raw })
