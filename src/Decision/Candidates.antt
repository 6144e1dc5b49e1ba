-- ===== src/Decision/Candidates.antt =====
-- Assessments, candidates and their partition of the fence's units
-- (internal/csf/decision/kernel.go).
use Prim.Native.String.{String}
use cote_ai_simulation.Base.{
  ℕ, ◌&&◌, ◌||◌, Bool, true, false, not, ◌==◌, if◌then◌else◌, List, [], ◌∷◌, length, Ordering,
  Result, ok, ◌>>=◌, ◌>>◌, guard,
}
use cote_ai_simulation.Base.Bytes.{Bytes, bytes_equal, bytes_compare, literal}
use cote_ai_simulation.Base.Int.{pos}
use cote_ai_simulation.Domain.Patterns.{validate_machine_id}
use cote_ai_simulation.Value.{Value, text, byte_string, uint64, int64, list}
use cote_ai_simulation.Identity.{Deriver}
use cote_ai_simulation.Decision.{
  DecisionError, Prepared, provenance, invalid_machine_id, zero_id, bytes_ids,
}
use cote_ai_simulation.Decision.Responses.{derive, encode}

pub record Assessment : Type 0 where
  pub subject : Bytes
  pub fields : List Value
  pub digest : Bytes
  pub canonical : Bytes

pub record Candidate : Type 0 where
  pub id : Bytes
  pub source_unit_ids : List Bytes
  pub fields : List Value
  pub digest : Bytes
  pub canonical : Bytes

-- `canonicalIDLess`
unfoldable pub canonical_id_less : Bytes → Bytes → Bool
canonical_id_less a b = elim (bytes_compare a b) [
  | Ordering.lt ↦ true
  | Ordering.eq ↦ false
  | Ordering.gt ↦ false
]

-- A `map[domain.ID]bool` whose entries are all true, as the list of its keys.
unfoldable pub holds : Bytes → List Bytes → Bool
holds id [] = false
holds id (x ∷ xs) = bytes_equal x id || holds id xs

-- The sources are nonzero and strictly ascending.
unfoldable pub are_sources : List Bytes → Bool
are_sources [] = true
are_sources (x ∷ []) = not (bytes_equal x zero_id)
are_sources (x ∷ y ∷ ids) =
    not (bytes_equal x zero_id) && (canonical_id_less x y && are_sources (y ∷ ids))

abbrev pub candidate_preimage : Bytes → Bytes → List Bytes → Bytes → ℕ → ℕ → ℕ → Value
candidate_preimage run cycle sources producer version role ordinal = list (
    byte_string run
    ∷ byte_string cycle
    ∷ bytes_ids sources
    ∷ text producer
    ∷ uint64 version
    ∷ uint64 role
    ∷ uint64 ordinal
    ∷ [])

-- The fields of a candidate with these effects.
unfoldable pub candidate_fields :
    Bytes
    → Bytes
    → Bytes
    → List Bytes
    → Bytes
    → ℕ
    → ℕ
    → ℕ
    → Value
    → Value
    → List Value
    → List Value
    → List Value
candidate_fields id run cycle sources producer version role ordinal effects claims origin resolver =
    byte_string id
    ∷ byte_string run
    ∷ byte_string cycle
    ∷ bytes_ids sources
    ∷ text producer
    ∷ uint64 version
    ∷ uint64 role
    ∷ uint64 ordinal
    ∷ effects
    ∷ claims
    ∷ list []
    ∷ list []
    ∷ list (text (literal "resource.nonnegative") ∷ [])
    ∷ list origin
    ∷ int64 (pos 0)
    ∷ list resolver
    ∷ []

module _ (d : Deriver) where
  abbrev pub candidate_digest : List Value → Result DecisionError Bytes
  candidate_digest fields =
      derive d "cote.csf.digest.commit-candidate" "cote.csf.schema.commit-candidate.body"
        (list fields)

  -- `MakeCandidate` with the priority 0, the one that the kernel gives.
  unfoldable pub make_candidate :
      Bytes
      → Bytes
      → List Bytes
      → Bytes
      → ℕ
      → ℕ
      → ℕ
      → Value
      → List Value
      → List Value
      → Result DecisionError Candidate
  make_candidate run cycle sources producer version role ordinal claims origin resolver = do
    guard (not (length sources == 0) && not (length origin == 0)) provenance
    guard (validate_machine_id producer) invalid_machine_id
    guard (are_sources sources) provenance
    id ←
        derive d "cote.csf.id.commit-candidate" "cote.csf.schema.candidate-id-preimage"
          (candidate_preimage run cycle sources producer version role ordinal)
    let fields =
        candidate_fields id run cycle sources producer version role ordinal (list []) claims origin
          resolver
    digest ← candidate_digest fields
    canonical ← encode d fields digest
    ok (record {
      id = id;
      source_unit_ids = sources;
      fields = fields;
      digest = digest;
      canonical = canonical;
    })

  abbrev facet : ℕ → ℕ → ℕ → String → List Value → Value
  facet kind status effect reason validator = list (
      uint64 kind
      ∷ uint64 status
      ∷ uint64 effect
      ∷ text (literal reason)
      ∷ list []
      ∷ list validator
      ∷ [])

  -- `assess`
  unfoldable pub assess :
      Prepared → Bool → Bool → Bool → List Value → Result DecisionError Assessment
  assess p resource_blocked access_granted forbidden validator = do
    let facets =
        facet 0 0 2 "physical.possible" validator
        ∷ (if access_granted
            then facet 1 0 2 "access.granted" validator
            else facet 1 1 0 "access.denied" validator)
        ∷ (if resource_blocked
            then facet 2 1 0 "resource.insufficient" validator
            else facet 2 0 0 "resource.available" validator)
        ∷ facet 3 2 2 "temporal.not-applicable" validator
        ∷ (if forbidden
            then facet 4 1 1 "institution.prohibited" validator
            else facet 4 0 2 "institution.allowed" validator)
        ∷ facet 5 2 2 "legal.not-applicable" validator
        ∷ []
    let fields =
        list (uint64 5 ∷ byte_string p.id ∷ byte_string p.unit.response.digest ∷ [])
        ∷ list facets
        ∷ []
    digest ←
        derive d "cote.csf.digest.affordance-assessment"
          "cote.csf.schema.affordance-assessment.body" (list fields)
    canonical ← encode d fields digest
    ok (record { subject = p.id; fields = fields; digest = digest; canonical = canonical })

-- `seen[id]` must be false for each ID, which is then set.
unfoldable pub mark : List Bytes → List Bytes → Result DecisionError (List Bytes)
mark seen [] = ok seen
mark seen (id ∷ ids) = guard (not (holds id seen)) provenance >> mark (id ∷ seen) ids

unfoldable pub all_held : List Bytes → List Bytes → Bool
all_held [] ids = true
all_held (x ∷ xs) ids = holds x ids && all_held xs ids

unfoldable pub none_held : List Bytes → List Bytes → Bool
none_held [] ids = true
none_held (x ∷ xs) ids = not (holds x ids) && none_held xs ids

module _ (expected no_proposals aliases : List Bytes) where
  -- The sources of a candidate, each a unit that nothing else produces.
  unfoldable pub claim_sources : List Bytes → List Bytes → Result DecisionError (List Bytes)
  claim_sources seen [] = ok seen
  claim_sources seen (id ∷ ids) = do
    guard
        (holds id expected
          && (not (holds id no_proposals) && (not (holds id aliases) && not (holds id seen))))
        provenance
    claim_sources (id ∷ seen) ids

  unfoldable pub claim_all : List Bytes → List Candidate → Result DecisionError (List Bytes)
  claim_all seen [] = ok seen
  claim_all seen (c ∷ cs) = do
    guard (not (length c.source_unit_ids == 0)) provenance
    next ← claim_sources seen c.source_unit_ids
    claim_all next cs

unfoldable pub is_covered : List Bytes → List Bytes → List Bytes → List Bytes → Bool
is_covered no_proposals aliases seen [] = true
is_covered no_proposals aliases seen (id ∷ ids) =
    (holds id seen || (holds id no_proposals || holds id aliases))
    && is_covered no_proposals aliases seen ids

-- `CheckPartition`
unfoldable pub check_partition :
    List Bytes → List Bytes → List Bytes → List Candidate → Result DecisionError (Unit {0})
check_partition admitted no_proposals aliases candidates = do
  expected ← mark [] admitted
  guard (all_held no_proposals expected) provenance
  guard (all_held aliases expected && none_held aliases no_proposals) provenance
  seen ← claim_all expected no_proposals aliases [] candidates
  guard (is_covered no_proposals aliases seen expected) provenance
