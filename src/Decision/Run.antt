-- ===== src/Decision/Run.antt =====
-- `Run` of internal/csf/decision/run.go: one decision over the admitted units, provisional and
-- without a write. The policy references of the bundle are an argument.
use Prim.Native.String.{String}
use cote_ai_simulation.Base.{
  ℕ, ◌&&◌, Bool, true, false, ◌==◌, List, [], ◌∷◌, ◌++◌, Option, some, none, length, ok, err, ◌>>=◌,
  ◌>>◌, guard,
}
use cote_ai_simulation.Base.Bytes.{Bytes, literal}
use cote_ai_simulation.Base.Int.{pos, negsuc}
use cote_ai_simulation.Base.Sort.{sort}
use cote_ai_simulation.Domain.Patterns.{validate_machine_id}
use cote_ai_simulation.Value.{Value}
use cote_ai_simulation.Identity.{Deriver}
use cote_ai_simulation.Decision.{
  DecisionError, PolicyRefs, Input, Prepared, provenance, idempotency, indeterminate,
}
use cote_ai_simulation.Decision.Aliases.{resolve_aliases}
use cote_ai_simulation.Decision.Candidates.{Candidate, canonical_id_less, check_partition}
use cote_ai_simulation.Decision.Claims.{Conflict}
use cote_ai_simulation.Decision.Claims.Conflicts.{detect_claims}
use cote_ai_simulation.Decision.Draws.{named_draw}
use cote_ai_simulation.Decision.Results.{Indeterminate, DecisionResult, seal}
use cote_ai_simulation.Decision.Gather.{
  Gathered, Stage, stage, check_schemas, deliver, order_units, gather,
}
use cote_ai_simulation.Decision.Allocation.{
  viable_of, is_exhausted, Detected, classify, unresolved, unsupported_of, ids_of, asks_all, winner,
}
use cote_ai_simulation.Decision.Disposal.{dispose}

-- The choice of the winners, and the result with the conflict and the draw that it took.
pub record Resolved : Type 0 where
  pub result : DecisionResult
  pub winners : List Bytes

abbrev pub candidate_less : Candidate → Candidate → Bool
candidate_less a b = canonical_id_less a.id b.id

abbrev pub conflict_less : Conflict → Conflict → Bool
conflict_less a b = canonical_id_less a.id b.id

abbrev pub start : Input → DecisionResult
start input = record {
  assessments = [];
  candidates = [];
  conflicts = [];
  draws = [];
  indeterminate = [];
  dispositions = [];
  post_available = input.snapshot.available;
  failure = [];
  canonical = [];
}

abbrev pub resource_conflicts : Option Conflict → List Conflict
resource_conflicts none = []
resource_conflicts (some c) = c ∷ []

abbrev pub gathering : Input → Gathered
gathering input = record {
  result = start input;
  no_proposals = [];
  aliases = [];
  blocked = [];
  access_blocked = [];
  current = [];
}

abbrev no_conflict : Detected
no_conflict = record { resource_conflict = none; unsupported = []; conflicts = [] }

module _ (d : Deriver) (refs : PolicyRefs) (input : Input) where
  -- A failure that is sealed: the error, or that of the seal.
  unfoldable pub refuse : {A : Type 0} → DecisionResult → Bytes → DecisionError → Stage A
  refuse r failure e = elim (seal d input (record r { failure = failure })) [
    | ok sealed ↦ err (sealed, e)
    | err se ↦ err (record r { failure = failure }, se)
  ]

  -- A failure on candidates that no validator or resolver decides.
  unfoldable pub refuse_unresolved :
      {A : Type 0} → DecisionResult → List Value → String → List Candidate → Stage A
  refuse_unresolved r validator reason cs =
      refuse (record r { indeterminate = r.indeterminate ++ unresolved validator reason cs })
        (literal "INDETERMINATE_FACET") indeterminate

  -- The conflict of two operations under a key is sealed.
  abbrev pub alias_failure : {A : Type 0} → DecisionResult → DecisionError → Stage A
  alias_failure r idempotency = refuse r (literal "IDEMPOTENCY_CONFLICT") idempotency
  alias_failure r e = err (r, e)

  unfoldable pub resolve_stage : DecisionResult → List Prepared → Stage (List Prepared)
  resolve_stage r ps = elim (resolve_aliases d refs.idempotency input.history ps) [
    | ok resolved ↦ ok resolved
    | err e ↦ alias_failure r e
  ]

  -- The checks before the units, up to the ordered units with their aliases.
  unfoldable pub prepare_units : Stage (List Prepared)
  prepare_units = do
    let r = start input
    guard
        (validate_machine_id input.snapshot.resource_kind
          && validate_machine_id input.snapshot.resource_id)
        (r, provenance)
    stage r (check_schemas [] input.schemas)
    units ← stage r (deliver d input [] input.units)
    ordered ← stage r (order_units units input.admitted)
    resolve_stage r ordered

  -- No facet may be unknown, and the candidates must partition the units.
  unfoldable pub check_gathered : Gathered → List Indeterminate → Stage Gathered
  check_gathered g (i ∷ is) = refuse g.result (literal "INDETERMINATE_FACET") indeterminate
  check_gathered g [] =
      elim (check_partition input.admitted g.no_proposals g.aliases g.result.candidates) [
        | ok u ↦ ok g
        | err e ↦ refuse g.result (literal "PROVENANCE_FAILURE") e
      ]

  unfoldable pub gather_stage : List Prepared → Stage Gathered
  gather_stage ordered = do
    g ← gather d refs input (gathering input) ordered
    check_gathered g g.result.indeterminate

  abbrev detector_failure : DecisionResult → List Candidate → DecisionError → Stage (List Conflict)
  detector_failure r viable indeterminate =
      refuse_unresolved r refs.validators "resource.detector.indeterminate" viable
  detector_failure r viable e = err (r, e)

  -- `DetectClaims` on the viable candidates.
  unfoldable pub detect_stage : DecisionResult → List Candidate → Stage (List Conflict)
  detect_stage r viable =
      elim (detect_claims d input.cycle_id refs.validators refs.conflict_resolvers viable
        ((input.snapshot.resource_id, input.snapshot.available) ∷ [])) [
          | ok detected ↦ ok detected
          | err e ↦ detector_failure r viable e
        ]

  -- The winners where the viable candidates fit, or the draw between two that each ask for all.
  unfoldable pub draw_stage :
      ℕ → Gathered → DecisionResult → List Candidate → Bool → Option Conflict → Stage Resolved
  draw_stage available g r viable false none = ok (record { result = r; winners = ids_of viable })
  draw_stage available g r viable true (some c) =
      let ids = c.candidate_ids in
      elim ((length viable == 2) && (length ids == 2)) [
        | false ↦ refuse_unresolved r refs.conflict_resolvers "resource.resolver.unavailable" viable
        | true ↦ elim (asks_all available g.current viable) [
          | false ↦
              refuse_unresolved r refs.conflict_resolvers "resource.resolver.unsupported" viable
          | true ↦
              (stage (record r { conflicts = r.conflicts ++ c ∷ [] })
                  (named_draw d input ids refs.rng)
                >>= λ v. ok (record {
                  result = record r {
                    conflicts = r.conflicts ++ c ∷ [];
                    draws = r.draws ++ v.0 ∷ [];
                  };
                  winners = winner ids v.1 ∷ [];
                }))
        ]
      ]
  draw_stage available g r viable _ _ = err (r, provenance)

  abbrev pub classify_stage : DecisionResult → List Conflict → Stage Detected
  classify_stage r conflicts = elim (classify input.snapshot.resource_id no_conflict conflicts) [
    | ok s ↦ ok s
    | err s ↦ err (record r { conflicts = s.conflicts }, provenance)
  ]

  -- The detected conflicts against the capacity test, up to the winners.
  unfoldable pub settle_stage : ℕ → Gathered → List Candidate → Bool → Stage Resolved
  settle_stage available g viable exhausted = do
    let r = g.result
    conflicts ← detect_stage r viable
    s ← classify_stage r conflicts
    elim (length s.unsupported == 0) [
      | true ↦
          draw_stage available g (record r { conflicts = s.conflicts }) viable exhausted
            s.resource_conflict
      | false ↦
          refuse_unresolved
            (record r {
              conflicts =
                  sort conflict_less (s.conflicts ++ resource_conflicts s.resource_conflict);
            })
            refs.conflict_resolvers "resource.resolver.unsupported-claims"
            (unsupported_of s.unsupported viable)
    ]

  -- From the candidates to the sealed result.
  unfoldable pub allocate : ℕ → List Prepared → Gathered → Stage DecisionResult
  allocate available ordered g = do
    let viable = sort candidate_less (viable_of g.blocked g.result.candidates)
    exhausted ← stage g.result (is_exhausted available g.current 0 viable)
    resolved ← settle_stage available g viable exhausted
    r ← dispose g resolved.winners resolved.result available ordered
    stage r (seal d input r)

  -- `Run`
  unfoldable pub run : Stage DecisionResult
  run = elim input.snapshot.available [
    | negsuc n ↦ err (start input, provenance)
    | pos available ↦
        (prepare_units >>= λ ordered. (gather_stage ordered >>= allocate available ordered))
  ]
