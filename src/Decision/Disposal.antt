-- ===== src/Decision/Disposal.antt =====
-- The last loop of `Run` (internal/csf/decision/run.go): a disposition for each admitted unit.
use Prim.Native.String.{String}
use cote_ai_simulation.Base.{
  ℕ, ◌-◌, true, false, leb, if◌then◌else◌, List, [], ◌∷◌, ◌++◌, Option, some, none, Result, ok, err,
  ◌>>=◌, ◌>>◌, guard, or_fail,
}
use cote_ai_simulation.Base.Bytes.{Bytes}
use cote_ai_simulation.Base.Int.{pos}
use cote_ai_simulation.Decision.{DecisionError, Prepared, provenance, zero_id}
use cote_ai_simulation.Decision.Candidates.{Candidate, holds}
use cote_ai_simulation.Decision.Results.{
  Status, Disposition, DecisionResult, no_proposal, deduplicated, reject, commit,
}
use cote_ai_simulation.Decision.Gather.{Gathered, Stage}
use cote_ai_simulation.Decision.Allocation.{is_set, amount_of}

-- `bySource[id]`: of two candidates with the source the later one.
unfoldable pub by_source : Bytes → List Candidate → Option Candidate
by_source id [] = none
by_source id (c ∷ cs) = elim (by_source id cs) [
  | some later ↦ some later
  | none ↦ if holds id c.source_unit_ids then some c else none
]

module _ (g : Gathered) (winners : List Bytes) where
  -- The disposition of a unit that has a candidate, and what is left after it.
  unfoldable pub dispose_candidate :
      ℕ → Prepared → Candidate → Result DecisionError (Disposition × ℕ)
  dispose_candidate post p c =
      let at : Status → String → Disposition = λ status reason. record {
        subject = p.id;
        candidate_id = c.id;
        status = status;
        reason = reason;
        canonical_unit = zero_id;
      } in
      elim (is_set p.id g.access_blocked) [
        | true ↦ ok (at reject "access.denied", post)
        | false ↦ elim (is_set p.id g.blocked) [
          | true ↦ ok (at reject "resource.insufficient", post)
          | false ↦ elim (holds c.id winners) [
            | false ↦ ok (at reject "resource.conflict", post)
            | true ↦
                (guard (leb (amount_of c.id g.current) post) provenance
                  >> ok (at commit "resource.allocated", post - amount_of c.id g.current))
          ]
        ]
      ]

  unfoldable pub dispose_unit : ℕ → Prepared → Result DecisionError (Disposition × ℕ)
  dispose_unit post p =
      let plain : Status → String → Bytes → Disposition = λ status reason canonical. record {
        subject = p.id;
        candidate_id = zero_id;
        status = status;
        reason = reason;
        canonical_unit = canonical;
      } in
      elim p.no_proposal [
        | true ↦ ok (plain no_proposal "slot.no-proposal" zero_id, post)
        | false ↦ elim p.alias [
          | some canonical ↦ ok (plain deduplicated "idempotency.alias" canonical, post)
          | none ↦
              (or_fail (by_source p.id g.result.candidates) provenance >>= dispose_candidate post p)
        ]
      ]

  -- The loop over the ordered units.
  unfoldable pub dispose : DecisionResult → ℕ → List Prepared → Stage DecisionResult
  dispose r post [] = ok r
  dispose r post (p ∷ ps) = elim (dispose_unit post p) [
    | err e ↦ err (r, e)
    | ok v ↦
        dispose (record r { dispositions = r.dispositions ++ v.0 ∷ []; post_available = pos v.1 })
          v.1 ps
  ]
