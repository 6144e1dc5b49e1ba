-- ===== src/Decision/Stages.antt =====
-- The stages of `Run` (internal/csf/decision/run.go) that end with a result.
use Prim.Native.String.{String}
use cote_ai_simulation.Base.{
  ℕ, ◌≡◌, refl, ap, ◌∙◌, subst, Bool, true, false, ◌&&◌, ◌==◌, List, [], ◌∷◌, ◌++◌, map, Option,
  some, none, length, ok, bind-eq_ok, then-eq_ok, guard-then-eq_ok, ok-injective, All, Bool-cases,
  Result-cases, inl, inr,
}
use cote_ai_simulation.Base.Bytes.{Bytes, literal}
use cote_ai_simulation.Base.Sort.{sort}
use cote_ai_simulation.Domain.Patterns.{validate_machine_id}
use cote_ai_simulation.Value.{Value}
use cote_ai_simulation.Identity.{Deriver}
use cote_ai_simulation.Store.Maps.{lookup}
use cote_ai_simulation.Decision.{
  DecisionError, PolicyRefs, Input, Prepared, provenance, idempotency, indeterminate,
}
use cote_ai_simulation.Decision.Aliases.{resolve_aliases}
use cote_ai_simulation.Decision.Candidates.{Candidate, check_partition}
use cote_ai_simulation.Decision.Claims.{Conflict}
use cote_ai_simulation.Decision.Draws.{Draw, named_draw}
use cote_ai_simulation.Decision.Results.{DecisionResult, Indeterminate, seal}
use cote_ai_simulation.Decision.Gather.{
  Gathered, stage, check_schemas, deliver, order_units, gather,
}
use cote_ai_simulation.Decision.Allocation.{asks_all, unsupported_of}
use cote_ai_simulation.Decision.Run.{
  Resolved, conflict_less, resource_conflicts, start, refuse, refuse_unresolved, alias_failure,
  classify_stage, gathering, check_gathered, resolve_stage, prepare_units, gather_stage,
  detect_stage, draw_stage, settle_stage,
}
use cote_ai_simulation.Decision.Ordered.{
  IsPriced, unit_id, order_units-Ordered, resolve_aliases-Ordered,
}
use cote_ai_simulation.Decision.Granted.{granted, IsGathered, gather-IsGathered, stage-eq_ok}

module _ (d : Deriver) (refs : PolicyRefs) (input : Input) where
  refuse-err :
      {A : Type 0} (r : DecisionResult) (failure : Bytes) (e : DecisionError) (a : A)
      → refuse d refs input r failure e ≡ ok a
      → ⊥
  unfolding refuse
  refuse-err r failure e a h = elim (Result-cases (seal d input (record r { failure = failure }))) [
    | inl (s, f) ↦ cc (rw (f, refuse) at h)
    | inr (s, f) ↦ cc (rw (f, refuse) at h)
  ]

  refuse_unresolved-err :
      {A : Type 0} (r : DecisionResult) (validator : List Value) (reason : String)
      (cs : List Candidate) (a : A)
      → refuse_unresolved d refs input r validator reason cs ≡ ok a
      → ⊥
  unfolding refuse_unresolved
  refuse_unresolved-err r validator reason cs a h = refuse-err _ _ indeterminate a h

  alias_failure-err :
      {A : Type 0} (r : DecisionResult) (e : DecisionError) (a : A)
      → alias_failure d refs input r e ≡ ok a
      → ⊥
  alias_failure-err r idempotency a h =
      refuse-err r (literal "IDEMPOTENCY_CONFLICT") idempotency a h
  alias_failure-err r e a h = cc

  resolve_stage-ok :
      (r : DecisionResult) (ps qs : List Prepared)
      → resolve_stage d refs input r ps ≡ ok qs
      → resolve_aliases d refs.idempotency input.history ps ≡ ok qs
  unfolding resolve_stage
  resolve_stage-ok r ps qs h =
      elim (Result-cases (resolve_aliases d refs.idempotency input.history ps)) [
        | inl (rs, e) ↦ e ∙ ap ok (ok-injective (rw (e, resolve_stage) at h))
        | inr (x, e) ↦ absurd (alias_failure-err r x qs (rw (e, resolve_stage) at h))
      ]

  pub prepare_units-Ordered :
      (ps : List Prepared)
      → prepare_units d refs input ≡ ok ps
      → (map unit_id ps ≡ input.admitted) × All (IsPriced d input) ps
  unfolding prepare_units
  prepare_units-Ordered ps h =
      let r = start input in
      let (g, h₁) =
        guard-then-eq_ok
          (validate_machine_id input.snapshot.resource_kind
            && validate_machine_id input.snapshot.resource_id)
          (r, provenance) _ h in
      let (c, h₂) = then-eq_ok (stage r (check_schemas [] input.schemas)) _ h₁ in
      let (units, e₁, h₃) = bind-eq_ok (stage r (deliver d input [] input.units)) _ h₂ in
      let (ordered, e₂, h₄) = bind-eq_ok (stage r (order_units units input.admitted)) _ h₃ in
      let (ids, a) =
        order_units-Ordered d input units input.units ordered
          (stage-eq_ok r (deliver d input [] input.units) e₁)
          (stage-eq_ok r (order_units units input.admitted) e₂) in
      let (same, b) =
        resolve_aliases-Ordered d input refs.idempotency ordered ps
          (resolve_stage-ok r ordered ps h₄) a in
      (same ∙ ids, b)

  gathering-IsGathered : IsGathered d input (gathering input)
  unfolding lookup granted
  gathering-IsGathered = record { current_in = λ id. refl; undisposed = refl; untouched = refl }

  check_gathered-same :
      (g : Gathered) (is : List Indeterminate) (h : Gathered)
      → check_gathered d refs input g is ≡ ok h
      → g ≡ h
  unfolding check_gathered
  check_gathered-same g (i ∷ is) h e = absurd (refuse-err _ _ indeterminate h e)
  check_gathered-same g [] h e =
      elim (Result-cases
        (check_partition input.admitted g.no_proposals g.aliases g.result.candidates)) [
          | inl (u, f) ↦ ok-injective (rw (f, check_gathered) at e)
          | inr (x, f) ↦
              absurd (
                refuse-err g.result (literal "PROVENANCE_FAILURE") x h
                  (rw (f, check_gathered) at e))
        ]

  pub gather_stage-IsGathered :
      (ps : List Prepared) (g : Gathered)
      → gather_stage d refs input ps ≡ ok g
      → All (IsPriced d input) ps
      → IsGathered d input g
  unfolding gather_stage
  gather_stage-IsGathered ps g h a =
      let (g', e, h₁) = bind-eq_ok (gather d refs input (gathering input) ps) _ h in
      let i = gather-IsGathered d refs input (gathering input) g' ps e a gathering-IsGathered in
      subst (IsGathered d input) (check_gathered-same g' g'.result.indeterminate g h₁) i

  -- The resolution leaves the candidates, the dispositions and the amount that is left.
  pub record IsResolved (r : DecisionResult) (v : Resolved) : Type 0 where
    pub candidates_kept : v.result.candidates ≡ r.candidates
    pub dispositions_kept : v.result.dispositions ≡ r.dispositions
    pub amount_kept : v.result.post_available ≡ r.post_available

  same :
      {cs : List Conflict} {ds : List Draw} {winners : List Bytes} {r : DecisionResult}
      → IsResolved r
          (record { result = record r { conflicts = cs; draws = ds }; winners = winners })
  same = record { candidates_kept = refl; dispositions_kept = refl; amount_kept = refl }

  draw_stage-IsResolved :
      (available : ℕ) (g : Gathered) (r : DecisionResult) (viable : List Candidate)
      (exhausted : Bool) (conflict : Option Conflict) (v : Resolved)
      → draw_stage d refs input available g r viable exhausted conflict ≡ ok v
      → IsResolved r v
  unfolding draw_stage
  draw_stage-IsResolved available g r viable false none v h =
      subst (IsResolved r) (ok-injective h) same
  draw_stage-IsResolved available g r viable false (some c) v h = cc
  draw_stage-IsResolved available g r viable true none v h = cc
  draw_stage-IsResolved available g r viable true (some c) v h =
      let ids = c.candidate_ids in
      elim (Bool-cases ((length viable == 2) && (length ids == 2))) [
        | inr a ↦ absurd (
            refuse_unresolved-err r refs.conflict_resolvers "resource.resolver.unavailable" viable v
              (rw (a, draw_stage) at h))
        | inl a ↦ elim (Bool-cases (asks_all available g.current viable)) [
          | inr b ↦ absurd (
              refuse_unresolved-err r refs.conflict_resolvers "resource.resolver.unsupported" viable
                v (rw (a, b, draw_stage) at h))
          | inl b ↦
              let (w, e, h₁) =
                bind-eq_ok
                  (stage (record r { conflicts = r.conflicts ++ c ∷ [] })
                    (named_draw d input ids refs.rng))
                  _ (rw (a, b, draw_stage) at h) in
              subst (IsResolved r) (ok-injective h₁) same
        ]
      ]

  pub settle_stage-IsResolved :
      (available : ℕ) (g : Gathered) (viable : List Candidate) (exhausted : Bool) (v : Resolved)
      → settle_stage d refs input available g viable exhausted ≡ ok v
      → IsResolved g.result v
  unfolding settle_stage
  settle_stage-IsResolved available g viable exhausted v h =
      let r = g.result in
      let (conflicts, e₁, h₁) = bind-eq_ok (detect_stage d refs input r viable) _ h in
      let (s, e₂, h₂) = bind-eq_ok (classify_stage d refs input r conflicts) _ h₁ in
      elim (Bool-cases (length s.unsupported == 0)) [
        | inr a ↦ absurd (
            refuse_unresolved-err
              (record r {
                conflicts =
                    sort conflict_less (s.conflicts ++ resource_conflicts s.resource_conflict);
              })
              refs.conflict_resolvers "resource.resolver.unsupported-claims"
              (unsupported_of s.unsupported viable) v (rw a at h₂))
        | inl a ↦
            let i =
              draw_stage-IsResolved available g (record r { conflicts = s.conflicts }) viable
                exhausted s.resource_conflict v (rw a at h₂) in
            record {
              candidates_kept = i.candidates_kept;
              dispositions_kept = i.dispositions_kept;
              amount_kept = i.amount_kept;
            }
      ]
