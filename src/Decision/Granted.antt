-- ===== src/Decision/Granted.antt =====
-- The amounts by which `Run` (internal/csf/decision/run.go) allocates: for each candidate the
-- claim in its own fields.
use cote_ai_simulation.Base.{
  ℕ, zero, suc, ◌≡◌, refl, ap, ◌∙◌, subst, Bool, not, ◌&&◌, ◌||◌, ◌==◌, if◌then◌else◌, List, [],
  ◌∷◌, ◌++◌, Option, some, none, length, Result, ok, err, bind-eq_ok, guard-then-eq_ok,
  ok-injective, All, arith, Bool-cases, Option-cases, inl, inr,
}
use cote_ai_simulation.Base.Bytes.{Bytes, bytes_equal, literal}
use cote_ai_simulation.Base.Int.{pos, leb_ℤ}
use cote_ai_simulation.Domain.Patterns.{validate_machine_id}
use cote_ai_simulation.Value.{Value, byte_string, uint64, list, field}
use cote_ai_simulation.Identity.{Deriver}
use cote_ai_simulation.Store.Maps.{lookup, put, lookup-put}
use cote_ai_simulation.Decision.{
  DecisionError, PolicyRefs, Input, Prepared, provenance, invalid_machine_id,
}
use cote_ai_simulation.Decision.Responses.{claimed_amount, derive, encode}
use cote_ai_simulation.Decision.Candidates.{
  Candidate, are_sources, candidate_fields, candidate_preimage, candidate_digest, make_candidate,
  assess,
}
use cote_ai_simulation.Decision.Results.{DecisionResult, Indeterminate}
use cote_ai_simulation.Decision.Gather.{
  Gathered, Stage, stage, set_field, drafts, add_draft, drafted_candidate, gather_known,
  gather_faceted, gather_unit, gather,
}
use cote_ai_simulation.Decision.Ordered.{IsPriced}

set_field-next :
    (i : ℕ) (v : Value) (fs : List Value) → field (set_field i v fs) (suc i) ≡ field fs (suc i)
unfolding set_field
set_field-next i v [] = refl
set_field-next zero v (f ∷ fs) = refl
set_field-next (suc i) v (f ∷ fs) = set_field-next i v fs

-- An error of a stage apart, its result is that of the call.
pub stage-eq_ok :
    {A : Type 0} (r : DecisionResult) (m : Result DecisionError A) {a : A}
    → stage r m ≡ ok a
    → m ≡ ok a
stage-eq_ok r (ok a) h = ap ok (ok-injective h)
stage-eq_ok r (err e) h = cc

module _ (d : Deriver) (input : Input) where
  -- The amount that a candidate claims.
  unfoldable pub claim_of : Candidate → ℕ
  claim_of c = elim (claimed_amount d input (field c.fields 9)) [ ok n ↦ n | err e ↦ 0 ]

  -- The claim of the last candidate with the ID.
  unfoldable pub granted : List Candidate → Bytes → Option ℕ
  granted [] id = none
  granted (c ∷ cs) id = elim (granted cs id) [
    | some n ↦ some n
    | none ↦ if bytes_equal c.id id then some (claim_of c) else none
  ]

  granted-append :
      (cs : List Candidate) (c : Candidate) (id : Bytes)
      → granted (cs ++ c ∷ []) id
        ≡ (if bytes_equal c.id id then some (claim_of c) else granted cs id)
  unfolding granted
  granted-append [] c id = refl
  granted-append (x ∷ cs) c id = rw (granted-append cs c id) ground arith

  claim_of-ok :
      (c : Candidate) (n : ℕ) → claimed_amount d input (field c.fields 9) ≡ ok n → claim_of c ≡ n
  unfolding claim_of
  claim_of-ok c n h = rw (h, claim_of) refl

  granted-put :
      (cs : List Candidate) (c : Candidate) (n : ℕ) (current : List (Bytes × ℕ)) (id : Bytes)
      → lookup id current ≡ granted cs id
      → claimed_amount d input (field c.fields 9) ≡ ok n
      → lookup id (put c.id n current) ≡ granted (cs ++ c ∷ []) id
  granted-put cs c n current id same h =
      rw (lookup-put c.id id n current, granted-append cs c id, same, claim_of-ok c n h) refl

  pub record IsGathered (g : Gathered) : Type 0 where
    pub current_in : (id : Bytes) → lookup id g.current ≡ granted g.result.candidates id
    pub undisposed : g.result.dispositions ≡ []
    pub untouched : g.result.post_available ≡ input.snapshot.available

  -- A step that leaves the amounts, the candidates and the dispositions as they are.
  unchanged :
      {is : List Indeterminate} {nos aliases : List Bytes} (g : Gathered) {h : Gathered}
      → IsGathered g
      → ◌≡◌ {A = Stage Gathered}
          (ok (record g {
            result = record g.result { indeterminate = is };
            no_proposals = nos;
            aliases = aliases;
          }))
          (ok h)
      → IsGathered h
  unchanged g i e =
      subst IsGathered (ok-injective e)
        (record { current_in = i.current_in; undisposed = i.undisposed; untouched = i.untouched })

  make_candidate-claims :
      (sources : List Bytes) (producer : Bytes) (claims : Value) (origin resolver : List Value)
      (c : Candidate)
      → make_candidate d input.run_id input.cycle_id sources producer 1 0 0 claims origin resolver
        ≡ ok c
      → field c.fields 9 ≡ claims
  unfolding make_candidate candidate_fields
  make_candidate-claims sources producer claims origin resolver c h =
      let (g₁, h₁) =
        guard-then-eq_ok (not (length sources == 0) && not (length origin == 0)) provenance _ h in
      let (g₂, h₂) = guard-then-eq_ok (validate_machine_id producer) invalid_machine_id _ h₁ in
      let (g₃, h₃) = guard-then-eq_ok (are_sources sources) provenance _ h₂ in
      let (id, e₁, h₄) =
        bind-eq_ok
          (derive d "cote.csf.id.commit-candidate" "cote.csf.schema.candidate-id-preimage"
            (candidate_preimage input.run_id input.cycle_id sources producer 1 0 0))
          _ h₃ in
      let fields =
        candidate_fields id input.run_id input.cycle_id sources producer 1 0 0 (list []) claims
          origin resolver in
      let (digest, e₂, h₅) = bind-eq_ok (candidate_digest d fields) _ h₄ in
      let (canonical, e₃, h₆) = bind-eq_ok (encode d fields digest) _ h₅ in
      subst (λ c. field c.fields 9 ≡ claims) (ok-injective h₆) refl

module _ (d : Deriver) (refs : PolicyRefs) (input : Input) where
  add_draft-claims :
      (p : Prepared) (b c : Candidate)
      → add_draft d p b ≡ ok c
      → field c.fields 9 ≡ field b.fields 9
  unfolding add_draft
  add_draft-claims p b c h =
      let fields = set_field 8 (list (drafts p)) b.fields in
      let (digest, e₁, h₁) = bind-eq_ok (candidate_digest d fields) _ h in
      let (canonical, e₂, h₂) = bind-eq_ok (encode d fields digest) _ h₁ in
      subst (λ c. field c.fields 9 ≡ field b.fields 9) (ok-injective h₂)
        (set_field-next 8 (list (drafts p)) b.fields)

  drafted_candidate-claims :
      (p : Prepared) (c : Candidate)
      → drafted_candidate d refs input p ≡ ok c
      → field c.fields 9 ≡ field p.unit.response.body 9
  unfolding drafted_candidate add_draft
  drafted_candidate-claims p c h =
      let claims = field p.unit.response.body 9 in
      let root =
        list (uint64 5 ∷ byte_string p.id ∷ byte_string p.unit.response.digest ∷ []) ∷ [] in
      let (b, e, h₁) =
        bind-eq_ok
          (make_candidate d input.run_id input.cycle_id (p.id ∷ []) p.producer 1 0 0 claims root
            refs.conflict_resolvers)
          _ h in
      let made =
        make_candidate-claims d input (p.id ∷ []) p.producer claims root refs.conflict_resolvers b
          e in
      elim (Bool-cases (bytes_equal p.producer (literal "resource.consume"))) [
        | inl f ↦ add_draft-claims p b c (rw f at h₁) ∙ made
        | inr f ↦ subst (λ c. field c.fields 9 ≡ claims) (ok-injective (rw f at h₁)) made
      ]

  gather_known-IsGathered :
      (g h : Gathered) (p : Prepared) (can_access forbidden : Bool)
      → gather_known d refs input g p can_access forbidden ≡ ok h
      → claimed_amount d input (field p.unit.response.body 9) ≡ ok p.amount
      → IsGathered d input g
      → IsGathered d input h
  unfolding gather_known
  gather_known-IsGathered g h p can_access forbidden e priced i =
      let resource_blocked = not (leb_ℤ (pos p.amount) input.snapshot.available) in
      let (assessment, e₁, h₁) =
        bind-eq_ok
          (stage g.result (assess d p resource_blocked can_access forbidden refs.validators)) _ e in
      let r = record g.result { assessments = g.result.assessments ++ assessment ∷ [] } in
      let (c, e₂, h₂) = bind-eq_ok (stage r (drafted_candidate d refs input p)) _ h₁ in
      let claims =
        drafted_candidate-claims p c (stage-eq_ok r (drafted_candidate d refs input p) e₂) in
      subst (IsGathered d input) (ok-injective h₂) (record {
        current_in = λ id.
            granted-put d input g.result.candidates c p.amount g.current id (i.current_in id)
              (ap (claimed_amount d input) claims ∙ priced);
        undisposed = i.undisposed;
        untouched = i.untouched;
      })

  gather_faceted-IsGathered :
      (g h : Gathered) (p : Prepared)
      → gather_faceted d refs input g p ≡ ok h
      → claimed_amount d input (field p.unit.response.body 9) ≡ ok p.amount
      → IsGathered d input g
      → IsGathered d input h
  unfolding gather_faceted
  gather_faceted-IsGathered g h p e priced i =
      let key = p.unit.response.actor.namespace ++ literal ":" ++ p.unit.response.actor.actor_id in
      elim (Option-cases (lookup key input.snapshot.accessible_actors)) [
        | inl a ↦ unchanged d input g i (rw (a, gather_faceted) at e)
        | inr (can_access, a) ↦ elim (Option-cases (lookup key input.snapshot.forbidden_actors)) [
          | inl b ↦ unchanged d input g i (rw (a, b, gather_faceted) at e)
          | inr (forbidden, b) ↦
              gather_known-IsGathered g h p can_access forbidden (rw (a, b, gather_faceted) at e)
                priced i
        ]
      ]

  gather_unit-IsGathered :
      (g h : Gathered) (p : Prepared)
      → gather_unit d refs input g p ≡ ok h
      → IsPriced d input p
      → IsGathered d input g
      → IsGathered d input h
  unfolding gather_unit
  gather_unit-IsGathered g h p e priced i = elim (Bool-cases p.no_proposal) [
    | inl f ↦ unchanged d input g i (rw f at e)
    | inr f ↦ elim (Option-cases p.alias) [
      | inr (canonical, a) ↦ unchanged d input g i (rw (f, a) at e)
      | inl a ↦ elim (Bool-cases (p.is_indeterminate || not input.snapshot.known)) [
        | inl b ↦ unchanged d input g i (rw (f, a, b) at e)
        | inr b ↦
            gather_faceted-IsGathered g h p (rw (f, a, b) at e) (priced.priced f (ground arith)) i
      ]
    ]
  ]

  pub gather-IsGathered :
      (g h : Gathered) (ps : List Prepared)
      → gather d refs input g ps ≡ ok h
      → All (IsPriced d input) ps
      → IsGathered d input g
      → IsGathered d input h
  unfolding gather
  gather-IsGathered g h [] e a i = subst (IsGathered d input) (ok-injective e) i
  gather-IsGathered g h (p ∷ ps) e (priced, a) i =
      let (next, e₁, e₂) = bind-eq_ok (gather_unit d refs input g p) _ e in
      gather-IsGathered next h ps e₂ a (gather_unit-IsGathered g next p e₁ priced i)
