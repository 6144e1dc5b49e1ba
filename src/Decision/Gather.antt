-- ===== src/Decision/Gather.antt =====
-- The first loops of `Run` (internal/csf/decision/run.go): the registry, the delivered units in
-- the fence's order, and for each its assessment and its candidate.
use Prim.Native.String.{String}
use cote_ai_simulation.Base.{
  ℕ, ◌&&◌, ◌||◌, Bool, true, false, not, ◌==◌, if◌then◌else◌, List, [], ◌∷◌, ◌++◌, some, zero, suc,
  none, length, Result, ok, err, ◌>>=◌, ◌>>◌, guard, or_fail,
}
use cote_ai_simulation.Base.Bytes.{Bytes, bytes_equal, literal}
use cote_ai_simulation.Base.Int.{pos, leb_ℤ}
use cote_ai_simulation.Domain.Patterns.{validate_machine_id}
use cote_ai_simulation.Value.{Value, text, byte_string, uint64, list, field}
use cote_ai_simulation.Identity.{Deriver}
use cote_ai_simulation.Store.Maps.{lookup, put}
use cote_ai_simulation.Decision.{
  DecisionError, DeliveredUnit, ActionSchema, PolicyRefs, Input, Prepared, provenance,
}
use cote_ai_simulation.Decision.Responses.{encode, validate_response}
use cote_ai_simulation.Decision.Candidates.{
  Candidate, mark, make_candidate, candidate_digest, assess,
}
use cote_ai_simulation.Decision.Results.{Indeterminate, DecisionResult}

abbrev is_registered : ActionSchema → List ActionSchema → Bool
is_registered s [] = false
is_registered s (x ∷ xs) =
    (bytes_equal x.type s.type && (x.version == s.version)) || is_registered s xs

-- The registry: machine IDs, and no type and version twice.
unfoldable pub check_schemas :
    List ActionSchema → List ActionSchema → Result DecisionError (Unit {0})
check_schemas seen [] = ok tt
check_schemas seen (s ∷ ss) = do
  guard
      (validate_machine_id s.type
        && (validate_machine_id s.operation && validate_machine_id s.producer))
      provenance
  guard (not (s.version == 0)) provenance
  guard (not (is_registered s seen)) provenance
  check_schemas (s ∷ seen) ss

abbrev pub Units : Type 0
Units = List (Bytes × Prepared)

-- `byID`
unfoldable pub deliver : Deriver → Input → Units → List DeliveredUnit → Result DecisionError Units
deliver d input m [] = ok m
deliver d input m (u ∷ us) = do
  p ← validate_response d input u
  elim (lookup p.id m) [ some old ↦ err provenance | none ↦ deliver d input (put p.id p m) us ]

unfoldable pub read_units : Units → List Bytes → Result DecisionError (List Prepared)
read_units m [] = ok []
read_units m (id ∷ ids) = do
  p ← or_fail (lookup id m) provenance
  rest ← read_units m ids
  ok (p ∷ rest)

-- `ordered`: each admitted unit once, in the fence's order, and no other unit.
unfoldable pub order_units : Units → List Bytes → Result DecisionError (List Prepared)
order_units m admitted = do
  seen ← mark [] admitted
  ordered ← read_units m admitted
  guard (length ordered == length m) provenance
  ok ordered

-- The locals that the loop over the ordered units fills.
pub record Gathered : Type 0 where
  pub result : DecisionResult
  pub no_proposals : List Bytes
  pub aliases : List Bytes
  pub blocked : List (Bytes × Bool)
  pub access_blocked : List (Bytes × Bool)
  pub current : List (Bytes × ℕ)

-- A stage of `Run` that fails returns the result as far as it is built, and the error.
abbrev pub Stage : Type 0 → Type 0
Stage A = Result (DecisionResult × DecisionError) A

abbrev pub stage : {A : Type 0} → DecisionResult → Result DecisionError A → Stage A
stage r (ok a) = ok a
stage r (err e) = err (r, e)

-- The facet that has no validator.
unfoldable pub missing_facet : Prepared → List Value → ℕ → String → Indeterminate
missing_facet p validators facet reason = record {
  subject = p.id;
  subject_digest = p.unit.response.digest;
  subject_kind = 0;
  facet = facet;
  validator = validators;
  reason = reason;
}

abbrev add_indeterminate : Gathered → Indeterminate → Gathered
add_indeterminate g i = record g {
  result = record g.result { indeterminate = g.result.indeterminate ++ i ∷ [] };
}

-- `candidate.Fields[i] = v`
unfoldable pub set_field : ℕ → Value → List Value → List Value
set_field i v [] = []
set_field zero v (x ∷ xs) = v ∷ xs
set_field (suc i) v (x ∷ xs) = x ∷ set_field i v xs

-- The one event draft of a resource action.
unfoldable pub drafts : Prepared → List Value
drafts p =
    list (
      uint64 0
      ∷ uint64 0
      ∷ text (literal "resource.consumed")
      ∷ field p.unit.response.body 8
      ∷ list []
      ∷ [])
    ∷ []

-- The draft changes the digest and the bytes.
unfoldable pub add_draft : Deriver → Prepared → Candidate → Result DecisionError Candidate
add_draft d p c = do
  let fields = set_field 8 (list (drafts p)) c.fields
  digest ← candidate_digest d fields
  canonical ← encode d fields digest
  ok (record c { fields = fields; digest = digest; canonical = canonical })

module _ (d : Deriver) (refs : PolicyRefs) (input : Input) where
  unfoldable pub drafted_candidate : Prepared → Result DecisionError Candidate
  drafted_candidate p = do
    c ←
        make_candidate d input.run_id input.cycle_id (p.id ∷ []) p.producer 1 0 0
          (field p.unit.response.body 9)
          (list (uint64 5 ∷ byte_string p.id ∷ byte_string p.unit.response.digest ∷ []) ∷ [])
          refs.conflict_resolvers
    elim (bytes_equal p.producer (literal "resource.consume")) [
      | true ↦ add_draft d p c
      | false ↦ ok c
    ]

  -- A unit whose facets are all known: its assessment, then its candidate.
  unfoldable pub gather_known : Gathered → Prepared → Bool → Bool → Stage Gathered
  gather_known g p can_access forbidden = do
    let resource_blocked = not (leb_ℤ (pos p.amount) input.snapshot.available)
    assessment ← stage g.result (assess d p resource_blocked can_access forbidden refs.validators)
    let r = record g.result { assessments = g.result.assessments ++ assessment ∷ [] }
    candidate ← stage r (drafted_candidate p)
    ok (record g {
      result = record r { candidates = r.candidates ++ candidate ∷ [] };
      blocked = put p.id (resource_blocked || not can_access) g.blocked;
      access_blocked = put p.id (not can_access) g.access_blocked;
      current = put candidate.id p.amount g.current;
    })

  -- The facets of access and institution: a missing actor is unknown.
  unfoldable pub gather_faceted : Gathered → Prepared → Stage Gathered
  gather_faceted g p =
      let actor = p.unit.response.actor in
      let key = actor.namespace ++ literal ":" ++ actor.actor_id in
      elim (lookup key input.snapshot.accessible_actors) [
        | none ↦
            ok (add_indeterminate g (missing_facet p refs.validators 1 "access.validator.missing"))
        | some can_access ↦ elim (lookup key input.snapshot.forbidden_actors) [
          | none ↦ ok (
              add_indeterminate g
                (missing_facet p refs.validators 4 "institution.validator.missing"))
          | some forbidden ↦ gather_known g p can_access forbidden
        ]
      ]

  -- The body of the loop over the ordered units.
  unfoldable pub gather_unit : Gathered → Prepared → Stage Gathered
  gather_unit g p =
      if p.no_proposal
      then ok (record g { no_proposals = p.id ∷ g.no_proposals })
      else elim p.alias [
        | some canonical ↦ ok (record g { aliases = p.id ∷ g.aliases })
        | none ↦
            if p.is_indeterminate || not input.snapshot.known
            then ok (
                add_indeterminate g
                  (missing_facet p refs.validators 2 "resource.validator.missing"))
            else gather_faceted g p
      ]

  unfoldable pub gather : Gathered → List Prepared → Stage Gathered
  gather g [] = ok g
  gather g (p ∷ ps) = gather_unit g p >>= λ next. gather next ps
