-- ===== src/Admission/Derivation.antt =====
-- The calls behind a derived admission fence (`DeriveWithContext` of
-- internal/csf/admission/fence.go).
use cote_ai_simulation.Base.{
  ◌≡◌, refl, ◌++◌, true, List, [], ◌∷◌, map, Option, ok, bind-eq_ok, then-eq_ok, guard-then-eq_ok,
  ok-injective, subst,
}
use cote_ai_simulation.Base.Bytes.{Bytes}
use cote_ai_simulation.Base.Sort.{sort}
use cote_ai_simulation.Domain.{EligibilityCoordinate}
use cote_ai_simulation.Value.{Value, byte_string, uint64, list, field}
use cote_ai_simulation.Identity.{Deriver}
use cote_ai_simulation.Codec.{canonical_payload}
use cote_ai_simulation.Ledger.Snapshots.{Snapshot, SystemUnit, round_before}
use cote_ai_simulation.Admission.{Cycle, Policies, Fence, advance_admits, of_codec}
use cote_ai_simulation.Admission.Units.{
  AdmittedUnit, unit_less, unit_value, closure_proofs, at_cycle, eligible_rounds, round_units,
  input_units, system_units,
}
use cote_ai_simulation.Admission.Derive.{
  derive, seal_fence, closure_at, verify_records, read_system_units, fence_fields, derive_id,
  admits, round_id_value,
}

module _ (d : Deriver) (reader : Option (EligibilityCoordinate → Option (List SystemUnit)))
    (policies : Policies) (cycle : Cycle) where
  -- The results of the calls of an accepted derivation.
  pub record Derivation (s : Snapshot) (f : Fence) : Type 0 where
    pub verified : verify_records d s ≡ ok tt
    pub at : EligibilityCoordinate
    pub through : closure_at cycle ≡ ok at
    pub proofs : List Value
    pub proved : closure_proofs s.closures at s.sources ≡ ok proofs
    pub cohort : List AdmittedUnit × List Value
    pub collected :
        round_units s.run_id cycle s.slots
          (sort round_before (eligible_rounds (at_cycle cycle) s.rounds))
        ≡ ok cohort
    pub cohort_id : Bytes
    pub identified :
        derive_id d "cote.csf.id.cohort" "cote.csf.schema.cohort-id-preimage" (
          list (
            byte_string cycle.id
            ∷ uint64 cycle.base_revision
            ∷ list
                (map round_id_value (sort round_before (eligible_rounds (at_cycle cycle) s.rounds)))
            ∷ []))
        ≡ ok cohort_id
    pub read : List SystemUnit
    pub reads : read_system_units reader (at_cycle cycle) ≡ ok read
    pub system : List AdmittedUnit
    pub accepted : system_units (at_cycle cycle) read ≡ ok system
    pub sealed :
        seal_fence d policies cycle s proofs
          (list (byte_string cohort_id ∷ list cohort.1 ∷ []))
          (sort unit_less (cohort.0 ++ (input_units (at_cycle cycle) s.inputs ++ system)))
        ≡ ok f

  pub derive-Derivation :
      (s : Snapshot) (f : Fence) → derive d reader policies cycle s ≡ ok f → Derivation s f
  unfolding derive
  derive-Derivation s f h =
      let (v, h₁) = then-eq_ok (verify_records d s) _ h in
      let (at, e₁, h₂) = bind-eq_ok (closure_at cycle) _ h₁ in
      let (proofs, e₂, h₃) = bind-eq_ok (closure_proofs s.closures at s.sources) _ h₂ in
      let rounds = sort round_before (eligible_rounds (at_cycle cycle) s.rounds) in
      let (cohort, e₃, h₄) = bind-eq_ok (round_units s.run_id cycle s.slots rounds) _ h₃ in
      let (cohort_id, e₄, h₅) =
        bind-eq_ok
          (derive_id d "cote.csf.id.cohort" "cote.csf.schema.cohort-id-preimage" (
            list (
              byte_string cycle.id
              ∷ uint64 cycle.base_revision
              ∷ list (map round_id_value rounds)
              ∷ [])))
          _ h₄ in
      let (read, e₅, h₆) = bind-eq_ok (read_system_units reader (at_cycle cycle)) _ h₅ in
      let (system, e₆, h₇) = bind-eq_ok (system_units (at_cycle cycle) read) _ h₆ in
      record {
        verified = v;
        at = at;
        through = e₁;
        proofs = proofs;
        proved = e₂;
        cohort = cohort;
        collected = e₃;
        cohort_id = cohort_id;
        identified = e₄;
        read = read;
        reads = e₅;
        system = system;
        accepted = e₆;
        sealed = h₇;
      }

  pub Derivation-derive :
      (s : Snapshot) (f : Fence) → Derivation s f → derive d reader policies cycle s ≡ ok f
  unfolding derive
  Derivation-derive s f w =
      rw (w.verified, w.through, w.proved, w.collected, w.identified, w.reads, w.accepted) w.sealed

  -- The fence is of the units and the proofs.
  pub record Sealed (s : Snapshot) (proofs : List Value) (units : List AdmittedUnit) (f : Fence)
      : Type 0 where
    pub proofs_in : field f.fields 9 ≡ list proofs
    pub units_in : field f.fields 11 ≡ list (map unit_value units)
    pub admitted : admits cycle units ≡ true
    pub canonical_in : of_codec (canonical_payload d.codec (list f.fields)) ≡ ok f.canonical

  pub seal_fence-Sealed :
      (s : Snapshot) (proofs : List Value) (cohort : Value) (units : List AdmittedUnit) (f : Fence)
      → seal_fence d policies cycle s proofs cohort units ≡ ok f
      → Sealed s proofs units f
  unfolding seal_fence
  seal_fence-Sealed s proofs cohort units f h =
      let values = map unit_value units in
      let (input_digest, e₁, h₁) =
        bind-eq_ok
          (derive_id d "cote.csf.digest.input" "cote.csf.schema.admitted-unit-list" (list values)) _
          h in
      let (a, h₂) = guard-then-eq_ok (admits cycle units) advance_admits _ h₁ in
      let fields = fence_fields policies s cycle proofs cohort values input_digest in
      let (digest, e₂, h₃) =
        bind-eq_ok
          (derive_id d "cote.csf.digest.fence" "cote.csf.schema.admission-fence.body" (list fields))
          _ h₂ in
      let (id, e₃, h₄) =
        bind-eq_ok
          (derive_id d "cote.csf.id.admission-fence" "cote.csf.schema.admission-fence-id-preimage"
            (list (byte_string s.run_id ∷ byte_string cycle.id ∷ uint64 cycle.attempt ∷ [])))
          _ h₃ in
      let (canonical, e₄, h₅) =
        bind-eq_ok (of_codec (canonical_payload d.codec (list (fields ++ byte_string digest ∷ []))))
          _ h₄ in
      subst (Sealed s proofs units) (ok-injective h₅)
        (record { proofs_in = refl; units_in = refl; admitted = a; canonical_in = e₄ })
