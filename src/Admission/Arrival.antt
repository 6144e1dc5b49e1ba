-- ===== src/Admission/Arrival.antt =====
-- The order in which inputs arrive has no part in an admission fence
-- (internal/csf/admission/fence.go, `DeriveWithContext`).
use mathlib.Core.List.{Permᴰ}
use mathlib.Core.List.Permᴰ
use cote_ai_simulation.Base.{
  ◌≡◌, refl, List, [], ◌∷◌, ◌++◌, Option, ok, Result, then-eq_ok, All, All-perm, Bool-cases, inl,
  inr, if◌then◌else◌, ◌↔◌, ◌&&◌, sym, ap, ap₂, ◌∙◌, subst, map, length, ◌==◌, true,
  guard-then-eq_ok, bind-eq_ok,
}
use cote_ai_simulation.Base.Sort.{sort-eq_of_perm}
use cote_ai_simulation.Base.Bytes.{Bytes, bytes_equal, bytes_equal-eq, literal}
use cote_ai_simulation.Identity.{sum}
use cote_ai_simulation.Ledger.Bodies.{bytes_at}
use cote_ai_simulation.Value.{Value, text, field, is_literal, list}
use cote_ai_simulation.Domain.{EligibilityCoordinate}
use cote_ai_simulation.Identity.{Deriver}
use cote_ai_simulation.Ledger.{Stored, IngressReceipt}
use cote_ai_simulation.Ledger.Snapshots.{Snapshot, SystemUnit}
use cote_ai_simulation.Admission.{
  AdmissionError, Cycle, Policies, Fence, each, verify_input, has_coordinate, malformed_record,
  digest_mismatch, receipt_mismatch, check_identity, check_canonical, check_receipt, first_twelve,
  of_identity,
}
use cote_ai_simulation.Admission.Units.{
  AdmittedUnit, unit_less, input_unit, input_units, not_after, at_cycle,
}
use cote_ai_simulation.Admission.Derive.{derive, seal_fence, verify_records}
use cote_ai_simulation.Admission.Order.{unit_less-IsStrictOrder}
use cote_ai_simulation.Admission.Derivation.{derive-Derivation, Derivation-derive}

each_iff {ℓ} :
    {A : Type ℓ} (check : A → Result AdmissionError (Unit {0})) (xs : List A)
    → (each check xs ≡ ok tt) ↔ All (λ x. check x ≡ ok tt) xs
unfolding each
each_iff check [] = (λ h. tt, λ h. refl)
each_iff check (x ∷ xs) = (
  λ h. let (a, b) = then-eq_ok (check x) _ h in (a, (each_iff check xs).0 b),
  λ h. rw (h.0) ((each_iff check xs).1 h.1),
)

module _ (at : EligibilityCoordinate) where
  -- The units of one input.
  of_input : Stored → List AdmittedUnit
  of_input i = if not_after (input_unit i).eligibility at then input_unit i ∷ [] else []

  input_units-cons :
      (i : Stored) (is : List Stored) → input_units at (i ∷ is) ≡ of_input i ++ input_units at is
  unfolding input_units of_input
  input_units-cons i is = elim (Bool-cases (not_after (input_unit i).eligibility at)) [
    | inl e ↦ rw e refl
    | inr e ↦ rw e refl
  ]

  of_input_swap :
      (i j : Stored) (us : List AdmittedUnit)
      → Permᴰ (of_input i ++ (of_input j ++ us)) (of_input j ++ (of_input i ++ us))
  unfolding of_input
  of_input_swap i j us = elim (Bool-cases (not_after (input_unit i).eligibility at)) [
    | inr e ↦ rw e (Permᴰ.refl _)
    | inl e ↦ elim (Bool-cases (not_after (input_unit j).eligibility at)) [
      | inr f ↦ rw (e, f) (Permᴰ.refl _)
      | inl f ↦ rw (e, f) (Permᴰ.swap refl refl)
    ]
  ]

  input_units-perm :
      {is js : List Stored} → Permᴰ is js → Permᴰ (input_units at is) (input_units at js)
  input_units-perm Permᴰ.nil = Permᴰ.refl _
  input_units-perm (Permᴰ.cons {a} {b} {l₁} {l₂} e d) =
      rw (e, input_units-cons b l₁, input_units-cons b l₂)
        (Permᴰ.append_left (of_input b) (input_units-perm d))
  input_units-perm (Permᴰ.swap {a} {b} {a'} {b'} {l} e f) =
      rw
        (
          e,
          f,
          input_units-cons b' (a' ∷ l),
          input_units-cons a' (b' ∷ l),
          input_units-cons a' l,
          input_units-cons b' l,
        )
        (of_input_swap b' a' (input_units at l))
  input_units-perm (Permᴰ.trans d e) = Permᴰ.trans (input_units-perm d) (input_units-perm e)

-- An input under another receipt.
abbrev pub reissued : (Stored → IngressReceipt) → Stored → Stored
reissued receipts i = record i { receipt = receipts i }

same_literal : (v : Value) (a b : Bytes) → is_literal v a ≡ true → is_literal v b ≡ true → a ≡ b
same_literal (text x) a b h k = sym (bytes_equal-eq x a h) ∙ bytes_equal-eq x b k
same_literal _ a b h k = cc

module _ (d : Deriver) where
  -- A verified receipt is of the input's own source.
  verify_input-source :
      (i : Stored)
      → verify_input d i ≡ ok tt
      → is_literal (field i.fields 2) i.receipt.source_id ≡ true
  unfolding verify_input
  verify_input-source i h =
      let (a, h₁) = guard-then-eq_ok (length i.fields == 13) malformed_record _ h in
      let (b, h₂) = guard-then-eq_ok (has_coordinate (field i.fields 9)) malformed_record _ h₁ in
      let (c, h₃) =
        then-eq_ok
          (check_identity d "cote.csf.id.exogenous-input"
            "cote.csf.schema.exogenous-input-id-preimage" (field i.fields 1) (field i.fields 2)
            (field i.fields 3) (field i.fields 0) i.id)
          _ h₂ in
      let (e, f, h₄) =
        bind-eq_ok
          (of_identity (
            sum d (literal "cote.csf.digest.exogenous-input-unit")
              (literal "cote.csf.schema.exogenous-input.body") 1
              (list (list (first_twelve i.fields) ∷ []))))
          _ h₃ in
      let (g, h₅) =
        guard-then-eq_ok (bytes_at i.fields 12 e && bytes_equal e i.digest) digest_mismatch _ h₄ in
      let (k, h₆) = then-eq_ok (check_canonical d i.fields i.canonical) _ h₅ in
      (guard-then-eq_ok (is_literal (field i.fields 2) i.receipt.source_id) receipt_mismatch
        (check_receipt d 1 i) h₆).0

  reissued-unit :
      (receipts : Stored → IngressReceipt) (i : Stored)
      → verify_input d i ≡ ok tt
      → verify_input d (reissued receipts i) ≡ ok tt
      → input_unit (reissued receipts i) ≡ input_unit i
  reissued-unit receipts i h k =
      ap (λ source. record (input_unit i) { source = source })
        (same_literal (field i.fields 2) (receipts i).source_id i.receipt.source_id
          (verify_input-source (reissued receipts i) k) (verify_input-source i h))

  reissued-units :
      (receipts : Stored → IngressReceipt) (at : EligibilityCoordinate) (is : List Stored)
      → All (λ i. verify_input d i ≡ ok tt) is
      → All (λ i. verify_input d i ≡ ok tt) (map (reissued receipts) is)
      → input_units at (map (reissued receipts) is) ≡ input_units at is
  unfolding input_units
  reissued-units receipts at [] h k = refl
  reissued-units receipts at (i ∷ is) h k =
      let e = reissued-unit receipts i h.0 k.0 in
      let ih = reissued-units receipts at is h.1 k.1 in
      ap₂ (λ u us. if not_after u.eligibility at then u ∷ us else us) e ih

module _ (d : Deriver) (reader : Option (EligibilityCoordinate → Option (List SystemUnit)))
    (policies : Policies) (cycle : Cycle) where
  verify_records-inputs :
      (s : Snapshot) (inputs : List Stored)
      → All (λ i. verify_input d i ≡ ok tt) inputs
      → verify_records d s ≡ ok tt
      → All (λ i. verify_input d i ≡ ok tt) s.inputs
        × (verify_records d (record s { inputs = inputs }) ≡ ok tt)
  verify_records-inputs s inputs v h =
      let (a, h₁) = then-eq_ok (each (verify_input d) s.inputs) _ h in
      ((each_iff (verify_input d) s.inputs).0 a, rw ((each_iff (verify_input d) inputs).1 v) h₁)

  -- A fence does not depend on the arrival of the inputs among each other: where they stand in
  -- another order and under other receipts, such as with other sequence numbers, and these are
  -- verified, the very same fence is derived.
  pub derive_perm :
      (s : Snapshot) (inputs : List Stored) (receipts : Stored → IngressReceipt) (f : Fence)
      → Permᴰ (map (reissued receipts) s.inputs) inputs
      → All (λ i. verify_input d i ≡ ok tt) inputs
      → derive d reader policies cycle s ≡ ok f
      → derive d reader policies cycle (record s { inputs = inputs }) ≡ ok f
  unfolding seal_fence
  derive_perm s inputs receipts f p v h =
      let w = derive-Derivation d reader policies cycle s f h in
      let t : Snapshot = record s { inputs = inputs } in
      let at = at_cycle cycle in
      let (before, after) = verify_records-inputs s inputs v w.verified in
      let again = All-perm (λ i. verify_input d i ≡ ok tt) (Permᴰ.symm p) v in
      let units : Permᴰ (input_units at s.inputs) (input_units at inputs) =
        subst (λ us. Permᴰ us (input_units at inputs))
          (reissued-units d receipts at s.inputs before again) (input_units-perm at p) in
      let e =
        sort-eq_of_perm unit_less unit_less-IsStrictOrder
          (Permᴰ.append_left w.cohort.0 (Permᴰ.append_right w.system units)) in
      Derivation-derive d reader policies cycle t f (record {
        verified = after;
        at = w.at;
        through = w.through;
        proofs = w.proofs;
        proved = w.proved;
        cohort = w.cohort;
        collected = w.collected;
        cohort_id = w.cohort_id;
        identified = w.identified;
        read = w.read;
        reads = w.reads;
        system = w.system;
        accepted = w.accepted;
        sealed = rw (← e) w.sealed;
      })
