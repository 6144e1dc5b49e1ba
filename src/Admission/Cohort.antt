-- ===== src/Admission/Cohort.antt =====
-- The units that are collected for an admission fence, in the loops of `DeriveWithContext`
-- (internal/csf/admission/fence.go).
use cote_ai_simulation.Base.{
  ℕ, ◌≡◌, refl, ap, sym, ◌&&◌, ◌||◌, not, ◌==◌, true, arith, List, [], ◌∷◌, ◌++◌, some, ok, or_fail,
  bind-eq_ok, guard-then-eq_ok, or_fail-eq_ok, ok-injective, All, All-map, Among, Among-append,
  Among-append_right, Among-append_cases, Bool-cases, inl, inr, ◌⊎◌, subst,
}
use cote_ai_simulation.Base.Bytes.{Bytes}
use cote_ai_simulation.Domain.{EligibilityCoordinate, compare_coordinate, is_gt}
use cote_ai_simulation.Value.{Value}
use cote_ai_simulation.Store.Maps.{lookup}
use cote_ai_simulation.Ledger.{Stored, Round, Response}
use cote_ai_simulation.Ledger.Snapshots.{SystemUnit}
use cote_ai_simulation.Admission.{
  Cycle, waiting_for_slot, response_mismatch, unregistered_kind, unit_too_late,
}
use cote_ai_simulation.Admission.Units.{
  AdmittedUnit, matches_cycle, response_unit, slot_units, responses_in, round_units, not_after,
  eligible_rounds, input_unit, input_units, system_unit, system_units,
}

-- The response of a slot that a cycle of the run admits.
abbrev pub Answer : Bytes → Cycle → List (Bytes × Response) → Bytes → Response → Type 0
Answer run cycle responses slot r =
    (lookup slot responses ≡ some r) × (matches_cycle run cycle r ≡ true)

module _ (run : Bytes) (cycle : Cycle) where
  -- What the loop over the slots of a round collects.
  record SlotUnits (round : Round) (responses : List (Bytes × Response)) (slots : List Bytes)
      (us : List AdmittedUnit) : Type 0 where
    answered :
        All
          (λ slot.
            (r : Response) × Answer run cycle responses slot r × Among (response_unit round r) us)
          slots
    origin :
        (u : AdmittedUnit)
        → Among u us
        → (slot : Bytes) × (r : Response) × Among slot slots
          × Answer run cycle responses slot r
          × (u ≡ response_unit round r)

  slot_units-SlotUnits :
      (round : Round) (responses : List (Bytes × Response)) (slots : List Bytes)
      (us : List AdmittedUnit) (vs : List Value)
      → slot_units run cycle round responses slots ≡ ok (us, vs)
      → SlotUnits round responses slots us
  unfolding slot_units
  slot_units-SlotUnits round responses [] us vs h =
      let e : [] ≡ us = ap (λ (p : List AdmittedUnit × List Value). p.0) (ok-injective h) in
      record { answered = tt; origin = λ u m. absurd (subst (Among u) (sym e) m) }
  slot_units-SlotUnits round responses (slot ∷ slots) us vs h =
      let (r, e, h₁) =
        bind-eq_ok (or_fail (lookup slot responses) (waiting_for_slot round.id slot)) _ h in
      let (g, h₂) = guard-then-eq_ok (matches_cycle run cycle r) response_mismatch _ h₁ in
      let ((us', vs'), k, h₃) = bind-eq_ok (slot_units run cycle round responses slots) _ h₂ in
      let q : response_unit round r ∷ us' ≡ us =
        ap (λ (p : List AdmittedUnit × List Value). p.0) (ok-injective h₃) in
      let rest = slot_units-SlotUnits round responses slots us' vs' k in
      let l = or_fail-eq_ok (lookup slot responses) (waiting_for_slot round.id slot) e in
      subst (SlotUnits round responses (slot ∷ slots)) q (record {
        answered =
            ((r, (l, g), inl refl), All-map (λ s (t, a, m). (t, a, inr m)) slots rest.answered);
        origin = λ u m. elim m [
          | inl x ↦ (slot, r, inl refl, (l, g), x)
          | inr x ↦ let (s, t, i, a, w) = rest.origin u x in (s, t, inr i, a, w)
        ];
      })

  -- What the loop over the rounds collects.
  pub record RoundUnits (slots : List (Bytes × List (Bytes × Response))) (rounds : List Round)
      (us : List AdmittedUnit) : Type 0 where
    pub answered :
        All
          (λ round.
            All
              (λ slot.
                (r : Response) × Answer run cycle (responses_in slots round.id) slot r
                × Among (response_unit round r) us)
              round.slots)
          rounds
    pub origin :
        (u : AdmittedUnit)
        → Among u us
        → (round : Round) × (slot : Bytes) × (r : Response) × Among round rounds
          × Among slot round.slots
          × Answer run cycle (responses_in slots round.id) slot r
          × (u ≡ response_unit round r)

  pub round_units-RoundUnits :
      (slots : List (Bytes × List (Bytes × Response))) (rounds : List Round)
      (us : List AdmittedUnit) (vs : List Value)
      → round_units run cycle slots rounds ≡ ok (us, vs)
      → RoundUnits slots rounds us
  unfolding round_units
  round_units-RoundUnits slots [] us vs h =
      let e : [] ≡ us = ap (λ (p : List AdmittedUnit × List Value). p.0) (ok-injective h) in
      record { answered = tt; origin = λ u m. absurd (subst (Among u) (sym e) m) }
  round_units-RoundUnits slots (x ∷ rounds) us vs h =
      let ((us₁, vs₁), k₁, h₁) =
        bind-eq_ok (slot_units run cycle x (responses_in slots x.id) x.slots) _ h in
      let ((us₂, vs₂), k₂, h₂) = bind-eq_ok (round_units run cycle slots rounds) _ h₁ in
      let q : us₁ ++ us₂ ≡ us =
        ap (λ (p : List AdmittedUnit × List Value). p.0) (ok-injective h₂) in
      let first = slot_units-SlotUnits x (responses_in slots x.id) x.slots us₁ vs₁ k₁ in
      let rest = round_units-RoundUnits slots rounds us₂ vs₂ k₂ in
      subst (RoundUnits slots (x ∷ rounds)) q (record {
        answered = (
          All-map (λ s (t, a, m). (t, a, Among-append _ us₁ us₂ m)) x.slots first.answered,
          All-map (λ y. All-map (λ s (t, a, m). (t, a, Among-append_right _ us₁ us₂ m)) y.slots)
              rounds rest.answered,
        );
        origin = λ u m. elim (Among-append_cases u us₁ us₂ m) [
          | inl i ↦ let (s, t, j, a, w) = first.origin u i in (x, s, t, inl refl, j, a, w)
          | inr i ↦ let (y, s, t, j, j', a, w) = rest.origin u i in (y, s, t, inr j, j', a, w)
        ];
      })

module _ (at : EligibilityCoordinate) where
  -- An open round that is not after the coordinate.
  abbrev pub IsEligible : Round → Type 0
  IsEligible r = (r.lifecycle ≡ 0) × (not_after r.eligibility at ≡ true)

  pub eligible_rounds-Among :
      (r : Round) (rs : List Round) → Among r rs → IsEligible r → Among r (eligible_rounds at rs)
  unfolding eligible_rounds
  eligible_rounds-Among r [] m e = m
  eligible_rounds-Among r (x ∷ rs) (inl q) (e, f) = rw (← q) (rw (e, f) (inl refl))
  eligible_rounds-Among r (x ∷ rs) (inr m) e =
      elim (Bool-cases ((x.lifecycle == 0) && not_after x.eligibility at)) [
        | inl t ↦ rw t (inr (eligible_rounds-Among r rs m e))
        | inr t ↦ rw t (eligible_rounds-Among r rs m e)
      ]

  pub Among-eligible_rounds :
      (r : Round) (rs : List Round) → Among r (eligible_rounds at rs) → Among r rs × IsEligible r
  unfolding eligible_rounds
  Among-eligible_rounds r [] m = absurd m
  Among-eligible_rounds r (x ∷ rs) m =
      elim (Bool-cases ((x.lifecycle == 0) && not_after x.eligibility at)) [
        | inr t ↦ let (a, e) = Among-eligible_rounds r rs (rw t at m) in (inr a, e)
        | inl t ↦ elim (in_cons (eligible_rounds at rs) (rw t at m)) [
          | inl q ↦ (inl q, subst IsEligible (sym q) (ground arith, ground arith))
          | inr k ↦ let (a, e) = Among-eligible_rounds r rs k in (inr a, e)
        ]
      ]
    where
      in_cons : {y : Round} (ys : List Round) → Among r (y ∷ ys) → (r ≡ y) ⊎ Among r ys
      in_cons ys m = m

  pub input_units-Among :
      (i : Stored) (is : List Stored)
      → Among i is
      → not_after (input_unit i).eligibility at ≡ true
      → Among (input_unit i) (input_units at is)
  unfolding input_units
  input_units-Among i [] m e = m
  input_units-Among i (x ∷ is) (inl q) e = rw (← q) (rw e (inl refl))
  input_units-Among i (x ∷ is) (inr m) e =
      elim (Bool-cases (not_after (input_unit x).eligibility at)) [
        | inl t ↦ rw t (inr (input_units-Among i is m e))
        | inr t ↦ rw t (input_units-Among i is m e)
      ]

  pub Among-input_units :
      (u : AdmittedUnit) (is : List Stored)
      → Among u (input_units at is)
      → (i : Stored) × Among i is
        × (not_after (input_unit i).eligibility at ≡ true)
        × (u ≡ input_unit i)
  unfolding input_units
  Among-input_units u [] m = absurd m
  Among-input_units u (x ∷ is) m = elim (Bool-cases (not_after (input_unit x).eligibility at)) [
    | inr t ↦ let (i, a, f, e) = Among-input_units u is (rw t at m) in (i, inr a, f, e)
    | inl t ↦ elim (in_cons (input_units at is) (rw t at m)) [
      | inl q ↦ (x, inl refl, t, q)
      | inr k ↦ let (i, a, f, e) = Among-input_units u is k in (i, inr a, f, e)
    ]
  ]
    where
      in_cons :
          {y : AdmittedUnit} (ys : List AdmittedUnit) → Among u (y ∷ ys) → (u ≡ y) ⊎ Among u ys
      in_cons ys m = m

  -- A scheduled occurrence or a trigger activation that is not after the coordinate.
  abbrev pub IsAdmissible : SystemUnit → Type 0
  IsAdmissible s = ((s.kind ≡ 2) ⊎ (s.kind ≡ 3)) × (not_after s.eligibility at ≡ true)

  -- What the loop over the system units collects.
  pub record SystemUnits (ss : List SystemUnit) (us : List AdmittedUnit) : Type 0 where
    pub admissible : All IsAdmissible ss
    pub collected : All (λ s. Among (system_unit s) us) ss
    pub origin :
        (u : AdmittedUnit) → Among u us → (s : SystemUnit) × Among s ss × (u ≡ system_unit s)

  pub system_units-SystemUnits :
      (ss : List SystemUnit) (us : List AdmittedUnit)
      → system_units at ss ≡ ok us
      → SystemUnits ss us
  unfolding system_units
  system_units-SystemUnits [] us h =
      let e : [] ≡ us = ok-injective h in
      record { admissible = tt; collected = tt; origin = λ u m. absurd (subst (Among u) (sym e) m) }
  system_units-SystemUnits (s ∷ ss) us h =
      let (k, h₁) = guard-then-eq_ok ((s.kind == 2) || (s.kind == 3)) unregistered_kind _ h in
      let (l, h₂) =
        guard-then-eq_ok (not (is_gt (compare_coordinate s.eligibility at))) unit_too_late _ h₁ in
      let (us', r, h₃) = bind-eq_ok (system_units at ss) _ h₂ in
      let rest = system_units-SystemUnits ss us' r in
      let q : system_unit s ∷ us' ≡ us = ok-injective h₃ in
      subst (SystemUnits (s ∷ ss)) q (record {
        admissible = ((kind_cases s.kind k, ground (arith, l)), rest.admissible);
        collected = (inl refl, All-map (λ t m. inr m) ss rest.collected);
        origin = λ u m. elim m [
          | inl x ↦ (s, inl refl, x)
          | inr x ↦ let (t, i, w) = rest.origin u x in (t, inr i, w)
        ];
      })
    where
      kind_cases : (n : ℕ) → ((n == 2) || (n == 3)) ≡ true → (n ≡ 2) ⊎ (n ≡ 3)
      kind_cases n e = elim (Bool-cases (n == 2)) [
        | inl x ↦ inl (ground arith)
        | inr x ↦ inr (ground arith)
      ]
