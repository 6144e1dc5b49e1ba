-- ===== src/Admission/Closed.antt =====
-- The closures that an admission fence proves (internal/csf/admission/fence.go, the loop over the
-- sources in `DeriveWithContext`).
use cote_ai_simulation.Base.{
  ℕ, ◌≡◌, ◌≤◌, refl, ap, ◌∙◌, sym, true, false, arith, ltb, List, [], ◌∷◌, ◌++◌, Option, some, none,
  Result, ok, err, All, All-map, Among, Bool-cases, Option-cases, Result-cases, inl, inr, ◌⊎◌,
  subst,
}
use cote_ai_simulation.Base.Bytes.{Bytes}
use cote_ai_simulation.Domain.{EligibilityCoordinate}
use cote_ai_simulation.Value.{Value}
use cote_ai_simulation.Ledger.{Stored}
use cote_ai_simulation.Admission.{AdmissionError, waiting_for_closure}
use cote_ai_simulation.Admission.Sufficient.{
  IsSufficient, qualifies-IsSufficient, IsSufficient-qualifies, true_is_not,
}
use cote_ai_simulation.Admission.Units.{
  qualifies, better, select_closure, proof_value, closure_proofs,
}

abbrev sequence : Stored → ℕ
sequence c = c.receipt.sequence

module _ (source : Bytes) (at : EligibilityCoordinate) where
  -- The closure is the earliest of the sufficient ones.
  pub record Selected (cs : List Stored) (c : Stored) : Type 0 where
    pub one_of : Among c cs
    pub fits : IsSufficient source at c
    pub earliest : All (λ d. IsSufficient source at d → sequence c ≤ sequence d) cs

  -- No closure of the source is final or closes through the coordinate.
  abbrev pub NoneSufficient : List Stored → Type 0
  NoneSufficient cs = All (λ d. IsSufficient source at d → ⊥) cs

  abbrev NoneQualifies : List Stored → Type 0
  NoneQualifies cs = All (λ d. qualifies source at d ≡ false) cs

  -- The loop, for any value of its variable.
  record Chosen (selected : Option Stored) (cs : List Stored) (c : Stored) : Type 0 where
    found : (selected ≡ some c) ⊎ (Among c cs × (qualifies source at c ≡ true))
    before_selected : (s : Stored) → selected ≡ some s → sequence c ≤ sequence s
    before_all : All (λ d. qualifies source at d ≡ true → sequence c ≤ sequence d) cs

  record Better (d : Stored) (selected : Option Stored) (b : Stored) : Type 0 where
    picked : better d selected ≡ some b
    one_of_two : (b ≡ d) ⊎ (selected ≡ some b)
    before_new : sequence b ≤ sequence d
    before_old : (s : Stored) → selected ≡ some s → sequence b ≤ sequence s

  some-injective : {a b : Stored} → ◌≡◌ {A = Option Stored} (some a) (some b) → a ≡ b
  some-injective e = cc

  Better-of : (d : Stored) (selected : Option Stored) → (b : Stored) × Better d selected b
  Better-of d none = (
    d,
    record {
      picked = refl;
      one_of_two = inl refl;
      before_new = omega arith;
      before_old = λ s e. cc;
    },
  )
  Better-of d (some s) = elim (Bool-cases (ltb (sequence d) (sequence s))) [
    | inl l ↦ (
      d,
      record {
        picked = rw l refl;
        one_of_two = inl refl;
        before_new = omega arith;
        before_old = λ t e. subst (λ x. sequence d ≤ sequence x) (some-injective e) (ground arith);
      },
    )
    | inr l ↦ (
      s,
      record {
        picked = rw l refl;
        one_of_two = inr refl;
        before_new = ground arith;
        before_old = λ t e. subst (λ x. sequence s ≤ sequence x) (some-injective e) (omega arith);
      },
    )
  ]

  Chosen-better :
      (selected : Option Stored) (d : Stored) (cs : List Stored) (c b : Stored)
      → qualifies source at d ≡ true
      → Better d selected b
      → Chosen (better d selected) cs c
      → Chosen selected (d ∷ cs) c
  Chosen-better selected d cs c b q m r =
      let le = r.before_selected b m.picked in
      let new = m.before_new in
      record {
        found = elim r.found [
          | inr (a, f) ↦ inr (inr a, f)
          | inl e ↦
              let x : b ≡ c = some-injective (sym m.picked ∙ e) in
              elim m.one_of_two [
                | inl y ↦
                    let z : c ≡ d = sym x ∙ y in
                    inr (inl z, subst (λ w. qualifies source at w ≡ true) (sym z) q)
                | inr y ↦ inl (y ∙ ap some x)
              ]
        ];
        before_selected = λ s e. omega (arith, m.before_old s e);
        before_all = (λ k. omega arith, r.before_all);
      }

  select_closure-Chosen :
      (selected : Option Stored) (cs : List Stored) (c : Stored)
      → select_closure source at selected cs ≡ some c
      → Chosen selected cs c
  unfolding select_closure
  select_closure-Chosen selected [] c h = record {
    found = inl h;
    before_selected =
        λ s e. subst (λ x. sequence x ≤ sequence s) (some-injective (sym e ∙ h)) (omega arith);
    before_all = tt;
  }
  select_closure-Chosen selected (d ∷ cs) c h = elim (Bool-cases (qualifies source at d)) [
    | inr q ↦
        let r = select_closure-Chosen selected cs c (rw q at h) in
        record {
          found = elim r.found [ inl e ↦ inl e | inr (m, f) ↦ inr (inr m, f) ];
          before_selected = r.before_selected;
          before_all = (λ k. cc, r.before_all);
        }
    | inl q ↦
        let (b, m) = Better-of d selected in
        Chosen-better selected d cs c b q m
          (select_closure-Chosen (better d selected) cs c (rw q at h))
  ]

  select_closure-Selected :
      (cs : List Stored) (c : Stored) → select_closure source at none cs ≡ some c → Selected cs c
  select_closure-Selected cs c h =
      let r = select_closure-Chosen none cs c h in
      elim r.found [
        | inl e ↦ cc
        | inr (m, f) ↦ record {
          one_of = m;
          fits = qualifies-IsSufficient source at c f;
          earliest = All-map (λ d k w. k (IsSufficient-qualifies source at d w)) cs r.before_all;
        }
      ]

  select_closure-none :
      (selected : Option Stored) (cs : List Stored)
      → select_closure source at selected cs ≡ none
      → (selected ≡ none) × NoneQualifies cs
  unfolding select_closure
  select_closure-none selected [] h = (h, tt)
  select_closure-none selected (d ∷ cs) h = elim (Bool-cases (qualifies source at d)) [
    | inr q ↦ let r = select_closure-none selected cs (rw q at h) in (r.0, (q, r.1))
    | inl q ↦
        let (b, m) = Better-of d selected in
        let p = m.picked in
        let r = select_closure-none (better d selected) cs (rw q at h) in cc (r.0)
  ]

-- Each source has its selected closure, of which the proof is.
abbrev pub Proven : List Stored → EligibilityCoordinate → List Bytes → List Value → Type 0
Proven cs at [] [] = Unit
Proven cs at (s ∷ ss) (v ∷ vs) =
    ((c : Stored) × Selected s at cs c × (v ≡ proof_value s c)) × Proven cs at ss vs
Proven cs at _ _ = ⊥

-- It waits for the first source that has no sufficient closure: each one before it has.
pub record Waits (cs : List Stored) (at : EligibilityCoordinate) (sources : List Bytes)
    (e : AdmissionError) : Type 0 where
  pub source : Bytes
  pub earlier : List Bytes
  pub later : List Bytes
  pub stands : sources ≡ earlier ++ (source ∷ later)
  pub is_error : e ≡ waiting_for_closure source
  pub none_sufficient : NoneSufficient source at cs
  pub others_closed : All (λ t. (c : Stored) × Selected t at cs c) earlier

abbrev pub Outcome :
    List Stored → EligibilityCoordinate → List Bytes → Result AdmissionError (List Value) → Type 0
Outcome cs at sources (ok proofs) = Proven cs at sources proofs
Outcome cs at sources (err e) = Waits cs at sources e

Waits-cons :
    (cs : List Stored) (at : EligibilityCoordinate) (s : Bytes) (ss : List Bytes)
    (e : AdmissionError) (c : Stored)
    → Selected s at cs c
    → Waits cs at ss e
    → Waits cs at (s ∷ ss) e
Waits-cons cs at s ss e c m w = record {
  source = w.source;
  earlier = s ∷ w.earlier;
  later = w.later;
  stands = ap (λ xs. s ∷ xs) w.stands;
  is_error = w.is_error;
  none_sufficient = w.none_sufficient;
  others_closed = ((c, m), w.others_closed);
}

Waits-first :
    (cs : List Stored) (at : EligibilityCoordinate) (s : Bytes) (ss : List Bytes)
    → select_closure s at none cs ≡ none
    → Waits cs at (s ∷ ss) (waiting_for_closure s)
Waits-first cs at s ss e = record {
  source = s;
  earlier = [];
  later = ss;
  stands = refl;
  is_error = refl;
  none_sufficient =
      All-map (λ d n w. true_is_not (IsSufficient-qualifies s at d w) n) cs
        (select_closure-none s at none cs e).1;
  others_closed = tt;
}

-- The loop over the sources proves, for every source, the earliest closure of it that is final or
-- closes at or after the coordinate; or it waits for the first source that has no such closure,
-- where every source before that one has.
pub closure_proofs-Outcome :
    (cs : List Stored) (at : EligibilityCoordinate) (sources : List Bytes)
    → Outcome cs at sources (closure_proofs cs at sources)
unfolding closure_proofs
closure_proofs-Outcome cs at [] = tt
closure_proofs-Outcome cs at (s ∷ ss) = elim (Option-cases (select_closure s at none cs)) [
  | inl e ↦ rw e (Waits-first cs at s ss e)
  | inr (c, e) ↦
      let m = select_closure-Selected s at cs c e in
      elim (Result-cases (closure_proofs cs at ss)) [
        | inl (vs, f) ↦
            let r = closure_proofs-Outcome cs at ss in rw (e, f) ((c, m, refl), (rw f at r))
        | inr (x, f) ↦
            let r = closure_proofs-Outcome cs at ss in
            rw (e, f) (Waits-cons cs at s ss x c m (rw f at r))
      ]
]
