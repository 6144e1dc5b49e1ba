-- ===== src/Decision/Decided.antt =====
-- `Run` of internal/csf/decision/run.go as a whole: its accepted results.
use cote_ai_simulation.Base.{
  ℕ, ◌+◌, ◌≡◌, ◌⊎◌, refl, ap, ◌∙◌, subst, ◌==◌, List, [], ◌++◌, map, length, ok, bind-eq_ok,
  guard-then-eq_ok, ok-injective, arith, inl, inr,
}
use cote_ai_simulation.Base.Int.{ℤ, pos, negsuc}
use cote_ai_simulation.Base.Sort.{sort}
use cote_ai_simulation.Codec.{canonical_payload}
use cote_ai_simulation.Identity.{Deriver}
use cote_ai_simulation.Decision.{PolicyRefs, Input, Prepared, of_codec, provenance}
use cote_ai_simulation.Decision.Candidates.{Candidate}
use cote_ai_simulation.Decision.Results.{
  DecisionResult, Disposition, unit_digests, unit_sources, indeterminate_values, sealed_value, seal,
}
use cote_ai_simulation.Decision.Gather.{Gathered, stage}
use cote_ai_simulation.Decision.Allocation.{viable_of, is_exhausted}
use cote_ai_simulation.Decision.Disposal.{dispose}
use cote_ai_simulation.Decision.Run.{
  candidate_less, prepare_units, gather_stage, settle_stage, allocate, run,
}
use cote_ai_simulation.Decision.Ordered.{unit_id}
use cote_ai_simulation.Decision.Granted.{IsGathered, stage-eq_ok}
use cote_ai_simulation.Decision.Conserved.{subject_of, committed, dispose-IsDisposal}
use cote_ai_simulation.Decision.Stages.{
  prepare_units-Ordered, gather_stage-IsGathered, settle_stage-IsResolved,
}

ℤ-cases : (n : ℤ) → ((a : ℕ) × (n ≡ pos a)) ⊎ ((a : ℕ) × (n ≡ negsuc a))
ℤ-cases (pos a) = inl (a, refl)
ℤ-cases (negsuc a) = inr (a, refl)

module _ (d : Deriver) (refs : PolicyRefs) (input : Input) where
  seal-same :
      (r s : DecisionResult)
      → seal d input r ≡ ok s
      → (s.candidates ≡ r.candidates)
        × (s.dispositions ≡ r.dispositions)
        × (s.post_available ≡ r.post_available)
  unfolding seal
  seal-same r s h =
      let (digests, e₁, h₁) = bind-eq_ok (unit_digests [] input.units) _ h in
      let (sources, e₂, h₂) = bind-eq_ok (unit_sources digests input.admitted) _ h₁ in
      let (l, h₃) = guard-then-eq_ok (length sources == length digests) provenance _ h₂ in
      let (unclear, e₃, h₄) = bind-eq_ok (indeterminate_values r.indeterminate) _ h₃ in
      let (raw, e₄, h₅) =
        bind-eq_ok (of_codec (canonical_payload d.codec (sealed_value input r sources unclear))) _
          h₄ in
      subst
        (λ s.
          (s.candidates ≡ r.candidates)
          × (s.dispositions ≡ r.dispositions)
          × (s.post_available ≡ r.post_available))
        (ok-injective h₅) (refl, refl, refl)

  -- The admitted units are disposed of, each once and in the fence's order, and what is left
  -- and what is committed are together what was there.
  pub record IsDecided (r : DecisionResult) : Type 0 where
    pub available : ℕ
    pub available_in : input.snapshot.available ≡ pos available
    pub left : ℕ
    pub left_over : r.post_available ≡ pos left
    pub balance : left + committed d input r.candidates r.dispositions ≡ available
    pub in_order : map subject_of r.dispositions ≡ input.admitted

  balance_over :
      (left available : ℕ) {bs cs : List Candidate} {xs ys zs : List Disposition}
      → cs ≡ bs
      → ys ≡ xs
      → zs ≡ []
      → left + committed d input bs xs ≡ available + committed d input bs zs
      → left + committed d input cs ys ≡ available
  unfolding committed
  balance_over left available c y z h = rw (c, y) (h ∙ (rw z omega arith))

  allocate-IsDecided :
      (available : ℕ) (ps : List Prepared) (g : Gathered) (r : DecisionResult)
      → allocate d refs input available ps g ≡ ok r
      → input.snapshot.available ≡ pos available
      → map unit_id ps ≡ input.admitted
      → IsGathered d input g
      → IsDecided r
  unfolding allocate
  allocate-IsDecided available ps g r h a ids i =
      let viable = sort candidate_less (viable_of g.blocked g.result.candidates) in
      let (exhausted, e₁, h₁) =
        bind-eq_ok (stage g.result (is_exhausted available g.current 0 viable)) _ h in
      let (v, e₂, h₂) = bind-eq_ok (settle_stage d refs input available g viable exhausted) _ h₁ in
      let (s, e₃, h₃) = bind-eq_ok (dispose g v.winners v.result available ps) _ h₂ in
      let kept = settle_stage-IsResolved d refs input available g viable exhausted v e₂ in
      let done =
        dispose-IsDisposal d input g v.winners v.result available ps s i
          (kept.amount_kept ∙ i.untouched ∙ a) e₃ in
      let (cs, ds, amount) = seal-same s r (stage-eq_ok s (seal d input s) h₃) in
      record {
        available = available;
        available_in = a;
        left = done.left;
        left_over = amount ∙ done.left_over;
        balance =
            balance_over done.left available (cs ∙ done.same_candidates ∙ kept.candidates_kept) ds
              (kept.dispositions_kept ∙ i.undisposed) done.balance;
        in_order =
            ap (map subject_of) ds
            ∙ done.in_order
            ∙ ap (λ xs. map subject_of xs ++ map unit_id ps) (kept.dispositions_kept ∙ i.undisposed)
            ∙ ids;
      }

  -- A run that is accepted disposes of every admitted unit once, in the fence's order. What it
  -- leaves and what the candidates of its committed units claim make up what was available.
  pub run-IsDecided : (r : DecisionResult) → run d refs input ≡ ok r → IsDecided r
  unfolding run
  run-IsDecided r h = elim (ℤ-cases input.snapshot.available) [
    | inr (n, e) ↦ cc (rw (e, run) at h)
    | inl (available, e) ↦
        let (ordered, e₁, h₁) = bind-eq_ok (prepare_units d refs input) _ (rw (e, run) at h) in
        let (g, e₂, h₂) = bind-eq_ok (gather_stage d refs input ordered) _ h₁ in
        let (ids, a) = prepare_units-Ordered d refs input ordered e₁ in
        allocate-IsDecided available ordered g r h₂ e ids
          (gather_stage-IsGathered d refs input ordered g e₂ a)
  ]
