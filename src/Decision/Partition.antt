-- ===== src/Decision/Partition.antt =====
-- `CheckPartition` of internal/csf/decision/kernel.go against the number of producers of a unit.
use cote_ai_simulation.Base.{
  ℕ, ◌+◌, ◌≤◌, ◌≡◌, refl, sym, ◌∙◌, subst, true, ◌&&◌, ◌||◌, ◌↔◌, List, [], ◌∷◌, ok, bind-eq_ok,
  guard-then-eq_ok, guard-eq_ok, All, arith, Bool-cases, inl, inr,
}
use cote_ai_simulation.Base.Bytes.{Bytes}
use cote_ai_simulation.Decision.{provenance}
use cote_ai_simulation.Decision.Candidates.{
  Candidate, holds, mark, all_held, none_held, claim_all, is_covered, check_partition,
}
use cote_ai_simulation.Decision.Counts.{
  count, sources_of_all, holds-count, count-holds, zero_of_unheld, IsDistinct, mark-Marked,
  mark_accepts, count_self, count_more, count-cases, count_nil, both, nil-IsDistinct, same_count,
  from_nil,
}
use cote_ai_simulation.Decision.Held.{
  all_held-forth, all_held-back, none_held-forth, none_held-back,
}
use cote_ai_simulation.Decision.Claimed.{IsSourced, claim_all-Marked, claim_all_accepts}

produced :
    (x : Bytes) (nos aliases seen : List Bytes)
    → (holds x seen || (holds x nos || holds x aliases)) ≡ true
    → 1 ≤ count x nos + (count x aliases + count x seen)
produced x nos aliases seen h = elim (Bool-cases (holds x seen)) [
  | inl e ↦ let k = holds-count x seen e in omega arith
  | inr e ↦ elim (Bool-cases (holds x nos)) [
    | inl f ↦ let k = holds-count x nos f in omega arith
    | inr f ↦ let k = holds-count x aliases (rw (e, f) at h) in omega arith
  ]
]

produces :
    (x : Bytes) (nos aliases seen : List Bytes)
    → 1 ≤ count x nos + (count x aliases + count x seen)
    → (holds x seen || (holds x nos || holds x aliases)) ≡ true
produces x nos aliases seen h = elim (Bool-cases (holds x seen)) [
  | inl e ↦ rw e refl
  | inr e ↦ elim (Bool-cases (holds x nos)) [
    | inl f ↦ rw (e, f) refl
    | inr f ↦
        let p = zero_of_unheld x seen e in
        let q = zero_of_unheld x nos f in rw (e, f) (count-holds x aliases (omega arith))
  ]
]

is_covered-forth :
    (nos aliases seen xs : List Bytes)
    → is_covered nos aliases seen xs ≡ true
    → (id : Bytes) → 1 ≤ count id xs
    → 1 ≤ count id nos + (count id aliases + count id seen)
unfolding is_covered
is_covered-forth nos aliases seen [] h id m = absurd (count_nil id m)
is_covered-forth nos aliases seen (x ∷ xs) h id m =
    let (first, rest) = both (holds x seen || (holds x nos || holds x aliases)) _ h in
    elim (count-cases id x xs m) [
      | inr k ↦ is_covered-forth nos aliases seen xs rest id k
      | inl e ↦
          subst (λ id. 1 ≤ count id nos + (count id aliases + count id seen)) e
            (produced x nos aliases seen first)
    ]

is_covered-back :
    (nos aliases seen xs : List Bytes)
    → ((id : Bytes) → 1 ≤ count id xs → 1 ≤ count id nos + (count id aliases + count id seen))
    → is_covered nos aliases seen xs ≡ true
unfolding is_covered
is_covered-back nos aliases seen [] f = refl
is_covered-back nos aliases seen (x ∷ xs) f =
    rw
      (
        produces x nos aliases seen (f x (count_self x xs)),
        is_covered-back nos aliases seen xs (λ id m. f id (count_more id x xs m)),
      )
      refl

-- Every admitted unit is admitted once and has one producer: a refusal, an alias or a candidate,
-- and every candidate produces something.
pub record IsPartition (admitted nos aliases : List Bytes) (cs : List Candidate) : Type 0 where
  pub once : IsDistinct admitted
  pub produced :
      (id : Bytes)
      → count id admitted ≡ count id nos + (count id aliases + count id (sources_of_all cs))
  pub sourced : All IsSourced cs

one_producer :
    (e n a s : ℕ)
    → e ≤ 1
    → n ≤ 1
    → a ≤ 1
    → s ≤ 1
    → (1 ≤ n → 1 ≤ e)
    → (1 ≤ a → 1 ≤ e)
    → (1 ≤ a → n ≡ 0)
    → (1 ≤ s → (1 ≤ e) × ((n ≡ 0) × (a ≡ 0)))
    → (1 ≤ e → 1 ≤ n + (a + s))
    → e ≡ n + (a + s)
one_producer e n a s he hn ha hs f₁ f₂ f₃ f₄ f₅ = ground arith

-- The numbers of the producers of a unit, as the producers are at most one.
refusal_only : (e n a s : ℕ) → e ≤ 1 → e ≡ n + (a + s) → 1 ≤ n → 1 ≤ e
refusal_only e n a s h b k = omega arith

alias_only : (e n a s : ℕ) → e ≤ 1 → e ≡ n + (a + s) → 1 ≤ a → (1 ≤ e) × (n ≡ 0)
alias_only e n a s h b k = (omega arith, omega arith)

source_only : (e n a s : ℕ) → e ≤ 1 → e ≡ n + (a + s) → 1 ≤ s → (1 ≤ e) × (n ≡ 0) × (a ≡ 0)
source_only e n a s h b k = (omega arith, omega arith, omega arith)

at_most_one : (e n a s : ℕ) → e ≤ 1 → e ≡ n + (a + s) → s ≤ 1
at_most_one e n a s h b = omega arith

module _ (admitted nos aliases : List Bytes) (cs : List Candidate) (dn : IsDistinct nos)
    (da : IsDistinct aliases) where
  accepted-IsPartition :
      check_partition admitted nos aliases cs ≡ ok tt → IsPartition admitted nos aliases cs
  unfolding check_partition
  accepted-IsPartition h =
      let (expected, e₁, h₁) = bind-eq_ok (mark [] admitted) _ h in
      let (g₁, h₂) = guard-then-eq_ok (all_held nos expected) provenance _ h₁ in
      let (g₂, h₃) =
        guard-then-eq_ok (all_held aliases expected && none_held aliases nos) provenance _ h₂ in
      let (seen, e₂, h₄) = bind-eq_ok (claim_all expected nos aliases [] cs) _ h₃ in
      let g₃ = guard-eq_ok (is_covered nos aliases seen expected) provenance h₄ in
      let (held, apart) = both (all_held aliases expected) (none_held aliases nos) g₂ in
      let m = mark-Marked [] admitted expected e₁ nil-IsDistinct in
      let (r, free, all) = claim_all-Marked expected nos aliases [] cs seen e₂ nil-IsDistinct in
      let expected_is = same_count admitted expected m in
      let seen_is = same_count (sources_of_all cs) seen r in
      record {
        once = λ id. subst (λ n. n ≤ 1) (expected_is id) (m.distinct id);
        produced = λ id.
            sym (expected_is id)
            ∙ one_producer (count id expected) (count id nos) (count id aliases)
                (count id (sources_of_all cs)) (m.distinct id) (dn id) (da id)
                (subst (λ n. n ≤ 1) (seen_is id) (r.distinct id))
                (all_held-forth nos expected g₁ id) (all_held-forth aliases expected held id)
                (none_held-forth aliases nos apart id)
                (λ k. let f = free id k in (f.is_expected, (f.no_refusal, f.no_alias)))
                (λ k.
                  subst (λ n. 1 ≤ count id nos + (count id aliases + n)) (seen_is id)
                    (is_covered-forth nos aliases seen expected g₃ id k));
        sourced = all;
      }

  IsPartition-accepted :
      IsPartition admitted nos aliases cs → check_partition admitted nos aliases cs ≡ ok tt
  unfolding check_partition
  IsPartition-accepted w =
      let (expected, e₁) =
        mark_accepts [] admitted (λ id. let k = w.once id in from_nil id admitted k) in
      let m = mark-Marked [] admitted expected e₁ nil-IsDistinct in
      let expected_is = same_count admitted expected m in
      let balance : (id : Bytes)
          → count id expected ≡ count id nos + (count id aliases + count id (sources_of_all cs)) =
        λ id. expected_is id ∙ w.produced id in
      let one : (id : Bytes) → count id expected ≤ 1 = m.distinct in
      let (seen, e₂) =
        claim_all_accepts expected nos aliases [] cs
          (λ id. from_nil id (sources_of_all cs) (
            at_most_one (count id expected) (count id nos) (count id aliases)
              (count id (sources_of_all cs)) (one id) (balance id)))
          (λ id k.
            let (e, n, a) =
              source_only (count id expected) (count id nos) (count id aliases)
                (count id (sources_of_all cs)) (one id) (balance id) k in
            record { is_expected = e; no_refusal = n; no_alias = a })
          w.sourced in
      let (r, free, all) = claim_all-Marked expected nos aliases [] cs seen e₂ nil-IsDistinct in
      let seen_is = same_count (sources_of_all cs) seen r in
      rw
        (
          e₁,
          all_held-back nos expected (λ id k.
              refusal_only (count id expected) (count id nos) (count id aliases)
                (count id (sources_of_all cs)) (one id) (balance id) k),
          all_held-back aliases expected (λ id k.
              (alias_only (count id expected) (count id nos) (count id aliases)
                (count id (sources_of_all cs)) (one id) (balance id) k).0),
          none_held-back aliases nos (λ id k.
              (alias_only (count id expected) (count id nos) (count id aliases)
                (count id (sources_of_all cs)) (one id) (balance id) k).1),
          e₂,
          is_covered-back nos aliases seen expected (λ id k.
              subst (λ n. 1 ≤ count id nos + (count id aliases + n)) (sym (seen_is id))
                (subst (λ n. 1 ≤ n) (balance id) k)),
        )
        refl

  -- CheckPartition accepts exactly where every admitted unit is admitted once and is a refusal, an
  -- alias or a source of one candidate, one of these and once, nothing else is, and every
  -- candidate has a source. The refusals and the aliases are sets.
  pub check_partition_iff :
      (check_partition admitted nos aliases cs ≡ ok tt) ↔ IsPartition admitted nos aliases cs
  check_partition_iff = (accepted-IsPartition, IsPartition-accepted)
