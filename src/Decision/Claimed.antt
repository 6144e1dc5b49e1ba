-- ===== src/Decision/Claimed.antt =====
-- The loop of `CheckPartition` (internal/csf/decision/kernel.go) over the candidates.
use cote_ai_simulation.Base.{
  ℕ, zero, suc, ◌+◌, ◌≤◌, ◌≡◌, ◌⊎◌, refl, subst, true, not, ◌&&◌, ◌==◌, List, [], ◌∷◌, ◌++◌, length,
  ok, bind-eq_ok, guard-then-eq_ok, ok-injective, All, arith, inl, inr,
}
use cote_ai_simulation.Base.Bytes.{Bytes}
use cote_ai_simulation.Decision.{provenance}
use cote_ai_simulation.Decision.Candidates.{Candidate, holds, claim_sources, claim_all}
use cote_ai_simulation.Decision.Counts.{
  count, sources_of_all, count-append, holds-count, count-holds, zero_of_unheld, IsDistinct,
  cons-IsDistinct, Marked, Marked-nil, Marked-cons, negated, unheld, moved, count_self, count_more,
  count-cases, count_nil, both,
}
use cote_ai_simulation.Decision.Held.{unheld_of_zero}

abbrev pub IsSourced : Candidate → Type 0
IsSourced c = not (length c.source_unit_ids == 0) ≡ true

count-append_cases :
    (id : Bytes) (xs ys : List Bytes)
    → 1 ≤ count id (xs ++ ys)
    → (1 ≤ count id xs) ⊎ (1 ≤ count id ys)
count-append_cases id xs ys h = split (count id xs) (count id ys) (rw (count-append id xs ys) at h)
  where
    split : (a b : ℕ) → 1 ≤ a + b → (1 ≤ a) ⊎ (1 ≤ b)
    split zero b h = inr (omega arith)
    split (suc a) b h = inl (omega arith)

count-append_left : (id : Bytes) (xs ys : List Bytes) → 1 ≤ count id xs → 1 ≤ count id (xs ++ ys)
count-append_left id xs ys h = rw (count-append id xs ys) omega arith

count-append_right : (id : Bytes) (xs ys : List Bytes) → 1 ≤ count id ys → 1 ≤ count id (xs ++ ys)
count-append_right id xs ys h = rw (count-append id xs ys) omega arith

fewer :
    (id : Bytes) (seen xs ys : List Bytes)
    → count id seen + count id (xs ++ ys) ≤ 1
    → count id seen + count id xs ≤ 1
fewer id seen xs ys h = let k = rw (count-append id xs ys) at h in omega arith

fewest : (id : Bytes) (seen xs : List Bytes) → count id seen + count id xs ≤ 1 → count id seen ≤ 1
fewest id seen xs h = omega arith

pub later :
    (id : Bytes) (seen xs ys next : List Bytes)
    → count id next ≡ count id seen + count id xs
    → count id seen + count id (xs ++ ys) ≤ 1
    → count id next + count id ys ≤ 1
later id seen xs ys next e h = let k = rw (count-append id xs ys) at h in omega arith

Marked-append :
    (seen xs ys next s : List Bytes)
    → Marked seen xs next
    → Marked next ys s
    → Marked seen (xs ++ ys) s
Marked-append seen xs ys next s m r = record {
  distinct = r.distinct;
  counted =
      λ id. let p = m.counted id in let q = r.counted id in rw (count-append id xs ys) omega arith;
}

module _ (expected no_proposals aliases : List Bytes) where
  -- A source is an expected unit that is neither a refusal nor an alias.
  pub record IsFree (id : Bytes) : Type 0 where
    pub is_expected : 1 ≤ count id expected
    pub no_refusal : count id no_proposals ≡ 0
    pub no_alias : count id aliases ≡ 0

  abbrev AreFree : List Bytes → Type 0
  AreFree ids = (id : Bytes) → 1 ≤ count id ids → IsFree id

  claim_sources-Marked :
      (seen ids s : List Bytes)
      → claim_sources expected no_proposals aliases seen ids ≡ ok s
      → IsDistinct seen
      → Marked seen ids s × AreFree ids
  unfolding claim_sources
  claim_sources-Marked seen [] s h d =
      (subst (Marked seen []) (ok-injective h) (Marked-nil seen d), λ id m. absurd (count_nil id m))
  claim_sources-Marked seen (x ∷ ids) s h d =
      let (t, h₁) =
        guard-then-eq_ok
          (holds x expected
            && (not (holds x no_proposals) && (not (holds x aliases) && not (holds x seen))))
          provenance _ h in
      let (a, t₁) = both (holds x expected) _ t in
      let (b, t₂) = both (not (holds x no_proposals)) _ t₁ in
      let (c, e) = both (not (holds x aliases)) (not (holds x seen)) t₂ in
      let (m, free) =
        claim_sources-Marked (x ∷ seen) ids s h₁
          (cons-IsDistinct x seen (negated (holds x seen) e) d) in
      let own : IsFree x = record {
        is_expected = holds-count x expected a;
        no_refusal = zero_of_unheld x no_proposals (negated (holds x no_proposals) b);
        no_alias = zero_of_unheld x aliases (negated (holds x aliases) c);
      } in
      (
        Marked-cons x seen ids s m,
        λ id k. elim (count-cases id x ids k) [ inl eq ↦ subst IsFree eq own | inr l ↦ free id l ],
      )

  claim_sources_accepts :
      (seen ids : List Bytes)
      → ((id : Bytes) → count id seen + count id ids ≤ 1)
      → AreFree ids
      → (s : List Bytes) × (claim_sources expected no_proposals aliases seen ids ≡ ok s)
  unfolding claim_sources
  claim_sources_accepts seen [] d f = (seen, refl)
  claim_sources_accepts seen (x ∷ ids) d f =
      let own = f x (count_self x ids) in
      let (s, e) =
        claim_sources_accepts (x ∷ seen) ids (moved x seen ids d)
          (λ id m. f id (count_more id x ids m)) in
      (
        s,
        rw
            (
              count-holds x expected own.is_expected,
              unheld_of_zero x no_proposals own.no_refusal,
              unheld_of_zero x aliases own.no_alias,
              unheld x seen ids d,
            )
            e,
      )

  pub claim_all-Marked :
      (seen : List Bytes) (cs : List Candidate) (s : List Bytes)
      → claim_all expected no_proposals aliases seen cs ≡ ok s
      → IsDistinct seen
      → Marked seen (sources_of_all cs) s × AreFree (sources_of_all cs) × All IsSourced cs
  unfolding claim_all sources_of_all
  claim_all-Marked seen [] s h d = (
    subst (Marked seen []) (ok-injective h) (Marked-nil seen d),
    λ id m. absurd (count_nil id m),
    tt,
  )
  claim_all-Marked seen (c ∷ cs) s h d =
      let ids = c.source_unit_ids in
      let (n, h₁) = guard-then-eq_ok (not (length ids == 0)) provenance _ h in
      let (next, e, h₂) = bind-eq_ok (claim_sources expected no_proposals aliases seen ids) _ h₁ in
      let (m, free) = claim_sources-Marked seen ids next e d in
      let (r, others, all) = claim_all-Marked next cs s h₂ m.distinct in
      (
        Marked-append seen ids (sources_of_all cs) next s m r,
        λ id k. elim (count-append_cases id ids (sources_of_all cs) k) [
          | inl l ↦ free id l
          | inr l ↦ others id l
        ],
        (n, all),
      )

  pub claim_all_accepts :
      (seen : List Bytes) (cs : List Candidate)
      → ((id : Bytes) → count id seen + count id (sources_of_all cs) ≤ 1)
      → AreFree (sources_of_all cs)
      → All IsSourced cs
      → (s : List Bytes) × (claim_all expected no_proposals aliases seen cs ≡ ok s)
  unfolding claim_all sources_of_all
  claim_all_accepts seen [] d f a = (seen, refl)
  claim_all_accepts seen (c ∷ cs) d f (n, a) =
      let ids = c.source_unit_ids in
      let rest = sources_of_all cs in
      let (next, e) =
        claim_sources_accepts seen ids (λ id. fewer id seen ids rest (d id))
          (λ id m. f id (count-append_left id ids rest m)) in
      let m = claim_sources-Marked seen ids next e (λ id. fewest id seen (ids ++ rest) (d id)) in
      let (s, g) =
        claim_all_accepts next cs (λ id. later id seen ids rest next (m.0.counted id) (d id))
          (λ id k. f id (count-append_right id ids rest k)) a in
      (s, rw (n, e) g)
