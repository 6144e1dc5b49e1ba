-- ===== src/Decision/Conserved.antt =====
-- What `Run` (internal/csf/decision/run.go) gives away, and to whom.
use mathlib.Core.List.{append-nil}
use cote_ai_simulation.Base.{
  ℕ, ◌+◌, ◌≡◌, refl, sym, ap, ◌∙◌, subst, leb, List, [], ◌∷◌, ◌++◌, map, some, none, ok, or_fail,
  bind-eq_ok, guard-then-eq_ok, ok-injective, arith, Bool-cases, Option-cases, Result-cases, inl,
  inr, leb→le,
}
use cote_ai_simulation.Base.Bytes.{Bytes}
use cote_ai_simulation.Base.Int.{pos}
use cote_ai_simulation.Identity.{Deriver}
use cote_ai_simulation.Decision.{Input, Prepared, provenance}
use cote_ai_simulation.Decision.Candidates.{Candidate, holds}
use cote_ai_simulation.Decision.Results.{commit, Disposition, DecisionResult}
use cote_ai_simulation.Decision.Gather.{Gathered}
use cote_ai_simulation.Decision.Allocation.{is_set, amount_of}
use cote_ai_simulation.Decision.Disposal.{by_source, dispose_candidate, dispose_unit, dispose}
use cote_ai_simulation.Decision.Ordered.{unit_id}
use cote_ai_simulation.Decision.Granted.{granted, IsGathered}

abbrev pub subject_of : Disposition → Bytes
subject_of x = x.subject

subjects-append :
    (xs : List Disposition) (x : Disposition) (ids : List Bytes)
    → map subject_of (xs ++ x ∷ []) ++ ids ≡ map subject_of xs ++ x.subject ∷ ids
subjects-append [] x ids = refl
subjects-append (y ∷ xs) x ids = ap (λ zs. y.subject ∷ zs) (subjects-append xs x ids)

module _ (d : Deriver) (input : Input) where
  -- What a disposition gives away: of a committed unit what its candidate claims.
  unfoldable pub grant : List Candidate → Disposition → ℕ
  grant cs x = elim x.status [
    | commit ↦ elim (granted d input cs x.candidate_id) [ none ↦ 0 | some n ↦ n ]
    | other ↦ 0
  ]

  unfoldable pub committed : List Candidate → List Disposition → ℕ
  committed cs [] = 0
  committed cs (x ∷ xs) = grant cs x + committed cs xs

  committed-append :
      (cs : List Candidate) (xs : List Disposition) (x : Disposition)
      → committed cs (xs ++ x ∷ []) ≡ committed cs xs + grant cs x
  unfolding committed
  committed-append cs [] x = omega arith
  committed-append cs (y ∷ xs) x = rw (committed-append cs xs x) omega arith

  -- A disposition is of its unit, and takes what the candidate claims.
  pub record IsDisposed (g : Gathered) (post : ℕ) (p : Prepared) (v : Disposition × ℕ)
      : Type 0 where
    pub of_unit : v.0.subject ≡ p.id
    pub taken : v.1 + grant g.result.candidates v.0 ≡ post

  dispose_candidate-IsDisposed :
      (g : Gathered) (winners : List Bytes) (post : ℕ) (p : Prepared) (c : Candidate)
      (v : Disposition × ℕ)
      → IsGathered d input g
      → dispose_candidate g winners post p c ≡ ok v
      → IsDisposed g post p v
  unfolding dispose_candidate grant
  dispose_candidate-IsDisposed g winners post p c v i h =
      elim (Bool-cases (is_set p.id g.access_blocked)) [
        | inl a ↦
            subst (IsDisposed g post p) (ok-injective (rw (a, dispose_candidate) at h))
              (record { of_unit = refl; taken = omega arith })
        | inr a ↦ elim (Bool-cases (is_set p.id g.blocked)) [
          | inl b ↦
              subst (IsDisposed g post p) (ok-injective (rw (a, b, dispose_candidate) at h))
                (record { of_unit = refl; taken = omega arith })
          | inr b ↦ elim (Bool-cases (holds c.id winners)) [
            | inr w ↦
                subst (IsDisposed g post p) (ok-injective (rw (a, b, w, dispose_candidate) at h))
                  (record { of_unit = refl; taken = omega arith })
            | inl w ↦
                let (l, h₁) =
                  guard-then-eq_ok (leb (amount_of c.id g.current) post) provenance _
                    (rw (a, b, w, dispose_candidate) at h) in
                subst (IsDisposed g post p) (ok-injective h₁) (record {
                  of_unit = refl;
                  taken =
                      rw (sym (i.current_in c.id), grant) (let le = leb→le _ _ l in ground arith);
                })
          ]
        ]
      ]

  dispose_unit-IsDisposed :
      (g : Gathered) (winners : List Bytes) (post : ℕ) (p : Prepared) (v : Disposition × ℕ)
      → IsGathered d input g
      → dispose_unit g winners post p ≡ ok v
      → IsDisposed g post p v
  unfolding dispose_unit grant
  dispose_unit-IsDisposed g winners post p v i h = elim (Bool-cases p.no_proposal) [
    | inl a ↦
        subst (IsDisposed g post p) (ok-injective (rw (a, dispose_unit) at h))
          (record { of_unit = refl; taken = omega arith })
    | inr a ↦ elim (Option-cases p.alias) [
      | inr (canonical, b) ↦
          subst (IsDisposed g post p) (ok-injective (rw (a, b, dispose_unit) at h))
            (record { of_unit = refl; taken = omega arith })
      | inl b ↦
          let (c, e, h₁) =
            bind-eq_ok (or_fail (by_source p.id g.result.candidates) provenance) _
              (rw (a, b, dispose_unit) at h) in
          dispose_candidate-IsDisposed g winners post p c v i h₁
    ]
  ]

  -- From `r` to `s` the loop disposes of the units in their order, and keeps the balance.
  pub record IsDisposal (cs : List Candidate) (r : DecisionResult) (post : ℕ) (ps : List Prepared)
      (s : DecisionResult) : Type 0 where
    pub left : ℕ
    pub left_over : s.post_available ≡ pos left
    pub balance : left + committed cs s.dispositions ≡ post + committed cs r.dispositions
    pub in_order : map subject_of s.dispositions ≡ map subject_of r.dispositions ++ map unit_id ps
    pub same_candidates : s.candidates ≡ r.candidates

  balance_of :
      (cs : List Candidate) (post left total : ℕ) (xs : List Disposition) (v : Disposition × ℕ)
      → v.1 + grant cs v.0 ≡ post
      → left + total ≡ v.1 + committed cs (xs ++ v.0 ∷ [])
      → left + total ≡ post + committed cs xs
  balance_of cs post left total xs v one rest = rest ∙ (rw (committed-append cs xs v.0) omega arith)

  pub dispose-IsDisposal :
      (g : Gathered) (winners : List Bytes) (r : DecisionResult) (post : ℕ) (ps : List Prepared)
      (s : DecisionResult)
      → IsGathered d input g
      → r.post_available ≡ pos post
      → dispose g winners r post ps ≡ ok s
      → IsDisposal g.result.candidates r post ps s
  unfolding dispose
  dispose-IsDisposal g winners r post [] s i a h =
      subst (IsDisposal g.result.candidates r post []) (ok-injective h) (record {
        left = post;
        left_over = a;
        balance = refl;
        in_order = sym (append-nil (map subject_of r.dispositions));
        same_candidates = refl;
      })
  dispose-IsDisposal g winners r post (p ∷ ps) s i a h =
      elim (Result-cases (dispose_unit g winners post p)) [
        | inr (e, f) ↦ cc (rw (f, dispose) at h)
        | inl (v, f) ↦
            let next = record r {
              dispositions = r.dispositions ++ v.0 ∷ [];
              post_available = pos v.1;
            } in
            let one = dispose_unit-IsDisposed g winners post p v i f in
            let rest = dispose-IsDisposal g winners next v.1 ps s i refl (rw (f, dispose) at h) in
            record {
              left = rest.left;
              left_over = rest.left_over;
              balance =
                  balance_of g.result.candidates post rest.left
                    (committed g.result.candidates s.dispositions) r.dispositions v one.taken
                    rest.balance;
              in_order =
                  rest.in_order
                  ∙ subjects-append r.dispositions v.0 (map unit_id ps)
                  ∙ ap (λ x. map subject_of r.dispositions ++ x ∷ map unit_id ps) one.of_unit;
              same_candidates = rest.same_candidates;
            }
      ]
