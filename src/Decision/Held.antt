-- ===== src/Decision/Held.antt =====
-- The tests of `CheckPartition` (internal/csf/decision/kernel.go) on the refusals and the aliases.
use cote_ai_simulation.Base.{
  ℕ, ◌≤◌, ◌≡◌, refl, subst, true, false, not, List, [], ◌∷◌, arith, Bool-cases, inl, inr,
}
use cote_ai_simulation.Base.Bytes.{Bytes}
use cote_ai_simulation.Decision.Candidates.{holds, all_held, none_held}
use cote_ai_simulation.Decision.Counts.{
  count, holds-count, count-holds, zero_of_unheld, negated, count_self, count_more, count-cases,
  count_nil, both,
}

pub all_held-forth :
    (xs ys : List Bytes) → all_held xs ys ≡ true → (id : Bytes) → 1 ≤ count id xs → 1 ≤ count id ys
unfolding all_held
all_held-forth [] ys h id m = absurd (count_nil id m)
all_held-forth (x ∷ xs) ys h id m =
    let (first, rest) = both (holds x ys) (all_held xs ys) h in
    elim (count-cases id x xs m) [
      | inl e ↦ subst (λ id. 1 ≤ count id ys) e (holds-count x ys first)
      | inr k ↦ all_held-forth xs ys rest id k
    ]

pub all_held-back :
    (xs ys : List Bytes)
    → ((id : Bytes) → 1 ≤ count id xs → 1 ≤ count id ys)
    → all_held xs ys ≡ true
unfolding all_held
all_held-back [] ys f = refl
all_held-back (x ∷ xs) ys f =
    rw
      (
        count-holds x ys (f x (count_self x xs)),
        all_held-back xs ys (λ id m. f id (count_more id x xs m)),
      )
      refl

pub none_held-forth :
    (xs ys : List Bytes) → none_held xs ys ≡ true → (id : Bytes) → 1 ≤ count id xs → count id ys ≡ 0
unfolding none_held
none_held-forth [] ys h id m = absurd (count_nil id m)
none_held-forth (x ∷ xs) ys h id m =
    let (first, rest) = both (not (holds x ys)) (none_held xs ys) h in
    elim (count-cases id x xs m) [
      | inl e ↦ subst (λ id. count id ys ≡ 0) e (zero_of_unheld x ys (negated (holds x ys) first))
      | inr k ↦ none_held-forth xs ys rest id k
    ]

pub unheld_of_zero : (x : Bytes) (ys : List Bytes) → count x ys ≡ 0 → holds x ys ≡ false
unheld_of_zero x ys h = elim (Bool-cases (holds x ys)) [
  | inr e ↦ e
  | inl e ↦ let one = holds-count x ys e in absurd (none (count x ys) one h)
]
  where
    none : (a : ℕ) → 1 ≤ a → a ≡ 0 → ⊥
    none a h e = omega arith

pub none_held-back :
    (xs ys : List Bytes)
    → ((id : Bytes) → 1 ≤ count id xs → count id ys ≡ 0)
    → none_held xs ys ≡ true
unfolding none_held
none_held-back [] ys f = refl
none_held-back (x ∷ xs) ys f =
    rw
      (
        unheld_of_zero x ys (f x (count_self x xs)),
        none_held-back xs ys (λ id m. f id (count_more id x xs m)),
      )
      refl
