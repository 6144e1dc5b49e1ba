-- ===== src/Clock/Draining.antt =====
-- How many plans Next can make in a row while work is consumed (internal/csf/clock/clock.go).
use cote_ai_simulation.Base.{
  ℕ, suc, ◌+◌, ◌*◌, ◌≡◌, ◌≤◌, ◌<◌, sym, ◌∙◌, subst, arith, List, length, some, ok, ok-injective,
}
use cote_ai_simulation.Clock.{State, Plan, Pending, work, clock_advance, next, apply_advance}
use cote_ai_simulation.Clock.Advances.{apply_advance-next, advanced}

-- A run of plans, with their count: an advance is applied and leaves the pending records; a work
-- cycle leaves any clock, and fewer pending records than there were.
pub data Planning : ℕ → State → List Pending → State → List Pending → Type 0 where
  stopped : (s : State) (ps : List Pending) → Planning 0 s ps s ps
  advancing :
      {k : ℕ} {s t u : State} {ps qs : List Pending} (p : Plan)
      → next s ps ≡ ok (some p)
      → p.kind ≡ clock_advance
      → apply_advance s p ≡ ok t
      → Planning k t ps u qs
      → Planning (suc k) s ps u qs
  cycling :
      {k : ℕ} {s t u : State} {ps rs qs : List Pending} (p : Plan)
      → next s ps ≡ ok (some p)
      → p.kind ≡ work
      → length rs < length ps
      → Planning k t rs u qs
      → Planning (suc k) s ps u qs

same_plan :
    (s : State) (ps : List Pending) (p q : Plan)
    → next s ps ≡ ok (some p)
    → next s ps ≡ ok (some q)
    → p ≡ q
same_plan s ps p q h k = cc

-- The bound, and that there is one plan less where `Next` plans work.
bounded :
    {k : ℕ} {s u : State} {ps qs : List Pending}
    → Planning k s ps u qs
    → (k + 2 * length qs ≤ 2 * length ps + 1)
      × ((q : Plan) → next s ps ≡ ok (some q) → q.kind ≡ work → k + 2 * length qs ≤ 2 * length ps)
bounded (stopped s ps) = (omega arith, λ q h w. omega arith)
bounded (advancing {s = s} {t = t} {ps = ps} p e a b r) =
    let (applied, later, (q, n, w, target)) = apply_advance-next s ps p e a in
    let same : advanced s p ≡ t = ok-injective (sym applied ∙ b) in
    let bound = (bounded r).1 q (subst (λ z. next z ps ≡ ok (some q)) same n) w in
    (omega arith, λ q' h w'. absurd (let same' = same_plan s ps p q' e h in ground arith))
bounded (cycling p e a l r) = let bound = (bounded r).0 in (omega arith, λ q h w. omega arith)

-- In a run of plans where every planned advance is applied, and every planned work cycle leaves
-- fewer pending records than there were, the plans and twice the records left are at most twice the
-- records at the start and one more: the plans come to an end.
pub next_ends :
    {k : ℕ} {s u : State} {ps qs : List Pending}
    → Planning k s ps u qs
    → k + 2 * length qs ≤ 2 * length ps + 1
next_ends r = (bounded r).0
