-- ===== src/Schedule/Before.antt =====
-- The order of pending occurrences, in terms of eligibilities and the bytes of ids
-- (internal/csf/schedule/schedule.go).
use mathlib.Core.List.Permᴰ
use cote_ai_simulation.Base.{
  ◌≡◌, ◌≢◌, refl, sym, ap, true, false, List, [], ◌∷◌, All-map, Pairs, Pairs-perm, Neighbours,
  Neighbours-Pairs, Bool-cases, Ordering, ◌⊎◌, inl, inr,
}
use cote_ai_simulation.Base.Bytes.{bytes_compare, bytes_compare-flip}
use cote_ai_simulation.Base.Sort.{sort, IsAscending, sort-IsAscending, sort-perm}
use cote_ai_simulation.Clock.{Pending}
use cote_ai_simulation.Domain.{compare_coordinate}
use cote_ai_simulation.Domain.Order.{compare-flip, compare-eq, compare_refl}
use cote_ai_simulation.Schedule.{pending_less}
use cote_ai_simulation.Schedule.Order.{pending_less-IsStrictOrder, id_less-lt}

-- By eligibility, and for one eligibility by the bytes of the ids.
abbrev pub IsBefore : Pending → Pending → Type 0
IsBefore a b =
    (compare_coordinate a.eligibility b.eligibility ≡ Ordering.lt)
    ⊎ ((a.eligibility ≡ b.eligibility) × (bytes_compare a.id b.id ≡ Ordering.lt))

Ordering-cases : (o : Ordering) → (o ≡ Ordering.lt) ⊎ ((o ≡ Ordering.eq) ⊎ (o ≡ Ordering.gt))
Ordering-cases Ordering.lt = inl refl
Ordering-cases Ordering.eq = inr (inl refl)
Ordering-cases Ordering.gt = inr (inr refl)

IsBefore-of_less : (a b : Pending) → pending_less a b ≡ true → IsBefore a b
unfolding pending_less
IsBefore-of_less a b h = elim (Ordering-cases (compare_coordinate a.eligibility b.eligibility)) [
  | inl l ↦ inl l
  | inr (inl e) ↦
      inr
        (compare-eq a.eligibility b.eligibility e, id_less-lt a.id b.id (rw (e, pending_less) at h))
  | inr (inr g) ↦ cc (rw (g, pending_less) at h)
]

pub IsBefore-asymm : (a b : Pending) → IsBefore a b → IsBefore b a → ⊥
IsBefore-asymm a b (inl h) (inl k) = cc (compare-flip a.eligibility b.eligibility h)
IsBefore-asymm a b (inl h) (inr (e, k)) = cc (compare_refl b.eligibility)
IsBefore-asymm a b (inr (e, h)) (inl k) = cc (compare_refl b.eligibility)
IsBefore-asymm a b (inr (e, h)) (inr (f, k)) = cc (bytes_compare-flip a.id b.id h)

-- Two pending occurrences with different ids.
abbrev pub HasOtherId : Pending → Pending → Type 0
HasOtherId a b = a.id ≢ b.id

less_of_apart :
    (a b : Pending) → pending_less b a ≡ false → HasOtherId a b → pending_less a b ≡ true
less_of_apart a b h n = elim (Bool-cases (pending_less a b)) [
  | inl l ↦ l
  | inr e ↦ absurd (n (ap (λ x. x.id) (pending_less-IsStrictOrder.antisymm a b e h)))
]

Neighbours-less :
    (ps : List Pending)
    → IsAscending pending_less ps
    → Pairs HasOtherId ps
    → Neighbours (λ a b. pending_less a b ≡ true) ps
Neighbours-less [] s n = tt
Neighbours-less (a ∷ []) s n = tt
Neighbours-less (a ∷ b ∷ ps) s n = (less_of_apart a b s.0 n.0.0, Neighbours-less (b ∷ ps) s.1 n.1)

Pairs-IsBefore : (ps : List Pending) → Pairs (λ a b. pending_less a b ≡ true) ps → Pairs IsBefore ps
Pairs-IsBefore [] h = tt
Pairs-IsBefore (p ∷ ps) h = (All-map (IsBefore-of_less p) ps h.0, Pairs-IsBefore ps h.1)

pub sort_apart-IsBefore :
    (ps : List Pending) → Pairs HasOtherId ps → Pairs IsBefore (sort pending_less ps)
sort_apart-IsBefore ps h =
    let into = Permᴰ.symm (sort-perm pending_less ps) in
    let apart = Pairs-perm HasOtherId (λ a b n e. n (sym e)) into h in
    let ascending = sort-IsAscending pending_less pending_less-IsStrictOrder.asymm ps in
    Pairs-IsBefore _ (
      Neighbours-Pairs (λ a b. pending_less a b ≡ true) pending_less-IsStrictOrder.trans _
        (Neighbours-less _ ascending apart))
