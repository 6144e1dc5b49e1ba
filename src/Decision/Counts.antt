-- ===== src/Decision/Counts.antt =====
-- The sets of IDs of `CheckPartition` (internal/csf/decision/kernel.go) by the number of entries.
use cote_ai_simulation.Base.{
  ℕ, ◌+◌, ◌≤◌, ◌≡◌, ◌⊎◌, refl, ◌∙◌, subst, Bool, true, false, not, ◌&&◌, if◌then◌else◌, List, [],
  ◌∷◌, ◌++◌, ok, guard-then-eq_ok, ok-injective, arith, Bool-cases, inl, inr,
}
use cote_ai_simulation.Base.Bytes.{Bytes, bytes_equal, bytes_equal-eq, bytes_equal_refl}
use cote_ai_simulation.Decision.{provenance}
use cote_ai_simulation.Decision.Candidates.{Candidate, holds, mark}

-- How often an ID is in a list.
unfoldable pub count : Bytes → List Bytes → ℕ
count id [] = 0
count id (x ∷ xs) = (if bytes_equal x id then 1 else 0) + count id xs

-- The sources of all candidates.
unfoldable pub sources_of_all : List Candidate → List Bytes
sources_of_all [] = []
sources_of_all (c ∷ cs) = c.source_unit_ids ++ sources_of_all cs

pub count-append :
    (id : Bytes) (xs ys : List Bytes) → count id (xs ++ ys) ≡ count id xs + count id ys
unfolding count
count-append id [] ys = omega arith
count-append id (x ∷ xs) ys = rw (count-append id xs ys) omega arith

pub holds-count : (id : Bytes) (xs : List Bytes) → holds id xs ≡ true → 1 ≤ count id xs
unfolding holds count
holds-count id [] h = cc
holds-count id (x ∷ xs) h = ground (arith, holds-count id xs)

pub count-holds : (id : Bytes) (xs : List Bytes) → 1 ≤ count id xs → holds id xs ≡ true
unfolding holds count
count-holds id [] h = ground arith
count-holds id (x ∷ xs) h = ground (arith, count-holds id xs)

pub zero_of_unheld : (id : Bytes) (xs : List Bytes) → holds id xs ≡ false → count id xs ≡ 0
unfolding holds count
zero_of_unheld id [] h = refl
zero_of_unheld id (x ∷ xs) h = ground (arith, zero_of_unheld id xs)

-- No ID twice.
abbrev pub IsDistinct : List Bytes → Type 0
IsDistinct xs = (id : Bytes) → count id xs ≤ 1

pub cons-IsDistinct :
    (x : Bytes) (xs : List Bytes) → holds x xs ≡ false → IsDistinct xs → IsDistinct (x ∷ xs)
unfolding count
cons-IsDistinct x xs h d id = elim (Bool-cases (bytes_equal x id)) [
  | inl e ↦ rw (e, zero_of_unheld id xs (rw (bytes_equal-eq x id e) at h)) omega arith
  | inr e ↦ let h = d id in rw e omega arith
]

-- To `seen` come the IDs of the list, none of them twice.
pub record Marked (seen ids s : List Bytes) : Type 0 where
  pub distinct : IsDistinct s
  pub counted : (id : Bytes) → count id s ≡ count id seen + count id ids

pub Marked-nil : (seen : List Bytes) → IsDistinct seen → Marked seen [] seen
unfolding count
Marked-nil seen d = record { distinct = d; counted = λ id. omega arith }

pub Marked-cons :
    (x : Bytes) (seen ids s : List Bytes) → Marked (x ∷ seen) ids s → Marked seen (x ∷ ids) s
unfolding count
Marked-cons x seen ids s m = record {
  distinct = m.distinct;
  counted = λ id. m.counted id ∙ (omega arith);
}

pub negated : (b : Bool) → not b ≡ true → b ≡ false
negated b h = ground arith

pub mark-Marked :
    (seen ids s : List Bytes) → mark seen ids ≡ ok s → IsDistinct seen → Marked seen ids s
unfolding mark
mark-Marked seen [] s h d = subst (Marked seen []) (ok-injective h) (Marked-nil seen d)
mark-Marked seen (x ∷ ids) s h d =
    let (n, h₁) = guard-then-eq_ok (not (holds x seen)) provenance _ h in
    Marked-cons x seen ids s
      (mark-Marked (x ∷ seen) ids s h₁ (cons-IsDistinct x seen (negated (holds x seen) n) d))

-- What `count` says of the new head, where no ID is in both lists or twice in one.
pub unheld :
    (x : Bytes) (seen ids : List Bytes)
    → ((id : Bytes) → count id seen + count id (x ∷ ids) ≤ 1)
    → holds x seen ≡ false
unfolding count
unheld x seen ids d = elim (Bool-cases (holds x seen)) [
  | inr e ↦ e
  | inl e ↦
      let one = holds-count x seen e in
      let most : count x seen + ((if bytes_equal x x then 1 else 0) + count x ids) ≤ 1 = d x in
      absurd (too_many (count x seen) (count x ids) one (rw (bytes_equal_refl x) at most))
]
  where
    too_many : (a b : ℕ) → 1 ≤ a → a + (1 + b) ≤ 1 → ⊥
    too_many a b h k = omega arith

pub moved :
    (x : Bytes) (seen ids : List Bytes)
    → ((id : Bytes) → count id seen + count id (x ∷ ids) ≤ 1)
    → (id : Bytes) → count id (x ∷ seen) + count id ids ≤ 1
unfolding count
moved x seen ids d id = let h = d id in omega arith

pub mark_accepts :
    (seen ids : List Bytes)
    → ((id : Bytes) → count id seen + count id ids ≤ 1)
    → (s : List Bytes) × (mark seen ids ≡ ok s)
unfolding mark
mark_accepts seen [] d = (seen, refl)
mark_accepts seen (x ∷ ids) d =
    let (s, e) = mark_accepts (x ∷ seen) ids (moved x seen ids d) in (s, rw (unheld x seen ids d) e)

pub count_self : (x : Bytes) (xs : List Bytes) → 1 ≤ count x (x ∷ xs)
unfolding count
count_self x xs = rw (bytes_equal_refl x) omega arith

pub count_more : (id x : Bytes) (xs : List Bytes) → 1 ≤ count id xs → 1 ≤ count id (x ∷ xs)
unfolding count
count_more id x xs h = omega arith

pub count-cases :
    (id x : Bytes) (xs : List Bytes) → 1 ≤ count id (x ∷ xs) → (x ≡ id) ⊎ (1 ≤ count id xs)
unfolding count
count-cases id x xs h = elim (Bool-cases (bytes_equal x id)) [
  | inl e ↦ inl (bytes_equal-eq x id e)
  | inr e ↦ inr (let k = rw e at h in omega arith)
]

pub count_nil : (id : Bytes) → 1 ≤ count id [] → ⊥
unfolding count
count_nil id h = omega arith

pub both : (a b : Bool) → (a && b) ≡ true → (a ≡ true) × (b ≡ true)
both a b h = (ground arith, ground arith)

pub nil-IsDistinct : IsDistinct []
unfolding count
nil-IsDistinct id = omega arith

pub same_count : (ids s : List Bytes) → Marked [] ids s → (id : Bytes) → count id s ≡ count id ids
unfolding count
same_count ids s m id = m.counted id ∙ (omega arith)

pub from_nil : (id : Bytes) (ids : List Bytes) → count id ids ≤ 1 → count id [] + count id ids ≤ 1
unfolding count
from_nil id ids h = omega arith
