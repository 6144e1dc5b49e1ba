-- ===== src/Schedule/Records.antt =====
-- What `PendingRecords` accepts and returns (internal/csf/schedule/schedule.go).
use mathlib.Core.List.{Permᴰ}
use mathlib.Core.List.Permᴰ
use cote_ai_simulation.Base.{
  ◌≤◌, ◌≡◌, ◌≢◌, refl, sym, ap, ◌∙◌, Bool, true, false, arith, List, [], ◌∷◌, All, All-map, All-zip,
  All-perm, Pairs, Pairs-perm, Pairs-unique, Among-perm, Bool-cases, inl, inr, if◌then◌else◌, ◌==◌,
  ok, guard-then-eq_ok, then-eq_ok, bind-eq_ok, not, ◌↔◌,
}
use cote_ai_simulation.Base.Bytes.{Bytes, bytes_equal-eq, bytes_equal_refl}
use cote_ai_simulation.Base.Int.{◌≤ℤ◌}
use cote_ai_simulation.Base.Sort.{sort, sort-perm, sort-eq_of_perm}
use cote_ai_simulation.Clock.{Pending}
use cote_ai_simulation.Schedule.{
  Occurrence, duplicate_occurrence, pending, check_occurrence, contains_id, pending_of, collect,
  pending_less, pending_records,
}
use cote_ai_simulation.Schedule.Order.{pending_less-IsStrictOrder}
use cote_ai_simulation.Schedule.Before.{IsBefore, IsBefore-asymm, HasOtherId, sort_apart-IsBefore}

pub record IsWellFormed (o : Occurrence) : Type 0 where
  pub has_source : o.source_id ≢ []
  pub has_kind : o.kind ≢ []
  pub due_by_eligibility : o.due_at ≤ℤ o.eligibility.not_before_instant
  pub known_lifecycle : o.lifecycle ≤ 2

check_occurrence-IsWellFormed : (o : Occurrence) → check_occurrence o ≡ ok tt → IsWellFormed o
unfolding check_occurrence
check_occurrence-IsWellFormed o h = ground arith

IsWellFormed-check_occurrence : (o : Occurrence) → IsWellFormed o → check_occurrence o ≡ ok tt
unfolding check_occurrence
IsWellFormed-check_occurrence o w = ground arith

-- Two occurrences with different ids.
abbrev pub Apart : Occurrence → Occurrence → Type 0
Apart a b = a.id ≢ b.id

abbrev Fresh : List Bytes → Occurrence → Type 0
Fresh seen o = contains_id o.id seen ≡ false

-- The pending occurrences, in the order of the input.
unfoldable pub pendings : List Occurrence → List Pending
pendings [] = []
pendings (o ∷ os) = if o.lifecycle == pending then pending_of o ∷ pendings os else pendings os

Fresh-cons :
    (o : Occurrence) (seen : List Bytes) (p : Occurrence) → Fresh (o.id ∷ seen) p → Fresh seen p
unfolding contains_id
Fresh-cons o seen p h = ground arith

Apart-Fresh :
    (o : Occurrence) (seen : List Bytes) (p : Occurrence) → Fresh (o.id ∷ seen) p → Apart o p
unfolding contains_id
Apart-Fresh o seen p h e = ground (arith, bytes_equal_refl o.id)

Fresh-Apart :
    (o : Occurrence) (seen : List Bytes) (p : Occurrence)
    → Fresh seen p
    → Apart o p
    → Fresh (o.id ∷ seen) p
unfolding contains_id
Fresh-Apart o seen p h a = ground (arith, bytes_equal-eq o.id p.id)

collect_inv :
    (seen : List Bytes) (o : Occurrence) (os : List Occurrence) (out : List Pending)
    → collect seen (o ∷ os) ≡ ok out
    → (rest : List Pending) × (check_occurrence o ≡ ok tt)
      × (contains_id o.id seen ≡ false)
      × (collect (o.id ∷ seen) os ≡ ok rest)
      × (out ≡ (if o.lifecycle == pending then pending_of o ∷ rest else rest))
unfolding collect
collect_inv seen o os out h =
    let (w, h₁) = then-eq_ok (check_occurrence o) _ h in
    let (f, h₂) = guard-then-eq_ok (not (contains_id o.id seen)) duplicate_occurrence _ h₁ in
    let (rest, r, h₃) = bind-eq_ok (collect (o.id ∷ seen) os) _ h₂ in
    (rest, w, ground arith, r, ground arith)

collect-ok :
    (seen : List Bytes) (os : List Occurrence) (out : List Pending)
    → collect seen os ≡ ok out
    → All IsWellFormed os × All (Fresh seen) os × Pairs Apart os × (out ≡ pendings os)
unfolding collect pendings
collect-ok seen [] out h = (tt, tt, tt, ground arith)
collect-ok seen (o ∷ os) out h =
    let (rest, w, f, r, e) = collect_inv seen o os out h in
    let (ws, fs, ps, es) = collect-ok (o.id ∷ seen) os rest r in
    (
      (check_occurrence-IsWellFormed o w, ws),
      (f, All-map (Fresh-cons o seen) os fs),
      (All-map (Apart-Fresh o seen) os fs, ps),
      rw (← es) e,
    )

collect_complete :
    (seen : List Bytes) (os : List Occurrence)
    → All IsWellFormed os
    → All (Fresh seen) os
    → Pairs Apart os
    → collect seen os ≡ ok (pendings os)
unfolding collect pendings
collect_complete seen [] ws fs ps = refl
collect_complete seen (o ∷ os) ws fs ps =
    let ih =
      collect_complete (o.id ∷ seen) os ws.1 (All-zip (Fresh-Apart o seen) os fs.1 ps.0) ps.1 in
    rw (IsWellFormed-check_occurrence o ws.0, fs.0, ih) refl

-- Every occurrence is well formed, and no two have one id.
abbrev pub IsRegistry : List Occurrence → Type 0
IsRegistry os = All IsWellFormed os × Pairs Apart os

All-Fresh : (os : List Occurrence) → All (Fresh []) os
unfolding contains_id
All-Fresh [] = tt
All-Fresh (o ∷ os) = (refl, All-Fresh os)

-- Acceptance, and the list that is sorted.
accepted_iff :
    (os : List Occurrence) (out : List Pending)
    → (pending_records os ≡ ok out) ↔ (IsRegistry os × (out ≡ sort pending_less (pendings os)))
unfolding pending_records
accepted_iff os out = (forth, back)
  where
    forth : pending_records os ≡ ok out → IsRegistry os × (out ≡ sort pending_less (pendings os))
    forth h =
        let (c, e, r) = bind-eq_ok (collect [] os) _ h in
        let (ws, fs, ps, es) = collect-ok [] os c e in ((ws, ps), rw (← es) (ground arith))

    back : IsRegistry os × (out ≡ sort pending_less (pendings os)) → pending_records os ≡ ok out
    back r = rw (collect_complete [] os r.0.0 (All-Fresh os) r.0.1) (ap ok (sym r.1))

if_cons-perm :
    (t : Bool) (p : Pending) {xs ys : List Pending}
    → Permᴰ xs ys
    → Permᴰ (if t then p ∷ xs else xs) (if t then p ∷ ys else ys)
if_cons-perm true p d = Permᴰ.cons refl d
if_cons-perm false p d = d

if_cons-swap :
    (t u : Bool) (p q : Pending) (xs : List Pending)
    → Permᴰ
        (if t then p ∷ (if u then q ∷ xs else xs) else (if u then q ∷ xs else xs))
        (if u then q ∷ (if t then p ∷ xs else xs) else (if t then p ∷ xs else xs))
if_cons-swap true true p q xs = Permᴰ.swap refl refl
if_cons-swap true false p q xs = Permᴰ.refl (p ∷ xs)
if_cons-swap false true p q xs = Permᴰ.refl (q ∷ xs)
if_cons-swap false false p q xs = Permᴰ.refl xs

pendings-perm : {os os' : List Occurrence} → Permᴰ os os' → Permᴰ (pendings os) (pendings os')
unfolding pendings
pendings-perm Permᴰ.nil = Permᴰ.nil
pendings-perm (Permᴰ.cons {a} {b} e d) =
    rw e (if_cons-perm (b.lifecycle == pending) (pending_of b) (pendings-perm d))
pendings-perm (Permᴰ.swap {a} {b} {a'} {b'} {l} e f) =
    rw (e, f)
      (if_cons-swap (b'.lifecycle == pending) (a'.lifecycle == pending) (pending_of b')
        (pending_of a') (pendings l))
pendings-perm (Permᴰ.trans d e) = Permᴰ.trans (pendings-perm d) (pendings-perm e)

pendings-All :
    (o : Occurrence) (os : List Occurrence)
    → All (Apart o) os
    → All (HasOtherId (pending_of o)) (pendings os)
unfolding pendings
pendings-All o [] h = tt
pendings-All o (x ∷ xs) h = elim (Bool-cases (x.lifecycle == pending)) [
  | inl e ↦ rw e (h.0, pendings-All o xs h.1)
  | inr e ↦ rw e (pendings-All o xs h.1)
]

pendings-Pairs : (os : List Occurrence) → Pairs Apart os → Pairs HasOtherId (pendings os)
unfolding pendings
pendings-Pairs [] h = tt
pendings-Pairs (o ∷ os) h = elim (Bool-cases (o.lifecycle == pending)) [
  | inl e ↦ rw e (pendings-All o os h.0, pendings-Pairs os h.1)
  | inr e ↦ rw e (pendings-Pairs os h.1)
]

sorted-IsBefore :
    (os : List Occurrence) → Pairs Apart os → Pairs IsBefore (sort pending_less (pendings os))
sorted-IsBefore os h = sort_apart-IsBefore (pendings os) (pendings-Pairs os h)

-- `PendingRecords` accepts exactly where every occurrence is well formed and no two have one id, and
-- returns exactly the arrangement of the pending ones in which each is before all later ones: by
-- eligibility, and for one eligibility by the bytes of the ids.
pub pending_records_iff :
    (os : List Occurrence) (out : List Pending)
    → (pending_records os ≡ ok out) ↔ (IsRegistry os × Permᴰ out (pendings os) × Pairs IsBefore out)
pending_records_iff os out = (forth, back)
  where
    forth :
        pending_records os ≡ ok out → IsRegistry os × Permᴰ out (pendings os) × Pairs IsBefore out
    forth h =
        let (registry, e) = (accepted_iff os out).0 h in
        rw e (registry, sort-perm pending_less (pendings os), sorted-IsBefore os registry.1)

    back :
        IsRegistry os × Permᴰ out (pendings os) × Pairs IsBefore out → pending_records os ≡ ok out
    back (registry, d, b) =
        let into = Permᴰ.trans d (Permᴰ.symm (sort-perm pending_less (pendings os))) in
        let same : out ≡ sort pending_less (pendings os) =
          Pairs-unique IsBefore IsBefore-asymm out _ (λ a m. Among-perm a into m)
            (λ a m. Among-perm a (Permᴰ.symm into) m) b (sorted-IsBefore os registry.1) in
        (accepted_iff os out).1 (registry, same)

-- The order in which occurrences are registered has no effect: any arrangement of an accepted
-- registry is accepted, with the same records in the same order.
pub pending_records_perm :
    (os os' : List Occurrence) (out : List Pending)
    → Permᴰ os os'
    → pending_records os ≡ ok out
    → pending_records os' ≡ ok out
pending_records_perm os os' out d h =
    let ((ws, ps), e) = (accepted_iff os out).0 h in
    (accepted_iff os' out).1 (
      (All-perm IsWellFormed d ws, Pairs-perm Apart (λ x y a q. a (sym q)) d ps),
      e ∙ sort-eq_of_perm pending_less pending_less-IsStrictOrder (pendings-perm d),
    )
