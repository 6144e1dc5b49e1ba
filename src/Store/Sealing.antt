-- ===== src/Store/Sealing.antt =====
-- The seals of the in-memory store (internal/csf/persistence/memory/store.go): every published
-- fence has one, and each of the guarded tests sees every seal.
use cote_ai_simulation.Base.{
  Among-append, ◌≡◌, ◌≢◌, refl, sym, ap, ◌∙◌, subst, true, false, arith, List, [], ◌∷◌, ◌++◌, some,
  Result, ok, err, bind-eq_ok, then-eq_ok, guard-then-eq_ok, Option-cases, inl, inr, ◌==◌, length,
  ok-injective, Among, Bool-cases,
}
use cote_ai_simulation.Base.Bytes.{Bytes, bytes_equal, bytes_equal-eq, bytes_equal_refl}
use cote_ai_simulation.Domain.{EligibilityCoordinate, compare_coordinate, is_le, equal_preimage}
use cote_ai_simulation.Codec.{Library}
use cote_ai_simulation.IngressGuard.{CanonicalRecord, Entry, GuardError, sealed_cycle, check}
use cote_ai_simulation.Store.Maps.{lookup}
use cote_ai_simulation.Store.{
  Store, new, AdmissionSeal, unsealed, uncovered, covers, prefix_changed, check_seals, wrap,
}
use cote_ai_simulation.Store.Methods.{append_fence_if_prefix, publish, read_seal, same_prefix}
use cote_ai_simulation.Store.Listing.{with_fence}
use cote_ai_simulation.Store.Run.{
  Call, run, Move, Moves, new_record, new_binding, new_cursor, new_fence, still, move,
}
use cote_ai_simulation.Store.Run.Steps.{run-Moves}

Among-last : {A : Type 0} (a : A) (xs : List A) → Among a (xs ++ a ∷ [])
Among-last a [] = inl refl
Among-last a (x ∷ xs) = inr (Among-last a xs)

-- A seal of the run forbids every later source declaration.
pub unsealed-Among :
    (seal : AdmissionSeal) (seals : List AdmissionSeal)
    → Among seal seals
    → unsealed seal.run_id seals ≡ false
unfolding unsealed
unsealed-Among seal [] m = absurd m
unsealed-Among seal (x ∷ xs) (inl e) = rw (e, bytes_equal_refl x.run_id) refl
unsealed-Among seal (x ∷ xs) (inr m) = ground (arith, unsealed-Among seal xs m)

abbrev pub sealed_at : AdmissionSeal → EligibilityCoordinate
sealed_at seal = record {
  not_before_instant = seal.instant;
  not_before_cycle_ordinal = seal.ordinal;
}

-- The test of the rounds is that of the coordinates.
covers-is_le :
    (seal : AdmissionSeal) (c : EligibilityCoordinate)
    → is_le (compare_coordinate c (sealed_at seal)) ≡ true
    → covers seal seal.run_id c.not_before_instant c.not_before_cycle_ordinal ≡ true
unfolding compare_coordinate
covers-is_le seal c h = rw (bytes_equal_refl seal.run_id) (ground arith)

pub uncovered-Among :
    (seal : AdmissionSeal) (seals : List AdmissionSeal) (c : EligibilityCoordinate)
    → Among seal seals
    → is_le (compare_coordinate c (sealed_at seal)) ≡ true
    → uncovered seal.run_id c.not_before_instant c.not_before_cycle_ordinal seals ≡ false
unfolding uncovered
uncovered-Among seal [] c m h = absurd m
uncovered-Among seal (x ∷ xs) c (inl e) h =
    rw
      (subst (λ y. covers y seal.run_id c.not_before_instant c.not_before_cycle_ordinal ≡ true) e
        (covers-is_le seal c h))
      refl
uncovered-Among seal (x ∷ xs) c (inr m) h = ground (arith, uncovered-Among seal xs c m h)

check_sealed :
    (seal : AdmissionSeal) (entry : Entry)
    → entry.run_id ≡ seal.run_id
    → is_le (compare_coordinate entry.coordinate (sealed_at seal)) ≡ true
    → check entry seal.run_id (sealed_at seal) ≡ err sealed_cycle
unfolding check
check_sealed seal entry r h = rw (r, h, bytes_equal_refl seal.run_id) refl

pub check_seals-Among :
    (seal : AdmissionSeal) (seals : List AdmissionSeal) (entry : Entry)
    → Among seal seals
    → entry.run_id ≡ seal.run_id
    → is_le (compare_coordinate entry.coordinate (sealed_at seal)) ≡ true
    → check_seals seals entry ≢ ok tt
unfolding check_seals
check_seals-Among seal [] entry m r h k = absurd m
check_seals-Among seal (x ∷ xs) entry (inl e) r h k =
    let c =
      subst (λ y. check entry y.run_id (sealed_at y) ≡ err sealed_cycle) e
        (check_sealed seal entry r h) in
    refused (check entry x.run_id (sealed_at x)) c (then-eq_ok _ (check_seals xs entry) k).0
  where
    refused : (q : Result GuardError (Unit {0})) → q ≡ err sealed_cycle → wrap q ≡ ok tt → ⊥
    refused (ok u) e f = cc
    refused (err g) e f = cc
check_seals-Among seal (x ∷ xs) entry (inr m) r h k =
    check_seals-Among seal xs entry m r h (then-eq_ok _ (check_seals xs entry) k).1

-- Every published fence has a seal, of the run and coordinate in its bytes.
abbrev pub IsSealed : Library → Store → Type 0
IsSealed lib s =
    (id b : Bytes)
    → lookup id s.fences ≡ some b
    → (seal : AdmissionSeal) × (read_seal lib b ≡ ok seal) × Among seal s.seals

Move-IsSealed :
    (lib : Library) (s : Store) {t : Store} → Move lib s t → IsSealed lib s → IsSealed lib t
unfolding lookup
Move-IsSealed lib s (new_record r e) v = v
Move-IsSealed lib s (new_binding key r e) v = v
Move-IsSealed lib s (new_cursor cursor) v = v
Move-IsSealed lib s (new_fence fence seal e q) v = λ id b h.
    elim (Bool-cases (bytes_equal fence.identity id)) [
      | inl x ↦
          (seal, subst (λ c. read_seal lib c ≡ ok seal) (ground arith) q, Among-last seal s.seals)
      | inr x ↦
          let (p, a, m) = v id b (ground arith) in (p, a, Among-append p s.seals (seal ∷ []) m)
    ]

pub Moves-IsSealed : (lib : Library) {s t : Store} → Moves lib s t → IsSealed lib s → IsSealed lib t
Moves-IsSealed lib still v = v
Moves-IsSealed lib (move {t = t} m n) v = Move-IsSealed lib t n (Moves-IsSealed lib m v)

-- The store after a published fence holds its seal.
publish-Among :
    (lib : Library) (s t : Store) (fence : CanonicalRecord) (seal : AdmissionSeal)
    → IsSealed lib s
    → read_seal lib fence.canonical ≡ ok seal
    → publish s fence seal ≡ ok t
    → Among seal t.seals
unfolding publish equal_preimage
publish-Among lib s t fence seal v q h = elim (Option-cases (lookup fence.identity s.fences)) [
  | inl e ↦
      let x : with_fence s fence seal ≡ t = ground arith in
      subst (λ z. Among seal z.seals) x (Among-last seal s.seals)
  | inr (b, e) ↦
      let x : s ≡ t = ground arith in
      let same : b ≡ fence.canonical = ground (arith, bytes_equal-eq b fence.canonical) in
      let (p, a, m) = v fence.identity b e in
      let pq : p ≡ seal = ok-injective (sym a ∙ ap (read_seal lib) same ∙ q) in
      subst (λ z. Among seal z.seals) x (subst (λ z. Among z s.seals) pq m)
]

pub fence-Among :
    (lib : Library) (s t : Store) (fence : CanonicalRecord) (expected : List CanonicalRecord)
    (seal : AdmissionSeal)
    → IsSealed lib s
    → append_fence_if_prefix lib s fence expected ≡ ok t
    → read_seal lib fence.canonical ≡ ok seal
    → Among seal t.seals
unfolding append_fence_if_prefix
fence-Among lib s t fence expected seal v h q =
    let (a, h₁) = guard-then-eq_ok (length expected == length s.order) prefix_changed _ h in
    let (b, h₂) = guard-then-eq_ok (same_prefix s s.order expected) prefix_changed _ h₁ in
    let (p, e, h₃) = bind-eq_ok (read_seal lib fence.canonical) _ h₂ in
    let pq : p ≡ seal = ok-injective (sym e ∙ q) in
    publish-Among lib s t fence seal v q (subst (λ z. publish s fence z ≡ ok t) pq h₃)

no_fence : (id b : Bytes) → lookup id new.fences ≡ some b → ⊥
unfolding lookup new
no_fence id b h = cc

-- In every history from the empty store each published fence has its seal.
pub run-IsSealed :
    (lib : Library) (hash : Bytes → Bytes) (cs : List Call) → IsSealed lib (run lib hash new cs)
run-IsSealed lib hash cs =
    Moves-IsSealed lib (run-Moves lib hash new cs) (λ id b h. absurd (no_fence id b h))
