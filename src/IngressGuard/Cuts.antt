-- ===== src/IngressGuard/Cuts.antt =====
-- The cut that a persisted fence seals, and the ingresses it refuses
-- (internal/csf/ingressguard/guard.go).
use cote_ai_simulation.Base.{
  ℕ, ◌≡◌, refl, true, false, not, arith, leb, ◌==◌, if◌then◌else◌, List, some, length, ok, err,
  or_fail, bind-eq_ok, guard-then-eq_ok, or_fail-eq_ok, subst, ok-injective, Bool-cases,
  Result-cases, inl, inr,
}
use cote_ai_simulation.Base.Bytes.{Bytes, bytes_equal_refl}
use cote_ai_simulation.Domain.{EligibilityCoordinate, compare_coordinate, is_le}
use cote_ai_simulation.Domain.Order.{le_trans, compare_refl}
use cote_ai_simulation.Value.{Value, as_array, as_uint64, signed_int64, as_32_bytes, field}
use cote_ai_simulation.Codec.{Library}
use cote_ai_simulation.IngressGuard.{
  Entry, bad_fence, bad_run, bad_instant, bad_ordinal, bad_plan, target_not_after_origin,
  sealed_cycle, decode, coord, plan_cut, is_nil, fence_cut, planned_cut, fence_coordinate, check,
}

-- Not later than the cut.
abbrev Covers : EligibilityCoordinate → EligibilityCoordinate → Type 0
Covers cut c = is_le (compare_coordinate c cut) ≡ true

Covers-refl : (c : EligibilityCoordinate) → Covers c c
Covers-refl c = rw (compare_refl c) refl

not_le-Covers :
    (t cut : EligibilityCoordinate)
    → is_le (compare_coordinate t cut) ≡ false
    → is_le (compare_coordinate cut t) ≡ true
unfolding compare_coordinate
not_le-Covers t cut h = ground arith

advance_cut-Covers :
    (t cut c : EligibilityCoordinate)
    → (if is_le (compare_coordinate t cut) then err target_not_after_origin else ok t) ≡ ok c
    → Covers c cut
advance_cut-Covers t cut c h = elim (Bool-cases (is_le (compare_coordinate t cut))) [
  | inl e ↦ absurd (ground arith)
  | inr e ↦
      let x : t ≡ c = ground arith in
      subst (λ z. is_le (compare_coordinate cut z) ≡ true) x (not_le-Covers t cut e)
]

plan_cut-Covers :
    (cut : EligibilityCoordinate) (plan : List Value) (kind : ℕ) (c : EligibilityCoordinate)
    → plan_cut cut plan kind ≡ ok c
    → Covers c cut
unfolding plan_cut
plan_cut-Covers cut plan kind c h = elim (Bool-cases (kind == 0)) [
  | inl z ↦
      let x : cut ≡ c = ground arith in
      subst (λ z. is_le (compare_coordinate cut z) ≡ true) x (Covers-refl cut)
  | inr z ↦ elim (Result-cases (coord (field plan 3))) [
    | inl (t, e) ↦ advance_cut-Covers t cut c (ground arith)
    | inr (f, e) ↦ absurd (ground arith)
  ]
]

planned_cut-Covers :
    (fields : List Value) (cut c : EligibilityCoordinate)
    → planned_cut fields cut ≡ ok c
    → Covers c cut
unfolding planned_cut
planned_cut-Covers fields cut c h =
    let (plan, p, h₁) = bind-eq_ok (or_fail (as_array (field fields 6)) bad_plan) _ h in
    let (n, h₂) = guard-then-eq_ok (not (is_nil plan)) bad_plan _ h₁ in
    let (kind, k, h₃) = bind-eq_ok (or_fail (as_uint64 (field plan 0)) bad_plan) _ h₂ in
    plan_cut-Covers cut plan kind c h₃

fence_cut-Covers :
    (fields : List Value) (cut c : EligibilityCoordinate)
    → fence_cut fields cut ≡ ok c
    → Covers c cut
unfolding fence_cut
fence_cut-Covers fields cut c h = elim (Bool-cases (length fields == 18)) [
  | inl e ↦ planned_cut-Covers fields cut c (ground arith)
  | inr e ↦
      let x : cut ≡ c = ground arith in
      subst (λ z. is_le (compare_coordinate cut z) ≡ true) x (Covers-refl cut)
]

-- The run and the origin that a fence's fields 0, 4 and 5 name.
pub record Origin (fields : List Value) (run : Bytes) (c : EligibilityCoordinate) : Type 0 where
  pub run_field : as_32_bytes (field fields 0) ≡ some run
  pub instant_field : signed_int64 (field fields 4) ≡ some c.not_before_instant
  pub ordinal_field : as_uint64 (field fields 5) ≡ some c.not_before_cycle_ordinal

-- A fence that is accepted decodes to an array whose fields 0, 4 and 5 name a run and an origin; the
-- run is the one that is returned, and the origin is not after the cut that is returned.
pub fence_coordinate-Origin :
    (lib : Library) (fence : Bytes) (e : Entry)
    → fence_coordinate lib fence ≡ ok e
    → (v : Value) × (fields : List Value) × (c : EligibilityCoordinate) × (decode lib fence ≡ ok v)
      × (as_array v ≡ some fields)
      × Origin fields e.run_id c
      × (is_le (compare_coordinate c e.coordinate) ≡ true)
unfolding fence_coordinate
fence_coordinate-Origin lib fence e h =
    let (v, d, h₁) = bind-eq_ok (decode lib fence) _ h in
    let (fields, f, h₂) = bind-eq_ok (or_fail (as_array v) bad_fence) _ h₁ in
    let (l, h₃) = guard-then-eq_ok (leb 6 (length fields)) bad_fence _ h₂ in
    let (run, r, h₄) = bind-eq_ok (or_fail (as_32_bytes (field fields 0)) bad_run) _ h₃ in
    let (t, i, h₅) = bind-eq_ok (or_fail (signed_int64 (field fields 4)) bad_instant) _ h₄ in
    let (n, o, h₆) = bind-eq_ok (or_fail (as_uint64 (field fields 5)) bad_ordinal) _ h₅ in
    let (cut, k, h₇) = bind-eq_ok (fence_cut fields _) _ h₆ in
    let origin : EligibilityCoordinate = record {
      not_before_instant = t;
      not_before_cycle_ordinal = n;
    } in
    subst
      (λ x.
        (w : Value) × (fs : List Value) × (c : EligibilityCoordinate) × (decode lib fence ≡ ok w)
        × (as_array w ≡ some fs)
        × Origin fs x.run_id c
        × (is_le (compare_coordinate c x.coordinate) ≡ true))
      (ok-injective h₇)
      (
        v,
        fields,
        origin,
        d,
        or_fail-eq_ok (as_array v) bad_fence f,
        record {
          run_field = or_fail-eq_ok (as_32_bytes (field fields 0)) bad_run r;
          instant_field = or_fail-eq_ok (signed_int64 (field fields 4)) bad_instant i;
          ordinal_field = or_fail-eq_ok (as_uint64 (field fields 5)) bad_ordinal o;
        },
        fence_cut-Covers fields origin cut k,
      )

pub Origin-unique :
    (fields : List Value) (run : Bytes) (a b : EligibilityCoordinate)
    → Origin fields run a
    → Origin fields run b
    → a ≡ b
Origin-unique fields run a b x y =
    cc (x.instant_field, y.instant_field, x.ordinal_field, y.ordinal_field)

check-refused :
    (ingress e : Entry)
    → ingress.run_id ≡ e.run_id
    → Covers e.coordinate ingress.coordinate
    → check ingress e.run_id e.coordinate ≡ err sealed_cycle
unfolding check
check-refused ingress e r h = rw (r, bytes_equal_refl e.run_id, h) refl

-- A fence that is accepted refuses every ingress of its run at or before the origin in its fields
-- 4 and 5, whatever its plan is.
pub Origin-refused :
    (lib : Library) (fence : Bytes) (v : Value) (fields : List Value) (c : EligibilityCoordinate)
    (e ingress : Entry)
    → fence_coordinate lib fence ≡ ok e
    → decode lib fence ≡ ok v
    → as_array v ≡ some fields
    → Origin fields e.run_id c
    → ingress.run_id ≡ e.run_id
    → is_le (compare_coordinate ingress.coordinate c) ≡ true
    → check ingress e.run_id e.coordinate ≡ err sealed_cycle
Origin-refused lib fence v fields c e ingress h d f o r l =
    let (w, gs, b, dw, fw, ow, k) = fence_coordinate-Origin lib fence e h in
    let y : gs ≡ fields = cc in
    let x : b ≡ c = Origin-unique fields e.run_id b c (subst (λ z. Origin z e.run_id b) y ow) o in
    check-refused ingress e r (le_trans ingress.coordinate b e.coordinate (rw x l) k)
