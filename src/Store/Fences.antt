-- ===== src/Store/Fences.antt =====
-- The seal that a published fence leaves in the in-memory store
-- (internal/csf/persistence/memory/store.go) against the cut of the ingress guard
-- (internal/csf/ingressguard/guard.go).
use cote_ai_simulation.Base.{
  ◌≡◌, true, List, some, ok, err, Result, bind-eq_ok, guard-then-eq_ok, or_fail, or_fail-eq_ok,
  ok-injective, leb, length, subst, ap,
}
use cote_ai_simulation.Base.Bytes.{Bytes}
use cote_ai_simulation.Domain.{compare_coordinate, is_le}
use cote_ai_simulation.Value.{Value, as_array, as_uint64, signed_int64, as_32_bytes, field}
use cote_ai_simulation.Codec.{Library, CodecError, strict_decode_payload}
use cote_ai_simulation.IngressGuard.{Entry, decode, undecodable, fence_coordinate}
use cote_ai_simulation.IngressGuard.Cuts.{Origin, Origin-unique, fence_coordinate-Origin}
use cote_ai_simulation.Store.{
  AdmissionSeal, bad_fence, fence_run, fence_instant, fence_ordinal, undecodable_fence,
}
use cote_ai_simulation.Store.Sealing.{sealed_at}
use cote_ai_simulation.Store.Methods.{read_seal, decode_fence}

-- A seal is read from the run and the origin in the bytes of the fence.
read_seal-Origin :
    (lib : Library) (b : Bytes) (seal : AdmissionSeal)
    → read_seal lib b ≡ ok seal
    → (v : Value) × (fields : List Value) × (decode lib b ≡ ok v)
      × (as_array v ≡ some fields)
      × Origin fields seal.run_id (sealed_at seal)
unfolding read_seal
read_seal-Origin lib b seal h =
    let (v, e, h₁) = bind-eq_ok (decode_fence lib b) _ h in
    let (fields, f, h₂) = bind-eq_ok (or_fail (as_array v) bad_fence) _ h₁ in
    let (l, h₃) = guard-then-eq_ok (leb 6 (length fields)) bad_fence _ h₂ in
    let (run, r, h₄) = bind-eq_ok (or_fail (as_32_bytes (field fields 0)) fence_run) _ h₃ in
    let (t, i, h₅) = bind-eq_ok (or_fail (signed_int64 (field fields 4)) fence_instant) _ h₄ in
    let (n, o, h₆) = bind-eq_ok (or_fail (as_uint64 (field fields 5)) fence_ordinal) _ h₅ in
    subst
      (λ x.
        (w : Value) × (fs : List Value) × (decode lib b ≡ ok w)
        × (as_array w ≡ some fs)
        × Origin fs x.run_id (sealed_at x))
      (ok-injective h₆)
      (
        v,
        fields,
        decoded (strict_decode_payload lib b) e,
        or_fail-eq_ok (as_array v) bad_fence f,
        record {
          run_field = or_fail-eq_ok (as_32_bytes (field fields 0)) fence_run r;
          instant_field = or_fail-eq_ok (signed_int64 (field fields 4)) fence_instant i;
          ordinal_field = or_fail-eq_ok (as_uint64 (field fields 5)) fence_ordinal o;
        },
      )
  where
    decoded :
        (r : Result CodecError Value) {w : Value}
        → elim r [ ok v ↦ ok v | err e ↦ err undecodable_fence ] ≡ ok w
        → elim r [ ok v ↦ ok v | err e ↦ err undecodable ] ≡ ok w
    decoded (ok v) h = ap ok (ok-injective h)
    decoded (err x) h = cc

-- Where both read a fence, the store's seal and the guard's cut are of the same run, and the seal
-- is not after the cut.
pub read_seal-fence_coordinate :
    (lib : Library) (fence : Bytes) (seal : AdmissionSeal) (e : Entry)
    → read_seal lib fence ≡ ok seal
    → fence_coordinate lib fence ≡ ok e
    → (seal.run_id ≡ e.run_id) × (is_le (compare_coordinate (sealed_at seal) e.coordinate) ≡ true)
read_seal-fence_coordinate lib fence seal e h k =
    let (v, fields, d, f, o) = read_seal-Origin lib fence seal h in
    let (w, gs, c, d', f', o', l) = fence_coordinate-Origin lib fence e k in
    let y : gs ≡ fields = cc in
    let p : Origin fields e.run_id c = subst (λ z. Origin z e.run_id c) y o' in
    let r : seal.run_id ≡ e.run_id = cc (o.run_field, p.run_field) in
    let x : c ≡ sealed_at seal =
      Origin-unique fields e.run_id c (sealed_at seal) p
        (subst (λ z. Origin fields z (sealed_at seal)) r o) in
    (r, subst (λ z. is_le (compare_coordinate z e.coordinate) ≡ true) x l)
