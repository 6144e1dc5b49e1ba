-- ===== src/Store/Seals.antt =====
-- What an admission fence seals in the in-memory store
-- (internal/csf/persistence/memory/store.go): `AppendFenceIfPrefix` against the guarded methods.
use cote_ai_simulation.Base.{
  ◌≡◌, ◌≢◌, true, List, ok, bind-eq_ok, then-eq_ok, guard-then-eq_ok, Among, Among-append,
}
use cote_ai_simulation.Base.Bytes.{Bytes}
use cote_ai_simulation.Domain.{EligibilityCoordinate, compare_coordinate, is_le}
use cote_ai_simulation.Codec.{Library}
use cote_ai_simulation.IngressGuard.{CanonicalRecord}
use cote_ai_simulation.Store.{
  Store, new, AdmissionSeal, guarded_kind, validate_source, validate_round, unsealed, uncovered,
  source_after_fence, round_before_fence,
}
use cote_ai_simulation.Store.Methods.{
  append_source_declaration, append_round_declaration, append_fence_if_prefix, read_seal,
}
use cote_ai_simulation.Store.Run.{Call, run}
use cote_ai_simulation.Store.Run.Steps.{run-Grows}
use cote_ai_simulation.Store.Sealing.{
  sealed_at, unsealed-Among, uncovered-Among, run-IsSealed, fence-Among,
}

-- A history of calls from the empty store, the publication of a fence, and calls after it.
module _ (lib : Library) (hash : Bytes → Bytes) (before after : List Call) (t : Store)
    (fence : CanonicalRecord) (expected : List CanonicalRecord) (seal : AdmissionSeal)
    (published : append_fence_if_prefix lib (run lib hash new before) fence expected ≡ ok t)
    (read : read_seal lib fence.canonical ≡ ok seal) where
  stays : Among seal (run lib hash t after).seals
  stays = rw ((run-Grows lib hash t after).seals_grow) (
      Among-append seal t.seals _ (
        fence-Among lib (run lib hash new before) t fence expected seal
          (run-IsSealed lib hash before) published read))

  -- Once a fence is published, whatever calls came before and follow, no source of its run can be
  -- declared.
  pub sealed_source_refused :
      (r : CanonicalRecord) (u : Store)
      → append_source_declaration lib (run lib hash t after) seal.run_id r ≢ ok u
  unfolding append_source_declaration
  sealed_source_refused r u h =
      let w = run lib hash t after in
      let (g, e, h₁) = bind-eq_ok (guarded_kind lib r) _ h in
      let (v, h₂) = then-eq_ok (validate_source g seal.run_id) _ h₁ in
      let (x, h₃) = guard-then-eq_ok (unsealed seal.run_id w.seals) source_after_fence _ h₂ in
      cc (unsealed-Among seal w.seals stays)

  -- Once a fence is published, whatever calls came before and follow, no round of its run can be
  -- declared at or before the sealed coordinate.
  pub sealed_round_refused :
      (c : EligibilityCoordinate) (r : CanonicalRecord) (u : Store)
      → is_le (compare_coordinate c (sealed_at seal)) ≡ true
      → append_round_declaration lib
          (run lib hash t after)
          seal.run_id
          c.not_before_instant
          c.not_before_cycle_ordinal
          r
        ≢ ok u
  unfolding append_round_declaration
  sealed_round_refused c r u le h =
      let w = run lib hash t after in
      let i = c.not_before_instant in
      let o = c.not_before_cycle_ordinal in
      let (g, e, h₁) = bind-eq_ok (guarded_kind lib r) _ h in
      let (v, h₂) = then-eq_ok (validate_round g seal.run_id i o) _ h₁ in
      let (x, h₃) = guard-then-eq_ok (uncovered seal.run_id i o w.seals) round_before_fence _ h₂ in
      cc (uncovered-Among seal w.seals c stays le)
