-- ===== src/Store/Run/Steps.antt =====
-- Every call of the store is a sequence of moves, whatever it returns.
use cote_ai_simulation.Base.{
  ℕ, ◌≡◌, refl, ap, subst, Bool, arith, List, [], ◌∷◌, Result, ok, err, bind-eq_ok, then-eq_ok,
  guard-then-eq_ok, Option-cases, inl, inr, ◌==◌, length, ok-injective, Result-cases,
}
use cote_ai_simulation.Base.Bytes.{Bytes}
use cote_ai_simulation.Base.Int.{ℤ}
use cote_ai_simulation.Codec.{Library}
use cote_ai_simulation.IngressGuard.{CanonicalRecord}
use cote_ai_simulation.Store.Maps.{lookup}
use cote_ai_simulation.Store.{
  Store, StoreError, AdmissionSeal, Guarded, plain, source_record, round_record,
  append_input_locked, guarded_kind, validate_source, validate_round, unsealed, uncovered,
  source_after_fence, round_before_fence, sequence_gap, prefix_changed,
}
use cote_ai_simulation.Store.Methods.{
  put_if_absent, append, append_source_declaration, append_round_declaration, append_ingress,
  append_fence_if_prefix, append_if_absent, dispatch_append, publish, guard_ingress, agrees,
  read_seal, same_prefix, next_ingress_sequence,
}
use cote_ai_simulation.Store.Listing.{Grows}
use cote_ai_simulation.Store.Run.{
  Call, append_call, source_call, round_call, ingress_call, fence_call, conditional_call, after,
  new_record, new_binding, new_cursor, new_fence, Moves, still, move, Moves-Grows,
  append_input_locked-frame, bound, step, run,
}

module _ (lib : Library) (hash : Bytes → Bytes) where
  after-Moves :
      (s : Store) (r : Result StoreError Store)
      → ((t : Store) → r ≡ ok t → Moves lib s t)
      → Moves lib s (after s r)
  after-Moves s (ok t) g = g t refl
  after-Moves s (err e) g = still

  append_input_locked-Moves :
      (s t : Store) (r : CanonicalRecord) → append_input_locked s r ≡ ok t → Moves lib s t
  unfolding append_input_locked
  append_input_locked-Moves s t r h = elim (Option-cases (lookup r.identity s.records)) [
    | inl e ↦ subst (Moves lib s) (ground arith) (move still (new_record r e))
    | inr (b, e) ↦ subst (Moves lib s) (ground arith) still
  ]

  put_if_absent-Moves :
      {s : Store} (t : Store) (r : CanonicalRecord)
      → Moves lib s t
      → Moves lib s (put_if_absent t r)
  unfolding put_if_absent
  put_if_absent-Moves {s} t r m = elim (Option-cases (lookup r.identity t.records)) [
    | inl e ↦ subst (Moves lib s) (ground arith) (move m (new_record r e))
    | inr (b, e) ↦ subst (Moves lib s) (ground arith) m
  ]

  source-Moves :
      (s t : Store) (run : Bytes) (r : CanonicalRecord)
      → append_source_declaration lib s run r ≡ ok t
      → Moves lib s t
  unfolding append_source_declaration
  source-Moves s t run r h =
      let (g, e, h₁) = bind-eq_ok (guarded_kind lib r) _ h in
      let (v, h₂) = then-eq_ok (validate_source g run) _ h₁ in
      let (u, h₃) = guard-then-eq_ok (unsealed run s.seals) source_after_fence _ h₂ in
      append_input_locked-Moves s t r h₃

  round-Moves :
      (s t : Store) (run : Bytes) (i : ℤ) (o : ℕ) (r : CanonicalRecord)
      → append_round_declaration lib s run i o r ≡ ok t
      → Moves lib s t
  unfolding append_round_declaration
  round-Moves s t run i o r h =
      let (g, e, h₁) = bind-eq_ok (guarded_kind lib r) _ h in
      let (v, h₂) = then-eq_ok (validate_round g run i o) _ h₁ in
      let (u, h₃) = guard-then-eq_ok (uncovered run i o s.seals) round_before_fence _ h₂ in
      append_input_locked-Moves s t r h₃

  dispatch-Moves :
      (s t : Store) (r : CanonicalRecord) (g : Guarded)
      → dispatch_append lib s r g ≡ ok t
      → Moves lib s t
  unfolding dispatch_append
  dispatch-Moves s t r (source_record run) h = source-Moves s t run r h
  dispatch-Moves s t r (round_record run i o) h = round-Moves s t run i o r h
  dispatch-Moves s t r plain h = append_input_locked-Moves s t r h

  append-Moves : (s t : Store) (r : CanonicalRecord) → append lib s r ≡ ok t → Moves lib s t
  unfolding append
  append-Moves s t r h =
      let (g, e, h₁) = bind-eq_ok (guarded_kind lib r) _ h in dispatch-Moves s t r g h₁

  ingress-Moves :
      (s t : Store) (source : Bytes) (n : ℕ) (r receipt : CanonicalRecord)
      → append_ingress lib hash s source n r receipt ≡ ok t
      → Moves lib s t
  unfolding append_ingress
  ingress-Moves s t source n r receipt h =
      let stamped : CanonicalRecord = record {
        identity = hash receipt.canonical;
        canonical = receipt.canonical;
      } in
      let (a, h₁) = guard-then-eq_ok (n == next_ingress_sequence s source) sequence_gap _ h in
      let (b, h₂) = then-eq_ok (guard_ingress lib s source r) _ h₁ in
      let (c, h₃) = then-eq_ok (agrees s r) _ h₂ in
      let (d, h₄) = then-eq_ok (agrees s stamped) _ h₃ in
      let s₁ = put_if_absent s r in
      subst (Moves lib s) (ok-injective h₄)
        (move (put_if_absent-Moves s₁ stamped (put_if_absent-Moves s r still)) (new_cursor _))

  publish-Moves :
      (s t : Store) (fence : CanonicalRecord) (seal : AdmissionSeal)
      → read_seal lib fence.canonical ≡ ok seal
      → publish s fence seal ≡ ok t
      → Moves lib s t
  unfolding publish
  publish-Moves s t fence seal q h = elim (Option-cases (lookup fence.identity s.fences)) [
    | inr (b, e) ↦ subst (Moves lib s) (ground arith) still
    | inl e ↦ subst (Moves lib s) (ground arith) (move still (new_fence fence seal e q))
  ]

  fence-Moves :
      (s t : Store) (fence : CanonicalRecord) (expected : List CanonicalRecord)
      → append_fence_if_prefix lib s fence expected ≡ ok t
      → Moves lib s t
  unfolding append_fence_if_prefix
  fence-Moves s t fence expected h =
      let (a, h₁) = guard-then-eq_ok (length expected == length s.order) prefix_changed _ h in
      let (b, h₂) = guard-then-eq_ok (same_prefix s s.order expected) prefix_changed _ h₁ in
      let (seal, e, h₃) = bind-eq_ok (read_seal lib fence.canonical) _ h₂ in
      publish-Moves s t fence seal e h₃

  conditional-Moves :
      (s t : Store) (key : Bytes) (r : CanonicalRecord) {inserted : Bool} {existing : Bytes}
      → append_if_absent s key r ≡ ok (t, inserted, existing)
      → Moves lib s t
  unfolding append_if_absent
  conditional-Moves s t key r h = elim (Option-cases (lookup key s.conditional)) [
    | inr (c, e) ↦ subst (Moves lib s) (ground arith) still
    | inl e ↦
        let (s₁, a, h₁) =
          bind-eq_ok (append_input_locked s r) (bound key r) (rw (e, append_if_absent) at h) in
        let frame = append_input_locked-frame s s₁ r a in
        subst (Moves lib s) (ap (λ x. x.0) (ok-injective h₁))
          (move (append_input_locked-Moves s s₁ r a) (new_binding key r (rw (frame.0) e)))
  ]

  -- A call is a sequence of such writes, or none.
  pub step-Moves : (s : Store) (c : Call) → Moves lib s (step lib hash s c)
  unfolding step
  step-Moves s (append_call r) = after-Moves s _ (λ t e. append-Moves s t r e)
  step-Moves s (source_call run r) = after-Moves s _ (λ t e. source-Moves s t run r e)
  step-Moves s (round_call run i o r) = after-Moves s _ (λ t e. round-Moves s t run i o r e)
  step-Moves s (ingress_call source n r receipt) =
      after-Moves s _ (λ t e. ingress-Moves s t source n r receipt e)
  step-Moves s (fence_call fence expected) =
      after-Moves s _ (λ t e. fence-Moves s t fence expected e)
  step-Moves s (conditional_call key r) = elim (Result-cases (append_if_absent s key r)) [
    | inl ((t, i, x), e) ↦ subst (Moves lib s) (ground arith) (conditional-Moves s t key r e)
    | inr (x, e) ↦ subst (Moves lib s) (ground arith) still
  ]

  Moves-append : {s t u : Store} → Moves lib s t → Moves lib t u → Moves lib s u
  Moves-append m still = m
  Moves-append m (move n v) = move (Moves-append m n) v

  pub run-Moves : (s : Store) (cs : List Call) → Moves lib s (run lib hash s cs)
  unfolding run
  run-Moves s [] = still
  run-Moves s (c ∷ cs) = Moves-append (step-Moves s c) (run-Moves (step lib hash s c) cs)

  pub run-Grows : (s : Store) (cs : List Call) → Grows s (run lib hash s cs)
  run-Grows s cs = Moves-Grows lib (run-Moves s cs)
