-- ===== src/Ledger/Lifecycle.antt =====
-- The lifecycle of a slot (internal/csf/inputledger/ledger.go): what each call of the ledger does to
-- the state of every slot.
use cote_ai_simulation.Base.{
  ℕ, ◌≡◌, refl, ◌&&◌, ◌||◌, true, false, not, arith, ◌+◌, ◌%◌, ◌^◌, if◌then◌else◌, Option, some,
  none, ok, or_fail, bind-eq_ok, guard-then-eq_ok, then-eq_ok, or_fail-eq_ok, ok-injective,
  Option-cases, inl, inr, subst,
}
use cote_ai_simulation.Base.Bytes.{Bytes, bytes_equal, bytes_equal-eq}
use cote_ai_simulation.Value.{Value}
use cote_ai_simulation.Domain.Patterns.{validate_machine_id}
use cote_ai_simulation.Codec.{canonical_payload}
use cote_ai_simulation.Identity.{opaque_content_hash}
use cote_ai_simulation.Store.{Store}
use cote_ai_simulation.Store.Maps.{lookup}
use cote_ai_simulation.Ledger.{
  Ledger, Dispatch, Response, SlotState, CycleBinding, slot_of, put_slot, slot_mismatch,
  slot_filled, slot_revoked, invalid_machine_id, dispatch_id_mismatch, of_codec,
}
use cote_ai_simulation.Ledger.Slots.{
  register_dispatch, revoke_dispatch, respond, may_dispatch, is_open, answers, bind_response,
  check_response, fill, binds_cycle, binds_round, dispatch_id, dispatch_digest, dispatch_fields,
  append_record, revocation_bytes, slot_key, bind_if_absent,
}

-- A read of a slot behind the write of one.
pub slot_of-put_slot :
    (l : Ledger) (round slot : Bytes) (state : SlotState) (r s : Bytes)
    → slot_of (put_slot l round slot state) r s
      ≡ (if bytes_equal round r && bytes_equal slot s then some state else slot_of l r s)
unfolding slot_of put_slot lookup
slot_of-put_slot l round slot state r s = ground (arith, bytes_equal-eq round r)

abbrev IsUnanswered : SlotState → Type 0
IsUnanswered state = state.response ≡ none

-- The kinds of call that change a slot.
pub data Cause : Type 0 where
  by_registration by_revocation by_response : Cause

-- What a call may do to the state of a slot: an open dispatch, first with the ordinal 0 and then,
-- behind a revocation, with the next uint32; the revocation of an open dispatch; and its answer.
pub data Change : Cause → Bytes → Bytes → Option SlotState → SlotState → Type 0 where
  first_dispatch :
      {round slot : Bytes} (d : Dispatch)
      → d.round_id ≡ round
      → d.slot_id ≡ slot
      → d.ordinal ≡ 0
      → Change by_registration round slot none
          (record { dispatch = d; revoked = false; response = none })
  next_dispatch :
      {round slot : Bytes} (d : Dispatch) (prior : SlotState)
      → d.round_id ≡ round
      → d.slot_id ≡ slot
      → d.ordinal ≡ (prior.dispatch.ordinal + 1) % 2 ^ 32
      → prior.revoked ≡ true
      → prior.response ≡ none
      → Change by_registration round slot
          (some prior)
          (record { dispatch = d; revoked = false; response = none })
  revocation :
      {round slot : Bytes} (prior : SlotState)
      → prior.revoked ≡ false
      → prior.response ≡ none
      → Change by_revocation round slot (some prior) (record prior { revoked = true })
  answer :
      {round slot : Bytes} (prior : SlotState) (r : Response)
      → prior.revoked ≡ false
      → prior.response ≡ none
      → answers r prior.dispatch ≡ true
      → Change by_response round slot (some prior) (record prior { response = some r })

-- One successful call: nothing, or one change of one slot.
pub data Move (k : Cause) (l : Ledger) : Ledger → Type 0 where
  stay : Move k l l
  change :
      (store : Store) (round slot : Bytes) (state : SlotState)
      → Change k round slot (slot_of l round slot) state
      → Move k l (put_slot (record l { input_store = store }) round slot state)

abbrev opened : Dispatch → SlotState
opened d = record { dispatch = d; revoked = false; response = none }

may_dispatch-Change :
    (o : Option SlotState) (d : Dispatch)
    → may_dispatch o d.ordinal ≡ ok tt
    → Change by_registration d.round_id d.slot_id o (opened d)
unfolding may_dispatch
may_dispatch-Change none d h = first_dispatch d refl refl (ground arith)
may_dispatch-Change (some state) d h = elim (Option-cases state.response) [
  | inr (r, e) ↦ absurd (ground arith)
  | inl e ↦ next_dispatch d state refl refl (ground arith) (ground arith) e
]

pub register_dispatch-Move :
    (l m : Ledger) (d : Dispatch) (cycle : CycleBinding)
    → register_dispatch l d cycle ≡ ok m
    → Move by_registration l m
unfolding register_dispatch
register_dispatch-Move l m d cycle h =
    let (b, h₁) = guard-then-eq_ok (binds_cycle l d cycle) slot_mismatch _ h in
    let (v, h₂) = guard-then-eq_ok (validate_machine_id d.slot_id) invalid_machine_id _ h₁ in
    let (round, r, h₃) = bind-eq_ok (or_fail (lookup d.round_id l.rounds) slot_mismatch) _ h₂ in
    let (br, h₄) = guard-then-eq_ok (binds_round round d) slot_mismatch _ h₃ in
    let (md, h₅) = then-eq_ok (may_dispatch (slot_of l d.round_id d.slot_id) d.ordinal) _ h₄ in
    let (id, i, h₆) = bind-eq_ok (dispatch_id l d) _ h₅ in
    let (ie, h₇) = guard-then-eq_ok (bytes_equal id d.id) dispatch_id_mismatch _ h₆ in
    let (digest, dg, h₈) = bind-eq_ok (dispatch_digest l d) _ h₇ in
    let (canonical, cn, h₉) =
      bind-eq_ok (of_codec (canonical_payload l.deriver.codec (dispatch_fields d))) _ h₈ in
    let (store, st, h') = bind-eq_ok (append_record l d.id canonical) _ h₉ in
    subst (Move by_registration l) (ok-injective h') (
      change store d.round_id d.slot_id _ (
        may_dispatch-Change (slot_of l d.round_id d.slot_id)
          (record d { digest = digest; canonical = canonical }) md))

is_open-parts :
    (state : SlotState) → is_open state ≡ true → (state.revoked ≡ false) × (state.response ≡ none)
is_open-parts state h = elim (Option-cases state.response) [
  | inr (r, e) ↦ absurd (ground arith)
  | inl e ↦ (ground arith, e)
]

pub revoke_dispatch-Move :
    (l m : Ledger) (round slot : Bytes) (reason : ℕ) (policy : Value)
    → revoke_dispatch l round slot reason policy ≡ ok m
    → Move by_revocation l m
unfolding revoke_dispatch
revoke_dispatch-Move l m round slot reason policy h =
    let (state, s, h₁) = bind-eq_ok (or_fail (slot_of l round slot) slot_mismatch) _ h in
    let (o, h₂) = guard-then-eq_ok (is_open state) slot_mismatch _ h₁ in
    let (bytes, cn, h₃) = bind-eq_ok (revocation_bytes l state reason policy) _ h₂ in
    let (store, st, h₄) =
      bind-eq_ok (append_record l (opaque_content_hash l.deriver bytes) bytes) _ h₃ in
    let e : slot_of l round slot ≡ some state = or_fail-eq_ok _ slot_mismatch s in
    let (u, n) = is_open-parts state o in
    subst (Move by_revocation l) (ok-injective h₄)
      (change store round slot (record state { revoked = true }) (rw e (revocation state u n)))

fill-Move :
    (l m : Ledger) (state : SlotState) (r : Response) (digest canonical : Bytes)
    → slot_of l r.round_id r.slot_id ≡ some state
    → state.revoked ≡ false
    → answers r state.dispatch ≡ true
    → fill l state r digest canonical ≡ ok m
    → Move by_response l m
unfolding fill bind_response
fill-Move l m state r digest canonical e u a h = elim (Option-cases state.response) [
  | inr (prior, p) ↦ let x : l ≡ m = ground arith in subst (Move by_response l) x stay
  | inl n ↦
      let b : bind_response l state r digest canonical ≡ ok m = ground arith in
      let (key, k, h₁) = bind-eq_ok (slot_key l r.round_id r.slot_id) _ b in
      let ((store, inserted, existing), i, h₂) =
        bind-eq_ok (bind_if_absent l key r.id canonical) _ h₁ in
      let (g, h₃) =
        guard-then-eq_ok (inserted || bytes_equal existing canonical) slot_filled _ h₂ in
      subst (Move by_response l) (ok-injective h₃) (
        change store r.round_id r.slot_id _
          (rw e (answer state (record r { digest = digest; canonical = canonical }) u n a)))
]

pub respond-Move : (l m : Ledger) (r : Response) → respond l r ≡ ok m → Move by_response l m
unfolding respond check_response
respond-Move l m r h =
    let (state, s, h₁) = bind-eq_ok (or_fail (slot_of l r.round_id r.slot_id) slot_mismatch) _ h in
    let (u, h₂) = guard-then-eq_ok (not state.revoked) slot_revoked _ h₁ in
    let ((digest, canonical), c, h₃) = bind-eq_ok (check_response l state.dispatch r) _ h₂ in
    let (a, h₄) = guard-then-eq_ok (answers r state.dispatch) slot_mismatch _ c in
    fill-Move l m state r digest canonical (or_fail-eq_ok _ slot_mismatch s) (ground arith) a h₃
