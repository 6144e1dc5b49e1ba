-- ===== src/Ledger/Agreement.antt =====
-- Two ledgers over one store (internal/csf/inputledger/ledger.go, `Respond`, and
-- internal/csf/persistence/memory/store.go, `AppendIfAbsent`).
use cote_ai_simulation.Base.{
  ◌≡◌, refl, ◌&&◌, ◌||◌, Bool, true, false, not, arith, if◌then◌else◌, List, Option, some, none, ok,
  bind-eq_ok, guard-then-eq_ok, or_fail, or_fail-eq_ok, ok-injective, Option-cases, inl, inr, subst,
  subst₂, sym, ap, ◌∙◌, map_err-eq_ok,
}
use cote_ai_simulation.Base.Bytes.{Bytes, bytes_equal, bytes_equal-eq, bytes_equal_refl}
use cote_ai_simulation.Codec.{Library}
use cote_ai_simulation.IngressGuard.{CanonicalRecord}
use cote_ai_simulation.Store.{Store, append_input_locked}
use cote_ai_simulation.Store.Maps.{lookup}
use cote_ai_simulation.Store.Methods.{append_if_absent}
use cote_ai_simulation.Store.Run.{bound}
use cote_ai_simulation.Store.Run.Steps.{run-Grows}
use cote_ai_simulation.Store.Run
use cote_ai_simulation.Store.History.{binds}
use cote_ai_simulation.Ledger.{
  Ledger, Response, SlotState, slot_of, put_slot, slot_mismatch, slot_filled, slot_revoked,
  store_error,
}
use cote_ai_simulation.Ledger.Slots.{
  respond, fill, bind_response, check_response, slot_key, bind_if_absent,
}
use cote_ai_simulation.Ledger.Lifecycle.{slot_of-put_slot}

-- The bytes under a key after `AppendIfAbsent`, where the record was inserted or is the same.
append_if_absent-bound :
    (lib : Library) (hash : Bytes → Bytes) (s t : Store) (key : Bytes) (r : CanonicalRecord)
    (inserted : Bool) (existing : Bytes)
    → append_if_absent s key r ≡ ok (t, inserted, existing)
    → (inserted || bytes_equal existing r.canonical) ≡ true
    → (w : CanonicalRecord) × (lookup key t.conditional ≡ some w) × (w.canonical ≡ r.canonical)
unfolding append_if_absent
append_if_absent-bound lib hash s t key r true existing h g = (r, binds lib hash s t key r h, refl)
append_if_absent-bound lib hash s t key r false existing h g =
    elim (Option-cases (lookup key s.conditional)) [
      | inl e ↦
          let (s₁, a, h₁) =
            bind-eq_ok (append_input_locked s r) (bound key r) (rw (e, append_if_absent) at h) in
          absurd (true_false (ap (λ x. x.1) (ok-injective h₁)))
      | inr (w, e) ↦
          let k : ok (s, false, w.canonical) ≡ ok (t, false, existing) =
            (rw (e, append_if_absent) at h) in
          let x : s ≡ t = ap (λ x. x.0) (ok-injective k) in
          let y : w.canonical ≡ existing = ap (λ x. x.2) (ok-injective k) in
          (w, rw (sym x) e, cc (bytes_equal-eq existing r.canonical g))
    ]
  where
    true_false : {P : Type 0} → true ≡ false → P
    true_false h = cc

append_if_absent-keeps :
    (s t : Store) (key : Bytes) (r : CanonicalRecord) (inserted : Bool) (existing : Bytes)
    → append_if_absent s key r ≡ ok (t, inserted, existing)
    → (w : CanonicalRecord) → lookup key s.conditional ≡ some w
    → lookup key t.conditional ≡ some w
unfolding append_if_absent
append_if_absent-keeps s t key r inserted existing h w e =
    let k : ok (s, false, w.canonical) ≡ ok (t, inserted, existing) =
      (rw (e, append_if_absent) at h) in
    let x : s ≡ t = ap (λ x. x.0) (ok-injective k) in rw (sym x) e

abbrev pub bytes_of_state : Option SlotState → Option Bytes
bytes_of_state none = none
bytes_of_state (some state) = elim state.response [ none ↦ none | some a ↦ some a.canonical ]

-- The bytes of the response that a ledger holds for a slot.
abbrev pub answer_bytes : Ledger → Bytes → Bytes → Option Bytes
answer_bytes l round slot = bytes_of_state (slot_of l round slot)

-- The slot's bytes in the ledger are the ones that the store binds to the slot.
record Settled (l m : Ledger) (round slot : Bytes) : Type 0 where
  bytes : Bytes
  key : Bytes
  winner : CanonicalRecord
  held : answer_bytes m round slot ≡ some bytes
  key_of_slot : slot_key l round slot ≡ ok key
  bound_to : lookup key m.input_store.conditional ≡ some winner
  winner_bytes : winner.canonical ≡ bytes
  kept :
      (w : CanonicalRecord)
      → lookup key l.input_store.conditional ≡ some w
      → lookup key m.input_store.conditional ≡ some w

slot_of-put_slot_self :
    (l : Ledger) (round slot : Bytes) (state : SlotState)
    → slot_of (put_slot l round slot state) round slot ≡ some state
slot_of-put_slot_self l round slot state = slot_of-put_slot l round slot state round slot ∙ chosen
  where
    chosen :
        (if bytes_equal round round && bytes_equal slot slot
          then some state
          else slot_of l round slot)
        ≡ some state
    chosen = rw (bytes_equal_refl round, bytes_equal_refl slot) refl

bind_response-Settled :
    (l m : Ledger) (state : SlotState) (r : Response) (digest canonical : Bytes)
    → bind_response l state r digest canonical ≡ ok m
    → Settled l m r.round_id r.slot_id
unfolding bind_response put_slot
bind_response-Settled l m state r digest canonical h =
    let (key, k, h₁) = bind-eq_ok (slot_key l r.round_id r.slot_id) _ h in
    let ((store, inserted, existing), i, h₂) =
      bind-eq_ok (bind_if_absent l key r.id canonical) _ h₁ in
    let (g, h₃) = guard-then-eq_ok (inserted || bytes_equal existing canonical) slot_filled _ h₂ in
    let (w, f, c) =
      append_if_absent-bound l.deriver.codec l.deriver.sha256 l.input_store store key _ inserted
        existing (map_err-eq_ok store_error _ i) g in
    subst (λ z. Settled l z r.round_id r.slot_id) (ok-injective h₃)
      (record {
        bytes = canonical;
        key = key;
        winner = w;
        held = ap bytes_of_state (slot_of-put_slot_self _ r.round_id r.slot_id _);
        key_of_slot = k;
        bound_to = f;
        winner_bytes = c;
        kept =
            append_if_absent-keeps l.input_store store key _ inserted existing
              (map_err-eq_ok store_error _ i);
      })

respond-Settled :
    (l m : Ledger) (r : Response) (state : SlotState)
    → slot_of l r.round_id r.slot_id ≡ some state
    → state.response ≡ none
    → respond l r ≡ ok m
    → Settled l m r.round_id r.slot_id
unfolding respond fill
respond-Settled l m r state e n h =
    let (s, p, h₁) = bind-eq_ok (or_fail (slot_of l r.round_id r.slot_id) slot_mismatch) _ h in
    let (u, h₂) = guard-then-eq_ok (not s.revoked) slot_revoked _ h₁ in
    let ((digest, canonical), c, h₃) = bind-eq_ok (check_response l s.dispatch r) _ h₂ in
    let x : s.response ≡ none = cc (or_fail-eq_ok _ slot_mismatch p) in
    bind_response-Settled l m s r digest canonical (ground arith)

Settled-agree :
    (l m l' m' : Ledger) (round slot : Bytes) (calls : List Run.Call)
    → Settled l m round slot
    → Settled l' m' round slot
    → l'.deriver ≡ l.deriver
    → l'.input_store ≡ Run.run l.deriver.codec l.deriver.sha256 m.input_store calls
    → answer_bytes m' round slot ≡ answer_bytes m round slot
unfolding slot_key
Settled-agree l m l' m' round slot calls a b d i =
    let k : slot_key l' round slot ≡ slot_key l round slot = rw d refl in
    let same : a.key ≡ b.key = cc (a.key_of_slot, b.key_of_slot) in
    let there : lookup a.key l'.input_store.conditional ≡ some a.winner = rw i (
      (run-Grows l.deriver.codec l.deriver.sha256 m.input_store calls).keeps_conditional a.key
        a.winner a.bound_to) in
    let still : lookup b.key m'.input_store.conditional ≡ some a.winner =
      b.kept a.winner (rw (sym same) there) in
    cc (a.held, b.held, b.bound_to, a.winner_bytes, b.winner_bytes)

-- Two ledgers of one run that share a store, and each accept a response to a slot that they hold
-- as unanswered, hold the same bytes as the slot's response, whatever the store was called with in
-- between: the later of the two is accepted only with the bytes of the earlier one.
pub respond_agree :
    (l m l' m' : Ledger) (r r' : Response) (state state' : SlotState) (calls : List Run.Call)
    → slot_of l r.round_id r.slot_id ≡ some state
    → state.response ≡ none
    → respond l r ≡ ok m
    → l'.deriver ≡ l.deriver
    → l'.input_store ≡ Run.run l.deriver.codec l.deriver.sha256 m.input_store calls
    → r'.round_id ≡ r.round_id
    → r'.slot_id ≡ r.slot_id
    → slot_of l' r'.round_id r'.slot_id ≡ some state'
    → state'.response ≡ none
    → respond l' r' ≡ ok m'
    → answer_bytes m' r.round_id r.slot_id ≡ answer_bytes m r.round_id r.slot_id
respond_agree l m l' m' r r' state state' calls e n h d i er es e' n' h' =
    Settled-agree l m l' m' r.round_id r.slot_id calls (respond-Settled l m r state e n h)
      (subst₂ (Settled l' m') er es (respond-Settled l' m' r' state' e' n' h')) d i
