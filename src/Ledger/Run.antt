-- ===== src/Ledger/Run.antt =====
-- Sequences of calls of a ledger (internal/csf/inputledger/ledger.go), and the course that each slot
-- takes under them.
use cote_ai_simulation.Base.{
  ℕ, ◌≡◌, refl, ◌&&◌, if◌then◌else◌, List, [], ◌∷◌, Option, some, Result, ok, err, Bool-cases,
  Result-cases, inl, inr, ◌⊎◌, subst, subst₂, sym,
}
use cote_ai_simulation.Base.Bytes.{Bytes, bytes_equal, bytes_equal-eq}
use cote_ai_simulation.Value.{Value}
use cote_ai_simulation.Ledger.{
  Ledger, LedgerError, Dispatch, Response, SlotState, CycleBinding, slot_of,
}
use cote_ai_simulation.Ledger.Slots.{register_dispatch, revoke_dispatch, respond}
use cote_ai_simulation.Ledger.Lifecycle.{
  Cause, by_registration, by_revocation, by_response, Change, next_dispatch, revocation, answer,
  Move, stay, change, slot_of-put_slot, register_dispatch-Move, revoke_dispatch-Move, respond-Move,
}

pub data Call : Type 0 where
  register_call : Dispatch → CycleBinding → Call
  revoke_call : Bytes → Bytes → ℕ → Value → Call
  respond_call : Response → Call

abbrev call_result : Ledger → Call → Result LedgerError Ledger
call_result l (register_call d cycle) = register_dispatch l d cycle
call_result l (revoke_call round slot reason policy) = revoke_dispatch l round slot reason policy
call_result l (respond_call r) = respond l r

abbrev after : Ledger → Result LedgerError Ledger → Ledger
after l (ok m) = m
after l (err e) = l

-- The kind of change that a call makes.
abbrev pub cause_of : Call → Cause
cause_of (register_call d cycle) = by_registration
cause_of (revoke_call round slot reason policy) = by_revocation
cause_of (respond_call r) = by_response

-- The ledger after a sequence of calls.
unfoldable pub run : Ledger → List Call → Ledger
run l [] = l
run l (c ∷ cs) = run (after l (call_result l c)) cs

call-Move : (l m : Ledger) (c : Call) → call_result l c ≡ ok m → Move (cause_of c) l m
call-Move l m (register_call d cycle) h = register_dispatch-Move l m d cycle h
call-Move l m (revoke_call round slot reason policy) h =
    revoke_dispatch-Move l m round slot reason policy h
call-Move l m (respond_call r) h = respond-Move l m r h

-- The course of one slot under a sequence of calls: each of them leaves its state or makes one
-- change of it, of the call's own kind.
pub data Course (round slot : Bytes)
    : List Call → Option SlotState → Option SlotState → Type 0 where
  finished : (o : Option SlotState) → Course round slot [] o o
  left_alone :
      {c : Call} {cs : List Call} {o p : Option SlotState}
      → Course round slot cs o p
      → Course round slot (c ∷ cs) o p
  changed :
      {c : Call} {cs : List Call} {o p : Option SlotState} (state : SlotState)
      → Change (cause_of c) round slot o state
      → Course round slot cs (some state) p
      → Course round slot (c ∷ cs) o p

-- What one call does to a slot.
Step : Call → Bytes → Bytes → Option SlotState → Option SlotState → Type 0
Step c round slot o p =
    (p ≡ o) ⊎ ((state : SlotState) × (p ≡ some state) × Change (cause_of c) round slot o state)

put_slot-Step :
    (c : Call) (round slot : Bytes) (l : Ledger) (r s : Bytes) (state : SlotState)
    → Change (cause_of c) r s (slot_of l r s) state
    → Step c round slot
        (slot_of l round slot)
        (if bytes_equal r round && bytes_equal s slot then some state else slot_of l round slot)
unfolding Step
put_slot-Step c round slot l r s state k = elim (Bool-cases (bytes_equal r round)) [
  | inr e ↦ rw e (inl refl)
  | inl e ↦ elim (Bool-cases (bytes_equal s slot)) [
    | inr f ↦ rw (e, f) (inl refl)
    | inl f ↦
        rw (e, f)
          (inr (
            state,
            refl,
            subst₂ (λ x y. Change (cause_of c) x y (slot_of l x y) state) (bytes_equal-eq r round e)
                (bytes_equal-eq s slot f) k,
          ))
  ]
]

Move-Step :
    (c : Call) (round slot : Bytes) (l : Ledger) {m : Ledger}
    → Move (cause_of c) l m
    → Step c round slot (slot_of l round slot) (slot_of m round slot)
unfolding slot_of Step
Move-Step c round slot l stay = inl refl
Move-Step c round slot l (change store r s state k) =
    subst (Step c round slot (slot_of l round slot))
      (sym (slot_of-put_slot (record l { input_store = store }) r s state round slot))
      (put_slot-Step c round slot l r s state k)

after-Step :
    (round slot : Bytes) (l : Ledger) (c : Call)
    → Step c round slot (slot_of l round slot) (slot_of (after l (call_result l c)) round slot)
unfolding Step
after-Step round slot l c = elim (Result-cases (call_result l c)) [
  | inl (m, e) ↦ rw e (Move-Step c round slot l (call-Move l m c e))
  | inr (x, e) ↦ rw e (inl refl)
]

Step-Course :
    (c : Call) (cs : List Call) (round slot : Bytes) (o p q : Option SlotState)
    → Step c round slot o p
    → Course round slot cs p q
    → Course round slot (c ∷ cs) o q
unfolding Step
Step-Course c cs round slot o p q (inl e) k = left_alone (subst (λ x. Course round slot cs x q) e k)
Step-Course c cs round slot o p q (inr (state, e, h)) k =
    changed state h (subst (λ x. Course round slot cs x q) e k)

-- In a sequence of calls, each single call leaves the state of a slot as it is or makes one change
-- of it, of its own kind: a registration makes the first dispatch with the ordinal 0, or, where the
-- dispatch is revoked and there is no answer, the next one with the next uint32; a revocation is of
-- an open dispatch; and an answer is of an open dispatch, and carries its tuple.
pub run-Course :
    (l : Ledger) (cs : List Call) (round slot : Bytes)
    → Course round slot cs (slot_of l round slot) (slot_of (run l cs) round slot)
unfolding run
run-Course l [] round slot = finished (slot_of l round slot)
run-Course l (c ∷ cs) round slot =
    Step-Course c cs round slot _ _ _ (after-Step round slot l c)
      (run-Course (after l (call_result l c)) cs round slot)

Change-answered :
    (k : Cause) (round slot : Bytes) (state next : SlotState) (r : Response)
    → state.response ≡ some r
    → Change k round slot (some state) next
    → ⊥
Change-answered _ round slot state _ r h (next_dispatch d _ rd sl o u n) = cc
Change-answered _ round slot state _ r h (revocation _ u n) = cc
Change-answered _ round slot state _ r h (answer _ x u n a) = cc

Course-answered :
    (cs : List Call) (round slot : Bytes) (state : SlotState) (r : Response) {p : Option SlotState}
    → state.response ≡ some r
    → Course round slot cs (some state) p
    → p ≡ some state
Course-answered [] round slot state r h (finished _) = refl
Course-answered (c ∷ cs) round slot state r h (left_alone k) =
    Course-answered cs round slot state r h k
Course-answered (c ∷ cs) round slot state r h (changed next x k) =
    absurd (Change-answered (cause_of c) round slot state next r h x)

-- A slot that has a response keeps its state, the dispatch and the response, under every sequence
-- of calls.
pub answered_slot_frozen :
    (l : Ledger) (cs : List Call) (round slot : Bytes) (state : SlotState) (r : Response)
    → slot_of l round slot ≡ some state
    → state.response ≡ some r
    → slot_of (run l cs) round slot ≡ some state
answered_slot_frozen l cs round slot state r h a = Course-answered cs round slot state r a (
    subst (λ x. Course round slot cs x (slot_of (run l cs) round slot)) h
      (run-Course l cs round slot))
