-- ===== src/Store/Run.antt =====
-- Sequences of calls of the in-memory store (internal/csf/persistence/memory/store.go).
pub mod Steps
use cote_ai_simulation.Base.{
  ℕ, ◌≡◌, refl, ap, subst, Bool, true, arith, List, [], ◌∷◌, none, Result, ok, err, bind-eq_ok,
  then-eq_ok, guard-then-eq_ok, Option-cases, inl, inr, ◌==◌, length, ok-injective, Result-cases,
}
use cote_ai_simulation.Base.Bytes.{Bytes}
use cote_ai_simulation.Base.Int.{ℤ}
use cote_ai_simulation.Codec.{Library}
use cote_ai_simulation.IngressGuard.{CanonicalRecord}
use cote_ai_simulation.Store.Maps.{lookup}
use cote_ai_simulation.Store.{
  Store, StoreError, AdmissionSeal, Guarded, plain, source_record, round_record,
  append_input_locked, guarded_kind, validate_source, validate_round, unsealed, uncovered,
  source_after_fence, round_before_fence, sequence_gap, prefix_changed,
}
use cote_ai_simulation.Store.Methods.{
  put_if_absent, append, append_source_declaration, append_round_declaration, append_ingress,
  append_fence_if_prefix, append_if_absent, dispatch_append, publish, guard_ingress, agrees,
  read_seal, same_prefix, next_ingress_sequence,
}
use cote_ai_simulation.Store.Listing.{
  Grows, Grows-refl, Grows-trans, with_record, with_conditional, with_cursor, with_fence,
  with_record-Grows, with_conditional-Grows, with_cursor-Grows, with_fence-Grows,
}

-- A call of a method that writes, and the store that it leaves. A call that returns an error leaves
-- the store as it was.
pub data Call : Type 0 where
  append_call : CanonicalRecord → Call
  source_call : Bytes → CanonicalRecord → Call
  round_call : Bytes → ℤ → ℕ → CanonicalRecord → Call
  ingress_call : Bytes → ℕ → CanonicalRecord → CanonicalRecord → Call
  fence_call : CanonicalRecord → List CanonicalRecord → Call
  conditional_call : Bytes → CanonicalRecord → Call

abbrev pub after : Store → Result StoreError Store → Store
after s (ok t) = t
after s (err e) = s

-- One write of the store.
pub data Move (lib : Library) (s : Store) : Store → Type 0 where
  new_record :
      (r : CanonicalRecord) → lookup r.identity s.records ≡ none → Move lib s (with_record s r)
  new_binding :
      (key : Bytes) (r : CanonicalRecord)
      → lookup key s.conditional ≡ none
      → Move lib s (with_conditional s key r)
  new_cursor : (cursor : List (Bytes × ℕ)) → Move lib s (with_cursor s cursor)
  new_fence :
      (fence : CanonicalRecord) (seal : AdmissionSeal)
      → lookup fence.identity s.fences ≡ none
      → read_seal lib fence.canonical ≡ ok seal
      → Move lib s (with_fence s fence seal)

pub data Moves (lib : Library) (s : Store) : Store → Type 0 where
  still : Moves lib s s
  move : {t u : Store} → Moves lib s t → Move lib t u → Moves lib s u

Move-Grows : (lib : Library) (s : Store) {t : Store} → Move lib s t → Grows s t
Move-Grows lib s (new_record r e) = with_record-Grows s r e
Move-Grows lib s (new_binding key r e) = with_conditional-Grows s key r e
Move-Grows lib s (new_cursor cursor) = with_cursor-Grows s cursor
Move-Grows lib s (new_fence fence seal e q) = with_fence-Grows s fence seal e

pub Moves-Grows : (lib : Library) {s t : Store} → Moves lib s t → Grows s t
Moves-Grows lib {s} still = Grows-refl s
Moves-Grows lib {s} {t} (move {t = t₁} m v) =
    Grows-trans s t₁ t (Moves-Grows lib m) (Move-Grows lib t₁ v)

-- An append of a record touches the records and their order only.
pub append_input_locked-frame :
    (s t : Store) (r : CanonicalRecord)
    → append_input_locked s r ≡ ok t
    → (t.conditional ≡ s.conditional) × (t.fences ≡ s.fences) × (t.seals ≡ s.seals)
unfolding append_input_locked
append_input_locked-frame s t r h = elim (Option-cases (lookup r.identity s.records)) [
  | inl e ↦ ground arith
  | inr (b, e) ↦ ground arith
]

-- What `AppendIfAbsent` does with the store that holds the record.
abbrev pub bound : Bytes → CanonicalRecord → Store → Result StoreError (Store × Bool × Bytes)
bound key r s₁ = ok (with_conditional s₁ key r, true, [])

module _ (lib : Library) (hash : Bytes → Bytes) where
  unfoldable pub step : Store → Call → Store
  step s (append_call r) = after s (append lib s r)
  step s (source_call run r) = after s (append_source_declaration lib s run r)
  step s (round_call run instant ordinal r) =
      after s (append_round_declaration lib s run instant ordinal r)
  step s (ingress_call source sequence r receipt) =
      after s (append_ingress lib hash s source sequence r receipt)
  step s (fence_call fence expected) = after s (append_fence_if_prefix lib s fence expected)
  step s (conditional_call key r) = elim (append_if_absent s key r) [
    | ok (t, inserted, existing) ↦ t
    | err e ↦ s
  ]

  -- The store after a sequence of calls, by whatever callers.
  unfoldable pub run : Store → List Call → Store
  run s [] = s
  run s (c ∷ cs) = run (step s c) cs
