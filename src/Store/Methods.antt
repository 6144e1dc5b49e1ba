-- ===== src/Store/Methods.antt =====
-- The methods of internal/csf/persistence/memory/store.go.
use cote_ai_simulation.Base.{
  ℕ, ◌+◌, ◌%◌, Bool, true, false, ◌&&◌, leb, ◌==◌, if◌then◌else◌, List, [], ◌∷◌, ◌++◌, some, none,
  length, Result, ok, err, ◌>>=◌, ◌>>◌, guard, or_fail, map,
}
use cote_ai_simulation.Base.Bytes.{Bytes, bytes_equal}
use cote_ai_simulation.Base.Int.{ℤ, uint64_bound}
use cote_ai_simulation.Value.{Value, as_array, as_uint64, signed_int64, as_32_bytes, field}
use cote_ai_simulation.Codec.{Library, strict_decode_payload}
use cote_ai_simulation.IngressGuard.{CanonicalRecord, parse}
use cote_ai_simulation.Store.Maps.{lookup, put}
use cote_ai_simulation.Store.{
  Store, StoreError, AdmissionSeal, Guarded, plain, source_record, round_record, source_after_fence,
  round_before_fence, sequence_gap, prefix_changed, undecodable_fence, bad_fence, fence_run,
  fence_instant, fence_ordinal, not_found, unguarded_fence, append_input_locked, same_preimage,
  guarded_kind, validate_source, validate_round, unsealed, uncovered, check_seals, wrap,
}

unfoldable pub append_source_declaration :
    Library → Store → Bytes → CanonicalRecord → Result StoreError Store
append_source_declaration lib s run_id r = do
  guarded ← guarded_kind lib r
  validate_source guarded run_id
  guard (unsealed run_id s.seals) source_after_fence
  append_input_locked s r

unfoldable pub append_round_declaration :
    Library → Store → Bytes → ℤ → ℕ → CanonicalRecord → Result StoreError Store
append_round_declaration lib s run_id instant ordinal r = do
  guarded ← guarded_kind lib r
  validate_round guarded run_id instant ordinal
  guard (uncovered run_id instant ordinal s.seals) round_before_fence
  append_input_locked s r

unfoldable pub dispatch_append :
    Library → Store → CanonicalRecord → Guarded → Result StoreError Store
dispatch_append lib s r (source_record run) = append_source_declaration lib s run r
dispatch_append lib s r (round_record run instant ordinal) =
    append_round_declaration lib s run instant ordinal r
dispatch_append lib s r plain = append_input_locked s r

-- `Append`
unfoldable pub append : Library → Store → CanonicalRecord → Result StoreError Store
unfolding dispatch_append
append lib s r = do guarded ← guarded_kind lib r; dispatch_append lib s r guarded

-- `NextIngressSequence`: a source that is not in the map has 0.
unfoldable pub next_ingress_sequence : Store → Bytes → ℕ
next_ingress_sequence s source = elim (lookup source s.ingress_cursor) [ none ↦ 0 | some n ↦ n ]

-- The record under an identity, if there is one, has these bytes.
unfoldable pub agrees : Store → CanonicalRecord → Result StoreError (Unit {0})
agrees s r = elim (lookup r.identity s.records) [
  | none ↦ ok tt
  | some existing ↦ same_preimage existing r.canonical
]

-- The record is put under its identity, unless there is one.
unfoldable pub put_if_absent : Store → CanonicalRecord → Store
put_if_absent s r = elim (lookup r.identity s.records) [
  | some existing ↦ s
  | none ↦ record s {
    records = put r.identity r.canonical s.records;
    order = s.order ++ r.identity ∷ [];
  }
]

abbrev pub no_seals : List AdmissionSeal → Bool
no_seals [] = true
no_seals (x ∷ xs) = false

-- The block behind `if len(s.seals) > 0`.
unfoldable pub guard_ingress :
    Library → Store → Bytes → CanonicalRecord → Result StoreError (Unit {0})
guard_ingress lib s source r =
    if no_seals s.seals
    then ok tt
    else (wrap (parse lib r source) >>= λ entry. check_seals s.seals entry)

-- `AppendIngress`; `hash` is `identity.OpaqueContentHash`.
unfoldable pub append_ingress :
    Library
    → (Bytes → Bytes)
    → Store
    → Bytes
    → ℕ
    → CanonicalRecord
    → CanonicalRecord
    → Result StoreError Store
unfolding agrees put_if_absent guard_ingress
append_ingress lib hash s source sequence r receipt = do
  guard (sequence == next_ingress_sequence s source) sequence_gap
  guard_ingress lib s source r
  let receipt_record = stamped
  agrees s r
  agrees s receipt_record
  let s₁ = put_if_absent (put_if_absent s r) receipt_record
  ok (record s₁ { ingress_cursor = put source ((sequence + 1) % uint64_bound) s₁.ingress_cursor })
  where
    stamped : CanonicalRecord
    stamped = record { identity = hash receipt.canonical; canonical = receipt.canonical }

-- `AppendFence`
pub append_fence : Store → CanonicalRecord → Result StoreError Store
append_fence s r = err unguarded_fence

-- `GetFence`
unfoldable pub get_fence : Store → Bytes → Result StoreError Bytes
get_fence s id = or_fail (lookup id s.fences) not_found

-- The bytes under an identity; a missing one has the zero value.
abbrev pub bytes_of : Store → Bytes → Bytes
bytes_of s id = elim (lookup id s.records) [ none ↦ [] | some b ↦ b ]

-- The loop of `AppendFenceIfPrefix` behind its test of the lengths.
unfoldable pub same_prefix : Store → List Bytes → List CanonicalRecord → Bool
same_prefix s [] [] = true
same_prefix s [] (item ∷ items) = false
same_prefix s (id ∷ ids) [] = false
same_prefix s (id ∷ ids) (item ∷ items) =
    (bytes_equal item.identity id && bytes_equal item.canonical (bytes_of s item.identity))
    && same_prefix s ids items

-- The decoding of a fence, with the store's error.
abbrev pub decode_fence : Library → Bytes → Result StoreError Value
decode_fence lib canonical = elim (strict_decode_payload lib canonical) [
  | ok v ↦ ok v
  | err e ↦ err undecodable_fence
]

-- The run and the coordinate that are read from the bytes of a fence.
unfoldable pub read_seal : Library → Bytes → Result StoreError AdmissionSeal
read_seal lib canonical = do
  value ← decode_fence lib canonical
  fields ← or_fail (as_array value) bad_fence
  guard (leb 6 (length fields)) bad_fence
  run ← or_fail (as_32_bytes (field fields 0)) fence_run
  instant ← or_fail (signed_int64 (field fields 4)) fence_instant
  ordinal ← or_fail (as_uint64 (field fields 5)) fence_ordinal
  ok (record { run_id = run; instant = instant; ordinal = ordinal })

-- The end of `AppendFenceIfPrefix`: a fence that is there is not sealed again.
unfoldable pub publish : Store → CanonicalRecord → AdmissionSeal → Result StoreError Store
publish s fence seal = elim (lookup fence.identity s.fences) [
  | some prior ↦ same_preimage prior fence.canonical >>= λ _. ok s
  | none ↦ ok (record s {
    fences = put fence.identity fence.canonical s.fences;
    seals = s.seals ++ seal ∷ [];
  })
]

-- `AppendFenceIfPrefix`
unfoldable pub append_fence_if_prefix :
    Library → Store → CanonicalRecord → List CanonicalRecord → Result StoreError Store
unfolding publish
append_fence_if_prefix lib s fence expected = do
  guard (length expected == length s.order) prefix_changed
  guard (same_prefix s s.order expected) prefix_changed
  seal ← read_seal lib fence.canonical
  publish s fence seal

-- `AppendIfAbsent`: whether the record was inserted, and the bytes that were there before.
unfoldable pub append_if_absent :
    Store → Bytes → CanonicalRecord → Result StoreError (Store × Bool × Bytes)
append_if_absent s key r = elim (lookup key s.conditional) [
  | some existing ↦ ok (s, false, existing.canonical)
  | none ↦ do
    s₁ ← append_input_locked s r
    ok (record s₁ { conditional = put key r s₁.conditional }, true, [])
]

-- `Get`
unfoldable pub get : Store → Bytes → Result StoreError Bytes
get s identity = or_fail (lookup identity s.records) not_found

-- `Records`: the records in the order of their insertion.
unfoldable pub records_of : Store → List CanonicalRecord
records_of s = map (λ id. record { identity = id; canonical = bytes_of s id }) s.order

-- `Len`
unfoldable pub len : Store → ℕ
len s = length s.order
