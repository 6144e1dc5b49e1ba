-- ===== src/Store.antt =====
-- internal/csf/persistence/memory/store.go: the in-memory store of canonical records, admission
-- fences and seals. A method that writes returns the new store; on an error the store is as it was.
-- The lock makes each method one step. The decoder and the content hash are parameters.
pub mod Maps
pub mod Methods
pub mod Listing
pub mod Run
pub mod History
pub mod Sealing
pub mod Seals
pub mod Fences
use cote_ai_simulation.Base.{
  ℕ, ◌+◌, ◌%◌, ◌≡◌, refl, Bool, true, false, ◌&&◌, ◌||◌, not, arith, leb, ltb, ◌==◌, if◌then◌else◌,
  List, [], ◌∷◌, ◌++◌, Option, some, none, length, Result, ok, err, ◌>>=◌, ◌>>◌, guard, or_fail,
  map, map_err,
}
use cote_ai_simulation.Base.Bytes.{Bytes, bytes_equal, literal}
use cote_ai_simulation.Base.Int.{ℤ, pos, ltb_ℤ, eqb_ℤ, uint64_bound}
use cote_ai_simulation.Domain.{EligibilityCoordinate, equal_preimage}
use cote_ai_simulation.Value.{
  Value, as_array, as_bytes, as_text, as_uint64, signed_int64, as_32_bytes, field, is_literal,
}
use cote_ai_simulation.Codec.{Library, strict_decode_payload}
use cote_ai_simulation.IngressGuard.{CanonicalRecord, Entry, GuardError, parse, check}
use Maps.{lookup, put}

pub record AdmissionSeal : Type 0 where
  pub run_id : Bytes
  pub instant : ℤ
  pub ordinal : ℕ

pub record Store : Type 0 where
  pub records : List (Bytes × Bytes)
  pub conditional : List (Bytes × CanonicalRecord)
  pub ingress_cursor : List (Bytes × ℕ)
  pub fences : List (Bytes × Bytes)
  pub seals : List AdmissionSeal
  pub order : List Bytes

pub data StoreError : Type 0 where
  identity_collision not_found : StoreError
  guarded_run guarded_coordinate guarded_instant guarded_ordinal guard_kind guard_coordinate :
      StoreError
  source_after_fence round_before_fence sequence_gap : StoreError
  ingress : GuardError → StoreError
  unguarded_fence prefix_changed undecodable_fence bad_fence fence_run fence_instant fence_ordinal :
      StoreError

pub data Guarded : Type 0 where
  plain : Guarded
  source_record : (run : Bytes) → Guarded
  round_record : (run : Bytes) (instant : ℤ) (ordinal : ℕ) → Guarded

unfoldable pub new : Store
new = record {
  records = [];
  conditional = [];
  ingress_cursor = [];
  fences = [];
  seals = [];
  order = [];
}

-- The error of `EqualPreimage`.
abbrev pub same_preimage : Bytes → Bytes → Result StoreError (Unit {0})
same_preimage existing candidate = guard (equal_preimage existing candidate) identity_collision

unfoldable pub append_input_locked : Store → CanonicalRecord → Result StoreError Store
append_input_locked s r = elim (lookup r.identity s.records) [
  | some existing ↦ same_preimage existing r.canonical >>= λ _. ok s
  | none ↦ ok (record s {
    records = put r.identity r.canonical s.records;
    order = s.order ++ r.identity ∷ [];
  })
]

-- The last part of `guardedKind`, for a round declaration.
guarded_round : Bytes → List Value → Result StoreError Guarded
guarded_round run fields = do
  parts ← or_fail (as_array (field fields 5)) guarded_coordinate
  guard (length parts == 2) guarded_coordinate
  instant ← or_fail (signed_int64 (field parts 0)) guarded_instant
  ordinal ← or_fail (as_uint64 (field parts 1)) guarded_ordinal
  ok (round_record run instant ordinal)

abbrev is_text : Value → Bool
is_text v = elim (as_text v) [ some s ↦ true | none ↦ false ]

guarded_fields : List Value → Result StoreError Guarded
unfolding guarded_round
guarded_fields fields =
    let is_source =
      (length fields == 3) && is_literal (field fields 0) (literal "source-declaration-v1") in
    let is_round = (length fields == 11) && is_text (field fields 2) in
    if not is_source && not is_round then ok plain else (do
      run ← or_fail (as_32_bytes (field fields 1)) guarded_run
      if is_source then ok (source_record run) else guarded_round run fields)

-- `guardedKind`: bytes that do not decode, or decode to no array, are not guarded.
unfoldable pub guarded_kind : Library → CanonicalRecord → Result StoreError Guarded
unfolding guarded_fields
guarded_kind lib r = elim (strict_decode_payload lib r.canonical) [
  | err e ↦ ok plain
  | ok payload ↦ elim (as_array payload) [ none ↦ ok plain | some fields ↦ guarded_fields fields ]
]

-- `validateGuardArguments`, for the two kinds that it is called with.
unfoldable pub validate_source : Guarded → Bytes → Result StoreError (Unit {0})
validate_source (source_record run) run_id = guard (bytes_equal run run_id) guard_kind
validate_source _ run_id = err guard_kind

unfoldable pub validate_round : Guarded → Bytes → ℤ → ℕ → Result StoreError (Unit {0})
validate_round (round_record run i o) run_id instant ordinal = do
  guard (bytes_equal run run_id) guard_kind
  guard (eqb_ℤ i instant && (o == ordinal)) guard_coordinate
validate_round _ run_id instant ordinal = err guard_kind

-- No seal is of the run.
unfoldable pub unsealed : Bytes → List AdmissionSeal → Bool
unsealed run_id [] = true
unsealed run_id (seal ∷ seals) = not (bytes_equal seal.run_id run_id) && unsealed run_id seals

abbrev pub covers : AdmissionSeal → Bytes → ℤ → ℕ → Bool
covers seal run_id instant ordinal =
    bytes_equal seal.run_id run_id
    && (ltb_ℤ instant seal.instant || (eqb_ℤ instant seal.instant && leb ordinal seal.ordinal))

-- No seal of the run is at or after the coordinate.
unfoldable pub uncovered : Bytes → ℤ → ℕ → List AdmissionSeal → Bool
uncovered run_id instant ordinal [] = true
uncovered run_id instant ordinal (seal ∷ seals) =
    not (covers seal run_id instant ordinal) && uncovered run_id instant ordinal seals

-- An error of the ingress guard is passed on.
abbrev pub wrap {ℓ} : {A : Type ℓ} → Result GuardError A → Result StoreError A
wrap r = map_err ingress r

-- The seals, checked one after another against a parsed ingress record.
unfoldable pub check_seals : List AdmissionSeal → Entry → Result StoreError (Unit {0})
check_seals [] entry = ok tt
check_seals (seal ∷ seals) entry = do
  wrap (
      check entry seal.run_id
        (record { not_before_instant = seal.instant; not_before_cycle_ordinal = seal.ordinal }))
  check_seals seals entry
