-- ===== src/Decision/Claims.antt =====
-- `DetectClaims` of internal/csf/decision/claims.go: the conflicts among the claims of candidates.
-- The order in which Go visits its maps shows only in which of several errors is returned: the
-- conflicts are sorted.
pub mod Conflicts
use cote_ai_simulation.Base.{
  ℕ, ◌+◌, ◌&&◌, Bool, false, not, ◌==◌, ltb, if◌then◌else◌, List, [], ◌∷◌, ◌++◌, some, none, length,
  Result, ok, err, ◌>>=◌, ◌>>◌, guard, or_fail,
}
use cote_ai_simulation.Base.Bytes.{Bytes, bytes_equal, literal, hex}
use cote_ai_simulation.Base.Int.{ℤ, pos, negsuc, int64_bound}
use cote_ai_simulation.Base.Sort.{sort}
use cote_ai_simulation.Domain.Patterns.{validate_machine_id}
use cote_ai_simulation.Value.{
  Value, text, byte_string, uint64, list, field, as_array, as_text, as_uint64, as_32_bytes,
}
use cote_ai_simulation.Codec.{canonical_payload}
use cote_ai_simulation.Identity.{Deriver, opaque_content_hash}
use cote_ai_simulation.Store.Maps.{lookup, put, entries}
use cote_ai_simulation.Ledger.Bodies.{bytes_at}
use cote_ai_simulation.Decision.{DecisionError, provenance, indeterminate, of_codec, bytes_ids}
use cote_ai_simulation.Decision.Responses.{derive, encode, positive_amount}
use cote_ai_simulation.Decision.Candidates.{
  Candidate, canonical_id_less, holds, are_sources, candidate_preimage, candidate_digest,
}

pub record Conflict : Type 0 where
  pub id : Bytes
  pub candidate_ids : List Bytes
  pub fields : List Value
  pub digest : Bytes
  pub canonical : Bytes

-- `group`
pub record Group : Type 0 where
  pub kind : ℕ
  pub key : Bytes
  pub participants : List Bytes

-- `map[string]map[domain.ID]bool`
abbrev Holders : Type 0
Holders = List (Bytes × List Bytes)

-- The maps of the loop over the candidates.
pub record Scan : Type 0 where
  pub groups : List Group
  pub resources_seen : List (Bytes × ℕ)
  pub resource_holders : Holders
  pub read_holders : Holders
  pub write_holders : Holders
  pub candidates_seen : List Bytes

-- `set[id] = true`
unfoldable pub include : Bytes → List Bytes → List Bytes
include id ids = if holds id ids then ids else ids ++ id ∷ []

-- `add`
unfoldable pub add_group : ℕ → Bytes → Bytes → List Group → List Group
add_group kind key id [] = record { kind = kind; key = key; participants = id ∷ [] } ∷ []
add_group kind key id (g ∷ gs) =
    let rest = add_group kind key id gs in
    if (g.kind == kind) && bytes_equal g.key key
    then record g { participants = include id g.participants } ∷ gs
    else g ∷ rest

abbrev add_all : ℕ → Bytes → List Bytes → List Group → List Group
add_all kind key [] gs = gs
add_all kind key (id ∷ ids) gs = add_all kind key ids (add_group kind key id gs)

-- The entry of a missing key is the empty map.
abbrev holders_of : Bytes → Holders → List Bytes
holders_of key m = elim (lookup key m) [ none ↦ [] | some ids ↦ ids ]

abbrev pub hold : Bytes → Bytes → Holders → Holders
hold key id m = put key (include id (holders_of key m)) m

abbrev amount_seen : Bytes → List (Bytes × ℕ) → ℕ
amount_seen key m = elim (lookup key m) [ none ↦ 0 | some n ↦ n ]

-- `sameBytes(sources[i], id[:])` for each source.
unfoldable pub are_listed : List Value → List Bytes → Bool
are_listed vs [] = length vs == 0
are_listed [] (id ∷ ids) = false
are_listed (v ∷ vs) (id ∷ ids) = bytes_at (v ∷ []) 0 id && are_listed vs ids

module _ (d : Deriver) (cycle : Bytes) where
  -- `verifyCandidateIdentity`
  unfoldable pub verify_candidate_identity : Candidate → Result DecisionError (Unit {0})
  verify_candidate_identity c = do
    guard ((length c.fields == 16) && (bytes_at c.fields 0 c.id && bytes_at c.fields 2 cycle))
        provenance
    run ← or_fail (as_32_bytes (field c.fields 1)) provenance
    sources ← or_fail (as_array (field c.fields 3)) provenance
    guard
        (not (length sources == 0)
          && (are_listed sources c.source_unit_ids && are_sources c.source_unit_ids))
        provenance
    producer ← or_fail (as_text (field c.fields 4)) provenance
    guard (validate_machine_id producer) provenance
    version ← or_fail (as_uint64 (field c.fields 5)) provenance
    guard (not (version == 0) && ltb version 4294967296) provenance
    role ← or_fail (as_uint64 (field c.fields 6)) provenance
    guard (ltb role 65536) provenance
    ordinal ← or_fail (as_uint64 (field c.fields 7)) provenance
    guard (ltb ordinal 4294967296) provenance
    elim (derive d "cote.csf.id.commit-candidate" "cote.csf.schema.candidate-id-preimage"
        (candidate_preimage run cycle c.source_unit_ids producer version role ordinal)) [
          | ok wanted ↦ guard (bytes_equal wanted c.id) provenance
          | err e ↦ err provenance
        ]

  -- The digest and the bytes of a candidate.
  unfoldable pub verify_candidate : Candidate → Result DecisionError (Unit {0})
  verify_candidate c = do
    verify_candidate_identity c
    elim (candidate_digest d c.fields) [
      | ok expected ↦ guard (bytes_equal expected c.digest) provenance
      | err e ↦ err provenance
    ]
    elim (encode d c.fields c.digest) [
      | ok raw ↦ guard (bytes_equal raw c.canonical) provenance
      | err e ↦ err provenance
    ]

module _ (resources : List (Bytes × ℤ)) (id : Bytes) where
  -- A resource claim: the holder and the running sum, which stays in int64.
  unfoldable pub scan_claim : Scan → Value → Result DecisionError Scan
  scan_claim s v = do
    claim ← or_fail (as_array v) provenance
    guard (length claim == 4) provenance
    resource ← or_fail (as_text (field claim 1)) provenance
    guard (validate_machine_id resource) provenance
    mode ← or_fail (as_uint64 (field claim 2)) indeterminate
    guard (mode == 1) indeterminate
    amount ← or_fail (positive_amount (field claim 3)) provenance
    known ← or_fail (lookup resource resources) indeterminate
    let seen = amount_seen resource s.resources_seen
    guard (ltb (seen + amount) int64_bound) indeterminate
    ok (record s {
      resource_holders = hold resource id s.resource_holders;
      resources_seen = put resource (seen + amount) s.resources_seen;
    })

  unfoldable pub scan_claims : Scan → List Value → Result DecisionError Scan
  scan_claims s [] = ok s
  scan_claims s (v ∷ vs) = do next ← scan_claim s v; scan_claims next vs

-- The invariants that a candidate touches.
unfoldable pub scan_invariants : Bytes → List Group → List Value → Result DecisionError (List Group)
scan_invariants id gs [] = ok gs
scan_invariants id gs (v ∷ vs) = do
  name ← or_fail (as_text v) provenance
  guard (validate_machine_id name) provenance
  scan_invariants id (add_group 2 name id gs) vs

module _ (d : Deriver) where
  -- References are grouped by the hash of their bytes.
  unfoldable pub scan_refs : Bytes → Holders → List Value → Result DecisionError Holders
  scan_refs id m [] = ok m
  scan_refs id m (v ∷ vs) = do
    raw ← of_codec (canonical_payload d.codec v)
    scan_refs id (hold (literal "claim." ++ hex (opaque_content_hash d raw)) id m) vs

module _ (d : Deriver) (cycle : Bytes) (resources : List (Bytes × ℤ)) where
  -- The body of the loop over the candidates.
  unfoldable pub scan_candidate : Scan → Candidate → Result DecisionError Scan
  scan_candidate s c = do
    guard (not (holds c.id s.candidates_seen) && (length c.fields == 16)) provenance
    verify_candidate d cycle c
    claims ← or_fail (as_array (field c.fields 9)) provenance
    claimed ← scan_claims resources c.id s claims
    read ← or_fail (as_array (field c.fields 10)) provenance
    write ← or_fail (as_array (field c.fields 11)) provenance
    readers ← scan_refs d c.id s.read_holders read
    writers ← scan_refs d c.id s.write_holders write
    invariants ← or_fail (as_array (field c.fields 12)) provenance
    groups ← scan_invariants c.id s.groups invariants
    ok (record claimed {
      groups = groups;
      read_holders = readers;
      write_holders = writers;
      candidates_seen = c.id ∷ s.candidates_seen;
    })

  unfoldable pub scan_candidates : Scan → List Candidate → Result DecisionError Scan
  scan_candidates s [] = ok s
  scan_candidates s (c ∷ cs) = do next ← scan_candidate s c; scan_candidates next cs
