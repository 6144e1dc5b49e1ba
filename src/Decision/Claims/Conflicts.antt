-- ===== src/Decision/Claims/Conflicts.antt =====
-- internal/csf/decision/claims.go (DetectClaims): the conflicts of what a scan of the claims has found.
use cote_ai_simulation.Base.{
  ℕ, Bool, ltb, if◌then◌else◌, List, [], ◌∷◌, some, none, length, Result, ok, err, ◌>>=◌,
}
use cote_ai_simulation.Base.Bytes.{Bytes}
use cote_ai_simulation.Base.Int.{ℤ, pos, negsuc}
use cote_ai_simulation.Base.Sort.{sort}
use cote_ai_simulation.Value.{Value, text, byte_string, uint64, list}
use cote_ai_simulation.Identity.{Deriver}
use cote_ai_simulation.Store.Maps.{lookup, entries}
use cote_ai_simulation.Decision.{DecisionError, indeterminate, bytes_ids}
use cote_ai_simulation.Decision.Responses.{derive, encode}
use cote_ai_simulation.Decision.Candidates.{Candidate, canonical_id_less}
use cote_ai_simulation.Decision.Claims.{
  Conflict, Group, Holders, Scan, include, add_all, holders_of, amount_seen, scan_candidates,
}

-- The claims of a resource exceed what there is of it.
unfoldable pub is_exceeded : List (Bytes × ℤ) → Bytes → ℕ → Result DecisionError Bool
is_exceeded resources resource seen = elim (lookup resource resources) [
  | none ↦ ok (ltb 0 seen)
  | some available ↦ elim available [ pos n ↦ ok (ltb n seen) | negsuc n ↦ err indeterminate ]
]

unfoldable pub group_resources :
    List (Bytes × ℤ) → List (Bytes × ℕ) → Holders → List Group → Result DecisionError (List Group)
group_resources resources seen [] gs = ok gs
group_resources resources seen ((resource, ids) ∷ m) gs = do
  exceeded ← is_exceeded resources resource (amount_seen resource seen)
  group_resources resources seen m (if exceeded then add_all 0 resource ids gs else gs)

abbrev union : List Bytes → List Bytes → List Bytes
union xs [] = xs
union xs (y ∷ ys) = union (include y xs) ys

-- A reference that one candidate writes and another reads or writes.
unfoldable pub group_writes : Holders → Holders → List Group → List Group
group_writes readers [] gs = gs
group_writes readers ((ref, writers) ∷ m) gs =
    let ids = union (holders_of ref readers) writers in
    group_writes readers m (if ltb (length ids) 2 then gs else add_all 1 ref ids gs)

module _ (d : Deriver) (cycle : Bytes) (detector resolver : List Value) where
  unfoldable pub make_conflict : Group → Result DecisionError Conflict
  make_conflict g = do
    let ids = sort canonical_id_less g.participants
    id ←
        derive d "cote.csf.id.conflict-set" "cote.csf.schema.conflict-set-id-preimage"
          (list (byte_string cycle ∷ bytes_ids ids ∷ uint64 g.kind ∷ text g.key ∷ []))
    let fields =
        byte_string id
        ∷ bytes_ids ids
        ∷ uint64 g.kind
        ∷ text g.key
        ∷ list detector
        ∷ list resolver
        ∷ []
    digest ←
        derive d "cote.csf.digest.conflict-set" "cote.csf.schema.conflict-set.body" (list fields)
    canonical ← encode d fields digest
    ok (record {
      id = id;
      candidate_ids = ids;
      fields = fields;
      digest = digest;
      canonical = canonical;
    })

  -- A group of one candidate is no conflict.
  unfoldable pub make_conflicts : List Group → Result DecisionError (List Conflict)
  make_conflicts [] = ok []
  make_conflicts (g ∷ gs) =
      let rest = make_conflicts gs in
      if ltb (length g.participants) 2
      then rest
      else (make_conflict g >>= λ c. (rest >>= λ cs. ok (c ∷ cs)))

  abbrev conflict_less : Conflict → Conflict → Bool
  conflict_less a b = canonical_id_less a.id b.id

  -- `DetectClaims`
  unfoldable pub detect_claims :
      List Candidate → List (Bytes × ℤ) → Result DecisionError (List Conflict)
  detect_claims candidates resources = do
    let start : Scan = record {
      groups = [];
      resources_seen = [];
      resource_holders = [];
      read_holders = [];
      write_holders = [];
      candidates_seen = [];
    }
    s ← scan_candidates d cycle resources start candidates
    groups ← group_resources resources s.resources_seen (entries s.resource_holders) s.groups
    conflicts ← make_conflicts (group_writes s.read_holders (entries s.write_holders) groups)
    ok (sort conflict_less conflicts)
