-- ===== src/Decision/Policies.antt =====
-- internal/csf/decision/kernel.go: `policyRefs`, the references of the policy roles from the
-- pinned bundle.
pub mod Bound
use cote_ai_simulation.Base.{
  Bool, true, false, ◌&&◌, ◌==◌, not, List, [], ◌∷◌, Option, some, none, Result, ok, err, guard,
  or_fail, map_err, length, if◌then◌else◌, ◌>>=◌, ◌>>◌,
}
use cote_ai_simulation.Base.Bytes.{Bytes, literal, bytes_equal}
use cote_ai_simulation.Value.{Value, is_literal, as_array, as_text, field}
use cote_ai_simulation.Codec.{Library}
use cote_ai_simulation.Store.Maps.{lookup, put, entries}
use cote_ai_simulation.Identity.Bundles.{BundleError, Json, member}
use cote_ai_simulation.Identity.Bundles.Manifests.{is_seen}
use cote_ai_simulation.Identity.Bundles.Load.{PolicyBundle}
use cote_ai_simulation.Identity.Bundles.Policies.{
  required_policy_roles, genesis_policy_refs, as_mapping,
}
use cote_ai_simulation.Decision.{PolicyRefs}

pub data PolicyError : Type 0 where
  no_bundle inconsistent_bindings invalid_binding invalid_genesis_role malformed_ref malformed_id
        unbound_role missing_policy different_roles :
      PolicyError
  not_read : BundleError → PolicyError

-- The loop over the pinned references: the first one of the ID.
unfoldable pub pinned_ref : List (List Value) → Bytes → Option (List Value)
pinned_ref [] name = none
pinned_ref (ref ∷ refs) name =
    let rest = pinned_ref refs name in
    if (length ref == 3) && is_literal (field ref 0) name then some ref else rest

-- The ID that a role is bound to: one policy of perception is another one's variant.
abbrev pub bound_name : Bytes → Bytes → Bytes
bound_name role name =
    if bytes_equal role (literal "perception")
      && bytes_equal name (literal "perception-visible-first-v1")
    then literal "perception-v1"
    else name

-- What is read of a binding, with the roles that were declared before it.
unfoldable pub read_binding : List Bytes → Value → Result PolicyError (Bytes × Bytes)
read_binding declared item = do
  binding ← or_fail (as_mapping item) invalid_binding
  role ← or_fail (as_text (member (literal "role") binding)) invalid_genesis_role
  guard (not (is_seen role declared)) invalid_genesis_role
  ref ← or_fail (as_array (member (literal "ref") binding)) malformed_ref
  guard (length ref == 3) malformed_ref
  name ← or_fail (as_text (field ref 0)) malformed_id
  ok (role, bound_name role name)

-- The loop over the bindings.
unfoldable pub bind_roles :
    List (List Value)
    → List Bytes
    → List (Bytes × List Value)
    → List Value
    → Result PolicyError (List (Bytes × List Value))
bind_roles refs declared result [] = ok result
bind_roles refs declared result (item ∷ items) = do
  bound ← read_binding declared item
  pinned ← or_fail (pinned_ref refs bound.1) unbound_role
  bind_roles refs (bound.0 ∷ declared) (put bound.0 pinned result) items

unfoldable pub all_bound : List (Bytes × List Value) → List Bytes → Bool
all_bound result [] = true
all_bound result (r ∷ rs) = elim (lookup r result) [ none ↦ false | some ref ↦ all_bound result rs ]

-- `policyRefs`
unfoldable pub policy_refs :
    Library → Json → Option PolicyBundle → Result PolicyError (List (Bytes × List Value))
policy_refs lib json bundle = do
  b ← or_fail bundle no_bundle
  roles ← map_err not_read (required_policy_roles b)
  refs ← map_err not_read (genesis_policy_refs lib json b)
  bindings ←
      or_fail (as_array (member (literal "genesis_policy_bindings") b.transitions))
        inconsistent_bindings
  guard (length bindings == length roles && length refs == length roles) inconsistent_bindings
  result ← bind_roles refs [] [] bindings
  guard (all_bound result roles) missing_policy
  guard (length (entries result) == length roles) different_roles
  ok result

-- `refs[role]` in `Run`, which is empty where there is none.
abbrev pub role_ref : List (Bytes × List Value) → Bytes → List Value
role_ref result role = elim (lookup role result) [ none ↦ [] | some ref ↦ ref ]

abbrev pub refs_of : List (Bytes × List Value) → PolicyRefs
refs_of result = record {
  validators = role_ref result (literal "validators");
  conflict_resolvers = role_ref result (literal "conflict-resolvers");
  rng = role_ref result (literal "rng");
  idempotency = role_ref result (literal "idempotency");
}
