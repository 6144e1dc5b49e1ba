-- ===== src/Identity/Bundles/Policies.antt =====
-- internal/csf/policy/bundle.go: `RequiredPolicyRoles` and `GenesisPolicyRefs`.
use cote_ai_simulation.Base.{
  ◌==◌, List, [], ◌∷◌, Option, some, none, Result, ok, guard, or_fail, map_err, length, not,
  if◌then◌else◌, ◌>>=◌, ◌>>◌,
}
use cote_ai_simulation.Base.Bytes.{Bytes, literal}
use cote_ai_simulation.Base.Strings.{unhex}
use cote_ai_simulation.Value.{
  Value, Entries, mapping, byte_string, is_literal, as_array, as_text, as_32_bytes, field,
}
use cote_ai_simulation.Codec.{Library, strict_decode_envelope}
use cote_ai_simulation.Identity.Bundles.{
  BundleError, Json, member, roles_missing, invalid_role, bad_genesis_fixture, bad_envelope_of,
  no_policy_set, bad_policy_ref, bad_policy_hash, policies_missing, panicked,
}
use cote_ai_simulation.Identity.Bundles.Load.{PolicyBundle, decode_strict_json}

-- The loop over the roles.
unfoldable pub read_roles : List Value → Result BundleError (List Bytes)
read_roles [] = ok []
read_roles (v ∷ vs) = do
  role ← or_fail (as_text v) invalid_role
  roles ← read_roles vs
  ok (role ∷ roles)

-- `RequiredPolicyRoles`
unfoldable pub required_policy_roles : PolicyBundle → Result BundleError (List Bytes)
required_policy_roles b = do
  vs ←
      or_fail (as_array (member (literal "required_genesis_policy_roles") b.transitions))
        roles_missing
  read_roles vs

-- `v.(map[string]any)`
abbrev pub as_mapping : Value → Option Entries
as_mapping (mapping es) = some es
as_mapping _ = none

-- One reference of the fixture, its hash cloned.
unfoldable pub read_policy_ref : Value → Result BundleError (List Value)
read_policy_ref v = do
  ref ← or_fail (as_array v) bad_policy_ref
  guard (length ref == 3) bad_policy_ref
  hash ← or_fail (as_32_bytes (field ref 2)) bad_policy_hash
  ok (field ref 0 ∷ field ref 1 ∷ byte_string hash ∷ [])

unfoldable pub read_policy_refs : List Value → Result BundleError (List (List Value))
read_policy_refs [] = ok []
read_policy_refs (v ∷ vs) = do ref ← read_policy_ref v; refs ← read_policy_refs vs; ok (ref ∷ refs)

module _ (lib : Library) (json : Json) where
  -- What the loop does with the fixture of the pinned genesis.
  unfoldable pub read_fixture : Entries → Result BundleError (List (List Value))
  read_fixture item = do
    digits ← or_fail (as_text (member (literal "genesis_envelope_hex") item)) panicked
    encoded ← or_fail (unhex digits) bad_genesis_fixture
    envelope ← map_err bad_envelope_of (strict_decode_envelope lib encoded)
    payload ← or_fail (as_array envelope.value) bad_genesis_fixture
    guard (length payload == 18) bad_genesis_fixture
    policies ← or_fail (as_array (field payload 14)) no_policy_set
    read_policy_refs policies

  -- The loop over the fixtures, which ends at the pinned genesis; a type assertion that fails
  -- panics.
  unfoldable pub find_fixture : List Value → Result BundleError (List (List Value))
  find_fixture [] = ok []
  find_fixture (v ∷ vs) =
      let rest = find_fixture vs in
      (or_fail (as_mapping v) panicked >>= λ item.
      if is_literal (member (literal "case_id") item) (literal "genesis.pinning")
      then read_fixture item
      else rest)

  -- `GenesisPolicyRefs`
  unfoldable pub genesis_policy_refs : PolicyBundle → Result BundleError (List (List Value))
  genesis_policy_refs b = do
    fixtures ← decode_strict_json b.files json (literal "fixtures.json")
    semantic ← or_fail (as_array (member (literal "semantic") fixtures)) panicked
    refs ← find_fixture semantic
    guard (not (length refs == 0)) policies_missing
    ok refs
