-- ===== src/Tests/Policies.antt =====
-- An example of the references of the policy roles (internal/csf/decision/kernel.go, `policyRefs`).
use cote_ai_simulation.Base.{◌≡◌, refl, List, [], ◌∷◌, ◌++◌, some, ok}
use cote_ai_simulation.Base.Bytes.{literal, bytes_equal, zero_id}
use cote_ai_simulation.Base.Strings.{unhex}
use cote_ai_simulation.Value.{Value, null, text, uint64, byte_string, list, as_32_bytes}
use cote_ai_simulation.Domain.Patterns.{validate_domain_tag}
use cote_ai_simulation.Codec.{
  strict_decode_payload, strict_decode_envelope, canonical_payload, normalize, normalize_text,
  contains_unassigned, search_unassigned,
}
use cote_ai_simulation.Codec.ReadBack.{read_back}
use cote_ai_simulation.Store.Maps.{lookup, without, entries}
use cote_ai_simulation.Identity.Bundles.{member}
use cote_ai_simulation.Identity.Bundles.Manifests.{is_seen}
use cote_ai_simulation.Identity.Bundles.Load.{decode_strict_json}
use cote_ai_simulation.Identity.Bundles.Policies.{
  read_roles, required_policy_roles, read_policy_ref, read_policy_refs, read_fixture, find_fixture,
  genesis_policy_refs,
}
use cote_ai_simulation.Decision.Policies.{
  pinned_ref, read_binding, bind_roles, all_bound, policy_refs, refs_of,
}
use cote_ai_simulation.Decision.Policies.Bound.{ArePinned, policy_refs-ArePinned}
use cote_ai_simulation.Tests.Indexed.{indexed, place, at_place, same}
use cote_ai_simulation.Tests.Bundles.{decoders, loaded}

abbrev rng_ref : List Value
rng_ref = text (literal "rng-v1") ∷ uint64 1 ∷ byte_string zero_id ∷ []

abbrev genesis_payload : List Value
genesis_payload =
    (null ∷ null ∷ null ∷ null ∷ null ∷ null ∷ null ∷ [])
    ++ (null ∷ null ∷ null ∷ null ∷ null ∷ null ∷ null ∷ [])
    ++ (list (list rng_ref ∷ []) ∷ null ∷ null ∷ null ∷ [])

abbrev genesis : List Value
genesis =
    list (
      byte_string (67 ∷ 83 ∷ 70 ∷ 0 ∷ [])
      ∷ uint64 1
      ∷ text (literal "cote.csf.genesis.v1")
      ∷ text (literal "cote.csf.genesis.v1")
      ∷ uint64 1
      ∷ list genesis_payload
      ∷ [])
    ∷ []

roles_bound :
    policy_refs (indexed genesis) decoders (some loaded) ≡ ok ((literal "rng", rng_ref) ∷ [])
unfolding policy_refs all_bound bind_roles read_binding pinned_ref required_policy_roles read_roles
    genesis_policy_refs find_fixture read_fixture read_policy_refs read_policy_ref
    decode_strict_json is_seen member lookup without entries strict_decode_envelope
    strict_decode_payload canonical_payload normalize normalize_text contains_unassigned
    search_unassigned validate_domain_tag bytes_equal as_32_bytes unhex place at_place same
    read_back
roles_bound = refl

policy_refs-ArePinned_example :
    ArePinned (indexed genesis) decoders loaded ((literal "rng", rng_ref) ∷ [])
policy_refs-ArePinned_example =
    policy_refs-ArePinned (indexed genesis) decoders loaded ((literal "rng", rng_ref) ∷ [])
      roles_bound

-- What `Run` finds of it: the reference of the draw, and none for another role.
rng_found : (refs_of ((literal "rng", rng_ref) ∷ [])).rng ≡ rng_ref
unfolding lookup bytes_equal
rng_found = refl

validators_missing : (refs_of ((literal "rng", rng_ref) ∷ [])).validators ≡ []
unfolding lookup bytes_equal
validators_missing = refl
