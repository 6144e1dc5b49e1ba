-- ===== src/Identity.antt =====
-- internal/csf/policy/bundle.go (`Operation`) and internal/csf/identity/deriver.go: the registered
-- causal operations, and the derivation of an ID or a digest.
pub mod Bundles
use cote_ai_simulation.Base.{
  ℕ, Bool, false, ◌&&◌, ◌==◌, if◌then◌else◌, List, [], ◌∷◌, Option, some, none, Result, ok, err,
  ◌>>=◌,
}
use cote_ai_simulation.Base.Bytes.{Bytes}
use cote_ai_simulation.Value.{Value, is_literal}
use cote_ai_simulation.Codec.{Library, CodecError, canonical_bytes}

-- An entry of a decoded JSON registry: the three fields of an array, of which the version is the
-- uint32 of the JSON number (`none` where it is no number), or anything else.
pub data RegistryEntry : Type 0 where
  fields : Value → Value → Option ℕ → RegistryEntry
  invalid_entry : RegistryEntry

-- The two registries of a bundle that `Operation` reads; `none` is a missing one.
pub record Bundle : Type 0 where
  pub domain_operations : Option (List RegistryEntry)
  pub fixture_domain_operations : Option (List RegistryEntry)

pub record Operation : Type 0 where
  pub domain_tag : Bytes
  pub schema_id : Bytes
  pub schema_version : ℕ

pub data IdentityError : Type 0 where
  registry_missing invalid_registry_entry unregistered_operation : IdentityError
  not_encoded : CodecError → IdentityError

abbrev is_version : Option ℕ → ℕ → Bool
is_version none v = false
is_version (some n) v = n == v

-- The inner loop, over the entries of one registry; `none` where no entry matches.
unfoldable pub find_operation :
    List RegistryEntry → Bytes → Bytes → ℕ → Result IdentityError (Option Operation)
find_operation [] tag schema version = ok none
find_operation (invalid_entry ∷ es) tag schema version = err invalid_registry_entry
find_operation (fields t s v ∷ es) tag schema version =
    let rest = find_operation es tag schema version in
    if is_literal t tag && is_literal s schema && is_version v version
    then ok (some (record { domain_tag = tag; schema_id = schema; schema_version = version }))
    else rest

-- The outer loop, over the registries that are searched.
unfoldable pub find_in :
    List (Option (List RegistryEntry)) → Bytes → Bytes → ℕ → Result IdentityError Operation
find_in [] tag schema version = err unregistered_operation
find_in (none ∷ rs) tag schema version = err registry_missing
find_in (some es ∷ rs) tag schema version =
    let rest = find_in rs tag schema version in
    (find_operation es tag schema version >>= λ found. elim found [ some o ↦ ok o | none ↦ rest ])

-- `Bundle.Operation`
unfoldable pub operation : Bundle → Bytes → Bytes → ℕ → Bool → Result IdentityError Operation
operation b tag schema version include_fixtures =
    find_in
      (b.domain_operations ∷ (if include_fixtures then b.fixture_domain_operations ∷ [] else []))
      tag schema version

-- `Deriver`, with the codec's library and the SHA-256 function.
pub record Deriver : Type 0 where
  pub bundle : Bundle
  pub include_fixtures : Bool
  pub codec : Library
  pub sha256 : Bytes → Bytes

-- `Deriver.Sum`: the digest; the encoded bytes that Go also returns are those that are hashed.
unfoldable pub sum : Deriver → Bytes → Bytes → ℕ → Value → Result IdentityError Bytes
sum d tag schema version value = do
  o ← operation d.bundle tag schema version d.include_fixtures
  encoded ← elim (canonical_bytes d.codec o.domain_tag o.schema_id o.schema_version value) [
    | ok b ↦ ok b
    | err e ↦ err (not_encoded e)
  ]
  ok (d.sha256 encoded)

-- `OpaqueContentHash`
abbrev pub opaque_content_hash : Deriver → Bytes → Bytes
opaque_content_hash d content = d.sha256 content
