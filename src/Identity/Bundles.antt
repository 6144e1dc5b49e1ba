-- ===== src/Identity/Bundles.antt =====
-- internal/csf/policy/bundle.go: the pinned bundle and what it is read from. Its registries, as
-- `Operation` reads them, are the `Bundle` of Identity.
pub mod Manifests
pub mod Receipts
pub mod Receipted
pub mod Genesis
pub mod Load
pub mod Artifacts
pub mod Verified
pub mod Policies
use cote_ai_simulation.Base.{
  ℕ, Bool, not, List, [], ◌∷◌, Option, some, none, Result, ok, err, guard, or_fail, ◌>>=◌, ◌>>◌,
  if◌then◌else◌,
}
use cote_ai_simulation.Base.Bytes.{Bytes, literal, bytes_equal}
use cote_ai_simulation.Base.Int.{ℤ}
use cote_ai_simulation.Value.{Value, Entries, null, text, empty, entry, is_literal}
use cote_ai_simulation.Codec.{CodecError}

pub data BundleError : Type 0 where
  file_missing undecodable trailing_value invalid_receipt_line raw_manifest_mismatch
        receipt_mismatch invalid_manifest invalid_artifact not_basename duplicate_artifact
        artifact_mismatch bootstrap_mismatch unsupported_profile roles_missing invalid_role
        bad_genesis_fixture no_policy_set bad_policy_ref bad_policy_hash policies_missing panicked :
      BundleError
  bad_envelope_of : CodecError → BundleError

-- `manifest`, without the ID that no code reads; an artifact is a tuple of raw JSON values.
pub record Manifest : Type 0 where
  pub manifest_version : ℕ
  pub artifacts : List (List Bytes)

-- What the source takes from encoding/json: a decoder that refuses unknown fields, at the two types
-- it is used at, whether more stands behind the first value, and `json.Unmarshal` into a string and
-- an int64. An object is decoded to a map with text keys.
pub record Json : Type 0 where
  pub decode_manifest : Bytes → Option Manifest
  pub decode_object : Bytes → Option Entries
  pub more : Bytes → Bool
  pub unmarshal_string : Bytes → Option Bytes
  pub unmarshal_int64 : Bytes → Option ℤ

-- `decodeStrict`, over the decoder at the type of the target.
abbrev pub decode_strict : {A : Type 0} → Json → (Bytes → Option A) → Bytes → Result BundleError A
decode_strict json decode raw = do
  value ← or_fail (decode raw) undecodable
  guard (not (json.more raw)) trailing_value
  ok value

-- The value under a key of a decoded object, which is `nil` where there is none.
unfoldable pub member : Bytes → Entries → Value
member k empty = null
member k (entry key item es) = let rest = member k es in if is_literal key k then item else rest

abbrev pub codec_policy_hash_hex : Bytes
codec_policy_hash_hex = literal "513111dc82a5e58c07aecdabf410633f5aa5418908d2461ef0dff0d9ae5d8203"

abbrev pub schema_bundle_hash_hex : Bytes
schema_bundle_hash_hex = literal "ef7c1e4cec18f1491e4b72bd7dd35f49a1c28d77a5bdd89d435122074f5cba18"

abbrev pub suite_hash_hex : Bytes
suite_hash_hex = literal "05a226340c4211045d6f3df8f034434f3ac336001158379833f7230df4038dfd"
