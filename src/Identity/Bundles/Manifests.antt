-- ===== src/Identity/Bundles/Manifests.antt =====
-- internal/csf/policy/bundle.go: `verifyManifest`.
use cote_ai_simulation.Base.{
  Bool, false, not, ◌&&◌, ◌||◌, ◌==◌, List, [], ◌∷◌, ◌++◌, length, Option, Result, ok, err, guard,
  or_fail, ◌>>=◌, ◌>>◌,
}
use cote_ai_simulation.Base.Bytes.{Bytes, bytes_equal, hex}
use cote_ai_simulation.Base.Strings.{file_base, has_byte}
use cote_ai_simulation.Base.Int.{ℤ, pos, eqb_ℤ}
use cote_ai_simulation.Identity.Bundles.{
  BundleError, Json, decode_strict, file_missing, invalid_manifest, invalid_artifact, not_basename,
  duplicate_artifact, artifact_mismatch,
}

unfoldable pub is_seen : Bytes → List Bytes → Bool
is_seen x [] = false
is_seen x (y ∷ ys) = bytes_equal x y || is_seen x ys

-- A tuple of a manifest, once its three values are read.
pub record Artifact : Type 0 where
  pub name : Bytes
  pub size : ℤ
  pub expected : Bytes

-- `files` is what `os.ReadFile` reads below the bundle's directory, and `sha256` the hash.
module _ (files : Bytes → Option Bytes) (json : Json) (sha256 : Bytes → Bytes) where
  unfoldable pub read_artifact : List Bytes → Result BundleError Artifact
  read_artifact (a ∷ b ∷ c ∷ []) = do
    name ← or_fail (json.unmarshal_string a) invalid_artifact
    size ← or_fail (json.unmarshal_int64 b) invalid_artifact
    expected ← or_fail (json.unmarshal_string c) invalid_artifact
    ok (record { name = name; size = size; expected = expected })
  read_artifact _ = err invalid_artifact

  -- A name without a directory: no backslash, and its own base.
  abbrev pub is_basename : Bytes → Bool
  is_basename name =
      not (bytes_equal name []) && (bytes_equal (file_base name) name && not (has_byte 92 name))

  -- What is tested of a file against its artifact.
  abbrev pub is_pinned : Artifact → Bytes → Bool
  is_pinned a content =
      eqb_ℤ (pos (length content)) a.size && bytes_equal (hex (sha256 content)) a.expected

  -- The loop over the artifacts.
  unfoldable pub verify_artifacts : List Bytes → List (List Bytes) → Result BundleError (Unit {0})
  verify_artifacts seen [] = ok tt
  verify_artifacts seen (fields ∷ rest) = do
    a ← read_artifact fields
    guard (is_basename a.name) not_basename
    guard (not (is_seen a.name seen)) duplicate_artifact
    content ← or_fail (files a.name) file_missing
    guard (is_pinned a content) artifact_mismatch
    verify_artifacts (a.name ∷ seen) rest

  -- `verifyManifest`
  unfoldable pub verify_manifest : Bytes → Bytes → Result BundleError Bytes
  verify_manifest name prefix = do
    raw ← or_fail (files name) file_missing
    parsed ← decode_strict json json.decode_manifest raw
    guard (parsed.manifest_version == 1 && not (length parsed.artifacts == 0)) invalid_manifest
    verify_artifacts [] parsed.artifacts
    ok (sha256 (prefix ++ (0 ∷ raw)))
