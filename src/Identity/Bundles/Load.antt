-- ===== src/Identity/Bundles/Load.antt =====
-- internal/csf/policy/bundle.go: `Load`.
use cote_ai_simulation.Base.{
  ◌&&◌, ◌==◌, Option, Result, ok, guard, or_fail, ◌>>=◌, ◌>>◌, Bool, false,
}
use cote_ai_simulation.Base.Bytes.{Bytes, literal, bytes_equal, hex}
use cote_ai_simulation.Value.{Value, Entries, float64, is_literal}
use cote_ai_simulation.Identity.Bundles.{
  BundleError, Json, decode_strict, member, file_missing, bootstrap_mismatch, unsupported_profile,
  codec_policy_hash_hex, schema_bundle_hash_hex, suite_hash_hex,
}
use cote_ai_simulation.Identity.Bundles.Manifests.{verify_manifest}
use cote_ai_simulation.Identity.Bundles.Receipts.{verify_receipt_file}

-- `Bundle`, with what `os.ReadFile` reads below its directory.
pub record PolicyBundle : Type 0 where
  pub files : Bytes → Option Bytes
  pub profile : Entries
  pub registries : Entries
  pub transitions : Entries
  pub codec_policy_hash : Bytes
  pub schema_hash : Bytes
  pub suite_hash : Bytes

-- One of the checks of `Load`: the manifest, the prefix of its hash and the hash that is expected.
pub record Check : Type 0 where
  pub manifest : Bytes
  pub prefix : Bytes
  pub expected : Bytes

abbrev pub policy_check : Check
policy_check = record {
  manifest = literal "policy-manifest.json";
  prefix = literal "cote.csf.bundle.codec-policy.v1";
  expected = codec_policy_hash_hex;
}

abbrev pub schema_check : Check
schema_check = record {
  manifest = literal "schema-manifest.json";
  prefix = literal "cote.csf.bundle.schema.v1";
  expected = schema_bundle_hash_hex;
}

abbrev pub suite_check : Check
suite_check = record {
  manifest = literal "conformance-manifest.json";
  prefix = literal "cote.csf.bundle.conformance.v1";
  expected = suite_hash_hex;
}

-- `v == float64(1)` on an `any`.
abbrev pub is_one : Value → Bool
is_one (float64 bits) = bits == 4_607_182_418_800_017_408
is_one _ = false

module _ (files : Bytes → Option Bytes) (json : Json) where
  -- `decodeStrictJSON`
  unfoldable pub decode_strict_json : Bytes → Result BundleError Entries
  decode_strict_json name = do
    raw ← or_fail (files name) file_missing
    decode_strict json json.decode_object raw

module _ (files : Bytes → Option Bytes) (json : Json) (sha256 : Bytes → Bytes) where
  -- The body of the loop over the checks.
  unfoldable pub run_check : Check → Result BundleError Bytes
  run_check check = do
    hash ← verify_manifest files json sha256 check.manifest check.prefix
    guard (bytes_equal (hex hash) check.expected) bootstrap_mismatch
    ok hash

  -- `Load`
  unfoldable pub load : Result BundleError PolicyBundle
  load = do
    verify_receipt_file files sha256
    codec_policy_hash ← run_check policy_check
    schema_hash ← run_check schema_check
    suite_hash ← run_check suite_check
    profile ← decode_strict_json files json (literal "profile.json")
    registries ← decode_strict_json files json (literal "registries.json")
    transitions ← decode_strict_json files json (literal "causal-transition-contracts.json")
    guard
        (is_literal (member (literal "codec_policy_id") profile)
            (literal "cote.csf.codec.cbor-det.v1")
          && is_one (member (literal "codec_version") profile))
        unsupported_profile
    ok (record {
      files = files;
      profile = profile;
      registries = registries;
      transitions = transitions;
      codec_policy_hash = codec_policy_hash;
      schema_hash = schema_hash;
      suite_hash = suite_hash;
    })
