-- ===== src/Tests/Bundles.antt =====
-- An example of a bundle that loads (internal/csf/policy/bundle.go).
use cote_ai_simulation.Base.{
  ◌≡◌, ◌↔◌, refl, false, [], ◌∷◌, ◌++◌, Option, some, none, ok, ◌==◌, if◌then◌else◌,
}
use cote_ai_simulation.Base.Bytes.{Bytes, literal, bytes_equal, hex, zero_id}
use cote_ai_simulation.Base.Strings.{fields_of, trim_space, split_lines, file_base, has_byte, unhex}
use cote_ai_simulation.Base.Int.{pos}
use cote_ai_simulation.Value.{Entries, empty, entry, text, float64, list, mapping}
use cote_ai_simulation.Store.Maps.{lookup}
use cote_ai_simulation.Identity.Bundles.{
  Json, member, codec_policy_hash_hex, schema_bundle_hash_hex, suite_hash_hex,
}
use cote_ai_simulation.Identity.Bundles.Manifests.{
  is_seen, read_artifact, verify_artifacts, verify_manifest,
}
use cote_ai_simulation.Identity.Bundles.Receipts.{
  has_value, read_line, read_lines, verify_receipt_file,
}
use cote_ai_simulation.Identity.Bundles.Load.{PolicyBundle, run_check, decode_strict_json, load}
use cote_ai_simulation.Identity.Bundles.Verified.{
  IsVerified, IsLoaded, verify_manifest_iff, load-IsLoaded,
}

words_split :
    fields_of (literal " sha256\t 0a  x ") ≡ literal "sha256" ∷ literal "0a" ∷ literal "x" ∷ []
unfolding fields_of
words_split = refl

-- Behind a no-break space and an ideographic one.
unicode_trimmed : trim_space (194 ∷ 160 ∷ 97 ∷ 32 ∷ 98 ∷ 227 ∷ 128 ∷ 128 ∷ 10 ∷ []) ≡ literal "a b"
unfolding trim_space
unicode_trimmed = refl

base_of_path : file_base (literal "a/b//") ≡ literal "b"
unfolding file_base
base_of_path = refl

abbrev pub bytes_of_hex : Bytes → Bytes
unfolding unhex
bytes_of_hex s = elim (unhex s) [ none ↦ [] | some b ↦ b ]

-- A hash for the example, by the last byte.
abbrev pub digest : Bytes → Bytes
digest [] = zero_id
digest (x ∷ []) =
    if x == 1
    then bytes_of_hex codec_policy_hash_hex
    else if x == 2
    then bytes_of_hex schema_bundle_hash_hex
    else if x == 3
    then bytes_of_hex suite_hash_hex
    else zero_id
digest (x ∷ y ∷ b) = digest (y ∷ b)

abbrev pub zero_hex : Bytes
unfolding hex
zero_hex = hex zero_id

abbrev pub receipt_file : Bytes
unfolding hex
receipt_file =
    literal "codec_policy_hash "
    ++ codec_policy_hash_hex
    ++ (10 ∷ [])
    ++ literal "schema_bundle_hash "
    ++ schema_bundle_hash_hex
    ++ (10 ∷ [])
    ++ literal "conformance_suite_hash "
    ++ suite_hash_hex
    ++ (10 ∷ [])
    ++ literal "sha256 "
    ++ zero_hex
    ++ literal " f"
    ++ (10 ∷ [])

-- The files of the directory, most of one byte that stands for what it decodes to.
abbrev pub directory : Bytes → Option Bytes
unfolding lookup
directory name = lookup name (
    (literal "BUNDLE.sha256", receipt_file)
    ∷ (literal "policy-manifest.json", 1 ∷ [])
    ∷ (literal "schema-manifest.json", 2 ∷ [])
    ∷ (literal "conformance-manifest.json", 3 ∷ [])
    ∷ (literal "f", 9 ∷ [])
    ∷ (literal "profile.json", 10 ∷ [])
    ∷ (literal "registries.json", 11 ∷ [])
    ∷ (literal "causal-transition-contracts.json", 12 ∷ [])
    ∷ (literal "fixtures.json", 13 ∷ [])
    ∷ [])

abbrev pub profile : Entries
profile =
    entry (text (literal "codec_policy_id")) (text (literal "cote.csf.codec.cbor-det.v1"))
      (entry (text (literal "codec_version")) (float64 4_607_182_418_800_017_408) empty)

-- One role, bound to the ID of a policy.
abbrev pub transitions : Entries
transitions =
    entry (text (literal "required_genesis_policy_roles")) (list (text (literal "rng") ∷ [])) (
      entry (text (literal "genesis_policy_bindings"))
        (list (
          mapping (
            entry (text (literal "role")) (text (literal "rng")) (
              entry (text (literal "ref"))
                (list (text (literal "rng-v1") ∷ float64 0 ∷ float64 0 ∷ [])) empty))
          ∷ []))
        empty)

abbrev pub fixtures : Entries
fixtures =
    entry (text (literal "semantic"))
      (list (
        mapping (
          entry (text (literal "case_id")) (text (literal "genesis.pinning"))
            (entry (text (literal "genesis_envelope_hex")) (text (literal "00")) empty))
        ∷ []))
      empty

abbrev pub object : Bytes → Option Entries
object (n ∷ []) =
    if n == 10
    then some profile
    else if n == 11
    then some empty
    else if n == 12
    then some transitions
    else if n == 13
    then some fixtures
    else none
object _ = none

abbrev pub decoders : Json
decoders = record {
  decode_manifest = λ b.
      some (record {
        manifest_version = 1;
        artifacts = (literal "f" ∷ (1 ∷ []) ∷ zero_hex ∷ []) ∷ [];
      });
  decode_object = object;
  more = λ b. false;
  unmarshal_string = some;
  unmarshal_int64 = λ b. some (pos 1);
}

abbrev pub loaded : PolicyBundle
loaded = record {
  files = directory;
  profile = profile;
  registries = empty;
  transitions = transitions;
  codec_policy_hash = digest (1 ∷ []);
  schema_hash = digest (2 ∷ []);
  suite_hash = digest (3 ∷ []);
}

bundle_loads : load directory decoders digest ≡ ok loaded
unfolding load run_check decode_strict_json verify_manifest verify_artifacts read_artifact is_seen
    verify_receipt_file read_lines read_line has_value fields_of trim_space split_lines file_base
    has_byte unhex hex lookup member bytes_equal
bundle_loads = refl

load-IsLoaded_example : IsLoaded directory decoders digest loaded
load-IsLoaded_example = load-IsLoaded directory decoders digest loaded bundle_loads

verify_manifest_iff_example :
    (verify_manifest directory decoders digest (literal "policy-manifest.json") (literal "p")
      ≡ ok (digest (1 ∷ [])))
    ↔ IsVerified directory decoders digest
        (literal "policy-manifest.json")
        (literal "p")
        (digest (1 ∷ []))
verify_manifest_iff_example =
    verify_manifest_iff directory decoders digest (literal "policy-manifest.json") (literal "p")
      (digest (1 ∷ []))
