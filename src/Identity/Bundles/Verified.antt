-- ===== src/Identity/Bundles/Verified.antt =====
-- What a bundle that loads was verified against (internal/csf/policy/bundle.go).
use cote_ai_simulation.Base.{
  ◌↔◌, ◌≡◌, ◌≤◌, refl, sym, subst, true, false, not, ◌&&◌, ◌==◌, List, [], ◌∷◌, ◌++◌, map, length,
  Option, some, ok, arith, or_fail, bind-eq_ok, then-eq_ok, guard-then-eq_ok, or_fail-eq_ok,
  ok-injective, All, Pairs,
}
use cote_ai_simulation.Base.Bytes.{Bytes, literal, bytes_equal, bytes_equal-eq, hex}
use cote_ai_simulation.Identity.Bundles.{
  Json, Manifest, decode_strict, file_missing, undecodable, trailing_value, invalid_manifest,
  bootstrap_mismatch,
}
use cote_ai_simulation.Identity.Bundles.Manifests.{
  Artifact, is_seen, read_artifact, verify_artifacts, verify_manifest,
}
use cote_ai_simulation.Identity.Bundles.Load.{
  PolicyBundle, Check, policy_check, schema_check, suite_check, run_check, decode_strict_json, load,
}
use cote_ai_simulation.Identity.Bundles.{unsupported_profile}
use cote_ai_simulation.Identity.Bundles.Receipts.{verify_receipt_file}
use cote_ai_simulation.Identity.Bundles.Receipted.{IsReceipt, receipt_read}
use cote_ai_simulation.Identity.Bundles.Artifacts.{
  HasOtherName, IsNew, IsStored, verify_artifacts-AreVerified, verify_artifacts_complete,
}

module _ (files : Bytes → Option Bytes) (json : Json) (sha256 : Bytes → Bytes) where
  -- What `verifyManifest` accepts: a manifest of version 1 and nothing behind it, with artifacts
  -- that are stored as it says, none named twice; the hash is of the prefix, a zero and its bytes.
  pub record IsVerified (name prefix hash : Bytes) : Type 0 where
    pub raw : Bytes
    pub manifest : Manifest
    pub artifacts : List Artifact
    pub stored : files name ≡ some raw
    pub decoded : json.decode_manifest raw ≡ some manifest
    pub alone : json.more raw ≡ false
    pub version : manifest.manifest_version ≡ 1
    pub some_artifact : 1 ≤ length manifest.artifacts
    pub are_read : map (read_artifact files json sha256) manifest.artifacts ≡ map ok artifacts
    pub are_stored : All (IsStored files json sha256) artifacts
    pub apart : Pairs HasOtherName artifacts
    pub is_hash : hash ≡ sha256 (prefix ++ (0 ∷ raw))

  verified :
      (name prefix hash : Bytes)
      → verify_manifest files json sha256 name prefix ≡ ok hash
      → IsVerified name prefix hash
  unfolding verify_manifest
  verified name prefix hash h =
      let (raw, f, h₁) = bind-eq_ok (or_fail (files name) file_missing) _ h in
      let (m, d, h₂) = bind-eq_ok (decode_strict json json.decode_manifest raw) _ h₁ in
      let (v, g, d₁) = bind-eq_ok (or_fail (json.decode_manifest raw) undecodable) _ d in
      let (more, d₂) = guard-then-eq_ok (not (json.more raw)) trailing_value _ d₁ in
      let (t, h₃) =
        guard-then-eq_ok ((m.manifest_version == 1) && not (length m.artifacts == 0))
          invalid_manifest _ h₂ in
      let (a, h₄) = then-eq_ok (verify_artifacts files json sha256 [] m.artifacts) _ h₃ in
      let r = verify_artifacts-AreVerified files json sha256 [] m.artifacts a in
      record {
        raw = raw;
        manifest = m;
        artifacts = r.artifacts;
        stored = or_fail-eq_ok (files name) file_missing f;
        decoded = or_fail-eq_ok (json.decode_manifest raw) undecodable (rw (← ok-injective d₂) g);
        alone = ground arith;
        version = ground arith;
        some_artifact = ground arith;
        are_read = r.are_read;
        are_stored = r.are_stored;
        apart = r.apart;
        is_hash = sym (ok-injective h₄);
      }

  all-IsNew_first : (xs : List Artifact) → All (IsNew []) xs
  unfolding is_seen
  all-IsNew_first [] = tt
  all-IsNew_first (x ∷ xs) = (refl, all-IsNew_first xs)

  -- `verifyManifest` returns a hash exactly where the manifest in the directory decodes strictly,
  -- is of version 1, has an artifact, names no artifact twice, and each of them is a file of the
  -- directory with the size and the SHA-256 that it says; and it is the hash of the prefix, a zero
  -- and the manifest.
  pub verify_manifest_iff :
      (name prefix hash : Bytes)
      → (verify_manifest files json sha256 name prefix ≡ ok hash) ↔ IsVerified name prefix hash
  unfolding verify_manifest
  verify_manifest_iff name prefix hash = (
    verified name prefix hash,
    λ v.
        let a =
          verify_artifacts_complete files json sha256 [] v.manifest.artifacts v.artifacts v.are_read
            v.are_stored v.apart (all-IsNew_first v.artifacts) in
        let t : ((v.manifest.manifest_version == 1) && not (length v.manifest.artifacts == 0))
            ≡ true =
          ground (arith, v.version, v.some_artifact) in
        rw (v.stored, v.decoded, v.alone, t, a, v.is_hash) refl,
  )

  -- What a check of `Load` has verified: the manifest, and its hash as it is pinned.
  pub record IsChecked (check : Check) (hash : Bytes) : Type 0 where
    pub verified_manifest : IsVerified check.manifest check.prefix hash
    pub pinned : hex hash ≡ check.expected

  run_check-IsChecked :
      (check : Check) (hash : Bytes)
      → run_check files json sha256 check ≡ ok hash
      → IsChecked check hash
  unfolding run_check
  run_check-IsChecked check hash h =
      let (x, v, h₁) =
        bind-eq_ok (verify_manifest files json sha256 check.manifest check.prefix) _ h in
      let (p, h₂) = guard-then-eq_ok (bytes_equal (hex x) check.expected) bootstrap_mismatch _ h₁ in
      let e : x ≡ hash = ok-injective h₂ in
      record {
        verified_manifest = subst (IsVerified check.manifest check.prefix) e (verified _ _ x v);
        pinned = rw (← e) (bytes_equal-eq (hex x) check.expected p);
      }

  -- What stands behind a bundle that loads.
  pub record IsLoaded (b : PolicyBundle) : Type 0 where
    pub receipt_verified : IsReceipt files sha256
    pub policy_checked : IsChecked policy_check b.codec_policy_hash
    pub schema_checked : IsChecked schema_check b.schema_hash
    pub suite_checked : IsChecked suite_check b.suite_hash
    pub profile_read : decode_strict_json files json (literal "profile.json") ≡ ok b.profile
    pub registries_read :
        decode_strict_json files json (literal "registries.json") ≡ ok b.registries
    pub transitions_read :
        decode_strict_json files json (literal "causal-transition-contracts.json")
        ≡ ok b.transitions
    pub reads_below : b.files ≡ files

  -- A bundle loads only where its receipt names the three hashes that are pinned in the source, and
  -- files with the hashes it says; the three manifests have the pinned hashes and list stored
  -- artifacts; and the profile, registries and transitions are what the files of the directory
  -- decode to.
  pub load-IsLoaded : (b : PolicyBundle) → load files json sha256 ≡ ok b → IsLoaded b
  unfolding load
  load-IsLoaded b h =
      let (r, h₁) = then-eq_ok (verify_receipt_file files sha256) _ h in
      let (p, c, h₂) = bind-eq_ok (run_check files json sha256 policy_check) _ h₁ in
      let (s, c', h₃) = bind-eq_ok (run_check files json sha256 schema_check) _ h₂ in
      let (u, c'', h₄) = bind-eq_ok (run_check files json sha256 suite_check) _ h₃ in
      let (x, d, h₅) = bind-eq_ok (decode_strict_json files json (literal "profile.json")) _ h₄ in
      let (y, d', h₆) =
        bind-eq_ok (decode_strict_json files json (literal "registries.json")) _ h₅ in
      let (z, d'', h₇) =
        bind-eq_ok (decode_strict_json files json (literal "causal-transition-contracts.json")) _
          h₆ in
      let (g, h₈) = guard-then-eq_ok _ unsupported_profile _ h₇ in
      subst IsLoaded (ok-injective h₈) (record {
        receipt_verified = receipt_read files sha256 r;
        policy_checked = run_check-IsChecked policy_check p c;
        schema_checked = run_check-IsChecked schema_check s c';
        suite_checked = run_check-IsChecked suite_check u c'';
        profile_read = d;
        registries_read = d';
        transitions_read = d'';
        reads_below = refl;
      })
