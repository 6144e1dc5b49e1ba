-- ===== src/Identity/Bundles/Artifacts.antt =====
-- The artifacts that `verifyManifest` accepts (internal/csf/policy/bundle.go).
use cote_ai_simulation.Base.{
  ◌≡◌, ◌≢◌, refl, sym, ap₂, Bool, true, false, not, ◌&&◌, List, [], ◌∷◌, map, length, Option, some,
  Result, ok, arith, or_fail, bind-eq_ok, guard-then-eq_ok, or_fail-eq_ok, All, All-map, All-zip,
  Pairs, Bool-cases, inl, inr,
}
use cote_ai_simulation.Base.Bytes.{
  Bytes, bytes_equal, bytes_equal-eq, bytes_equal-false, bytes_equal_refl, hex,
}
use cote_ai_simulation.Base.Int.{pos, eqb_ℤ, eqb_ℤ-eq, eqb_ℤ_refl}
use cote_ai_simulation.Identity.Bundles.{
  BundleError, Json, file_missing, not_basename, duplicate_artifact, artifact_mismatch,
}
use cote_ai_simulation.Identity.Bundles.Manifests.{
  Artifact, is_seen, read_artifact, is_basename, is_pinned, verify_artifacts,
}

abbrev pub HasOtherName : Artifact → Artifact → Type 0
HasOtherName a b = a.name ≢ b.name

abbrev pub IsNew : List Bytes → Artifact → Type 0
IsNew seen a = is_seen a.name seen ≡ false

IsNew-apart :
    (a x : Artifact) (seen : List Bytes) → IsNew (a.name ∷ seen) x → HasOtherName a x × IsNew seen x
unfolding is_seen
IsNew-apart a x seen h =
    let e : bytes_equal x.name a.name ≡ false = ground arith in
    (λ p. bytes_equal-false x.name a.name e (sym p), ground arith)

all_apart :
    (a : Artifact) (seen : List Bytes) (xs : List Artifact)
    → All (IsNew (a.name ∷ seen)) xs
    → All (HasOtherName a) xs × All (IsNew seen) xs
all_apart a seen xs h = (
  All-map (λ x n. (IsNew-apart a x seen n).0) xs h,
  All-map (λ x n. (IsNew-apart a x seen n).1) xs h,
)

IsNew-of_apart :
    (a x : Artifact) (seen : List Bytes) → HasOtherName a x → IsNew seen x → IsNew (a.name ∷ seen) x
unfolding is_seen
IsNew-of_apart a x seen o n = elim (Bool-cases (bytes_equal x.name a.name)) [
  | inl e ↦ absurd (o (sym (bytes_equal-eq x.name a.name e)))
  | inr e ↦ rw (e, n) refl
]

all-IsNew :
    (a : Artifact) (seen : List Bytes) (xs : List Artifact)
    → All (HasOtherName a) xs
    → All (IsNew seen) xs
    → All (IsNew (a.name ∷ seen)) xs
all-IsNew a seen xs o n = All-zip (λ x p q. IsNew-of_apart a x seen p q) xs o n

cons_eq :
    {x y : Result BundleError Artifact} {xs ys : List (Result BundleError Artifact)}
    → x ∷ xs ≡ y ∷ ys
    → (x ≡ y) × (xs ≡ ys)
cons_eq h = (cc, cc)

and_parts : (a b : Bool) → (a && b) ≡ true → (a ≡ true) × (b ≡ true)
and_parts a b h = (ground arith, ground arith)

module _ (files : Bytes → Option Bytes) (json : Json) (sha256 : Bytes → Bytes) where
  -- The file of an artifact stands in the directory, with its size and its hash.
  pub record IsStored (a : Artifact) : Type 0 where
    pub content : Bytes
    pub in_directory : is_basename files json sha256 a.name ≡ true
    pub stored : files a.name ≡ some content
    pub has_size : pos (length content) ≡ a.size
    pub has_hash : hex (sha256 content) ≡ a.expected

  pub record AreVerified (seen : List Bytes) (tuples : List (List Bytes)) : Type 0 where
    pub artifacts : List Artifact
    pub are_read : map (read_artifact files json sha256) tuples ≡ map ok artifacts
    pub are_stored : All IsStored artifacts
    pub apart : Pairs HasOtherName artifacts
    pub are_new : All (IsNew seen) artifacts

  pub verify_artifacts-AreVerified :
      (seen : List Bytes) (tuples : List (List Bytes))
      → verify_artifacts files json sha256 seen tuples ≡ ok tt
      → AreVerified seen tuples
  unfolding verify_artifacts
  verify_artifacts-AreVerified seen [] h = record {
    artifacts = [];
    are_read = refl;
    are_stored = tt;
    apart = tt;
    are_new = tt;
  }
  verify_artifacts-AreVerified seen (t ∷ ts) h =
      let (a, e, h₁) = bind-eq_ok (read_artifact files json sha256 t) _ h in
      let (b, h₂) = guard-then-eq_ok (is_basename files json sha256 a.name) not_basename _ h₁ in
      let (n, h₃) = guard-then-eq_ok (not (is_seen a.name seen)) duplicate_artifact _ h₂ in
      let (content, f, h₄) = bind-eq_ok (or_fail (files a.name) file_missing) _ h₃ in
      let (p, h₅) =
        guard-then-eq_ok (is_pinned files json sha256 a content) artifact_mismatch _ h₄ in
      let (size, hash) =
        and_parts (eqb_ℤ (pos (length content)) a.size)
          (bytes_equal (hex (sha256 content)) a.expected) p in
      let rest = verify_artifacts-AreVerified (a.name ∷ seen) ts h₅ in
      let (apart, new) = all_apart a seen rest.artifacts rest.are_new in
      record {
        artifacts = a ∷ rest.artifacts;
        are_read = ap₂ (λ x xs. x ∷ xs) e rest.are_read;
        are_stored = (
          record {
            content = content;
            in_directory = b;
            stored = or_fail-eq_ok (files a.name) file_missing f;
            has_size = eqb_ℤ-eq (pos (length content)) a.size size;
            has_hash = bytes_equal-eq (hex (sha256 content)) a.expected hash;
          },
          rest.are_stored,
        );
        apart = (apart, rest.apart);
        are_new = (ground arith, new);
      }

  is_pinned-stored :
      (a : Artifact) (s : IsStored a) → is_pinned files json sha256 a s.content ≡ true
  is_pinned-stored a s =
      let size : eqb_ℤ (pos (length s.content)) a.size ≡ true =
        rw (← s.has_size) (eqb_ℤ_refl (pos (length s.content))) in
      let hash : bytes_equal (hex (sha256 s.content)) a.expected ≡ true =
        rw s.has_hash (bytes_equal_refl a.expected) in
      ground arith

  pub verify_artifacts_complete :
      (seen : List Bytes) (tuples : List (List Bytes)) (artifacts : List Artifact)
      → map (read_artifact files json sha256) tuples ≡ map ok artifacts
      → All IsStored artifacts
      → Pairs HasOtherName artifacts
      → All (IsNew seen) artifacts
      → verify_artifacts files json sha256 seen tuples ≡ ok tt
  unfolding verify_artifacts
  verify_artifacts_complete seen [] xs e s p n = refl
  verify_artifacts_complete seen (t ∷ ts) [] e s p n = cc
  verify_artifacts_complete seen (t ∷ ts) (a ∷ xs) e s p n =
      let (h, hs) = cons_eq e in
      let rest =
        verify_artifacts_complete (a.name ∷ seen) ts xs hs s.1 p.1 (all-IsNew a seen xs p.0 n.1) in
      rw (h, s.0.in_directory, n.0, s.0.stored, is_pinned-stored a s.0) rest
