-- ===== src/Identity/Bundles/Genesis.antt =====
-- The policy references of the pinned genesis (internal/csf/policy/bundle.go).
use cote_ai_simulation.Base.{
  ◌≡◌, refl, ◌∙◌, true, ◌==◌, not, List, [], ◌∷◌, some, ok, or_fail, map_err, length, arith,
  bind-eq_ok, guard-then-eq_ok, or_fail-eq_ok, ok-injective, All, Bool-cases, inl, inr, subst,
}
use cote_ai_simulation.Base.Bytes.{Bytes, literal}
use cote_ai_simulation.Base.Strings.{unhex}
use cote_ai_simulation.Value.{
  Value, Entries, byte_string, is_literal, as_array, as_text, as_32_bytes, field,
}
use cote_ai_simulation.Codec.{Library, strict_decode_envelope}
use cote_ai_simulation.Identity.Bundles.{
  Json, member, bad_policy_ref, bad_policy_hash, bad_genesis_fixture, no_policy_set, panicked,
  bad_envelope_of, policies_missing,
}
use cote_ai_simulation.Identity.Bundles.Load.{PolicyBundle, decode_strict_json}
use cote_ai_simulation.Identity.Bundles.Policies.{
  genesis_policy_refs, as_mapping, read_policy_ref, read_policy_refs, read_fixture, find_fixture,
}

-- A reference of the fixture: an ID, a version and a hash of 32 bytes.
pub record IsRef (ref : List Value) : Type 0 where
  pub hash : Bytes
  pub has_three : (length ref == 3) ≡ true
  pub is_hash : field ref 2 ≡ byte_string hash
  pub has_32 : length hash ≡ 32

as_32_bytes-some : (v : Value) (b : Bytes) → as_32_bytes v ≡ some b → length b ≡ 32
unfolding as_32_bytes
as_32_bytes-some (byte_string c) b h = ground arith
as_32_bytes-some _ b h = cc

read_policy_ref-IsRef : (v : Value) (ref : List Value) → read_policy_ref v ≡ ok ref → IsRef ref
unfolding read_policy_ref
read_policy_ref-IsRef v ref h =
    let (vs, a, h₁) = bind-eq_ok (or_fail (as_array v) bad_policy_ref) _ h in
    let (n, h₂) = guard-then-eq_ok (length vs == 3) bad_policy_ref _ h₁ in
    let (hash, e, h₃) = bind-eq_ok (or_fail (as_32_bytes (field vs 2)) bad_policy_hash) _ h₂ in
    subst IsRef (ok-injective h₃) (record {
      hash = hash;
      has_three = refl;
      is_hash = refl;
      has_32 = as_32_bytes-some (field vs 2) hash (or_fail-eq_ok _ bad_policy_hash e);
    })

read_policy_refs-All :
    (vs : List Value) (refs : List (List Value)) → read_policy_refs vs ≡ ok refs → All IsRef refs
unfolding read_policy_refs
read_policy_refs-All [] refs h = subst (All IsRef) (ok-injective h) tt
read_policy_refs-All (v ∷ vs) refs h =
    let (ref, e, h₁) = bind-eq_ok (read_policy_ref v) _ h in
    let (rest, f, h₂) = bind-eq_ok (read_policy_refs vs) _ h₁ in
    subst (All IsRef) (ok-injective h₂)
      (read_policy_ref-IsRef v ref e, read_policy_refs-All vs rest f)

module _ (lib : Library) (json : Json) where
  read_fixture-All :
      (item : Entries) (refs : List (List Value))
      → read_fixture lib json item ≡ ok refs
      → All IsRef refs
  unfolding read_fixture
  read_fixture-All item refs h =
      let (digits, a, h₁) =
        bind-eq_ok (or_fail (as_text (member (literal "genesis_envelope_hex") item)) panicked) _
          h in
      let (encoded, b, h₂) = bind-eq_ok (or_fail (unhex digits) bad_genesis_fixture) _ h₁ in
      let (envelope, c, h₃) =
        bind-eq_ok (map_err bad_envelope_of (strict_decode_envelope lib encoded)) _ h₂ in
      let (payload, d, h₄) =
        bind-eq_ok (or_fail (as_array envelope.value) bad_genesis_fixture) _ h₃ in
      let (n, h₅) = guard-then-eq_ok (length payload == 18) bad_genesis_fixture _ h₄ in
      let (policies, e, h₆) =
        bind-eq_ok (or_fail (as_array (field payload 14)) no_policy_set) _ h₅ in
      read_policy_refs-All policies refs h₆

  find_fixture-All :
      (vs : List Value) (refs : List (List Value))
      → find_fixture lib json vs ≡ ok refs
      → All IsRef refs
  unfolding find_fixture
  find_fixture-All [] refs h = subst (All IsRef) (ok-injective h) tt
  find_fixture-All (v ∷ vs) refs h =
      let (item, a, h₁) = bind-eq_ok (or_fail (as_mapping v) panicked) _ h in
      elim (Bool-cases (is_literal (member (literal "case_id") item) (literal "genesis.pinning"))) [
        | inl t ↦ read_fixture-All item refs (rw t at h₁)
        | inr t ↦ find_fixture-All vs refs (rw t at h₁)
      ]

  pub genesis_policy_refs-All :
      (b : PolicyBundle) (refs : List (List Value))
      → genesis_policy_refs lib json b ≡ ok refs
      → All IsRef refs
  unfolding genesis_policy_refs
  genesis_policy_refs-All b refs h =
      let (fixtures, d, h₁) =
        bind-eq_ok (decode_strict_json b.files json (literal "fixtures.json")) _ h in
      let (semantic, a, h₂) =
        bind-eq_ok (or_fail (as_array (member (literal "semantic") fixtures)) panicked) _ h₁ in
      let (found, f, h₃) = bind-eq_ok (find_fixture lib json semantic) _ h₂ in
      let (n, h₄) = guard-then-eq_ok (not (length found == 0)) policies_missing _ h₃ in
      find_fixture-All semantic refs (f ∙ h₄)
