-- ===== src/Identity/Bundles/Receipted.antt =====
-- What the receipt of a bundle was verified against (internal/csf/policy/bundle.go,
-- `verifyReceiptFile`).
use cote_ai_simulation.Base.{
  ◌≡◌, refl, ap, true, List, [], ◌∷◌, Option, some, ok, or_fail, bind-eq_ok, guard-then-eq_ok,
  or_fail-eq_ok, All, inl, inr, false, ◌∙◌, Option-cases, ◌⊎◌,
}
use cote_ai_simulation.Base.Bytes.{Bytes, literal, bytes_equal, bytes_equal-eq, hex}
use cote_ai_simulation.Identity.Bundles.{file_missing}
use cote_ai_simulation.Base.Strings.{fields_of, trim_space, split_lines}
use cote_ai_simulation.Identity.Bundles.{
  invalid_receipt_line, raw_manifest_mismatch, receipt_mismatch, codec_policy_hash_hex,
  schema_bundle_hash_hex, suite_hash_hex,
}
use cote_ai_simulation.Identity.Bundles.Receipts.{
  has_value, read_line, read_lines, verify_receipt_file,
}
use cote_ai_simulation.Store.Maps.{lookup}

module _ (files : Bytes → Option Bytes) (sha256 : Bytes → Bytes) where
  -- A line of the receipt names a value, or a file with its hash.
  abbrev pub IsReceiptLine : List Bytes → Type 0
  IsReceiptLine l =
      ((k : Bytes) × (v : Bytes) × (l ≡ k ∷ v ∷ []))
      ⊎ ((h : Bytes) × (name : Bytes) × (content : Bytes) × (l ≡ literal "sha256" ∷ h ∷ name ∷ [])
          × (files name ≡ some content)
          × (hex (sha256 content) ≡ h))

  read_line-IsReceiptLine :
      (m n : List (Bytes × Bytes)) (l : List Bytes)
      → read_line files sha256 m l ≡ ok n
      → IsReceiptLine l
  unfolding read_line
  read_line-IsReceiptLine m n [] h = cc
  read_line-IsReceiptLine m n (k ∷ []) h = cc
  read_line-IsReceiptLine m n (k ∷ v ∷ []) h = inl (k, v, refl)
  read_line-IsReceiptLine m n (k ∷ v ∷ name ∷ []) h =
      let (t, h₁) = guard-then-eq_ok (bytes_equal k (literal "sha256")) invalid_receipt_line _ h in
      let (content, f, h₂) = bind-eq_ok (or_fail (files name) file_missing) _ h₁ in
      let (p, h₃) =
        guard-then-eq_ok (bytes_equal (hex (sha256 content)) v) raw_manifest_mismatch _ h₂ in
      inr (
        v,
        name,
        content,
        ap (λ x. x ∷ v ∷ name ∷ []) (bytes_equal-eq k (literal "sha256") t),
        or_fail-eq_ok (files name) file_missing f,
        bytes_equal-eq (hex (sha256 content)) v p,
      )
  read_line-IsReceiptLine m n (k ∷ v ∷ name ∷ x ∷ xs) h = cc

  read_lines-All :
      (m n : List (Bytes × Bytes)) (ls : List Bytes)
      → read_lines files sha256 m ls ≡ ok n
      → All (λ l. IsReceiptLine (fields_of l)) ls
  unfolding read_lines
  read_lines-All m n [] h = tt
  read_lines-All m n (l ∷ ls) h =
      let (x, e, h₁) = bind-eq_ok (read_line files sha256 m (fields_of l)) _ h in
      (read_line-IsReceiptLine m x (fields_of l) e, read_lines-All x n ls h₁)

  -- The receipt: every line of it holds, and it names the three hashes that are pinned.
  pub record IsReceipt : Type 0 where
    pub receipt : Bytes
    pub named : List (Bytes × Bytes)
    pub stored : files (literal "BUNDLE.sha256") ≡ some receipt
    pub lines : All (λ l. IsReceiptLine (fields_of l)) (split_lines (trim_space receipt))
    pub named_read : read_lines files sha256 [] (split_lines (trim_space receipt)) ≡ ok named
    pub policy_named : lookup (literal "codec_policy_hash") named ≡ some codec_policy_hash_hex
    pub schema_named : lookup (literal "schema_bundle_hash") named ≡ some schema_bundle_hash_hex
    pub suite_named : lookup (literal "conformance_suite_hash") named ≡ some suite_hash_hex

  has_value-some :
      (k v : Bytes) (m : List (Bytes × Bytes))
      → bytes_equal [] v ≡ false
      → has_value k v m ≡ true
      → lookup k m ≡ some v
  unfolding has_value
  has_value-some k v m n h = elim (Option-cases (lookup k m)) [
    | inl e ↦ cc (rw (e, has_value) at h)
    | inr (x, e) ↦ e ∙ ap some (bytes_equal-eq x v (rw (e, has_value) at h))
  ]

  pub receipt_read : verify_receipt_file files sha256 ≡ ok tt → IsReceipt
  unfolding verify_receipt_file bytes_equal
  receipt_read h =
      let (raw, f, h₁) = bind-eq_ok (or_fail (files (literal "BUNDLE.sha256")) file_missing) _ h in
      let (m, r, h₂) =
        bind-eq_ok (read_lines files sha256 [] (split_lines (trim_space raw))) _ h₁ in
      let (p, h₃) = guard-then-eq_ok _ receipt_mismatch _ h₂ in
      let (s, h₄) = guard-then-eq_ok _ receipt_mismatch _ h₃ in
      let (c, h₅) = guard-then-eq_ok _ receipt_mismatch _ h₄ in
      record {
        receipt = raw;
        named = m;
        stored = or_fail-eq_ok (files (literal "BUNDLE.sha256")) file_missing f;
        lines = read_lines-All [] m (split_lines (trim_space raw)) r;
        named_read = r;
        policy_named = has_value-some (literal "codec_policy_hash") codec_policy_hash_hex m refl p;
        schema_named =
            has_value-some (literal "schema_bundle_hash") schema_bundle_hash_hex m refl s;
        suite_named = has_value-some (literal "conformance_suite_hash") suite_hash_hex m refl c;
      }
