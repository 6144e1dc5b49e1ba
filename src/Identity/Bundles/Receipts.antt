-- ===== src/Identity/Bundles/Receipts.antt =====
-- internal/csf/policy/bundle.go: `verifyReceiptFile`.
use cote_ai_simulation.Base.{
  Bool, List, [], ◌∷◌, Option, some, none, Result, ok, err, guard, or_fail, ◌>>=◌, ◌>>◌,
}
use cote_ai_simulation.Base.Bytes.{Bytes, literal, bytes_equal, hex}
use cote_ai_simulation.Base.Strings.{fields_of, trim_space, split_lines}
use cote_ai_simulation.Store.Maps.{lookup, put}
use cote_ai_simulation.Identity.Bundles.{
  BundleError, file_missing, invalid_receipt_line, raw_manifest_mismatch, receipt_mismatch,
  codec_policy_hash_hex, schema_bundle_hash_hex, suite_hash_hex,
}

-- `values[key] != value` is false.
unfoldable pub has_value : Bytes → Bytes → List (Bytes × Bytes) → Bool
has_value key value m = elim (lookup key m) [
  | none ↦ bytes_equal [] value
  | some v ↦ bytes_equal v value
]

module _ (files : Bytes → Option Bytes) (sha256 : Bytes → Bytes) where
  -- One line of the receipt, with the values so far.
  unfoldable pub read_line :
      List (Bytes × Bytes) → List Bytes → Result BundleError (List (Bytes × Bytes))
  read_line m (k ∷ v ∷ []) = ok (put k v m)
  read_line m (k ∷ h ∷ name ∷ []) = do
    guard (bytes_equal k (literal "sha256")) invalid_receipt_line
    content ← or_fail (files name) file_missing
    guard (bytes_equal (hex (sha256 content)) h) raw_manifest_mismatch
    ok m
  read_line m _ = err invalid_receipt_line

  unfoldable pub read_lines :
      List (Bytes × Bytes) → List Bytes → Result BundleError (List (Bytes × Bytes))
  read_lines m [] = ok m
  read_lines m (l ∷ ls) = do after ← read_line m (fields_of l); read_lines after ls

  -- `verifyReceiptFile`
  unfoldable pub verify_receipt_file : Result BundleError (Unit {0})
  verify_receipt_file = do
    raw ← or_fail (files (literal "BUNDLE.sha256")) file_missing
    m ← read_lines [] (split_lines (trim_space raw))
    guard (has_value (literal "codec_policy_hash") codec_policy_hash_hex m) receipt_mismatch
    guard (has_value (literal "schema_bundle_hash") schema_bundle_hash_hex m) receipt_mismatch
    guard (has_value (literal "conformance_suite_hash") suite_hash_hex m) receipt_mismatch
    ok tt
