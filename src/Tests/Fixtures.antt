-- ===== src/Tests/Fixtures.antt =====
-- Inputs and closures of a ledger (internal/csf/inputledger/ledger.go) for the examples, with their
-- identities, digests and receipts.
use Prim.Native.String.{String}
use cote_ai_simulation.Base.{ℕ, ◌+◌, true, false, List, [], ◌∷◌, ◌++◌, some, none, Result, ok, err}
use cote_ai_simulation.Base.Bytes.{Bytes, literal}
use cote_ai_simulation.Base.Int.{pos}
use cote_ai_simulation.Domain.{EligibilityCoordinate}
use cote_ai_simulation.Value.{Value, null, boolean, byte_string, text, uint64, uint32, list}
use cote_ai_simulation.Codec.{canonical_payload, canonical_bytes}
use cote_ai_simulation.Identity.{RegistryEntry, fields, Deriver, sum}
use cote_ai_simulation.Ledger.{Stored}
use cote_ai_simulation.Ledger.Bodies.{coord_value}
use cote_ai_simulation.Tests.Toy.{toy}

abbrev pub zeros : Bytes
zeros =
    0 ∷ 0 ∷ 0 ∷ 0 ∷ 0 ∷ 0 ∷ 0 ∷ 0 ∷ 0 ∷ 0 ∷ 0 ∷ 0 ∷ 0 ∷ 0 ∷ 0 ∷ 0 ∷ 0 ∷ 0 ∷ 0 ∷ 0 ∷ 0 ∷ 0 ∷ 0 ∷ 0
    ∷ 0 ∷ 0 ∷ 0 ∷ 0 ∷ 0 ∷ 0 ∷ 0 ∷ []

unfoldable pub total : Bytes → ℕ
total [] = 0
total (b ∷ bs) = b + total bs

-- A digest of 32 bytes.
unfoldable pub digest_of : Bytes → Bytes
unfolding total
digest_of b = total b ∷ zeros

abbrev pub run_id : Bytes
run_id = 7 ∷ zeros

abbrev pub entry : String → String → RegistryEntry
entry tag schema = fields (text (literal tag)) (text (literal schema)) (some 1)

abbrev pub deriver : List Value → Deriver
deriver table = record {
  bundle = record {
    domain_operations = some (
        entry "cote.csf.id.exogenous-input" "cote.csf.schema.exogenous-input-id-preimage"
        ∷ entry "cote.csf.digest.exogenous-input-unit" "cote.csf.schema.exogenous-input.body"
        ∷ entry "cote.csf.id.source-closure" "cote.csf.schema.source-closure-id-preimage"
        ∷ entry "cote.csf.digest.source-closure" "cote.csf.schema.source-closure"
        ∷ entry "cote.csf.id.cohort" "cote.csf.schema.cohort-id-preimage"
        ∷ entry "cote.csf.digest.input" "cote.csf.schema.admitted-unit-list"
        ∷ entry "cote.csf.digest.fence" "cote.csf.schema.admission-fence.body"
        ∷ entry "cote.csf.id.admission-fence" "cote.csf.schema.admission-fence-id-preimage"
        ∷ []);
    fixture_domain_operations = none;
  };
  include_fixtures = false;
  codec = toy table;
  sha256 = digest_of;
}

unfoldable pub bytes_of {ℓ} : {E : Type ℓ} → Result E Bytes → Bytes
bytes_of (ok b) = b
bytes_of (err e) = []

-- A derivation, and the canonical bytes of a list: they do not read the table.
unfoldable pub derived : String → String → Value → Bytes
unfolding bytes_of
derived tag schema v = bytes_of (sum (deriver []) (literal tag) (literal schema) 1 v)

unfoldable pub bytes_of_list : List Value → Bytes
unfolding bytes_of
bytes_of_list vs = bytes_of (canonical_payload (toy []) (list vs))

abbrev pub source : Bytes
source = 115 ∷ []

abbrev pub at : ℕ → ℕ → EligibilityCoordinate
at t n = record { not_before_instant = pos t; not_before_cycle_ordinal = n }

unfoldable pub receipt_bytes : ℕ → ℕ → Bytes → Bytes → Bytes
unfolding bytes_of
receipt_bytes sequence kind id digest = bytes_of (
    canonical_bytes (toy []) (literal "cote.csf.record.source-ingress-receipt")
      (literal "cote.csf.schema.source-ingress-receipt") 1
      (list (
        text source
        ∷ uint64 sequence
        ∷ list (uint64 kind ∷ byte_string id ∷ byte_string digest ∷ [])
        ∷ [])))

unfoldable pub input_id : Bytes → Bytes
unfolding derived
input_id key =
    derived "cote.csf.id.exogenous-input" "cote.csf.schema.exogenous-input-id-preimage"
      (list (byte_string run_id ∷ text source ∷ text key ∷ []))

unfoldable pub input_body : Bytes → ℕ → List Value
unfolding input_id
input_body key t =
    byte_string (input_id key)
    ∷ byte_string run_id
    ∷ text source
    ∷ text key
    ∷ text (107 ∷ [])
    ∷ uint32 1
    ∷ null
    ∷ null
    ∷ uint64 t
    ∷ coord_value (at t 0)
    ∷ null
    ∷ null
    ∷ []

-- The input of a key, at an instant, under a sequence.
unfoldable pub input : Bytes → ℕ → ℕ → Stored
unfolding input_body derived bytes_of_list receipt_bytes
input key t sequence =
    let body = input_body key t in
    let digest =
      derived "cote.csf.digest.exogenous-input-unit" "cote.csf.schema.exogenous-input.body"
        (list (list body ∷ [])) in
    let all = body ++ byte_string digest ∷ [] in
    record {
      id = input_id key;
      digest = digest;
      fields = all;
      canonical = bytes_of_list all;
      receipt = record {
        source_id = source;
        sequence = sequence;
        ref_kind = 1;
        ref_id = input_id key;
        ref_digest = digest;
        canonical = receipt_bytes sequence 1 (input_id key) digest;
      };
    }

unfoldable pub closure_id : Bytes
unfolding derived
closure_id =
    derived "cote.csf.id.source-closure" "cote.csf.schema.source-closure-id-preimage"
      (list (byte_string run_id ∷ text source ∷ text (99 ∷ []) ∷ []))

-- A final closure through (1, 0).
unfoldable pub closure_fields : ℕ → List Value
unfolding closure_id
closure_fields sequence =
    byte_string closure_id
    ∷ byte_string run_id
    ∷ text source
    ∷ text (99 ∷ [])
    ∷ coord_value (at 1 0)
    ∷ boolean true
    ∷ uint64 sequence
    ∷ []

unfoldable pub closure : ℕ → Stored
unfolding closure_fields derived bytes_of_list receipt_bytes
closure sequence =
    let digest =
      derived "cote.csf.digest.source-closure" "cote.csf.schema.source-closure"
        (list (closure_fields sequence)) in
    record {
      id = closure_id;
      digest = digest;
      fields = closure_fields sequence;
      canonical = bytes_of_list (closure_fields sequence);
      receipt = record {
        source_id = source;
        sequence = sequence;
        ref_kind = 2;
        ref_id = closure_id;
        ref_digest = digest;
        canonical = receipt_bytes sequence 2 closure_id digest;
      };
    }
