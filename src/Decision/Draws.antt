-- ===== src/Decision/Draws.antt =====
-- `namedDraw` of internal/csf/decision/kernel.go and `NamedSubstreamV1` of
-- internal/csf/identity/deriver.go: the draw of one conflict, of the seed and the conflict alone.
use cote_ai_simulation.Base.{
  ℕ, ◌%◌, ◌&&◌, ◌==◌, leb, List, [], ◌∷◌, ◌++◌, length, Result, ok, ◌>>=◌, ◌>>◌, guard,
}
use cote_ai_simulation.Base.Bytes.{Bytes, literal, hex}
use cote_ai_simulation.Domain.Patterns.{validate_machine_id}
use cote_ai_simulation.Value.{Value, text, byte_string, uint64, list}
use cote_ai_simulation.Codec.{canonical_payload, canonical_bytes}
use cote_ai_simulation.Identity.{Deriver, opaque_content_hash}
use cote_ai_simulation.Decision.{
  DecisionError, Input, draw_without_competitors, missing_rng_policy, invalid_machine_id, of_codec,
  bytes_ids,
}
use cote_ai_simulation.Decision.Responses.{derive, encode}

pub record Draw : Type 0 where
  pub id : Bytes
  pub fields : List Value
  pub digest : Bytes
  pub canonical : Bytes

-- `bits[0] & 1`
unfoldable pub lowest_bit : Bytes → ℕ
lowest_bit [] = 0
lowest_bit (b ∷ bs) = b % 2

module _ (d : Deriver) where
  -- `NamedSubstreamV1`
  unfoldable pub named_substream :
      Bytes → Bytes → Bytes → List Value → Bytes → List Value → Result DecisionError Bytes
  named_substream seed subsystem key entities purpose ref = do
    guard
        (validate_machine_id subsystem && (validate_machine_id key && validate_machine_id purpose))
        invalid_machine_id
    guard (length ref == 3) missing_rng_policy
    data_bytes ← of_codec (
        canonical_payload d.codec (
          list (
            byte_string seed
            ∷ text subsystem
            ∷ text key
            ∷ list entities
            ∷ text purpose
            ∷ list ref
            ∷ [])))
    ok (d.sha256 data_bytes)

  -- `namedDraw`: the draw and the index of the candidate that it selects.
  unfoldable pub named_draw : Input → List Bytes → List Value → Result DecisionError (Draw × ℕ)
  named_draw input ids ref = do
    guard (leb 2 (length ids)) draw_without_competitors
    let subsystem = literal "resource"
    let purpose = literal "resolve"
    conflict_id ← derive d "cote.csf.id.conflict-set" "cote.csf.schema.conflict-set-id-preimage" (
        list (
          byte_string input.cycle_id
          ∷ bytes_ids ids
          ∷ uint64 0
          ∷ text input.snapshot.resource_id
          ∷ []))
    let decision_key = literal "conflict." ++ hex conflict_id
    let place =
        byte_string input.run_id
        ∷ byte_string input.cycle_id
        ∷ uint64 input.attempt
        ∷ text subsystem
        ∷ text decision_key
        ∷ list []
        ∷ text purpose
        ∷ list ref
        ∷ []
    id ← derive d "cote.csf.id.rng-draw" "cote.csf.schema.rng-draw-id-preimage" (list place)
    bits ← named_substream input.seed subsystem decision_key [] purpose ref
    let selected = lowest_bit bits
    envelope ← of_codec (
        canonical_bytes d.codec (literal "cote.csf.test.resource-rng-result")
          (literal "cote.csf.schema.typed-value") 1 (uint64 selected))
    let outcome = list (
        text (literal "cote.csf.schema.typed-value")
        ∷ uint64 1
        ∷ byte_string envelope
        ∷ byte_string (opaque_content_hash d envelope)
        ∷ [])
    let fields = byte_string id ∷ place ++ outcome ∷ []
    digest ← derive d "cote.csf.digest.rng-draw" "cote.csf.schema.rng-draw.body" (list fields)
    canonical ← encode d fields digest
    ok (record { id = id; fields = fields; digest = digest; canonical = canonical }, selected)
