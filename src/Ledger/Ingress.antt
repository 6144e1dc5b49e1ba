-- ===== src/Ledger/Ingress.antt =====
-- The loop of `restore` over the records (internal/csf/inputledger/ledger.go) reads no ingress
-- record into the ledger: these are attached after it.
use cote_ai_simulation.Base.{
  ◌≡◌, refl, ◌∙◌, Bool, true, false, arith, if◌then◌else◌, List, [], ◌∷◌, Result, ok, bind-eq_ok,
  ok-injective, Option-cases, Result-cases, inl, inr, subst,
}
use cote_ai_simulation.Value.{Value, as_array}
use cote_ai_simulation.Codec.{strict_decode_payload}
use cote_ai_simulation.Identity.{Deriver}
use cote_ai_simulation.IngressGuard.{CanonicalRecord}
use cote_ai_simulation.Ledger.{Ledger, put_slot}
use cote_ai_simulation.Ledger.Records.{RestoreError}
use cote_ai_simulation.Ledger.Restore.{
  Reading, read_receipt, read_source, read_input, read_closure, read_round, read_dispatch,
  read_response, receipt_value, set_response,
}
use cote_ai_simulation.Ledger.Restore.Answers.{
  read_record, read_records, read_answer, read_revoked, read_revocation, read_fields,
}

-- The loop over the records leaves the ingress records of the ledger alone.
pub record SameIngress (l m : Ledger) : Type 0 where
  pub inputs : m.inputs ≡ l.inputs
  pub closures : m.closures ≡ l.closures
  pub cursors : m.cursors ≡ l.cursors

module _ (d : Deriver) (s : Reading) (r : CanonicalRecord) where
  same : SameIngress s.ledger s.ledger
  same = record { inputs = refl; closures = refl; cursors = refl }

  read_receipt-same :
      (v : Value) (t : Reading) → read_receipt d s r v ≡ ok t → SameIngress s.ledger t.ledger
  unfolding read_receipt
  read_receipt-same v t h = ground arith

  read_source-same :
      (v : List Value) (t : Reading) → read_source d s r v ≡ ok t → SameIngress s.ledger t.ledger
  unfolding read_source
  read_source-same v t h = ground arith

  read_input-same :
      (v : List Value) (t : Reading) → read_input d s r v ≡ ok t → SameIngress s.ledger t.ledger
  unfolding read_input
  read_input-same v t h = ground arith

  read_closure-same :
      (v : List Value) (t : Reading) → read_closure d s r v ≡ ok t → SameIngress s.ledger t.ledger
  unfolding read_closure
  read_closure-same v t h = ground arith

  read_round-same :
      (v : List Value) (t : Reading) → read_round d s r v ≡ ok t → SameIngress s.ledger t.ledger
  unfolding read_round
  read_round-same v t h = ground arith

  read_dispatch-same :
      (v : List Value) (t : Reading) → read_dispatch d s r v ≡ ok t → SameIngress s.ledger t.ledger
  unfolding read_dispatch put_slot
  read_dispatch-same v t h = ground arith

  read_answer-same :
      (v : List Value) (t : Reading) → read_answer d s r v ≡ ok t → SameIngress s.ledger t.ledger
  unfolding read_answer read_revoked read_response set_response read_revocation put_slot
  read_answer-same v t h = ground arith

  -- An equation holds in both branches of a test.
  either :
      (b : Bool) {x y : Result RestoreError Reading} {t : Reading}
      → (x ≡ ok t → SameIngress s.ledger t.ledger)
      → (y ≡ ok t → SameIngress s.ledger t.ledger)
      → (if b then x else y) ≡ ok t
      → SameIngress s.ledger t.ledger
  either true f g h = f h
  either false f g h = g h

  read_fields-same :
      (v : List Value) (t : Reading) → read_fields d s r v ≡ ok t → SameIngress s.ledger t.ledger
  unfolding read_fields
  read_fields-same v t = either _ (read_source-same v t) (
      either _ (read_input-same v t) (
        either _ (read_closure-same v t) (
          either _ (read_round-same v t)
            (either _ (read_dispatch-same v t) (read_answer-same v t)))))

  read_record-same : (t : Reading) → read_record d s r ≡ ok t → SameIngress s.ledger t.ledger
  unfolding read_record
  read_record-same t h = elim (Option-cases (receipt_value d.codec r.canonical)) [
    | inr (v, e) ↦ read_receipt-same v t (rw (e, read_record) at h)
    | inl e ↦ elim (Result-cases (strict_decode_payload d.codec r.canonical)) [
      | inr (x, f) ↦ absurd (ground arith)
      | inl (payload, f) ↦ elim (Option-cases (as_array payload)) [
        | inl g ↦ absurd (ground arith)
        | inr (fields, g) ↦ read_fields-same fields t (ground arith)
      ]
    ]
  ]

pub read_records-same :
    (d : Deriver) (s t : Reading) (rs : List CanonicalRecord)
    → read_records d s rs ≡ ok t
    → SameIngress s.ledger t.ledger
unfolding read_records
read_records-same d s t [] h =
    subst (λ (x : Reading). SameIngress s.ledger x.ledger) (ok-injective h)
      (same d s (record { identity = []; canonical = [] }))
read_records-same d s t (r ∷ rs) h =
    let (u, a, h₁) = bind-eq_ok (read_record d s r) _ h in
    let f = read_record-same d s r u a in
    let g = read_records-same d u t rs h₁ in
    record {
      inputs = g.inputs ∙ f.inputs;
      closures = g.closures ∙ f.closures;
      cursors = g.cursors ∙ f.cursors;
    }
