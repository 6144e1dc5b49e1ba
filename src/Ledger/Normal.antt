-- ===== src/Ledger/Normal.antt =====
-- Where `AppendInput` and `CloseSource` place an input and a closure of a source
-- (internal/csf/inputledger/ledger.go).
use cote_ai_simulation.Base.{
  ◌≡◌, ◌<◌, ◌-◌, refl, sym, ap, ◌∙◌, true, false, not, arith, List, [], ◌∷◌, some, none, ok,
  bind-eq_ok, guard-then-eq_ok, ok-injective, Option-cases, inl, inr, ◌⊎◌, subst, All, Ordering,
}
use cote_ai_simulation.Base.Bytes.{Bytes, bytes_equal, bytes_equal_refl}
use cote_ai_simulation.Base.Int.{◌<ℤ◌, max_int64, uint64_bound, succ_ℤ}
use cote_ai_simulation.Domain.{EligibilityCoordinate, compare_coordinate, is_le}
use cote_ai_simulation.Domain.Order.{le_trans, compare_refl}
use cote_ai_simulation.Domain.Patterns.{validate_machine_id}
use cote_ai_simulation.Value.{field, signed_int64}
use cote_ai_simulation.Store.Maps.{lookup, lookup-put_self}
use cote_ai_simulation.Ledger.{
  Ledger, Stored, unknown_source, final_source, invalid_machine_id, identity_collision, contains,
}
use cote_ai_simulation.Ledger.Bodies.{coord_value}
use cote_ai_simulation.Ledger.Sources.{
  Input, next_open, above, normal_eligibility, closed_at, any_final, listed, coordinate,
  parse_coordinate, append_input, by_id, new_input, repeat_input, input_id, input_body,
  input_digest, canonical_fields, with_digest, append_receipt, receipt_bytes, store_ingress,
  new_input_result,
}

-- A coordinate with a successor.
abbrev pub IsOpen : EligibilityCoordinate → Type 0
IsOpen c = (c.not_before_cycle_ordinal < uint64_bound - 1) ⊎ (c.not_before_instant <ℤ max_int64)

next_open-later :
    (c : EligibilityCoordinate) → IsOpen c → compare_coordinate c (next_open c) ≡ Ordering.lt
unfolding next_open compare_coordinate succ_ℤ
next_open-later c (inl h) = ground arith
next_open-later c (inr h) = ground arith

above-kept : (e n : EligibilityCoordinate) → is_le (compare_coordinate e (above e n)) ≡ true
unfolding compare_coordinate
above-kept e n = ground arith

above-next : (e n : EligibilityCoordinate) → is_le (compare_coordinate n (above e n)) ≡ true
unfolding compare_coordinate
above-next e n = ground arith

lt_le_trans :
    (a b c : EligibilityCoordinate)
    → compare_coordinate a b ≡ Ordering.lt
    → is_le (compare_coordinate b c) ≡ true
    → compare_coordinate a c ≡ Ordering.lt
unfolding compare_coordinate
lt_le_trans a b c h k = ground arith

normal_eligibility-kept :
    (e : EligibilityCoordinate) (cs : List Stored)
    → is_le (compare_coordinate e (normal_eligibility e cs)) ≡ true
unfolding normal_eligibility
normal_eligibility-kept e [] = rw (compare_refl e) refl
normal_eligibility-kept e (c ∷ cs) =
    let next = next_open (closed_at c) in
    le_trans e (above e next) _ (above-kept e next) (normal_eligibility-kept (above e next) cs)

normal_eligibility-later :
    (e : EligibilityCoordinate) (cs : List Stored)
    → All (λ c. IsOpen (closed_at c)) cs
    → All (λ c. compare_coordinate (closed_at c) (normal_eligibility e cs) ≡ Ordering.lt) cs
unfolding normal_eligibility
normal_eligibility-later e [] h = tt
normal_eligibility-later e (c ∷ cs) (o, os) =
    let next = next_open (closed_at c) in
    (
      lt_le_trans (closed_at c) next _ (next_open-later (closed_at c) o) (
          le_trans next (above e next) _ (above-next e next)
            (normal_eligibility-kept (above e next) cs)),
      normal_eligibility-later (above e next) cs os,
    )

pub coordinate-coord_value : (c : EligibilityCoordinate) → coordinate (coord_value c) ≡ c
unfolding coordinate parse_coordinate signed_int64
coordinate-coord_value c = refl

-- What `AppendInput` leaves for a new ID: the input is found under its ID and is accepted again, and
-- the sources, the IDs and the placement are as they are in the ledger before.
record Appended (l : Ledger) (source id : Bytes) (input : Input) (r : Ledger × Stored)
    : Type 0 where
  found : lookup id r.0.input_by_id ≡ some r.1
  again : repeat_input r.0 source id input r.1 ≡ ok r
  same_sources : r.0.sources ≡ l.sources
  same_id : input_id r.0 source input ≡ input_id l source input
  not_final : any_final (listed source l.closures) ≡ false
  placed :
      field r.1.fields 9
      ≡ coord_value (normal_eligibility input.eligibility (listed source l.closures))

repeat_input-same :
    (l : Ledger) (source id : Bytes) (input : Input) (old : Stored) (digest : Bytes)
    → input_digest l (input_body l id source input (field old.fields 9)) ≡ ok digest
    → canonical_fields l (with_digest (input_body l id source input (field old.fields 9)) digest)
      ≡ ok old.canonical
    → repeat_input l source id input old ≡ ok (l, old)
unfolding repeat_input
repeat_input-same l source id input old digest d c = rw (d, c, bytes_equal_refl old.canonical) refl

new_input-Appended :
    (l : Ledger) (source id : Bytes) (input : Input) (r : Ledger × Stored)
    → new_input l source id input ≡ ok r
    → Appended l source id input r
unfolding new_input append_receipt
new_input-Appended l source id input r h =
    let (g, h₁) = guard-then-eq_ok (not (any_final (listed source l.closures))) final_source _ h in
    let body =
      input_body l id source input
        (coord_value (normal_eligibility input.eligibility (listed source l.closures))) in
    let (digest, d, h₂) = bind-eq_ok (input_digest l body) _ h₁ in
    let (canonical, c, h₃) = bind-eq_ok (canonical_fields l (with_digest body digest)) _ h₂ in
    let ((m, receipt), a, h₄) = bind-eq_ok (append_receipt l source 1 id digest canonical) _ h₃ in
    let (rb, rc, a₁) = bind-eq_ok (receipt_bytes l source _ 1 id digest) _ a in
    let (store, st, a₂) = bind-eq_ok (store_ingress l source _ id canonical rb) _ a₁ in
    let stored : Stored = record {
      id = id;
      digest = digest;
      fields = with_digest body digest;
      canonical = canonical;
      receipt = receipt;
    } in
    subst (Appended l source id input) (ok-injective h₄) (
      subst (λ z. Appended l source id input (new_input_result z source stored))
        (ap (λ x. x.0) (ok-injective a₂))
        (record {
          found = lookup-put_self id stored l.input_by_id;
          again = repeat_input-same _ source id input stored digest d c;
          same_sources = refl;
          same_id = refl;
          not_final = ground arith;
          placed = refl;
        }))

by_id-found :
    (l : Ledger) (source id : Bytes) (input : Input) (old : Stored) {r : Ledger × Stored}
    → lookup id l.input_by_id ≡ some old
    → repeat_input l source id input old ≡ ok r
    → by_id l source id input ≡ ok r
by_id-found l source id input old f h = rw (f, by_id) h

append_input-by_id :
    (l : Ledger) (source id : Bytes) (input : Input) {r : Ledger × Stored}
    → contains l.sources source ≡ true
    → validate_machine_id input.producer_unit_key ≡ true
    → validate_machine_id input.kind ≡ true
    → input_id l source input ≡ ok id
    → by_id l source id input ≡ ok r
    → append_input l source input ≡ ok r
unfolding append_input
append_input-by_id l source id input c p k i h = rw (c, p, k, i) h

module _ (l m : Ledger) (source : Bytes) (input : Input) (x : Stored)
    (h : append_input l source input ≡ ok (m, x)) where
  checked :
      (contains l.sources source ≡ true)
      × (validate_machine_id input.producer_unit_key ≡ true)
      × (validate_machine_id input.kind ≡ true)
      × ((id : Bytes) × (input_id l source input ≡ ok id) × (by_id l source id input ≡ ok (m, x)))
  unfolding append_input
  checked =
      let (c, h₁) = guard-then-eq_ok (contains l.sources source) unknown_source _ h in
      let (p, h₂) =
        guard-then-eq_ok (validate_machine_id input.producer_unit_key) invalid_machine_id _ h₁ in
      let (k, h₃) = guard-then-eq_ok (validate_machine_id input.kind) invalid_machine_id _ h₂ in
      let (id, i, h₄) = bind-eq_ok (input_id l source input) _ h₃ in (c, p, k, (id, i, h₄))

  repeated :
      (id : Bytes) (old : Stored)
      → repeat_input l source id input old ≡ ok (m, x)
      → (m ≡ l) × (x ≡ old)
  unfolding repeat_input
  repeated id old e =
      let body = input_body l id source input (field old.fields 9) in
      let (digest, d, h₁) = bind-eq_ok (input_digest l body) _ e in
      let (canonical, c, h₂) = bind-eq_ok (canonical_fields l (with_digest body digest)) _ h₁ in
      let (g, h₃) =
        guard-then-eq_ok (bytes_equal old.canonical canonical) identity_collision _ h₂ in
      let p = ok-injective h₃ in (sym (ap (λ z. z.0) p), sym (ap (λ z. z.1) p))

  -- An input that was accepted is accepted again, with the same record, and changes nothing.
  pub append_input_again : append_input m source input ≡ ok (m, x)
  append_input_again =
      let (c, p, k, (id, i, b)) = checked in
      elim (Option-cases (lookup id l.input_by_id)) [
        | inr (old, e) ↦
            let q = repeated id old (rw (e, by_id) at b) in
            subst (λ z. append_input z source input ≡ ok (m, x)) (sym q.0) h
        | inl e ↦
            let a = new_input-Appended l source id input (m, x) (rw (e, by_id) at b) in
            append_input-by_id m source id input (ap (λ z. contains z source) a.same_sources ∙ c) p
              k (a.same_id ∙ i) (by_id-found m source id input x a.found a.again)
      ]

  -- An input with a new ID is placed at a coordinate that is not before its declared one and is after
  -- every closure of its source, where these have a successor; and none of these is final.
  pub append_input_placed :
      (id : Bytes)
      → input_id l source input ≡ ok id
      → lookup id l.input_by_id ≡ none
      → All (λ c. IsOpen (closed_at c)) (listed source l.closures)
      → (is_le (compare_coordinate input.eligibility (coordinate (field x.fields 9))) ≡ true)
        × All
            (λ c. compare_coordinate (closed_at c) (coordinate (field x.fields 9)) ≡ Ordering.lt)
            (listed source l.closures)
        × (any_final (listed source l.closures) ≡ false)
  append_input_placed id j n os =
      let (c, p, k, (id', i, b)) = checked in
      let same : id' ≡ id = cc in
      let b' : new_input l source id input ≡ ok (m, x) =
        rw (n, by_id) at (subst (λ z. by_id l source z input ≡ ok (m, x)) same b) in
      let a = new_input-Appended l source id input (m, x) b' in
      let cs = listed source l.closures in
      let at : coordinate (field x.fields 9) ≡ normal_eligibility input.eligibility cs =
        ap coordinate a.placed ∙ coordinate-coord_value (normal_eligibility input.eligibility cs) in
      rw at (
        normal_eligibility-kept input.eligibility cs,
        normal_eligibility-later input.eligibility cs os,
        a.not_final,
      )
