-- ===== src/Ledger/Restored.antt =====
-- What a ledger that is opened again holds (`restore` of internal/csf/inputledger/ledger.go).
use cote_ai_simulation.Base.{
  ℕ, ◌+◌, ◌≡◌, refl, sym, ◌∙◌, ◌&&◌, true, false, not, ◌==◌, arith, List, [], ◌∷◌, ◌++◌, Option,
  some, none, length, length-append, ok, bind-eq_ok, guard-then-eq_ok, ok-injective, All, All-map,
  All-zip, Bool-cases, Option-cases, inl, inr, subst, subst₂,
}
use cote_ai_simulation.Base.Bytes.{Bytes, bytes_equal, bytes_equal_refl}
use cote_ai_simulation.Domain.{EligibilityCoordinate, compare_coordinate, is_lt, is_le}
use cote_ai_simulation.Domain.Order.{le_trans}
use cote_ai_simulation.Value.{field, is_literal}
use cote_ai_simulation.Store.Maps.{lookup, put}
use cote_ai_simulation.Ledger.{Ledger, Stored}
use cote_ai_simulation.Ledger.Sources.{listed, closed_at, is_final, coordinate}
use cote_ai_simulation.Ledger.History.{IsHistory, Precedes, Pairs-append, listed-put}
use cote_ai_simulation.Ledger.Records.{
  receipt_differs, input_not_above, closure_regressed, ingress_after_final, ingress_gap,
}
use cote_ai_simulation.Ledger.Restore.{Receipt}
use cote_ai_simulation.Ledger.Histories.{
  Attaching, receipt_of, above_last, not_regressed, is_sequence, attach_input, attach_closure,
  attach_record, attach, attach_all,
}

-- Every closure of the list closes no more than the last one; without a last one there is none.
abbrev Below : Option EligibilityCoordinate → List Stored → Type 0
Below none cs = cs ≡ []
Below (some last) cs = All (λ c. is_le (compare_coordinate (closed_at c) last) ≡ true) cs

abbrev pub inputs_of : Ledger → Bytes → List Stored
inputs_of l source = listed source l.inputs

abbrev pub closures_of : Ledger → Bytes → List Stored
closures_of l source = listed source l.closures

-- The ledgers have the same ingress records of every other source.
pub record SameElsewhere (source : Bytes) (l m : Ledger) : Type 0 where
  pub same_inputs : (y : Bytes) → bytes_equal source y ≡ false → inputs_of m y ≡ inputs_of l y
  pub same_closures : (y : Bytes) → bytes_equal source y ≡ false → closures_of m y ≡ closures_of l y
  pub same_cursors : m.cursors ≡ l.cursors

-- The variables of the loop over the receipts of a source, before position i.
pub record IsAttaching (source : Bytes) (start : Ledger) (i : ℕ) (s : Attaching) : Type 0 where
  pub history : IsHistory s.ledger
  pub below : Below s.last_closed (closures_of s.ledger source)
  pub not_final : s.final ≡ false → All (λ c. is_final c ≡ false) (closures_of s.ledger source)
  pub count : length (inputs_of s.ledger source) + length (closures_of s.ledger source) ≡ i
  pub elsewhere : SameElsewhere source start s.ledger

listed-put_self :
    (source : Bytes) (xs : List Stored) (m : List (Bytes × List Stored))
    → listed source (put source xs m) ≡ xs
listed-put_self source xs m = rw (listed-put source source xs m, bytes_equal_refl source) refl

listed-put_other :
    (source y : Bytes) (xs : List Stored) (m : List (Bytes × List Stored))
    → bytes_equal source y ≡ false
    → listed y (put source xs m) ≡ listed y m
listed-put_other source y xs m e = rw (listed-put source y xs m, e) refl

le_refl : (a : EligibilityCoordinate) → is_le (compare_coordinate a a) ≡ true
unfolding compare_coordinate
le_refl a = ground arith

not_lt-le :
    (a b : EligibilityCoordinate)
    → not (is_lt (compare_coordinate a b)) ≡ true
    → is_le (compare_coordinate b a) ≡ true
unfolding compare_coordinate
not_lt-le a b h = ground arith

All-append :
    (P : Stored → Type 0) (xs : List Stored) (x : Stored) → All P xs → P x → All P (xs ++ x ∷ [])
All-append P [] x h p = (p, tt)
All-append P (y ∷ xs) x h p = (h.0, All-append P xs x h.1 p)

extends :
    (last : Option EligibilityCoordinate) (cs : List Stored) (c : Stored)
    → Below last cs
    → not_regressed last (closed_at c) ≡ true
    → All (λ d. is_final d ≡ false) cs
    → All (λ d. Precedes d c) cs
extends none cs c b n f = subst (All (λ d. Precedes d c)) (sym b) tt
extends (some last) cs c b n f =
    All-zip
      (λ d g k. (g, le_trans (closed_at d) last (closed_at c) k (not_lt-le (closed_at c) last n)))
      cs f b

module _ (source : Bytes) (start : Ledger) (i : ℕ) (s : Attaching)
    (w : IsAttaching source start i s) where
  attach_input-IsAttaching :
      (r : Receipt) (input : Stored) (t : Attaching)
      → attach_input source s r input ≡ ok t
      → IsAttaching source start (i + 1) t
  unfolding attach_input
  attach_input-IsAttaching r input t h =
      let (a, h₁) =
        guard-then-eq_ok
          ((r.kind == 1)
            && (bytes_equal r.digest input.digest && is_literal (field input.fields 2) source))
          receipt_differs _ h in
      let (b, h₂) =
        guard-then-eq_ok (above_last s.last_closed (coordinate (field input.fields 9)))
          input_not_above _ h₁ in
      let stored : Stored = record input { receipt = receipt_of r source input } in
      let e =
        listed-put_self source (listed source s.ledger.inputs ++ stored ∷ []) s.ledger.inputs in
      let l = length-append (listed source s.ledger.inputs) (stored ∷ []) in
      subst (IsAttaching source start (i + 1)) (ok-injective h₂) (record {
        history = w.history;
        below = w.below;
        not_final = w.not_final;
        count = rw e (omega (arith, l, w.count));
        elsewhere = record {
          same_inputs =
              λ y n. listed-put_other source y _ s.ledger.inputs n ∙ w.elsewhere.same_inputs y n;
          same_closures = w.elsewhere.same_closures;
          same_cursors = w.elsewhere.same_cursors;
        };
      })

  attach_closure-IsAttaching :
      (r : Receipt) (closure : Stored) (t : Attaching)
      → s.final ≡ false
      → attach_closure source s r closure ≡ ok t
      → IsAttaching source start (i + 1) t
  unfolding attach_closure
  attach_closure-IsAttaching r closure t f h =
      let (a, h₁) =
        guard-then-eq_ok
          ((r.kind == 2)
            && (bytes_equal r.digest closure.digest
                && (is_literal (field closure.fields 2) source
                    && is_sequence (field closure.fields 6) r.seq)))
          receipt_differs _ h in
      let (n, h₂) =
        guard-then-eq_ok (not_regressed s.last_closed (closed_at closure)) closure_regressed _ h₁ in
      let stored : Stored = record closure { receipt = receipt_of r source closure } in
      let cs = closures_of s.ledger source in
      let e = listed-put_self source (cs ++ stored ∷ []) s.ledger.closures in
      let l = length-append cs (stored ∷ []) in
      let p = extends s.last_closed cs stored w.below n (w.not_final f) in
      subst (IsAttaching source start (i + 1)) (ok-injective h₂) (record {
        history = λ y.
            rw (listed-put source y (cs ++ stored ∷ []) s.ledger.closures)
              (elim (Bool-cases (bytes_equal source y)) [
                | inl x ↦ rw x (Pairs-append cs stored (w.history source) p)
                | inr x ↦ rw x (w.history y)
              ]);
        below =
            rw e (All-append _ cs stored (All-map (λ c q. q.1) cs p) (le_refl (closed_at closure)));
        not_final = λ g. rw e (All-append _ cs stored (w.not_final f) g);
        count = rw e (omega (arith, l, w.count));
        elsewhere = record {
          same_inputs = w.elsewhere.same_inputs;
          same_closures = λ y x.
              listed-put_other source y _ s.ledger.closures x ∙ w.elsewhere.same_closures y x;
          same_cursors = w.elsewhere.same_cursors;
        };
      })

module _ (inputs closures : List (Bytes × Stored)) (source : Bytes) (start : Ledger) where
  attach-IsAttaching :
      (i : ℕ) (s t : Attaching) (r : Receipt)
      → IsAttaching source start i s
      → attach inputs closures source i s r ≡ ok t
      → IsAttaching source start (i + 1) t
  unfolding attach attach_record
  attach-IsAttaching i s t r w h =
      let (f, h₁) = guard-then-eq_ok (not s.final) ingress_after_final _ h in
      let (g, h₂) = guard-then-eq_ok (r.seq == i) ingress_gap _ h₁ in
      let f' : s.final ≡ false = ground (arith, f) in
      elim (Option-cases (lookup r.id inputs)) [
        | inr (input, e) ↦
            attach_input-IsAttaching source start i s w r input t (rw (e, attach_record) at h₂)
        | inl e ↦ elim (Option-cases (lookup r.id closures)) [
          | inr (closure, e') ↦
              attach_closure-IsAttaching source start i s w r closure t f'
                (rw (e, e', attach_record) at h₂)
          | inl e' ↦ absurd (ground (arith, rw (e, e', attach_record) at h₂))
        ]
      ]

  pub attach_all-IsAttaching :
      (i : ℕ) (s t : Attaching) (rs : List Receipt)
      → IsAttaching source start i s
      → attach_all inputs closures source i s rs ≡ ok t
      → IsAttaching source start (i + length rs) t
  unfolding attach_all
  attach_all-IsAttaching i s t [] w h =
      subst₂ (IsAttaching source start) (omega arith) (ok-injective h) w
  attach_all-IsAttaching i s t (r ∷ rs) w h =
      let (u, a, h₁) = bind-eq_ok (attach inputs closures source i s r) _ h in
      let v = attach-IsAttaching i s u r w a in
      let e : (i + 1) + length rs ≡ i + length (r ∷ rs) = omega arith in
      subst (λ n. IsAttaching source start n t) e (attach_all-IsAttaching (i + 1) u t rs v h₁)
