-- ===== src/Admission/Sufficient.antt =====
-- Which closures an admission accepts for a source (internal/csf/admission/fence.go).
use cote_ai_simulation.Base.{
  ℕ, ◌≡◌, ◌≢◌, refl, Bool, true, false, ◌&&◌, ◌||◌, arith, some, none, inl, inr, ◌⊎◌, Ordering,
}
use cote_ai_simulation.Base.Bytes.{Bytes, bytes_equal, bytes_equal-eq, bytes_equal_refl}
use cote_ai_simulation.Domain.{EligibilityCoordinate, compare_coordinate, is_ge}
use cote_ai_simulation.Value.{Value, boolean, field, as_bool}
use cote_ai_simulation.Ledger.Sources.{coordinate, closed_at, is_final}
use cote_ai_simulation.Ledger.{Stored}
use cote_ai_simulation.Admission.Units.{qualifies}

abbrev sequence : Stored → ℕ
sequence c = c.receipt.sequence

-- A closure of the source that is final or closes at or after the coordinate: what its receipt
-- and its fields 4 and 5 say.
pub record IsSufficient (source : Bytes) (at : EligibilityCoordinate) (c : Stored) : Type 0 where
  pub of_source : c.receipt.source_id ≡ source
  pub through :
      (field c.fields 5 ≡ boolean true)
      ⊎ (compare_coordinate (coordinate (field c.fields 4)) at ≢ Ordering.lt)

final_field : (v : Value) → elim (as_bool v) [ some b ↦ b | none ↦ false ] ≡ true → v ≡ boolean true
final_field (boolean true) h = refl
final_field (boolean false) h = cc
final_field _ h = cc

final_of : (v : Value) → v ≡ boolean true → elim (as_bool v) [ some b ↦ b | none ↦ false ] ≡ true
final_of v h = rw h refl

not_lt : (o : Ordering) → is_ge o ≡ true → o ≢ Ordering.lt
not_lt Ordering.lt h e = cc
not_lt Ordering.eq h e = cc
not_lt Ordering.gt h e = cc

ge_of : (o : Ordering) → o ≢ Ordering.lt → is_ge o ≡ true
ge_of Ordering.lt h = absurd (h refl)
ge_of Ordering.eq h = refl
ge_of Ordering.gt h = refl

pub true_is_not : {b : Bool} → b ≡ true → b ≡ false → ⊥
true_is_not h k = cc

and_parts : (a b : Bool) → (a && b) ≡ true → (a ≡ true) × (b ≡ true)
and_parts a b h = (ground arith, ground arith)

or_parts : (a b : Bool) → (a || b) ≡ true → (a ≡ true) ⊎ (b ≡ true)
or_parts true b h = inl refl
or_parts false b h = inr h

pub qualifies-IsSufficient :
    (source : Bytes) (at : EligibilityCoordinate) (c : Stored)
    → qualifies source at c ≡ true
    → IsSufficient source at c
unfolding qualifies
qualifies-IsSufficient source at c h =
    let (s, t) = and_parts (bytes_equal c.receipt.source_id source) _ h in
    record {
      of_source = bytes_equal-eq c.receipt.source_id source s;
      through = elim (or_parts (is_final c) (is_ge (compare_coordinate (closed_at c) at)) t) [
        | inl f ↦ inl (final_field (field c.fields 5) f)
        | inr g ↦ inr (not_lt (compare_coordinate (closed_at c) at) g)
      ];
    }

pub IsSufficient-qualifies :
    (source : Bytes) (at : EligibilityCoordinate) (c : Stored)
    → IsSufficient source at c
    → qualifies source at c ≡ true
unfolding qualifies
IsSufficient-qualifies source at c w =
    let s : bytes_equal c.receipt.source_id source ≡ true =
      rw w.of_source (bytes_equal_refl source) in
    elim w.through [
      | inl f ↦ let e : is_final c ≡ true = final_of (field c.fields 5) f in rw (s, e) refl
      | inr g ↦ let e = ge_of (compare_coordinate (closed_at c) at) g in ground (arith, e, s)
    ]
