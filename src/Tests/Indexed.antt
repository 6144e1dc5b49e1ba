-- ===== src/Tests/Indexed.antt =====
-- A codec for the examples that reads every plain value back: a value is written as its place in a
-- table, where what is read back of it stands there.
use cote_ai_simulation.Base.{
  zero, suc, ◌≡◌, refl, sym, ap, ap₂, Bool, true, false, ◌&&◌, ◌==◌, if◌then◌else◌, arith, List, [],
  ◌∷◌, Option, some, none, Bool-cases, Option-cases, inl, inr,
}
use cote_ai_simulation.Base.Bytes.{Bytes, bytes_equal, bytes_equal-eq}
use cote_ai_simulation.Base.Int.{pos, negsuc, eqb_ℤ, eqb_ℤ-eq}
use cote_ai_simulation.Value.{
  Value, Values, null, boolean, byte_string, text, int64, uint64, uint32, float64, mapping, array,
  nil, cons,
}
use cote_ai_simulation.Codec.{Library}
use cote_ai_simulation.Codec.Canonical.{IsNormalizer}
use cote_ai_simulation.Codec.ReadBack.{read_back, read_back_each, ReadsPlain}

-- Two values are the same; floats and maps are never.
unfoldable mutual
  pub same : Value → Value → Bool
  same null null = true
  same (boolean true) (boolean true) = true
  same (boolean false) (boolean false) = true
  same (byte_string a) (byte_string b) = bytes_equal a b
  same (text a) (text b) = bytes_equal a b
  same (int64 a) (int64 b) = eqb_ℤ a b
  same (uint64 a) (uint64 b) = a == b
  same (array vs) (array ws) = same_each vs ws
  same _ _ = false

  pub same_each : Values → Values → Bool
  same_each nil nil = true
  same_each (cons v vs) (cons w ws) = same v w && same_each vs ws
  same_each _ _ = false

and_parts : (a b : Bool) → (a && b) ≡ true → (a ≡ true) × (b ≡ true)
and_parts a b h = (ground arith, ground arith)

mutual
  unfolding same

  same-eq : (v w : Value) → same v w ≡ true → v ≡ w
  same-eq null null h = refl
  same-eq (boolean true) (boolean true) h = refl
  same-eq (boolean false) (boolean false) h = refl
  same-eq (byte_string a) (byte_string b) h = ap byte_string (bytes_equal-eq a b h)
  same-eq (text a) (text b) h = ap text (bytes_equal-eq a b h)
  same-eq (int64 a) (int64 b) h = ap int64 (eqb_ℤ-eq a b h)
  same-eq (uint64 a) (uint64 b) h = ap uint64 (ground arith)
  same-eq (array vs) (array ws) h = ap array (same_each-eq vs ws h)
  same-eq _ _ h = cc

  same_each-eq : (vs ws : Values) → same_each vs ws ≡ true → vs ≡ ws
  same_each-eq nil nil h = refl
  same_each-eq (cons v vs) (cons w ws) h =
      let (p, q) = and_parts (same v w) (same_each vs ws) h in
      ap₂ cons (same-eq v w p) (same_each-eq vs ws q)
  same_each-eq _ _ h = cc

abbrev pub bump : Bytes → Bytes
bump [] = []
bump (i ∷ is) = suc i ∷ is

unfoldable pub place : List Value → Value → Option Bytes
place [] v = none
place (w ∷ ws) v =
    let rest = place ws v in
    if same v w then some (0 ∷ []) else elim rest [ none ↦ none | some b ↦ some (bump b) ]

unfoldable pub at_place : List Value → Bytes → Option Value
at_place [] b = none
at_place (w ∷ ws) [] = none
at_place (w ∷ ws) (zero ∷ is) = some w
at_place (w ∷ ws) (suc i ∷ is) = at_place ws (i ∷ is)

some_eq : {a b : Bytes} → ◌≡◌ {A = Option Bytes} (some a) (some b) → a ≡ b
some_eq h = cc

none_is_not : {b : Bytes} → ◌≡◌ {A = Option Bytes} none (some b) → ⊥
none_is_not h = cc

bumped :
    (w v : Value) (ws : List Value) (c : Bytes)
    → at_place ws c ≡ some v
    → at_place (w ∷ ws) (bump c) ≡ some v
unfolding at_place
bumped w v [] c h = cc
bumped w v (x ∷ ws) [] h = cc
bumped w v (x ∷ ws) (i ∷ is) h = h

at_place-place :
    (table : List Value) (v : Value) (b : Bytes)
    → place table v ≡ some b
    → at_place table b ≡ some v
unfolding place at_place
at_place-place [] v b h = absurd (none_is_not h)
at_place-place (w ∷ ws) v b h = elim (Bool-cases (same v w)) [
  | inl e ↦ rw (← some_eq (rw (e, place) at h)) (ap some (sym (same-eq v w e)))
  | inr e ↦ elim (Option-cases (place ws v)) [
    | inl f ↦ absurd (none_is_not (rw (e, f, place) at h))
    | inr (c, f) ↦
        rw (← some_eq (rw (e, f, place) at h)) (bumped w v ws c (at_place-place ws v c f))
  ]
]

mutual
  unfolding read_back

  read_back_again : (v : Value) → read_back (read_back v) ≡ read_back v
  read_back_again null = refl
  read_back_again (boolean b) = refl
  read_back_again (byte_string b) = refl
  read_back_again (text s) = refl
  read_back_again (float64 n) = refl
  read_back_again (int64 (pos n)) = refl
  read_back_again (int64 (negsuc n)) = refl
  read_back_again (uint64 n) = refl
  read_back_again (uint32 n) = refl
  read_back_again (array vs) = ap array (read_back_each_again vs)
  read_back_again (mapping es) = refl

  read_back_each_again : (vs : Values) → read_back_each (read_back_each vs) ≡ read_back_each vs
  read_back_each_again nil = refl
  read_back_each_again (cons v vs) = ap₂ cons (read_back_again v) (read_back_each_again vs)

abbrev pub indexed : List Value → Library
indexed table = record {
  unmarshal = at_place table;
  marshal = λ v. place table (read_back v);
  nfc = λ s. s;
  code_points = some;
  unassigned = [];
}

pub indexed-ReadsPlain : (table : List Value) → ReadsPlain (indexed table)
indexed-ReadsPlain table = record {
  reads = λ v b p n m. at_place-place table (read_back v) b m;
  writes_alike = λ v p n. rw (read_back_again v) refl;
}

pub indexed-IsNormalizer : (table : List Value) → IsNormalizer (indexed table)
indexed-IsNormalizer table = record { keeps_utf8 = λ s cs h. (s, refl); stable = λ s. refl }
