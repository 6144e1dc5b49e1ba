-- ===== src/Codec/Unassigned.antt =====
-- The binary search of `containsUnicode15Unassigned` (internal/csf/codec/codec.go) decides whether
-- a code point lies in a range of the table.
use cote_ai_simulation.Base.{
  ℕ, zero, suc, ◌+◌, ◌-◌, ◌/◌, ◌≤◌, ◌<◌, ◌≡◌, refl, true, arith, ltb→lt, lt→ltb, ltb, List, [], ◌∷◌,
  length, Among, subst, ◌↔◌, ◌⊎◌, inl, inr, Bool-cases,
}
use cote_ai_simulation.Codec.{search_unassigned, contains_unassigned, in_table}

-- The ranges are not empty, ascend and do not overlap.
pub record IsTable (table : List (ℕ × ℕ)) : Type 0 where
  pub ranges : (i : ℕ) → i < length table → (in_table table i).0 ≤ (in_table table i).1
  pub ascends : (i j : ℕ) → i < j → j < length table → (in_table table i).1 < (in_table table j).0

-- The code point lies in the range at a position of the slice from `low` to `high`.
abbrev pub Covered : List (ℕ × ℕ) → ℕ → ℕ → ℕ → Type 0
Covered table low high c =
    (i : ℕ) × (low ≤ i) × (i < high) × ((in_table table i).0 ≤ c) × (c ≤ (in_table table i).1)

-- The middle of a range that is not empty lies in it.
abbrev middle : ℕ → ℕ → ℕ
middle low high = low + (high - low) / 2

middle_bounds : (low high : ℕ) → low < high → (low ≤ middle low high) × (middle low high < high)
middle_bounds low high h = omega arith

-- A slice of a covered slice.
widen :
    (table : List (ℕ × ℕ)) (c low high low' high' : ℕ)
    → low ≤ low'
    → high' ≤ high
    → Covered table low' high' c
    → Covered table low high c
widen table c low high low' high' a b (i, l, h, p, q) = (i, omega arith, omega arith, p, q)

module _ (table : List (ℕ × ℕ)) (c : ℕ) where
  search_sound :
      (fuel low high : ℕ)
      → search_unassigned fuel table low high c ≡ true
      → Covered table low high c
  unfolding search_unassigned
  search_sound zero low high h = cc
  search_sound (suc fuel) low high h = elim (Bool-cases (ltb low high)) [
    | inr e ↦ absurd (ground arith)
    | inl e ↦
        let m = middle low high in
        let bounds = middle_bounds low high (ground arith) in
        elim (Bool-cases (ltb c (in_table table m).0)) [
          | inl l ↦
              widen table c low high low m (omega arith) (omega (arith, bounds.1))
                (search_sound fuel low m (rw (e, l) at h))
          | inr l ↦ elim (Bool-cases (ltb (in_table table m).1 c)) [
            | inl r ↦
                widen table c low high (m + 1) high (omega (arith, bounds.0)) (omega arith)
                  (search_sound fuel (m + 1) high (rw (e, l, r) at h))
            | inr r ↦ (m, bounds.0, bounds.1, ground arith, ground arith)
          ]
        ]
  ]

  module _ (t : IsTable table) where
    -- A code point below a range lies in none of the later ranges, and above it in none before.
    below_start :
        (m i : ℕ)
        → m < length table
        → i < length table
        → (in_table table i).0 ≤ c
        → c < (in_table table m).0
        → i < m
    below_start m i bm bi p l = elim (order m i) [
      | inl e ↦ e
      | inr (inl e) ↦ absurd (ground arith)
      | inr (inr e) ↦ absurd (omega (arith, t.ranges m bm, t.ascends m i e bi))
    ]
      where
        order : (m i : ℕ) → (i < m) ⊎ ((i ≡ m) ⊎ (m < i))
        order m i = ground arith

    after :
        (m i : ℕ)
        → m < length table
        → i < length table
        → c ≤ (in_table table i).1
        → (in_table table m).1 < c
        → m < i
    after m i bm bi q l = elim (order m i) [
      | inl e ↦ absurd (omega (arith, t.ranges m bm, t.ascends i m e bm))
      | inr (inl e) ↦ absurd (ground arith)
      | inr (inr e) ↦ e
    ]
      where
        order : (m i : ℕ) → (i < m) ⊎ ((i ≡ m) ⊎ (m < i))
        order m i = ground arith

    search_complete :
        (fuel low high : ℕ)
        → high ≤ length table
        → high - low ≤ fuel
        → Covered table low high c
        → search_unassigned fuel table low high c ≡ true
    unfolding search_unassigned
    search_complete zero low high b f (i, l, h, p, q) = absurd (omega arith)
    search_complete (suc fuel) low high b f (i, l, h, p, q) =
        let m = middle low high in
        let bounds = middle_bounds low high (omega arith) in
        rw (lt→ltb low high (omega arith)) (elim (Bool-cases (ltb c (in_table table m).0)) [
          | inl x ↦ rw x (
              search_complete fuel low m (omega (arith, bounds.1)) (omega (arith, bounds.1)) (
                i,
                l,
                below_start m i (omega (arith, bounds.1)) (omega arith) p (ltb→lt _ _ x),
                p,
                q,
              ))
          | inr x ↦ elim (Bool-cases (ltb (in_table table m).1 c)) [
            | inl y ↦
                rw (x, y)
                  (search_complete fuel (m + 1) high b (omega (arith, bounds.0)) (
                    i,
                    omega
                        (arith, after m i (omega (arith, bounds.1)) (omega arith) q (ltb→lt _ _ y)),
                    h,
                    p,
                    q,
                  ))
            | inr y ↦ rw (x, y) refl
          ]
        ])

    -- The binary search of the whole table finds a code point exactly if some range holds it.
    pub search_iff :
        (search_unassigned (length table) table 0 (length table) c ≡ true)
        ↔ Covered table 0 (length table) c
    search_iff = (
      search_sound (length table) 0 (length table),
      search_complete (length table) 0 (length table) (omega arith) (omega arith),
    )

-- Some code point of the string lies in a range of the table.
abbrev pub HasUnassigned : List (ℕ × ℕ) → List ℕ → Type 0
HasUnassigned table cs = (c : ℕ) × Among c cs × Covered table 0 (length table) c

module _ (table : List (ℕ × ℕ)) (t : IsTable table) (d : ℕ) (cs : List ℕ)
    (ih : (contains_unassigned table cs ≡ true) ↔ HasUnassigned table cs) where
  found : contains_unassigned table (d ∷ cs) ≡ true → HasUnassigned table (d ∷ cs)
  unfolding contains_unassigned
  found h = elim (Bool-cases (search_unassigned (length table) table 0 (length table) d)) [
    | inl e ↦ (d, inl refl, (search_iff table d t).0 e)
    | inr e ↦ let (c, m, v) = ih.0 (rw e at h) in (c, inr m, v)
  ]

  finds : HasUnassigned table (d ∷ cs) → contains_unassigned table (d ∷ cs) ≡ true
  unfolding contains_unassigned
  finds (c, inl e, v) =
      rw ((search_iff table d t).1 (subst (Covered table 0 (length table)) e v)) refl
  finds (c, inr m, v) = ground (arith, ih.1 (c, m, v))

-- A string holds an unassigned code point exactly if one of its code points lies in a range of the
-- table, where the table's ranges ascend.
pub contains_unassigned_iff :
    (table : List (ℕ × ℕ)) (cs : List ℕ)
    → IsTable table
    → (contains_unassigned table cs ≡ true) ↔ HasUnassigned table cs
unfolding contains_unassigned
contains_unassigned_iff table [] t = (λ h. cc, λ x. absurd x.1)
contains_unassigned_iff table (d ∷ cs) t =
    let ih = contains_unassigned_iff table cs t in (found table t d cs ih, finds table t d cs ih)
