-- ===== src/Trigger/Registry/Definitions.antt =====
-- Which definitions are registered, and which records of definitions are accepted
-- (internal/csf/trigger/authority.go).
use mathlib.Core.List.{Permᴰ}
use mathlib.Core.List.Permᴰ
use cote_ai_simulation.Base.{
  ◌≡◌, ◌≢◌, ◌↔◌, refl, sym, ap, subst, true, false, not, arith, List, [], ◌∷◌, ok, then-eq_ok,
  guard-then-eq_ok, ok-injective, Bool-cases, inl, inr, All, All-perm, Pairs, Pairs-perm,
  Neighbours, Neighbours-Pairs, Among-perm, Pairs-unique, Ordering, All-map, map_err-eq_ok,
}
use cote_ai_simulation.Base.Bytes.{
  bytes_equal, bytes_compare, bytes_equal_refl, bytes_equal-eq, bytes_compare-eq,
  bytes_compare-flip, bytes_compare-unflip, bytes_compare_trans, bytes_compare_refl,
}
use cote_ai_simulation.Base.Sort.{sort, IsAscending, sort-IsAscending, sort-perm}
use cote_ai_simulation.Trigger.{Definition, validate}
use cote_ai_simulation.Trigger.Registry.{
  of_trigger, duplicate_trigger, definition_less, check_after, check_definitions,
  canonical_definitions, invalid_definition,
}

-- Accepted by `Validate`.
abbrev pub IsValid : Definition → Type 0
IsValid d = validate d ≡ ok tt

abbrev pub HasOtherId : Definition → Definition → Type 0
HasOtherId a b = a.id ≢ b.id

abbrev pub HasLaterId : Definition → Definition → Type 0
HasLaterId a b = bytes_compare a.id b.id ≡ Ordering.lt

definition_less-asymm :
    (a b : Definition) → definition_less a b ≡ true → definition_less b a ≡ false
definition_less-asymm a b h = ground (arith, bytes_compare-flip a.id b.id)

later_of_apart :
    (a b : Definition)
    → definition_less b a ≡ false
    → bytes_equal a.id b.id ≡ false
    → HasLaterId a b
later_of_apart a b h e =
    ground
      (arith, bytes_compare-eq a.id b.id, bytes_compare-unflip a.id b.id, bytes_equal_refl a.id)

other_of_later : (a b : Definition) → HasLaterId a b → HasOtherId a b
other_of_later a b h e = cc (bytes_compare_refl b.id)

check_after-ok :
    (a : Definition) (ds : List Definition)
    → IsAscending definition_less (a ∷ ds)
    → check_after a ds ≡ ok tt
    → All IsValid ds × Neighbours HasLaterId (a ∷ ds)
unfolding check_after
check_after-ok a [] s h = (tt, tt)
check_after-ok a (d ∷ ds) s h =
    let (v, h₁) = then-eq_ok (of_trigger (validate d)) _ h in
    let (n, h₂) = guard-then-eq_ok (not (bytes_equal a.id d.id)) duplicate_trigger _ h₁ in
    let (vs, ns) = check_after-ok d ds s.1 h₂ in
    (
      (map_err-eq_ok invalid_definition (validate d) v, vs),
      (later_of_apart a d s.0 (ground (arith, n)), ns),
    )

check_after_complete :
    (a : Definition) (ds : List Definition)
    → All IsValid ds
    → Pairs HasOtherId (a ∷ ds)
    → check_after a ds ≡ ok tt
unfolding check_after
check_after_complete a [] vs ps = refl
check_after_complete a (d ∷ ds) vs ps = elim (Bool-cases (bytes_equal a.id d.id)) [
  | inl e ↦ absurd (ps.0.0 (bytes_equal-eq a.id d.id e))
  | inr e ↦ rw (vs.0, e) (check_after_complete d ds vs.1 ps.1)
]

check_definitions-ok :
    (ds : List Definition)
    → IsAscending definition_less ds
    → check_definitions ds ≡ ok tt
    → All IsValid ds × Neighbours HasLaterId ds
unfolding check_definitions
check_definitions-ok [] s h = (tt, tt)
check_definitions-ok (d ∷ ds) s h =
    let (v, h₁) = then-eq_ok (of_trigger (validate d)) _ h in
    let (vs, ns) = check_after-ok d ds s h₁ in
    ((map_err-eq_ok invalid_definition (validate d) v, vs), ns)

check_definitions_complete :
    (ds : List Definition) → All IsValid ds → Pairs HasOtherId ds → check_definitions ds ≡ ok tt
unfolding check_definitions
check_definitions_complete [] vs ps = refl
check_definitions_complete (d ∷ ds) vs ps = rw vs.0 (check_after_complete d ds vs.1 ps)

Pairs-other_of_later : (ds : List Definition) → Pairs HasLaterId ds → Pairs HasOtherId ds
Pairs-other_of_later [] h = tt
Pairs-other_of_later (d ∷ ds) h = (All-map (other_of_later d) ds h.0, Pairs-other_of_later ds h.1)

later_asymm : (a b : Definition) → HasLaterId a b → HasLaterId b a → ⊥
later_asymm a b h k = cc (bytes_compare-flip a.id b.id h)

module _ (ds : List Definition) where
  sorted : IsAscending definition_less (sort definition_less ds)
  sorted = sort-IsAscending definition_less definition_less-asymm ds

  arranged : Permᴰ (sort definition_less ds) ds
  arranged = sort-perm definition_less ds

  -- `CanonicalDefinitions` returns a list exactly if it is the given definitions, in whatever order
  -- they came, by strictly ascending IDs, and each of them is valid.
  pub canonical_definitions_iff :
      (out : List Definition)
      → (canonical_definitions ds ≡ ok out)
        ↔ (All IsValid out × Permᴰ out ds × Pairs HasLaterId out)
  unfolding canonical_definitions
  canonical_definitions_iff out = (forth, back)
    where
      forth :
          canonical_definitions ds ≡ ok out → All IsValid out × Permᴰ out ds × Pairs HasLaterId out
      forth h =
          let (c, e) = then-eq_ok (check_definitions (sort definition_less ds)) _ h in
          let (vs, ns) = check_definitions-ok (sort definition_less ds) sorted c in
          subst (λ x. All IsValid x × Permᴰ x ds × Pairs HasLaterId x) (ok-injective e)
            (
              vs,
              arranged,
              Neighbours-Pairs HasLaterId (λ a b c. bytes_compare_trans a.id b.id c.id) _ ns,
            )

      back :
          All IsValid out × Permᴰ out ds × Pairs HasLaterId out → canonical_definitions ds ≡ ok out
      back (vs, d, ps) =
          let into = Permᴰ.trans d (Permᴰ.symm arranged) in
          let others =
            Pairs-perm HasOtherId (λ a b n e. n (sym e)) into (Pairs-other_of_later out ps) in
          let valid = All-perm IsValid into vs in
          let c = check_definitions_complete (sort definition_less ds) valid others in
          let (ws, ns) = check_definitions-ok (sort definition_less ds) sorted c in
          let later =
            Neighbours-Pairs HasLaterId (λ a b c. bytes_compare_trans a.id b.id c.id) _ ns in
          let same : sort definition_less ds ≡ out =
            Pairs-unique HasLaterId later_asymm _ out (λ a m. Among-perm a (Permᴰ.symm into) m)
              (λ a m. Among-perm a into m) later ps in
          rw c (ap ok same)
