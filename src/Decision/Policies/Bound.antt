-- ===== src/Decision/Policies/Bound.antt =====
-- Where the reference of a policy role comes from (internal/csf/decision/kernel.go, `policyRefs`).
use cote_ai_simulation.Base.{
  ◌≡◌, ◌≢◌, ◌⊎◌, refl, sym, ap, ◌∙◌, Bool, true, ◌&&◌, ◌==◌, not, List, [], ◌∷◌, Option, some, ok,
  or_fail, map_err, length, arith, bind-eq_ok, guard-then-eq_ok, or_fail-eq_ok, map_err-eq_ok,
  ok-injective, All, All-among, Among, Bool-cases, inl, inr, subst, subst₂, Option-cases,
}
use cote_ai_simulation.Base.Bytes.{Bytes, literal, bytes_equal, bytes_equal-eq, bytes_equal_refl}
use cote_ai_simulation.Value.{Value, Entries, is_literal, as_array, as_text, field}
use cote_ai_simulation.Codec.{Library}
use cote_ai_simulation.Store.Maps.{lookup, put, entries}
use cote_ai_simulation.Identity.Bundles.{Json, member}
use cote_ai_simulation.Identity.Bundles.Load.{PolicyBundle}
use cote_ai_simulation.Identity.Bundles.Manifests.{is_seen}
use cote_ai_simulation.Identity.Bundles.Policies.{
  required_policy_roles, genesis_policy_refs, as_mapping,
}
use cote_ai_simulation.Decision.Policies.{
  pinned_ref, bound_name, read_binding, bind_roles, all_bound, policy_refs, inconsistent_bindings,
  invalid_binding, invalid_genesis_role, malformed_ref, malformed_id, unbound_role, missing_policy,
  different_roles, not_read,
}
use cote_ai_simulation.Identity.Bundles.Genesis.{IsRef, genesis_policy_refs-All}

some_eq : {a b : List Value} → ◌≡◌ {A = Option (List Value)} (some a) (some b) → a ≡ b
some_eq h = cc

and_right : (a b : Bool) → (a && b) ≡ true → b ≡ true
and_right a b h = ground arith

pinned_ref-Among :
    (refs : List (List Value)) (name : Bytes) (ref : List Value)
    → pinned_ref refs name ≡ some ref
    → Among ref refs × (is_literal (field ref 0) name ≡ true)
unfolding pinned_ref
pinned_ref-Among [] name ref h = cc
pinned_ref-Among (r ∷ rs) name ref h =
    elim (Bool-cases ((length r == 3) && is_literal (field r 0) name)) [
      | inl t ↦
          let e : r ≡ ref = some_eq (rw (t, pinned_ref) at h) in
          (inl (sym e), rw (← e) (and_right (length r == 3) (is_literal (field r 0) name) t))
      | inr t ↦ let (m, l) = pinned_ref-Among rs name ref (rw (t, pinned_ref) at h) in (inr m, l)
    ]

-- A binding of the role to a name, as `policyRefs` reads it.
pub record Binds (role : Bytes) (name : Bytes) (item : Value) : Type 0 where
  pub binding : Entries
  pub bound : List Value
  pub is_binding : as_mapping item ≡ some binding
  pub has_role : as_text (member (literal "role") binding) ≡ some role
  pub has_ref : as_array (member (literal "ref") binding) ≡ some bound
  pub has_name : as_text (field bound 0) ≡ some name

-- The ID of a pinned reference is the name that the binding gives the role, with one exception:
-- where the binding gives perception the name perception-visible-first-v1, it is perception-v1.
pub IsNamed : Bytes → Bytes → List Value → Type 0
IsNamed role name ref =
    ((is_literal (field ref 0) name ≡ true)
      × ((role ≡ literal "perception") → name ≢ literal "perception-visible-first-v1"))
    ⊎ ((role ≡ literal "perception")
        × (name ≡ literal "perception-visible-first-v1")
        × (is_literal (field ref 0) (literal "perception-v1") ≡ true))

bound_name-IsNamed :
    (role name : Bytes) (ref : List Value)
    → is_literal (field ref 0) (bound_name role name) ≡ true
    → IsNamed role name ref
unfolding IsNamed
bound_name-IsNamed role name ref h = elim (Bool-cases (bytes_equal role (literal "perception"))) [
  | inr e ↦ inl (
    rw e at h,
    λ r. cc (
      e,
      subst (λ x. bytes_equal x (literal "perception") ≡ true) (sym r)
          (bytes_equal_refl (literal "perception")),
    ),
  )
  | inl e ↦ elim (Bool-cases (bytes_equal name (literal "perception-visible-first-v1"))) [
    | inr f ↦ inl (
      rw (e, f) at h,
      λ r n. cc (
        f,
        subst (λ x. bytes_equal x (literal "perception-visible-first-v1") ≡ true) (sym n)
            (bytes_equal_refl (literal "perception-visible-first-v1")),
      ),
    )
    | inl f ↦ inr (bytes_equal-eq role _ e, bytes_equal-eq name _ f, rw (e, f) at h)
  ]
]

-- The reference of a role: the one pinned under the name that some binding gives the role, up to
-- the exception of `IsNamed`.
pub record IsBound (bindings : List Value) (refs : List (List Value)) (role : Bytes)
    (ref : List Value) : Type 0 where
  pub item : Value
  pub name : Bytes
  pub binding : Among item bindings
  pub binds : Binds role name item
  pub pinned : Among ref refs
  pub is_named : IsNamed role name ref

read_binding-Binds :
    (declared : List Bytes) (item : Value) (x : Bytes × Bytes)
    → read_binding declared item ≡ ok x
    → (name : Bytes) × Binds x.0 name item × (x.1 ≡ bound_name x.0 name)
unfolding read_binding
read_binding-Binds declared item x h =
    let (binding, a, h₁) = bind-eq_ok (or_fail (as_mapping item) invalid_binding) _ h in
    let (role, r, h₂) =
      bind-eq_ok (or_fail (as_text (member (literal "role") binding)) invalid_genesis_role) _ h₁ in
    let (n, h₃) = guard-then-eq_ok (not (is_seen role declared)) invalid_genesis_role _ h₂ in
    let (bound, c, h₄) =
      bind-eq_ok (or_fail (as_array (member (literal "ref") binding)) malformed_ref) _ h₃ in
    let (t, h₅) = guard-then-eq_ok (length bound == 3) malformed_ref _ h₄ in
    let (name, d, h₆) = bind-eq_ok (or_fail (as_text (field bound 0)) malformed_id) _ h₅ in
    subst
      (λ (z : Bytes × Bytes). (name : Bytes) × Binds z.0 name item × (z.1 ≡ bound_name z.0 name))
      (ok-injective h₆)
      (
        name,
        record {
          binding = binding;
          bound = bound;
          is_binding = or_fail-eq_ok _ invalid_binding a;
          has_role = or_fail-eq_ok _ invalid_genesis_role r;
          has_ref = or_fail-eq_ok _ malformed_ref c;
          has_name = or_fail-eq_ok _ malformed_id d;
        },
        refl,
      )

module _ (bindings : List Value) (refs : List (List Value)) where
  abbrev AreBound : List (Bytes × List Value) → Type 0
  AreBound result =
      (role : Bytes) (ref : List Value)
      → lookup role result ≡ some ref
      → IsBound bindings refs role ref

  put-AreBound :
      (k : Bytes) (v : List Value) (result : List (Bytes × List Value))
      → IsBound bindings refs k v
      → AreBound result
      → AreBound (put k v result)
  unfolding lookup
  put-AreBound k v result b h role ref l = elim (Bool-cases (bytes_equal k role)) [
    | inl e ↦ subst₂ (IsBound bindings refs) (bytes_equal-eq k role e) (some_eq (rw e at l)) b
    | inr e ↦ h role ref (rw e at l)
  ]

  bind_roles-AreBound :
      (declared : List Bytes) (result out : List (Bytes × List Value)) (items : List Value)
      → ((i : Value) → Among i items → Among i bindings)
      → AreBound result
      → bind_roles refs declared result items ≡ ok out
      → AreBound out
  unfolding bind_roles
  bind_roles-AreBound declared result out [] m b h = subst AreBound (ok-injective h) b
  bind_roles-AreBound declared result out (item ∷ items) m b h =
      let (x, e, h₁) = bind-eq_ok (read_binding declared item) _ h in
      let (ref, p, h₂) = bind-eq_ok (or_fail (pinned_ref refs x.1) unbound_role) _ h₁ in
      let (name, binds, n) = read_binding-Binds declared item x e in
      let (among, literal') = pinned_ref-Among refs x.1 ref (or_fail-eq_ok _ unbound_role p) in
      let bound : IsBound bindings refs x.0 ref = record {
        item = item;
        name = name;
        binding = m item (inl refl);
        binds = binds;
        pinned = among;
        is_named = bound_name-IsNamed x.0 name ref (rw (← n) literal');
      } in
      bind_roles-AreBound (x.0 ∷ declared) (put x.0 ref result) out items (λ i k. m i (inr k))
        (put-AreBound x.0 ref result bound b) h₂

all_bound-All :
    (result : List (Bytes × List Value)) (roles : List Bytes)
    → all_bound result roles ≡ true
    → All (λ r. (ref : List Value) × (lookup r result ≡ some ref)) roles
unfolding all_bound
all_bound-All result [] h = tt
all_bound-All result (r ∷ rs) h = elim (Option-cases (lookup r result)) [
  | inl e ↦ cc (rw (e, all_bound) at h)
  | inr (ref, e) ↦ ((ref, e), all_bound-All result rs (rw (e, all_bound) at h))
]

module _ (lib : Library) (json : Json) (b : PolicyBundle) (result : List (Bytes × List Value)) where
  -- The references of the policy roles, as they are pinned.
  pub record ArePinned : Type 0 where
    pub roles : List Bytes
    pub refs : List (List Value)
    pub bindings : List Value
    pub roles_read : required_policy_roles b ≡ ok roles
    pub refs_read : genesis_policy_refs lib json b ≡ ok refs
    pub bindings_read :
        as_array (member (literal "genesis_policy_bindings") b.transitions) ≡ some bindings
    pub complete : All (λ r. (ref : List Value) × (lookup r result ≡ some ref)) roles
    pub no_more : length (entries result) ≡ length roles
    pub bound :
        (role : Bytes) (ref : List Value)
        → lookup role result ≡ some ref
        → IsBound bindings refs role ref × IsRef ref

  -- Where policyRefs succeeds, every required role has a reference, and there are as many roles with
  -- one; each of these is the reference, of three parts with a hash of 32 bytes, that the pinned
  -- genesis has under the ID that a binding of the bundle gives the role; only where that ID is
  -- perception-visible-first-v1, given to perception, it is the one under perception-v1.
  pub policy_refs-ArePinned : policy_refs lib json (some b) ≡ ok result → ArePinned
  unfolding policy_refs lookup
  policy_refs-ArePinned h =
      let (roles, r, h₁) = bind-eq_ok (map_err not_read (required_policy_roles b)) _ h in
      let (refs, g, h₂) = bind-eq_ok (map_err not_read (genesis_policy_refs lib json b)) _ h₁ in
      let (bindings, a, h₃) =
        bind-eq_ok
          (or_fail (as_array (member (literal "genesis_policy_bindings") b.transitions))
            inconsistent_bindings)
          _ h₂ in
      let (n, h₄) =
        guard-then-eq_ok (length bindings == length roles && length refs == length roles)
          inconsistent_bindings _ h₃ in
      let (out, o, h₅) = bind-eq_ok (bind_roles refs [] [] bindings) _ h₄ in
      let (all, h₆) = guard-then-eq_ok (all_bound out roles) missing_policy _ h₅ in
      let (c, h₇) = guard-then-eq_ok (length (entries out) == length roles) different_roles _ h₆ in
      let e : out ≡ result = ok-injective h₇ in
      let read = map_err-eq_ok not_read (genesis_policy_refs lib json b) g in
      let are_bound : AreBound bindings refs result =
        bind_roles-AreBound bindings refs [] [] result bindings (λ i m. m) (λ role ref l. cc)
          (o ∙ ap ok e) in
      record {
        roles = roles;
        refs = refs;
        bindings = bindings;
        roles_read = map_err-eq_ok not_read (required_policy_roles b) r;
        refs_read = read;
        bindings_read = or_fail-eq_ok _ inconsistent_bindings a;
        complete = all_bound-All result roles (rw e at all);
        no_more = subst (λ x. length (entries x) ≡ length roles) e (ground arith);
        bound = λ role ref l.
            let x = are_bound role ref l in
            (x, All-among IsRef refs (genesis_policy_refs-All lib json b refs read) x.pinned);
      }
