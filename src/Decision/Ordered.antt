-- ===== src/Decision/Ordered.antt =====
-- The units that `Run` (internal/csf/decision/run.go) orders: in the fence's order, and priced by
-- the claim in their bodies.
use cote_ai_simulation.Base.{
  ◌≡◌, refl, subst, false, ◌||◌, ◌==◌, List, [], ◌∷◌, map, Option, some, none, length, ok, or_fail,
  bind-eq_ok, then-eq_ok, guard-then-eq_ok, ok-injective, All, Bool-cases, Option-cases,
  or_fail-eq_ok, inl, inr,
}
use cote_ai_simulation.Base.Bytes.{Bytes, bytes_equal, bytes_equal-eq}
use cote_ai_simulation.Domain.Patterns.{validate_machine_id}
use cote_ai_simulation.Value.{Value, field, as_text, as_uint64}
use cote_ai_simulation.Identity.{Deriver}
use cote_ai_simulation.Store.Maps.{lookup, put, lookup-put}
use cote_ai_simulation.Decision.{DeliveredUnit, Input, Prepared, provenance, idempotency}
use cote_ai_simulation.Decision.Responses.{
  claimed_amount, check_action, check_response, check_no_proposal, prepare_action,
  validate_response, find_schema,
}
use cote_ai_simulation.Decision.Aliases.{
  Bindings, bind_history, resolve_aliases, resolve_key, idempotency_key, logical_digest,
  namespace_of, resolve_unit, resolve_units, resolve_keyed, bind_unit,
}
use cote_ai_simulation.Decision.Candidates.{mark}
use cote_ai_simulation.Decision.Gather.{Units, deliver, read_units, order_units}

abbrev pub unit_id : Prepared → Bytes
unit_id p = p.id

module _ (d : Deriver) (input : Input) where
  -- The amount of an action with a known handler is the one that its body claims.
  pub record IsPriced (p : Prepared) : Type 0 where
    pub priced :
        p.no_proposal ≡ false
        → p.is_indeterminate ≡ false
        → claimed_amount d input (field p.unit.response.body 9) ≡ ok p.amount

  prepare_action-IsPriced :
      (u : DeliveredUnit) (p : Prepared) → prepare_action d input u ≡ ok p → IsPriced p
  unfolding prepare_action
  prepare_action-IsPriced u p h =
      let x = u.response in
      let (c, h₁) = then-eq_ok (check_action d input x) _ h in
      let (kind, e₁, h₂) = bind-eq_ok (or_fail (as_text (field x.body 4)) provenance) _ h₁ in
      let (g, h₃) = guard-then-eq_ok (validate_machine_id kind) provenance _ h₂ in
      let (version, e₂, h₄) = bind-eq_ok (or_fail (as_uint64 (field x.body 5)) provenance) _ h₃ in
      elim (Option-cases (find_schema input.schemas kind version)) [
        | inl e ↦ subst IsPriced (ok-injective (rw e at h₄)) (record { priced = λ n i. cc })
        | inr (schema, e) ↦
            let (amount, e₃, h₅) =
              bind-eq_ok (claimed_amount d input (field x.body 9)) _ (rw e at h₄) in
            subst IsPriced (ok-injective h₅) (record { priced = λ n i. e₃ })
      ]

  validate_response-IsPriced :
      (u : DeliveredUnit) (p : Prepared) → validate_response d input u ≡ ok p → IsPriced p
  unfolding validate_response
  validate_response-IsPriced u p h =
      let (c, h₁) = then-eq_ok (check_response d input u) _ h in
      elim (Bool-cases (u.response.kind == 1)) [
        | inl e ↦
            let (t, r, h₂) = bind-eq_ok (check_no_proposal d input u.response) _ (rw e at h₁) in
            subst IsPriced (ok-injective h₂) (record { priced = λ n i. cc })
        | inr e ↦ prepare_action-IsPriced u p (rw e at h₁)
      ]

  -- Each entry is under its own ID.
  abbrev IsDelivered : Units → Type 0
  IsDelivered m = (id : Bytes) (p : Prepared) → lookup id m ≡ some p → (p.id ≡ id) × IsPriced p

  some_eq : {p q : Prepared} → some p ≡ some q → p ≡ q
  some_eq h = cc

  put-IsDelivered :
      (m : Units) (p : Prepared) → IsDelivered m → IsPriced p → IsDelivered (put p.id p m)
  unfolding lookup
  put-IsDelivered m p i h id q e = elim (Bool-cases (bytes_equal p.id id)) [
    | inl b ↦
        let same : p ≡ q = some_eq (rw (lookup-put p.id id p m, b) at e) in
        subst (λ q. (q.id ≡ id) × IsPriced q) same (bytes_equal-eq p.id id b, h)
    | inr b ↦ i id q (rw (lookup-put p.id id p m, b) at e)
  ]

  deliver-IsDelivered :
      (m : Units) (us : List DeliveredUnit) (n : Units)
      → deliver d input m us ≡ ok n
      → IsDelivered m
      → IsDelivered n
  unfolding deliver
  deliver-IsDelivered m [] n h i = subst IsDelivered (ok-injective h) i
  deliver-IsDelivered m (u ∷ us) n h i =
      let (p, e, h₁) = bind-eq_ok (validate_response d input u) _ h in
      elim (Option-cases (lookup p.id m)) [
        | inr (old, f) ↦ cc (rw f at h₁)
        | inl f ↦
            deliver-IsDelivered (put p.id p m) us n (rw f at h₁)
              (put-IsDelivered m p i (validate_response-IsPriced u p e))
      ]

  read_units-Ordered :
      (m : Units) (ids : List Bytes) (ps : List Prepared)
      → read_units m ids ≡ ok ps
      → IsDelivered m
      → (map unit_id ps ≡ ids) × All IsPriced ps
  unfolding read_units
  read_units-Ordered m [] ps h i =
      subst (λ ps. (map unit_id ps ≡ []) × All IsPriced ps) (ok-injective h) (refl, tt)
  read_units-Ordered m (id ∷ ids) ps h i =
      let (p, e₁, h₁) = bind-eq_ok (or_fail (lookup id m) provenance) _ h in
      let (rest, e₂, h₂) = bind-eq_ok (read_units m ids) _ h₁ in
      let (same, priced) = i id p (or_fail-eq_ok (lookup id m) provenance e₁) in
      let (ids_of, all) = read_units-Ordered m ids rest e₂ i in
      subst (λ ps. (map unit_id ps ≡ id ∷ ids) × All IsPriced ps) (ok-injective h₂)
        (rw (same, ids_of) refl, (priced, all))

  -- An alias changes neither the unit nor its price.
  pub record IsSameUnit (p q : Prepared) : Type 0 where
    pub same_id : q.id ≡ p.id
    pub priced : IsPriced p → IsPriced q

  bind_unit-IsSameUnit :
      (ref : List Value) (bindings : Bindings) (p : Prepared) (namespace h : Bytes)
      (r : Bindings × Prepared)
      → bind_unit d ref bindings p namespace h ≡ ok r
      → IsSameUnit p r.1
  unfolding bind_unit
  bind_unit-IsSameUnit ref bindings p namespace h r e =
      elim (Option-cases (lookup namespace bindings)) [
        | inl f ↦
            subst (λ r. IsSameUnit p r.1) (ok-injective (rw (f, bind_unit) at e))
              (record { same_id = refl; priced = λ i. record { priced = i.priced } })
        | inr (prev, f) ↦
            let (g, e₁) =
              guard-then-eq_ok (bytes_equal prev.logical_digest h) idempotency _
                (rw (f, bind_unit) at e) in
            subst (λ r. IsSameUnit p r.1) (ok-injective e₁)
              (record { same_id = refl; priced = λ i. record { priced = i.priced } })
      ]

  resolve_key-IsSameUnit :
      (ref : List Value) (bindings : Bindings) (p : Prepared) (key : Option Bytes)
      (r : Bindings × Prepared)
      → resolve_key d ref bindings p key ≡ ok r
      → IsSameUnit p r.1
  unfolding resolve_keyed
  resolve_key-IsSameUnit ref bindings p none r e =
      subst (λ r. IsSameUnit p r.1) (ok-injective e) (record { same_id = refl; priced = λ i. i })
  resolve_key-IsSameUnit ref bindings p (some key) r e =
      let (h, e₁, e₂) = bind-eq_ok (logical_digest d ref p key) _ e in
      bind_unit-IsSameUnit ref bindings p (namespace_of p key) h r e₂

  resolve_unit-IsSameUnit :
      (ref : List Value) (bindings : Bindings) (p : Prepared) (r : Bindings × Prepared)
      → resolve_unit d ref bindings p ≡ ok r
      → IsSameUnit p r.1
  unfolding resolve_unit
  resolve_unit-IsSameUnit ref bindings p r e =
      elim (Bool-cases (p.no_proposal || p.is_indeterminate)) [
        | inl f ↦
            subst (λ r. IsSameUnit p r.1) (ok-injective (rw f at e))
              (record { same_id = refl; priced = λ i. i })
        | inr f ↦
            let (key, e₁, e₂) =
              bind-eq_ok (idempotency_key (field p.unit.response.body 17)) _ (rw f at e) in
            resolve_key-IsSameUnit ref bindings p key r e₂
      ]

  resolve_units-Ordered :
      (ref : List Value) (bindings : Bindings) (ps qs : List Prepared)
      → resolve_units d ref bindings ps ≡ ok qs
      → All IsPriced ps
      → (map unit_id qs ≡ map unit_id ps) × All IsPriced qs
  unfolding resolve_units
  resolve_units-Ordered ref bindings [] qs h a =
      subst (λ qs. (map unit_id qs ≡ []) × All IsPriced qs) (ok-injective h) (refl, tt)
  resolve_units-Ordered ref bindings (p ∷ ps) qs h (i, a) =
      let (r, e₁, h₁) = bind-eq_ok (resolve_unit d ref bindings p) _ h in
      let (rest, e₂, h₂) = bind-eq_ok (resolve_units d ref r.0 ps) _ h₁ in
      let same = resolve_unit-IsSameUnit ref bindings p r e₁ in
      let (ids_of, all) = resolve_units-Ordered ref r.0 ps rest e₂ a in
      subst (λ qs. (map unit_id qs ≡ p.id ∷ map unit_id ps) × All IsPriced qs) (ok-injective h₂)
        (rw (same.same_id, ids_of) refl, (same.priced i, all))

  pub order_units-Ordered :
      (m : Units) (us : List DeliveredUnit) (ps : List Prepared)
      → deliver d input [] us ≡ ok m
      → order_units m input.admitted ≡ ok ps
      → (map unit_id ps ≡ input.admitted) × All IsPriced ps
  unfolding order_units lookup
  order_units-Ordered m us ps e h =
      let (seen, e₁, h₁) = bind-eq_ok (mark [] input.admitted) _ h in
      let (ordered, e₂, h₂) = bind-eq_ok (read_units m input.admitted) _ h₁ in
      let (l, h₃) = guard-then-eq_ok (length ordered == length m) provenance _ h₂ in
      subst (λ ps. (map unit_id ps ≡ input.admitted) × All IsPriced ps) (ok-injective h₃)
        (read_units-Ordered m input.admitted ordered e₂
          (deliver-IsDelivered [] us m e (λ id p n. cc)))

  pub resolve_aliases-Ordered :
      (ref : List Value) (ps qs : List Prepared)
      → resolve_aliases d ref input.history ps ≡ ok qs
      → All IsPriced ps
      → (map unit_id qs ≡ map unit_id ps) × All IsPriced qs
  unfolding resolve_aliases
  resolve_aliases-Ordered ref ps qs h a =
      let (bindings, e, h₁) = bind-eq_ok (bind_history [] input.history) _ h in
      resolve_units-Ordered ref bindings ps qs h₁ a
