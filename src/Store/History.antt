-- ===== src/Store/History.antt =====
-- What later calls of the in-memory store still find
-- (internal/csf/persistence/memory/store.go): records are immutable, a conditional key has one
-- winner, and a fence is published over exactly the records that its author read.
use cote_ai_simulation.Base.{
  ◌≡◌, refl, ap, ◌∙◌, subst, true, false, arith, List, [], ◌∷◌, ◌++◌, some, ok, bind-eq_ok,
  then-eq_ok, guard-then-eq_ok, Option-cases, inl, inr, ◌==◌, length, ok-injective, map, ap₂,
}
use cote_ai_simulation.Base.Bytes.{Bytes, bytes_equal, bytes_equal-eq}
use cote_ai_simulation.Domain.{equal_preimage}
use cote_ai_simulation.Codec.{Library}
use cote_ai_simulation.IngressGuard.{CanonicalRecord}
use cote_ai_simulation.Store.Maps.{lookup, lookup-put_self}
use cote_ai_simulation.Store.{
  Store, new, AdmissionSeal, Guarded, plain, source_record, round_record, append_input_locked,
  guarded_kind, validate_source, validate_round, unsealed, uncovered, source_after_fence,
  round_before_fence, prefix_changed,
}
use cote_ai_simulation.Store.Methods.{
  bytes_of, records_of, append, append_source_declaration, append_round_declaration,
  append_fence_if_prefix, append_if_absent, dispatch_append, publish, read_seal, same_prefix, get,
}
use cote_ai_simulation.Store.Listing.{
  with_record, with_fence, entry_of, IsStore, Grows-records_of, Grows-IsStore,
}
use cote_ai_simulation.Store.Run.{bound, Call, run}
use cote_ai_simulation.Store.Run.Steps.{run-Grows}

append_input_locked-finds :
    (s t : Store) (r : CanonicalRecord)
    → append_input_locked s r ≡ ok t
    → lookup r.identity t.records ≡ some r.canonical
unfolding append_input_locked equal_preimage
append_input_locked-finds s t r h = elim (Option-cases (lookup r.identity s.records)) [
  | inl e ↦
      let x : with_record s r ≡ t = ground arith in
      subst (λ z. lookup r.identity z.records ≡ some r.canonical) x
        (lookup-put_self r.identity r.canonical s.records)
  | inr (b, e) ↦ ground (arith, bytes_equal-eq b r.canonical)
]

append_input_locked_again :
    (s t : Store) (r : CanonicalRecord)
    → append_input_locked s r ≡ ok t
    → (b : Bytes) → lookup r.identity s.records ≡ some b
    → r.canonical ≡ b
unfolding append_input_locked equal_preimage
append_input_locked_again s t r h b e = ground (arith, bytes_equal-eq b r.canonical)

conditional_lost :
    (u : Store) (key : Bytes) (r r' : CanonicalRecord)
    → lookup key u.conditional ≡ some r
    → append_if_absent u key r' ≡ ok (u, false, r.canonical)
unfolding append_if_absent
conditional_lost u key r r' e = rw (e, append_if_absent) refl

new-IsStore : IsStore new
unfolding new
new-IsStore = tt

module _ (lib : Library) (hash : Bytes → Bytes) where
  dispatch_append-finds :
      (s t : Store) (r : CanonicalRecord) (g : Guarded)
      → dispatch_append lib s r g ≡ ok t
      → append_input_locked s r ≡ ok t
  unfolding dispatch_append append_source_declaration append_round_declaration
  dispatch_append-finds s t r plain h = h
  dispatch_append-finds s t r (source_record run) h =
      let (g, e, h₁) = bind-eq_ok (guarded_kind lib r) _ h in
      let (v, h₂) = then-eq_ok (validate_source g run) _ h₁ in
      (guard-then-eq_ok (unsealed run s.seals) source_after_fence _ h₂).1
  dispatch_append-finds s t r (round_record run i o) h =
      let (g, e, h₁) = bind-eq_ok (guarded_kind lib r) _ h in
      let (v, h₂) = then-eq_ok (validate_round g run i o) _ h₁ in
      (guard-then-eq_ok (uncovered run i o s.seals) round_before_fence _ h₂).1

  append-input :
      (s t : Store) (r : CanonicalRecord) → append lib s r ≡ ok t → append_input_locked s r ≡ ok t
  unfolding append
  append-input s t r h =
      let (g, e, h₁) = bind-eq_ok (guarded_kind lib r) _ h in dispatch_append-finds s t r g h₁

  append-finds :
      (s t : Store) (r : CanonicalRecord)
      → append lib s r ≡ ok t
      → lookup r.identity t.records ≡ some r.canonical
  append-finds s t r h = append_input_locked-finds s t r (append-input s t r h)

  -- What has been appended is found under its identity with the very bytes, whatever calls follow.
  pub get-append :
      (s t : Store) (r : CanonicalRecord) (cs : List Call)
      → append lib s r ≡ ok t
      → get (run lib hash t cs) r.identity ≡ ok r.canonical
  unfolding get
  get-append s t r cs h =
      rw ((run-Grows lib hash t cs).keeps_records r.identity r.canonical (append-finds s t r h))
        refl

  -- Two successful appends under one identity, with any calls between them, are of the same bytes.
  pub append_immutable :
      (s t v : Store) (r r' : CanonicalRecord) (cs : List Call)
      → append lib s r ≡ ok t
      → append lib (run lib hash t cs) r' ≡ ok v
      → r'.identity ≡ r.identity
      → r'.canonical ≡ r.canonical
  append_immutable s t v r r' cs h k e =
      let u = run lib hash t cs in
      let first =
        (run-Grows lib hash t cs).keeps_records r.identity r.canonical (append-finds s t r h) in
      let later =
        append_input_locked_again u v r' (append-input u v r' k) r.canonical
          (ap (λ i. lookup i u.records) e ∙ first) in
      later

  -- The listing of the records only gets longer at its end: it is a prefix of the listing after any
  -- further calls, in every history from the empty store.
  pub records_of-run :
      (before after : List Call)
      → (added : List CanonicalRecord) × (records_of (run lib hash (run lib hash new before) after)
          ≡ records_of (run lib hash new before) ++ added)
  records_of-run before after =
      let s = run lib hash new before in
      Grows-records_of s (run lib hash s after) (run-Grows lib hash s after)
        (Grows-IsStore new s (run-Grows lib hash new before) new-IsStore)

  pub binds :
      (s t : Store) (key : Bytes) (r : CanonicalRecord) {x : Bytes}
      → append_if_absent s key r ≡ ok (t, true, x)
      → lookup key t.conditional ≡ some r
  unfolding append_if_absent
  binds s t key r h = elim (Option-cases (lookup key s.conditional)) [
    | inr (c, e) ↦ absurd (ground arith)
    | inl e ↦
        let (s₁, a, h₁) =
          bind-eq_ok (append_input_locked s r) (bound key r) (rw (e, append_if_absent) at h) in
        subst (λ z. lookup key z.conditional ≡ some r) (ap (λ x. x.0) (ok-injective h₁))
          (lookup-put_self key r s₁.conditional)
  ]

  -- A conditional key has one winner: after an insertion under the key, and any calls, a further
  -- attempt inserts nothing, changes nothing and returns the bytes of the winner.
  pub append_if_absent-winner :
      (s t : Store) (key x : Bytes) (r r' : CanonicalRecord) (cs : List Call)
      → append_if_absent s key r ≡ ok (t, true, x)
      → append_if_absent (run lib hash t cs) key r' ≡ ok (run lib hash t cs, false, r.canonical)
  append_if_absent-winner s t key x r r' cs h =
      conditional_lost (run lib hash t cs) key r r'
        ((run-Grows lib hash t cs).keeps_conditional key r (binds s t key r h))

same_prefix_inv :
    (s : Store) (id : Bytes) (ids : List Bytes) (item : CanonicalRecord)
    (items : List CanonicalRecord)
    → same_prefix s (id ∷ ids) (item ∷ items) ≡ true
    → (item.identity ≡ id)
      × (item.canonical ≡ bytes_of s item.identity)
      × (same_prefix s ids items ≡ true)
unfolding same_prefix
same_prefix_inv s id ids item items h =
    let x : bytes_equal item.identity id ≡ true = ground arith in
    let y : bytes_equal item.canonical (bytes_of s item.identity) ≡ true = ground arith in
    (bytes_equal-eq item.identity id x, bytes_equal-eq item.canonical _ y, ground arith)

publish-records_of :
    (s t : Store) (fence : CanonicalRecord) (seal : AdmissionSeal)
    → publish s fence seal ≡ ok t
    → records_of t ≡ records_of s
unfolding publish records_of
publish-records_of s t fence seal h = elim (Option-cases (lookup fence.identity s.fences)) [
  | inr (b, e) ↦ let x : s ≡ t = ground arith in subst (λ z. records_of z ≡ records_of s) x refl
  | inl e ↦
      let x : with_fence s fence seal ≡ t = ground arith in
      subst (λ z. records_of z ≡ records_of s) x refl
]

same_prefix-listing :
    (s : Store) (ids : List Bytes) (expected : List CanonicalRecord)
    → same_prefix s ids expected ≡ true
    → expected ≡ map (entry_of s) ids
unfolding same_prefix
same_prefix-listing s [] [] h = refl
same_prefix-listing s [] (item ∷ items) h = cc
same_prefix-listing s (id ∷ ids) [] h = cc
same_prefix-listing s (id ∷ ids) (item ∷ items) h =
    let (i, c, r) = same_prefix_inv s id ids item items h in
    ap₂ ◌∷◌
      (subst (λ z. item ≡ entry_of s z) i
        (ap (λ b. record { identity = item.identity; canonical = b }) c))
      (same_prefix-listing s ids items r)

prefix_records :
    (s : Store) (expected : List CanonicalRecord)
    → same_prefix s s.order expected ≡ true
    → expected ≡ records_of s
unfolding records_of
prefix_records s expected h = same_prefix-listing s s.order expected h

-- A fence is published only over the very records, in the very order, that the store holds.
pub append_fence_if_prefix-listing :
    (lib : Library) (s t : Store) (fence : CanonicalRecord) (expected : List CanonicalRecord)
    → append_fence_if_prefix lib s fence expected ≡ ok t
    → (expected ≡ records_of s) × (records_of t ≡ records_of s)
unfolding append_fence_if_prefix
append_fence_if_prefix-listing lib s t fence expected h =
    let (a, h₁) = guard-then-eq_ok (length expected == length s.order) prefix_changed _ h in
    let (b, h₂) = guard-then-eq_ok (same_prefix s s.order expected) prefix_changed _ h₁ in
    let (seal, e, h₃) = bind-eq_ok (read_seal lib fence.canonical) _ h₂ in
    (prefix_records s expected b, publish-records_of s t fence seal h₃)
