-- ===== src/Ledger/History.antt =====
-- The closures of a source (internal/csf/inputledger/ledger.go, `CloseSource`).
use cote_ai_simulation.Base.{
  ◌≡◌, refl, sym, ap, ◌&&◌, true, false, arith, if◌then◌else◌, List, [], ◌∷◌, ◌++◌, ok, bind-eq_ok,
  guard-then-eq_ok, then-eq_ok, ok-injective, Option-cases, Bool-cases, inl, inr, subst, All, Pairs,
}
use cote_ai_simulation.Base.Bytes.{Bytes, bytes_equal}
use cote_ai_simulation.Domain.{EligibilityCoordinate, compare_coordinate, is_gt, is_le}
use cote_ai_simulation.Domain.Patterns.{validate_machine_id}
use cote_ai_simulation.Value.{field}
use cote_ai_simulation.Store.Maps.{lookup, put}
use cote_ai_simulation.Ledger.{
  Ledger, Stored, unknown_source, invalid_machine_id, identity_collision, contains,
}
use cote_ai_simulation.Ledger.Sources.{
  Closure, closed_at, is_final, listed, canonical_fields, append_receipt, receipt_bytes,
  store_ingress,
}
use cote_ai_simulation.Ledger.Closures.{
  close_source, closure_by, new_closure, repeat_closure, may_close, closure_id, closure_digest,
  closure_fields, new_closure_result, has_flag, is_eq,
}
use cote_ai_simulation.Ledger.Normal.{coordinate-coord_value}

-- A closure that a later one may follow: it is not final, and it closes no more than the later one.
abbrev pub Precedes : Stored → Stored → Type 0
Precedes c d =
    (is_final c ≡ false) × (is_le (compare_coordinate (closed_at c) (closed_at d)) ≡ true)

-- The closures of every source close ever more, and only the last of them may be final.
abbrev pub IsHistory : Ledger → Type 0
IsHistory l = (source : Bytes) → Pairs Precedes (listed source l.closures)

pub Pairs-append :
    (xs : List Stored) (y : Stored)
    → Pairs Precedes xs
    → All (λ x. Precedes x y) xs
    → Pairs Precedes (xs ++ y ∷ [])
Pairs-append [] y p a = (tt, tt)
Pairs-append (x ∷ xs) y (h, p) (a, b) = (All-end xs h, Pairs-append xs y p b)
  where
    All-end : (zs : List Stored) → All (Precedes x) zs → All (Precedes x) (zs ++ y ∷ [])
    All-end [] h = (a, tt)
    All-end (z ∷ zs) (h, hs) = (h, All-end zs hs)

may_close-All :
    (cs : List Stored) (through : EligibilityCoordinate)
    → may_close cs through ≡ ok tt
    → All (λ c. (is_final c ≡ false) × (is_le (compare_coordinate (closed_at c) through) ≡ true)) cs
unfolding may_close
may_close-All [] through h = tt
may_close-All (c ∷ cs) through h = elim (Bool-cases (is_final c)) [
  | inl f ↦ absurd (ground arith)
  | inr f ↦ elim (Bool-cases (is_gt (compare_coordinate (closed_at c) through))) [
    | inl g ↦ absurd (ground arith)
    | inr g ↦ ((f, ground arith), may_close-All cs through (ground arith))
  ]
]

-- What `CloseSource` leaves for a new ID: one more closure at the end of the source's list.
record Closed (l : Ledger) (source : Bytes) (closure : Closure) (r : Ledger × Stored) : Type 0 where
  follows :
      All
        (λ c.
          (is_final c ≡ false)
          × (is_le (compare_coordinate (closed_at c) closure.closed_through) ≡ true))
        (listed source l.closures)
  closes : closed_at r.1 ≡ closure.closed_through
  flag : is_final r.1 ≡ closure.final
  appended : r.0.closures ≡ put source (listed source l.closures ++ r.1 ∷ []) l.closures

new_closure-Closed :
    (l : Ledger) (source id : Bytes) (closure : Closure) (r : Ledger × Stored)
    → new_closure l source id closure ≡ ok r
    → Closed l source closure r
unfolding new_closure append_receipt
new_closure-Closed l source id closure r h =
    let fields = closure_fields l id source closure in
    let (f, h₁) = then-eq_ok (may_close (listed source l.closures) closure.closed_through) _ h in
    let (digest, d, h₂) = bind-eq_ok (closure_digest l fields) _ h₁ in
    let (canonical, c, h₃) = bind-eq_ok (canonical_fields l fields) _ h₂ in
    let ((m, receipt), a, h₄) = bind-eq_ok (append_receipt l source 2 id digest canonical) _ h₃ in
    let (rb, rc, a₁) = bind-eq_ok (receipt_bytes l source _ 2 id digest) _ a in
    let (store, st, a₂) = bind-eq_ok (store_ingress l source _ id canonical rb) _ a₁ in
    let stored : Stored = record {
      id = id;
      digest = digest;
      fields = fields;
      canonical = canonical;
      receipt = receipt;
    } in
    subst (Closed l source closure) (ok-injective h₄) (
      subst (λ z. Closed l source closure (new_closure_result z source stored))
        (ap (λ x. x.0) (ok-injective a₂))
        (record {
          follows = may_close-All (listed source l.closures) closure.closed_through f;
          closes = coordinate-coord_value closure.closed_through;
          flag = refl;
          appended = refl;
        }))

pub listed-put :
    (source s : Bytes) (xs : List Stored) (m : List (Bytes × List Stored))
    → listed s (put source xs m) ≡ (if bytes_equal source s then xs else listed s m)
unfolding lookup
listed-put source s xs m = ground arith

Closed-IsHistory :
    (l : Ledger) (source : Bytes) (closure : Closure) (r : Ledger × Stored)
    → Closed l source closure r
    → IsHistory l
    → IsHistory r.0
Closed-IsHistory l source closure r c h s =
    rw (c.appended, listed-put source s (listed source l.closures ++ r.1 ∷ []) l.closures)
      (elim (Bool-cases (bytes_equal source s)) [
        | inr e ↦ rw e (h s)
        | inl e ↦ rw e (
            Pairs-append (listed source l.closures) r.1 (h source) (
              subst
                (λ t.
                  All
                    (λ z.
                      (is_final z ≡ false) × (is_le (compare_coordinate (closed_at z) t) ≡ true))
                    (listed source l.closures))
                (sym c.closes) c.follows))
      ])

-- In a ledger whose sources' closures close ever more, with none behind a final one, they do so
-- after every accepted closure, repeated or new.
pub close_source-IsHistory :
    (l m : Ledger) (source : Bytes) (closure : Closure) (x : Stored)
    → close_source l source closure ≡ ok (m, x)
    → IsHistory l
    → IsHistory m
unfolding close_source repeat_closure
close_source-IsHistory l m source closure x h history =
    let (c, h₁) = guard-then-eq_ok (contains l.sources source) unknown_source _ h in
    let (p, h₂) =
      guard-then-eq_ok (validate_machine_id closure.producer_key) invalid_machine_id _ h₁ in
    let (id, i, h₃) = bind-eq_ok (closure_id l source closure) _ h₂ in
    elim (Option-cases (lookup id l.closure_by_id)) [
      | inl e ↦
          Closed-IsHistory l source closure (m, x)
            (new_closure-Closed l source id closure (m, x) (rw (e, closure_by) at h₃)) history
      | inr (old, e) ↦
          let q = rw (e, closure_by) at h₃ in
          let (g, k) =
            guard-then-eq_ok
              (is_eq (compare_coordinate (closed_at old) closure.closed_through)
                && has_flag (field old.fields 5) closure.final)
              identity_collision _ q in
          subst IsHistory (ap (λ z. z.0) (ok-injective k)) history
    ]
