-- ===== src/Ledger/Recount.antt =====
-- The receipts that are attached to the records of each source (internal/csf/inputledger/ledger.go, restore).
use cote_ai_simulation.Base.{
  ℕ, ◌+◌, ◌≡◌, refl, ◌∙◌, false, arith, if◌then◌else◌, List, [], ◌∷◌, some, none, length, ok,
  bind-eq_ok, guard-then-eq_ok, ok-injective, All, All-zip, Pairs, Bool-cases, inl, inr, subst,
}
use cote_ai_simulation.Base.Bytes.{Bytes, bytes_equal, bytes_equal_refl, bytes_equal-eq}
use cote_ai_simulation.Base.Sort.{sort}
use cote_ai_simulation.Store.Maps.{lookup, put}
use cote_ai_simulation.Ledger.{Ledger, Stored, contains}
use cote_ai_simulation.Ledger.History.{IsHistory}
use cote_ai_simulation.Ledger.Records.{undeclared_source}
use cote_ai_simulation.Ledger.Restore.{Receipt}
use cote_ai_simulation.Ledger.Histories.{
  Attaching, attach_all, seq_before, of_source, restore_source, restore_sources,
}
use cote_ai_simulation.Ledger.Restored.{inputs_of, closures_of, IsAttaching, attach_all-IsAttaching}

abbrev pub count_in : Bytes → List (Bytes × ℕ) → ℕ
count_in source m = elim (lookup source m) [ none ↦ 0 | some n ↦ n ]

abbrev cursor_of : Ledger → Bytes → ℕ
cursor_of l source = elim (lookup source l.cursors) [ none ↦ 0 | some n ↦ n ]

-- The closures of every source are a history, and its cursor counts its ingress records.
pub record IsRestored (l : Ledger) : Type 0 where
  pub history : IsHistory l
  pub counted :
      (source : Bytes)
      → cursor_of l source ≡ length (inputs_of l source) + length (closures_of l source)

abbrev pub IsFresh : Ledger → Bytes → Type 0
IsFresh l source = (inputs_of l source ≡ []) × (closures_of l source ≡ [])

pub bytes_equal_sym : (a b : Bytes) → bytes_equal a b ≡ false → bytes_equal b a ≡ false
bytes_equal_sym a b h = elim (Bool-cases (bytes_equal b a)) [
  | inr e ↦ e
  | inl e ↦ let x : b ≡ a = bytes_equal-eq b a e in cc (bytes_equal_refl a)
]

count_in-put :
    (source y : Bytes) (n : ℕ) (m : List (Bytes × ℕ))
    → count_in y (put source n m) ≡ (if bytes_equal source y then n else count_in y m)
unfolding lookup
count_in-put source y n m = ground arith

module _ (inputs closures : List (Bytes × Stored)) (receipts : List Receipt) where
  record Next (source : Bytes) (l m : Ledger) : Type 0 where
    restored : IsRestored m
    same_inputs : (y : Bytes) → bytes_equal source y ≡ false → inputs_of m y ≡ inputs_of l y
    same_closures : (y : Bytes) → bytes_equal source y ≡ false → closures_of m y ≡ closures_of l y

  restore_source-Next :
      (source : Bytes) (s t : Ledger × List Bytes)
      → IsRestored s.0
      → IsFresh s.0 source
      → restore_source inputs closures receipts s source ≡ ok t
      → Next source s.0 t.0
  unfolding restore_source
  restore_source-Next source s t w fresh h =
      let history = sort seq_before (of_source source receipts) in
      let begin : Attaching = record {
        ledger = s.0;
        last_closed = none;
        final = false;
        attached = s.1;
      } in
      let (c, h₁) = guard-then-eq_ok (contains s.0.sources source) undeclared_source _ h in
      let (end, a, h₂) = bind-eq_ok (attach_all inputs closures source 0 begin history) _ h₁ in
      let start : IsAttaching source s.0 0 begin = record {
        history = w.history;
        below = fresh.1;
        not_final = λ g. rw fresh.1 tt;
        count = rw (fresh.0, fresh.1) refl;
        elsewhere = record {
          same_inputs = λ y e. refl;
          same_closures = λ y e. refl;
          same_cursors = refl;
        };
      } in
      let v = attach_all-IsAttaching inputs closures source s.0 0 begin end history start a in
      let k = length history in
      let m : Ledger = record end.ledger { cursors = put source k end.ledger.cursors } in
      let o = v.elsewhere in
      let total : k ≡ length (inputs_of m source) + length (closures_of m source) =
        omega (arith, v.count) in
      subst (λ (x : Ledger × List Bytes). Next source s.0 x.0) (ok-injective h₂)
        (record {
          restored = record {
            history = v.history;
            counted = λ y.
                count_in-put source y k end.ledger.cursors
                ∙ elim (Bool-cases (bytes_equal source y)) [
                  | inl e ↦
                      let q : source ≡ y = bytes_equal-eq source y e in
                      rw e
                        (subst (λ z. k ≡ length (inputs_of m z) + length (closures_of m z)) q total)
                  | inr e ↦
                      rw (e, o.same_cursors, o.same_inputs y e, o.same_closures y e) (w.counted y)
                ];
          };
          same_inputs = o.same_inputs;
          same_closures = o.same_closures;
        })

  pub restore_sources-IsRestored :
      (sources : List Bytes) (s t : Ledger × List Bytes)
      → IsRestored s.0
      → All (IsFresh s.0) sources
      → Pairs (λ a b. bytes_equal a b ≡ false) sources
      → restore_sources inputs closures receipts s sources ≡ ok t
      → IsRestored t.0
  unfolding restore_sources
  restore_sources-IsRestored [] s t w f p h =
      subst (λ (x : Ledger × List Bytes). IsRestored x.0) (ok-injective h) w
  restore_sources-IsRestored (x ∷ xs) s t w (f, fs) (d, p) h =
      let (u, a, h₁) = bind-eq_ok (restore_source inputs closures receipts s x) _ h in
      let n = restore_source-Next x s u w f a in
      restore_sources-IsRestored xs u t n.restored
        (All-zip (λ y g e. (n.same_inputs y e ∙ g.0, n.same_closures y e ∙ g.1)) xs fs d) p h₁
