-- ===== src/Ledger/Reopened.antt =====
-- What a ledger that is opened again holds, for all its sources (`restore` of
-- internal/csf/inputledger/ledger.go).
use cote_ai_simulation.Base.{
  ◌+◌, ◌≡◌, refl, sym, ap, ◌∙◌, Bool, false, List, [], ◌∷◌, Option, some, none, length, ok,
  bind-eq_ok, guard-then-eq_ok, ok-injective, All, Pairs, Bool-cases, inl, inr, subst,
}
use cote_ai_simulation.Base.Bytes.{Bytes, bytes_equal}
use cote_ai_simulation.Identity.{Deriver}
use cote_ai_simulation.IngressGuard.{CanonicalRecord}
use cote_ai_simulation.Store.{Store}
use cote_ai_simulation.Store.Maps.{lookup}
use cote_ai_simulation.Store.Methods.{records_of}
use cote_ai_simulation.Ledger.{Ledger, contains}
use cote_ai_simulation.Ledger.History.{Precedes}
use cote_ai_simulation.Ledger.Sources.{listed}
use cote_ai_simulation.Ledger.Snapshots.{project_settled_no_proposal_rounds}
use cote_ai_simulation.Ledger.Records.{missing_receipt}
use cote_ai_simulation.Ledger.Restore.{Receipt, new_ledger}
use cote_ai_simulation.Ledger.Restore.Answers.{read_records}
use cote_ai_simulation.Ledger.Histories.{
  sources_in, receipts_of, restore_sources, all_attached, restore, open_ledger,
}
use cote_ai_simulation.Ledger.Restored.{inputs_of, closures_of}
use cote_ai_simulation.Ledger.Ingress.{SameIngress, read_records-same}
use cote_ai_simulation.Ledger.Recount.{
  count_in, IsRestored, IsFresh, bytes_equal_sym, restore_sources-IsRestored,
}

contains-false :
    (vs : List Bytes) (target : Bytes)
    → contains vs target ≡ false
    → All (λ v. bytes_equal target v ≡ false) vs
unfolding contains
contains-false [] target h = tt
contains-false (v ∷ vs) target h = elim (Bool-cases (bytes_equal v target)) [
  | inl e ↦ cc (rw e at h)
  | inr e ↦ (bytes_equal_sym v target e, contains-false vs target (rw e at h))
]

sources_in-Pairs : (rs : List Receipt) → Pairs (λ a b. bytes_equal a b ≡ false) (sources_in rs)
unfolding sources_in
sources_in-Pairs [] = tt
sources_in-Pairs (r ∷ rs) = elim (Bool-cases (contains (sources_in rs) r.source)) [
  | inl e ↦ rw e (sources_in-Pairs rs)
  | inr e ↦ rw e (contains-false (sources_in rs) r.source e, sources_in-Pairs rs)
]

SameIngress-IsRestored : {l m : Ledger} → SameIngress l m → IsRestored l → IsRestored m
SameIngress-IsRestored {l} {m} f w = record {
  history = λ y. subst (λ x. Pairs Precedes (listed y x)) (sym f.closures) (w.history y);
  counted = λ y.
      ap (count_in y) f.cursors
      ∙ (w.counted y
          ∙ (ap (λ x. length (listed y x) + length (closures_of l y)) (sym f.inputs)
              ∙ ap (λ x. length (inputs_of m y) + length (listed y x)) (sym f.closures)));
}

SameIngress-IsFresh : {l m : Ledger} → SameIngress l m → (y : Bytes) → IsFresh l y → IsFresh m y
SameIngress-IsFresh f y w = (ap (listed y) f.inputs ∙ w.0, ap (listed y) f.closures ∙ w.1)

new_ledger-IsRestored :
    (d : Deriver) (run_id : Bytes) (store : Store) → IsRestored (new_ledger run_id d store)
unfolding new_ledger lookup
new_ledger-IsRestored d run_id store = record { history = λ y. tt; counted = λ y. refl }

new_ledger-IsFresh :
    (d : Deriver) (run_id : Bytes) (store : Store) (y : Bytes)
    → IsFresh (new_ledger run_id d store) y
unfolding new_ledger lookup
new_ledger-IsFresh d run_id store y = (refl, refl)

settle_rounds-same :
    (settled : Option (Bytes → Bool)) (l : Ledger)
    → SameIngress l (project_settled_no_proposal_rounds settled l)
unfolding project_settled_no_proposal_rounds
settle_rounds-same none l = record { inputs = refl; closures = refl; cursors = refl }
settle_rounds-same (some f) l = record { inputs = refl; closures = refl; cursors = refl }

everywhere {κ} : {A : Type 0} (P : A → Type κ) (xs : List A) → ((x : A) → P x) → All P xs
everywhere P [] h = tt
everywhere P (x ∷ xs) h = (h x, everywhere P xs h)

module _ (d : Deriver) (run_id : Bytes) (store : Store) where
  restore-IsRestored :
      (records : List CanonicalRecord) (l : Ledger)
      → restore d (new_ledger run_id d store) records ≡ ok l
      → IsRestored l
  unfolding restore
  restore-IsRestored records l h =
      let (s, a, h₁) =
        bind-eq_ok
          (read_records d
            (record {
              ledger = new_ledger run_id d store;
              receipts = [];
              inputs = [];
              closures = [];
              dispatches = [];
            })
            records)
          _ h in
      let (r, b, h₂) =
        bind-eq_ok (restore_sources s.inputs s.closures (receipts_of s.receipts) (s.ledger, []) _) _
          h₁ in
      let (c, h₃) = guard-then-eq_ok (all_attached r.1 s.inputs) missing_receipt _ h₂ in
      let (e, h₄) = guard-then-eq_ok (all_attached r.1 s.closures) missing_receipt _ h₃ in
      let f =
        read_records-same d
          (record {
            ledger = new_ledger run_id d store;
            receipts = [];
            inputs = [];
            closures = [];
            dispatches = [];
          })
          s records a in
      let w = SameIngress-IsRestored f (new_ledger-IsRestored d run_id store) in
      let v =
        restore_sources-IsRestored s.inputs s.closures (receipts_of s.receipts)
          (sources_in (receipts_of s.receipts)) (s.ledger, []) r w
          (everywhere _ (sources_in (receipts_of s.receipts))
            (λ y. SameIngress-IsFresh f y (new_ledger-IsFresh d run_id store y)))
          (sources_in-Pairs (receipts_of s.receipts)) b in
      subst IsRestored (ok-injective h₄) (record { history = v.history; counted = v.counted })

  -- In a ledger that opens over any records of a store, the closures of every source close ever
  -- more with none behind a final one, and the cursor of every source counts its inputs and
  -- closures.
  pub open_ledger-IsRestored :
      (settled : Option (Bytes → Bool)) (l : Ledger)
      → open_ledger settled run_id d store ≡ ok l
      → IsRestored l
  unfolding open_ledger
  open_ledger-IsRestored settled l h =
      let (m, a, h₁) = bind-eq_ok (restore d (new_ledger run_id d store) (records_of store)) _ h in
      let w = restore-IsRestored (records_of store) m a in
      subst IsRestored (ok-injective h₁) (SameIngress-IsRestored (settle_rounds-same settled m) w)
