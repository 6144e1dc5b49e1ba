-- ===== src/Admission/Coordinator.antt =====
-- `FenceLog` and `Coordinator.AdmitThenEvaluate` of internal/csf/admission/fence.go, over the
-- in-memory store. That the ledger and the log share one store (`SharesFenceAuthority`, a comparison
-- of pointers) is an argument. Other writers of the store are kept out by its lock only, while one of
-- its methods runs: the calls that they make between the view of an admission and its append are an
-- argument as well.
pub mod Boundary
use cote_ai_simulation.Base.{
  ◌≡◌, refl, Bool, true, false, List, Option, some, none, Result, ok, err, ◌>>=◌, ◌>>◌, guard,
  map_err,
}
use cote_ai_simulation.Base.Bytes.{Bytes}
use cote_ai_simulation.Domain.{EligibilityCoordinate}
use cote_ai_simulation.Identity.{Deriver}
use cote_ai_simulation.IngressGuard.{CanonicalRecord}
use cote_ai_simulation.Store.{Store, StoreError}
use cote_ai_simulation.Store.Methods.{append_fence_if_prefix, get_fence}
use cote_ai_simulation.Store.Run.{Call, run}
use cote_ai_simulation.Ledger.{Ledger}
use cote_ai_simulation.Ledger.Snapshots.{SystemUnit, snapshot}
use cote_ai_simulation.Ledger.Records.{RestoreError}
use cote_ai_simulation.Ledger.Histories.{admission_view}
use cote_ai_simulation.Admission.{
  Cycle, Policies, Fence, AdmissionError, no_shared_authority, direct_append, restore_error,
  store_error,
}
use cote_ai_simulation.Admission.Derive.{derive}

-- `FenceLog.AppendIfAbsent`
unfoldable pub append_if_absent : Store → Fence → Result AdmissionError Store
append_if_absent s fence = err direct_append

-- `FenceLog.Get`
unfoldable pub get : Store → Bytes → Result AdmissionError Bytes
get s id = elim (get_fence s id) [ ok b ↦ ok b | err e ↦ err (store_error e) ]

abbrev pub of_restore {ℓ} : {A : Type ℓ} → Result RestoreError A → Result AdmissionError A
of_restore r = map_err restore_error r

abbrev pub of_store {ℓ} : {A : Type ℓ} → Result StoreError A → Result AdmissionError A
of_store r = map_err store_error r

-- `FreezeSourceDeclarations`
unfoldable pub freeze_source_declarations : Ledger → Ledger
freeze_source_declarations l = record l { sources_frozen = true }

-- What `AdmitThenEvaluate` returns: an error and no fence, with nothing changed; or the ledger that
-- is left, the fence, and what the evaluation of the fence returned.
pub data Outcome (E : Type 0) : Type 0 where
  rejected : AdmissionError → Outcome E
  admitted : Ledger → Fence → Result E (Unit {0}) → Outcome E

-- The call of `evaluate`; a nil function is `none`.
abbrev pub evaluation :
    {E : Type 0} → Option (Fence → Result E (Unit {0})) → Fence → Result E (Unit {0})
evaluation none fence = ok tt
evaluation (some evaluate) fence = evaluate fence

abbrev pub outcome :
    {E : Type 0}
    → Option (Fence → Result E (Unit {0}))
    → Result AdmissionError (Ledger × Fence)
    → Outcome E
outcome evaluate (err e) = rejected e
outcome evaluate (ok r) = admitted r.0 r.1 (evaluation evaluate r.1)

module _ (settled : Option (Bytes → Bool))
    (reader : Option (EligibilityCoordinate → Option (List SystemUnit))) (d : Deriver)
    (hash : Bytes → Bytes) (cycle : Cycle) (policies : Policies) (between : List Call) where
  -- The function that runs within the admission boundary: the view of the store and, after the calls
  -- of the other writers in between, the append over the records that were viewed.
  unfoldable pub publish_fence : Ledger → Result AdmissionError (Ledger × Fence)
  publish_fence l = do
    view ← of_restore (admission_view settled d l)
    derived ← derive d reader policies cycle (snapshot view.0).1
    store ← of_store (
        append_fence_if_prefix d.codec (run d.codec hash l.input_store between)
          (record { identity = derived.id; canonical = derived.canonical }) view.1)
    ok (freeze_source_declarations (record l { input_store = store }), derived)

  -- `AdmitThenEvaluate`
  unfoldable pub admit_then_evaluate :
      {E : Type 0} → Bool → Ledger → Option (Fence → Result E (Unit {0})) → Outcome E
  admit_then_evaluate shares l evaluate =
      outcome evaluate (guard shares no_shared_authority >> publish_fence l)
