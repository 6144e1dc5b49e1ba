-- ===== src/Admission/Coordinator/Boundary.antt =====
-- What an admission leaves (`AdmitThenEvaluate` of internal/csf/admission/fence.go, over
-- internal/csf/persistence/memory/store.go).
use cote_ai_simulation.Base.{ℕ, ◌≡◌, ◌≢◌, Bool, true, List, Option, ok}
use cote_ai_simulation.Base.Bytes.{Bytes}
use cote_ai_simulation.Domain.{EligibilityCoordinate, compare_coordinate, is_le}
use cote_ai_simulation.Identity.{Deriver}
use cote_ai_simulation.IngressGuard.{CanonicalRecord, Entry, parse}
use cote_ai_simulation.Store.{Store, AdmissionSeal}
use cote_ai_simulation.Store.Methods.{append_ingress, get_fence, read_seal, records_of}
use cote_ai_simulation.Store.Run.{Call, run}
use cote_ai_simulation.Store.Sealing.{sealed_at}
use cote_ai_simulation.Ledger.{Ledger}
use cote_ai_simulation.Ledger.Snapshots.{SystemUnit, snapshot}
use cote_ai_simulation.Ledger.Histories.{open_ledger}
use cote_ai_simulation.Admission.{Cycle, Policies, Fence}
use cote_ai_simulation.Admission.Derive.{derive}

module _ (settled : Option (Bytes → Bool))
    (reader : Option (EligibilityCoordinate → Option (List SystemUnit))) (d : Deriver)
    (hash : Bytes → Bytes) (cycle : Cycle) (policies : Policies) where
  -- What an admission leaves.
  pub record Published (l m : Ledger) (f : Fence) : Type 0 where
    -- The fence is derived from the ledger that the records of the store make, as they are before
    -- the calls of the other writers.
    pub view : Ledger
    pub opened : open_ledger settled l.run_id d l.input_store ≡ ok view
    pub derived : derive d reader policies cycle (snapshot view).1 ≡ ok f
    -- The fence is in the store when the evaluation runs, and the records are still those that it is
    -- derived from.
    pub durable : get_fence m.input_store f.id ≡ ok f.canonical
    pub same_records : records_of m.input_store ≡ records_of l.input_store
    pub frozen : m.sources_frozen ≡ true
    -- Whatever calls of the store follow, no ingress is taken at or before the seal of the fence.
    pub seal : AdmissionSeal
    pub seal_read : read_seal d.codec f.canonical ≡ ok seal
    pub cut :
        (after : List Call) (source : Bytes) (n : ℕ) (r receipt : CanonicalRecord) (entry : Entry)
        (u : Store)
        → parse d.codec r source ≡ ok entry
        → entry.run_id ≡ seal.run_id
        → is_le (compare_coordinate entry.coordinate (sealed_at seal)) ≡ true
        → append_ingress d.codec hash (run d.codec hash m.input_store after) source n r receipt
          ≢ ok u
