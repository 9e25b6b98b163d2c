-- ===== src/Flow/Store/Calls.antt =====
-- Histories of the installation ledger: any calls through any handles on one file
-- (runtime/flow/sqlite.py).
use sanka.Prelude.{ℕ, String, List, [], ◌∷◌}
use sanka.Flow.Model.{
  OwnedResource, Observation, Operation, FlowPlan, Claim, OperationReceipt, Evidence, Digests,
}
use sanka.Flow.Store.{FlowDb, Handle, Readings, open_store, save_plan, claim}
use sanka.Flow.Store.Operations.{
  begin_operation, complete_operation, finish_construction, save_evidence, release, abandon,
}
use sanka.Flow.Store.Changes.{Change}
use sanka.Flow.Store.Changes.Claims.{
  open_store-Change, save_plan-Change, claim-Change, release-Change, abandon-Change,
}
use sanka.Flow.Store.Changes.Receipts.{
  begin_operation-Change, complete_operation-Change, finish_construction-Change,
  save_evidence-Change,
}

-- A call of a method that may write.
pub data Call : Type 0 where
  opens : Call
  saves_plan : Digests → FlowPlan → Call
  claims : (digest attempt_id : String) → Readings → Call
  begins : Digests → Claim → Operation → ℕ → Call
  completes : Claim → OperationReceipt → ℕ → Call
  finishes : Claim → List OwnedResource → Observation → ℕ → Call
  saves_evidence : Claim → (kind : String) → Evidence → ℕ → Call
  releases abandons : Claim → ℕ → Call

-- The database after a call, whether it returned or raised.
unfoldable pub perform : Handle → Call → FlowDb → FlowDb
perform h opens db = (open_store h db).1
perform h (saves_plan digests plan) db = (save_plan h digests plan db).1
perform h (claims digest attempt_id clock) db = (claim h digest attempt_id clock db).1
perform h (begins digests c operation now) db = (begin_operation h digests c operation now db).1
perform h (completes c receipt now) db = (complete_operation h c receipt now db).1
perform h (finishes c resources observation now) db =
    (finish_construction h c resources observation now db).1
perform h (saves_evidence c kind document now) db = (save_evidence h c kind document now db).1
perform h (releases c now) db = (release h c now db).1
perform h (abandons c now) db = (abandon h c now db).1

unfoldable pub run : List (Handle × Call) → FlowDb → FlowDb
run [] db = db
run ((h, call) ∷ calls) db = run calls (perform h call db)

pub perform-Change : (h : Handle) (call : Call) (db : FlowDb) → Change h db (perform h call db)
unfolding perform
perform-Change h opens db = open_store-Change h db
perform-Change h (saves_plan digests plan) db = save_plan-Change h db digests plan
perform-Change h (claims digest attempt_id clock) db = claim-Change h db digest attempt_id clock
perform-Change h (begins digests c operation now) db =
    begin_operation-Change h db digests c operation now
perform-Change h (completes c receipt now) db = complete_operation-Change h db c receipt now
perform-Change h (finishes c resources observation now) db =
    finish_construction-Change h db c resources observation now
perform-Change h (saves_evidence c kind document now) db =
    save_evidence-Change h db c kind document now
perform-Change h (releases c now) db = release-Change h db c now
perform-Change h (abandons c now) db = abandon-Change h db c now

-- What every change keeps, every history keeps.
pub run_keeps :
    (P : FlowDb → Type 0)
    → ((h : Handle) (a b : FlowDb) → Change h a b → P a → P b)
    → (calls : List (Handle × Call)) (db : FlowDb) → P db
    → P (run calls db)
unfolding run
run_keeps P keep [] db p = p
run_keeps P keep ((h, call) ∷ calls) db p =
    run_keeps P keep calls (perform h call db)
      (keep h db (perform h call db) (perform-Change h call db) p)
