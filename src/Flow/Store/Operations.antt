-- ===== src/Flow/Store/Operations.antt =====
-- The methods of `SqliteInstallationStore` under a claim (runtime/flow/sqlite.py): the operations of a
-- plan with their receipts, its construction, its evidence, and the end of the claim.
use sanka.Prelude.{
  ℕ, ◌+◌, String, Bool, true, false, ◌&&◌, ◌||◌, not, Option, none, some, List, [], ◌∷◌, map, any,
  if◌then◌else◌, ◌==◌, eq_string, eq_option,
}
use sanka.Prelude.Dict.{Dict, get, set, has}
use sanka.Prelude.Text.{text_le}
use sanka.Prelude.Sort.{sort}
use sanka.Fault.{flow_error, value_error, Result, return, require, ◌>>=◌, ◌>>◌}
use sanka.Flow.Model.{
  OwnedResource, Installation, to_dict, Observation, eq_observation, Operation, eq_operation,
  Action, eq_action, FlowPlan, Claim, OperationReceipt, eq_receipt, Construction, Evidence,
  eq_evidence, Digests,
}
use sanka.Flow.Store.{
  InstallationRow, PlanRow, OperationRow, OperationKey, EvidenceKey, eq_plan_key, eq_operation_key,
  eq_evidence_key, FlowDb, Handle, insert_or_ignore, plan_key, operation_key, evidence_key,
  transaction, error, row, put_row, find_plan, assert,
}

-- `next((op for op in planned["operations"] if op["id"] == id), None)`
unfoldable pub find_planned : String → List Operation → Option Operation
find_planned id [] = none
find_planned id (op ∷ ops) = if op.id == id then some op else find_planned id ops

-- `_operation`
unfoldable pub find_operation : Handle → Claim → String → FlowDb → Result OperationRow
find_operation h c id db = elim (get (operation_key h c.plan_digest id) db.operations) [
  | none ↦ error "FLOW_INTENT_MISSING" "Operation has no durable intent"
  | some r ↦ return r
]

-- `expected is None or canonical_json(expected) != operation.text`
unfoldable pub is_planned : Operation → FlowPlan → Bool
unfolding find_planned
is_planned operation plan = elim (find_planned operation.id plan.operations) [
  | none ↦ false
  | some expected ↦ expected == operation
]

-- The operation that `begin_operation` runs in its transaction.
unfoldable pub begin :
    Handle → Digests → Claim → Operation → ℕ → FlowDb → Result ((Option OperationReceipt) × FlowDb)
unfolding find_plan find_operation
begin h digests c operation now db = do
  assert h c now db
  plan ← find_plan h c.plan_digest db
  require (is_planned operation plan.document)
      (flow_error "Operation differs from its reviewed plan" "FLOW_IDEMPOTENCY_CONFLICT")
  let after : FlowDb = record db {
    operations =
        insert_or_ignore (operation_key h c.plan_digest operation.id)
          (record {
            request = operation;
            request_digest = digests.operation operation;
            receipt = none;
          })
          db.operations;
  }
  intent ← find_operation h c operation.id after
  require (intent.request == operation)
      (flow_error "Operation identity has different content" "FLOW_IDEMPOTENCY_CONFLICT")
  return (intent.receipt, after)

-- `begin_operation`
unfoldable pub begin_operation :
    Handle → Digests → Claim → Operation → ℕ → FlowDb → Result (Option OperationReceipt) × FlowDb
unfolding transaction
begin_operation h digests c operation now = transaction (begin h digests c operation now)

-- `row["receipt"] and row["receipt"] != rendered`
unfoldable pub has_other_receipt : OperationReceipt → OperationRow → Bool
has_other_receipt receipt r = not (r.receipt == none || r.receipt == some receipt)

-- The operation that `complete_operation` runs in its transaction.
unfoldable pub complete :
    Handle → Claim → OperationReceipt → ℕ → FlowDb → Result ((Unit {0}) × FlowDb)
unfolding find_operation
complete h c receipt now db = do
  assert h c now db
  intent ← find_operation h c receipt.operation_id db
  require (intent.request_digest == receipt.request_digest)
      (flow_error "Receipt does not match the intended request" "FLOW_RECEIPT_MISMATCH")
  require (not (has_other_receipt receipt intent))
      (flow_error "Operation already has another result" "FLOW_RECEIPT_CONFLICT")
  return (
    tt,
    record db {
      operations =
          set (operation_key h c.plan_digest receipt.operation_id)
            (record intent { receipt = some receipt }) db.operations;
    },
  )

-- `complete_operation`
unfoldable pub complete_operation :
    Handle → Claim → OperationReceipt → ℕ → FlowDb → Result (Unit {0}) × FlowDb
unfolding transaction
complete_operation h c receipt now = transaction (complete h c receipt now)

-- The receipts of one plan, with the ids of their operations.
unfoldable pub plan_receipts :
    Handle → String → Dict OperationKey OperationRow → List (String × OperationReceipt)
plan_receipts h digest [] = []
plan_receipts h digest ((k, r) ∷ rows) =
    let rest = plan_receipts h digest rows in
    if k.installation_id == h.id && k.plan_digest == digest
    then elim r.receipt [ none ↦ rest | some receipt ↦ (k.operation_id, receipt) ∷ rest ]
    else rest

-- `receipts`
unfoldable pub receipts : Handle → String → FlowDb → Result (List OperationReceipt) × FlowDb
unfolding transaction plan_receipts
receipts h digest = transaction λ db.
    return
      (map (λ r. r.1) (sort (λ a b. text_le a.0 b.0) (plan_receipts h digest db.operations)), db)

-- `construction`
unfoldable pub construction : Handle → String → FlowDb → Result (Option Construction) × FlowDb
unfolding transaction find_plan
construction h digest =
    transaction λ db. do plan ← find_plan h digest db; return (plan.construction, db)

-- The loop of `finish_construction` over the planned operations.
unfoldable pub require_receipts : Handle → Claim → List Operation → FlowDb → Result (Unit {0})
unfolding find_operation
require_receipts h c [] db = return tt
require_receipts h c (op ∷ ops) db =
    let rest = require_receipts h c ops db in
    if op.action == Action.preserve then rest else do
      r ← find_operation h c op.id db
      require (not (r.receipt == none))
          (flow_error "A planned mutation has no result" "FLOW_CONSTRUCTION_INCOMPLETE")
      rest

abbrev pub put_plan : Handle → String → PlanRow → FlowDb → FlowDb
put_plan h digest p db = record db { plans = set (plan_key h digest) p db.plans }

-- What `finish_construction` writes.
abbrev pub finished :
    Handle → Claim → PlanRow → InstallationRow → Installation → Observation → FlowDb → FlowDb
finished h c plan r installation observation db =
    put_plan h c.plan_digest
      (record plan {
        construction =
            some (record { installation = to_dict installation; observation = observation });
      })
      (put_row h
        (record r {
          revision = installation.revision;
          resources = (to_dict installation).resources;
        })
        db)

-- The operation that `finish_construction` runs in its transaction.
unfoldable pub finish :
    Handle → Claim → List OwnedResource → Observation → ℕ → FlowDb → Result (Installation × FlowDb)
unfolding find_plan row
finish h c resources observation now db = do
  assert h c now db
  plan ← find_plan h c.plan_digest db
  elim plan.construction [
    | some existing ↦ do
      require (existing.observation == observation)
          (flow_error "Constructed observation changed" "FLOW_TARGET_STALE")
      return (existing.installation, db)
    | none ↦ do
      require_receipts h c plan.document.operations db
      r ← row h db
      let installation : Installation = record {
        id = h.id;
        target = h.target;
        revision = r.revision + 1;
        resources = resources;
      }
      return (installation, finished h c plan r installation observation db)
  ]

-- `finish_construction`
unfoldable pub finish_construction :
    Handle → Claim → List OwnedResource → Observation → ℕ → FlowDb → Result Installation × FlowDb
unfolding transaction
finish_construction h c resources observation now =
    transaction (finish h c resources observation now)

unfoldable pub is_evidence_kind : String → Bool
is_evidence_kind kind =
    kind == "verification" || (kind == "activation_intent" || kind == "activation")

-- The operation that `save_evidence` runs in its transaction.
unfoldable pub save_row :
    Handle → Claim → String → Evidence → ℕ → FlowDb → Result ((Unit {0}) × FlowDb)
save_row h c kind document now db = do
  require (is_evidence_kind kind) (value_error "Unknown evidence kind")
  assert h c now db
  let key : EvidenceKey = evidence_key h c.plan_digest kind
  let after : FlowDb = record db { evidence = insert_or_ignore key document db.evidence }
  require (get key after.evidence == some document)
      (flow_error "Evidence already exists with different content" "FLOW_EVIDENCE_CONFLICT")
  return (tt, after)

-- `save_evidence`
unfoldable pub save_evidence :
    Handle → Claim → String → Evidence → ℕ → FlowDb → Result (Unit {0}) × FlowDb
unfolding transaction
save_evidence h c kind document now = transaction (save_row h c kind document now)

-- `evidence`
unfoldable pub evidence : Handle → String → String → FlowDb → Result (Option Evidence) × FlowDb
unfolding transaction
evidence h digest kind = transaction λ db. return (get (evidence_key h digest kind) db.evidence, db)

-- An activation was intended, and its result is not recorded.
unfoldable pub is_activation_pending : Handle → String → FlowDb → Bool
is_activation_pending h digest db =
    has (evidence_key h digest "activation_intent") db.evidence
    && not (has (evidence_key h digest "activation") db.evidence)

abbrev pub is_constructed : PlanRow → Bool
is_constructed p = elim p.construction [ none ↦ false | some c ↦ true ]

-- The operation that `release` runs in its transaction.
unfoldable pub release_claim : Handle → Claim → ℕ → FlowDb → Result ((Unit {0}) × FlowDb)
unfolding find_plan row
release_claim h c now db = do
  assert h c now db
  plan ← find_plan h c.plan_digest db
  r ← row h db
  return (
    tt,
    put_row h
        (record r {
          active_plan =
              if is_constructed plan && not (is_activation_pending h c.plan_digest db)
              then none
              else some c.plan_digest;
          attempt = none;
          lease_until = 0;
        })
        db,
  )

-- `release`
unfoldable pub release : Handle → Claim → ℕ → FlowDb → Result (Unit {0}) × FlowDb
unfolding transaction
release h c now = transaction (release_claim h c now)

unfoldable pub has_evidence : Handle → String → Dict EvidenceKey Evidence → Bool
has_evidence h digest rows =
    any (λ e. e.0.installation_id == h.id && e.0.plan_digest == digest) rows

unfoldable pub has_results : Handle → String → Dict OperationKey OperationRow → Bool
has_results h digest rows =
    any
      (λ e. (e.0.installation_id == h.id && e.0.plan_digest == digest) && not (e.1.receipt == none))
      rows

-- The operation that `abandon` runs in its transaction.
unfoldable pub abandon_plan : Handle → Claim → ℕ → FlowDb → Result ((Unit {0}) × FlowDb)
unfolding find_plan row
abandon_plan h c now db = do
  assert h c now db
  plan ← find_plan h c.plan_digest db
  require
      (not (
        is_constructed plan
        || (has_results h c.plan_digest db.operations || has_evidence h c.plan_digest db.evidence)))
      (flow_error "Constructed work must be recovered" "FLOW_PLAN_HAS_EFFECTS")
  r ← row h db
  return (
    tt,
    put_row h (record r { active_plan = none; attempt = none; lease_until = 0 })
        (put_plan h c.plan_digest (record plan { abandoned = true }) db),
  )

-- `abandon`
unfoldable pub abandon : Handle → Claim → ℕ → FlowDb → Result (Unit {0}) × FlowDb
unfolding transaction
abandon h c now = transaction (abandon_plan h c now)
