-- ===== src/Flow/Store/Changes.antt =====
-- What the methods of the installation ledger change (runtime/flow/sqlite.py): nothing, or one write
-- whose conditions the method has checked.
pub mod Claims
pub mod Receipts
use sanka.Prelude.{
  ℕ, ◌+◌, String, ◌≡◌, refl, Bool, true, false, ◌&&◌, ◌||◌, not, Option, none, some, List, [], ◌∷◌,
  any, if◌then◌else◌, ◌==◌, Eq, eq_string, eq_option, arith, ◌⊎◌, inl, inr, Bool-cases,
  Option-cases,
}
use sanka.Prelude.Dict.{get, set, has}
use sanka.Fault.{Fault, Result, return, raise, Result-cases, ◌>>◌}
use sanka.Flow.Model.{
  OwnedResource, Installation, to_dict, eq_installation, Observation, Operation, FlowPlan, Claim,
  OperationReceipt, Construction, Evidence, Digests,
}
use sanka.Flow.Store.{
  InstallationRow, PlanRow, OperationRow, PlanKey, OperationKey, EvidenceKey, eq_plan_key,
  eq_operation_key, eq_evidence_key, FlowDb, Handle, Readings, plan_key, operation_key,
  evidence_key, transaction, put_row, initialize, open_store, save_document, save_plan, acquire,
  claim, claimed_row, in_progress, is_busy, expected_installation, holds, assert,
}
use sanka.Flow.Store.Operations.{
  begin, begin_operation, complete, complete_operation, finish, finish_construction, save_row,
  save_evidence, release_claim, release, abandon_plan, abandon, is_planned, has_other_receipt,
  require_receipts, put_plan, finished, is_constructed, is_activation_pending, has_results,
  has_evidence, is_evidence_kind,
}

-- A claim that the installation's row carries at the time `now`.
pub record Held (h : Handle) (c : Claim) (db : FlowDb) : Type 0 where
  pub row : InstallationRow
  pub there : get h.id db.installations ≡ some row
  pub now : ℕ
  pub held : holds c now row ≡ true

pub data Change (h : Handle) (before after : FlowDb) : Type 0 where
  unchanged : after ≡ before → Change h before after
  opened :
      (r : InstallationRow)
      → get h.id before.installations ≡ none
      → r.attempt ≡ none
      → r.active_plan ≡ none
      → after ≡ put_row h r before
      → Change h before after
  planned :
      (digest : String) (p : PlanRow)
      → get (plan_key h digest) before.plans ≡ none
      → p.abandoned ≡ false
      → p.construction ≡ none
      → after ≡ put_plan h digest p before
      → Change h before after
  claimed :
      (digest attempt_id : String) (clock : Readings) (p : PlanRow) (r : InstallationRow)
      → get (plan_key h digest) before.plans ≡ some p
      → p.abandoned ≡ false
      → get h.id before.installations ≡ some r
      → in_progress digest r ≡ false
      → after ≡ put_row h (claimed_row h digest attempt_id clock r) before
      → Change h before after
  begun :
      (c : Claim) (r : OperationRow) (id : String)
      → Held h c before
      → get (operation_key h c.plan_digest id) before.operations ≡ none
      → r.receipt ≡ none
      → after
        ≡ record before { operations = set (operation_key h c.plan_digest id) r before.operations }
      → Change h before after
  completed :
      (c : Claim) (r : OperationRow) (receipt : OperationReceipt)
      → Held h c before
      → get (operation_key h c.plan_digest receipt.operation_id) before.operations ≡ some r
      → has_other_receipt receipt r ≡ false
      → after ≡ record before {
        operations =
            set
              (operation_key h c.plan_digest receipt.operation_id)
              (record r { receipt = some receipt })
              before.operations;
      }
      → Change h before after
  constructed :
      (c : Claim) (p : PlanRow) (r : InstallationRow) (i : Installation) (o : Observation)
      → Held h c before
      → get (plan_key h c.plan_digest) before.plans ≡ some p
      → p.construction ≡ none
      → require_receipts h c p.document.operations before ≡ return tt
      → get h.id before.installations ≡ some r
      → i.revision ≡ r.revision + 1
      → after ≡ finished h c p r i o before
      → Change h before after
  recorded :
      (c : Claim) (kind : String) (e : Evidence)
      → Held h c before
      → get (evidence_key h c.plan_digest kind) before.evidence ≡ none
      → after
        ≡ record before { evidence = set (evidence_key h c.plan_digest kind) e before.evidence }
      → Change h before after
  released :
      (c : Claim) (r : InstallationRow) (active_plan : Option String)
      → Held h c before
      → get h.id before.installations ≡ some r
      → (active_plan ≡ none) ⊎ (active_plan ≡ some c.plan_digest)
      → after
        ≡ put_row h (record r { active_plan = active_plan; attempt = none; lease_until = 0 }) before
      → Change h before after
  abandoned :
      (c : Claim) (p : PlanRow) (r : InstallationRow)
      → Held h c before
      → get (plan_key h c.plan_digest) before.plans ≡ some p
      → p.construction ≡ none
      → has_results h c.plan_digest before.operations ≡ false
      → has_evidence h c.plan_digest before.evidence ≡ false
      → get h.id before.installations ≡ some r
      → after
        ≡ put_row h
            (record r { active_plan = none; attempt = none; lease_until = 0 })
            (put_plan h c.plan_digest (record p { abandoned = true }) before)
      → Change h before after

-- A transaction commits what its operation returns, or changes nothing.
transaction-cases :
    {A : Type 0} (operation : FlowDb → Result (A × FlowDb)) (db : FlowDb)
    → ((a : A) × (after : FlowDb) × (operation db ≡ return (a, after))
        × ((transaction operation db).1 ≡ after))
      ⊎ ((transaction operation db).1 ≡ db)
unfolding transaction
transaction-cases operation db = elim (Result-cases (operation db)) [
  | inl ((a, after), e) ↦ inl (a, after, e, ground (arith, e))
  | inr (fault, e) ↦ inr (ground (arith, e))
]

module _ (h : Handle) (db : FlowDb) where
  -- To show a change: what each committed result wrote.
  pub commit :
      {A : Type 0} (operation : FlowDb → Result (A × FlowDb))
      → ((a : A) (after : FlowDb) → operation db ≡ return (a, after) → Change h db after)
      → Change h db (transaction operation db).1
  commit operation change = elim (transaction-cases operation db) [
    | inl (a, after, e, w) ↦ rw w (change a after e)
    | inr w ↦ unchanged w
  ]

  -- A claim that passed `_assert`.
  pub assert-Held : (c : Claim) (now : ℕ) → assert h c now db ≡ return tt → Held h c db
  unfolding assert
  assert-Held c now e = elim (Option-cases (get h.id db.installations)) [
    | inl no_row ↦ absurd (ground (arith, e, no_row))
    | inr (r, there) ↦ record { row = r; there = there; now = now; held = ground (arith, e, there) }
  ]

  -- To show the change of an operation that starts by `_assert`.
  module _ (c : Claim) (now : ℕ) {A : Type 0} (rest : Result (A × FlowDb)) where
    pub guarded-Change :
        (a : A) (after : FlowDb)
        → (Held h c db → rest ≡ return (a, after) → Change h db after)
        → (assert h c now db >> rest) ≡ return (a, after)
        → Change h db after
    guarded-Change a after change e = elim (Result-cases (assert h c now db)) [
      | inl (u, passed) ↦ change (assert-Held c now passed) (ground (arith, e, passed))
      | inr (fault, failed) ↦ unchanged (ground (arith, e, failed))
    ]
