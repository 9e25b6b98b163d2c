-- ===== src/Flow/Store/Changes/Receipts.antt =====
-- The changes of the methods that record operations, a construction and evidence
-- (runtime/flow/sqlite.py).
use sanka.Prelude.{
  ℕ, ◌+◌, String, ◌≡◌, refl, Option, none, List, eq_string, eq_option, arith, inl, inr, Bool-cases,
  Option-cases,
}
use sanka.Prelude.Dict.{get, has}
use sanka.Fault.{return, Result-cases}
use sanka.Flow.Model.{
  OwnedResource, Installation, eq_installation, Observation, Operation, Claim, OperationReceipt,
  Evidence, Digests,
}
use sanka.Flow.Store.{
  eq_plan_key, eq_operation_key, eq_evidence_key, FlowDb, Handle, plan_key, operation_key,
  evidence_key,
}
use sanka.Flow.Store.Operations.{
  begin, begin_operation, complete, complete_operation, finish, finish_construction, save_row,
  save_evidence, require_receipts, is_evidence_kind,
}
use sanka.Flow.Store.Changes.{
  Change, unchanged, begun, completed, constructed, recorded, commit, guarded-Change,
}

module _ (h : Handle) (db : FlowDb) where
  begin-Change :
      (digests : Digests) (c : Claim) (operation : Operation) (now : ℕ)
      (a : Option OperationReceipt) (after : FlowDb)
      → begin h digests c operation now db ≡ return (a, after)
      → Change h db after
  unfolding begin has
  begin-Change digests c operation now a after = guarded-Change h db c now _ a after λ held e.
      let key = operation_key h c.plan_digest operation.id in
      elim (Option-cases (get (plan_key h c.plan_digest) db.plans)) [
        | inl no_plan ↦ unchanged (ground (arith, e, no_plan))
        | inr (p, plan_there) ↦ elim (Option-cases (get key db.operations)) [
          | inl new ↦
              begun c
                (record {
                  request = operation;
                  request_digest = digests.operation operation;
                  receipt = none;
                })
                operation.id held new refl (ground (arith, e, plan_there, new))
          | inr (r, there) ↦ unchanged (ground (arith, e, plan_there, there))
        ]
      ]

  complete-Change :
      (c : Claim) (receipt : OperationReceipt) (now : ℕ) (u : Unit {0}) (after : FlowDb)
      → complete h c receipt now db ≡ return (u, after)
      → Change h db after
  unfolding complete
  complete-Change c receipt now u after = guarded-Change h db c now _ u after λ held e.
      elim (Option-cases (get (operation_key h c.plan_digest receipt.operation_id) db.operations)) [
        | inl no_intent ↦ unchanged (ground (arith, e, no_intent))
        | inr (r, there) ↦
            completed c r receipt held there (ground (arith, e, there)) (ground (arith, e, there))
      ]

  finish-Change :
      (c : Claim) (resources : List OwnedResource) (observation : Observation) (now : ℕ)
      (i : Installation) (after : FlowDb)
      → finish h c resources observation now db ≡ return (i, after)
      → Change h db after
  unfolding finish
  finish-Change c resources observation now i after = guarded-Change h db c now _ i after λ held e.
      elim (Option-cases (get (plan_key h c.plan_digest) db.plans)) [
        | inl no_plan ↦ unchanged (ground (arith, e, no_plan))
        | inr (p, plan_there) ↦ elim (Option-cases p.construction) [
          | inl new ↦ elim (Result-cases (require_receipts h c p.document.operations db)) [
            | inr (fault, missing) ↦ unchanged (ground (arith, e, plan_there, new, missing))
            | inl (u, complete) ↦ elim (Option-cases (get h.id db.installations)) [
              | inl no_row ↦ unchanged (ground (arith, e, plan_there, new, complete, no_row))
              | inr (r, row_there) ↦
                  constructed c p r
                    (record {
                      id = h.id;
                      target = h.target;
                      revision = r.revision + 1;
                      resources = resources;
                    })
                    observation held plan_there new complete row_there refl
                    (ground (arith, e, plan_there, new, complete, row_there))
            ]
          ]
          | inr (existing, there) ↦ unchanged (ground (arith, e, plan_there, there))
        ]
      ]

  save_row-Change :
      (c : Claim) (kind : String) (document : Evidence) (now : ℕ) (u : Unit {0}) (after : FlowDb)
      → save_row h c kind document now db ≡ return (u, after)
      → Change h db after
  unfolding save_row has
  save_row-Change c kind document now u after e = elim (Bool-cases (is_evidence_kind kind)) [
    | inr unknown ↦ unchanged (ground (arith, e, unknown))
    | inl known ↦
        guarded-Change h db c now _ u after
          (λ held e'. elim (Option-cases (get (evidence_key h c.plan_digest kind) db.evidence)) [
            | inl new ↦ recorded c kind document held new (ground (arith, e', new))
            | inr (d, there) ↦ unchanged (ground (arith, e', there))
          ])
          (rw known at e)
  ]

  pub begin_operation-Change :
      (digests : Digests) (c : Claim) (operation : Operation) (now : ℕ)
      → Change h db (begin_operation h digests c operation now db).1
  unfolding begin_operation
  begin_operation-Change digests c operation now =
      commit h db (begin h digests c operation now) (begin-Change digests c operation now)

  pub complete_operation-Change :
      (c : Claim) (receipt : OperationReceipt) (now : ℕ)
      → Change h db (complete_operation h c receipt now db).1
  unfolding complete_operation
  complete_operation-Change c receipt now =
      commit h db (complete h c receipt now) (complete-Change c receipt now)

  pub finish_construction-Change :
      (c : Claim) (resources : List OwnedResource) (observation : Observation) (now : ℕ)
      → Change h db (finish_construction h c resources observation now db).1
  unfolding finish_construction
  finish_construction-Change c resources observation now =
      commit h db (finish h c resources observation now) (finish-Change c resources observation now)

  pub save_evidence-Change :
      (c : Claim) (kind : String) (document : Evidence) (now : ℕ)
      → Change h db (save_evidence h c kind document now db).1
  unfolding save_evidence
  save_evidence-Change c kind document now =
      commit h db (save_row h c kind document now) (save_row-Change c kind document now)
