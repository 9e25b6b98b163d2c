-- ===== src/Flow/Store/Constructed.antt =====
-- A construction stands on the receipts of its plan's operations (runtime/flow/sqlite.py).
use sanka.Prelude.{
  String, ◌≡◌, ap, subst, true, some, List, [], ◌∷◌, ◌==◌, eq_string, eq_option, arith, ◌⊎◌, inl,
  inr, Bool-cases, All, Option-cases, ◌∙◌,
}
use sanka.Prelude.Dict.{get, set, get-set}
use sanka.Fault.{return}
use sanka.Flow.Model.{
  Operation, Action, eq_action, Construction, to_dict, OperationReceipt, eq_receipt, Claim,
}
use sanka.Flow.Store.{
  PlanRow, OperationRow, PlanKey, eq_plan_key, eq_operation_key, FlowDb, Handle, plan_key,
  operation_key,
}
use sanka.Flow.Store.Operations.{require_receipts}
use sanka.Flow.Store.Changes.{
  Change, unchanged, opened, planned, claimed, begun, completed, constructed, recorded, released,
  abandoned,
}
use sanka.Flow.Store.Permanent.{Extends, Change-Extends}
use sanka.Flow.Store.Clean.{operation_of}
use sanka.Flow.Store.Abandoned.{no_tables}
use sanka.Flow.Store.Calls.{Call, run, run_keeps}

-- The operation is recorded with a receipt.
abbrev pub HasReceipt : PlanKey → FlowDb → String → Type 0
HasReceipt k db id =
    (r : OperationRow) × (receipt : OperationReceipt) × (get (operation_of k id) db.operations
      ≡ some r)
    × (r.receipt ≡ some receipt)

abbrev pub IsSettled : PlanKey → FlowDb → Operation → Type 0
IsSettled k db op = (op.action ≡ Action.preserve) ⊎ HasReceipt k db op.id

Settled-mono :
    (k : PlanKey) (a b : FlowDb) (ops : List Operation)
    → Extends a b
    → All (IsSettled k a) ops
    → All (IsSettled k b) ops
Settled-mono k a b [] ext h = tt
Settled-mono k a b (op ∷ ops) ext (inl kept, h) = (inl kept, Settled-mono k a b ops ext h)
Settled-mono k a b (op ∷ ops) ext (inr (r, x, there, has_x), h) =
    let (s, s_there, grown) = ext.operations (operation_of k op.id) r there in
    (inr (s, x, s_there, grown.receipt x has_x), Settled-mono k a b ops ext h)

-- `require_receipts` finds a receipt for every operation that is not preserved.
require_receipts-Settled :
    (h : Handle) (c : Claim) (ops : List Operation) (db : FlowDb)
    → require_receipts h c ops db ≡ return tt
    → All (IsSettled (plan_key h c.plan_digest) db) ops
unfolding require_receipts
require_receipts-Settled h c [] db e = tt
require_receipts-Settled h c (op ∷ ops) db e = elim (Bool-cases (op.action == Action.preserve)) [
  | inl kept ↦ (
    inl ((eq_action.beq_iff op.action Action.preserve).0 kept),
    require_receipts-Settled h c ops db (ground (arith, e, kept)),
  )
  | inr changed ↦ elim (Option-cases (get (operation_key h c.plan_digest op.id) db.operations)) [
    | inl no_row ↦ absurd (ground (arith, e, changed, no_row))
    | inr (r, there) ↦ elim (Option-cases r.receipt) [
      | inl unsettled ↦ absurd (ground (arith, e, changed, there, unsettled))
      | inr (x, has_x) ↦ (
        inr (r, x, there, has_x),
        require_receipts-Settled h c ops db (ground (arith, e, changed, there, has_x)),
      )
    ]
  ]
]

module _ (k : PlanKey) where
  abbrev pub IsBuilt : FlowDb → Type 0
  IsBuilt db =
      (p : PlanRow) (x : Construction)
      → get k db.plans ≡ some p
      → p.construction ≡ some x
      → All (IsSettled k db) p.document.operations

  -- A change that leaves the plans alone.
  kept-IsBuilt : (a b : FlowDb) → Extends a b → b.plans ≡ a.plans → IsBuilt a → IsBuilt b
  kept-IsBuilt a b ext same built p x there has_x =
      Settled-mono k a b p.document.operations ext (built p x (rw (← same) there) has_x)

  -- A write of a plan.
  put_plan-IsBuilt :
      (a b : FlowDb) (j : PlanKey) (q : PlanRow)
      → Extends a b
      → b.plans ≡ set j q a.plans
      → (j ≡ k
          → (x : Construction) → q.construction ≡ some x
          → All (IsSettled k b) q.document.operations)
      → IsBuilt a
      → IsBuilt b
  put_plan-IsBuilt a b j q ext w written built p x there has_x = elim (Bool-cases (j == k)) [
    | inl same ↦
        let e : q ≡ p = ground (arith, get-set j k q a.plans, w, same, there) in
        subst (λ (y : PlanRow). All (IsSettled k b) y.document.operations) e
          (written ((eq_plan_key.beq_iff j k).0 same) x
            (ap (λ (y : PlanRow). y.construction) e ∙ has_x))
    | inr other ↦
        Settled-mono k a b p.document.operations ext
          (built p x (ground (arith, get-set j k q a.plans, w, other, there)) has_x)
  ]

  Change-IsBuilt : (h : Handle) (a b : FlowDb) → Change h a b → Extends a b → IsBuilt a → IsBuilt b
  Change-IsBuilt h a b (unchanged w) ext = kept-IsBuilt a b ext (ground (arith, w))
  Change-IsBuilt h a b (opened r new free idle w) ext = kept-IsBuilt a b ext (ground (arith, w))
  Change-IsBuilt h a b (planned digest q new live unbuilt w) ext =
      put_plan-IsBuilt a b (plan_key h digest) q ext (ground (arith, w))
        λ e x has_x. absurd (ground (arith, unbuilt, has_x))
  Change-IsBuilt h a b (claimed digest attempt_id clock q r plan_there live there free w) ext =
      kept-IsBuilt a b ext (ground (arith, w))
  Change-IsBuilt h a b (begun c r id held new unsettled w) ext =
      kept-IsBuilt a b ext (ground (arith, w))
  Change-IsBuilt h a b (completed c r x held there same w) ext =
      kept-IsBuilt a b ext (ground (arith, w))
  Change-IsBuilt h a b (constructed c q r i o held plan_there unbuilt complete there next w) ext =
      put_plan-IsBuilt a b (plan_key h c.plan_digest)
        (record q { construction = some (record { installation = to_dict i; observation = o }) })
        ext (ground (arith, w))
        λ e x has_x.
          subst (λ j. All (IsSettled j b) q.document.operations) e
            (Settled-mono (plan_key h c.plan_digest) a b q.document.operations ext
              (require_receipts-Settled h c q.document.operations a complete))
  Change-IsBuilt h a b (recorded c kind x held new w) ext = kept-IsBuilt a b ext (ground (arith, w))
  Change-IsBuilt h a b (released c r active held there which w) ext =
      kept-IsBuilt a b ext (ground (arith, w))
  Change-IsBuilt h a b (abandoned c q r held plan_there unbuilt unsettled bare there w) ext =
      put_plan-IsBuilt a b (plan_key h c.plan_digest) (record q { abandoned = true }) ext
        (ground (arith, w)) λ e x has_x. absurd (ground (arith, unbuilt, has_x))

-- After any calls of any handles on a new database, each operation of a plan with a construction is a
-- preserved one, or is recorded under the plan with a receipt.
pub construction-IsSettled :
    (calls : List (Handle × Call)) (k : PlanKey) (p : PlanRow) (x : Construction)
    → get k (run calls no_tables).plans ≡ some p
    → p.construction ≡ some x
    → All (IsSettled k (run calls no_tables)) p.document.operations
unfolding get
construction-IsSettled calls k p x =
    run_keeps (IsBuilt k)
      (λ h a b change. Change-IsBuilt k h a b change (Change-Extends h a b change)) calls no_tables
      (λ q y there. absurd (cc)) p x
