-- ===== src/Flow/Store/Permanent.antt =====
-- What no call of the installation ledger takes back (runtime/flow/sqlite.py).
use sanka.Prelude.{
  ◌≤◌, String, ◌≡◌, refl, true, false, none, some, List, ◌==◌, Eq, eq_string, eq_option, arith, inl,
  inr, Bool-cases,
}
use sanka.Prelude.Dict.{Dict, get, set, get-set}
use sanka.Flow.Model.{OperationReceipt, eq_receipt, Construction, Evidence}
use sanka.Flow.Store.{
  InstallationRow, PlanRow, OperationRow, PlanKey, OperationKey, EvidenceKey, eq_plan_key,
  eq_operation_key, eq_evidence_key, FlowDb, Handle, plan_key, operation_key, evidence_key,
}
use sanka.Flow.Store.Operations.{has_other_receipt}
use sanka.Flow.Store.Changes.{
  Change, unchanged, opened, planned, claimed, begun, completed, constructed, recorded, released,
  abandoned,
}
use sanka.Flow.Store.Calls.{Call, run, run_keeps}

-- A row keeps its target, and its revision and generation do not fall.
pub record RowExtends (r s : InstallationRow) : Type 0 where
  pub target : s.target ≡ r.target
  pub revision : r.revision ≤ s.revision
  pub generation : r.generation ≤ s.generation

-- A plan keeps its document, the construction that it has, and its end.
pub record PlanExtends (p q : PlanRow) : Type 0 where
  pub document : q.document ≡ p.document
  pub construction : (c : Construction) → p.construction ≡ some c → q.construction ≡ some c
  pub abandoned : p.abandoned ≡ true → q.abandoned ≡ true

-- An operation keeps its request and the receipt that it has.
pub record OperationExtends (r s : OperationRow) : Type 0 where
  pub request : s.request ≡ r.request
  pub request_digest : s.request_digest ≡ r.request_digest
  pub receipt : (x : OperationReceipt) → r.receipt ≡ some x → s.receipt ≡ some x

-- Every entry of `d` is in `e`, extended.
abbrev pub Grows : {K V : Type 0} ⦃e : Eq K⦄ → (V → V → Type 0) → Dict K V → Dict K V → Type 0
Grows {K} {V} R c d = (k : K) (v : V) → get k c ≡ some v → (w : V) × (get k d ≡ some w) × R v w

pub record Extends (a b : FlowDb) : Type 0 where
  pub installations : Grows RowExtends a.installations b.installations
  pub plans : Grows PlanExtends a.plans b.plans
  pub operations : Grows OperationExtends a.operations b.operations
  pub evidence : Grows (λ v w. w ≡ v) a.evidence b.evidence

module _ {K V : Type 0} ⦃e : Eq K⦄ (R : V → V → Type 0) (R_refl : (v : V) → R v v) where
  Grows-refl : (d : Dict K V) → Grows R d d
  Grows-refl d k v there = (v, there, R_refl v)

  -- A write of a new key, or of an extension of the old value.
  Grows-set_new : (k : K) (w : V) (d : Dict K V) → get k d ≡ none → Grows R d (set k w d)
  Grows-set_new k w d new j v there =
      (v, ground (arith, get-set k j w d, e.beq_iff k j, new, there), R_refl v)

  Grows-set : (k : K) (v w : V) (d : Dict K V) → get k d ≡ some v → R v w → Grows R d (set k w d)
  Grows-set k v w d old ext j u there = elim (Bool-cases (k == j)) [
    | inl same ↦
        let k_is_j : k ≡ j = (e.beq_iff k j).0 same in
        let v_is_u : v ≡ u = ground (arith, old, there, k_is_j) in
        (w, ground (arith, get-set k j w d, same), rw v_is_u at ext)
    | inr other ↦ (u, ground (arith, get-set k j w d, other, there), R_refl u)
  ]

module _ {K V : Type 0} ⦃e : Eq K⦄ (R : V → V → Type 0) where
  Grows-trans :
      ((u v w : V) → R u v → R v w → R u w)
      → (a b c : Dict K V) → Grows R a b
      → Grows R b c
      → Grows R a c
  Grows-trans R_trans a b c f g k u there =
      let (v, v_there, uv) = f k u there in
      let (w, w_there, vw) = g k v v_there in (w, w_there, R_trans u v w uv vw)

abbrev row_refl : (r : InstallationRow) → RowExtends r r
row_refl r = record { target = refl; revision = omega arith; generation = omega arith }

abbrev plan_refl : (p : PlanRow) → PlanExtends p p
plan_refl p = record { document = refl; construction = λ c e. e; abandoned = λ e. e }

abbrev operation_refl : (r : OperationRow) → OperationExtends r r
operation_refl r = record { request = refl; request_digest = refl; receipt = λ x e. e }

pub Extends-refl : (a : FlowDb) → Extends a a
Extends-refl a = record {
  installations = Grows-refl RowExtends row_refl a.installations;
  plans = Grows-refl PlanExtends plan_refl a.plans;
  operations = Grows-refl OperationExtends operation_refl a.operations;
  evidence = Grows-refl (λ v w. w ≡ v) (λ v. refl) a.evidence;
}

Extends-trans : {a b c : FlowDb} → Extends a b → Extends b c → Extends a c
Extends-trans {a} {b} {c} f g = record {
  installations =
      Grows-trans RowExtends
        (λ u v w x y. record {
          target = ground (arith, x.target, y.target);
          revision = omega (arith, x.revision, y.revision);
          generation = omega (arith, x.generation, y.generation);
        })
        a.installations b.installations c.installations f.installations g.installations;
  plans =
      Grows-trans PlanExtends
        (λ u v w x y. record {
          document = ground (arith, x.document, y.document);
          construction = λ k e. y.construction k (x.construction k e);
          abandoned = λ e. y.abandoned (x.abandoned e);
        })
        a.plans b.plans c.plans f.plans g.plans;
  operations =
      Grows-trans OperationExtends
        (λ u v w x y. record {
          request = ground (arith, x.request, y.request);
          request_digest = ground (arith, x.request_digest, y.request_digest);
          receipt = λ k e. y.receipt k (x.receipt k e);
        })
        a.operations b.operations c.operations f.operations g.operations;
  evidence =
      Grows-trans (λ v w. w ≡ v) (λ u v w x y. ground (arith, x, y)) a.evidence b.evidence
        c.evidence f.evidence g.evidence;
}

-- The changes of one table.
module _ (a : FlowDb) where
  installations_extend :
      {rows : Dict String InstallationRow}
      → Grows RowExtends a.installations rows
      → Extends a (record a { installations = rows })
  installations_extend g = record {
    installations = g;
    plans = (Extends-refl a).plans;
    operations = (Extends-refl a).operations;
    evidence = (Extends-refl a).evidence;
  }

  plans_extend :
      {rows : Dict PlanKey PlanRow}
      → Grows PlanExtends a.plans rows
      → Extends a (record a { plans = rows })
  plans_extend g = record {
    installations = (Extends-refl a).installations;
    plans = g;
    operations = (Extends-refl a).operations;
    evidence = (Extends-refl a).evidence;
  }

  operations_extend :
      {rows : Dict OperationKey OperationRow}
      → Grows OperationExtends a.operations rows
      → Extends a (record a { operations = rows })
  operations_extend g = record {
    installations = (Extends-refl a).installations;
    plans = (Extends-refl a).plans;
    operations = g;
    evidence = (Extends-refl a).evidence;
  }

  evidence_extend :
      {rows : Dict EvidenceKey Evidence}
      → Grows (λ v w. w ≡ v) a.evidence rows
      → Extends a (record a { evidence = rows })
  evidence_extend g = record {
    installations = (Extends-refl a).installations;
    plans = (Extends-refl a).plans;
    operations = (Extends-refl a).operations;
    evidence = g;
  }

receipt_kept :
    (x : OperationReceipt) (r : OperationRow)
    → has_other_receipt x r ≡ false
    → (y : OperationReceipt) → r.receipt ≡ some y
    → some x ≡ some y
unfolding has_other_receipt
receipt_kept x r same y there = ground (arith, same, there, eq_receipt.beq_iff y x)

pub Change-Extends : (h : Handle) (a b : FlowDb) → Change h a b → Extends a b
Change-Extends h a b (unchanged w) = rw w (Extends-refl a)
Change-Extends h a b (opened r new free idle w) =
    rw w (installations_extend a (Grows-set_new RowExtends row_refl h.id r a.installations new))
Change-Extends h a b (planned digest p new live open_plan w) =
    rw w (plans_extend a (Grows-set_new PlanExtends plan_refl (plan_key h digest) p a.plans new))
Change-Extends h a b (claimed digest attempt_id clock p r plan_there live there free w) = rw w (
    installations_extend a (
      Grows-set RowExtends row_refl h.id r _ a.installations there
        (record { target = refl; revision = omega arith; generation = omega arith })))
Change-Extends h a b (begun c r id held new no_receipt w) = rw w (
    operations_extend a (
      Grows-set_new OperationExtends operation_refl (operation_key h c.plan_digest id) r
        a.operations new))
Change-Extends h a b (completed c r x held there same w) = rw w (
    operations_extend a (
      Grows-set OperationExtends operation_refl (operation_key h c.plan_digest x.operation_id) r _
        a.operations there
        (record { request = refl; request_digest = refl; receipt = receipt_kept x r same })))
Change-Extends h a b (constructed c p r i o held plan_there new complete there next_revision w) =
    rw w (record {
      operations = (Extends-refl a).operations;
      evidence = (Extends-refl a).evidence;
      installations =
          Grows-set RowExtends row_refl h.id r _ a.installations there
            (record { target = refl; revision = omega arith; generation = omega arith });
      plans =
          Grows-set PlanExtends plan_refl (plan_key h c.plan_digest) p _ a.plans plan_there
            (record { document = refl; construction = λ k e. absurd (cc); abandoned = λ e. e });
    })
Change-Extends h a b (recorded c kind e held new w) = rw w (
    evidence_extend a (
      Grows-set_new (λ v w. w ≡ v) (λ v. refl) (evidence_key h c.plan_digest kind) e a.evidence
        new))
Change-Extends h a b (released c r active held there which w) = rw w (
    installations_extend a (
      Grows-set RowExtends row_refl h.id r _ a.installations there
        (record { target = refl; revision = omega arith; generation = omega arith })))
Change-Extends h a b (abandoned c p r held plan_there new no_results no_evidence there w) =
    rw w (record {
      operations = (Extends-refl a).operations;
      evidence = (Extends-refl a).evidence;
      installations =
          Grows-set RowExtends row_refl h.id r _ a.installations there
            (record { target = refl; revision = omega arith; generation = omega arith });
      plans =
          Grows-set PlanExtends plan_refl (plan_key h c.plan_digest) p _ a.plans plan_there
            (record { document = refl; construction = λ k e. e; abandoned = λ e. refl });
    })

-- Through any calls of any handles, whether they return or raise, the ledger keeps what it has: each
-- installation with its target, and with a revision and a generation that do not fall; each plan
-- with its document, with the construction it has, and abandoned once it is; each operation with its
-- request and with the receipt it has; and each piece of evidence as it is.
pub run-Extends : (calls : List (Handle × Call)) (db : FlowDb) → Extends db (run calls db)
run-Extends calls db =
    run_keeps (Extends db)
      (λ h a b change before. Extends-trans before (Change-Extends h a b change)) calls db
      (Extends-refl db)
