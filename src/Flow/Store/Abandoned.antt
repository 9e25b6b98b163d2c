-- ===== src/Flow/Store/Abandoned.antt =====
-- A discarded plan has had no effects, and never gets any (runtime/flow/sqlite.py).
use sanka.Prelude.{
  String, ◌≡◌, sym, subst, true, false, none, some, List, [], ◌==◌, eq_string, eq_option, arith,
  inl, inr, Bool-cases, ap,
}
use sanka.Prelude.Dict.{get, set, get-set, get-set_self}
use sanka.Flow.Model.{eq_receipt, Evidence, Claim}
use sanka.Flow.Store.{
  InstallationRow, PlanRow, OperationRow, PlanKey, OperationKey, EvidenceKey, eq_plan_key,
  eq_operation_key, eq_evidence_key, FlowDb, Handle, plan_key, operation_key, evidence_key, put_row,
  claimed_row,
}
use sanka.Flow.Store.Operations.{has_results, has_evidence}
use sanka.Flow.Store.Changes.{
  Held, Change, unchanged, opened, planned, claimed, begun, completed, constructed, recorded,
  released, abandoned,
}
use sanka.Flow.Store.Calls.{Call, run, run_keeps}
use sanka.Flow.Store.Clean.{
  Held-selects, no_results, no_evidence, operation_of, evidence_of, plan_key_of,
  plan_key_of_evidence, claims_live, Effectless, IsClean, same_key, put_row-IsClean,
  Held-IsClean_live, put_plan-IsClean,
}

module _ (k : PlanKey) where
  -- A write of an operation or of evidence under a claim that is held.
  module _ (h : Handle) (c : Claim) (db : FlowDb) (held : Held h c db) (clean : IsClean k db) where
    put_operation-IsClean :
        (id : String) (r : OperationRow)
        → IsClean k
            (record db { operations = set (operation_key h c.plan_digest id) r db.operations })
    put_operation-IsClean id r p there retired =
        let f = clean p there retired in
        let key = operation_key h c.plan_digest id in
        record {
          construction = f.construction;
          receipts = λ j s s_there. elim (Bool-cases (key == operation_of k j)) [
            | inl same ↦
                let e : key ≡ operation_of k j =
                  (eq_operation_key.beq_iff key (operation_of k j)).0 same in
                absurd (
                  Held-IsClean_live k h c db p clean held
                    (sym (ap (λ (x : OperationKey). plan_key_of x) e)) there retired)
            | inr other ↦
                f.receipts j s
                  (ground (arith, get-set key (operation_of k j) r db.operations, other, s_there))
          ];
          evidence = f.evidence;
          selection = f.selection;
        }

    put_evidence-IsClean :
        (kind : String) (x : Evidence)
        → IsClean k (record db { evidence = set (evidence_key h c.plan_digest kind) x db.evidence })
    put_evidence-IsClean kind x p there retired =
        let f = clean p there retired in
        let key = evidence_key h c.plan_digest kind in
        record {
          construction = f.construction;
          receipts = f.receipts;
          evidence = λ j. elim (Bool-cases (key == evidence_of k j)) [
            | inl same ↦
                let e : key ≡ evidence_of k j =
                  (eq_evidence_key.beq_iff key (evidence_of k j)).0 same in
                absurd (
                  Held-IsClean_live k h c db p clean held
                    (sym (ap (λ (y : EvidenceKey). plan_key_of_evidence y) e)) there retired)
            | inr other ↦
                ground (arith, get-set key (evidence_of k j) x db.evidence, other, f.evidence j)
          ];
          selection = f.selection;
        }

  -- A plan without effects, once its installation is freed.
  retired-Effectless :
      (h : Handle) (c : Claim) (q : PlanRow) (r : InstallationRow) (db : FlowDb)
      → k ≡ plan_key h c.plan_digest
      → q.construction ≡ none
      → has_results h c.plan_digest db.operations ≡ false
      → has_evidence h c.plan_digest db.evidence ≡ false
      → Effectless k
          (record q { abandoned = true })
          (put_row h (record r { active_plan = none; attempt = none; lease_until = 0 }) db)
  retired-Effectless h c q r db e unbuilt unsettled bare = rw e (record {
    construction = unbuilt;
    receipts = λ id s there. no_results h c.plan_digest id s db.operations unsettled there;
    evidence = λ kind. no_evidence h c.plan_digest kind db.evidence bare;
    selection = λ s there selected. absurd (
        ground (
          arith,
          get-set_self h.id (record r { active_plan = none; attempt = none; lease_until = 0 })
              db.installations,
          there,
          selected,
        ));
  })

  Change-IsClean : (h : Handle) (a b : FlowDb) → Change h a b → IsClean k a → IsClean k b
  Change-IsClean h a b (unchanged w) clean = subst (IsClean k) (sym w) clean
  Change-IsClean h a b (opened r new free idle w) clean = subst (IsClean k) (sym w) (
      put_row-IsClean k h r a clean
        λ e p there retired selected. absurd (ground (arith, idle, selected)))
  Change-IsClean h a b (planned digest q new live unbuilt w) clean =
      subst (IsClean k) (sym w)
        (put_plan-IsClean k h digest q a clean λ e retired. absurd (ground (arith, live, retired)))
  Change-IsClean h a b (claimed digest attempt_id clock q r plan_there live there free w) clean =
      subst (IsClean k) (sym w) (
        put_row-IsClean k h (claimed_row h digest attempt_id clock r) a clean
          λ e p p_there retired selected.
            claims_live {q = q} p retired live (
              ground
                (arith, plan_there, p_there, same_key k h digest e (ground (arith, selected)))))
  Change-IsClean h a b (begun c r id held new unsettled w) clean =
      subst (IsClean k) (sym w) (put_operation-IsClean h c a held clean id r)
  Change-IsClean h a b (completed c r x held there same w) clean =
      subst (IsClean k) (sym w) (put_operation-IsClean h c a held clean x.operation_id _)
  Change-IsClean h a b (constructed c q r i o held plan_there unbuilt complete there next w) clean =
      subst (IsClean k) (sym w) (
        put_plan-IsClean k h c.plan_digest _ _
          (put_row-IsClean k h _ a clean λ e p p_there retired. λ selected.
            (clean p p_there retired).selection r (rw e there) (ground (arith, selected)))
          λ e retired.
            absurd (
              Held-IsClean_live k h c a q clean held e (rw e plan_there) (ground (arith, retired))))
  Change-IsClean h a b (recorded c kind x held new w) clean =
      subst (IsClean k) (sym w) (put_evidence-IsClean h c a held clean kind x)
  Change-IsClean h a b (released c r active held there which w) clean = subst (IsClean k) (sym w) (
      put_row-IsClean k h _ a clean λ e p p_there retired. λ selected.
        (clean p p_there retired).selection r (rw e there)
          (ground (arith, selected, Held-selects h c a r held there, which)))
  Change-IsClean h a b (abandoned c q r held plan_there unbuilt unsettled bare there w) clean =
      subst (IsClean k) (sym w) (
        put_plan-IsClean k h c.plan_digest _ _
          (put_row-IsClean k h _ a clean
            λ e p p_there retired selected. absurd (ground (arith, selected)))
          λ e retired. retired-Effectless h c q r a e unbuilt unsettled bare)

abbrev pub no_tables : FlowDb
no_tables = record { installations = []; plans = []; operations = []; evidence = [] }

-- After any calls of any handles on a new database, a plan that is marked as abandoned has no
-- construction, no operation with a receipt and no evidence, and its installation does not select it.
pub abandoned-Effectless :
    (calls : List (Handle × Call)) (k : PlanKey) (p : PlanRow)
    → get k (run calls no_tables).plans ≡ some p
    → p.abandoned ≡ true
    → Effectless k p (run calls no_tables)
unfolding get
abandoned-Effectless calls k p =
    run_keeps (IsClean k) (Change-IsClean k) calls no_tables (λ q there. absurd (cc)) p
