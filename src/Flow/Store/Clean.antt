-- ===== src/Flow/Store/Clean.antt =====
-- The state of a discarded plan that has had no effects (runtime/flow/sqlite.py), and the writes that
-- keep it.
use sanka.Prelude.{
  ℕ, String, ◌≡◌, ◌≢◌, refl, sym, subst, true, false, none, some, [], ◌∷◌, any, ◌==◌, eq_string,
  eq_option, opt_eq_iff, arith, inl, inr, Bool-cases, ap, ◌∙◌, beq_refl,
}
use sanka.Prelude.Dict.{Dict, get, get-set}
use sanka.Flow.Model.{eq_receipt, Evidence, Claim}
use sanka.Flow.Store.{
  InstallationRow, PlanRow, OperationRow, PlanKey, OperationKey, EvidenceKey, eq_plan_key,
  eq_operation_key, eq_evidence_key, FlowDb, Handle, plan_key, operation_key, evidence_key, holds,
  put_row,
}
use sanka.Flow.Store.Operations.{has_results, has_evidence, put_plan}
use sanka.Flow.Store.Changes.{Held}

-- A claim that is held selects its plan.
holds-selects :
    (c : Claim) (now : ℕ) (r : InstallationRow)
    → holds c now r ≡ true
    → r.active_plan ≡ some c.plan_digest
unfolding holds
holds-selects c now r carried =
    ground (arith, carried, opt_eq_iff r.active_plan (some c.plan_digest))

pub Held-selects :
    (h : Handle) (c : Claim) (db : FlowDb) (r : InstallationRow)
    → Held h c db
    → get h.id db.installations ≡ some r
    → r.active_plan ≡ some c.plan_digest
Held-selects h c db r held there =
    let same : held.row ≡ r = ground (arith, held.there, there) in
    subst (λ s. s.active_plan ≡ some c.plan_digest) same
      (holds-selects c held.now held.row held.held)

pub no_results :
    (h : Handle) (digest id : String) (r : OperationRow) (rows : Dict OperationKey OperationRow)
    → has_results h digest rows ≡ false
    → get (operation_key h digest id) rows ≡ some r
    → r.receipt ≡ none
unfolding has_results any get
no_results h digest id r [] none_there there = absurd (ground (arith, there))
no_results h digest id r ((k, s) ∷ rows) none_there there =
    elim (Bool-cases (k == operation_key h digest id)) [
      | inl same ↦
          let e : k ≡ operation_key h digest id =
            (eq_operation_key.beq_iff k (operation_key h digest id)).0 same in
          let first : s ≡ r = ground (arith, there, same) in
          let empty : s.receipt ≡ none = ground (
            arith,
            none_there,
            ap (λ (j : OperationKey). j.installation_id) e,
            ap (λ (j : OperationKey). j.plan_digest) e,
            beq_refl h.id,
            beq_refl digest,
            opt_eq_iff s.receipt none,
          ) in
          subst (λ x. x.receipt ≡ none) first empty
      | inr other ↦
          no_results h digest id r rows (ground (arith, none_there)) (ground (arith, there, other))
    ]

pub no_evidence :
    (h : Handle) (digest kind : String) (rows : Dict EvidenceKey Evidence)
    → has_evidence h digest rows ≡ false
    → get (evidence_key h digest kind) rows ≡ none
unfolding has_evidence any get
no_evidence h digest kind [] none_there = refl
no_evidence h digest kind ((k, x) ∷ rows) none_there =
    ground (arith, no_evidence h digest kind rows, none_there, beq_refl h.id, beq_refl digest)

abbrev pub operation_of : PlanKey → String → OperationKey
operation_of k id = record {
  installation_id = k.installation_id;
  plan_digest = k.digest;
  operation_id = id;
}

abbrev pub evidence_of : PlanKey → String → EvidenceKey
evidence_of k kind = record {
  installation_id = k.installation_id;
  plan_digest = k.digest;
  kind = kind;
}

abbrev pub plan_key_of : OperationKey → PlanKey
plan_key_of x = record { installation_id = x.installation_id; digest = x.plan_digest }

abbrev pub plan_key_of_evidence : EvidenceKey → PlanKey
plan_key_of_evidence x = record { installation_id = x.installation_id; digest = x.plan_digest }

pub claims_live : {q : PlanRow} (p : PlanRow) → p.abandoned ≡ true → q.abandoned ≡ false → q ≡ p → ⊥
claims_live {q} p retired live e =
    absurd (ground (arith, retired, live, ap (λ (x : PlanRow). x.abandoned) e))

-- Nothing is recorded for the plan, and the installation does not select it.
pub record Effectless (k : PlanKey) (p : PlanRow) (db : FlowDb) : Type 0 where
  pub construction : p.construction ≡ none
  pub receipts :
      (id : String) (r : OperationRow)
      → get (operation_of k id) db.operations ≡ some r
      → r.receipt ≡ none
  pub evidence : (kind : String) → get (evidence_of k kind) db.evidence ≡ none
  pub selection :
      (r : InstallationRow)
      → get k.installation_id db.installations ≡ some r
      → r.active_plan ≢ some k.digest

module _ (k : PlanKey) where
  abbrev pub IsClean : FlowDb → Type 0
  IsClean db = (p : PlanRow) → get k db.plans ≡ some p → p.abandoned ≡ true → Effectless k p db

  pub same_key :
      (h : Handle) (digest : String)
      → k.installation_id ≡ h.id
      → digest ≡ k.digest
      → k ≡ plan_key h digest
  same_key h digest e f = ground (arith, e, f)

  -- A write of the row of an installation.
  pub put_row-IsClean :
      (h : Handle) (r : InstallationRow) (db : FlowDb)
      → IsClean db
      → (k.installation_id ≡ h.id
          → (p : PlanRow) → get k db.plans ≡ some p
          → p.abandoned ≡ true
          → r.active_plan ≢ some k.digest)
      → IsClean (put_row h r db)
  put_row-IsClean h r db clean unselected p there retired =
      let old = clean p there retired in
      record {
        construction = old.construction;
        receipts = old.receipts;
        evidence = old.evidence;
        selection = λ s s_there. elim (Bool-cases (h.id == k.installation_id)) [
          | inl same ↦
              let e : r ≡ s =
                ground (arith, get-set h.id k.installation_id r db.installations, same, s_there) in
              subst (λ x. x.active_plan ≢ some k.digest) e
                (unselected (sym ((eq_string.beq_iff h.id k.installation_id).0 same)) p there
                  retired)
          | inr other ↦
              old.selection s
                (ground (arith, get-set h.id k.installation_id r db.installations, other, s_there))
        ];
      }

  -- A claim that is held selects a plan that is not abandoned.
  pub Held-IsClean_live :
      (h : Handle) (c : Claim) (db : FlowDb) (p : PlanRow)
      → IsClean db
      → Held h c db
      → k ≡ plan_key h c.plan_digest
      → get k db.plans ≡ some p
      → p.abandoned ≡ true
      → ⊥
  Held-IsClean_live h c db p clean held e there retired =
      (clean p there retired).selection held.row
        (rw (ap (λ (j : PlanKey). j.installation_id) e) held.there)
        (rw (ap (λ (j : PlanKey). j.digest) e) (Held-selects h c db held.row held held.there))

  -- A write of a plan.
  pub put_plan-IsClean :
      (h : Handle) (digest : String) (q : PlanRow) (db : FlowDb)
      → IsClean db
      → (k ≡ plan_key h digest → q.abandoned ≡ true → Effectless k q db)
      → IsClean (put_plan h digest q db)
  put_plan-IsClean h digest q db clean written p there retired =
      elim (Bool-cases (plan_key h digest == k)) [
        | inl same ↦
            let e : q ≡ p = ground (arith, get-set (plan_key h digest) k q db.plans, same, there) in
            let f =
              written (sym ((eq_plan_key.beq_iff (plan_key h digest) k).0 same))
                (ap (λ (x : PlanRow). x.abandoned) e ∙ retired) in
            record {
              construction = sym (ap (λ (x : PlanRow). x.construction) e) ∙ f.construction;
              receipts = f.receipts;
              evidence = f.evidence;
              selection = f.selection;
            }
        | inr other ↦
            let f =
              clean p (ground (arith, get-set (plan_key h digest) k q db.plans, other, there))
                retired in
            record {
              construction = f.construction;
              receipts = f.receipts;
              evidence = f.evidence;
              selection = f.selection;
            }
      ]
