-- ===== src/Flow/Store/Changes/Claims.antt =====
-- The changes of opening the ledger, saving a plan, and claiming, releasing and abandoning it
-- (runtime/flow/sqlite.py).
use sanka.Prelude.{
  ℕ, String, ◌≡◌, refl, false, ◌&&◌, not, none, some, [], eq_string, eq_option, arith, inl, inr,
  Bool-cases, Option-cases,
}
use sanka.Prelude.Dict.{get, has}
use sanka.Fault.{return}
use sanka.Flow.Model.{eq_installation, FlowPlan, Claim, Digests}
use sanka.Flow.Store.{
  eq_plan_key, eq_operation_key, eq_evidence_key, FlowDb, Handle, Readings, plan_key, initialize,
  open_store, save_document, save_plan, acquire, claim,
}
use sanka.Flow.Store.Operations.{
  release_claim, release, abandon_plan, abandon, is_constructed, is_activation_pending,
}
use sanka.Flow.Store.Changes.{
  Change, unchanged, opened, planned, claimed, released, abandoned, commit, guarded-Change,
}

module _ (h : Handle) (db : FlowDb) where
  acquire-Change :
      (digest attempt_id : String) (clock : Readings) (c : Claim) (after : FlowDb)
      → acquire h digest attempt_id clock db ≡ return (c, after)
      → Change h db after
  unfolding acquire
  acquire-Change digest attempt_id clock c after e =
      elim (Option-cases (get (plan_key h digest) db.plans)) [
        | inl none_there ↦ unchanged (ground (arith, e, none_there))
        | inr (p, plan_there) ↦ elim (Option-cases (get h.id db.installations)) [
          | inl no_row ↦ unchanged (ground (arith, e, plan_there, no_row))
          | inr (r, row_there) ↦
              claimed digest attempt_id clock p r plan_there
                (ground (arith, e, plan_there, row_there)) row_there
                (ground (arith, e, plan_there, row_there))
                (ground (arith, e, plan_there, row_there))
        ]
      ]

  pub claim-Change :
      (digest attempt_id : String) (clock : Readings)
      → Change h db (claim h digest attempt_id clock db).1
  unfolding claim
  claim-Change digest attempt_id clock =
      commit h db (acquire h digest attempt_id clock) (acquire-Change digest attempt_id clock)

  initialize-Change :
      (u : Unit {0}) (after : FlowDb) → initialize h db ≡ return (u, after) → Change h db after
  unfolding initialize has
  initialize-Change u after e = elim (Option-cases (get h.id db.installations)) [
    | inl no_row ↦
        opened
          (record {
            target = h.target;
            revision = 0;
            resources = [];
            active_plan = none;
            attempt = none;
            generation = 0;
            lease_until = 0;
          })
          no_row refl refl (ground (arith, e, no_row))
    | inr (r, row_there) ↦ unchanged (ground (arith, e, row_there))
  ]

  pub open_store-Change : Change h db (open_store h db).1
  unfolding open_store
  open_store-Change = commit h db (initialize h) initialize-Change

  save_document-Change :
      (digests : Digests) (plan : FlowPlan) (u : Unit {0}) (after : FlowDb)
      → save_document h digests plan db ≡ return (u, after)
      → Change h db after
  unfolding save_document has
  save_document-Change digests plan u after e =
      let key = plan_key h (digests.plan plan) in
      elim (Option-cases (get key db.plans)) [
        | inl new ↦
            planned (digests.plan plan)
              (record { document = plan; construction = none; abandoned = false }) new refl refl
              (ground (arith, e, new))
        | inr (p, there) ↦ unchanged (ground (arith, e, there))
      ]

  pub save_plan-Change :
      (digests : Digests) (plan : FlowPlan) → Change h db (save_plan h digests plan db).1
  unfolding save_plan
  save_plan-Change digests plan =
      commit h db (save_document h digests plan) (save_document-Change digests plan)

  release_claim-Change :
      (c : Claim) (now : ℕ) (u : Unit {0}) (after : FlowDb)
      → release_claim h c now db ≡ return (u, after)
      → Change h db after
  unfolding release_claim
  release_claim-Change c now u after = guarded-Change h db c now _ u after λ held e.
      elim (Option-cases (get (plan_key h c.plan_digest) db.plans)) [
        | inl no_plan ↦ unchanged (ground (arith, e, no_plan))
        | inr (p, plan_there) ↦ elim (Option-cases (get h.id db.installations)) [
          | inl no_row ↦ unchanged (ground (arith, e, plan_there, no_row))
          | inr (r, row_there) ↦
              elim (Bool-cases
                (is_constructed p && not (is_activation_pending h c.plan_digest db))) [
                  | inl settled ↦
                      released c r none held row_there (inl refl)
                        (ground (arith, e, plan_there, row_there, settled))
                  | inr selected ↦
                      released c r (some c.plan_digest) held row_there (inr refl)
                        (ground (arith, e, plan_there, row_there, selected))
                ]
        ]
      ]

  abandon_plan-Change :
      (c : Claim) (now : ℕ) (u : Unit {0}) (after : FlowDb)
      → abandon_plan h c now db ≡ return (u, after)
      → Change h db after
  unfolding abandon_plan
  abandon_plan-Change c now u after = guarded-Change h db c now _ u after λ held e.
      elim (Option-cases (get (plan_key h c.plan_digest) db.plans)) [
        | inl no_plan ↦ unchanged (ground (arith, e, no_plan))
        | inr (p, plan_there) ↦ elim (Option-cases (get h.id db.installations)) [
          | inl no_row ↦ unchanged (ground (arith, e, plan_there, no_row))
          | inr (r, row_there) ↦
              abandoned c p r held plan_there (ground (arith, e, plan_there))
                (ground (arith, e, plan_there)) (ground (arith, e, plan_there)) row_there
                (ground (arith, e, plan_there, row_there))
        ]
      ]

  pub release-Change : (c : Claim) (now : ℕ) → Change h db (release h c now db).1
  unfolding release
  release-Change c now = commit h db (release_claim h c now) (release_claim-Change c now)

  pub abandon-Change : (c : Claim) (now : ℕ) → Change h db (abandon h c now db).1
  unfolding abandon
  abandon-Change c now = commit h db (abandon_plan h c now) (abandon_plan-Change c now)
