-- ===== src/Flow/Store/Fence.antt =====
-- A claim of an installation, and the end that other calls put to it (runtime/flow/sqlite.py).
use sanka.Prelude.{
  ℕ, ◌≤◌, String, ◌≡◌, ◌≢◌, true, ◌&&◌, not, Option, none, some, List, if◌then◌else◌, eq_string,
  eq_nat, eq_option, arith, inl, inr, subst, sym, opt_eq_iff, Option-cases,
}
use sanka.Prelude.Dict.{get, get-set_self}
use sanka.Fault.{Result, return, Result-cases}
use sanka.Flow.Model.{Claim}
use sanka.Flow.Store.{
  InstallationRow, FlowDb, Handle, Readings, put_row, acquire, claim, claimed_row, transaction,
  plan_key, eq_plan_key, holds, assert, assert_claim,
}
use sanka.Flow.Store.Operations.{
  release, abandon, release_claim, abandon_plan, is_constructed, is_activation_pending, put_plan,
}
use sanka.Flow.Store.Changes.{assert-Held}
use sanka.Flow.Store.Calls.{Call, run, run_keeps}
use sanka.Flow.Store.Past.{IsPast, Fenced, cleared, Change-Fenced}

-- The ends of a claim: another attempt's claim is granted, or the claim is released or abandoned.
pub data Ends (c : Claim) (before after : FlowDb) : Handle → Type 0 where
  taken :
      (h : Handle) (digest attempt_id : String) (clock : Readings) (c' : Claim)
      → attempt_id ≢ c.attempt_id
      → claim h digest attempt_id clock before ≡ (return c', after)
      → Ends c before after h
  let_go :
      (h : Handle) (now : ℕ) → release h c now before ≡ (return tt, after) → Ends c before after h
  given_up :
      (h : Handle) (now : ℕ) → abandon h c now before ≡ (return tt, after) → Ends c before after h

committed :
    {A : Type 0} (operation : FlowDb → Result (A × FlowDb)) (a : A) (before after : FlowDb)
    → transaction operation before ≡ (return a, after)
    → operation before ≡ return (a, after)
unfolding transaction
committed operation a before after e = elim (Result-cases (operation before)) [
  | inl ((b, db), there) ↦ ground (arith, e, there)
  | inr (fault, there) ↦ absurd (ground (arith, e, there))
]

module _ (c : Claim) (r : InstallationRow) (before after : FlowDb) where
  taken-Fenced :
      (h : Handle) (digest attempt_id : String) (clock : Readings) (c' : Claim)
      → get h.id before.installations ≡ some r
      → c.generation ≤ r.generation
      → attempt_id ≢ c.attempt_id
      → acquire h digest attempt_id clock before ≡ return (c', after)
      → Fenced h.id c after
  unfolding acquire
  taken-Fenced h digest attempt_id clock c' there issued other e =
      elim (Option-cases (get (plan_key h digest) before.plans)) [
        | inl no_plan ↦ absurd (ground (arith, e, no_plan))
        | inr (p, plan_there) ↦
            let w : after ≡ put_row h (claimed_row h digest attempt_id clock r) before =
              ground (arith, e, plan_there, there) in
            rw w (record {
              row = claimed_row h digest attempt_id clock r;
              there =
                  get-set_self h.id (claimed_row h digest attempt_id clock r) before.installations;
              past = inr (ground (arith, issued), λ same. other (ground (arith, same)));
            })
      ]

  cleared-Fenced :
      (h : Handle) (active : Option String) (db : FlowDb)
      → c.generation ≤ r.generation
      → Fenced h.id c (put_row h (cleared r active) db)
  cleared-Fenced h active db issued = record {
    row = cleared r active;
    there = get-set_self h.id (cleared r active) db.installations;
    past = inr (issued, λ e. absurd (cc));
  }

  let_go-Fenced :
      (h : Handle) (now : ℕ)
      → get h.id before.installations ≡ some r
      → c.generation ≤ r.generation
      → release_claim h c now before ≡ return (tt, after)
      → Fenced h.id c after
  unfolding release_claim
  let_go-Fenced h now there issued e = elim (Result-cases (assert h c now before)) [
    | inr (fault, refused) ↦ absurd (ground (arith, e, refused))
    | inl (u, passed) ↦ elim (Option-cases (get (plan_key h c.plan_digest) before.plans)) [
      | inl no_plan ↦ absurd (ground (arith, e, passed, no_plan))
      | inr (p, plan_there) ↦
          let settled = is_constructed p && not (is_activation_pending h c.plan_digest before) in
          let active : Option String = if settled then none else some c.plan_digest in
          let w : after ≡ put_row h (cleared r active) before =
            ground (arith, e, passed, plan_there, there) in
          rw w (cleared-Fenced h active before issued)
    ]
  ]

  given_up-Fenced :
      (h : Handle) (now : ℕ)
      → get h.id before.installations ≡ some r
      → c.generation ≤ r.generation
      → abandon_plan h c now before ≡ return (tt, after)
      → Fenced h.id c after
  unfolding abandon_plan
  given_up-Fenced h now there issued e = elim (Result-cases (assert h c now before)) [
    | inr (fault, refused) ↦ absurd (ground (arith, e, refused))
    | inl (u, passed) ↦ elim (Option-cases (get (plan_key h c.plan_digest) before.plans)) [
      | inl no_plan ↦ absurd (ground (arith, e, passed, no_plan))
      | inr (p, plan_there) ↦
          let retired = put_plan h c.plan_digest (record p { abandoned = true }) before in
          let w : after ≡ put_row h (cleared r none) retired =
            ground (arith, e, passed, plan_there, there) in
          rw w (cleared-Fenced h none retired issued)
    ]
  ]

  Ends-Fenced :
      (h : Handle)
      → get h.id before.installations ≡ some r
      → c.generation ≤ r.generation
      → Ends c before after h
      → Fenced h.id c after
  unfolding claim release abandon
  Ends-Fenced _ there issued (taken h digest attempt_id clock c' other e) =
      taken-Fenced h digest attempt_id clock c' there issued other
        (committed (acquire h digest attempt_id clock) c' before after e)
  Ends-Fenced _ there issued (let_go h now e) =
      let_go-Fenced h now there issued (committed (release_claim h c now) tt before after e)
  Ends-Fenced _ there issued (given_up h now e) =
      given_up-Fenced h now there issued (committed (abandon_plan h c now) tt before after e)

IsPast-refuses : (c : Claim) (now : ℕ) (r : InstallationRow) → holds c now r ≡ true → IsPast c r → ⊥
unfolding holds
IsPast-refuses c now r carried (inl later) = absurd (ground (arith, carried, later))
IsPast-refuses c now r carried (inr (issued, away)) =
    away (ground (arith, carried, opt_eq_iff r.attempt (some c.attempt_id)))

Fenced-refuses :
    (h : Handle) (c : Claim) (now : ℕ) (db : FlowDb)
    → Fenced h.id c db
    → assert h c now db ≢ return tt
Fenced-refuses h c now db f passed =
    let held = assert-Held h db c now passed in
    let same : held.row ≡ f.row = ground (arith, held.there, f.there) in
    IsPast-refuses c held.now held.row held.held (subst (IsPast c) (sym same) f.past)

-- Once another attempt's claim is granted on an installation, or a claim of it is released or
-- abandoned, that claim (whose generation is not above the row's) never passes `assert_claim` again,
-- at any time, through any handle of the installation and after any further calls.
pub ended_claim_fenced :
    (c : Claim) (r : InstallationRow) (before after : FlowDb) (h : Handle)
    → get h.id before.installations ≡ some r
    → c.generation ≤ r.generation
    → Ends c before after h
    → (calls : List (Handle × Call)) (h' : Handle) (now : ℕ) → h'.id ≡ h.id
    → (assert_claim h' c now (run calls after)).0 ≢ return tt
unfolding assert_claim transaction
ended_claim_fenced c r before after h there issued ends calls h' now same passed =
    let f : Fenced h.id c (run calls after) =
      run_keeps (Fenced h.id c) (Change-Fenced h.id c) calls after
        (Ends-Fenced c r before after h there issued ends) in
    elim (Result-cases (assert h' c now (run calls after))) [
      | inl (u, ok) ↦
          Fenced-refuses h' c now (run calls after)
            (subst (λ id. Fenced id c (run calls after)) (sym same) f) ok
      | inr (fault, refused) ↦ absurd (ground (arith, passed, refused))
    ]
