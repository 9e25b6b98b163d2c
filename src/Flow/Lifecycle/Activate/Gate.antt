-- ===== src/Flow/Lifecycle/Activate/Gate.antt =====
-- The target is asked only for approved activations (runtime/flow/lifecycle.py, `activate`).
use sanka.Prelude.{
  String, ◌≡◌, refl, Bool, true, ◌&&◌, Option, none, some, List, if◌then◌else◌, ◌==◌, eq_string,
  arith, inl, inr, Bool-cases,
}
use sanka.Fault.{return}
use sanka.Effect.{lift}
use sanka.Flow.Json.{Document}
use sanka.Flow.Model.{
  Observation, FlowPlan, Claim, Construction, Evidence, verification, activation_intent, activation,
  VerificationDocument, ActivationIntent, ActivationReceipt, Digests, eq_installation,
}
use sanka.Flow.Lifecycle.{
  FlowHost, Blueprints, RecoveryStatus, absent, found, unknown, ActivationRecovery, call, call_with,
  require_same, blueprint_v4, check_plan, require_verification_profile,
}
use sanka.Flow.Advance.{validate_activation}
use sanka.Flow.Lifecycle.Keeps.{
  Keeps, Beside, bind-Keeps, and_then-Keeps, call-Keeps, call_with-Keeps, with_claim-Keeps,
  require_same-Keeps,
}
use sanka.Flow.Lifecycle.Activate.{
  is_approved, evidence_digest, approved_construction, settle_activation, activate_intent,
  resume_activation, activate_verified, activate_body, activate, workflow_target_ids, as_activation,
}

-- The intent stands on passed evidence of this plan, which the approval names by its digest, and on
-- the observation that the evidence is about.
pub record IsApprovedIntent (digests : Digests) (plan : FlowPlan) (approved : String)
    (intent : ActivationIntent) (expected : Observation) : Type 0 where
  pub verified : VerificationDocument
  pub named : digests.verification verified ≡ approved
  pub passed : verified.outcome ≡ "passed"
  pub of_plan : verified.plan_digest ≡ digests.plan plan
  pub of_observation : verified.observation_digest ≡ digests.observation expected
  pub of_installation : verified.installation ≡ intent.installation
  pub intent_verification : intent.verification_digest ≡ approved
  pub intent_plan : intent.plan_digest ≡ digests.plan plan
  pub intent_observation : intent.observation_digest ≡ digests.observation expected

and_parts : (a b : Bool) → (a && b) ≡ true → (a ≡ true) × (b ≡ true)
and_parts a b h = ground (arith, h)

-- A property of the world that every call of `activate` keeps, where the target is asked for an
-- activation only with an approved intent.
pub record GateKeeps {W : Type 0} (host : FlowHost W) (digests : Digests) (plan : FlowPlan)
    (approved : String) (P : W → Type 0) : Type 0 where
  pub claim : (digest attempt_id : String) → Keeps P (host.claim digest attempt_id)
  pub release : (c : Claim) → Keeps P (host.release c)
  pub construction : (digest : String) → Keeps P (host.construction digest)
  pub evidence : (digest kind : String) → Keeps P (host.evidence digest kind)
  pub save_evidence :
      (c : Claim) (kind : String) (e : Evidence) → Keeps P (host.save_evidence c kind e)
  pub observe : (ids : List String) → Keeps P (host.observe ids)
  pub recover_activation :
      (intent : ActivationIntent) (c : Claim) → Keeps P (host.recover_activation intent c)
  pub assert_claim : (c : Claim) → Keeps P (host.assert_claim c)
  pub activate :
      (intent : ActivationIntent) (expected : Observation) (c : Claim)
      → IsApprovedIntent digests plan approved intent expected
      → Keeps P (host.activate intent expected c)

module _ {W : Type 0} (host : FlowHost W) (digests : Digests) (plan : FlowPlan) (approved : String)
    (P : W → Type 0) (g : GateKeeps host digests plan approved P) where
  settle-Keeps :
      (intent : ActivationIntent) (expected : Observation) (recovery : ActivationRecovery)
      → IsApprovedIntent digests plan approved intent expected
      → Keeps (Beside P) (settle_activation host digests intent expected recovery)
  unfolding settle_activation
  settle-Keeps intent expected recovery ok = by_status recovery.status recovery.observation
    where
      by_status :
          (status : RecoveryStatus) (o : Option Observation)
          → Keeps (Beside P) (
              settle_activation host digests intent expected
                (record { status = status; observation = o }))
      by_status unknown o = λ s p. p
      by_status found none = λ s p. p
      by_status found (some active) = λ s p. p
      by_status absent (some active) = λ s p. p
      by_status absent none =
          bind-Keeps (Beside P) (call (require_same host digests expected)) _
            (call-Keeps P (require_same host digests expected)
              (require_same-Keeps host P digests expected g.observe))
            (λ u.
              bind-Keeps (Beside P) (call_with host.assert_claim) _
                (call_with-Keeps P host.assert_claim g.assert_claim)
                (λ v.
                  call_with-Keeps P (host.activate intent expected)
                    (λ c. g.activate intent expected c ok)))

  -- The receipt of an activation.
  abbrev receipt_of : ActivationIntent → Observation → ActivationReceipt
  receipt_of intent active = record { intent_digest = digests.intent intent; observation = active }

  intent-Keeps :
      (intent : ActivationIntent) (expected : Observation)
      → IsApprovedIntent digests plan approved intent expected
      → Keeps (Beside P) (activate_intent host digests intent expected)
  unfolding activate_intent
  intent-Keeps intent expected ok =
      let save = λ (kind : String) (e : Evidence).
        call_with-Keeps P (λ c. host.save_evidence c kind e) (λ c. g.save_evidence c kind e) in
      bind-Keeps (Beside P)
        (call_with (λ c. host.save_evidence c "activation_intent" (activation_intent intent))) _
        (save "activation_intent" (activation_intent intent))
        λ u.
          bind-Keeps (Beside P) (call_with (host.recover_activation intent)) _
            (call_with-Keeps P (host.recover_activation intent) (g.recover_activation intent))
            λ recovery.
              bind-Keeps (Beside P) (settle_activation host digests intent expected recovery) _
                (settle-Keeps intent expected recovery ok)
                λ active.
                  bind-Keeps (Beside P)
                    (lift (validate_activation expected active intent.workflow_target_ids)) _
                    (λ s p. p)
                    λ v.
                      bind-Keeps (Beside P) (call (require_same host digests active)) _
                        (call-Keeps P (require_same host digests active)
                          (require_same-Keeps host P digests active g.observe))
                        λ x.
                          bind-Keeps (Beside P)
                            (call_with (λ c.
                              host.save_evidence c "activation"
                                (activation (receipt_of intent active))))
                            _ (save "activation" (activation (receipt_of intent active))) λ y s p. p

  -- The intent that stands on approved evidence.
  approved_intent :
      (built : Construction) (verified : VerificationDocument) (ids : List String)
      → is_approved digests plan approved built verified ≡ true
      → IsApprovedIntent digests plan approved
          (record {
            plan_digest = digests.plan plan;
            verification_digest = digests.verification verified;
            observation_digest = digests.observation built.observation;
            installation = built.installation;
            workflow_target_ids = ids;
          })
          built.observation
  unfolding is_approved
  approved_intent built verified ids ok =
      let (named, more) = and_parts (digests.verification verified == approved) _ ok in
      let (passed, more2) = and_parts (verified.outcome == "passed") _ more in
      let (of_plan, more3) = and_parts (verified.plan_digest == digests.plan plan) _ more2 in
      let (of_observation, of_installation) =
        and_parts (verified.observation_digest == digests.observation built.observation) _ more3 in
      let name = (eq_string.beq_iff (digests.verification verified) approved).0 named in
      record {
        verified = verified;
        named = name;
        passed = (eq_string.beq_iff verified.outcome "passed").0 passed;
        of_plan = (eq_string.beq_iff verified.plan_digest (digests.plan plan)).0 of_plan;
        of_observation =
            (eq_string.beq_iff verified.observation_digest
                (digests.observation built.observation)).0
              of_observation;
        of_installation =
            (eq_installation.beq_iff verified.installation built.installation).0 of_installation;
        intent_verification = name;
        intent_plan = refl;
        intent_observation = refl;
      }

  resume-Keeps :
      (built : Construction) (verified : VerificationDocument) (previous : Option Evidence)
      → is_approved digests plan approved built verified ≡ true
      → Keeps (Beside P) (resume_activation host digests plan built verified previous)
  unfolding resume_activation
  resume-Keeps built verified (some stored) ok =
      bind-Keeps (Beside P) (lift (as_activation stored)) _ (λ s p. p)
        λ receipt.
          bind-Keeps (Beside P) (call (require_same host digests receipt.observation)) _
            (call-Keeps P (require_same host digests receipt.observation)
              (require_same-Keeps host P digests receipt.observation g.observe))
            λ u s p. p
  resume-Keeps built verified none ok =
      bind-Keeps (Beside P) (lift (workflow_target_ids plan built.installation)) _ (λ s p. p)
        λ ids. intent-Keeps _ built.observation (approved_intent built verified ids ok)

  verified-Keeps :
      (built : Construction) (verified : VerificationDocument)
      → is_approved digests plan approved built verified ≡ true
      → Keeps (Beside P) (activate_verified host digests plan built verified)
  unfolding activate_verified
  verified-Keeps built verified ok =
      bind-Keeps (Beside P) (call (host.evidence (digests.plan plan) "activation")) _
        (call-Keeps P (host.evidence (digests.plan plan) "activation")
          (g.evidence (digests.plan plan) "activation"))
        λ previous. resume-Keeps built verified previous ok

  -- What the reads of the construction and the evidence must give.
  approved_construction-is_approved :
      (constructed : Option Construction) (evidence : Option Evidence) (built : Construction)
      (verified : VerificationDocument)
      → approved_construction digests plan approved constructed evidence ≡ return (built, verified)
      → is_approved digests plan approved built verified ≡ true
  unfolding approved_construction evidence_digest
  approved_construction-is_approved none evidence built verified e = absurd (cc)
  approved_construction-is_approved (some c) none built verified e = absurd (cc)
  approved_construction-is_approved (some c) (some (activation_intent i)) built verified e =
      elim (Bool-cases (digests.intent i == approved)) [
        | inl named ↦ absurd (ground (arith, e, named))
        | inr other ↦ absurd (ground (arith, e, other))
      ]
  approved_construction-is_approved (some c) (some (activation a)) built verified e =
      elim (Bool-cases (digests.activation a == approved)) [
        | inl named ↦ absurd (ground (arith, e, named))
        | inr other ↦ absurd (ground (arith, e, other))
      ]
  approved_construction-is_approved (some c) (some (verification v)) built verified e =
      elim (Bool-cases (digests.verification v == approved)) [
        | inr other ↦ absurd (ground (arith, e, other))
        | inl named ↦ elim (Bool-cases (is_approved digests plan approved c v)) [
          | inl ok ↦ ground (arith, e, named, ok)
          | inr refused ↦ absurd (ground (arith, e, named, refused))
        ]
      ]

  module _ (blueprints : Blueprints) (digest : Document → String) where
    body-Keeps : Keeps (Beside P) (activate_body host digests blueprints digest plan approved)
    unfolding activate_body
    body-Keeps =
        bind-Keeps (Beside P) (call (host.construction (digests.plan plan))) _
          (call-Keeps P (host.construction (digests.plan plan))
            (g.construction (digests.plan plan)))
          λ constructed.
            bind-Keeps (Beside P) (call (host.evidence (digests.plan plan) "verification")) _
              (call-Keeps P (host.evidence (digests.plan plan) "verification")
                (g.evidence (digests.plan plan) "verification"))
              λ evidence s p.
                and_then-Keeps (Beside P)
                  (approved_construction digests plan approved constructed evidence) _ s p
                  λ (built, verified) e.
                    bind-Keeps (Beside P)
                      (lift (
                        if blueprint_v4 blueprints digest plan.blueprint
                        then blueprints.validate_native_verification plan verified
                        else return tt))
                      _ (λ t q. q)
                      λ u.
                        verified-Keeps built verified
                          (approved_construction-is_approved constructed evidence built verified e)

    -- Of the target's activations, `activate` asks only for those of an approved intent: a property
    -- of the world that every other call keeps, and that the target keeps when it activates an intent
    -- on passed evidence of this plan, this installation and the observation given to it, named by the
    -- approval, holds after `activate` if it held before, whether it returns or raises.
    pub activate-Approved :
        (attempt_id : String)
        → Keeps P (activate host digests blueprints digest plan approved attempt_id)
    unfolding activate
    activate-Approved attempt_id =
        bind-Keeps P (lift (require_verification_profile blueprints digest plan)) _ (λ w p. p)
          λ u.
            bind-Keeps P
              (lift (check_plan blueprints digest digests host.target plan (digests.plan plan))) _
              (λ w p. p)
              λ v.
                with_claim-Keeps host P (digests.plan plan) attempt_id
                  (activate_body host digests blueprints digest plan approved)
                  (g.claim (digests.plan plan) attempt_id) g.release body-Keeps
