-- ===== src/Flow/Lifecycle/Activate.antt =====
-- `FlowLifecycle.activate` (runtime/flow/lifecycle.py).
pub mod Gate
use sanka.Prelude.{
  String, ◌≡◌, Bool, true, false, ◌&&◌, not, Option, none, some, List, [], ◌∷◌, map, filter,
  if◌then◌else◌, ◌==◌, eq_string, eq_option, contains,
}
use sanka.Prelude.Text.{text_le}
use sanka.Prelude.Sort.{sort}
use sanka.Fault.{
  Fault, flow_error, key_error, Result, return, raise, require, ◌>>=◌ as ◌>>=ʳ◌, ◌>>◌ as ◌>>ʳ◌,
}
use sanka.Effect.{Eff, pure, throw, lift, ◌>>=◌, ◌>>◌}
use sanka.Flow.Json.{Json, text, array, object, Document, document_get, member_get, items, eq_json}
use sanka.Flow.Model.{
  Installation, eq_installation, Observation, FlowPlan, Claim, Construction, Evidence, verification,
  activation_intent, activation, VerificationDocument, ActivationIntent, ActivationReceipt, Digests,
}
use sanka.Flow.Advance.{mismatch, validate_activation}
use sanka.Flow.Lifecycle.{
  FlowHost, Blueprints, absent, found, unknown, ActivationRecovery, blueprint_v4, check_plan,
  require_verification_profile, call, call_with, with_claim, require_same,
}
use sanka.Flow.Lifecycle.Construct.{outcome_unknown}

-- The ids of the blueprint's resources of the kind "workflow".
unfoldable pub workflow_ids : List Json → Result (List String)
workflow_ids [] = return []
workflow_ids (object m ∷ resources) =
    let rest = workflow_ids resources in
    elim (member_get "kind" m) [
      | none ↦ raise (key_error "kind")
      | some kind ↦
          if kind == text "workflow"
          then elim (member_get "id" m) [
            | none ↦ raise (key_error "id")
            | some id ↦ elim id [
              | text s ↦ rest >>=ʳ λ ids. return (s ∷ ids)
              | other ↦ raise (key_error "id")
            ]
          ]
          else rest
    ]
workflow_ids (other ∷ resources) = raise (key_error "kind")

unfoldable pub blueprint_resources : Document → Result (List Json)
blueprint_resources d = elim (document_get "resources" d) [
  | none ↦ raise (key_error "resources")
  | some value ↦ elim value [ array xs ↦ return (items xs) | other ↦ raise (key_error "resources") ]
]

-- `sorted(r["target_id"] for r in … if r["logical_id"] in workflows)`
unfoldable pub workflow_target_ids : FlowPlan → Installation → Result (List String)
unfolding workflow_ids blueprint_resources
workflow_target_ids plan installation = blueprint_resources plan.blueprint >>=ʳ λ resources.
    workflow_ids resources >>=ʳ λ workflows. return (
      sort text_le (
        map (λ r. r.target_id)
          (filter (λ r. contains r.logical_id workflows) installation.resources)))

abbrev pub not_verified : String → Fault
not_verified message = flow_error message "FLOW_NOT_VERIFIED"

-- The evidence is that of this construction, passed, and the approved one.
unfoldable pub is_approved :
    Digests → FlowPlan → String → Construction → VerificationDocument → Bool
is_approved digests plan approved constructed verified =
    digests.verification verified == approved
    && (verified.outcome == "passed"
        && (verified.plan_digest == digests.plan plan
            && (verified.observation_digest == digests.observation constructed.observation
                && verified.installation == constructed.installation)))

-- `Document.digest` of a piece of evidence, whatever its kind.
unfoldable pub evidence_digest : Digests → Evidence → String
evidence_digest digests (verification v) = digests.verification v
evidence_digest digests (activation_intent i) = digests.intent i
evidence_digest digests (activation a) = digests.activation a

-- The evidence of a kind as the document that its reader expects.
abbrev pub as_verification : Evidence → Result VerificationDocument
as_verification (verification v) = return v
as_verification _ = raise (key_error "outcome")

abbrev pub as_activation : Evidence → Result ActivationReceipt
as_activation (activation a) = return a
as_activation _ = raise (key_error "observation")

-- The reads before an activation: the construction, and the evidence that the approval names. The
-- digest is compared first, before a field of the evidence is read.
unfoldable pub approved_construction :
    Digests
    → FlowPlan
    → String
    → Option Construction
    → Option Evidence
    → Result (Construction × VerificationDocument)
unfolding is_approved evidence_digest
approved_construction digests plan approved none evidence =
    raise (not_verified "Activation requires completed verification")
approved_construction digests plan approved (some constructed) none =
    raise (not_verified "Activation requires completed verification")
approved_construction digests plan approved (some constructed) (some evidence) =
    require (evidence_digest digests evidence == approved)
      (not_verified "Approval must identify this exact verified revision")
    >>ʳ (as_verification evidence >>=ʳ λ verified.
        require (is_approved digests plan approved constructed verified)
          (not_verified "Approval must identify this exact verified revision")
        >>ʳ return (constructed, verified))

module _ {W : Type 0} (host : FlowHost W) (digests : Digests) where
  -- The observation of the activation that the target found, or that is made now.
  unfoldable pub settle_activation :
      ActivationIntent → Observation → ActivationRecovery → Eff (W × Claim) Observation
  settle_activation intent expected recovery = elim recovery.status [
    | unknown ↦ throw (outcome_unknown "Read back the uncertain activation before retry")
    | found ↦ elim recovery.observation [
      | none ↦ throw (mismatch "Activation recovery is missing readback")
      | some active ↦ pure active
    ]
    | absent ↦ elim recovery.observation [
      | some active ↦ throw (mismatch "Invalid activation recovery state")
      | none ↦
          call (require_same host digests expected)
          >> (call_with host.assert_claim >> call_with (host.activate intent expected))
    ]
  ]

  -- From the intent to the receipt of the activation.
  unfoldable pub activate_intent :
      ActivationIntent → Observation → Eff (W × Claim) ActivationReceipt
  unfolding settle_activation
  activate_intent intent expected =
      call_with (λ c. host.save_evidence c "activation_intent" (activation_intent intent))
      >> (call_with (host.recover_activation intent) >>= λ recovery.
          settle_activation intent expected recovery >>= λ active.
          lift (validate_activation expected active intent.workflow_target_ids)
          >> (call (require_same host digests active)
              >> (let receipt : ActivationReceipt = record {
                intent_digest = digests.intent intent;
                observation = active;
              } in
                  call_with (λ c. host.save_evidence c "activation" (activation receipt))
                  >> pure receipt)))

  -- The earlier receipt, or a new activation.
  unfoldable pub resume_activation :
      FlowPlan
      → Construction
      → VerificationDocument
      → Option Evidence
      → Eff (W × Claim) ActivationReceipt
  unfolding activate_intent workflow_target_ids
  resume_activation plan constructed verified (some stored) =
      lift (as_activation stored) >>= λ receipt.
      call (require_same host digests receipt.observation) >>= λ u. pure receipt
  resume_activation plan constructed verified none =
      lift (workflow_target_ids plan constructed.installation) >>= λ ids.
      activate_intent
        (record {
          plan_digest = digests.plan plan;
          verification_digest = digests.verification verified;
          observation_digest = digests.observation constructed.observation;
          installation = constructed.installation;
          workflow_target_ids = ids;
        })
        constructed.observation

  -- What follows the check of the evidence.
  unfoldable pub activate_verified :
      FlowPlan → Construction → VerificationDocument → Eff (W × Claim) ActivationReceipt
  unfolding resume_activation
  activate_verified plan constructed verified =
      call (host.evidence (digests.plan plan) "activation")
      >>= resume_activation plan constructed verified

  module _ (blueprints : Blueprints) (digest : Document → String) where
    -- The body of `activate`'s `try`.
    unfoldable pub activate_body : FlowPlan → String → Eff (W × Claim) ActivationReceipt
    unfolding approved_construction activate_verified
    activate_body plan approved = call (host.construction (digests.plan plan)) >>= λ constructed.
        call (host.evidence (digests.plan plan) "verification") >>= λ evidence.
        lift (approved_construction digests plan approved constructed evidence)
        >>= λ (built, verified).
            lift (
              if blueprint_v4 blueprints digest plan.blueprint
              then blueprints.validate_native_verification plan verified
              else return tt)
            >> activate_verified plan built verified

    -- `activate`
    unfoldable pub activate : FlowPlan → String → String → Eff W ActivationReceipt
    unfolding require_verification_profile check_plan with_claim activate_body
    activate plan approved attempt_id =
        lift (require_verification_profile blueprints digest plan)
        >> (lift (check_plan blueprints digest digests host.target plan (digests.plan plan))
            >> with_claim host (activate_body plan approved) (digests.plan plan) attempt_id)
