-- ===== src/Flow/Lifecycle.antt =====
-- `FlowLifecycle` (runtime/flow/lifecycle.py) over the calls of an installation store and of a target
-- (runtime/flow/state.py, runtime/flow/host.py): the interface, the checks of a plan, and the claim
-- that a method holds and releases.
pub mod Keeps
pub mod Construct
pub mod Activate
use sanka.Prelude.{
  String, Bool, true, false, ◌&&◌, ◌||◌, not, Option, none, some, List, [], ◌∷◌, map, any, all,
  if◌then◌else◌, ◌==◌, eq_string, eq_option, eq_list, contains,
}
use sanka.Fault.{
  Fault, flow_error, key_error, Result, return, raise, require, ◌>>=◌ as ◌>>=ʳ◌, ◌>>◌ as ◌>>ʳ◌,
}
use sanka.Effect.{Eff, pure, throw, lift, ◌>>=◌, ◌>>◌}
use sanka.Flow.Json.{
  Json, null, text, array, object, Document, document_get, member_get, items, eq_json,
}
use sanka.Flow.Model.{
  OwnedResource, Installation, Observation, ObservedResource, Operation, FlowPlan, Claim,
  OperationReceipt, snapshot_dict, Construction, Evidence, ActivationIntent, VerificationDocument,
  Digests, eq_document,
}
use sanka.Flow.Advance.{same}

pub data RecoveryStatus : Type 0 where
  absent found unknown : RecoveryStatus

-- `Recovery` and `ActivationRecovery`.
pub record Recovery : Type 0 where
  pub status : RecoveryStatus
  pub receipt : Option OperationReceipt

pub record ActivationRecovery : Type 0 where
  pub status : RecoveryStatus
  pub observation : Option Observation

-- `InstallationStore` and `FlowTarget`, without the calls that only `verify` makes.
pub record FlowHost (W : Type 0) : Type 1 where
  pub load : Eff W Installation
  pub claim : String → String → Eff W Claim
  pub assert_claim : Claim → Eff W (Unit {0})
  pub begin_operation : Claim → Operation → Eff W (Option OperationReceipt)
  pub complete_operation : Claim → OperationReceipt → Eff W (Unit {0})
  pub receipts : String → Eff W (List OperationReceipt)
  pub construction : String → Eff W (Option Construction)
  pub finish_construction : Claim → List OwnedResource → Observation → Eff W Installation
  pub save_evidence : Claim → String → Evidence → Eff W (Unit {0})
  pub evidence : String → String → Eff W (Option Evidence)
  pub abandon : Claim → Eff W (Unit {0})
  pub release : Claim → Eff W (Unit {0})
  pub target : String
  pub observe : List String → Eff W Observation
  pub recover : Operation → Claim → Eff W Recovery
  pub construct : Operation → Observation → List (String × String) → Claim → Eff W OperationReceipt
  pub recover_activation : ActivationIntent → Claim → Eff W ActivationRecovery
  pub activate : ActivationIntent → Observation → Claim → Eff W Observation

-- The checks that stand on the declarative format of a blueprint.
pub record Blueprints : Type 0 where
  pub validate_effective_blueprint : Document → Document → List Operation → Result (Unit {0})
  pub required_native_scenarios : Document → Result (Unit {0})
  pub validate_native_verification : FlowPlan → VerificationDocument → Result (Unit {0})

module _ (blueprints : Blueprints) (digest : Document → String) where
  abbrev invalid_plan : String → Fault
  invalid_plan message = flow_error message "FLOW_PLAN_INVALID"

  abbrev blueprint_v4 : Document → Bool
  blueprint_v4 d = document_get "schema_version" d == some (text "sanka-flow-blueprint/v4")

  -- `verification_blueprint` of runtime/flow/verification_plan.py.
  unfoldable pub verification_blueprint : FlowPlan → Result Document
  verification_blueprint plan =
      let v2 = plan.schema_version == "sanka-flow-plan/v2" in
      let missing =
        plan.verification_blueprint == none || plan.verification_blueprint_digest == none in
      if v2 && missing
      then raise (invalid_plan "Plan v2 requires its effective verification artifact")
      else elim plan.verification_blueprint [
        | some effective ↦
            require (v2 && plan.verification_blueprint_digest == some (digest effective))
              (invalid_plan "Effective verification artifact is not pinned")
            >>ʳ (blueprints.validate_effective_blueprint plan.blueprint effective plan.operations
                >>ʳ return effective)
        | none ↦
            if blueprint_v4 plan.blueprint
            then (blueprints.validate_effective_blueprint plan.blueprint plan.blueprint
                  plan.operations
                >>ʳ return plan.blueprint)
            else return plan.blueprint
      ]

  -- `_require_verification_profile`
  unfoldable pub require_verification_profile : FlowPlan → Result (Unit {0})
  unfolding verification_blueprint
  require_verification_profile plan = verification_blueprint plan >>=ʳ λ d.
      let version = document_get "schema_version" d in
      require
        (version == some (text "sanka-flow-blueprint/v1")
          || (version == some (text "sanka-flow-blueprint/v2")
              || version == some (text "sanka-flow-blueprint/v4")))
        (flow_error
          "This Flow profile has no native scenario verifier; verification and activation are unavailable"
          "FLOW_VERIFICATION_PROFILE_UNSUPPORTED")
      >>ʳ (if blueprint_v4 d then blueprints.required_native_scenarios d else return tt)

  -- `_check`
  unfoldable pub check_plan : Digests → String → FlowPlan → String → Result (Unit {0})
  unfolding verification_blueprint
  check_plan digests target plan approved_digest =
      require (digests.plan plan == approved_digest)
        (flow_error "Approval must identify the exact reviewed plan" "FLOW_APPROVAL_MISMATCH")
      >>ʳ (require (plan.blockers == [])
            (flow_error "Resolve every unsupported semantic or conflict first" "FLOW_PLAN_BLOCKED")
          >>ʳ (require (target == plan.installation.target)
                (flow_error "Host target differs from the reviewed plan" "FLOW_TARGET_MISMATCH")
              >>ʳ (verification_blueprint plan >>=ʳ λ d. return tt)))

-- The calls of a method while it holds a claim: the latest claim stands beside the world.
module _ {W : Type 0} where
  -- A call that keeps the claim.
  abbrev pub call : {A : Type 0} → Eff W A → Eff (W × Claim) A
  call m (w, c) = let (r, after) = m w in (r, (after, c))

  -- A call with the latest claim.
  abbrev pub call_with : {A : Type 0} → (Claim → Eff W A) → Eff (W × Claim) A
  call_with m (w, c) = call (m c) (w, c)

abbrev pub is_fenced : Fault → Bool
is_fenced (flow_error message code) = code == "FLOW_ATTEMPT_FENCED"
is_fenced _ = false

-- `except FlowError as error: if error.code != "FLOW_ATTEMPT_FENCED": raise`
abbrev pub pass_fenced : Result (Unit {0}) → Result (Unit {0})
pass_fenced (return u) = return u
pass_fenced (raise e) = if is_fenced e then return tt else raise e

-- The result of a `try` whose `finally` raises or does not.
abbrev pub after_finally {ℓ} : {A : Type ℓ} → Result A → Result (Unit {0}) → Result A
after_finally result (return u) = result
after_finally result (raise e) = raise e

module _ {W : Type 0} where
  abbrev pub granted : Result Claim × W → Claim → Result (Unit {0}) × (W × Claim)
  granted (return c', after) c = (return tt, (after, c'))
  granted (raise e, after) c = (raise e, (after, c))

module _ {W : Type 0} (host : FlowHost W) where
  -- `claim = await self.store.claim(…)`
  abbrev pub renew : String → String → Eff (W × Claim) (Unit {0})
  renew digest attempt_id (w, c) = granted (host.claim digest attempt_id w) c

  -- `_release`
  unfoldable pub release_quietly : Claim → Eff W (Unit {0})
  release_quietly c w = let (r, after) = host.release c w in (pass_fenced r, after)

  module _ {A : Type 0} (body : Eff (W × Claim) A) where
    -- `try: body finally: await _release(self.store, claim)`
    unfoldable pub run_claimed : Result Claim → Eff W A
    unfolding release_quietly
    run_claimed (raise e) w = (raise e, w)
    run_claimed (return c) w =
        let (result, (after, latest)) = body (w, c) in
        let (released, final) = release_quietly latest after in
        (after_finally result released, final)

    -- The same after `claim = await self.store.claim(plan.digest, attempt_id)`.
    unfoldable pub with_claim : String → String → Eff W A
    unfolding run_claimed
    with_claim digest attempt_id w =
        let (r, claimed) = host.claim digest attempt_id w in run_claimed r claimed

  -- `_same(expected, await _observe(self.target, expected))`
  unfoldable pub require_same : Digests → Observation → Eff W (Unit {0})
  unfolding same snapshot_dict
  require_same digests expected =
      host.observe (map (λ r. r.target_id) expected.resources) >>= λ actual.
      lift (same digests expected (snapshot_dict actual))
