-- ===== src/Flow/Lifecycle/Construct.antt =====
-- `FlowLifecycle.construct` and `discard` (runtime/flow/lifecycle.py).
pub mod Resume
use sanka.Prelude.{
  String, Bool, true, false, not, Option, none, some, List, [], ◌∷◌, ◌++◌, map, if◌then◌else◌, ◌==◌,
  eq_string, eq_option,
}
use sanka.Prelude.Dict.{Dict, get, set, pop, update}
use sanka.Fault.{
  Fault, flow_error, key_error, assertion_error, Result, return, raise, require, ◌>>=◌ as ◌>>=ʳ◌,
}
use sanka.Effect.{Eff, pure, throw, lift, ◌>>=◌, ◌>>◌}
use sanka.Flow.Json.{Document}
use sanka.Flow.Model.{
  OwnedResource, Installation, Observation, ObservedResource, Operation, Action, eq_action,
  FlowPlan, Claim, OperationReceipt, Construction, Digests,
}
use sanka.Flow.Advance.{same, advance, by_target_id, document_of, mismatch}
use sanka.Flow.Lifecycle.{
  FlowHost, Blueprints, RecoveryStatus, absent, found, unknown, Recovery, check_plan, call,
  call_with, renew, with_claim, require_same,
}

-- The target ids of the logical ids.
abbrev pub Bindings : Type 0
Bindings = Dict String String

-- `bindings[logical_id] = …` or `bindings.pop(logical_id, None)` after an operation.
unfoldable pub rebind : Operation → OperationReceipt → Bindings → Bindings
rebind op receipt bindings = elim receipt.resource [
  | none ↦ pop op.logical_id bindings
  | some resource ↦ set op.logical_id resource.target_id bindings
]

unfoldable pub found_in : {V : Type 0} → String → Dict String V → Result V
found_in k d = elim (get k d) [ none ↦ raise (key_error k) | some v ↦ return v ]

-- The resource that an operation leaves with the installation.
unfoldable pub owned_resource :
    Bindings → Dict String ObservedResource → Operation → Result OwnedResource
unfolding found_in document_of
owned_resource bindings current op = found_in op.logical_id bindings >>=ʳ λ target_id.
    found_in target_id current >>=ʳ λ result. document_of op.desired >>=ʳ λ desired.
    return (record {
      logical_id = op.logical_id;
      target_id = target_id;
      kind = op.kind;
      revision = result.revision;
      desired = desired;
      depends_on = op.depends_on;
    })

unfoldable pub owned_resources :
    Bindings → Dict String ObservedResource → List Operation → Result (List OwnedResource)
unfolding owned_resource
owned_resources bindings current [] = return []
owned_resources bindings current (op ∷ ops) =
    let rest = owned_resources bindings current ops in
    if op.action == Action.remove
    then rest
    else (owned_resource bindings current op >>=ʳ λ resource.
        rest >>=ʳ λ resources. return (resource ∷ resources))

abbrev pub outcome_unknown : String → Fault
outcome_unknown message = flow_error message "FLOW_OUTCOME_UNKNOWN"

module _ {W : Type 0} (host : FlowHost W) (digests : Digests) where
  -- The result of an operation that the target found, or that is made now.
  unfoldable pub settle :
      Operation → Observation → Bindings → Recovery → Eff (W × Claim) OperationReceipt
  settle op expected bindings recovery = elim recovery.status [
    | unknown ↦ throw (outcome_unknown "Read back the uncertain operation before retry")
    | found ↦ elim recovery.receipt [
      | none ↦ throw (mismatch "Recovery did not identify its result")
      | some receipt ↦ pure receipt
    ]
    | absent ↦ elim recovery.receipt [
      | some receipt ↦ throw (mismatch "Target returned invalid recovery state")
      | none ↦
          call (require_same host digests expected)
          >> (call_with host.assert_claim >> call_with (host.construct op expected bindings))
    ]
  ]

  -- The branch for an operation without a stored receipt.
  unfoldable pub make : Operation → Observation → Bindings → Eff (W × Claim) OperationReceipt
  unfolding settle
  make op expected bindings = call_with (host.recover op) >>= λ recovery.
      settle op expected bindings recovery >>= λ receipt.
      lift (advance digests expected op receipt) >>= λ checked.
      call_with (λ c. host.complete_operation c receipt) >>= λ done. pure receipt

  unfoldable pub receipt_of :
      Operation
      → Observation
      → Bindings
      → Option OperationReceipt
      → Eff (W × Claim) OperationReceipt
  unfolding make
  receipt_of op expected bindings none = make op expected bindings
  receipt_of op expected bindings (some receipt) = pure receipt

  -- The round of an operation after `begin_operation`.
  unfoldable pub after_begin :
      Operation
      → Observation
      → Bindings
      → Option OperationReceipt
      → Eff (W × Claim) (Observation × Bindings)
  unfolding receipt_of rebind
  after_begin op expected bindings stored = receipt_of op expected bindings stored >>= λ receipt.
      lift (advance digests expected op receipt) >>= λ after.
      pure (after, rebind op receipt bindings)

  -- The round of one operation that is not preserved.
  unfoldable pub construct_operation :
      String
      → String
      → Operation
      → Observation
      → Bindings
      → Eff (W × Claim) (Observation × Bindings)
  unfolding after_begin
  construct_operation digest attempt_id op expected bindings = renew host digest attempt_id >>= λ u.
      call_with (λ c. host.begin_operation c op) >>= after_begin op expected bindings

  -- The loop over the operations of the plan.
  unfoldable pub construct_loop :
      String
      → String
      → List Operation
      → Observation
      → Bindings
      → Eff (W × Claim) (Observation × Bindings)
  unfolding construct_operation
  construct_loop digest attempt_id [] expected bindings = pure (expected, bindings)
  construct_loop digest attempt_id (op ∷ ops) expected bindings =
      elim (op.action == Action.preserve) [
        | true ↦ construct_loop digest attempt_id ops expected bindings
        | false ↦ construct_operation digest attempt_id op expected bindings >>= λ (after, rebound).
            construct_loop digest attempt_id ops after rebound
      ]

  unfoldable pub require_construction : Option Construction → Eff (W × Claim) Construction
  require_construction none = throw (assertion_error "")
  require_construction (some c) = pure c

  -- The construction of a plan that has none.
  unfoldable pub construct_new : FlowPlan → String → Eff (W × Claim) Construction
  unfolding construct_loop owned_resources require_construction
  construct_new plan attempt_id = call host.load >>= λ installation.
      construct_loop (digests.plan plan) attempt_id plan.operations plan.observed
        (update [] (map (λ r. (r.logical_id, r.target_id)) installation.resources))
      >>= λ (expected, bindings).
          call (require_same host digests expected)
          >> (lift (owned_resources bindings (by_target_id expected.resources) plan.operations)
              >>= λ resources.
                  call_with (λ c. host.finish_construction c resources expected) >>= λ installed.
                  call (host.construction (digests.plan plan)) >>= require_construction)

  unfoldable pub construct_or_return :
      FlowPlan → String → Option Construction → Eff (W × Claim) Construction
  unfolding construct_new
  construct_or_return plan attempt_id (some finished) =
      call (require_same host digests finished.observation) >>= λ u. pure finished
  construct_or_return plan attempt_id none = construct_new plan attempt_id

  -- The body of `construct`'s `try`.
  unfoldable pub construct_body : FlowPlan → String → Eff (W × Claim) Construction
  unfolding construct_or_return
  construct_body plan attempt_id =
      call (host.construction (digests.plan plan)) >>= construct_or_return plan attempt_id

  -- One round of the loop of `discard`.
  unfoldable pub require_absent : Recovery → Eff (W × Claim) (Unit {0})
  require_absent recovery = elim recovery.status [
    | unknown ↦ throw (outcome_unknown "An uncertain operation blocks discard")
    | found ↦ throw (flow_error "Native results must be recovered" "FLOW_PLAN_HAS_EFFECTS")
    | absent ↦ elim recovery.receipt [
      | none ↦ pure tt
      | some receipt ↦ throw (flow_error "Native results must be recovered" "FLOW_PLAN_HAS_EFFECTS")
    ]
  ]

  unfoldable pub discard_loop : String → String → List Operation → Eff (W × Claim) (Unit {0})
  unfolding require_absent
  discard_loop digest attempt_id [] = pure tt
  discard_loop digest attempt_id (op ∷ ops) = elim (op.action == Action.preserve) [
    | true ↦ discard_loop digest attempt_id ops
    | false ↦
        renew host digest attempt_id
        >> (call_with (host.recover op) >>= λ recovery.
            require_absent recovery >> discard_loop digest attempt_id ops)
  ]

  -- `await self.store.construction(…) or await self.store.receipts(…)`
  unfoldable pub require_no_effects : String → Eff (W × Claim) (Unit {0})
  require_no_effects digest =
      let effects = flow_error "Constructed work must be recovered" "FLOW_PLAN_HAS_EFFECTS" in
      call (host.construction digest) >>= λ constructed. elim constructed [
        | some c ↦ throw effects
        | none ↦ call (host.receipts digest) >>= λ receipts. elim receipts [
          | [] ↦ pure tt
          | r ∷ rest ↦ throw effects
        ]
      ]

  unfoldable pub discard_body : FlowPlan → String → Eff (W × Claim) (Unit {0})
  unfolding require_no_effects discard_loop
  discard_body plan attempt_id =
      let digest = digests.plan plan in
      require_no_effects digest
      >> (discard_loop digest attempt_id plan.operations >> call_with host.abandon)

  module _ (blueprints : Blueprints) (digest : Document → String) where
    -- `construct`
    unfoldable pub construct : FlowPlan → String → String → Eff W Construction
    unfolding check_plan with_claim construct_body
    construct plan approved_digest attempt_id =
        lift (check_plan blueprints digest digests host.target plan approved_digest)
        >> with_claim host (construct_body plan attempt_id) (digests.plan plan) attempt_id

    -- `discard`: the document that it returns names the plan and its installation.
    unfoldable pub discard : FlowPlan → String → Eff W (String × String)
    unfolding check_plan with_claim discard_body
    discard plan attempt_id =
        lift (check_plan blueprints digest digests host.target plan (digests.plan plan))
        >> (with_claim host (discard_body plan attempt_id) (digests.plan plan) attempt_id
            >> pure (digests.plan plan, plan.installation.id))
