-- ===== src/Tests/FlowHost.antt =====
-- Examples of the theorems on the lifecycle of a flow and on the merge of its configurations. The world
-- of the target is the log of the activations or constructions that it was asked for.
use sanka.Prelude.{
  String, ◌≡◌, refl, Bool, true, false, ◌==◌, eq_string, none, some, List, [], ◌∷◌, All, all, map,
  contains, ap, if◌then◌else◌,
}
use sanka.Prelude.Dict.{get, has, set, update}
use sanka.Prelude.Sort.{sorted_set}
use sanka.Prelude.Text.{text_le}
use sanka.Fault.{return}
use sanka.Effect.{pure}
use sanka.Flow.Json.{text, member, end, Document, members_eq, member_get, json_eq, items}
use sanka.Flow.Model.{
  ObservedResource, Observation, Claim, OperationReceipt, verification, VerificationDocument,
  ActivationIntent,
}
use sanka.Flow.Advance.{by_target_id, validate_activation}
use sanka.Flow.Advance.Activation.{IsActivated, validate_activation-IsActivated}
use sanka.Flow.Lifecycle.{FlowHost, Blueprints, absent, require_same}
use sanka.Flow.Lifecycle.Activate.{activate}
use sanka.Flow.Lifecycle.Activate.Gate.{IsApprovedIntent, GateKeeps, activate-Approved}
use sanka.Flow.Lifecycle.Construct.{construct}
use sanka.Flow.Lifecycle.Construct.Resume.{ResumeKeeps, construct-Resumes}
use sanka.Flow.Merge.{merge_configuration}
use sanka.Flow.Merge.Fields.{Reconciles}
use sanka.Flow.Merge.Law.{whole, merge_configuration-Reconciles}
use sanka.Tests.Flow.{empty, fresh, observed, flow_plan, fixed_digests}

abbrev flow : String → Bool → ObservedResource
flow revision active = record {
  target_id = "t1";
  kind = "workflow";
  revision = revision;
  configuration = empty;
  active = active;
}

abbrev inactive : Observation
inactive = record observed { resources = flow "v1" false ∷ [] }

abbrev active_flow : Observation
active_flow = record observed { resources = flow "v2" true ∷ []; revision = "r1" }

accepted : validate_activation inactive active_flow ("t1" ∷ []) ≡ return tt
unfolding validate_activation members_eq all update set has get contains
accepted = refl

validate_activation-IsActivated_example :
    (active_flow
      ≡ record inactive { resources = active_flow.resources; revision = active_flow.revision })
    × ((id : String)
        → IsActivated
            ("t1" ∷ [])
            id
            (get id (by_target_id inactive.resources))
            (get id (by_target_id active_flow.resources)))
validate_activation-IsActivated_example =
    validate_activation-IsActivated inactive active_flow ("t1" ∷ []) accepted

abbrev passed : VerificationDocument
passed = record {
  plan_digest = "plan";
  installation = fresh;
  observation_digest = "r0";
  outcome = "passed";
  results = [];
}

abbrev Log : Type 0
Log = List (ActivationIntent × Observation)

abbrev held : Claim
held = record { plan_digest = "plan"; attempt_id = "a"; generation = 1 }

abbrev receipt : OperationReceipt
receipt = record {
  operation_id = "op1";
  request_digest = "request";
  resource = some (flow "v1" false);
  target_revision = "r0";
}

-- A store with a construction, with receipts and with passed evidence.
abbrev stored : {W : Type 0} → FlowHost W
stored = record {
  load = pure fresh;
  claim = λ digest attempt_id. pure held;
  assert_claim = λ c. pure tt;
  begin_operation = λ c op. pure (some receipt);
  complete_operation = λ c r. pure tt;
  receipts = λ digest. pure (receipt ∷ []);
  construction = λ digest. pure (some (record { installation = fresh; observation = observed }));
  finish_construction = λ c resources o. pure fresh;
  save_evidence = λ c kind e. pure tt;
  evidence =
      λ digest kind. pure (if kind == "verification" then some (verification passed) else none);
  abandon = λ c. pure tt;
  release = λ c. pure tt;
  target = "crm";
  observe = λ ids. pure observed;
  recover = λ op c. pure (record { status = absent; receipt = none });
  construct = λ op o bindings c. pure receipt;
  recover_activation = λ intent c. pure (record { status = absent; observation = none });
  activate = λ intent expected c. pure observed;
}

-- A target that logs its activations.
abbrev logging : FlowHost Log
logging = record stored {
  activate = λ intent expected c log. (return observed, (intent, expected) ∷ log);
}

abbrev no_checks : Blueprints
no_checks = record {
  validate_effective_blueprint = λ a b ops. return tt;
  required_native_scenarios = λ d. return tt;
  validate_native_verification = λ p v. return tt;
}

abbrev AllApproved : Log → Type 0
AllApproved = All (λ x. IsApprovedIntent fixed_digests flow_plan "verification" x.0 x.1)

gate : GateKeeps logging fixed_digests flow_plan "verification" AllApproved
gate = record {
  claim = λ d a w p. p;
  release = λ c w p. p;
  construction = λ d w p. p;
  evidence = λ d k w p. p;
  save_evidence = λ c k e w p. p;
  observe = λ ids w p. p;
  recover_activation = λ i c w p. p;
  assert_claim = λ c w p. p;
  activate = λ i o c ok w p. (ok, p);
}

-- One activation is asked for.
activated :
    map
      (λ x. x.0.verification_digest)
      (activate logging fixed_digests no_checks (λ d. "digest") flow_plan "verification" "a" []).1
    ≡ "verification" ∷ []
unfolding activate member_get json_eq items require_same validate_activation all update
activated = refl

activate-Approved_example :
    AllApproved
      (activate logging fixed_digests no_checks (λ d. "digest") flow_plan "verification" "a" []).1
activate-Approved_example =
    activate-Approved logging fixed_digests flow_plan "verification" AllApproved gate no_checks
      (λ d. "digest") "a" [] tt

-- A store that has receipts and no construction, and a target that logs what it is asked for.
abbrev resuming : FlowHost (List String)
resuming = record stored {
  construction = λ digest. pure none;
  recover = λ op c log. (return (record { status = absent; receipt = none }), "recover" ∷ log);
  construct = λ op o bindings c log. (return receipt, "construct" ∷ log);
}

resumes : ResumeKeeps resuming (λ log. log ≡ [])
resumes = record {
  claim = λ d a w p. p;
  release = λ c w p. p;
  construction = λ d w p. p;
  load = λ w p. p;
  begin_operation = λ c op w p. p;
  has_receipt = λ c op w p e. absurd (cc);
  finish_construction = λ c r o w p. p;
  observe = λ ids w p. p;
}

-- Without the receipt the target is asked.
constructed :
    (construct
      (record resuming { begin_operation = λ c op. pure none })
      fixed_digests
      no_checks
      (λ d. "digest")
      flow_plan
      "plan"
      "a"
      []).1
    ≡ "construct" ∷ "recover" ∷ []
unfolding construct member_get json_eq require_same sanka.Flow.Advance.advance has get update set
    sanka.Prelude.Sort.sort sanka.Prelude.Sort.insert_sorted
constructed = refl

construct-Resumes_example :
    (construct resuming fixed_digests no_checks (λ d. "digest") flow_plan "plan" "a" []).1 ≡ []
construct-Resumes_example =
    construct-Resumes resuming fixed_digests (λ log. log ≡ []) resumes flow_plan "a" no_checks
      (λ d. "digest") "plan" [] refl

abbrev settings : String → String → Document
settings name stage = record {
  fields = member "name" (text name) (member "stage" (text stage) end);
}

merged_settings :
    merge_configuration (settings "Flow" "open") (settings "My flow" "open") (settings "Flow" "won")
    ≡ record { value = settings "My flow" "won"; conflicts = []; preserved = ("name" ∷ []) ∷ [] }
unfolding merge_configuration sorted_set text_le member_get json_eq
merged_settings = refl

merge_configuration-Reconciles_example :
    Reconciles
      (whole (settings "Flow" "open"))
      (whole (settings "My flow" "open"))
      (whole (settings "Flow" "won"))
      (whole
        (merge_configuration
          (settings "Flow" "open")
          (settings "My flow" "open")
          (settings "Flow" "won")).value)
merge_configuration-Reconciles_example =
    merge_configuration-Reconciles (settings "Flow" "open") (settings "My flow" "open")
      (settings "Flow" "won") (ap (λ m. m.conflicts) merged_settings)
