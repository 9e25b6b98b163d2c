-- ===== src/Flow/Model.antt =====
-- Observations, installations, plans and receipts of runtime/flow/model.py and runtime/flow/host.py.
-- A dict that the code reads by its keys is the record of its fields.
use sanka.Prelude.{
  ℕ, String, ◌≡◌, refl, true, false, Bool, Option, List, Eq, ◌==◌, ◌↔◌, eq_string, eq_nat,
  eq_option, eq_pair, eq_list, eq_by, arith,
}
use sanka.Prelude.Text.{text_le}
use sanka.Prelude.Sort.{sort}
use sanka.Flow.Json.{Document, bool_eq, eq_json, eq_members}

pub bool_eq_iff : (a b : Bool) → (bool_eq a b ≡ true) ↔ (a ≡ b)
bool_eq_iff true b = ground arith
bool_eq_iff false true = ground arith
bool_eq_iff false false = ground arith

instance abbrev pub eq_bool : Eq Bool
eq_bool = record { beq = bool_eq; beq_iff = bool_eq_iff }

instance abbrev pub eq_document : Eq Document
eq_document = eq_by (λ d. d.fields) (λ m. record { fields = m }) (λ d. refl)

-- `ObservedResource`
pub record ObservedResource : Type 0 where
  pub target_id : String
  pub kind : String
  pub revision : String
  pub configuration : Document
  pub active : Bool

instance abbrev pub eq_observed_resource : Eq ObservedResource
eq_observed_resource =
    eq_by (λ r. (r.target_id, (r.kind, (r.revision, (r.configuration, r.active)))))
      (λ (t, (k, (v, (c, a)))). record {
        target_id = t;
        kind = k;
        revision = v;
        configuration = c;
        active = a;
      })
      (λ r. refl)

-- `OwnedResource`
pub record OwnedResource : Type 0 where
  pub logical_id : String
  pub target_id : String
  pub kind : String
  pub revision : String
  pub desired : Document
  pub depends_on : List String

instance abbrev pub eq_owned_resource : Eq OwnedResource
eq_owned_resource =
    eq_by (λ r. (r.logical_id, (r.target_id, (r.kind, (r.revision, (r.desired, r.depends_on))))))
      (λ (l, (t, (k, (v, (d, s))))). record {
        logical_id = l;
        target_id = t;
        kind = k;
        revision = v;
        desired = d;
        depends_on = s;
      })
      (λ r. refl)

-- `Installation`
pub record Installation : Type 0 where
  pub id : String
  pub target : String
  pub revision : ℕ
  pub resources : List OwnedResource

instance abbrev pub eq_installation : Eq Installation
eq_installation =
    eq_by (λ i. (i.id, (i.target, (i.revision, i.resources))))
      (λ (i, (t, (v, r))). record { id = i; target = t; revision = v; resources = r }) (λ i. refl)

-- `Installation.to_dict`: the resources in the order of their logical ids.
unfoldable pub to_dict : Installation → Installation
to_dict i = record i { resources = sort (λ a b. text_le a.logical_id b.logical_id) i.resources }

-- `TargetSnapshot`, and its dict: an observation of the target.
pub record Observation : Type 0 where
  pub target : String
  pub revision : String
  pub resources : List ObservedResource
  pub supported_kinds : List String
  pub context : Document
  pub blockers : List Document
  pub supports_staging : Bool

instance abbrev pub eq_observation : Eq Observation
eq_observation =
    eq_by
      (λ o. (
        o.target,
        (
          o.revision,
          (o.resources, (o.supported_kinds, (o.context, (o.blockers, o.supports_staging)))),
        ),
      ))
      (λ (t, (v, (r, (k, (c, (b, s)))))). record {
        target = t;
        revision = v;
        resources = r;
        supported_kinds = k;
        context = c;
        blockers = b;
        supports_staging = s;
      })
      (λ o. refl)

-- `TargetSnapshot.to_dict` on a snapshot.
unfoldable pub snapshot_dict : Observation → Observation
snapshot_dict o = record o {
  resources = sort (λ a b. text_le a.target_id b.target_id) o.resources;
  supported_kinds = sort text_le o.supported_kinds;
}

pub data Action : Type 0 where
  create update preserve remove : Action

abbrev pub action_eq : Action → Action → Bool
action_eq create create = true
action_eq update update = true
action_eq preserve preserve = true
action_eq remove remove = true
action_eq _ _ = false

pub action_eq_iff : (a b : Action) → (action_eq a b ≡ true) ↔ (a ≡ b)
action_eq_iff create b = ground arith
action_eq_iff update b = ground arith
action_eq_iff preserve b = ground arith
action_eq_iff remove b = ground arith

instance abbrev pub eq_action : Eq Action
eq_action = record { beq = action_eq; beq_iff = action_eq_iff }

-- An operation of a plan, as `plan_reconstruction` builds it.
pub record Operation : Type 0 where
  pub id : String
  pub logical_id : String
  pub kind : String
  pub action : Action
  pub target_id : Option String
  pub expected : Option ObservedResource
  pub desired : Option Document
  pub configuration : Option Document
  pub depends_on : List String
  pub preserved_paths : List (List String)

instance abbrev pub eq_operation : Eq Operation
eq_operation =
    eq_by
      (λ o. (
        o.id,
        (
          o.logical_id,
          (
            o.kind,
            (
              o.action,
              (
                o.target_id,
                (o.expected, (o.desired, (o.configuration, (o.depends_on, o.preserved_paths)))),
              ),
            ),
          ),
        ),
      ))
      (λ (i, (l, (k, (a, (t, (e, (d, (c, (s, p))))))))). record {
        id = i;
        logical_id = l;
        kind = k;
        action = a;
        target_id = t;
        expected = e;
        desired = d;
        configuration = c;
        depends_on = s;
        preserved_paths = p;
      })
      (λ o. refl)

-- `FlowPlan`: the fields of its document.
pub record FlowPlan : Type 0 where
  pub schema_version : String
  pub verification_blueprint : Option Document
  pub verification_blueprint_digest : Option String
  pub blueprint : Document
  pub blueprint_digest : String
  pub installation : Installation
  pub observed : Observation
  pub operations : List Operation
  pub blockers : List Document

instance abbrev pub eq_plan : Eq FlowPlan
eq_plan =
    eq_by
      (λ p. (
        p.schema_version,
        (
          p.verification_blueprint,
          (
            p.verification_blueprint_digest,
            (
              p.blueprint,
              (p.blueprint_digest, (p.installation, (p.observed, (p.operations, p.blockers)))),
            ),
          ),
        ),
      ))
      (λ (v, (b, (h, (d, (g, (i, (o, (s, k)))))))). record {
        schema_version = v;
        verification_blueprint = b;
        verification_blueprint_digest = h;
        blueprint = d;
        blueprint_digest = g;
        installation = i;
        observed = o;
        operations = s;
        blockers = k;
      })
      (λ p. refl)

-- `Claim`
pub record Claim : Type 0 where
  pub plan_digest : String
  pub attempt_id : String
  pub generation : ℕ

-- `OperationReceipt`
pub record OperationReceipt : Type 0 where
  pub operation_id : String
  pub request_digest : String
  pub resource : Option ObservedResource
  pub target_revision : String

instance abbrev pub eq_receipt : Eq OperationReceipt
eq_receipt =
    eq_by (λ r. (r.operation_id, (r.request_digest, (r.resource, r.target_revision))))
      (λ (o, (d, (s, v))). record {
        operation_id = o;
        request_digest = d;
        resource = s;
        target_revision = v;
      })
      (λ r. refl)

-- The document that `finish_construction` stores and `construction` returns.
pub record Construction : Type 0 where
  pub installation : Installation
  pub observation : Observation

-- The evidence of a verification, the intent of an activation, and its receipt.
pub record VerificationDocument : Type 0 where
  pub plan_digest : String
  pub installation : Installation
  pub observation_digest : String
  pub outcome : String
  pub results : List Document

pub record ActivationIntent : Type 0 where
  pub plan_digest : String
  pub verification_digest : String
  pub observation_digest : String
  pub installation : Installation
  pub workflow_target_ids : List String

pub record ActivationReceipt : Type 0 where
  pub intent_digest : String
  pub observation : Observation

instance abbrev pub eq_verification : Eq VerificationDocument
eq_verification =
    eq_by (λ v. (v.plan_digest, (v.installation, (v.observation_digest, (v.outcome, v.results)))))
      (λ (p, (i, (o, (c, r)))). record {
        plan_digest = p;
        installation = i;
        observation_digest = o;
        outcome = c;
        results = r;
      })
      (λ v. refl)

instance abbrev pub eq_intent : Eq ActivationIntent
eq_intent =
    eq_by
      (λ a. (
        a.plan_digest,
        (a.verification_digest, (a.observation_digest, (a.installation, a.workflow_target_ids))),
      ))
      (λ (p, (v, (o, (i, w)))). record {
        plan_digest = p;
        verification_digest = v;
        observation_digest = o;
        installation = i;
        workflow_target_ids = w;
      })
      (λ a. refl)

instance abbrev pub eq_activation : Eq ActivationReceipt
eq_activation =
    eq_by (λ a. (a.intent_digest, a.observation))
      (λ (i, o). record { intent_digest = i; observation = o }) (λ a. refl)

-- A row of `flow_evidence`.
pub data Evidence : Type 0 where
  verification : VerificationDocument → Evidence
  activation_intent : ActivationIntent → Evidence
  activation : ActivationReceipt → Evidence

unfoldable pub evidence_eq : Evidence → Evidence → Bool
evidence_eq (verification a) (verification b) = a == b
evidence_eq (activation_intent a) (activation_intent b) = a == b
evidence_eq (activation a) (activation b) = a == b
evidence_eq _ _ = false

pub evidence_eq_iff : (a b : Evidence) → (evidence_eq a b ≡ true) ↔ (a ≡ b)
unfolding evidence_eq
evidence_eq_iff (verification a) (verification b) = ground (arith, eq_verification.beq_iff a b)
evidence_eq_iff (verification a) (activation_intent b) = ground arith
evidence_eq_iff (verification a) (activation b) = ground arith
evidence_eq_iff (activation_intent a) (verification b) = ground arith
evidence_eq_iff (activation_intent a) (activation_intent b) = ground (arith, eq_intent.beq_iff a b)
evidence_eq_iff (activation_intent a) (activation b) = ground arith
evidence_eq_iff (activation a) (verification b) = ground arith
evidence_eq_iff (activation a) (activation_intent b) = ground arith
evidence_eq_iff (activation a) (activation b) = ground (arith, eq_activation.beq_iff a b)

instance abbrev pub eq_evidence : Eq Evidence
eq_evidence = record { beq = evidence_eq; beq_iff = evidence_eq_iff }

-- `Document.digest` of the documents that are compared by their digests.
pub record Digests : Type 0 where
  pub plan : FlowPlan → String
  pub operation : Operation → String
  pub observation : Observation → String
  pub verification : VerificationDocument → String
  pub intent : ActivationIntent → String
  pub activation : ActivationReceipt → String
