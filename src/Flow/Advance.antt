-- ===== src/Flow/Advance.antt =====
-- The checks of runtime/flow/lifecycle.py that compare observations: `_same`, `_advance` and
-- `_validate_activation`.
pub mod Activation
use sanka.Prelude.{
  String, ◌≡◌, Bool, true, false, ◌&&◌, ◌||◌, not, Option, none, some, List, [], ◌∷◌, map, all,
  if◌then◌else◌, ◌==◌, eq_string, eq_option, eq_list, contains, arith,
}
use sanka.Prelude.Dict.{Dict, get, set, pop, has, update}
use sanka.Prelude.Text.{text_le}
use sanka.Prelude.Sort.{sort}
use sanka.Fault.{Fault, flow_error, Result, return, raise, require, ◌>>=◌, ◌>>◌}
use sanka.Flow.Json.{Document}
use sanka.Flow.Model.{
  ObservedResource, eq_observed_resource, Observation, eq_observation, Operation, Action, eq_action,
  OperationReceipt, Digests, eq_document, eq_bool,
}

-- `_same`
unfoldable pub same : Digests → Observation → Observation → Result (Unit {0})
same digests expected actual =
    require (digests.observation expected == digests.observation actual)
      (flow_error "Target configuration or reference revision changed" "FLOW_TARGET_STALE")

abbrev pub mismatch : String → Fault
mismatch message = flow_error message "FLOW_RECEIPT_MISMATCH"

-- `{r["target_id"]: r for r in resources}`
abbrev pub by_target_id : List ObservedResource → Dict String ObservedResource
by_target_id resources = update [] (map (λ r. (r.target_id, r)) resources)

-- `sorted(resources.values(), key=lambda r: r["target_id"])`
abbrev pub sorted_resources : Dict String ObservedResource → List ObservedResource
sorted_resources d = sort (λ a b. text_le a.target_id b.target_id) (map (λ e. e.1) d)

-- `Document(value)` of an object or `None`.
unfoldable pub document_of : Option Document → Result Document
document_of none =
    raise (flow_error "A Flow document must be a JSON object" "FLOW_DOCUMENT_INVALID")
document_of (some d) = return d

-- `resource.kind != op["kind"] or resource.configuration != Document(op["configuration"])`, negated.
unfoldable pub reads_back : Operation → ObservedResource → Result Bool
unfolding document_of
reads_back op resource =
    if resource.kind == op.kind
    then (document_of op.configuration >>= λ d. return (resource.configuration == d))
    else return false

-- The resources after an operation that created or updated one.
unfoldable pub put_resource :
    Operation
    → Dict String ObservedResource
    → ObservedResource
    → Result (Dict String ObservedResource)
unfolding reads_back
put_resource op resources resource = do
  require (not (resource.target_id == "") && not (resource.revision == ""))
      (mismatch "Construction returned no resource identity")
  matches ← reads_back op resource
  require matches (mismatch "Readback differs from reviewed configuration")
  require (not (resource.kind == "workflow" && resource.active))
      (flow_error "Constructed workflow must remain inactive" "FLOW_CONSTRUCTION_ACTIVE")
  require (not (op.action == Action.update && not (some resource.target_id == op.target_id)))
      (mismatch "Update changed resource identity")
  require (not (op.action == Action.create && has resource.target_id resources))
      (flow_error "Create attempted to adopt an existing resource" "FLOW_OWNERSHIP_CONFLICT")
  return (set resource.target_id resource resources)

unfoldable pub pop_target :
    Option String → Dict String ObservedResource → Dict String ObservedResource
pop_target none resources = resources
pop_target (some id) resources = pop id resources

unfoldable pub changed_resources :
    Operation
    → OperationReceipt
    → Dict String ObservedResource
    → Result (Dict String ObservedResource)
unfolding pop_target put_resource
changed_resources op receipt resources =
    if op.action == Action.remove
    then elim receipt.resource [
      | some r ↦ raise (mismatch "Removal receipt still contains a resource")
      | none ↦ return (pop_target op.target_id resources)
    ]
    else elim receipt.resource [
      | none ↦ raise (mismatch "Construction returned no resource identity")
      | some resource ↦ put_resource op resources resource
    ]

-- `_advance`
unfoldable pub advance : Digests → Observation → Operation → OperationReceipt → Result Observation
unfolding changed_resources
advance digests expected op receipt = do
  require (receipt.operation_id == op.id && receipt.request_digest == digests.operation op)
      (mismatch "Target returned a receipt for different input")
  require (not (receipt.target_revision == ""))
      (mismatch "Target receipt has no resulting revision")
  resources ← changed_resources op receipt (by_target_id expected.resources)
  return (record expected {
    resources = sorted_resources resources;
    revision = receipt.target_revision;
  })

abbrev pub activation_mismatch : String → Fault
activation_mismatch message = flow_error message "FLOW_ACTIVATION_MISMATCH"

-- `old.keys() == new.keys()`
unfoldable pub same_keys : Dict String ObservedResource → Dict String ObservedResource → Bool
same_keys old new = all (λ e. has e.0 new) old && all (λ e. has e.0 old) new

-- The comparison of one resource before and after an activation.
unfoldable pub validate_resource :
    List String → String → ObservedResource → ObservedResource → Result (Unit {0})
validate_resource workflow_ids target_id left right =
    let unchanged =
      flow_error "Activation changed unverified configuration" "FLOW_ACTIVATION_MISMATCH" in
    if contains target_id workflow_ids
    then (require right.active (activation_mismatch "Workflow was not activated")
        >> (require (not (right.revision == ""))
              (activation_mismatch "Activated revision is missing")
            >> require (right == record left { active = right.active; revision = right.revision })
                unchanged))
    else require (right == left) unchanged

-- The loop of `_validate_activation` over the old resources.
unfoldable pub validate_resources :
    List String → Dict String ObservedResource → Dict String ObservedResource → Result (Unit {0})
unfolding validate_resource
validate_resources workflow_ids new [] = return tt
validate_resources workflow_ids new ((id, left) ∷ old) =
    let rest = validate_resources workflow_ids new old in
    elim (get id new) [
      | none ↦ raise (activation_mismatch "Activation changed target scope or references")
      | some right ↦ validate_resource workflow_ids id left right >> rest
    ]

-- `_validate_activation`
unfoldable pub validate_activation : Observation → Observation → List String → Result (Unit {0})
unfolding same_keys validate_resources
validate_activation expected active workflow_ids = do
  let old : Dict String ObservedResource = by_target_id expected.resources
  let new : Dict String ObservedResource = by_target_id active.resources
  require
      (active == record expected { resources = active.resources; revision = active.revision }
        && same_keys old new)
      (activation_mismatch "Activation changed target scope or references")
  validate_resources workflow_ids new old
