-- ===== src/Tests/Flow.antt =====
-- Examples of the theorems on the installation ledger.
use sanka.Prelude.{
  ℕ, ◌≡◌, ◌≢◌, refl, true, false, none, some, List, [], ◌∷◌, ◌++◌, arith, eq_string, All, any,
}
use sanka.Prelude.Dict.{get, has, set}
use sanka.Prelude.Sort.{sort}
use sanka.Fault.{return}
use sanka.Flow.Json.{Document, text, array, object, nil, cons, end, member, members_eq}
use sanka.Flow.Model.{
  Installation, Observation, Operation, create, FlowPlan, Claim, OperationReceipt, Construction,
  Digests, to_dict,
}
use sanka.Flow.Store.{
  InstallationRow, PlanRow, FlowDb, Handle, Readings, plan_key, eq_plan_key, initialize, open_store,
  save_document, save_plan, acquire, claim, assert_claim, assert,
}
use sanka.Flow.Store.Operations.{
  begin, begin_operation, complete, complete_operation, finish, finish_construction, abandon_plan,
  abandon, is_planned, has_other_receipt, require_receipts, has_results, has_evidence,
}
use sanka.Flow.Store.Calls.{
  Call, opens, saves_plan, claims, begins, completes, finishes, releases, abandons, run, perform,
}
use sanka.Flow.Store.Permanent.{Extends, run-Extends}
use sanka.Flow.Store.Fence.{taken, ended_claim_fenced}
use sanka.Flow.Store.Clean.{Effectless}
use sanka.Flow.Store.Abandoned.{no_tables, abandoned-Effectless}
use sanka.Flow.Store.Constructed.{IsSettled, construction-IsSettled}

abbrev pub local : Handle
local = record { id = "local"; target = "crm"; lease_seconds = 10 }

abbrev pub empty : Document
empty = record { fields = end }

abbrev pub fresh : Installation
fresh = record { id = "local"; target = "crm"; revision = 0; resources = [] }

abbrev pub observed : Observation
observed = record {
  target = "crm";
  revision = "r0";
  resources = [];
  supported_kinds = "workflow" ∷ [];
  context = empty;
  blockers = [];
  supports_staging = false;
}

abbrev pub create_flow : Operation
create_flow = record {
  id = "op1";
  logical_id = "flow";
  kind = "workflow";
  action = create;
  target_id = none;
  expected = none;
  desired = some empty;
  configuration = some empty;
  depends_on = [];
  preserved_paths = [];
}

abbrev pub flow_blueprint : Document
flow_blueprint = record {
  fields =
      member "resources"
        (array
          (cons (object (member "id" (text "flow") (member "kind" (text "workflow") end))) nil))
        (member "schema_version" (text "sanka-flow-blueprint/v1") end);
}

abbrev pub flow_plan : FlowPlan
flow_plan = record {
  schema_version = "sanka-flow-plan/v1";
  verification_blueprint = none;
  verification_blueprint_digest = none;
  blueprint = flow_blueprint;
  blueprint_digest = "b";
  installation = fresh;
  observed = observed;
  operations = create_flow ∷ [];
  blockers = [];
}

abbrev pub fixed_digests : Digests
fixed_digests = record {
  plan = λ p. "plan";
  operation = λ o. "request";
  observation = λ o. o.revision;
  verification = λ v. "verification";
  intent = λ i. "intent";
  activation = λ a. "activation";
}

abbrev at_time : ℕ → Readings
at_time n = record { checked = n; compared = n; leased = n }

abbrev first_claim : Claim
first_claim = record { plan_digest = "plan"; attempt_id = "first"; generation = 1 }

abbrev planned_calls : List Call
planned_calls = opens ∷ saves_plan fixed_digests flow_plan ∷ []

abbrev flow_receipt : OperationReceipt
flow_receipt = record {
  operation_id = "op1";
  request_digest = "request";
  resource = none;
  target_revision = "r1";
}

abbrev claimed_calls : List (Handle × Call)
claimed_calls =
    (local, opens)
    ∷ (local, saves_plan fixed_digests flow_plan)
    ∷ (local, claims "plan" "first" (at_time 0))
    ∷ []

abbrev plan_row : PlanRow
plan_row = record { document = flow_plan; construction = none; abandoned = false }

abbrev held_row : InstallationRow
held_row = record {
  target = "crm";
  revision = 0;
  resources = [];
  active_plan = some "plan";
  attempt = some "first";
  generation = 1;
  lease_until = 10;
}

abbrev database : InstallationRow → PlanRow → FlowDb
database r p = record {
  installations = ("local", r) ∷ [];
  plans = (plan_key local "plan", p) ∷ [];
  operations = [];
  evidence = [];
}

claimed_database : run claimed_calls no_tables ≡ database held_row plan_row
unfolding run perform claim acquire get save_plan save_document open_store initialize has set
    to_dict sort members_eq
claimed_database = refl

-- The lease of the first attempt has run out when the second claims.
abbrev second_claim : Claim
second_claim = record { plan_digest = "plan"; attempt_id = "second"; generation = 2 }

abbrev taken_row : InstallationRow
taken_row = record held_row { attempt = some "second"; generation = 2; lease_until = 30 }

second_takes :
    claim local "plan" "second" (at_time 20) (database held_row plan_row)
    ≡ (return second_claim, database taken_row plan_row)
unfolding claim acquire get set to_dict sort members_eq
second_takes = refl

ended_claim_fenced_example :
    (assert_claim local first_claim 21
      (run ((local, claims "plan" "first" (at_time 40)) ∷ []) (database taken_row plan_row))).0
    ≢ return tt
ended_claim_fenced_example =
    ended_claim_fenced first_claim held_row (database held_row plan_row)
      (database taken_row plan_row) local (unfold get in refl) (omega arith)
      (taken local "plan" "second" (at_time 20) second_claim
        (ground (arith, eq_string.beq_iff "second" "first")) second_takes)
      ((local, claims "plan" "first" (at_time 40)) ∷ []) local 21 refl

run-Extends_example :
    Extends
      (database held_row plan_row)
      (run ((local, releases first_claim 5) ∷ (local, opens) ∷ []) (database held_row plan_row))
run-Extends_example =
    run-Extends ((local, releases first_claim 5) ∷ (local, opens) ∷ []) (database held_row plan_row)

abbrev discarded_calls : List (Handle × Call)
discarded_calls = claimed_calls ++ (local, abandons first_claim 5) ∷ []

discarded :
    get (plan_key local "plan") (run discarded_calls no_tables).plans
    ≡ some (record plan_row { abandoned = true })
unfolding run perform claim acquire get save_plan save_document open_store initialize has set
    to_dict sort members_eq abandon abandon_plan assert has_results has_evidence any
discarded = refl

abandoned-Effectless_example :
    Effectless
      (plan_key local "plan")
      (record plan_row { abandoned = true })
      (run discarded_calls no_tables)
abandoned-Effectless_example =
    abandoned-Effectless discarded_calls (plan_key local "plan")
      (record plan_row { abandoned = true }) discarded refl

abbrev constructed_calls : List (Handle × Call)
constructed_calls =
    claimed_calls
    ++ (local, begins fixed_digests first_claim create_flow 3)
      ∷ (local, completes first_claim flow_receipt 4)
      ∷ (local, finishes first_claim [] observed 5)
      ∷ []

abbrev built : Construction
built = record { installation = record fresh { revision = 1 }; observation = observed }

finished :
    get (plan_key local "plan") (run constructed_calls no_tables).plans
    ≡ some (record plan_row { construction = some built })
unfolding run perform claim acquire get save_plan save_document open_store initialize has set
    to_dict sort members_eq begin_operation begin complete_operation complete finish_construction
    finish assert is_planned has_other_receipt require_receipts
finished = refl

construction-IsSettled_example :
    All (IsSettled (plan_key local "plan") (run constructed_calls no_tables)) (create_flow ∷ [])
construction-IsSettled_example =
    construction-IsSettled constructed_calls (plan_key local "plan")
      (record plan_row { construction = some built }) built finished refl
