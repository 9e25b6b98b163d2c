-- ===== src/Flow/Store.antt =====
-- The installation ledger `SqliteInstallationStore` (runtime/flow/sqlite.py): its four tables, and one
-- function for each method. A method runs in a transaction, which an exception rolls back. The JSON
-- text of a column is the record that it encodes, and a reading of the clock is an argument.
pub mod Operations
pub mod Changes
pub mod Calls
pub mod Permanent
pub mod Past
pub mod Fence
pub mod Clean
pub mod Abandoned
pub mod Constructed
use sanka.Prelude.{
  ℕ, ◌+◌, String, Bool, true, false, ◌&&◌, ◌||◌, not, Option, none, some, List, [], ◌∷◌, map, any,
  filter, if◌then◌else◌, ltb, leb, ◌==◌, eq_string, eq_nat, eq_option, eq_pair, contains, eq_list,
  Eq, eq_by, ◌≡◌, refl,
}
use sanka.Prelude.Dict.{Dict, get, set, has}
use sanka.Prelude.Text.{text_le}
use sanka.Prelude.Sort.{sort}
use sanka.Fault.{Fault, flow_error, value_error, Result, return, raise, require, ◌>>=◌, ◌>>◌}
use sanka.Flow.Model.{
  OwnedResource, Installation, to_dict, eq_installation, Observation, eq_observation, Operation,
  eq_operation, eq_document, Action, eq_action, FlowPlan, eq_plan, Claim, OperationReceipt,
  eq_receipt, Construction, Evidence, Digests,
}

-- A row of `flow_installations`.
pub record InstallationRow : Type 0 where
  pub target : String
  pub revision : ℕ
  pub resources : List OwnedResource
  pub active_plan : Option String
  pub attempt : Option String
  pub generation : ℕ
  pub lease_until : ℕ

-- A row of `flow_plans`.
pub record PlanRow : Type 0 where
  pub document : FlowPlan
  pub construction : Option Construction
  pub abandoned : Bool

-- A row of `flow_operations`.
pub record OperationRow : Type 0 where
  pub request : Operation
  pub request_digest : String
  pub receipt : Option OperationReceipt

-- The primary keys of the tables.
pub record PlanKey : Type 0 where
  pub installation_id : String
  pub digest : String

pub record OperationKey : Type 0 where
  pub installation_id : String
  pub plan_digest : String
  pub operation_id : String

pub record EvidenceKey : Type 0 where
  pub installation_id : String
  pub plan_digest : String
  pub kind : String

instance abbrev pub eq_plan_key : Eq PlanKey
eq_plan_key =
    eq_by (λ k. (k.installation_id, k.digest))
      (λ (i, d). record { installation_id = i; digest = d }) (λ k. refl)

instance abbrev pub eq_operation_key : Eq OperationKey
eq_operation_key =
    eq_by (λ k. (k.installation_id, (k.plan_digest, k.operation_id)))
      (λ (i, (d, o)). record { installation_id = i; plan_digest = d; operation_id = o }) (λ k. refl)

instance abbrev pub eq_evidence_key : Eq EvidenceKey
eq_evidence_key =
    eq_by (λ k. (k.installation_id, (k.plan_digest, k.kind)))
      (λ (i, (d, o)). record { installation_id = i; plan_digest = d; kind = o }) (λ k. refl)

pub record FlowDb : Type 0 where
  pub installations : Dict String InstallationRow
  pub plans : Dict PlanKey PlanRow
  pub operations : Dict OperationKey OperationRow
  pub evidence : Dict EvidenceKey Evidence

-- The fields of `SqliteInstallationStore` besides its connection and clock.
pub record Handle : Type 0 where
  pub id : String
  pub target : String
  pub lease_seconds : ℕ

abbrev pub error {ℓ} : {A : Type ℓ} → String → String → Result A
error code message = raise (flow_error message code)

-- `INSERT OR IGNORE`
abbrev pub insert_or_ignore {ℓ κ} :
    {K : Type ℓ} {V : Type κ} ⦃e : Eq K⦄ → K → V → Dict K V → Dict K V
insert_or_ignore k v d = if has k d then d else set k v d

abbrev pub plan_key : Handle → String → PlanKey
plan_key h digest = record { installation_id = h.id; digest = digest }

abbrev pub operation_key : Handle → String → String → OperationKey
operation_key h digest id = record {
  installation_id = h.id;
  plan_digest = digest;
  operation_id = id;
}

abbrev pub evidence_key : Handle → String → String → EvidenceKey
evidence_key h digest kind = record { installation_id = h.id; plan_digest = digest; kind = kind }

-- `_transaction`: the database is as before if the operation raises.
unfoldable pub transaction :
    {A : Type 0} → (FlowDb → Result (A × FlowDb)) → FlowDb → Result A × FlowDb
transaction operation db = elim (operation db) [
  | return (a, after) ↦ (return a, after)
  | raise e ↦ (raise e, db)
]

-- `_row`
unfoldable pub row : Handle → FlowDb → Result InstallationRow
row h db = elim (get h.id db.installations) [
  | none ↦ error "FLOW_TARGET_MISMATCH" "Installation identity changed"
  | some r ↦
      if r.target == h.target
      then return r
      else error "FLOW_TARGET_MISMATCH" "Installation identity changed"
]

abbrev pub put_row : Handle → InstallationRow → FlowDb → FlowDb
put_row h r db = record db { installations = set h.id r db.installations }

-- The operation that `open_store` runs in its transaction.
unfoldable pub initialize : Handle → FlowDb → Result ((Unit {0}) × FlowDb)
unfolding row
initialize h db = do
  require (not (h.id == "") && (not (h.target == "") && ltb 0 h.lease_seconds))
      (value_error "Installation, target and positive lease duration are required")
  let after : FlowDb = record db {
    installations =
        insert_or_ignore h.id
          (record {
            target = h.target;
            revision = 0;
            resources = [];
            active_plan = none;
            attempt = none;
            generation = 0;
            lease_until = 0;
          })
          db.installations;
  }
  r ← row h after
  return (tt, after)

-- `__init__` and `_initialize`
unfoldable pub open_store : Handle → FlowDb → Result (Unit {0}) × FlowDb
unfolding transaction
open_store h = transaction (initialize h)

-- `_load`
unfoldable pub load_row : Handle → FlowDb → Result Installation
unfolding row
load_row h db = do
  r ← row h db
  return (record { id = h.id; target = h.target; revision = r.revision; resources = r.resources })

-- `load`
unfoldable pub load : Handle → FlowDb → Result Installation × FlowDb
unfolding transaction load_row
load h = transaction λ db. do i ← load_row h db; return (i, db)

-- `_plan`
unfoldable pub find_plan : Handle → String → FlowDb → Result PlanRow
find_plan h digest db = elim (get (plan_key h digest) db.plans) [
  | none ↦ error "FLOW_PLAN_MISSING" "Persisted reviewed plan is missing"
  | some p ↦ return p
]

-- The operation that `save_plan` runs in its transaction.
unfoldable pub save_document : Handle → Digests → FlowPlan → FlowDb → Result ((Unit {0}) × FlowDb)
unfolding load_row find_plan
save_document h digests plan db = do
  current ← load_row h db
  require (plan.installation == to_dict current)
      (flow_error "Installation changed after planning" "FLOW_INSTALLATION_STALE")
  let after : FlowDb = record db {
    plans =
        insert_or_ignore (plan_key h (digests.plan plan))
          (record { document = plan; construction = none; abandoned = false }) db.plans;
  }
  saved ← find_plan h (digests.plan plan) after
  require (saved.document == plan)
      (flow_error "Plan digest already holds different content" "FLOW_PLAN_CONFLICT")
  return (tt, after)

-- `save_plan`
unfoldable pub save_plan : Handle → Digests → FlowPlan → FlowDb → Result (Unit {0}) × FlowDb
unfolding transaction
save_plan h digests plan = transaction (save_document h digests plan)

-- The installation at which a plan may be claimed: that of its construction, or the planned one.
abbrev pub expected_installation : PlanRow → Installation
expected_installation p = elim p.construction [
  | none ↦ p.document.installation
  | some c ↦ c.installation
]

abbrev pub stale_message : PlanRow → String
stale_message p = elim p.construction [
  | none ↦ "Installation changed after approval"
  | some c ↦ "A later plan replaced this construction"
]

-- The tests of `claim` on the installation's row, at the clock's reading `now`.
unfoldable pub in_progress : String → InstallationRow → Bool
in_progress digest r = not (r.active_plan == none || r.active_plan == some digest)

unfoldable pub is_busy : String → ℕ → InstallationRow → Bool
is_busy attempt_id now r =
    not (r.attempt == none || r.attempt == some attempt_id) && ltb now r.lease_until

unfoldable pub is_new_claim : String → ℕ → InstallationRow → Bool
is_new_claim attempt_id now r = not (r.attempt == some attempt_id) || leb r.lease_until now

-- The readings of the clock that one claim makes, in their order.
pub record Readings : Type 0 where
  pub checked : ℕ
  pub compared : ℕ
  pub leased : ℕ

-- The row that a claim writes.
abbrev pub claimed_row : Handle → String → String → Readings → InstallationRow → InstallationRow
claimed_row h digest attempt_id clock r = record r {
  active_plan = some digest;
  attempt = some attempt_id;
  generation = r.generation + (if is_new_claim attempt_id clock.compared r then 1 else 0);
  lease_until = clock.leased + h.lease_seconds;
}

-- The operation that `claim` runs in its transaction.
unfoldable pub acquire : Handle → String → String → Readings → FlowDb → Result (Claim × FlowDb)
unfolding row load_row find_plan in_progress is_busy is_new_claim
acquire h digest attempt_id clock db = do
  require (not (attempt_id == "")) (value_error "Attempt identity is required")
  plan ← find_plan h digest db
  require (not plan.abandoned)
      (flow_error "Discarded plan requires fresh planning" "FLOW_PLAN_DISCARDED")
  require (plan.document.blockers == [])
      (flow_error "Resolve plan blockers before construction" "FLOW_PLAN_BLOCKED")
  r ← row h db
  require (not (in_progress digest r))
      (flow_error "Resume the previous plan before replacing it" "FLOW_PLAN_IN_PROGRESS")
  require (not (is_busy attempt_id clock.checked r))
      (flow_error "Another attempt holds the installation lease" "FLOW_BUSY")
  current ← load_row h db
  require (expected_installation plan == to_dict current)
      (flow_error (stale_message plan) "FLOW_INSTALLATION_STALE")
  let claimed : InstallationRow = claimed_row h digest attempt_id clock r
  return (
    record { plan_digest = digest; attempt_id = attempt_id; generation = claimed.generation },
    put_row h claimed db,
  )

-- `claim`
unfoldable pub claim : Handle → String → String → Readings → FlowDb → Result Claim × FlowDb
unfolding transaction
claim h digest attempt_id clock = transaction (acquire h digest attempt_id clock)

-- The row carries this claim, and its lease has not ended.
unfoldable pub holds : Claim → ℕ → InstallationRow → Bool
holds c now r =
    r.active_plan == some c.plan_digest
    && (r.attempt == some c.attempt_id && (r.generation == c.generation && ltb now r.lease_until))

-- `_assert`
unfoldable pub assert : Handle → Claim → ℕ → FlowDb → Result (Unit {0})
unfolding row holds
assert h c now db = do
  r ← row h db
  require (holds c now r)
      (flow_error "Installation attempt was superseded or expired" "FLOW_ATTEMPT_FENCED")

-- `assert_claim`
unfoldable pub assert_claim : Handle → Claim → ℕ → FlowDb → Result (Unit {0}) × FlowDb
unfolding transaction assert
assert_claim h c now = transaction λ db. do assert h c now db; return (tt, db)
