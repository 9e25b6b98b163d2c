-- ===== src/Engine/Resume.antt =====
-- The start of `MigrationEngine._drive_apply` (runtime/engine.py): the journal entry of a run, claimed and
-- checked against the approved scope, and the whole of `_drive_apply`.
pub mod Completed
use Prim.Native.String.{◌++◌ as join}
use sanka.Prelude.{
  ℕ, zero, suc, ◌+◌, String, ◌≡◌, ◌↔◌, Bool, true, false, not, ◌&&◌, Option, none, some, List, [],
  ◌∷◌, map, length, if◌then◌else◌, ◌==◌, eq_string, eq_option, eq_list, eq_pair, Eq, arith,
}
use sanka.Prelude.Dict.{Dict, get_or}
use sanka.Fault.{Fault, execution_error, Result, return, raise}
use sanka.Effect.{Eff, pure, throw, lift, ◌>>=◌}
use sanka.Value.{Value}
use sanka.Model.{
  ExecutionStatus, ExecutionSnapshot, empty_snapshot, SourceFilter, ManifestRow, eq_manifest_row,
  ExecutionScope, AttemptIdentity, JournalEntry,
}
use sanka.Journal.{SaveOutcome, ClaimOutcome}
use sanka.Scope.{ExactIdScope}
use sanka.Batch.{ExecutionRoute, WritePolicies}
use sanka.Batch.Write.{OnMissingIdentity}
use sanka.Batch.Config.{BatchConfig}
use sanka.Batch.Run.{run_batch}
use sanka.Engine.Drive.{DriveHost, progress_marker, drive_loop}

abbrev scope_mismatch : Fault
scope_mismatch = execution_error "saved execution scope does not match the reviewed plan"

abbrev owned_elsewhere : Fault
owned_elsewhere = execution_error "run is owned by another execution attempt; not resuming"

-- `_resume_exact_scope`
unfoldable pub resume_exact_scope : ExactIdScope → Option ExecutionScope → Result ExactIdScope
resume_exact_scope approved none = return approved
resume_exact_scope approved (some saved) =
    if saved.route_manifest == approved.route_manifest
      && saved.selected_route_keys == approved.selected_route_keys
    then return approved
    else raise scope_mismatch

-- The exact scope as the scope of an entry.
abbrev pub entry_scope : ExactIdScope → ExecutionScope
entry_scope scope = record {
  route_manifest = scope.route_manifest;
  selected_route_keys = scope.selected_route_keys;
  route_high_water_marks = [];
  route_totals =
      map (λ key. (key, some (length (get_or key [] scope.candidate_ids_by_route))))
        scope.selected_route_keys;
}

-- The entry that the batches start from: a new one, or the claimed one resumed.
unfoldable pub start_entry : String → String → ℕ → ExactIdScope → Option JournalEntry → JournalEntry
start_entry now attempt_id batch_size scope none = record {
  status = ExecutionStatus.running;
  snapshot = empty_snapshot;
  job_id = none;
  attempt_id = some attempt_id;
  batch_size = batch_size;
  batches_completed = 0;
  started_at = some now;
  last_heartbeat_at = some now;
  resumed = false;
  scope = some (entry_scope scope);
  durable_results_attempt_id = none;
  extras_execution_state = none;
}
start_entry now attempt_id batch_size scope (some entry) = record entry {
  status = ExecutionStatus.running;
  attempt_id = some attempt_id;
  batch_size = batch_size;
  started_at = elim entry.started_at [
    | none ↦ some now
    | some t ↦ if t == "" then some now else some t
  ];
  resumed = true;
  scope = some (entry_scope scope);
}

-- A run that needs no batch any more.
abbrev pub is_settled : Option JournalEntry → Option ExecutionStatus
is_settled none = none
is_settled (some entry) = elim entry.status [
  | ExecutionStatus.completed ↦ some ExecutionStatus.completed
  | ExecutionStatus.cancelled ↦ some ExecutionStatus.cancelled
  | _ ↦ none
]

abbrev pub or_loaded : Option JournalEntry → Option JournalEntry → Option JournalEntry
or_loaded none loaded = loaded
or_loaded (some claimed) loaded = some claimed

-- `normalized_attempt_identity(job_id=f"apply:{run_id}")`
abbrev pub apply_attempt : String → AttemptIdentity
apply_attempt run_id = record {
  attempt_id = join "apply:" (join run_id ":1");
  attempt_number = 1;
  task_run_id = join "apply:" run_id;
}

abbrev pub batch_config : WritePolicies → ℕ → ExactIdScope → BatchConfig
batch_config policies batch_size scope = record {
  policies = policies;
  batch_size = batch_size;
  route_high_water_marks = some [];
  exact_scope = some scope;
  on_missing_identity = OnMissingIdentity.fail;
}

module _ (transform : Value → Option String → Result Value) (equals : Value → Value → Bool)
    (lower : String → String) (content_hash : Dict String (List String) → String) {W : Type 0}
    (host : DriveHost W) (policies : WritePolicies) (batch_size : ℕ)
    (routes : List ExecutionRoute) where
  -- The batches of a run, from its entry and scope.
  unfoldable pub drive_from :
      ℕ → String → ExactIdScope → Option JournalEntry → Eff W (Option ExecutionStatus)
  unfolding start_entry drive_loop progress_marker run_batch
  drive_from fuel run_id scope loaded = λ w.
      let entry =
        start_entry (host.utc_now w) (apply_attempt run_id).attempt_id batch_size scope loaded in
      drive_loop host
        (run_batch transform equals lower host.batch (batch_config policies batch_size scope)
          content_hash routes)
        fuel entry (progress_marker entry.snapshot) w

  -- What follows the claim.
  unfoldable pub after_claim :
      ℕ
      → String
      → ExactIdScope
      → Option JournalEntry
      → ClaimOutcome × Option JournalEntry
      → Eff W (Option ExecutionStatus)
  unfolding drive_from resume_exact_scope
  after_claim fuel run_id approved loaded (ClaimOutcome.cancelled, claimed) =
      pure (some ExecutionStatus.cancelled)
  after_claim fuel run_id approved loaded (ClaimOutcome.superseded, claimed) = throw owned_elsewhere
  after_claim fuel run_id approved loaded (ClaimOutcome.claimed, claimed) = do
    let entry = or_loaded claimed loaded
    scope ← lift (resume_exact_scope approved (elim entry [ none ↦ none | some e ↦ e.scope ]))
    drive_from fuel run_id scope entry

  -- `_drive_apply`
  unfoldable pub drive_apply : ℕ → String → ExactIdScope → Eff W (Option ExecutionStatus)
  unfolding after_claim
  drive_apply fuel run_id approved = do
    entry ← host.load
    elim (is_settled entry) [
      | some status ↦ pure (some status)
      | none ↦ do
        outcome ← host.claim (apply_attempt run_id)
        after_claim fuel run_id approved entry outcome
    ]
