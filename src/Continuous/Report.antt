-- ===== src/Continuous/Report.antt =====
-- The entry that the continuous executor saves (runtime/execution/continuous.py): the heartbeat report
-- of a batch, the mark of a failure, and the check of the saved scope. The progress rows and the other
-- keys that ride `extras` are not in the entry of this model.
use sanka.Prelude.{
  ℕ, String, Bool, false, ◌&&◌, Option, none, some, List, [], ◌∷◌, ◌++◌, ◌==◌, Eq, eq_string,
  eq_option, eq_list, if◌then◌else◌, all, contains,
}
use sanka.Prelude.Dict.{Dict, get}
use sanka.Fault.{execution_fault, Result, return, raise, ◌>>=◌, ◌>>◌, require}
use sanka.Model.{
  ExecutionStatus, queued, running, completed, failed, cancelled, empty_snapshot, ManifestRow,
  eq_manifest_row, ExecutionScope, JournalEntry,
}
use sanka.Batch.Parked.{put_warnings}
use sanka.Continuous.Manifest.{canonical_route_manifest, selected_route_keys, manifest_missing}

abbrev pub status_text : ExecutionStatus → String
status_text queued = "queued"
status_text running = "running"
status_text completed = "completed"
status_text failed = "failed"
status_text cancelled = "cancelled"

abbrev pub stalled_no_progress_warning : String
stalled_no_progress_warning =
    "Execution stopped because a batch did not advance any checkpoint. Review failed records before resuming."

abbrev pub frozen_total_shortfall_warning : String
frozen_total_shortfall_warning =
    "Execution stopped because the source page ended before the frozen route total was reached. Resume from the saved keyset checkpoint."

-- The arguments of `run` and of its loop that do not change.
pub record Job : Type 0 where
  pub scope : ExecutionScope
  pub attempt_id : String
  pub job_id : Option String
  pub batch_size : Option ℕ
  pub started_at : String
  pub resumed : Bool

abbrev pub add_warning : String → List String → List String
add_warning warning warnings =
    if contains warning warnings then warnings else warnings ++ warning ∷ []

abbrev pub or_else {ℓ} : {A : Type ℓ} → Option A → A → A
or_else none b = b
or_else (some a) b = a

-- The `ExecutionScope` that the report carries: the saved totals stay.
unfoldable pub reported_scope :
    List ManifestRow → ExecutionScope → Option ExecutionScope → ExecutionScope
reported_scope manifest scope saved = record {
  route_manifest = manifest;
  selected_route_keys = scope.selected_route_keys;
  route_high_water_marks = scope.route_high_water_marks;
  route_totals = elim saved [ none ↦ [] | some old ↦ old.route_totals ];
}

-- `assemble_continuous_report`, on the fields of an entry.
unfoldable pub assemble_continuous_report :
    Job → String → ExecutionStatus → ℕ → Bool → Option String → JournalEntry → Result JournalEntry
unfolding reported_scope put_warnings
assemble_continuous_report job now state batches_completed stalled stall_warning entry =
    canonical_route_manifest job.scope.route_manifest >>= λ manifest.
    (selected_route_keys manifest job.scope.selected_route_keys >>= λ selected.
    return (record entry {
      status = state;
      snapshot =
          if stalled
          then put_warnings
              (add_warning (or_else stall_warning stalled_no_progress_warning)
                entry.snapshot.warnings)
              entry.snapshot
          else entry.snapshot;
      job_id = elim job.job_id [ none ↦ entry.job_id | some id ↦ some id ];
      batch_size = or_else job.batch_size entry.batch_size;
      batches_completed = batches_completed;
      started_at = some job.started_at;
      last_heartbeat_at = some now;
      resumed = job.resumed;
      scope = some (reported_scope manifest job.scope entry.scope);
      extras_execution_state = some (status_text state);
    }))

-- The fresh entry of `mark_execution_failed`, where nothing was saved yet.
abbrev pub fresh_entry : Option String → Option String → JournalEntry
fresh_entry job_id attempt_id = record {
  status = failed;
  snapshot = empty_snapshot;
  job_id = job_id;
  attempt_id = attempt_id;
  batch_size = 0;
  batches_completed = 0;
  started_at = none;
  last_heartbeat_at = none;
  resumed = false;
  scope = none;
  durable_results_attempt_id = none;
  extras_execution_state = none;
}

-- The entry that `mark_execution_failed` saves.
unfoldable pub marked_entry :
    String → String → Option String → Option String → JournalEntry → JournalEntry
unfolding put_warnings
marked_entry now message job_id attempt_id entry = record entry {
  status = failed;
  snapshot =
      if message == ""
      then entry.snapshot
      else put_warnings (add_warning message entry.snapshot.warnings) entry.snapshot;
  job_id = elim job_id [ none ↦ entry.job_id | some id ↦ some id ];
  attempt_id = elim attempt_id [ none ↦ entry.attempt_id | some id ↦ some id ];
  last_heartbeat_at = some now;
  extras_execution_state = some "failed";
}

-- `dict(a) == dict(b)`
unfoldable pub same_dict {ℓ} : {V : Type ℓ} ⦃e : Eq V⦄ → Dict String V → Dict String V → Bool
same_dict a b = all (λ (k, v). get k b == some v) a && all (λ (k, v). get k a == some v) b

-- `_validated_scope`
unfoldable pub validated_scope : ExecutionScope → Option JournalEntry → Result ExecutionScope
unfolding same_dict
validated_scope scope none = return scope
validated_scope scope (some entry) = elim entry.scope [
  | none ↦ raise manifest_missing
  | some saved ↦ canonical_route_manifest scope.route_manifest >>= λ current_manifest.
      (canonical_route_manifest saved.route_manifest >>= λ saved_manifest.
      require (current_manifest == saved_manifest) (
        execution_fault "The saved Sanka mapping route manifest does not match the queued job."
          "SANKA_MIGRATE_ROUTE_MANIFEST_CHANGED")
      >> (require (scope.selected_route_keys == saved.selected_route_keys) (
            execution_fault "The Sanka execution route selection changed after the job was queued."
              "SANKA_MIGRATE_EXECUTION_ROUTE_CHANGED")
          >> (require (same_dict scope.route_high_water_marks saved.route_high_water_marks) (
                execution_fault
                  "The saved Sanka route high-water marks do not match the reviewed routes."
                  "SANKA_MIGRATE_EXECUTION_HIGH_WATER_MARK_INVALID")
              >> return scope)))
]
