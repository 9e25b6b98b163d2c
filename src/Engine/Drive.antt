-- ===== src/Engine/Drive.antt =====
-- `MigrationEngine._drive_apply` (runtime/engine.py): claim the run, then batches until no route holds
-- more records, with the journal saved after each.
pub mod Finished
use sanka.Prelude.{
  ℕ, zero, suc, ◌+◌, String, ◌≡◌, Bool, true, false, not, ◌&&◌, ◌||◌, Option, none, some, List, [],
  ◌∷◌, ◌++◌, map, length, if◌then◌else◌, ◌==◌, eq_string, eq_option, eq_list, eq_pair, contains, Eq,
  ◌↔◌, arith,
}
use sanka.Prelude.Dict.{Dict, get_or}
use sanka.Prelude.Text.{first, text_le}
use sanka.Prelude.Sort.{sort}
use sanka.Fault.{Fault, execution_fault, data_access_error, execution_error, Result, return, raise}
use sanka.Effect.{Eff, pure, throw, ◌>>=◌, fault_message}
use sanka.Value.{Value}
use sanka.Model.{
  ExecutionStatus, ExecutionSnapshot, empty_snapshot, SourceFilter, ManifestRow, ExecutionScope,
  AttemptIdentity, JournalEntry,
}
use sanka.Journal.{SaveOutcome, ClaimOutcome}
use sanka.Scope.{ExactIdScope}
use sanka.Batch.{ExecutionRoute, WritePolicies, BatchHost}
use sanka.Batch.Write.{OnMissingIdentity}
use sanka.Batch.Parked.{put_warnings}
use sanka.Batch.Config.{BatchConfig}
use sanka.Batch.Run.{run_batch}

-- `progress_marker`: the sorted checkpoints and completed routes.
abbrev pub Marker : Type 0
Marker = List (String × String) × List String

unfoldable pub progress_marker : ExecutionSnapshot → Marker
progress_marker s = (sort (λ a b. text_le a.0 b.0) s.checkpoints, sort text_le s.completed_routes)

-- The journal and the fence of the run, and the clock, besides the calls of a batch.
pub record DriveHost (W : Type 0) : Type 1 where
  pub batch : BatchHost W
  pub load : Eff W (Option JournalEntry)
  pub save : JournalEntry → Eff W SaveOutcome
  pub claim : AttemptIdentity → Eff W (ClaimOutcome × Option JournalEntry)
  pub utc_now : W → String

abbrev pub superseded_error : Fault
superseded_error = execution_error "run execution state was superseded; not overwriting"

abbrev pub stalled_error : Fault
stalled_error = execution_error "run stopped without progress; failed record(s) need review"

-- The exceptions after which `_drive_apply` saves a failed entry.
unfoldable pub is_saved_failure : Fault → Bool
is_saved_failure (data_access_error message category retryable retry_after_seconds) = true
is_saved_failure (execution_fault message code) = true
is_saved_failure _ = false

-- The entry that `_save_failed` saves.
unfoldable pub failed_entry : String → String → JournalEntry → JournalEntry
unfolding put_warnings
failed_entry now message entry =
    let truncated = first 500 message in
    let warnings = entry.snapshot.warnings in
    record entry {
      status = ExecutionStatus.failed;
      snapshot =
          if truncated == "" || contains truncated warnings
          then entry.snapshot
          else put_warnings (warnings ++ truncated ∷ []) entry.snapshot;
      last_heartbeat_at = some now;
    }

-- The entry after a batch that returned.
unfoldable pub batch_entry : String → Bool → Bool → ExecutionSnapshot → JournalEntry → JournalEntry
batch_entry now stalled has_more snapshot entry = record entry {
  status =
      if stalled
      then ExecutionStatus.failed
      else if has_more
      then ExecutionStatus.running
      else ExecutionStatus.completed;
  snapshot = snapshot;
  batches_completed = entry.batches_completed + 1;
  last_heartbeat_at = some now;
}

-- What follows the save of a batch: return, raise, or the next batch.
unfoldable pub after_save :
    {W : Type 0}
    → Eff W (Option ExecutionStatus)
    → Bool
    → Bool
    → SaveOutcome
    → Eff W (Option ExecutionStatus)
after_save next stalled has_more SaveOutcome.cancelled = pure (some ExecutionStatus.cancelled)
after_save next stalled has_more SaveOutcome.superseded = throw superseded_error
after_save next stalled has_more SaveOutcome.saved =
    if stalled
    then throw stalled_error
    else if has_more
    then next
    else pure (some ExecutionStatus.completed)

module _ {W : Type 0} (host : DriveHost W) where
  -- `_save_failed`: only an `ExecutionFault` of the save is passed over.
  unfoldable pub save_failed : JournalEntry → Fault → Eff W (Option ExecutionStatus)
  unfolding failed_entry fault_message
  save_failed entry error = λ w.
      let (result, after) =
        host.save (failed_entry (host.utc_now w) (fault_message error) entry) w in
      elim result [
        | return outcome ↦ (raise error, after)
        | raise e ↦ elim e [
          | execution_fault message code ↦ (raise error, after)
          | other ↦ (raise other, after)
        ]
      ]

  module _ (batch : Eff (W × ExecutionSnapshot) Bool) where
    -- The loop over the batches, on fuel; `none` is the end of the fuel.
    unfoldable pub drive_loop : ℕ → JournalEntry → Marker → Eff W (Option ExecutionStatus)
    unfolding progress_marker is_saved_failure batch_entry save_failed after_save
    drive_loop zero entry previous = pure none
    drive_loop (suc fuel) entry previous = λ w.
        let (result, (after, snapshot)) = batch (w, entry.snapshot) in
        elim result [
          | raise e ↦
              if is_saved_failure e
              then save_failed (record entry { snapshot = snapshot }) e after
              else (raise e, after)
          | return has_more ↦
              let marker = progress_marker snapshot in
              let stalled = has_more && marker == previous in
              let saving = batch_entry (host.utc_now after) stalled has_more snapshot entry in
              (host.save saving >>= after_save (drive_loop fuel saving marker) stalled has_more)
                after
        ]
