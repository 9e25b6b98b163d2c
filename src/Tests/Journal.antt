-- ===== src/Tests/Journal.antt =====
-- Examples of the journal's theorems.
use sanka.Prelude.{
  ℕ, String, ◌≡◌, ◌≢◌, refl, false, Option, none, some, [], ◌∷◌, arith, ◌==◌, eq_string,
  if◌then◌else◌,
}
use sanka.Prelude.Dict.{get}
use sanka.Model.{ExecutionStatus, AttemptIdentity, JournalEntry, empty_snapshot}
use sanka.Journal.{
  JournalRow, Journal, Handle, ClaimOutcome, saved, superseded, is_cancelled, save, claim,
  entry_records_cancellation,
}
use sanka.Journal.Steps.{here, next, saves}
use sanka.Journal.Cancellation.{IsCancelled, cancellation_final}
use sanka.Journal.Fence.{Reach as FenceReach, older_attempt_locked_out}

abbrev entry_of : ExecutionStatus → Option String → JournalEntry
entry_of status attempt = record {
  status = status;
  snapshot = empty_snapshot;
  job_id = none;
  attempt_id = attempt;
  batch_size = 50;
  batches_completed = 1;
  started_at = none;
  last_heartbeat_at = none;
  resumed = false;
  scope = none;
  durable_results_attempt_id = none;
  extras_execution_state = none;
}

abbrev row_of : ExecutionStatus → String → ℕ → JournalRow
row_of status attempt n = record {
  job_id = none;
  attempt_id = some attempt;
  attempt_number = n;
  task_run_id = some "task";
  status = status;
  entry_json = entry_of status (some attempt);
  updated_at = "t0";
}

abbrev handle : Option AttemptIdentity → Handle
handle claimed = record { run_id = "run"; job_id = none; claimed = claimed }

abbrev attempt : String → ℕ → AttemptIdentity
attempt id n = record { attempt_id = id; attempt_number = n; task_run_id = "task" }

abbrev cancelled_journal : Journal
cancelled_journal = ("run", row_of ExecutionStatus.cancelled "a1" 1) ∷ []

abbrev running_journal : Journal
running_journal = ("run", row_of ExecutionStatus.running "a2" 2) ∷ []

abbrev running_entry : JournalEntry
running_entry = entry_of ExecutionStatus.running (some "a1")

-- A save that comes too late.
abbrev after_save : Journal
after_save = (save (handle none) "t1" running_entry cancelled_journal).1

cancellation_final_example :
    IsCancelled "run" after_save
    × ((claim (handle none) "t2" (attempt "a3" 3) after_save).0.0 ≡ ClaimOutcome.cancelled)
    × (is_cancelled running_entry.status ≡ false
        → (save (handle none) "t2" running_entry after_save).0 ≢ saved)
unfolding get entry_records_cancellation
cancellation_final_example =
    cancellation_final (next here (saves (handle none) "t1" running_entry refl)) (handle none)
      (row_of ExecutionStatus.cancelled "a1" 1, refl, refl) "t2" (attempt "a3" 3) running_entry

-- The number of an attempt id.
abbrev number_of : String → ℕ
number_of id = if id == "a1" then 1 else 2

older_attempt_locked_out_example :
    ((handle (some (attempt "a1" 1))).claimed ≡ some (attempt "a1" 1)
      → save (handle (some (attempt "a1" 1))) "t1" running_entry running_journal
        ≡ (superseded, running_journal))
    × ((claim (handle (some (attempt "a1" 1))) "t1" (attempt "a1" 1) running_journal).0.0
        ≢ ClaimOutcome.claimed)
unfolding get
older_attempt_locked_out_example =
    older_attempt_locked_out number_of 2 "run" (omega arith)
      (record {
        row = row_of ExecutionStatus.running "a2" 2;
        there = refl;
        attempt_id = "a2";
        held = refl;
        numbered = refl;
        least = omega arith;
      })
      FenceReach.here (handle (some (attempt "a1" 1))) "t1" running_entry (attempt "a1" 1) refl refl
      (omega arith)
