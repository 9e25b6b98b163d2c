-- ===== src/Continuous/Run.antt =====
-- `ContinuousExecutor.run` (runtime/execution/continuous.py): the entry that is there, the claim, the
-- check of the scope, and the loop.
pub mod Outcome
use sanka.Prelude.{
  ℕ, zero, suc, ◌+◌, ◌-◌, String, ◌≡◌, Bool, true, false, ◌&&◌, ◌||◌, not, Option, none, some, List,
  [], ◌∷◌, ◌==◌, eq_string, eq_option, eq_list, eq_pair, if◌then◌else◌,
}
use sanka.Prelude.Dict.{Dict}
use sanka.Prelude.Text.{first}
use sanka.Fault.{Fault, execution_fault, Result, return, raise, ◌>>=◌}
use sanka.Effect.{Eff, pure, throw, lift, catch, fault_message, ◌>>=◌ as bind}
use sanka.Model.{
  ExecutionStatus, ExecutionSnapshot, empty_snapshot, ExecutionScope, AttemptIdentity, JournalEntry,
}
use sanka.Ledger.{Table}
use sanka.Journal.{SaveOutcome, ClaimOutcome, is_cancelled, entry_records_cancellation}
use sanka.Engine.Drive.{Marker, progress_marker}
use sanka.Continuous.{known_incomplete_route_keys, reopen_incomplete_routes}
use sanka.Continuous.Reconcile.{reconcile_terminal_batch_pages}
use sanka.Continuous.Report.{
  Job, assemble_continuous_report, fresh_entry, marked_entry, validated_scope, or_else,
  frozen_total_shortfall_warning,
}
use sanka.Continuous.Host.{
  ExecutionHost, attempt_superseded, job_superseded, batch_safety_limit_message, entry_is_cancelled,
  mark_execution_failed, load_or_absent, is_execution_fault,
}
use sanka.Continuous.Loop.{run_job}

abbrev pub is_completed : ExecutionStatus → Bool
is_completed ExecutionStatus.completed = true
is_completed _ = false

-- `claimed if claimed is not None else current`
abbrev pub or_current : Option JournalEntry → Option JournalEntry → Option JournalEntry
or_current none current = current
or_current (some claimed) current = some claimed

-- `entry.batches_completed if entry is not None else 0`, and the progress marker before the loop.
abbrev pub batches_before : Option JournalEntry → ℕ
batches_before none = 0
batches_before (some entry) = entry.batches_completed

abbrev pub marker_before : Option JournalEntry → Marker
marker_before none = progress_marker empty_snapshot
marker_before (some entry) = progress_marker entry.snapshot

module _ {W : Type 0} (host : ExecutionHost W) where
  -- `effective_scope` and the variables of the loop, from the claimed entry.
  abbrev pub job_of :
      ExecutionScope → AttemptIdentity → Option String → Option ℕ → Option JournalEntry → W → Job
  job_of scope attempt job_id batch_size entry w =
      let saved : Option String = elim entry [ none ↦ none | some e ↦ e.started_at ] in
      record {
        scope = scope;
        attempt_id = attempt.attempt_id;
        job_id = job_id;
        batch_size = batch_size;
        started_at = if or_else saved "" == "" then host.clock w else or_else saved "";
        resumed = elim entry [ none ↦ false | some e ↦ e.resumed ];
      }

  -- `_validated_scope`, with the mark of its failure.
  unfoldable pub effective_scope :
      ExecutionScope → AttemptIdentity → Option String → Option JournalEntry → Eff W ExecutionScope
  unfolding mark_execution_failed
  effective_scope scope attempt job_id entry = catch (lift (validated_scope scope entry)) λ e.
      bind (mark_execution_failed host (first 500 (fault_message e)) job_id attempt.attempt_id)
        λ _. throw e

  -- From the validated scope on.
  unfoldable pub start_job :
      ℕ
      → AttemptIdentity
      → Option String
      → Option ℕ
      → Option JournalEntry
      → ExecutionScope
      → Eff W JournalEntry
  unfolding run_job
  start_job max_batches attempt job_id batch_size entry scope w =
      run_job host (job_of scope attempt job_id batch_size entry w) max_batches
        (batches_before entry) (marker_before entry) w

  -- After a successful claim.
  unfoldable pub run_claimed :
      ℕ
      → ExecutionScope
      → AttemptIdentity
      → Option String
      → Option ℕ
      → Option JournalEntry
      → Eff W JournalEntry
  unfolding effective_scope start_job
  run_claimed max_batches scope attempt job_id batch_size entry =
      bind (effective_scope scope attempt job_id entry)
        (start_job max_batches attempt job_id batch_size entry)

  -- The claim, and what follows it.
  unfoldable pub claim_and_run :
      ℕ
      → ExecutionScope
      → AttemptIdentity
      → Option String
      → Option ℕ
      → Option JournalEntry
      → Eff W JournalEntry
  unfolding run_claimed
  claim_and_run max_batches scope attempt job_id batch_size current =
      bind (host.claim attempt) λ (outcome, claimed).
        let entry = or_current claimed current in
        elim outcome [
          | ClaimOutcome.claimed ↦ run_claimed max_batches scope attempt job_id batch_size entry
          | ClaimOutcome.superseded ↦ throw attempt_superseded
          | ClaimOutcome.cancelled ↦ elim entry [
            | none ↦ throw attempt_superseded
            | some resolved ↦ pure resolved
          ]
        ]

  -- `run`: an entry that is cancelled or completed already is returned as it is.
  unfoldable pub run :
      ℕ → ExecutionScope → AttemptIdentity → Option String → Option ℕ → Eff W JournalEntry
  unfolding claim_and_run
  run max_batches scope attempt job_id batch_size = bind host.load λ current. elim current [
    | none ↦ claim_and_run max_batches scope attempt job_id batch_size none
    | some entry ↦
        if entry_is_cancelled entry || is_completed entry.status
        then pure entry
        else claim_and_run max_batches scope attempt job_id batch_size (some entry)
  ]
