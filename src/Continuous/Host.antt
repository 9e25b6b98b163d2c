-- ===== src/Continuous/Host.antt =====
-- The host of a continuous run, and the mark of a failure (runtime/execution/continuous.py).
use sanka.Prelude.{
  String, Bool, true, false, ◌&&◌, ◌||◌, not, Option, none, some, ◌==◌, eq_string, eq_option,
  eq_list, eq_pair, if◌then◌else◌,
}
use sanka.Fault.{Fault, execution_fault, Result, return, raise}
use sanka.Effect.{Eff, pure, ◌>>=◌ as bind}
use sanka.Model.{AttemptIdentity, JournalEntry}
use sanka.Ledger.{Table}
use sanka.Journal.{SaveOutcome, ClaimOutcome, entry_records_cancellation}
use sanka.Continuous.Report.{fresh_entry, marked_entry, or_else}

-- The host of an execution: its journal, its fence, its ledger (that of local.py), the batch step
-- that `run` is given, and the clock and the sleep of the executor.
pub record ExecutionHost (W : Type 0) : Type 0 where
  pub load : Eff W (Option JournalEntry)
  pub save : JournalEntry → Eff W SaveOutcome
  pub claim : AttemptIdentity → Eff W (ClaimOutcome × Option JournalEntry)
  pub run_id : String
  pub ledger : W → Table
  pub step : Eff W (JournalEntry × Bool)
  pub clock : W → String
  pub sleep : W → W

abbrev pub attempt_superseded : Fault
attempt_superseded =
    execution_fault "Sanka execution attempt was superseded."
      "SANKA_MIGRATE_EXECUTION_ATTEMPT_SUPERSEDED"

abbrev pub job_superseded : Fault
job_superseded =
    execution_fault "Sanka execution job was superseded." "SANKA_MIGRATE_EXECUTION_JOB_SUPERSEDED"

abbrev pub batch_safety_limit_message : String
batch_safety_limit_message = "Continuous migration stopped after the batch safety limit."

-- `_entry_is_cancelled`
abbrev pub entry_is_cancelled : JournalEntry → Bool
entry_is_cancelled entry = entry_records_cancellation entry.status entry

unfoldable pub is_execution_fault : Fault → Bool
is_execution_fault (execution_fault message code) = true
is_execution_fault _ = false

-- `except ExecutionFault:` around a read of the journal.
unfoldable pub or_absent : Result (Option JournalEntry) → Result (Option JournalEntry)
unfolding is_execution_fault
or_absent (return found) = return found
or_absent (raise e) = if is_execution_fault e then return none else raise e

module _ {W : Type 0} (host : ExecutionHost W) where
  unfoldable pub load_or_absent : Eff W (Option JournalEntry)
  unfolding or_absent
  load_or_absent w = (or_absent (host.load w).0, (host.load w).1)

  -- The end of `mark_execution_failed`: the entry is returned only if it was saved.
  unfoldable pub save_marked : JournalEntry → Eff W (Option JournalEntry)
  save_marked entry = bind (host.save entry) λ outcome. elim outcome [
    | SaveOutcome.saved ↦ pure (some entry)
    | SaveOutcome.superseded ↦ pure none
    | SaveOutcome.cancelled ↦ pure none
  ]

  -- `mark_execution_failed`. A load that raises an `ExecutionFault` ends it.
  unfoldable pub mark_execution_failed :
      String → Option String → String → Eff W (Option JournalEntry)
  unfolding marked_entry save_marked is_execution_fault
  mark_execution_failed message job_id attempt_id w =
      let now = host.clock w in
      let (loaded, after) = host.load w in
      elim loaded [
        | raise e ↦ (if is_execution_fault e then return none else raise e, after)
        | return found ↦
            let entry = or_else found (fresh_entry job_id (some attempt_id)) in
            if not (job_id == none) && not (entry.job_id == none || entry.job_id == job_id)
            then (return none, after)
            else save_marked (marked_entry now message job_id (some attempt_id) entry) after
      ]
