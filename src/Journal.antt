-- ===== src/Journal.antt =====
-- The execution journal and the attempt fence of `SqliteExecutionState` (runtime/execution/local.py):
-- one row per run in `execution_journal`, with the columns that the fence compares.
pub mod Steps
pub mod Fence
pub mod Cancellation
use sanka.Prelude.{
  ℕ, String, ◌≡◌, Bool, true, false, ◌&&◌, ◌||◌, not, Option, none, some, arith, eq_string,
  eq_option, ◌==◌, if◌then◌else◌, ltb,
}
use sanka.Prelude.Dict.{Dict, get, set}
use sanka.Fault.{Fault, execution_fault, Result, return, raise}
use sanka.Model.{ExecutionStatus, AttemptIdentity, JournalEntry}

-- A row of `execution_journal`. `entry_json` is the text of a journal entry, here the entry itself.
pub record JournalRow : Type 0 where
  pub job_id : Option String
  pub attempt_id : Option String
  pub attempt_number : ℕ
  pub task_run_id : Option String
  pub status : ExecutionStatus
  pub entry_json : JournalEntry
  pub updated_at : String

abbrev pub Journal : Type 0
Journal = Dict String JournalRow

-- The fields of `SqliteExecutionState` that the journal and the fence read.
pub record Handle : Type 0 where
  pub run_id : String
  pub job_id : Option String
  pub claimed : Option AttemptIdentity

pub data SaveOutcome : Type 0 where
  saved superseded cancelled : SaveOutcome

pub data ClaimOutcome : Type 0 where
  claimed superseded cancelled : ClaimOutcome

abbrev pub is_cancelled : ExecutionStatus → Bool
is_cancelled ExecutionStatus.cancelled = true
is_cancelled _ = false

-- `_entry_records_cancellation`
unfoldable pub entry_records_cancellation : ExecutionStatus → JournalEntry → Bool
entry_records_cancellation status payload =
    is_cancelled status || payload.extras_execution_state == some "cancelled"

-- Membership in `_CLAIMABLE_STATUSES`.
unfoldable pub is_claimable : ExecutionStatus → Bool
is_claimable ExecutionStatus.queued = true
is_claimable ExecutionStatus.running = true
is_claimable ExecutionStatus.failed = true
is_claimable _ = false

-- `self._job_id is not None and row["job_id"] not in (None, self._job_id)`
unfoldable pub owned_by_other_job : Handle → JournalRow → Bool
owned_by_other_job h row = elim h.job_id [
  | none ↦ false
  | some job ↦ not (row.job_id == none || row.job_id == some job)
]

-- `load`
unfoldable pub load : Handle → Journal → Result (Option JournalEntry)
unfolding owned_by_other_job
load h journal = elim (get h.run_id journal) [
  | none ↦ return none
  | some row ↦
      if owned_by_other_job h row
      then raise (
          execution_fault "Sanka execution job was superseded."
            "SANKA_MIGRATE_EXECUTION_JOB_SUPERSEDED")
      else return (some row.entry_json)
]

-- The attempt number and task run id that `_write_entry_sync` stores.
abbrev pub fence_columns : Handle → JournalEntry → Journal → ℕ × Option String
fence_columns h entry journal =
    let stored : ℕ × Option String = elim (get h.run_id journal) [
      | none ↦ (0, none)
      | some row ↦
          if row.attempt_id == entry.attempt_id
          then (row.attempt_number, row.task_run_id)
          else (0, none)
    ] in
    elim h.claimed [
      | none ↦ stored
      | some a ↦
          if some a.attempt_id == entry.attempt_id
          then (a.attempt_number, some a.task_run_id)
          else stored
    ]

-- The values that `_write_entry_sync` stores at the time `now`.
abbrev pub written : Handle → String → JournalEntry → Journal → JournalRow
written h now entry journal = record {
  job_id = entry.job_id;
  attempt_id = entry.attempt_id;
  attempt_number = (fence_columns h entry journal).0;
  task_run_id = (fence_columns h entry journal).1;
  status = entry.status;
  entry_json = entry;
  updated_at = now;
}

-- `_write_entry_sync`
unfoldable pub write_entry_sync : Handle → String → JournalEntry → Journal → Journal
write_entry_sync h now entry journal = set h.run_id (written h now entry journal) journal

-- `self._claimed.attempt_id if self._claimed is not None else entry.attempt_id`
abbrev pub bound_attempt : Handle → JournalEntry → Option String
bound_attempt h entry = elim h.claimed [ none ↦ entry.attempt_id | some a ↦ some a.attempt_id ]

-- Another attempt holds the fence.
unfoldable pub owned_by_other_attempt : Handle → JournalEntry → JournalRow → Bool
owned_by_other_attempt h entry row =
    not (bound_attempt h entry == none)
    && (not (row.attempt_id == none || row.attempt_id == bound_attempt h entry)
        && ltb 0 row.attempt_number)

-- `save`
unfoldable pub save : Handle → String → JournalEntry → Journal → SaveOutcome × Journal
unfolding owned_by_other_job owned_by_other_attempt entry_records_cancellation write_entry_sync
save h now entry journal = elim (get h.run_id journal) [
  | none ↦ (saved, write_entry_sync h now entry journal)
  | some row ↦
      if owned_by_other_job h row
      then (superseded, journal)
      else if owned_by_other_attempt h entry row
      then (superseded, journal)
      else if entry_records_cancellation row.status row.entry_json
          && not (is_cancelled entry.status)
      then (
        cancelled,
        write_entry_sync h now (record entry { status = ExecutionStatus.cancelled }) journal,
      )
      else (saved, write_entry_sync h now entry journal)
]

-- The compare-and-set guard of `claim`: the attempt re-claims its own id, or has a higher number.
unfoldable pub may_claim : AttemptIdentity → JournalRow → Bool
may_claim attempt row =
    row.attempt_id == none
    || (row.attempt_id == some attempt.attempt_id || ltb row.attempt_number attempt.attempt_number)

-- The row that a successful `claim` stores, with the claimed entry.
abbrev pub claimed_row : JournalRow → String → AttemptIdentity → JournalRow
claimed_row row now attempt = record row {
  attempt_id = some attempt.attempt_id;
  attempt_number = attempt.attempt_number;
  task_run_id = some attempt.task_run_id;
  entry_json = record row.entry_json {
    attempt_id = some attempt.attempt_id;
    last_heartbeat_at = some now;
  };
  updated_at = now;
}

-- `claim`: the outcome, the entry, the handle (whose `_claimed` is set) and the journal.
unfoldable pub claim :
    Handle
    → String
    → AttemptIdentity
    → Journal
    → (ClaimOutcome × Option JournalEntry) × Handle × Journal
unfolding entry_records_cancellation owned_by_other_job is_claimable may_claim
claim h now attempt journal = elim (get h.run_id journal) [
  | none ↦ ((claimed, none), record h { claimed = some attempt }, journal)
  | some row ↦
      if entry_records_cancellation row.status row.entry_json
      then ((cancelled, some row.entry_json), h, journal)
      else if owned_by_other_job h row
      then ((superseded, none), h, journal)
      else if not (is_claimable row.status)
      then ((superseded, none), h, journal)
      else if not (may_claim attempt row)
      then ((superseded, none), h, journal)
      else (
        (claimed, some (claimed_row row now attempt).entry_json),
        record h { claimed = some attempt },
        set h.run_id (claimed_row row now attempt) journal,
      )
]
