-- ===== src/Continuous/Loop.antt =====
-- The loop over the batches of `ContinuousExecutor.run` (runtime/execution/continuous.py), and what
-- follows an exception or the batch safety limit. The observer's notices are not modelled.
pub mod Ended
pub mod Rounds
pub mod Outcome
use sanka.Prelude.{
  ℕ, zero, suc, ◌+◌, ◌-◌, String, ◌≡◌, Bool, true, false, ◌&&◌, ◌||◌, not, Option, none, some, List,
  [], ◌∷◌, ◌==◌, eq_string, eq_option, eq_list, eq_pair, if◌then◌else◌,
}
use sanka.Prelude.Dict.{Dict}
use sanka.Prelude.Text.{first}
use sanka.Fault.{Fault, execution_fault, Result, return, raise, ◌>>=◌}
use sanka.Effect.{Eff, pure, throw, lift, catch, fault_message, ◌>>=◌ as bind}
use sanka.Model.{
  ExecutionStatus, ExecutionSnapshot, empty_snapshot, ExecutionScope, AttemptIdentity, JournalEntry,
}
use sanka.Ledger.{Table}
use sanka.Journal.{SaveOutcome, ClaimOutcome, is_cancelled, entry_records_cancellation}
use sanka.Engine.Drive.{Marker, progress_marker}
use sanka.Continuous.{known_incomplete_route_keys, reopen_incomplete_routes}
use sanka.Continuous.Reconcile.{reconcile_terminal_batch_pages}
use sanka.Continuous.Report.{
  Job, assemble_continuous_report, fresh_entry, marked_entry, validated_scope, or_else,
  frozen_total_shortfall_warning,
}
use sanka.Continuous.Host.{
  ExecutionHost, attempt_superseded, job_superseded, batch_safety_limit_message, entry_is_cancelled,
  mark_execution_failed, load_or_absent, is_execution_fault,
}

-- A batch that was run: its entry, and the variables of the loop's body.
pub record Turn : Type 0 where
  pub entry : JournalEntry
  pub has_more : Bool
  pub marker : Marker
  pub stalled : Bool

unfoldable pub turn_of : Marker → JournalEntry → Bool → Turn
turn_of previous entry has_more = record {
  entry = entry;
  has_more = has_more;
  marker = progress_marker entry.snapshot;
  stalled = has_more && progress_marker entry.snapshot == previous;
}

-- `if incomplete_routes: …`, with the warning.
unfoldable pub reopened : List String → Turn → Result (Turn × Option String)
reopened [] turn = return (turn, none)
reopened (key ∷ keys) turn =
    reopen_incomplete_routes turn.entry.snapshot (key ∷ keys) true >>= λ snapshot. return (
      record {
        entry = record turn.entry { snapshot = snapshot };
        has_more = true;
        marker = turn.marker;
        stalled = true;
      },
      some frozen_total_shortfall_warning,
    )

unfoldable pub state_of : Turn → ExecutionStatus
state_of turn =
    if turn.stalled
    then ExecutionStatus.failed
    else if turn.has_more
    then ExecutionStatus.running
    else ExecutionStatus.completed

-- How a round of the loop ends: `run` returns an entry, or the loop goes on.
pub data Round : Type 0 where
  returns : JournalEntry → Round
  goes_on : Marker → Round

module _ {W : Type 0} (host : ExecutionHost W) where
  module _ (job : Job) where
    -- What follows the stall test: a stalled batch is reconciled with the ledger, if it can be.
    unfoldable pub reconciled_turn : Marker → Turn → W → Result Turn
    unfolding turn_of
    reconciled_turn previous turn w =
        if turn.stalled
        then (reconcile_terminal_batch_pages host.run_id (host.ledger w) job.scope.route_manifest
              job.scope.selected_route_keys turn.entry
            >>= λ (reconciled, entry).
                return
                  (if reconciled then turn_of previous entry entry.snapshot.has_more else turn))
        else return turn

    -- The routes that are found short once no batch has more.
    unfoldable pub incomplete_routes : Turn → List String
    incomplete_routes turn =
        if turn.has_more
        then []
        else known_incomplete_route_keys turn.entry.snapshot job.scope.selected_route_keys
            job.scope.route_totals

    -- What the loop does by the outcome of the save.
    unfoldable pub after_save : Turn → JournalEntry → SaveOutcome → Eff W Round
    after_save turn entry SaveOutcome.saved w =
        if turn.stalled || not turn.has_more
        then (return (returns entry), w)
        else (return (goes_on turn.marker), host.sleep w)
    after_save turn entry SaveOutcome.superseded w = throw job_superseded w
    after_save turn entry SaveOutcome.cancelled w =
        pure (returns (record entry { status = ExecutionStatus.cancelled })) w

    -- The report of a batch, at the time that the clock says.
    unfoldable pub report_turn : ℕ → Turn → Option String → Eff W JournalEntry
    unfolding state_of
    report_turn batches_completed turn warning w = (
      assemble_continuous_report job (host.clock w) (state_of turn) (batches_completed + 1)
          turn.stalled warning turn.entry,
      w,
    )

    -- From the reconciliation on: the reopened routes, the report and its save.
    unfoldable pub finish_turn : ℕ → Turn → Eff W Round
    unfolding incomplete_routes reopened report_turn after_save
    finish_turn batches_completed turn =
        bind (lift (reopened (incomplete_routes turn) turn)) λ (turn, warning).
          bind (report_turn batches_completed turn warning)
            λ entry. bind (host.save entry) (after_save turn entry)

    -- The body of the loop from the batch step on.
    unfoldable pub run_batch : ℕ → Marker → Eff W Round
    unfolding turn_of reconciled_turn finish_turn
    run_batch batches_completed previous = bind host.step λ (entry, has_more).
        if is_cancelled entry.status
        then pure (returns entry)
        else bind (λ w. (reconciled_turn previous (turn_of previous entry has_more) w, w))
            (finish_turn batches_completed)

    -- The body of the loop: a cancellation or another attempt ends it before the batch.
    unfoldable pub round : ℕ → Marker → Eff W Round
    unfolding run_batch
    round batches_completed previous = bind host.load λ latest. elim latest [
      | none ↦ run_batch batches_completed previous
      | some entry ↦
          if entry_is_cancelled entry
          then pure (returns entry)
          else if entry.attempt_id == some job.attempt_id
          then run_batch batches_completed previous
          else throw attempt_superseded
    ]

    -- `while batches_completed < max_batches`, by the number of batches that are left.
    unfoldable pub batches : ℕ → ℕ → Marker → Eff W (Option JournalEntry)
    unfolding round
    batches zero batches_completed previous = pure none
    batches (suc left) batches_completed previous =
        bind (round batches_completed previous) λ ending. elim ending [
          | returns entry ↦ pure (some entry)
          | goes_on marker ↦ batches left (batches_completed + 1) marker
        ]

    -- `except Exception as fault:` of the loop.
    unfoldable pub after_fault : Fault → Eff W (Option JournalEntry)
    unfolding load_or_absent mark_execution_failed
    after_fault e = bind (load_or_absent host) λ latest.
        let marked =
          mark_execution_failed host (first 500 (fault_message e)) job.job_id job.attempt_id in
        elim latest [
          | none ↦ bind marked λ _. throw e
          | some entry ↦
              if entry_is_cancelled entry then pure (some entry) else bind marked λ _. throw e
        ]

    -- After the loop: the batch safety limit.
    unfoldable pub after_limit : Eff W JournalEntry
    unfolding mark_execution_failed
    after_limit =
        bind (mark_execution_failed host batch_safety_limit_message job.job_id job.attempt_id)
          λ marked. elim marked [
            | some entry ↦ pure entry
            | none ↦
                bind host.load
                  λ final. elim final [ some entry ↦ pure entry | none ↦ throw attempt_superseded ]
          ]

    -- From the loop on.
    unfoldable pub run_job : ℕ → ℕ → Marker → Eff W JournalEntry
    unfolding batches after_fault after_limit
    run_job max_batches batches_completed previous =
        bind
          (catch (batches (max_batches - batches_completed) batches_completed previous) after_fault)
          λ ending. elim ending [ some entry ↦ pure entry | none ↦ after_limit ]
