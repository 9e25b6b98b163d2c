-- ===== src/Tests/Continuous.antt =====
-- Examples of the theorems on the continuous executor.
use sanka.Prelude.{
  ◌≡◌, refl, true, false, none, some, List, [], ◌∷◌, any, all, contains, filter, eq_string,
}
use sanka.Prelude.Dict.{get, get_or, set, update, append_to, pop, count_by, bump}
use sanka.Prelude.Text.{strip, lstrip, rstrip, is_space, text_le}
use sanka.Prelude.Sort.{sort, insert_sorted, sorted_set, insert_set}
use sanka.Fault.{Result, return, raise}
use sanka.Model.{
  created, ExecutionStatus, BatchPage, ExecutionSnapshot, empty_snapshot, ManifestRow,
  ExecutionScope, AttemptIdentity, JournalEntry, is_terminal,
}
use sanka.Mapping.Field.{mapping_group_key}
use sanka.Ledger.{Table, run_rows, is_selected, normalized_ids, terminal_destination_ids}
use sanka.Ledger.Pairs.{
  add_failed, failed_by_pair, failed_source_ids_by_pair, pair_status_totals, pair_le,
}
use sanka.Ledger.Reads.{result_key}
use sanka.Journal.{
  Journal, JournalRow, Handle, load, save, claim, entry_records_cancellation, owned_by_other_job,
  owned_by_other_attempt, is_claimable, may_claim, write_entry_sync,
}
use sanka.Engine.Drive.{progress_marker}
use sanka.Continuous.{known_incomplete_route_keys, is_short, processed, stripped}
use sanka.Continuous.Manifest.{
  canonical_route_manifest, canonical_rows, canonical_row, source_filter_from_payload,
  selected_route_keys,
}
use sanka.Continuous.Reconcile.{
  reconcile_terminal_batch_pages, reconciled, advanced_snapshot, advance_pages, advance_page,
  checked_pages, page_is_terminal, same_set, add_route_key, durable_route_result_state,
  unique_routes, add_total, add_failed_ids, manifest_by_key,
}
use sanka.Continuous.Reconcile.Checked.{HasTerminalRow}
use sanka.Continuous.Reconcile.Advanced.{IsAdvanced}
use sanka.Continuous.Reconcile.Evidence.{reconcile_terminal_batch_pages-IsTerminal}
use sanka.Continuous.Report.{validated_scope, same_dict, assemble_continuous_report, reported_scope}
use sanka.Continuous.Host.{ExecutionHost, mark_execution_failed}
use sanka.Continuous.Loop.{
  run_job, batches, round, run_batch, finish_turn, report_turn, after_save, reopened,
  incomplete_routes, state_of, turn_of, reconciled_turn,
}
use sanka.Continuous.Run.{run, claim_and_run, run_claimed, effective_scope, start_job}
use sanka.Continuous.Run.Outcome.{IsOutcome, run-IsOutcome}

abbrev contacts_row : ManifestRow
contacts_row = record {
  route_key = "Contact|contacts";
  source_object = "Contact";
  destination_object = "contacts";
  source_filter = none;
  identity_fields = [];
}

abbrev scope : ExecutionScope
scope = record {
  route_manifest = contacts_row ∷ [];
  selected_route_keys = "Contact|contacts" ∷ [];
  route_high_water_marks = [];
  route_totals = ("Contact|contacts", some 2) ∷ [];
}

abbrev first_page : BatchPage
first_page = record { source_record_ids = "1" ∷ []; next_cursor = some "1"; has_more = true }

abbrev entry_with : ExecutionStatus → ExecutionSnapshot → JournalEntry
entry_with status snapshot = record {
  status = status;
  snapshot = snapshot;
  job_id = none;
  attempt_id = some "a1";
  batch_size = 50;
  batches_completed = 0;
  started_at = some "t0";
  last_heartbeat_at = none;
  resumed = false;
  scope = some scope;
  durable_results_attempt_id = none;
  extras_execution_state = none;
}

abbrev stalled_entry : JournalEntry
stalled_entry =
    entry_with ExecutionStatus.running (record empty_snapshot {
      batch_pages = ("Contact|contacts", first_page) ∷ [];
      has_more = true;
    })

abbrev ledger : Table
ledger =
    (
      result_key "run" "Contact" "contacts" "1",
      record { destination_record_id = some "d1"; status = created; message = none },
    )
    ∷ []

abbrev value_or {ℓ} : {A : Type ℓ} → A → Result A → A
value_or d (return a) = a
value_or d (raise e) = d

abbrev reconciled_entry : JournalEntry
reconciled_entry =
    (value_or (false, stalled_entry)
      (reconcile_terminal_batch_pages "run" ledger (contacts_row ∷ []) ("Contact|contacts" ∷ [])
        stalled_entry)).1

reconcile_terminal_batch_pages-IsTerminal_example :
    ((rows : List ManifestRow) × (row : ManifestRow) × (canonical_route_manifest (contacts_row ∷ [])
        ≡ return rows)
      × (get "Contact|contacts" (manifest_by_key rows) ≡ some row)
      × HasTerminalRow "run" ledger row "1")
    × IsAdvanced "Contact|contacts" first_page reconciled_entry.snapshot.checkpoints
        reconciled_entry.snapshot.completed_routes
unfolding reconcile_terminal_batch_pages reconciled advanced_snapshot advance_pages advance_page
    checked_pages page_is_terminal same_set add_route_key durable_route_result_state unique_routes
    add_total add_failed_ids stripped add_failed failed_by_pair failed_source_ids_by_pair
    pair_status_totals pair_le run_rows is_selected normalized_ids terminal_destination_ids
    is_terminal append_to bump count_by pop text_le canonical_route_manifest canonical_rows
    canonical_row source_filter_from_payload mapping_group_key strip lstrip rstrip is_space contains
    any all sort insert_sorted sorted_set insert_set set get get_or filter update
reconcile_terminal_batch_pages-IsTerminal_example =
    reconcile_terminal_batch_pages-IsTerminal "run" ledger (contacts_row ∷ [])
      ("Contact|contacts" ∷ []) stalled_entry reconciled_entry "Contact|contacts" first_page "1"
      (refl, tt) (refl, tt) refl refl refl refl

-- A run on the journal of one process.
abbrev World : Type 0
World = Handle × Journal

abbrev finished_entry : JournalEntry
finished_entry = entry_with ExecutionStatus.running (record empty_snapshot {
  completed_routes = "Contact|contacts" ∷ [];
  route_counts = ("Contact|contacts", (created, 2) ∷ []) ∷ [];
})

abbrev host : ExecutionHost World
host = record {
  load = λ (h, journal). (load h journal, (h, journal));
  save = λ entry (h, journal).
      let (outcome, after) = save h "t1" entry journal in (return outcome, (h, after));
  claim = λ attempt (h, journal).
      let (answer, claimed, after) = claim h "t1" attempt journal in
      (return answer, (claimed, after));
  run_id = "run";
  ledger = λ w. ledger;
  step = λ w. (return (finished_entry, false), w);
  clock = λ w. "t1";
  sleep = λ w. w;
}

abbrev first_attempt : AttemptIdentity
first_attempt = record { attempt_id = "a1"; attempt_number = 1; task_run_id = "task" }

abbrev queued_row : JournalRow
queued_row = record {
  job_id = none;
  attempt_id = none;
  attempt_number = 0;
  task_run_id = none;
  status = ExecutionStatus.queued;
  entry_json = entry_with ExecutionStatus.queued empty_snapshot;
  updated_at = "t0";
}

abbrev queued_run : World
queued_run = (record { run_id = "run"; job_id = none; claimed = none }, ("run", queued_row) ∷ [])

abbrev completed_entry : JournalEntry
completed_entry = value_or finished_entry (run host 3 scope first_attempt none none queued_run).0

run_completes : completed_entry.status ≡ ExecutionStatus.completed
unfolding run claim_and_run run_claimed effective_scope start_job run_job batches round run_batch
    finish_turn report_turn after_save reopened incomplete_routes state_of turn_of reconciled_turn
    progress_marker validated_scope same_dict assemble_continuous_report reported_scope
    selected_route_keys known_incomplete_route_keys is_short processed load save claim
    entry_records_cancellation owned_by_other_job owned_by_other_attempt is_claimable may_claim
    write_entry_sync text_le mark_execution_failed canonical_route_manifest canonical_rows
    canonical_row source_filter_from_payload mapping_group_key strip lstrip rstrip is_space contains
    any all sort insert_sorted sorted_set insert_set set get get_or filter update
run_completes = refl

run-IsOutcome_example : IsOutcome host 3 scope first_attempt none none queued_run completed_entry
unfolding run claim_and_run run_claimed effective_scope start_job run_job batches round run_batch
    finish_turn report_turn after_save reopened incomplete_routes state_of turn_of reconciled_turn
    progress_marker validated_scope same_dict assemble_continuous_report reported_scope
    selected_route_keys known_incomplete_route_keys is_short processed load save claim
    entry_records_cancellation owned_by_other_job owned_by_other_attempt is_claimable may_claim
    write_entry_sync text_le mark_execution_failed canonical_route_manifest canonical_rows
    canonical_row source_filter_from_payload mapping_group_key strip lstrip rstrip is_space contains
    any all sort insert_sorted sorted_set insert_set set get get_or filter update
run-IsOutcome_example =
    run-IsOutcome host 3 scope first_attempt none none completed_entry queued_run refl
