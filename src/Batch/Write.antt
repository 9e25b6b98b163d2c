-- ===== src/Batch/Write.antt =====
-- The write phase of `run_batch` (execution/routes.py): what becomes of each record of a page.
pub mod Skips
use Prim.Native.String.{◌++◌ as join}
use sanka.Prelude.{
  ℕ, suc, String, ◌≡◌, Bool, true, false, ◌&&◌, ◌||◌, not, Option, none, some, List, [], ◌∷◌, ◌++◌,
  map, if◌then◌else◌, ◌==◌, eq_string,
}
use sanka.Prelude.Dict.{Dict, get, set, has}
use sanka.Prelude.Text.{decimal}
use sanka.Fault.{Fault, Result, return, raise}
use sanka.Effect.{Eff, pure, throw, catch, ◌>>=◌, and_then}
use sanka.Model.{WriteStatus, failed, skipped}
use sanka.Records.{SourceRecord, WriteOptions, BatchWriteInput, BatchWriteResult, WriteResult}
use sanka.Batch.{
  ExecutionRoute, RecordState, BatchHost, dispatch_write, record_identity, failure_message,
}

-- `on_missing_identity`
pub data OnMissingIdentity : Type 0 where
  fail drop : OnMissingIdentity

-- The state of a record before its write.
abbrev pub fresh_state : SourceRecord → String → RecordState
fresh_state r id = record {
  source_record = r;
  source_record_id = id;
  already_terminal = false;
  destination_record_id = none;
  status = none;
  message = none;
  relationship_failed = false;
  pending_relationships = [];
}

abbrev pub failed_state : RecordState → String → RecordState
failed_state state message = record state {
  destination_record_id = none;
  status = some failed;
  message = some message;
}

-- The state of a record without an identity, the n-th of its page.
abbrev pub unidentified : SourceRecord → ℕ → RecordState
unidentified r n =
    failed_state (fresh_state r (join "missing-identity:" (decimal n)))
      "Source record is missing an identity value."

-- The state of a record that the ledger holds a terminal result for.
abbrev pub terminal_state : SourceRecord → String → Option String → RecordState
terminal_state r id destination_record_id = record {
  source_record = r;
  source_record_id = id;
  already_terminal = true;
  destination_record_id = destination_record_id;
  status = some skipped;
  message = some "Destination record was already written.";
  relationship_failed = false;
  pending_relationships = [];
}

-- `state.status = result.status`, and the other two assignments.
abbrev pub with_result : RecordState → WriteStatus → Option String → Option String → RecordState
with_result state status destination_record_id message = record state {
  destination_record_id = destination_record_id;
  status = some status;
  message = message;
}

-- `{result.trace_id: result for result in batch_results}`
unfoldable pub batch_results_by_trace :
    Dict String BatchWriteResult → List BatchWriteResult → Dict String BatchWriteResult
batch_results_by_trace by_trace [] = by_trace
batch_results_by_trace by_trace (r ∷ results) =
    batch_results_by_trace (set r.trace_id r by_trace) results

-- The loop that gives each unwritten record its result of the batch.
unfoldable pub settle_batch_state :
    Dict String BatchWriteResult → String → RecordState → RecordState
settle_batch_state by_trace batch_error state = elim state.status [
  | some s ↦ state
  | none ↦ elim (get state.source_record_id by_trace) [
    | none ↦ with_result state failed state.destination_record_id (some batch_error)
    | some r ↦ with_result state r.status r.destination_record_id r.message
  ]
]

abbrev pub no_result : String
no_result = "Destination batch did not return a result for this record."

module _ {W : Type 0} (host : BatchHost W) (route : ExecutionRoute) (options : WriteOptions)
    (payload : SourceRecord → Result SourceRecord) where
  -- `write_one` and the lines around it, under the `try`.
  unfoldable pub write_single : RecordState → SourceRecord → Eff W RecordState
  unfolding dispatch_write failure_message
  write_single state properties w =
      let (result, after) =
        dispatch_write host.retry (host.write_record route.destination_object properties options)
          w in
      elim result [
        | raise e ↦ (return (failed_state state (failure_message e)), after)
        | return r ↦ (return (with_result state r.status r.destination_record_id r.message), after)
      ]

  -- The `try` block for a record that is not terminal. With batch writes it only collects the input.
  unfoldable pub write_fresh : RecordState → Eff W (RecordState × List BatchWriteInput)
  unfolding write_single failure_message
  write_fresh state = elim (payload state.source_record) [
    | raise e ↦ pure (failed_state state (failure_message e), [])
    | return properties ↦ elim host.write_records [
      | some write_records ↦
          pure (state, record { trace_id = state.source_record_id; properties = properties } ∷ [])
      | none ↦ do written ← write_single state properties; pure (written, [])
    ]
  ]

  -- One record with an identity, by what the ledger says of it.
  unfoldable pub write_identified :
      SourceRecord → String → Option (Option String) → Eff W (RecordState × List BatchWriteInput)
  unfolding write_fresh
  write_identified r id (some destination_record_id) =
      pure (terminal_state r id destination_record_id, [])
  write_identified r id none = write_fresh (fresh_state r id)

  -- The loop over the page, with the number of records without an identity so far.
  unfoldable pub write_page :
      OnMissingIdentity
      → Dict String (Option String)
      → ℕ
      → List SourceRecord
      → Eff W (List RecordState × List BatchWriteInput)
  unfolding write_identified record_identity
  write_page on_missing terminal missing [] = pure ([], [])
  write_page on_missing terminal missing (r ∷ records) =
      let id = record_identity route.source_identity_field r in
      elim (id == "") [
        | true ↦ elim on_missing [
          | drop ↦ write_page on_missing terminal missing records
          | fail ↦ do
            (states, inputs) ← write_page on_missing terminal (suc missing) records
            pure (unidentified r missing ∷ states, inputs)
        ]
        | false ↦ do
          (state, input) ← write_identified r id (get id terminal)
          (states, inputs) ← write_page on_missing terminal missing records
          pure (state ∷ states, input ++ inputs)
      ]

  -- `if batch_writer is not None and batch_write_inputs: …`
  unfoldable pub write_batch :
      (String → List BatchWriteInput → WriteOptions → Eff W (List BatchWriteResult))
      → List BatchWriteInput
      → List RecordState
      → Eff W (List RecordState)
  unfolding dispatch_write failure_message settle_batch_state batch_results_by_trace
  write_batch write_records [] states = pure states
  write_batch write_records (i ∷ inputs) states = λ w.
      let (result, after) =
        dispatch_write host.retry (write_records route.destination_object (i ∷ inputs) options) w in
      elim result [
        | raise e ↦ (return (map (settle_batch_state [] (failure_message e)) states), after)
        | return results ↦ (
          return (map (settle_batch_state (batch_results_by_trace [] results) no_result) states),
          after,
        )
      ]

  -- The write phase.
  unfoldable pub write_phase :
      OnMissingIdentity → Dict String (Option String) → List SourceRecord → Eff W (List RecordState)
  unfolding write_page write_batch
  write_phase on_missing terminal records = do
    (states, inputs) ← write_page on_missing terminal 0 records
    elim host.write_records [
      | none ↦ pure states
      | some write_records ↦ write_batch write_records inputs states
    ]
