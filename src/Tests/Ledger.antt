-- ===== src/Tests/Ledger.antt =====
-- Examples of the ledger's theorems.
use sanka.Prelude.{
  String, ◌≡◌, ◌≢◌, refl, true, Option, none, some, List, [], ◌∷◌, ◌++◌, arith, eq_string, contains,
  any, filter, length,
}
use sanka.Prelude.Dict.{get, has, get_or}
use sanka.Model.{WriteStatus, created, updated, failed, is_terminal, eq_status, RecordWriteOutcome}
use sanka.Ledger.{
  ResultKey, ResultCell, Table, eq_key, upsert_results, terminal_destination_ids, status_totals,
}
use sanka.Ledger.Merge.{upsert_results_resume}
use sanka.Ledger.Sticky.{Holds, terminal_sticky}
use sanka.Ledger.Reads.{result_key, terminal_destination_ids-upsert_results}
use sanka.Ledger.Merge.{cells_for}
use sanka.Ledger.Log.{
  History, recorded, history_rows, last_destination, terminal_destination_ids_log,
}
use sanka.Ledger.Totals.{is_about, is_counted, upsert_results_ne, status_totals-count}
use sanka.Ledger.Pairs.{failed_source_ids_by_pair}
use sanka.Ledger.Pairs.FailedIds.{lists, is_failed_row, failed_source_ids_by_pair-lists}

abbrev contact : String → WriteStatus → Option String → RecordWriteOutcome
contact id status destination = record {
  source_object = "Contact";
  source_record_id = id;
  destination_object = "contacts";
  destination_record_id = destination;
  status = status;
  message = none;
}

abbrev first_contact : ResultKey
first_contact = result_key "run" "Contact" "contacts" "1"

abbrev created_row : ResultCell
created_row = record { destination_record_id = some "d1"; status = created; message = none }

-- One record was created.
abbrev pub one_created : Table
one_created = (first_contact, created_row) ∷ []

abbrev late_failure : List RecordWriteOutcome
late_failure = contact "1" failed none ∷ contact "2" failed none ∷ []

terminal_sticky_example :
    Holds first_contact created_row (upsert_results "run" late_failure one_created).1
unfolding get is_terminal
terminal_sticky_example =
    terminal_sticky first_contact created_row (("run", late_failure) ∷ []) one_created refl refl

upsert_results_resume_example :
    get first_contact
      (upsert_results "run"
        (late_failure ++ contact "3" created none ∷ [])
        (upsert_results "run" late_failure one_created).1).1
    ≡ get first_contact
        (upsert_results "run" (late_failure ++ contact "3" created none ∷ []) one_created).1
upsert_results_resume_example =
    upsert_results_resume "run" late_failure (contact "3" created none ∷ []) one_created
      first_contact

-- A record that was created, and then failed in a later batch.
abbrev created_then_failed : History
created_then_failed = ("run", contact "1" created (some "d1") ∷ []) ∷ ("run", late_failure) ∷ []

terminal_destination_ids_log_example :
    get "1" (
      terminal_destination_ids "run" "Contact" ("1" ∷ []) "contacts" (recorded created_then_failed))
    ≡ some (some "d1")
unfolding contains is_terminal cells_for history_rows any last_destination
terminal_destination_ids_log_example =
    terminal_destination_ids_log created_then_failed "run" "Contact" "contacts" "1" ("1" ∷ [])

terminal_destination_ids-upsert_results_example :
    has "3" (
      terminal_destination_ids "run" "Contact"
        ("3" ∷ [])
        "contacts"
        (upsert_results "run" (late_failure ++ contact "3" updated none ∷ []) one_created).1)
    ≡ true
unfolding get is_terminal contains
terminal_destination_ids-upsert_results_example =
    terminal_destination_ids-upsert_results "run" late_failure [] (contact "3" updated none)
      ("3" ∷ []) one_created (refl, tt) refl refl (ground (arith, eq_string.beq_iff "3" ""))

other_run : (k : ResultKey) → k.run_id ≡ "other" → k ≢ first_contact
other_run k e = ground (arith, eq_string.beq_iff "other" "run")

upsert_results_ne_example :
    get first_contact (upsert_results "other" late_failure one_created).1
    ≡ get first_contact one_created
unfolding any is_about
upsert_results_ne_example = upsert_results_ne "other" late_failure one_created first_contact refl

-- The rows of two runs.
abbrev two_runs : Table
two_runs = (upsert_results "other" late_failure one_created).1

status_totals-count_example :
    get_or failed 0 (status_totals "other" two_runs)
    ≡ length (filter (is_counted "other" failed) two_runs)
status_totals-count_example = status_totals-count "other" failed two_runs

failed_source_ids_by_pair-lists_example :
    any (lists "Contact" "contacts" "1") (failed_source_ids_by_pair "run" one_created)
    ≡ is_failed_row (get first_contact one_created)
unfolding get
failed_source_ids_by_pair-lists_example =
    failed_source_ids_by_pair-lists "Contact" "contacts" "1" "run" one_created (refl, tt)
