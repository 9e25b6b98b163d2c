-- ===== src/Tests/Batch.antt =====
-- Examples of the theorems on a batch, over a host that keeps its results in the ledger's table.
use sanka.Prelude.{
  String, ◌≡◌, refl, Bool, false, Option, none, some, List, [], ◌∷◌, arith, contains, eq_string,
  filter, length, ◌+◌, ◌&&◌, any,
}
use sanka.Prelude.Dict.{Dict, get, set, get_or, has, update}
use sanka.Fault.{return}
use sanka.Effect.{Eff, pure}
use sanka.Value.{text, text_or_empty, field_value}
use sanka.Model.{created, eq_status, ExecutionSnapshot, empty_snapshot}
use sanka.Ledger.{Table, upsert_results, terminal_destination_ids}
use sanka.Ledger.Reads.{result_key}
use sanka.Records.{SourceRecord, ConflictPolicy, InvalidEmailPolicy, WriteOptions, RecordPage}
use sanka.Mapping.Owner.{MissingOwnerPolicy}
use sanka.Scope.{ExactIdScope, verify_candidate_hash, candidate_hash_mismatch}
use sanka.Batch.{ExecutionRoute, RecordState, BatchHost}
use sanka.Batch.Write.{OnMissingIdentity, write_phase, fresh_state, with_result, failed_state}
use sanka.Batch.Write.Skips.{is_unwritten, write_phase_new}
use sanka.Batch.Settle.{RouteTally, tally_states, repair_states}
use sanka.Batch.Settle.Counters.{
  CountsFailed, tally_states-CountsFailed, tally_states-get, is_new, contains-tally_states,
  ends_failed,
}
use sanka.Batch.Settle.Progress.{counts_as_failed, last_settled, tally_states-last_settled}
use sanka.Batch.Settle.Repair.{Pairwise, IsRepaired, repair_states-IsRepaired}
use sanka.Batch.Config.{BatchConfig, start_progress, has_cursor}
use sanka.Batch.Run.{run_batch, finish_round}
use sanka.Batch.Run.Invariants.{FailedCounted, Keeps, run_batch-FailedCounted, run_batch-raise}
use sanka.Batch.Run.Coverage.{Covered, finish_round-Covered}
use sanka.Batch.Run.Done.{AllComplete, run_batch-AllComplete}
use sanka.Batch.Parked.{route_state, ◌>>=◌}
use sanka.Mapping.Pending.{retry_pending_relationships}
use sanka.Mapping.Field.{last_part}
use sanka.Prelude.Text.{strip, is_space}
use sanka.Prelude.Sort.{sorted_set}
use sanka.Tests.Ledger.{one_created}
use sanka.Tests.Mapping.{email_field, source_contact, link_host, plain, never, same_text}

-- A source with one page, a destination that creates each record, and a ledger in a table.
abbrev pub table_host : BatchHost Table
table_host = record {
  links = link_host;
  terminal_destination_ids = λ source ids destination table.
      (return (terminal_destination_ids "run" source ids destination table), table);
  upsert_results = upsert_results "run";
  record_failed = λ key source id table. table;
  read_records = λ request. pure (record {
    object_key = "Contact";
    records = source_contact ∷ [];
    next_cursor = none;
    has_more = false;
  });
  read_records_bounded = none;
  write_record = λ object properties options.
      pure (record { status = created; destination_record_id = some "d1"; message = none });
  write_records = none;
  list_owners = none;
  list_source_owners = none;
  retry = none;
}

abbrev pub contacts : ExecutionRoute
contacts = record {
  route_key = "Contact|contacts";
  source_object = "Contact";
  destination_object = "contacts";
  source_filter = none;
  fields = email_field ∷ [];
  source_identity_field = none;
}

abbrev pub config : Option ExactIdScope → BatchConfig
config scope = record {
  policies = record {
    conflict_policy = ConflictPolicy.create;
    missing_owner_policy = MissingOwnerPolicy.block;
    fallback_owner_email = none;
    invalid_email_policy = InvalidEmailPolicy.block;
    invalid_email_audit_field = none;
  };
  batch_size = 50;
  route_high_water_marks = none;
  exact_scope = scope;
  on_missing_identity = OnMissingIdentity.fail;
}

abbrev pub no_hash : Dict String (List String) → String
no_hash candidates = ""

abbrev run_contacts : Option ExactIdScope → Eff (Table × ExecutionSnapshot) Bool
run_contacts scope =
    run_batch plain never same_text table_host (config scope) no_hash (contacts ∷ [])

-- The ledger holds a terminal result for the contact of the page.
abbrev pub written_table : Table
written_table = one_created

contacts_done : (run_contacts none (written_table, empty_snapshot)).0 ≡ return false
unfolding run_batch ◌>>=◌ any contains retry_pending_relationships filter get_or get set strip
    text_or_empty field_value is_space terminal_destination_ids update last_part upsert_results
contacts_done = refl

run_batch-AllComplete_example :
    AllComplete (contacts ∷ []) (run_contacts none (written_table, empty_snapshot)).1.1
run_batch-AllComplete_example =
    run_batch-AllComplete table_host plain never same_text (config none) no_hash (contacts ∷ [])
      written_table empty_snapshot contacts_done

nothing_counted : FailedCounted empty_snapshot
unfolding route_state get_or get
nothing_counted key = (refl, tt)

run_batch-FailedCounted_example :
    FailedCounted (run_contacts none (written_table, empty_snapshot)).1.1
run_batch-FailedCounted_example =
    run_batch-FailedCounted plain never same_text table_host (config none) no_hash (contacts ∷ [])
      written_table empty_snapshot nothing_counted

-- A scope whose approved hash is another.
abbrev drifted : ExactIdScope
drifted = record {
  route_manifest = [];
  selected_route_keys = [];
  candidate_ids_by_route = [];
  candidate_hash = "approved";
}

run_batch-raise_example :
    Keeps empty_snapshot (run_contacts (some drifted) (written_table, empty_snapshot)).1.1
unfolding run_batch ◌>>=◌ verify_candidate_hash
run_batch-raise_example =
    run_batch-raise plain never same_text table_host (config (some drifted)) no_hash (contacts ∷ [])
      written_table empty_snapshot candidate_hash_mismatch refl

abbrev last_page : RecordPage
last_page = record { object_key = "Contact"; records = []; next_cursor = none; has_more = false }

abbrev fresh_tally : RouteTally
fresh_tally = record {
  counts = [];
  failed_ids = [];
  pending_ids = [];
  last_terminal_cursor = none;
  batch_failed = false;
}

finish_round-Covered_example :
    (fresh_tally.batch_failed ≡ false)
    × (((last_page.has_more && has_cursor last_page.next_cursor) ≡ false)
        × Covered table_host contacts ("1" ∷ []) written_table)
unfolding finish_round contains ◌>>=◌ filter sorted_set has get terminal_destination_ids update set
finish_round-Covered_example =
    finish_round-Covered table_host contacts ("1" ∷ []) last_page fresh_tally start_progress
      written_table empty_snapshot refl refl

abbrev options : WriteOptions
options = record {
  conflict_policy = ConflictPolicy.create;
  identity_fields = "email" ∷ [];
  invalid_email_policy = InvalidEmailPolicy.block;
  invalid_email_audit_field = none;
}

-- A contact that the ledger does not hold, beside one that it does.
abbrev mixed_page : List SourceRecord
mixed_page = source_contact ∷ (("Id", text "2") ∷ []) ∷ []

write_phase_new_example :
    (states : List RecordState) × (write_phase table_host contacts options return
        OnMissingIdentity.fail
        (("1", some "d1") ∷ [])
        mixed_page
        written_table
      ≡ (
        return states,
        (write_phase table_host contacts options return OnMissingIdentity.fail
            (("1", some "d1") ∷ [])
            (filter (is_unwritten contacts (("1", some "d1") ∷ [])) mixed_page)
            written_table).1,
      ))
write_phase_new_example =
    write_phase_new table_host contacts options return OnMissingIdentity.fail
      (("1", some "d1") ∷ []) mixed_page written_table

abbrev created_state : RecordState
created_state = with_result (fresh_state source_contact "1") created (some "d1") none

abbrev refused_state : RecordState
refused_state = failed_state (fresh_state source_contact "2") "refused"

abbrev page_states : List RecordState
page_states = created_state ∷ refused_state ∷ created_state ∷ []

tally_states-CountsFailed_example : CountsFailed (tally_states page_states fresh_tally)
unfolding get_or get
tally_states-CountsFailed_example = tally_states-CountsFailed page_states fresh_tally (refl, tt)

tally_states-get_example :
    get_or created 0 (tally_states page_states fresh_tally).counts
    ≡ get_or created 0 fresh_tally.counts + length (filter (is_new created) page_states)
tally_states-get_example = tally_states-get created page_states fresh_tally (ground arith)

contains-tally_states_example :
    contains "2" (tally_states page_states fresh_tally).failed_ids
    ≡ ends_failed (contains "2" fresh_tally.failed_ids) "2" page_states
contains-tally_states_example = contains-tally_states "2" page_states fresh_tally

tally_states-last_settled_example :
    ((tally_states page_states fresh_tally).batch_failed ≡ any counts_as_failed page_states)
    × ((tally_states page_states fresh_tally).last_terminal_cursor
        ≡ last_settled fresh_tally.last_terminal_cursor page_states)
tally_states-last_settled_example = tally_states-last_settled page_states fresh_tally refl

-- The second contact was committed by another attempt.
abbrev committed_table : Table
committed_table =
    (
      result_key "run" "Contact" "contacts" "2",
      record { destination_record_id = some "d2"; status = created; message = none },
    )
    ∷ []

repair_states-IsRepaired_example :
    Pairwise (IsRepaired "run" "Contact" "contacts" committed_table ("1" ∷ "2" ∷ [])) page_states (
      repair_states
        (terminal_destination_ids "run" "Contact" ("1" ∷ "2" ∷ []) "contacts" committed_table)
        page_states)
unfolding get
repair_states-IsRepaired_example =
    repair_states-IsRepaired "run" "Contact" "contacts" committed_table ("1" ∷ "2" ∷ []) page_states
      (refl, tt)
