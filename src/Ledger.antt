-- ===== src/Ledger.antt =====
-- The execution ledger of `SqliteExecutionState` (runtime/execution/local.py): the table
-- `execution_results`, its upsert and its reads. One file holds the rows of every run.
pub mod Merge
pub mod Sticky
pub mod Reads
pub mod Log
pub mod Totals
pub mod Pairs
use sanka.Prelude.{
  ℕ, suc, String, ◌≡◌, refl, ◌↔◌, Bool, true, false, ◌&&◌, not, Option, none, some, List, [], ◌∷◌,
  map, foldl, arith, Eq, eq_string, eq_nat, ◌==◌, if◌then◌else◌, length, filter, contains,
}
use sanka.Prelude.Dict.{Dict, get, set, update, count_by}
use sanka.Model.{
  WriteStatus, created, updated, skipped, failed, is_terminal, eq_status, RecordWriteOutcome,
}
use sanka.Fault.{Fault, execution_fault, Result, return, raise}

-- The primary key of `execution_results`.
pub record ResultKey : Type 0 where
  pub run_id : String
  pub source_object : String
  pub destination_object : String
  pub source_record_id : String

abbrev pub key_eq : ResultKey → ResultKey → Bool
key_eq a b =
    a.run_id == b.run_id
    && (a.source_object == b.source_object
        && (a.destination_object == b.destination_object
            && a.source_record_id == b.source_record_id))

pub key_eq_iff : (a b : ResultKey) → (key_eq a b ≡ true) ↔ (a ≡ b)
key_eq_iff a b = ground (
  arith,
  eq_string.beq_iff a.run_id b.run_id,
  eq_string.beq_iff a.source_object b.source_object,
  eq_string.beq_iff a.destination_object b.destination_object,
  eq_string.beq_iff a.source_record_id b.source_record_id,
)

instance abbrev pub eq_key : Eq ResultKey
eq_key = record { beq = key_eq; beq_iff = key_eq_iff }

-- The other columns.
pub record ResultCell : Type 0 where
  pub destination_record_id : Option String
  pub status : WriteStatus
  pub message : Option String

abbrev pub Table : Type 0
Table = Dict ResultKey ResultCell

-- SQL's `COALESCE` of two values.
abbrev pub coalesce : Option String → Option String → Option String
coalesce none b = b
coalesce (some a) b = some a

-- `ON CONFLICT … DO UPDATE SET` of `_UPSERT_RESULTS_SQL`: the row that is there, and the excluded one.
unfoldable pub on_conflict : ResultCell → ResultCell → ResultCell
unfolding is_terminal
on_conflict row excluded = record {
  destination_record_id = coalesce excluded.destination_record_id row.destination_record_id;
  status = if is_terminal row.status then row.status else excluded.status;
  message =
      if is_terminal row.status && excluded.status == failed then row.message else excluded.message;
}

-- One execution of `_UPSERT_RESULTS_SQL`.
unfoldable pub upsert_row : Table → ResultKey × ResultCell → Table
upsert_row table (k, excluded) =
    set k (elim (get k table) [ none ↦ excluded | some row ↦ on_conflict row excluded ]) table

-- `_upsert_rows_sync`: every execution changes one row, and `rowcount` is their sum.
unfoldable pub upsert_rows_sync : List (ResultKey × ResultCell) → Table → ℕ × Table
unfolding upsert_row
upsert_rows_sync rows table = (length rows, foldl upsert_row table rows)

-- The parameters that `upsert_results` binds for one outcome.
abbrev pub result_row : String → RecordWriteOutcome → ResultKey × ResultCell
result_row run_id outcome = (
  record {
    run_id = run_id;
    source_object = outcome.source_object;
    destination_object = outcome.destination_object;
    source_record_id = outcome.source_record_id;
  },
  record {
    destination_record_id = outcome.destination_record_id;
    status = outcome.status;
    message = outcome.message;
  },
)

abbrev pub bulk_save_incomplete : Fault
bulk_save_incomplete =
    execution_fault "Sanka did not persist every destination result in the current batch."
      "SANKA_MIGRATE_RECORD_RESULT_BULK_SAVE_INCOMPLETE"

-- `upsert_results`: nothing for no result; a shortfall of persisted rows fails closed.
unfoldable pub upsert_results : String → List RecordWriteOutcome → Table → Result ℕ × Table
unfolding upsert_rows_sync
upsert_results run_id [] table = (return 0, table)
upsert_results run_id (outcome ∷ rest) table =
    let results = outcome ∷ rest in
    let (persisted, after) = upsert_rows_sync (map (result_row run_id) results) table in
    (if persisted == length results then return persisted else raise bulk_save_incomplete, after)

-- `list(dict.fromkeys(str(item) for item in ids if str(item)))`
unfoldable pub normalized_ids : List String → List String
normalized_ids [] = []
normalized_ids (item ∷ ids) =
    let rest = normalized_ids ids in
    if item == "" then rest else item ∷ filter (λ other. not (other == item)) rest

-- The `WHERE` clause of `terminal_destination_ids`.
unfoldable pub is_selected : String → String → String → List String → ResultKey × ResultCell → Bool
unfolding is_terminal
is_selected run_id source_object destination_object ids (k, cell) =
    k.run_id == run_id
    && (k.source_object == source_object
        && (k.destination_object == destination_object
            && (contains k.source_record_id ids && is_terminal cell.status)))

-- `terminal_destination_ids`
unfoldable pub terminal_destination_ids :
    String → String → List String → String → Table → Dict String (Option String)
unfolding is_selected normalized_ids
terminal_destination_ids run_id source_object source_record_ids destination_object table =
    let ids = normalized_ids source_record_ids in
    update [] (
      map (λ (k, cell). (k.source_record_id, cell.destination_record_id))
        (filter (is_selected run_id source_object destination_object ids) table))

-- The rows of one run, `WHERE run_id = ?`.
unfoldable pub run_rows : String → Table → Table
run_rows run_id = filter (λ (k, cell). k.run_id == run_id)

-- `status_totals`
unfoldable pub status_totals : String → Table → Dict WriteStatus ℕ
unfolding run_rows
status_totals run_id table = count_by [] (map (λ (k, cell). cell.status) (run_rows run_id table))
