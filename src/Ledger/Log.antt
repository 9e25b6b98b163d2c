-- ===== src/Ledger/Log.antt =====
-- The ledger of local.py as a log: what its upserts make of the outcomes of one record.
use mathlib.Core.List.{foldl-append}
use sanka.Prelude.{
  String, ◌≡◌, refl, Bool, ◌&&◌, not, Option, none, some, List, [], ◌∷◌, ◌++◌, map, foldl, arith,
  eq_string, ◌==◌, if◌then◌else◌, any, contains,
}
use sanka.Prelude.Dict.{get, Distinct}
use sanka.Ledger.{
  ResultKey, ResultCell, Table, result_row, eq_key, on_conflict, upsert_row, upsert_results,
  terminal_destination_ids,
}
use sanka.Model.{RecordWriteOutcome, is_terminal}
use sanka.Ledger.Merge.{absorb, absorb-some, cells_for, get-upsert_rows, upsert_results-eq}
use sanka.Ledger.Reads.{result_key, terminal_of, get-terminal_destination_ids, rows-Distinct}

-- The batches of results of any runs, in the order of their writes.
abbrev pub History : Type 0
History = List (String × List RecordWriteOutcome)

-- The table that they leave of an empty one.
abbrev pub recorded : History → Table
recorded = foldl (λ t b. (upsert_results b.0 b.1 t).1) []

-- All rows of a history.
unfoldable pub history_rows : History → List (ResultKey × ResultCell)
history_rows [] = []
history_rows ((run_id, results) ∷ history) = map (result_row run_id) results ++ history_rows history

-- The log of a record: its outcomes in order.
abbrev pub log_of : ResultKey → History → List ResultCell
log_of k history = cells_for k (history_rows history)

-- Some outcome of the log was terminal.
abbrev pub is_done : List ResultCell → Bool
is_done = any (λ cell. is_terminal cell.status)

-- The last destination id that is known.
unfoldable pub last_destination : List ResultCell → Option String
last_destination [] = none
last_destination (cell ∷ log) =
    let later = last_destination log in
    elim later [ none ↦ cell.destination_record_id | some id ↦ some id ]

merged-is_done :
    (c : ResultCell) (log : List ResultCell)
    → is_terminal (foldl on_conflict c log).status ≡ is_done (c ∷ log)
unfolding any on_conflict
merged-is_done c [] = ground arith
merged-is_done c (d ∷ log) = ground (arith, merged-is_done (on_conflict c d) log)

merged-last_destination :
    (c : ResultCell) (log : List ResultCell)
    → (foldl on_conflict c log).destination_record_id ≡ last_destination (c ∷ log)
unfolding last_destination on_conflict
merged-last_destination c [] = ground arith
merged-last_destination c (d ∷ log) = ground (arith, merged-last_destination (on_conflict c d) log)

terminal_of-absorb :
    (log : List ResultCell)
    → terminal_of (absorb none log) ≡ (if is_done log then some (last_destination log) else none)
terminal_of-absorb [] = unfold any in refl
terminal_of-absorb (c ∷ log) =
    ground (arith, absorb-some c log, merged-is_done c log, merged-last_destination c log)

recorded-rows :
    (history : History) (table : Table)
    → foldl (λ t b. (upsert_results b.0 b.1 t).1) table history
      ≡ foldl upsert_row table (history_rows history)
unfolding history_rows
recorded-rows [] table = refl
recorded-rows ((run_id, results) ∷ history) table =
    simp (foldl-append, upsert_results-eq)
      (recorded-rows history (foldl upsert_row table (map (result_row run_id) results)))

-- The ledger implements the log of its outcomes: after any batches of any runs on an empty file,
-- `terminal_destination_ids` answers for an id exactly when the id is requested, not empty, and some
-- outcome of its record in that run was terminal, however often it failed before or after; and the
-- answer is the last destination id that an outcome of the record named.
pub terminal_destination_ids_log :
    (history : History) (run_id source_object destination_object id : String) (ids : List String)
    → get id
        (terminal_destination_ids run_id source_object ids destination_object (recorded history))
      ≡ (if not (id == "")
            && (contains id ids
                && is_done (log_of (result_key run_id source_object destination_object id) history))
          then some (
              last_destination
                (log_of (result_key run_id source_object destination_object id) history))
          else none)
unfolding get
terminal_destination_ids_log history run_id source_object destination_object id ids =
    let k = result_key run_id source_object destination_object id in
    ground (
      arith,
      get-terminal_destination_ids run_id source_object destination_object id ids (recorded history)
          recorded-Distinct,
      row,
      terminal_of-absorb (log_of k history),
    )
  where
    recorded-Distinct : Distinct (recorded history)
    recorded-Distinct = rw (recorded-rows history []) (rows-Distinct (history_rows history) [] tt)

    row :
        get (result_key run_id source_object destination_object id) (recorded history)
        ≡ absorb none (log_of (result_key run_id source_object destination_object id) history)
    row = rw (recorded-rows history []) (
        get-upsert_rows (result_key run_id source_object destination_object id)
          (history_rows history) [])
