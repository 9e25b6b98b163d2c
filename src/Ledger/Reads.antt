-- ===== src/Ledger/Reads.antt =====
-- The reads of the ledger after a batch of results (runtime/execution/local.py).

use sanka.Prelude.{
  String, ◌≡◌, ◌≢◌, true, ◌&&◌, not, Option, none, some, List, [], ◌∷◌, ◌++◌, map, foldl, arith,
  eq_string, eq_nat, ◌==◌, beq_refl, if◌then◌else◌, filter, contains, contains-filter, inl, inr,
  Bool-cases,
}
use sanka.Prelude.Dict.{get, has, get_last, get-update, Distinct, set-Distinct}
use sanka.Ledger.{
  ResultKey, ResultCell, Table, result_row, eq_key, key_eq_iff, upsert_row, upsert_results,
  terminal_destination_ids, normalized_ids, is_selected,
}
use sanka.Model.{RecordWriteOutcome, eq_status, is_terminal}
use sanka.Ledger.Sticky.{outcome-terminal}
use sanka.Ledger.Merge.{upsert_results-eq}

abbrev pub result_key : String → String → String → String → ResultKey
result_key run_id source_object destination_object id = record {
  run_id = run_id;
  source_object = source_object;
  destination_object = destination_object;
  source_record_id = id;
}

-- The destination id of a terminal row.
abbrev pub terminal_of : Option ResultCell → Option (Option String)
terminal_of none = none
terminal_of (some c) = if is_terminal c.status then some c.destination_record_id else none

contains-normalized_ids :
    (id : String) (ids : List String)
    → contains id (normalized_ids ids) ≡ (not (id == "") && contains id ids)
unfolding contains normalized_ids
contains-normalized_ids id [] = ground arith
contains-normalized_ids id (item ∷ ids) = ground (
  arith,
  contains-normalized_ids id ids,
  contains-filter id (λ other. not (other == item)) (normalized_ids ids),
  eq_string.beq_iff item id,
  eq_string.beq_iff id item,
  eq_string.beq_iff item "",
  eq_string.beq_iff id "",
)

module _ (run_id source_object destination_object id : String) (ids : List String) where
  get_last-selected :
      (table : Table)
      → Distinct table
      → get_last id (
          map
            (λ (k, cell). (k.source_record_id, cell.destination_record_id))
            (filter (is_selected run_id source_object destination_object ids) table))
        ≡ (if contains id ids
            then terminal_of (get (result_key run_id source_object destination_object id) table)
            else none)
  unfolding get_last get filter is_selected
  get_last-selected [] d = ground arith
  get_last-selected ((k, cell) ∷ table) (fresh, d) =
      let key = result_key run_id source_object destination_object id in
      elim (Bool-cases (k == key)) [
        | inl same ↦ ground (
          arith,
          get_last-selected table d,
          (key_eq_iff k key).0 same,
          fresh,
          beq_refl run_id,
          beq_refl source_object,
          beq_refl destination_object,
          beq_refl id,
        )
        | inr other ↦
            ground (arith, get_last-selected table d, eq_string.beq_iff k.source_record_id id)
      ]

-- On a table with unique keys, `terminal_destination_ids` maps an id exactly when it is requested,
-- not empty, and its row has a terminal status; the value is that row's destination id.
pub get-terminal_destination_ids :
    (run_id source_object destination_object id : String) (ids : List String) (table : Table)
    → Distinct table
    → get id (terminal_destination_ids run_id source_object ids destination_object table) ≡ (
        if not (id == "") && contains id ids
        then terminal_of (get (result_key run_id source_object destination_object id) table)
        else none)
unfolding terminal_destination_ids
get-terminal_destination_ids run_id source_object destination_object id ids table d =
    simp (get-update, get-last, contains-normalized_ids) (unfold get in ground arith)
  where
    get-last :
        get_last id (
          map
            (λ (k, cell). (k.source_record_id, cell.destination_record_id))
            (filter
              (is_selected run_id source_object destination_object (normalized_ids ids))
              table))
        ≡ (if contains id (normalized_ids ids)
            then terminal_of (get (result_key run_id source_object destination_object id) table)
            else none)
    get-last =
        get_last-selected run_id source_object destination_object id (normalized_ids ids) table d

pub rows-Distinct :
    (rows : List (ResultKey × ResultCell)) (table : Table)
    → Distinct table
    → Distinct (foldl upsert_row table rows)
unfolding upsert_row
rows-Distinct [] table d = d
rows-Distinct ((k, c) ∷ rows) table d = rows-Distinct rows _ (set-Distinct k _ table d)

-- A batch keeps the keys unique.
pub upsert_results-Distinct :
    (run_id : String) (results : List RecordWriteOutcome) (table : Table)
    → Distinct table
    → Distinct (upsert_results run_id results table).1
upsert_results-Distinct run_id results table d =
    rw upsert_results-eq (rows-Distinct (map (result_row run_id) results) table d)

-- A stored outcome with a terminal status is found by the read that the next pass makes, wherever
-- it stands in its batch: the id is among those that the pass skips.
pub terminal_destination_ids-upsert_results :
    (run_id : String) (xs ys : List RecordWriteOutcome) (outcome : RecordWriteOutcome)
    (ids : List String) (table : Table)
    → Distinct table
    → is_terminal outcome.status ≡ true
    → contains outcome.source_record_id ids ≡ true
    → outcome.source_record_id ≢ ""
    → has outcome.source_record_id (
        terminal_destination_ids run_id outcome.source_object ids outcome.destination_object
          (upsert_results run_id (xs ++ outcome ∷ ys) table).1)
      ≡ true
unfolding has
terminal_destination_ids-upsert_results run_id xs ys outcome ids table d t c n =
    let key =
      result_key run_id outcome.source_object outcome.destination_object outcome.source_record_id in
    let after = (upsert_results run_id (xs ++ outcome ∷ ys) table).1 in
    let (later, e, s) = outcome-terminal run_id xs ys outcome table t in
    ground (
      arith,
      get-terminal_destination_ids run_id outcome.source_object outcome.destination_object
          outcome.source_record_id ids after
          (upsert_results-Distinct run_id (xs ++ outcome ∷ ys) table d),
      e,
      s,
      eq_string.beq_iff outcome.source_record_id "",
    )
