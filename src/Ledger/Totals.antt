-- ===== src/Ledger/Totals.antt =====
-- The rows of a run and its totals per status (runtime/execution/local.py).
use sanka.Prelude.{
  String, ◌≡◌, ◌≢◌, refl, ap, Bool, false, ◌&&◌, ◌==◌, any, filter, none, some, List, [], ◌∷◌, map,
  foldl, arith, eq_string, eq_nat, length, All,
}
use sanka.Prelude.Dict.{get, get-set, get_or, count, get_or-count_by}
use sanka.Ledger.{
  ResultKey, ResultCell, Table, result_row, eq_key, key_eq_iff, on_conflict, upsert_row,
  upsert_results, run_rows, status_totals,
}
use sanka.Model.{RecordWriteOutcome, WriteStatus, eq_status}
use sanka.Ledger.Merge.{upsert_results-eq}

rows_ne :
    (k : ResultKey) (rows : List (ResultKey × ResultCell)) (table : Table)
    → All (λ r. r.0 ≢ k) rows
    → get k (foldl upsert_row table rows) ≡ get k table
unfolding upsert_row
rows_ne k [] table h = refl
rows_ne k ((j, c) ∷ rows) table (other, h) = ground (
  arith,
  rows_ne k rows (upsert_row table (j, c)) h,
  get-set j k (elim (get j table) [ none ↦ c | some r ↦ on_conflict r c ]) table,
  key_eq_iff j k,
)

-- A key is of the record that an outcome of a run is about.
unfoldable pub is_about : String → ResultKey → RecordWriteOutcome → Bool
is_about run_id k outcome =
    k.run_id == run_id
    && (k.source_object == outcome.source_object
        && (k.destination_object == outcome.destination_object
            && k.source_record_id == outcome.source_record_id))

keys_ne :
    (run_id : String) (k : ResultKey) (results : List RecordWriteOutcome)
    → any (is_about run_id k) results ≡ false
    → All (λ r. r.0 ≢ k) (map (result_row run_id) results)
unfolding any is_about
keys_ne run_id k [] h = tt
keys_ne run_id k (o ∷ results) h =
    (λ same. absurd (key_eq_absurd same), keys_ne run_id k results (ground arith))
  where
    key_eq_absurd : (result_row run_id o).0 ≡ k → ⊥
    key_eq_absurd same = ground (
      arith,
      ap (λ (j : ResultKey). j.run_id) same,
      ap (λ (j : ResultKey). j.source_object) same,
      ap (λ (j : ResultKey). j.destination_object) same,
      ap (λ (j : ResultKey). j.source_record_id) same,
      eq_string.beq_iff k.run_id run_id,
      eq_string.beq_iff k.source_object o.source_object,
      eq_string.beq_iff k.destination_object o.destination_object,
      eq_string.beq_iff k.source_record_id o.source_record_id,
    )

-- A batch of a run leaves the row of a key alone unless one of its outcomes is about the key's record:
-- rows of other runs, of other source or destination objects, and of other records stay as they are.
pub upsert_results_ne :
    (run_id : String) (results : List RecordWriteOutcome) (table : Table) (k : ResultKey)
    → any (is_about run_id k) results ≡ false
    → get k (upsert_results run_id results table).1 ≡ get k table
upsert_results_ne run_id results table k h =
    rw upsert_results-eq
      (rows_ne k (map (result_row run_id) results) table (keys_ne run_id k results h))

-- A row is of the run and has the status.
unfoldable pub is_counted : String → WriteStatus → ResultKey × ResultCell → Bool
is_counted run_id status (k, cell) = k.run_id == run_id && cell.status == status

count-run_rows :
    (run_id : String) (status : WriteStatus) (table : Table)
    → count status (map (λ (e : ResultKey × ResultCell). e.1.status) (run_rows run_id table))
      ≡ length (filter (is_counted run_id status) table)
unfolding count run_rows filter is_counted
count-run_rows run_id status [] = refl
count-run_rows run_id status ((k, cell) ∷ table) =
    ground (arith, count-run_rows run_id status table)

-- The total that `status_totals` gives a status is the number of the table's rows that are of the run
-- and have the status, and 0 where it gives none.
pub status_totals-count :
    (run_id : String) (status : WriteStatus) (table : Table)
    → get_or status 0 (status_totals run_id table)
      ≡ length (filter (is_counted run_id status) table)
unfolding status_totals get_or get
status_totals-count run_id status table =
    simp get_or-count_by (omega (arith, count-run_rows run_id status table))
