-- ===== src/Ledger/Pairs.antt =====
-- The reads of the ledger by pair of objects (runtime/execution/local.py, `pair_status_totals` and
-- `failed_source_ids_by_pair`).
pub mod FailedIds
use sanka.Prelude.{
  ℕ, String, ◌≡◌, Bool, true, false, ◌&&◌, Option, none, some, List, [], ◌∷◌, ◌++◌, map,
  if◌then◌else◌, ◌==◌, eq_string, eq_pair, filter, contains,
}
use sanka.Prelude.Dict.{Dict, get, set, get_or, count_by}
use sanka.Prelude.Text.{text_le}
use sanka.Prelude.Sort.{sort}
use sanka.Model.{WriteStatus, created, updated, skipped, failed, eq_status}
use sanka.Ledger.{ResultKey, ResultCell, Table, run_rows}

-- `PairStatusTotal` and `PairFailedIds` of execution/model.py.
pub record PairStatusTotal : Type 0 where
  pub source_object : String
  pub destination_object : String
  pub status : WriteStatus
  pub count : ℕ

pub record PairFailedIds : Type 0 where
  pub source_object : String
  pub destination_object : String
  pub source_record_ids : List String

-- The text of a status, by which rows are ordered.
abbrev status_text : WriteStatus → String
status_text created = "created"
status_text updated = "updated"
status_text skipped = "skipped"
status_text failed = "failed"

-- The order of pairs of texts: by the first, then by the second.
unfoldable pub pair_le : String × String → String × String → Bool
pair_le (a, b) (c, d) = if a == c then text_le b d else text_le a c

abbrev total_le : PairStatusTotal → PairStatusTotal → Bool
total_le a b =
    if a.source_object == b.source_object && a.destination_object == b.destination_object
    then text_le (status_text a.status) (status_text b.status)
    else pair_le (a.source_object, a.destination_object) (b.source_object, b.destination_object)

abbrev group_of : ResultKey × ResultCell → (String × String) × WriteStatus
group_of (k, cell) = ((k.source_object, k.destination_object), cell.status)

abbrev total_of : ((String × String) × WriteStatus) × ℕ → PairStatusTotal
total_of (((source_object, destination_object), status), count) = record {
  source_object = source_object;
  destination_object = destination_object;
  status = status;
  count = count;
}

-- `pair_status_totals`
unfoldable pub pair_status_totals : String → Table → List PairStatusTotal
pair_status_totals run_id table =
    sort total_le (map total_of (count_by [] (map group_of (run_rows run_id table))))

-- `failed.setdefault(pair, set()).add(id)`
unfoldable pub add_failed :
    ResultKey → Dict (String × String) (List String) → Dict (String × String) (List String)
add_failed k failed_ids =
    let pair : String × String = (k.source_object, k.destination_object) in
    let ids = get_or pair [] failed_ids in
    set pair (if contains k.source_record_id ids then ids else ids ++ k.source_record_id ∷ [])
      failed_ids

-- The loop over the failed rows.
unfoldable pub failed_by_pair :
    Dict (String × String) (List String) → Table → Dict (String × String) (List String)
unfolding add_failed
failed_by_pair failed_ids [] = failed_ids
failed_by_pair failed_ids ((k, cell) ∷ rows) = failed_by_pair (add_failed k failed_ids) rows

-- The rows of a run with the status "failed".
abbrev pub failed_rows : String → Table → Table
failed_rows run_id table = filter (λ (k, cell). cell.status == failed) (run_rows run_id table)

abbrev pub failed_of : (String × String) × List String → PairFailedIds
failed_of ((source_object, destination_object), ids) = record {
  source_object = source_object;
  destination_object = destination_object;
  source_record_ids = ids;
}

-- `failed_source_ids_by_pair`
unfoldable pub failed_source_ids_by_pair : String → Table → List PairFailedIds
unfolding failed_by_pair pair_le
failed_source_ids_by_pair run_id table =
    map failed_of (sort (λ a b. pair_le a.0 b.0) (failed_by_pair [] (failed_rows run_id table)))
