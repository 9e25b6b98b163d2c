-- ===== src/Continuous.antt =====
-- The continuous executor (runtime/execution/continuous.py): the routes that are short of their frozen
-- totals, and how they are opened again.
pub mod Manifest
pub mod Reconcile
pub mod Report
pub mod Host
pub mod Loop
pub mod Run
use sanka.Prelude.{
  ℕ, ◌+◌, String, ◌≡◌, Bool, true, false, ◌&&◌, not, Option, none, some, List, [], ◌∷◌, ◌==◌,
  eq_string, if◌then◌else◌, ltb, filter, contains,
}
use sanka.Prelude.Dict.{Dict, get, get_or, update}
use sanka.Prelude.Text.{strip}
use sanka.Prelude.Sort.{sorted_set}
use sanka.Fault.{Fault, execution_fault, Result, return, raise, ◌>>=◌}
use sanka.Model.{
  WriteStatus, created, updated, skipped, eq_status, BatchPage, ExecutionSnapshot, JournalEntry,
}

-- `sum(counts.get(status, 0) for status in _PROCESSED_STATUSES)`
unfoldable pub processed : Dict WriteStatus ℕ → ℕ
processed counts = get_or created 0 counts + (get_or updated 0 counts + get_or skipped 0 counts)

-- The known total of a route is above what its counts say: an unknown total never is.
unfoldable pub is_short : ExecutionSnapshot → Dict String (Option ℕ) → String → Bool
unfolding processed
is_short snapshot route_totals route_key = elim (get_or route_key none route_totals) [
  | none ↦ false
  | some total ↦ ltb (processed (get_or route_key [] snapshot.route_counts)) total
]

-- `known_incomplete_route_keys` with the frozen totals, as the executor calls it.
unfoldable pub known_incomplete_route_keys :
    ExecutionSnapshot → List String → Dict String (Option ℕ) → List String
unfolding is_short
known_incomplete_route_keys snapshot selected_route_keys route_totals =
    filter (is_short snapshot route_totals) (sorted_set selected_route_keys)

-- `str(text or "").strip()`
unfoldable pub stripped : Option String → String
stripped none = ""
stripped (some text) = strip text

-- `ids[-1]`, or no text where there is none.
unfoldable pub last_id : List String → String
last_id [] = ""
last_id (id ∷ []) = id
last_id (id ∷ next ∷ ids) = last_id (next ∷ ids)

-- The cursor that a route is read again from: its checkpoint, its page's next cursor, its last id.
unfoldable pub resume_cursor : ExecutionSnapshot → String → String
unfolding stripped last_id
resume_cursor snapshot route_key =
    let checkpoint = stripped (get route_key snapshot.checkpoints) in
    if not (checkpoint == "") then checkpoint else elim (get route_key snapshot.batch_pages) [
      | none ↦ ""
      | some page ↦
          let cursor = stripped page.next_cursor in
          if not (cursor == "") then cursor else last_id page.source_record_ids
    ]

abbrev pub no_safe_checkpoint : Fault
no_safe_checkpoint =
    execution_fault "The incomplete Sanka route has no safe keyset checkpoint."
      "SANKA_MIGRATE_SOURCE_CHECKPOINT_MISSING"

-- The loop over the sorted route keys.
unfoldable pub reopened_checkpoints :
    ExecutionSnapshot → Bool → List String → Result (List (String × String))
unfolding resume_cursor
reopened_checkpoints snapshot require_checkpoint [] = return []
reopened_checkpoints snapshot require_checkpoint (route_key ∷ route_keys) =
    let cursor = resume_cursor snapshot route_key in
    if cursor == "" && require_checkpoint
    then raise no_safe_checkpoint
    else reopened_checkpoints snapshot require_checkpoint route_keys >>= λ rest.
        return (if cursor == "" then rest else (route_key, cursor) ∷ rest)

-- `reopen_incomplete_routes`: the snapshot as it leaves it.
unfoldable pub reopen_incomplete_routes :
    ExecutionSnapshot → List String → Bool → Result ExecutionSnapshot
reopen_incomplete_routes snapshot [] require_checkpoint = return snapshot
reopen_incomplete_routes snapshot (key ∷ keys) require_checkpoint =
    reopened_checkpoints snapshot require_checkpoint (sorted_set (key ∷ keys)) >>= λ reopened.
    return (record snapshot {
      checkpoints = update snapshot.checkpoints reopened;
      completed_routes =
          filter (λ route_key. not (contains route_key (key ∷ keys))) snapshot.completed_routes;
      has_more = true;
    })
