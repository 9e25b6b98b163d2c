-- ===== src/Continuous/Reconcile.antt =====
-- The rebuild of a route's results from the ledger, and the reconciliation of a stalled batch
-- (runtime/execution/continuous.py). The ledger is that of local.py.
pub mod Checked
pub mod Advanced
pub mod Evidence
use sanka.Prelude.{
  ℕ, String, ◌≡◌, Bool, true, false, ◌&&◌, ◌||◌, not, Option, none, some, List, [], ◌∷◌, ◌++◌, ◌==◌,
  eq_string, eq_pair, if◌then◌else◌, filter, any, all, contains, length, eq_nat, map, foldl,
}
use sanka.Prelude.Dict.{Dict, get, get_or, set, pop, update, append_to}
use sanka.Prelude.Text.{strip}
use sanka.Prelude.Sort.{sorted_set}
use sanka.Fault.{Result, return, ◌>>=◌}
use sanka.Model.{
  WriteStatus, created, updated, skipped, failed, eq_status, BatchPage, ExecutionSnapshot,
  ManifestRow, JournalEntry,
}
use sanka.Ledger.{Table, terminal_destination_ids}
use sanka.Ledger.Pairs.{
  PairStatusTotal, PairFailedIds, pair_status_totals, failed_source_ids_by_pair,
}
use sanka.Continuous.{stripped}
use sanka.Continuous.Manifest.{canonical_route_manifest}

-- The routes that are alone with their pair of objects.
unfoldable pub unique_routes : Dict (String × String) (List String) → Dict (String × String) String
unique_routes [] = []
unique_routes ((pair, []) ∷ routes) = unique_routes routes
unique_routes ((pair, key ∷ []) ∷ routes) = (pair, key) ∷ unique_routes routes
unique_routes ((pair, key ∷ next ∷ keys) ∷ routes) = unique_routes routes

-- `dict.fromkeys(_ROUTE_COUNT_STATUSES, 0)`
abbrev no_counts : Dict WriteStatus ℕ
no_counts = (created, 0) ∷ (updated, 0) ∷ (skipped, 0) ∷ (failed, 0) ∷ []

-- One round of the loop over `pair_status_totals`: every status is one of the four counted.
unfoldable pub add_total :
    Dict (String × String) String
    → Dict String (Dict WriteStatus ℕ)
    → PairStatusTotal
    → Dict String (Dict WriteStatus ℕ)
add_total routes counts total = elim (get (total.source_object, total.destination_object) routes) [
  | none ↦ counts
  | some route_key ↦
      if route_key == ""
      then counts
      else set route_key (set total.status total.count (get_or route_key [] counts)) counts
]

abbrev pub not_blank : String → Bool
not_blank id = not (strip id == "")

-- One round of the loop over `failed_source_ids_by_pair`.
unfoldable pub add_failed_ids :
    Dict (String × String) String
    → Dict String (List String)
    → PairFailedIds
    → Dict String (List String)
add_failed_ids routes ids f = elim (get (f.source_object, f.destination_object) routes) [
  | none ↦ ids
  | some route_key ↦
      if route_key == "" then ids else set route_key (filter not_blank f.source_record_ids) ids
]

-- `durable_route_result_state`: with no unique route, neither loop adds anything.
unfoldable pub durable_route_result_state :
    String
    → Table
    → Dict (String × String) (List String)
    → Dict String (Dict WriteStatus ℕ) × Dict String (List String)
unfolding unique_routes add_total add_failed_ids
durable_route_result_state run_id table route_keys_by_pair =
    let routes = unique_routes route_keys_by_pair in
    let keys = map (λ (pair, key). key) routes in
    (
      foldl (add_total routes) (update [] (map (λ key. (key, no_counts)) keys))
          (pair_status_totals run_id table),
      foldl (add_failed_ids routes) (update [] (map (λ key. (key, [])) keys))
          (failed_source_ids_by_pair run_id table),
    )

-- `source_record_ids` of a page, the blank ones left out.
abbrev pub page_ids : BatchPage → List String
page_ids page = filter not_blank page.source_record_ids

-- `set(xs) == set(ys)`
unfoldable pub same_set : List String → List String → Bool
same_set xs ys = all (λ x. contains x ys) xs && all (λ y. contains y xs) ys

-- A page has records, and all have terminal results.
unfoldable pub page_is_terminal : String → Table → ManifestRow → BatchPage → Bool
unfolding same_set
page_is_terminal run_id table row page =
    let ids = page_ids page in
    let terminal =
      terminal_destination_ids run_id row.source_object ids row.destination_object table in
    not (length ids == 0) && same_set (map (λ (id, destination). id) terminal) ids

-- The loop over the batch pages: the checked keys with their pages, or nothing where it gives up.
unfoldable pub checked_pages :
    String
    → Table
    → Dict String ManifestRow
    → List String
    → Dict String BatchPage
    → Option (List (String × BatchPage))
unfolding page_is_terminal
checked_pages run_id table manifest selected [] = some []
checked_pages run_id table manifest selected ((route_key, page) ∷ pages) =
    let rest = checked_pages run_id table manifest selected pages in
    if not (contains route_key selected) then rest else elim (get route_key manifest) [
      | none ↦ none
      | some row ↦
          if page_is_terminal run_id table row page
          then elim rest [ none ↦ none | some checked ↦ some ((route_key, page) ∷ checked) ]
          else none
    ]

-- `route_keys_by_pair` of the selected routes in the manifest.
unfoldable pub add_route_key :
    Dict String ManifestRow
    → Dict (String × String) (List String)
    → String
    → Dict (String × String) (List String)
add_route_key manifest pairs route_key = elim (get route_key manifest) [
  | none ↦ pairs
  | some row ↦ append_to (row.source_object, row.destination_object) route_key pairs
]

-- The evidence of one page: the next cursor, or the end of its route.
unfoldable pub advance_page :
    String
    → BatchPage
    → Dict String String × List String
    → Option (Dict String String × List String)
unfolding stripped
advance_page route_key page (checkpoints, completed_routes) =
    let cursor = stripped page.next_cursor in
    if page.has_more
    then if cursor == "" then none else some (set route_key cursor checkpoints, completed_routes)
    else some (
      pop route_key checkpoints,
      if contains route_key completed_routes
          then completed_routes
          else route_key ∷ completed_routes,
    )

-- The loop over the checked keys.
unfoldable pub advance_pages :
    List (String × BatchPage)
    → Dict String String × List String
    → Option (Dict String String × List String)
unfolding advance_page
advance_pages [] progress = some progress
advance_pages ((route_key, page) ∷ checked) progress = elim (advance_page route_key page progress) [
  | none ↦ none
  | some next ↦ advance_pages checked next
]

-- `manifest_by_key`
abbrev pub manifest_by_key : List ManifestRow → Dict String ManifestRow
manifest_by_key rows = update [] (map (λ row. (row.route_key, row)) rows)

-- From the checked pages on: the failed rows, the loop over the checked keys, and the new snapshot.
unfoldable pub advanced_snapshot :
    Dict String (Dict WriteStatus ℕ) × Dict String (List String)
    → List (String × BatchPage)
    → ExecutionSnapshot
    → Option ExecutionSnapshot
unfolding advance_pages
advanced_snapshot durable [] snapshot = none
advanced_snapshot (durable_counts, durable_failed_ids) (first ∷ others) snapshot =
    let moved = advance_pages (first ∷ others) (snapshot.checkpoints, snapshot.completed_routes) in
    if any (λ (key, page). not (length (get_or key [] durable_failed_ids) == 0)) (first ∷ others)
    then none
    else elim moved [
      | none ↦ none
      | some progress ↦ some (record snapshot {
        checkpoints = progress.0;
        completed_routes = progress.1;
        route_counts = update snapshot.route_counts durable_counts;
        route_failed_record_ids = update snapshot.route_failed_record_ids durable_failed_ids;
        has_more = any (λ (key, page). page.has_more) (first ∷ others);
      })
    ]

-- The whole of a reconciliation on a canonical manifest: the new snapshot, if there is one.
unfoldable pub reconciled :
    String → Table → List ManifestRow → List String → ExecutionSnapshot → Option ExecutionSnapshot
unfolding checked_pages add_route_key durable_route_result_state advanced_snapshot
reconciled run_id table rows selected snapshot =
    let manifest = manifest_by_key rows in
    let keys_by_pair = foldl (add_route_key manifest) [] (sorted_set selected) in
    elim (checked_pages run_id table manifest selected snapshot.batch_pages) [
      | none ↦ none
      | some checked ↦
          advanced_snapshot (durable_route_result_state run_id table keys_by_pair) checked snapshot
    ]

-- `reconcile_terminal_batch_pages`: whether the batch was reconciled, and the entry as it leaves it.
unfoldable pub reconcile_terminal_batch_pages :
    String → Table → List ManifestRow → List String → JournalEntry → Result (Bool × JournalEntry)
unfolding reconciled
reconcile_terminal_batch_pages run_id table route_manifest selected entry =
    if length entry.snapshot.batch_pages == 0
    then return (false, entry)
    else canonical_route_manifest route_manifest >>= λ rows.
        return (elim (reconciled run_id table rows selected entry.snapshot) [
          | none ↦ (false, entry)
          | some snapshot ↦ (true, record entry { snapshot = snapshot })
        ])
