-- ===== src/Continuous/Reconcile/Evidence.antt =====
-- What a reconciliation rests on (runtime/execution/continuous.py,
-- `reconcile_terminal_batch_pages`).
use sanka.Prelude.{
  ℕ, String, ◌≡◌, true, some, List, [], ◌∷◌, eq_string, arith, inl, inr, Option-cases, contains,
  foldl,
}
use sanka.Prelude.Dict.{Dict, get, Distinct}
use sanka.Prelude.Sort.{sorted_set}
use sanka.Fault.{return, Result-cases}
use sanka.Model.{WriteStatus, BatchPage, ExecutionSnapshot, ManifestRow, JournalEntry}
use sanka.Ledger.{Table, eq_key}
use sanka.Continuous.Manifest.{canonical_route_manifest}
use sanka.Continuous.Reconcile.{
  page_ids, checked_pages, manifest_by_key, advance_pages, advanced_snapshot, add_route_key,
  durable_route_result_state, reconciled, reconcile_terminal_batch_pages,
}
use sanka.Continuous.Reconcile.Checked.{
  HasTerminalRow, page_is_terminal_row, checked_pages-Distinct, checked_pages_sound,
}
use sanka.Continuous.Reconcile.Advanced.{IsAdvanced, advance_pages-IsAdvanced}

advanced_snapshot-progress :
    (durable : Dict String (Dict WriteStatus ℕ) × Dict String (List String))
    (checked : List (String × BatchPage)) (snapshot after : ExecutionSnapshot)
    → advanced_snapshot durable checked snapshot ≡ some after
    → advance_pages checked (snapshot.checkpoints, snapshot.completed_routes)
      ≡ some (after.checkpoints, after.completed_routes)
unfolding advanced_snapshot
advanced_snapshot-progress durable [] snapshot after h = absurd (ground arith)
advanced_snapshot-progress durable (first ∷ others) snapshot after h = ground arith

module _ (run_id : String) (table : Table) (rows : List ManifestRow) (selected : List String) where
  reconciled-Evidence :
      (snapshot after : ExecutionSnapshot) (key : String) (page : BatchPage) (id : String)
      → Distinct table
      → Distinct snapshot.batch_pages
      → reconciled run_id table rows selected snapshot ≡ some after
      → contains key selected ≡ true
      → get key snapshot.batch_pages ≡ some page
      → contains id (page_ids page) ≡ true
      → ((row : ManifestRow) × (get key (manifest_by_key rows) ≡ some row)
          × HasTerminalRow run_id table row id)
        × IsAdvanced key page after.checkpoints after.completed_routes
  unfolding reconciled
  reconciled-Evidence snapshot after key page id dt dp h c there listed =
      let manifest = manifest_by_key rows in
      let pages = snapshot.batch_pages in
      let durable =
        durable_route_result_state run_id table
          (foldl (add_route_key manifest) [] (sorted_set selected)) in
      elim (Option-cases (checked_pages run_id table manifest selected pages)) [
        | inl gave_up ↦ absurd (ground arith)
        | inr (checked, e) ↦
            let (found, (row, known, terminal)) =
              checked_pages_sound run_id table manifest selected pages checked key page e c there in
            (
              (row, known, page_is_terminal_row run_id table row page id dt terminal listed),
              advance_pages-IsAdvanced checked (snapshot.checkpoints, snapshot.completed_routes)
                  (after.checkpoints, after.completed_routes) key page
                  (advanced_snapshot-progress durable checked snapshot after (ground arith))
                  (checked_pages-Distinct run_id table manifest selected pages checked e dp) found,
            )
      ]

-- When a stalled batch is reconciled, each record on the last page of a selected route, blank ids
-- aside, has a row with a terminal status in the ledger, for the objects that the canonical manifest
-- gives the route. The route's checkpoint is then its page's next cursor, which is not blank; or, where
-- the page was the last one, it has no checkpoint and is among the completed routes. The keys of
-- the ledger and of the saved pages are unique.
pub reconcile_terminal_batch_pages-IsTerminal :
    (run_id : String) (table : Table) (route_manifest : List ManifestRow) (selected : List String)
    (entry after : JournalEntry) (key : String) (page : BatchPage) (id : String)
    → Distinct table
    → Distinct entry.snapshot.batch_pages
    → reconcile_terminal_batch_pages run_id table route_manifest selected entry
      ≡ return (true, after)
    → contains key selected ≡ true
    → get key entry.snapshot.batch_pages ≡ some page
    → contains id (page_ids page) ≡ true
    → ((rows : List ManifestRow) × (row : ManifestRow) × (canonical_route_manifest route_manifest
          ≡ return rows)
        × (get key (manifest_by_key rows) ≡ some row)
        × HasTerminalRow run_id table row id)
      × IsAdvanced key page after.snapshot.checkpoints after.snapshot.completed_routes
unfolding reconcile_terminal_batch_pages
reconcile_terminal_batch_pages-IsTerminal run_id table route_manifest selected entry after key page
      id dt dp h c there listed =
    elim (Result-cases (canonical_route_manifest route_manifest)) [
      | inr (e, invalid) ↦ absurd (ground arith)
      | inl (rows, canonical) ↦
          elim (Option-cases (reconciled run_id table rows selected entry.snapshot)) [
            | inl left ↦ absurd (ground arith)
            | inr (snapshot, e) ↦
                let ((row, known, terminal), moved) =
                  reconciled-Evidence run_id table rows selected entry.snapshot snapshot key page id
                    dt dp e c there listed in
                let same : after.snapshot ≡ snapshot = ground arith in
                ((rows, row, canonical, known, terminal), rw same moved)
          ]
    ]
