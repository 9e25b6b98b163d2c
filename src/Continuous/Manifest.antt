-- ===== src/Continuous/Manifest.antt =====
-- The saved route manifest, normalized and verified (runtime/execution/report_codec.py).
use sanka.Prelude.{
  String, ◌&&◌, ◌||◌, not, Option, none, some, List, [], ◌∷◌, ◌==◌, eq_string, if◌then◌else◌, any,
  all, contains, filter, length, eq_nat, map,
}
use sanka.Prelude.Text.{strip, text_le}
use sanka.Prelude.Sort.{sort, sorted_set}
use sanka.Fault.{Fault, execution_fault, Result, return, raise, require, ◌>>=◌, ◌>>◌}
use sanka.Model.{SourceFilter, ManifestRow}
use sanka.Mapping.Field.{mapping_group_key}

abbrev manifest_fault : String → Fault
manifest_fault message = execution_fault message "SANKA_MIGRATE_ROUTE_MANIFEST_INVALID"

abbrev pub manifest_missing : Fault
manifest_missing =
    execution_fault "A complete Sanka route manifest is required before continuous execution."
      "SANKA_MIGRATE_ROUTE_MANIFEST_MISSING"

-- `_source_filter_from_payload`, on a payload of the right keys and types.
unfoldable pub source_filter_from_payload : Option SourceFilter → Result (Option SourceFilter)
source_filter_from_payload none = return none
source_filter_from_payload (some f) =
    require (not (strip f.field == "") && f.operator == "equals")
      (manifest_fault "The saved Sanka route manifest contains an invalid source filter.")
    >> return (some (record f { field = strip f.field }))

-- The body of the loop of `canonical_route_manifest`, with the route keys seen before.
unfoldable pub canonical_row : List String → ManifestRow → Result ManifestRow
unfolding source_filter_from_payload
canonical_row seen row =
    let source_object = strip row.source_object in
    let destination_object = strip row.destination_object in
    require (not (source_object == "") && not (destination_object == ""))
      (manifest_fault "The saved Sanka route manifest is invalid.")
    >> (source_filter_from_payload row.source_filter >>= λ source_filter.
        let route_key = mapping_group_key source_object destination_object source_filter in
        let saved_route_key = strip (if row.route_key == "" then route_key else row.route_key) in
        require (saved_route_key == route_key && not (contains route_key seen))
          (manifest_fault "The saved Sanka route identity does not match its source filter.")
        >> (require
              (not (
                any (λ value. strip value == "" || not (value == strip value)) row.identity_fields))
              (manifest_fault "The saved Sanka route manifest contains invalid identity fields.")
            >> return (record {
              route_key = route_key;
              source_object = source_object;
              destination_object = destination_object;
              source_filter = source_filter;
              identity_fields = sorted_set row.identity_fields;
            })))

-- The loop of `canonical_route_manifest`.
unfoldable pub canonical_rows : List String → List ManifestRow → Result (List ManifestRow)
unfolding canonical_row
canonical_rows seen [] = return []
canonical_rows seen (item ∷ items) = canonical_row seen item >>= λ row.
    (canonical_rows (row.route_key ∷ seen) items >>= λ rows. return (row ∷ rows))

-- `canonical_route_manifest`
unfoldable pub canonical_route_manifest : List ManifestRow → Result (List ManifestRow)
unfolding canonical_rows
canonical_route_manifest [] = raise manifest_missing
canonical_route_manifest (item ∷ items) = canonical_rows [] (item ∷ items) >>= λ rows.
    return (sort (λ a b. text_le a.route_key b.route_key) rows)

abbrev pub unknown_route : Fault
unknown_route =
    execution_fault "Sanka execution includes routes outside the reviewed mapping."
      "SANKA_MIGRATE_EXECUTION_ROUTE_INVALID"

-- `selected_route_keys`, of a list of requested keys.
unfoldable pub selected_route_keys : List ManifestRow → List String → Result (List String)
selected_route_keys route_manifest requested_route_keys =
    let known = map (λ row. row.route_key) route_manifest in
    let requested = filter (λ key. not (key == "")) (map strip requested_route_keys) in
    if length requested == 0
    then return known
    else require (all (λ key. contains key known) requested) unknown_route
      >> return (filter (λ key. contains key requested) known)
