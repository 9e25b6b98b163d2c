-- ===== src/Batch/Page.antt =====
-- The reads of a route's round (execution/routes.py): its page, the related ids and the coverage of the
-- exact-ID candidates.
use sanka.Prelude.{
  ℕ, String, not, ◌||◌, Option, none, some, List, [], ◌∷◌, ◌++◌, map, if◌then◌else◌, ◌==◌,
  eq_string, eq_pair, filter, contains, length,
}
use sanka.Prelude.Dict.{Dict, set, get_or, has}
use sanka.Prelude.Sort.{sorted_set}
use sanka.Fault.{Fault, execution_fault}
use sanka.Effect.{Eff, pure, throw, ◌>>=◌}
use sanka.Records.{SourceRecord, RecordPage}
use sanka.Mapping.Field.{MigrationMappingField, is_link, relationship_source_ids, source_field_keys}
use sanka.Mapping.Links.{Pair}
use sanka.Mapping.Pending.{resolve_pairs}
use sanka.Batch.{ExecutionRoute, BatchHost, PageRequest, record_identity}
use sanka.Batch.Payload.{field_pair}
use sanka.Batch.Parked.{add_ids}

abbrev pub mark_unsupported : Fault
mark_unsupported =
    execution_fault "Source provider cannot resume the frozen Sanka record set."
      "SANKA_MIGRATE_SOURCE_HIGH_WATER_MARK_UNSUPPORTED"

-- The keys to read: those of the mapping, and the identity field.
unfoldable pub read_keys : ExecutionRoute → List String
read_keys route =
    let keys = source_field_keys route.fields in
    elim route.source_identity_field [
      | none ↦ keys
      | some id_field ↦
          if id_field == "" || contains id_field keys
          then keys
          else sorted_set (keys ++ id_field ∷ [])
    ]

-- The related source ids of every pair that a link field of the route names.
unfoldable pub related_ids :
    Dict Pair (List String)
    → List SourceRecord
    → List MigrationMappingField
    → Dict Pair (List String)
unfolding add_ids
related_ids ids records [] = ids
related_ids ids records (f ∷ fields) =
    let pair = field_pair f in
    related_ids (set pair (collect (get_or pair [] ids) records) ids) records fields
  where
    collect : List String → List SourceRecord → List String
    collect seen [] = seen
    collect seen (r ∷ records) = collect (add_ids (relationship_source_ids r f) seen) records

-- `page_source_ids`
unfoldable pub page_source_ids : ExecutionRoute → List SourceRecord → List String
unfolding record_identity
page_source_ids route records =
    filter (λ id. not (id == "")) (map (record_identity route.source_identity_field) records)

-- The intersection of a page with the candidates of its route.
unfoldable pub page_records :
    ExecutionRoute → Option (List String) → List SourceRecord → List SourceRecord
unfolding record_identity
page_records route none records = records
page_records route (some candidates) records =
    filter (λ r. contains (record_identity route.source_identity_field r) candidates) records

module _ {W : Type 0} (host : BatchHost W) (route : ExecutionRoute) where
  -- `_read_route_page`
  unfoldable pub read_route_page : ℕ → Option String → Option String → Eff W RecordPage
  unfolding read_keys
  read_route_page batch_size cursor upper_bound =
      let request : PageRequest = record {
        object_type = route.source_object;
        field_keys = read_keys route;
        limit = batch_size;
        cursor = cursor;
        source_filter = route.source_filter;
      } in
      elim upper_bound [
        | none ↦ host.read_records request
        | some bound ↦ elim host.read_records_bounded [
          | none ↦ throw mark_unsupported
          | some read ↦ read request bound
        ]
      ]

  -- `_related_destination_ids`
  unfoldable pub related_destination_ids :
      List SourceRecord → Eff W (Dict Pair (Dict String String))
  unfolding related_ids
  related_destination_ids records =
      resolve_pairs host.links
        (related_ids [] records (filter (λ f. is_link f.mapping_kind) route.fields))

  -- `_uncovered_candidate_count`
  unfoldable pub uncovered_candidate_count : List String → Eff W ℕ
  uncovered_candidate_count candidates = do
    let ids = sorted_set candidates
    terminal ← host.terminal_destination_ids route.source_object ids route.destination_object
    pure (length (filter (λ id. not (has id terminal)) ids))
