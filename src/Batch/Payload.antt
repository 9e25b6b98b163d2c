-- ===== src/Batch/Payload.antt =====
-- `_destination_payload` of execution/routes.py: the properties that one record is written with.
use sanka.Prelude.{
  String, Bool, Option, none, some, List, [], ◌∷◌, if◌then◌else◌, ◌==◌, eq_string, eq_pair, filter,
}
use sanka.Prelude.Dict.{Dict, get, set, get_or}
use sanka.Fault.{Fault, execution_fault, Result, return, raise, ◌>>=◌}
use sanka.Value.{Value, text}
use sanka.Records.{SourceRecord}
use sanka.Mapping.Field.{MigrationMappingField, is_reference, relationship_source_ids}
use sanka.Mapping.Links.{Pair}
use sanka.Mapping.Properties.{destination_properties}
use sanka.Mapping.Owner.{map_owner_properties}
use sanka.Batch.{ExecutionRoute, WritePolicies, OwnerDirectories, name_text}

abbrev pub reference_empty : Fault
reference_empty =
    execution_fault "Required reference source field is empty."
      "SANKA_MIGRATE_REQUIRED_REFERENCE_SOURCE_FIELD_EMPTY"

abbrev pub reference_ambiguous : Fault
reference_ambiguous =
    execution_fault "A scalar reference mapping must resolve one source id."
      "SANKA_MIGRATE_REFERENCE_SOURCE_ID_AMBIGUOUS"

abbrev pub reference_pending : Fault
reference_pending =
    execution_fault "Referenced destination record has not been written yet."
      "SANKA_MIGRATE_REFERENCE_TARGET_PENDING"

abbrev pub empty_destination : Fault
empty_destination =
    execution_fault "No destination properties were produced."
      "SANKA_MIGRATE_EMPTY_DESTINATION_RECORD"

-- The pair of objects that a relationship or reference field names.
abbrev pub field_pair : MigrationMappingField → Pair
field_pair f = (name_text f.source_reference_object, name_text f.target_reference_object)

-- `related_destination_ids.get(pair, {}).get(source_id)`, where an empty id counts as none.
unfoldable pub related_id : Dict Pair (Dict String String) → Pair → String → Option String
related_id related pair source_id = elim (get source_id (get_or pair [] related)) [
  | none ↦ none
  | some id ↦ if id == "" then none else some id
]

-- One round of the loop over the reference fields.
unfoldable pub store_reference :
    Dict Pair (Dict String String)
    → MigrationMappingField
    → List String
    → SourceRecord
    → Result SourceRecord
unfolding related_id
store_reference related f [] properties =
    if f.required then raise reference_empty else return properties
store_reference related f (id ∷ []) properties = elim (related_id related (field_pair f) id) [
  | none ↦ raise reference_pending
  | some destination_id ↦ return (set f.target_field (text destination_id) properties)
]
store_reference related f (id ∷ other ∷ ids) properties = raise reference_ambiguous

unfoldable pub store_references :
    Dict Pair (Dict String String)
    → SourceRecord
    → List MigrationMappingField
    → SourceRecord
    → Result SourceRecord
unfolding store_reference
store_references related r [] properties = return properties
store_references related r (f ∷ fields) properties = do
  properties' ← store_reference related f (relationship_source_ids r f) properties
  store_references related r fields properties'

-- `if not properties: raise …`
abbrev pub require_properties : SourceRecord → Result SourceRecord
require_properties [] = raise empty_destination
require_properties (p ∷ properties) = return (p ∷ properties)

module _ (transform : Value → Option String → Result Value) (equals : Value → Value → Bool)
    (lower : String → String) where
  -- `if has_owner_mapping and owners.directory is not None: …`
  abbrev pub map_owners :
      Bool → OwnerDirectories → WritePolicies → ExecutionRoute → SourceRecord → Result SourceRecord
  map_owners has_owner_mapping owners policies route properties = elim owners.directory [
    | none ↦ return properties
    | some directory ↦
        if has_owner_mapping
        then map_owner_properties lower directory owners.source_directory
            policies.missing_owner_policy
            (elim policies.fallback_owner_email [ none ↦ "" | some email ↦ email ]) route.fields
            properties
        else return properties
  ]

  -- `_destination_payload`
  unfoldable pub destination_payload :
      Dict Pair (Dict String String)
      → Bool
      → OwnerDirectories
      → WritePolicies
      → ExecutionRoute
      → SourceRecord
      → Result SourceRecord
  unfolding store_references
  destination_payload related has_owner_mapping owners policies route r = do
    properties ← destination_properties transform equals r route.fields
    linked ←
        store_references related r (filter (λ f. is_reference f.mapping_kind) route.fields)
          properties
    owned ← map_owners has_owner_mapping owners policies route linked
    require_properties owned
