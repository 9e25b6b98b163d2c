-- ===== src/Mapping/Properties.antt =====
-- `destination_properties` of mapping/record_mapping.py. Two things are parameters: `transform`, the
-- named transforms of `apply_transform` (URL, number and date parsing), and `equals`, Python's `==` on
-- scalars.
pub mod Keys
use sanka.Prelude.{
  ℕ, String, ◌≡◌, Bool, true, false, ◌&&◌, ◌||◌, not, Option, none, some, List, [], ◌∷◌, ◌++◌, map,
  if◌then◌else◌, filter, ◌==◌, eq_string, eq_option, eq_nat, any, all, arith, contains,
}
use sanka.Prelude.Dict.{Dict, get, set}
use sanka.Prelude.Text.{strip}
use sanka.Fault.{Fault, mapping_error, value_error, Result, return, raise, ◌>>=◌}
use sanka.Value.{Value, none_value, text, field_value}
use sanka.Records.{SourceRecord}
use sanka.Mapping.Field.{
  EmptyValuePolicy, UnmappedValuePolicy, ValueMapEntry, MigrationMappingField, MappingKind, is_link,
  last_part, record_value,
}

abbrev pub required_source_empty : Fault
required_source_empty =
    mapping_error "Required source field is empty." "SANKA_MIGRATE_REQUIRED_SOURCE_FIELD_EMPTY"

abbrev pub required_mapped_empty : Fault
required_mapped_empty =
    mapping_error "Required mapped field is empty." "SANKA_MIGRATE_REQUIRED_SOURCE_FIELD_EMPTY"

abbrev pub transform_failed : Fault
transform_failed =
    mapping_error "Mapped source value could not be transformed."
      "SANKA_MIGRATE_MAPPING_VALUE_INVALID"

abbrev pub map_ambiguous : Fault
map_ambiguous =
    mapping_error "More than one Sanka value-map predicate matched the source record."
      "SANKA_MIGRATE_VALUE_MAP_AMBIGUOUS"

abbrev pub map_unmatched : Fault
map_unmatched =
    mapping_error "No reviewed Sanka value-map predicate matched the source record."
      "SANKA_MIGRATE_VALUE_MAP_UNMATCHED"

-- `isinstance(value, str) and not value.strip()`, under the policy "omit".
unfoldable pub is_blank : EmptyValuePolicy → Value → Bool
is_blank EmptyValuePolicy.omit (text s) = strip s == ""
is_blank _ _ = false

-- The handlers of the `try` block: other errors of a transform become a mapping error.
unfoldable pub as_mapping_error {ℓ} : {A : Type ℓ} → Result A → Result A
as_mapping_error (raise (value_error message)) = raise transform_failed
as_mapping_error r = r

abbrev pub by_policy : UnmappedValuePolicy → Value → Result (Option Value)
by_policy UnmappedValuePolicy.preserve original_value = return (some original_value)
by_policy UnmappedValuePolicy.omit original_value = return none
by_policy UnmappedValuePolicy.error original_value = raise map_unmatched

-- What `_apply_value_map` does with the matching entries; `none` is `_OMIT_MAPPED_VALUE`.
abbrev pub value_of_matches :
    List ValueMapEntry → UnmappedValuePolicy → Value → Result (Option Value)
value_of_matches [] policy original_value = by_policy policy original_value
value_of_matches (entry ∷ []) policy original_value = return (some entry.value)
value_of_matches (entry ∷ other ∷ rest) policy original_value = raise map_ambiguous

-- `value is None or (…)`
abbrev pub is_absent : EmptyValuePolicy → Value → Bool
is_absent policy none_value = true
is_absent policy value = is_blank policy value

-- The properties after a value was mapped: a blank one is dropped, or fails if it is required.
unfoldable pub store : MigrationMappingField → SourceRecord → Option Value → Result SourceRecord
unfolding is_blank
store f properties none = return properties
store f properties (some v) =
    if is_blank f.empty_value_policy v
    then (if f.required then raise required_mapped_empty else return properties)
    else return (set f.target_field v properties)

module _ (transform : Value → Option String → Result Value) (equals : Value → Value → Bool) where
  -- Every predicate of an entry holds.
  unfoldable pub entry_matches : SourceRecord → Dict String Value → Bool
  entry_matches r [] = true
  entry_matches r ((predicate_field, expected) ∷ when) =
      equals (record_value r predicate_field) expected && entry_matches r when

  -- `_apply_value_map`
  unfoldable pub apply_value_map :
      SourceRecord → MigrationMappingField → Value → Result (Option Value)
  unfolding entry_matches
  apply_value_map r f original_value =
      value_of_matches (filter (λ entry. entry_matches r entry.when) f.value_map)
        f.unmapped_value_policy original_value

  -- `if field.value_map: …`
  unfoldable pub mapped : SourceRecord → MigrationMappingField → Value → Result (Option Value)
  unfolding apply_value_map
  mapped r f v = elim f.value_map [ [] ↦ return (some v) | _ ↦ apply_value_map r f v ]

  -- The `try` block of the loop.
  unfoldable pub map_value :
      SourceRecord → MigrationMappingField → Value → SourceRecord → Result SourceRecord
  unfolding mapped store as_mapping_error
  map_value r f value properties =
      as_mapping_error
        do v ← transform value f.transform_rule; m ← mapped r f v; store f properties m

  -- One round of the loop over the fields.
  unfoldable pub map_field :
      SourceRecord → MigrationMappingField → SourceRecord → Result SourceRecord
  unfolding map_value is_blank
  map_field r f properties =
      let value = field_value (get (last_part f.source_field) r) in
      if is_link f.mapping_kind
      then return properties
      else if is_absent f.empty_value_policy value
      then (if f.required then raise required_source_empty else return properties)
      else map_value r f value properties

  unfoldable pub map_fields :
      SourceRecord → List MigrationMappingField → SourceRecord → Result SourceRecord
  unfolding map_field
  map_fields r [] properties = return properties
  map_fields r (f ∷ fields) properties = do
    properties' ← map_field r f properties
    map_fields r fields properties'

  -- `destination_properties`
  unfoldable pub destination_properties :
      SourceRecord → List MigrationMappingField → Result SourceRecord
  unfolding map_fields
  destination_properties r fields = map_fields r fields []
