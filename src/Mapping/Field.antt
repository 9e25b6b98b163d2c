-- ===== src/Mapping/Field.antt =====
-- Mapping rules (mapping/model.py) and the parts of mapping/record_mapping.py that read them.
use Prim.Native.Char.{code}
use Prim.Native.String.{◌++◌ as join}
use sanka.Prelude.{
  ℕ, String, Bool, true, false, ◌&&◌, ◌||◌, not, Option, none, some, List, [], ◌∷◌, ◌++◌, map,
  if◌then◌else◌, filter, ◌==◌, eq_string, eq_option, eq_nat, contains,
}
use sanka.Prelude.Dict.{Dict, get}
use sanka.Prelude.Text.{strip}
use sanka.Prelude.Sort.{sorted_set}
use sanka.Value.{
  Value, Values, array, object, nil, cons, text_or_empty, truthy, field_value, field_get,
}
use sanka.Model.{SourceFilter}
use sanka.Records.{SourceRecord}

-- `MappingKind`
pub data MappingKind : Type 0 where
  scalar owner relationship reference : MappingKind

pub data EmptyValuePolicy : Type 0 where
  preserve omit : EmptyValuePolicy

pub data UnmappedValuePolicy : Type 0 where
  error preserve omit : UnmappedValuePolicy

-- `ValueMapEntry`
pub record ValueMapEntry : Type 0 where
  pub when : Dict String Value
  pub value : Value

-- `MigrationMappingField`, without the source and target types, which no operation here reads.
pub record MigrationMappingField : Type 0 where
  pub source_field : String
  pub target_object : String
  pub target_field : String
  pub transform_rule : Option String
  pub empty_value_policy : EmptyValuePolicy
  pub required : Bool
  pub identity : Option Bool
  pub mapping_kind : MappingKind
  pub source_reference_object : Option String
  pub target_reference_object : Option String
  pub relationship_mode : Option String
  pub association_category : Option String
  pub association_type_id : Option ℕ
  pub source_filter : Option SourceFilter
  pub value_map : List ValueMapEntry
  pub unmapped_value_policy : UnmappedValuePolicy

-- `mapping_kind in {"relationship", "reference"}`, and the single kinds.
abbrev pub is_link : MappingKind → Bool
is_link relationship = true
is_link reference = true
is_link _ = false

abbrev pub is_owner : MappingKind → Bool
is_owner owner = true
is_owner _ = false

abbrev pub is_reference : MappingKind → Bool
is_reference reference = true
is_reference _ = false

abbrev pub is_relationship : MappingKind → Bool
is_relationship relationship = true
is_relationship _ = false

-- `field.identity is True`
abbrev pub is_identity : Option Bool → Bool
is_identity (some b) = b
is_identity none = false

-- `mapping_group_key`
unfoldable pub mapping_group_key : String → String → Option SourceFilter → String
mapping_group_key source_object target_object none = join source_object (join "|" target_object)
mapping_group_key source_object target_object (some f) = join source_object (
    join "|" (
      join target_object (
        join "|" (
          join f.field
            (join "=" (join f.operator (join ":" (if f.value then "true" else "false"))))))))

-- What follows the first dot, if there is one.
unfoldable pub after_dot : String → Option String
after_dot String.[] = none
after_dot (String.◌∷◌ c s) = let rest = after_dot s in if code c == b'.' then some s else rest

-- `source_field.split(".", 1)[-1]`
unfoldable pub last_part : String → String
unfolding after_dot
last_part s = elim (after_dot s) [ none ↦ s | some rest ↦ rest ]

-- `destination_identity_fields`
unfoldable pub destination_identity_fields : List MigrationMappingField → List String
destination_identity_fields fields = sorted_set (
    map (λ f. f.target_field)
      (filter (λ f. is_identity f.identity && not (is_link f.mapping_kind)) fields))

-- The source keys of the fields that have a dot.
unfoldable pub dotted_keys : List MigrationMappingField → List String
unfolding after_dot
dotted_keys [] = []
dotted_keys (f ∷ fields) = elim (after_dot f.source_field) [
  | none ↦ dotted_keys fields
  | some k ↦ k ∷ dotted_keys fields
]

-- The predicate fields of the value maps.
unfoldable pub when_keys : Dict String Value → List String
unfolding last_part
when_keys [] = []
when_keys ((k, v) ∷ when) = last_part k ∷ when_keys when

unfoldable pub predicate_keys : List ValueMapEntry → List String
unfolding when_keys
predicate_keys [] = []
predicate_keys (entry ∷ entries) = when_keys entry.when ++ predicate_keys entries

unfoldable pub all_predicate_keys : List MigrationMappingField → List String
unfolding predicate_keys
all_predicate_keys [] = []
all_predicate_keys (f ∷ fields) = predicate_keys f.value_map ++ all_predicate_keys fields

-- `source_field_keys`
unfoldable pub source_field_keys : List MigrationMappingField → List String
unfolding dotted_keys all_predicate_keys
source_field_keys fields = sorted_set (dotted_keys fields ++ all_predicate_keys fields)

-- `_record_value`
unfoldable pub record_value : SourceRecord → String → Value
unfolding last_part
record_value r source_field = elim (get source_field r) [
  | none ↦ field_value (get (last_part source_field) r)
  | some v ↦ v
]

-- An item of a relationship value: of an object its first true key of three.
unfoldable pub item_id : Value → String
item_id (object rendered fs) =
    let target = field_get "target_record_id" fs in
    let id = field_get "id" fs in
    let item = if truthy target then target else if truthy id then id else field_get "value" fs in
    strip (text_or_empty item)
item_id item = strip (text_or_empty item)

-- The loop of `relationship_source_ids`, with the ids seen so far.
unfoldable pub collect_ids : List String → Values → List String
unfolding item_id
collect_ids seen nil = seen
collect_ids seen (cons item items) =
    let id = item_id item in
    collect_ids (if id == "" || contains id seen then seen else seen ++ id ∷ []) items

-- `value if isinstance(value, list) else [value]`
abbrev pub as_values : Value → Values
as_values (array rendered items) = items
as_values value = cons value nil

-- `relationship_source_ids`
unfoldable pub relationship_source_ids : SourceRecord → MigrationMappingField → List String
unfolding collect_ids last_part
relationship_source_ids r f =
    collect_ids [] (as_values (field_value (get (last_part f.source_field) r)))
