-- ===== src/Records.antt =====
-- The records of the connector SDK (sanka_connector/records.py), and its identity check.
use sanka.Prelude.{
  ℕ, String, Bool, true, false, not, ◌&&◌, Option, none, some, List, [], ◌∷◌, ◌==◌, eq_string, any,
  all, contains,
}
use sanka.Prelude.Dict.{Dict, get, has}
use sanka.Prelude.Text.{strip}
use sanka.Fault.{value_error, Result, return, ◌>>◌, require}
use sanka.Value.{Value, none_value}
use sanka.Model.{WriteStatus}

-- A source record, and the properties of a destination record.
abbrev pub SourceRecord : Type 0
SourceRecord = Dict String Value

pub data ConflictPolicy : Type 0 where
  create skip_existing update_existing : ConflictPolicy

pub data InvalidEmailPolicy : Type 0 where
  block leave_empty : InvalidEmailPolicy

pub data RelationshipStatus : Type 0 where
  linked skipped failed : RelationshipStatus

pub record RecordPage : Type 0 where
  pub object_key : String
  pub records : List SourceRecord
  pub next_cursor : Option String
  pub has_more : Bool

pub record WriteOptions : Type 0 where
  pub conflict_policy : ConflictPolicy
  pub identity_fields : List String
  pub invalid_email_policy : InvalidEmailPolicy
  pub invalid_email_audit_field : Option String

-- `WriteResult` and `BatchWriteResult`, the latter with a trace id.
pub record WriteResult : Type 0 where
  pub status : WriteStatus
  pub destination_record_id : Option String
  pub message : Option String

pub record BatchWriteInput : Type 0 where
  pub trace_id : String
  pub properties : SourceRecord

pub record BatchWriteResult : Type 0 where
  pub trace_id : String
  pub status : WriteStatus
  pub destination_record_id : Option String
  pub message : Option String

pub record RelationshipWrite : Type 0 where
  pub trace_id : String
  pub object_type : String
  pub record_id : String
  pub relationship_field : String
  pub related_object_type : String
  pub related_record_id : String
  pub relationship_mode : String
  pub association_category : Option String
  pub association_type_id : Option ℕ

pub record RelationshipWriteResult : Type 0 where
  pub status : RelationshipStatus
  pub message : Option String

pub record BatchRelationshipWriteResult : Type 0 where
  pub trace_id : String
  pub status : RelationshipStatus
  pub message : Option String

abbrev is_none : Option Value → Bool
is_none (some none_value) = true
is_none _ = false

abbrev values_of : SourceRecord → List String → List (String × Value)
values_of properties [] = []
values_of properties (f ∷ fields) = elim (get f properties) [
  | none ↦ values_of properties fields
  | some v ↦ (f, v) ∷ values_of properties fields
]

-- Each of the names once.
abbrev is_unique : List String → Bool
is_unique [] = true
is_unique (f ∷ fields) = not (contains f fields) && is_unique fields

-- `require_identity_values`
unfoldable pub require_identity_values : SourceRecord → List String → Result (List (String × Value))
require_identity_values properties [] = return []
require_identity_values properties (field ∷ rest) = do
  let fields = field ∷ rest
  require (not (any (λ f. strip f == "") fields))
      (value_error "identity field names must not be empty")
  require (is_unique fields) (value_error "identity field names must be unique")
  require (all (λ f. has f properties) fields)
      (value_error "record is missing required identity field(s)")
  require (not (any (λ f. is_none (get f properties)) fields))
      (value_error "record has NULL required identity field(s)")
  return (values_of properties fields)
