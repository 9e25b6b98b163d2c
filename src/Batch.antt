-- ===== src/Batch.antt =====
-- One batch pass over the routes of a transfer (runtime/execution/routes.py): its data, and the calls
-- of its host.
pub mod Payload
pub mod Write
pub mod Links
pub mod Relationships
pub mod Settle
pub mod Parked
pub mod Page
pub mod Config
pub mod Run
use sanka.Prelude.{
  ℕ, String, Bool, true, false, Option, none, some, List, if◌then◌else◌, ◌==◌, eq_string,
}
use sanka.Prelude.Dict.{Dict, get}
use sanka.Prelude.Text.{strip, first}
use sanka.Fault.{Fault, execution_fault}
use sanka.Effect.{Eff, fault_message}
use sanka.Value.{Value, truthy, text_or_empty, field_value}
use sanka.Model.{
  WriteStatus, failed, PendingRelationship, PendingRelationships, RecordWriteOutcome, SourceFilter,
}
use sanka.Records.{
  SourceRecord, ConflictPolicy, InvalidEmailPolicy, RecordPage, WriteOptions, WriteResult,
  BatchWriteInput, BatchWriteResult,
}
use sanka.Mapping.Field.{MigrationMappingField}
use sanka.Mapping.Owner.{OwnerProfile, MissingOwnerPolicy}
use sanka.Mapping.Links.{LinkHost}

-- `ExecutionRoute` of execution/model.py.
pub record ExecutionRoute : Type 0 where
  pub route_key : String
  pub source_object : String
  pub destination_object : String
  pub source_filter : Option SourceFilter
  pub fields : List MigrationMappingField
  pub source_identity_field : Option String

-- `WritePolicies`
pub record WritePolicies : Type 0 where
  pub conflict_policy : ConflictPolicy
  pub missing_owner_policy : MissingOwnerPolicy
  pub fallback_owner_email : Option String
  pub invalid_email_policy : InvalidEmailPolicy
  pub invalid_email_audit_field : Option String

-- `_RecordState`
pub record RecordState : Type 0 where
  pub source_record : SourceRecord
  pub source_record_id : String
  pub already_terminal : Bool
  pub destination_record_id : Option String
  pub status : Option WriteStatus
  pub message : Option String
  pub relationship_failed : Bool
  pub pending_relationships : PendingRelationships

-- `_OwnerDirectories`, with the directories of mapping/owner_mapping.py as their indices.
pub record OwnerDirectories : Type 0 where
  pub directory : Option (Dict String (List OwnerProfile))
  pub source_directory : Option (Dict String OwnerProfile)

-- The arguments of a page read.
pub record PageRequest : Type 0 where
  pub object_type : String
  pub field_keys : List String
  pub limit : ℕ
  pub cursor : Option String
  pub source_filter : Option SourceFilter

-- The source, the destination and the ledgers as calls on a world `W`; an `Option` is a capability
-- that `isinstance` tests. `retry` is the host's wrapper of a write, and the observer does not raise.
pub record BatchHost (W : Type 0) : Type 1 where
  pub links : LinkHost W
  pub terminal_destination_ids : String → List String → String → Eff W (Dict String (Option String))
  pub upsert_results : List RecordWriteOutcome → Eff W ℕ
  pub record_failed : String → String → String → W → W
  pub read_records : PageRequest → Eff W RecordPage
  pub read_records_bounded : Option (PageRequest → String → Eff W RecordPage)
  pub write_record : String → SourceRecord → WriteOptions → Eff W WriteResult
  pub write_records :
      Option (String → List BatchWriteInput → WriteOptions → Eff W (List BatchWriteResult))
  pub list_owners : Option (Eff W (List OwnerProfile))
  pub list_source_owners : Option (Eff W (List OwnerProfile))
  pub retry : Option ((A : Type 0) → Eff W A → Eff W A)

-- `_dispatch_write`
unfoldable pub dispatch_write :
    {W A : Type 0} → Option ((A : Type 0) → Eff W A → Eff W A) → Eff W A → Eff W A
dispatch_write none operation = operation
dispatch_write {A = A} (some retry) operation = retry A operation

-- `str(record.get(key) or "").strip()`
abbrev pub identity_text : SourceRecord → String → String
identity_text r key = strip (text_or_empty (field_value (get key r)))

abbrev default_identity : SourceRecord → String
default_identity r =
    let id = field_value (get "Id" r) in
    strip (text_or_empty (if truthy id then id else field_value (get "id" r)))

-- `_record_identity`
unfoldable pub record_identity : Option String → SourceRecord → String
record_identity none r = default_identity r
record_identity (some identity_field) r =
    if identity_field == "" then default_identity r else identity_text r identity_field

-- `_failure_message`
unfoldable pub failure_message : Fault → String
unfolding fault_message
failure_message e = first 500 (fault_message e)

-- `state.status or "failed"`
abbrev pub status_or_failed : Option WriteStatus → WriteStatus
status_or_failed none = failed
status_or_failed (some s) = s

-- `str(value)` of an optional name.
abbrev pub name_text : Option String → String
name_text none = "None"
name_text (some s) = s

-- `x or default` of an optional string.
abbrev pub or_default : Option String → String → String
or_default none default = default
or_default (some s) default = if s == "" then default else s
