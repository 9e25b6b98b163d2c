-- ===== src/Model.antt =====
-- The working state of a transfer (runtime/execution/model.py).
use sanka.Prelude.{
  ℕ, String, ◌≡◌, ◌↔◌, Bool, true, false, ◌&&◌, not, Option, List, [], arith, Eq, ◌==◌, eq_string,
  eq_option, eq_list,
}
use sanka.Prelude.Dict.{Dict}

-- `WriteStatus` of execution/model.py.
pub data WriteStatus : Type 0 where
  created updated skipped failed : WriteStatus

-- Membership in `TERMINAL_WRITE_STATUSES`.
unfoldable pub is_terminal : WriteStatus → Bool
is_terminal created = true
is_terminal updated = true
is_terminal skipped = true
is_terminal failed = false

abbrev pub status_eq : WriteStatus → WriteStatus → Bool
status_eq created created = true
status_eq updated updated = true
status_eq skipped skipped = true
status_eq failed failed = true
status_eq _ _ = false

pub status_eq_iff : (a b : WriteStatus) → (status_eq a b ≡ true) ↔ (a ≡ b)
status_eq_iff a b = ground arith

instance abbrev pub eq_status : Eq WriteStatus
eq_status = record { beq = status_eq; beq_iff = status_eq_iff }

-- `RecordWriteOutcome` of execution/model.py.
pub record RecordWriteOutcome : Type 0 where
  pub source_object : String
  pub source_record_id : String
  pub destination_object : String
  pub destination_record_id : Option String
  pub status : WriteStatus
  pub message : Option String

-- `ExecutionStatus`
pub data ExecutionStatus : Type 0 where
  queued running completed failed cancelled : ExecutionStatus

-- A pending relationship (mapping/pending_relationships.py) with its persisted keys.
pub record PendingRelationship : Type 0 where
  pub source_record_id : String
  pub destination_object : String
  pub destination_record_id : Option String
  pub relationship_field : String
  pub related_source_object : String
  pub related_source_record_id : String
  pub related_destination_object : String
  pub relationship_mode : String
  pub association_category : Option String
  pub association_type_id : Option ℕ

-- `pending_relationship_key`: the JSON text of nine fields, here as the fields themselves.
pub record RelationshipKey : Type 0 where
  pub source_record_id : String
  pub destination_object : String
  pub relationship_field : String
  pub related_source_object : String
  pub related_source_record_id : String
  pub related_destination_object : String
  pub relationship_mode : String
  pub association_category : Option String
  pub association_type_id : Option ℕ

abbrev pub PendingRelationships : Type 0
PendingRelationships = Dict RelationshipKey PendingRelationship

-- `BatchPage`
pub record BatchPage : Type 0 where
  pub source_record_ids : List String
  pub next_cursor : Option String
  pub has_more : Bool

-- `ExecutionSnapshot`. A Python `set` is a list, read by membership.
pub record ExecutionSnapshot : Type 0 where
  pub checkpoints : Dict String String
  pub completed_routes : List String
  pub route_counts : Dict String (Dict WriteStatus ℕ)
  pub route_pending_record_ids : Dict String (List String)
  pub route_pending_relationships : Dict String PendingRelationships
  pub route_failed_record_ids : Dict String (List String)
  pub batch_pages : Dict String BatchPage
  pub warnings : List String
  pub has_more : Bool

abbrev pub empty_snapshot : ExecutionSnapshot
empty_snapshot = record {
  checkpoints = [];
  completed_routes = [];
  route_counts = [];
  route_pending_record_ids = [];
  route_pending_relationships = [];
  route_failed_record_ids = [];
  batch_pages = [];
  warnings = [];
  has_more = false;
}

-- `SourceFilter` (sanka_connector/records.py).
pub record SourceFilter : Type 0 where
  pub field : String
  pub operator : String
  pub value : Bool

-- A row of a route manifest (mapping/record_mapping.py, `mapping_route_manifest`).
pub record ManifestRow : Type 0 where
  pub route_key : String
  pub source_object : String
  pub destination_object : String
  pub source_filter : Option SourceFilter
  pub identity_fields : List String

abbrev bool_eq : Bool → Bool → Bool
bool_eq true b = b
bool_eq false b = not b

abbrev source_filter_eq : SourceFilter → SourceFilter → Bool
source_filter_eq a b = a.field == b.field && (a.operator == b.operator && bool_eq a.value b.value)

pub source_filter_eq_iff : (a b : SourceFilter) → (source_filter_eq a b ≡ true) ↔ (a ≡ b)
source_filter_eq_iff a b =
    ground (arith, eq_string.beq_iff a.field b.field, eq_string.beq_iff a.operator b.operator)

instance abbrev pub eq_source_filter : Eq SourceFilter
eq_source_filter = record { beq = source_filter_eq; beq_iff = source_filter_eq_iff }

abbrev manifest_row_eq : ManifestRow → ManifestRow → Bool
manifest_row_eq a b =
    a.route_key == b.route_key
    && (a.source_object == b.source_object
        && (a.destination_object == b.destination_object
            && (a.source_filter == b.source_filter && a.identity_fields == b.identity_fields)))

pub manifest_row_eq_iff : (a b : ManifestRow) → (manifest_row_eq a b ≡ true) ↔ (a ≡ b)
manifest_row_eq_iff a b = ground (
  arith,
  eq_string.beq_iff a.route_key b.route_key,
  eq_string.beq_iff a.source_object b.source_object,
  eq_string.beq_iff a.destination_object b.destination_object,
  (eq_option {A = SourceFilter}).beq_iff a.source_filter b.source_filter,
  (eq_list {A = String}).beq_iff a.identity_fields b.identity_fields,
)

instance abbrev pub eq_manifest_row : Eq ManifestRow
eq_manifest_row = record { beq = manifest_row_eq; beq_iff = manifest_row_eq_iff }

-- `ExecutionScope`
pub record ExecutionScope : Type 0 where
  pub route_manifest : List ManifestRow
  pub selected_route_keys : List String
  pub route_high_water_marks : Dict String (Option String)
  pub route_totals : Dict String (Option ℕ)

-- `AttemptIdentity`
pub record AttemptIdentity : Type 0 where
  pub attempt_id : String
  pub attempt_number : ℕ
  pub task_run_id : String

-- `JournalEntry`. Of `extras` only the `state` key of its `execution` dict is modelled, which records
-- a cancellation; the aggregate counts, the progress rows and the provider envelope are left out.
pub record JournalEntry : Type 0 where
  pub status : ExecutionStatus
  pub snapshot : ExecutionSnapshot
  pub job_id : Option String
  pub attempt_id : Option String
  pub batch_size : ℕ
  pub batches_completed : ℕ
  pub started_at : Option String
  pub last_heartbeat_at : Option String
  pub resumed : Bool
  pub scope : Option ExecutionScope
  pub durable_results_attempt_id : Option String
  pub extras_execution_state : Option String
