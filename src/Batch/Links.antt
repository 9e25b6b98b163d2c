-- ===== src/Batch/Links.antt =====
-- The relationships of a page's records (execution/routes.py): the writes, and what is parked where one
-- fails. A state is found again by its source id, and of two with one id the later one is meant, as in
-- `states_by_source_id`.
use Prim.Native.String.{◌++◌ as join}
use sanka.Prelude.{
  ℕ, String, true, Option, none, some, List, [], ◌∷◌, map, if◌then◌else◌, ◌==◌, eq_string,
  eq_option, contains,
}
use sanka.Prelude.Dict.{Dict, get, set, get_or}
use sanka.Prelude.Text.{strip, first, decimal}
use sanka.Fault.{Fault, execution_fault, Result, return, raise}
use sanka.Model.{eq_status, PendingRelationship}
use sanka.Records.{RelationshipWrite, BatchRelationshipWriteResult}
use sanka.Mapping.Field.{MigrationMappingField}
use sanka.Mapping.Links.{Pair, pending_relationship_key, eq_relationship_key, is_linked}
use sanka.Batch.{ExecutionRoute, RecordState, name_text, or_default}
use sanka.Batch.Payload.{related_id, field_pair}

-- The relationship to write or to park.
abbrev pub parked_relationship :
    ExecutionRoute → RecordState → MigrationMappingField → String → PendingRelationship
parked_relationship route state f related_source_id = record {
  source_record_id = state.source_record_id;
  destination_object = route.destination_object;
  destination_record_id = state.destination_record_id;
  relationship_field = f.target_field;
  related_source_object = name_text f.source_reference_object;
  related_source_record_id = related_source_id;
  related_destination_object = name_text f.target_reference_object;
  relationship_mode = or_default f.relationship_mode "default";
  association_category = f.association_category;
  association_type_id = f.association_type_id;
}

-- `f"{state.message or ''} Relationship pending: {error}".strip()[:_MESSAGE_LIMIT]`
abbrev pub pending_message : Option String → String → String
pending_message message error =
    first 500 (strip (join (or_default message "") (join " Relationship pending: " error)))

-- What a failed relationship leaves on its record.
unfoldable pub park : PendingRelationship → String → RecordState → RecordState
park r error state = record state {
  message = some (pending_message state.message error);
  relationship_failed = true;
  pending_relationships = set (pending_relationship_key r) r state.pending_relationships;
}

abbrev pub destination_pending : Fault
destination_pending =
    execution_fault "Destination record id is missing."
      "SANKA_MIGRATE_RELATIONSHIP_DESTINATION_PENDING"

abbrev pub target_pending : Fault
target_pending =
    execution_fault "Referenced destination record has not been written yet."
      "SANKA_MIGRATE_RELATIONSHIP_TARGET_PENDING"

-- A write that a batch collects, with the relationship to park if it fails.
pub record LinkInput : Type 0 where
  pub write : RelationshipWrite
  pub source_record_id : String
  pub parked : PendingRelationship

-- The write of a relationship, or the fault of an end that is missing.
unfoldable pub relationship_write :
    Dict Pair (Dict String String)
    → ExecutionRoute
    → RecordState
    → MigrationMappingField
    → ℕ
    → ℕ
    → String
    → Result RelationshipWrite
unfolding related_id
relationship_write related route state f index related_index related_source_id =
    let record_id = or_default state.destination_record_id "" in
    if record_id == ""
    then raise destination_pending
    else elim (related_id related (field_pair f) related_source_id) [
      | none ↦ raise target_pending
      | some related_record_id ↦ return (record {
        trace_id =
            join state.source_record_id
              (join ":" (join (decimal index) (join ":" (decimal related_index))));
        object_type = route.destination_object;
        record_id = record_id;
        relationship_field = f.target_field;
        related_object_type = name_text f.target_reference_object;
        related_record_id = related_record_id;
        relationship_mode = or_default f.relationship_mode "default";
        association_category = f.association_category;
        association_type_id = f.association_type_id;
      })
    ]

-- `relationship_result is not None and relationship_result.status != "failed"`, and else its message.
abbrev pub link_error : String → Option BatchRelationshipWriteResult → String
link_error batch_error none = batch_error
link_error batch_error (some r) = elim r.message [ none ↦ "None" | some m ↦ m ]

-- The edit of the last state with this source id.
unfoldable pub edit_last :
    String → (RecordState → RecordState) → List RecordState → List RecordState
edit_last id edit [] = []
edit_last id edit (state ∷ states) =
    if contains id (map (λ s. s.source_record_id) states)
    then state ∷ edit_last id edit states
    else if state.source_record_id == id
    then edit state ∷ states
    else state ∷ states

-- `relationship_source_by_trace` and `relationship_pending_by_trace`: the last input of a trace id.
unfoldable pub inputs_by_trace : Dict String LinkInput → List LinkInput → Dict String LinkInput
inputs_by_trace by_trace [] = by_trace
inputs_by_trace by_trace (i ∷ inputs) = inputs_by_trace (set i.write.trace_id i by_trace) inputs

-- The loop over the results of a batch of relationships.
unfoldable pub park_unlinked :
    Dict String LinkInput
    → Dict String BatchRelationshipWriteResult
    → String
    → List LinkInput
    → List RecordState
    → List RecordState
unfolding park edit_last
park_unlinked parked_by_trace by_trace batch_error [] states = states
park_unlinked parked_by_trace by_trace batch_error (input ∷ inputs) states =
    let result = get input.write.trace_id by_trace in
    let source = get_or input.write.trace_id input parked_by_trace in
    park_unlinked parked_by_trace by_trace batch_error inputs (
      if is_linked result
      then states
      else edit_last source.source_record_id (park source.parked (link_error batch_error result))
          states)
