-- ===== src/Batch/Relationships.antt =====
-- The relationship phase of `run_batch` (execution/routes.py).
use sanka.Prelude.{
  ℕ, suc, String, none, some, List, [], ◌∷◌, ◌++◌, map, if◌then◌else◌, ◌==◌, eq_string, eq_option,
  filter,
}
use sanka.Prelude.Dict.{Dict}
use sanka.Fault.{return, raise}
use sanka.Effect.{Eff, pure, ◌>>=◌, fault_message}
use sanka.Model.{failed, eq_status}
use sanka.Records.{RelationshipWrite, BatchRelationshipWriteResult}
use sanka.Mapping.Field.{MigrationMappingField, is_relationship, relationship_source_ids}
use sanka.Mapping.Links.{Pair, eq_relationship_key, results_by_trace}
use sanka.Batch.{ExecutionRoute, RecordState, BatchHost, dispatch_write, failure_message}
use sanka.Batch.Links.{
  parked_relationship, park, LinkInput, relationship_write, inputs_by_trace, park_unlinked,
}

module _ {W : Type 0} (host : BatchHost W) (route : ExecutionRoute)
    (related : Dict Pair (Dict String String)) where
  -- One relationship of a record, under the `try`.
  unfoldable pub link_one :
      MigrationMappingField → ℕ → ℕ → String → RecordState → Eff W (RecordState × List LinkInput)
  unfolding park relationship_write dispatch_write fault_message
  link_one f index related_index related_source_id state =
      let parked = parked_relationship route state f related_source_id in
      elim (relationship_write related route state f index related_index related_source_id) [
        | raise e ↦ pure (park parked (fault_message e) state, [])
        | return write ↦ elim host.links.write_relationships [
          | some write_relationships ↦ pure (
            state,
            record { write = write; source_record_id = state.source_record_id; parked = parked }
                ∷ [],
          )
          | none ↦ λ w.
              let (result, after) =
                dispatch_write host.retry (host.links.write_relationship write) w in
              elim result [
                | raise e ↦ (return (park parked (fault_message e) state, []), after)
                | return r ↦ (return (state, []), after)
              ]
        ]
      ]

  -- `enumerate(relationship_source_ids(state.record, relationship))`
  unfoldable pub link_ids :
      MigrationMappingField
      → ℕ
      → ℕ
      → List String
      → RecordState
      → Eff W (RecordState × List LinkInput)
  unfolding link_one
  link_ids f index related_index [] state = pure (state, [])
  link_ids f index related_index (id ∷ ids) state = do
    (linked, input) ← link_one f index related_index id state
    (after, inputs) ← link_ids f index (suc related_index) ids linked
    pure (after, input ++ inputs)

  -- The loop over the relationship fields.
  unfoldable pub link_fields :
      ℕ → List MigrationMappingField → RecordState → Eff W (RecordState × List LinkInput)
  unfolding link_ids
  link_fields index [] state = pure (state, [])
  link_fields index (f ∷ fields) state = do
    (linked, input) ← link_ids f index 0 (relationship_source_ids state.source_record f) state
    (after, inputs) ← link_fields (suc index) fields linked
    pure (after, input ++ inputs)

  -- The loop over the states; a failed one is left out.
  unfoldable pub link_states : List RecordState → Eff W (List RecordState × List LinkInput)
  unfolding link_fields
  link_states [] = pure ([], [])
  link_states (state ∷ states) = do
    (linked, input) ←
        (if state.status == some failed
          then pure (state, [])
          else link_fields 0 (filter (λ f. is_relationship f.mapping_kind) route.fields) state)
    (after, inputs) ← link_states states
    pure (linked ∷ after, input ++ inputs)

  -- `if relationship_batch_writer is not None and relationship_inputs: …`
  unfoldable pub link_batch :
      (List RelationshipWrite → Eff W (List BatchRelationshipWriteResult))
      → List LinkInput
      → List RecordState
      → Eff W (List RecordState)
  unfolding dispatch_write failure_message park_unlinked results_by_trace inputs_by_trace
  link_batch write_relationships [] states = pure states
  link_batch write_relationships (i ∷ inputs) states = λ w.
      let (result, after) =
        dispatch_write host.retry (write_relationships (map (λ x. x.write) (i ∷ inputs))) w in
      elim result [
        | raise e ↦ (
          return (
              park_unlinked (inputs_by_trace [] (i ∷ inputs)) [] (failure_message e) (i ∷ inputs)
                states),
          after,
        )
        | return results ↦ (
          return (
              park_unlinked (inputs_by_trace [] (i ∷ inputs)) (results_by_trace [] results)
                "Destination association batch did not return a result." (i ∷ inputs) states),
          after,
        )
      ]

  -- The relationship phase.
  unfoldable pub link_phase : List RecordState → Eff W (List RecordState)
  unfolding link_states link_batch
  link_phase states = do
    (linked, inputs) ← link_states states
    elim host.links.write_relationships [
      | none ↦ pure linked
      | some write_relationships ↦ link_batch write_relationships inputs linked
    ]
