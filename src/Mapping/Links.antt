-- ===== src/Mapping/Links.antt =====
-- Deferred relationships (mapping/pending_relationships.py): keys, the ids to resolve and the writes.
-- The ledgers and the destination are the host's, and stand as the calls of a `LinkHost` on a world `W`.
use Prim.Native.String.{◌++◌ as join}
use sanka.Prelude.{
  ℕ, suc, String, ◌≡◌, ◌↔◌, Bool, true, false, ◌&&◌, ◌||◌, Option, none, some, List, [], ◌∷◌,
  if◌then◌else◌, ◌==◌, eq_string, eq_option, eq_nat, eq_pair, Eq, arith, ltb, length,
}
use sanka.Prelude.Dict.{Dict, get, set, pop, get_or, append_to}
use sanka.Prelude.Text.{strip, decimal}
use sanka.Fault.{Fault, mapping_error}
use sanka.Effect.{Eff}
use sanka.Model.{PendingRelationship, PendingRelationships, RelationshipKey}
use sanka.Records.{
  RelationshipWrite, RelationshipWriteResult, BatchRelationshipWriteResult, RelationshipStatus,
}

abbrev pub relationship_key_eq : RelationshipKey → RelationshipKey → Bool
relationship_key_eq a b =
    a.source_record_id == b.source_record_id
    && (a.destination_object == b.destination_object
        && (a.relationship_field == b.relationship_field
            && (a.related_source_object == b.related_source_object
                && (a.related_source_record_id == b.related_source_record_id
                    && (a.related_destination_object == b.related_destination_object
                        && (a.relationship_mode == b.relationship_mode
                            && (a.association_category == b.association_category
                                && a.association_type_id == b.association_type_id)))))))

pub relationship_key_eq_iff : (a b : RelationshipKey) → (relationship_key_eq a b ≡ true) ↔ (a ≡ b)
relationship_key_eq_iff a b = ground (
  arith,
  eq_string.beq_iff a.source_record_id b.source_record_id,
  eq_string.beq_iff a.destination_object b.destination_object,
  eq_string.beq_iff a.relationship_field b.relationship_field,
  eq_string.beq_iff a.related_source_object b.related_source_object,
  eq_string.beq_iff a.related_source_record_id b.related_source_record_id,
  eq_string.beq_iff a.related_destination_object b.related_destination_object,
  eq_string.beq_iff a.relationship_mode b.relationship_mode,
  (eq_option {A = String}).beq_iff a.association_category b.association_category,
  (eq_option {A = ℕ}).beq_iff a.association_type_id b.association_type_id,
)

instance abbrev pub eq_relationship_key : Eq RelationshipKey
eq_relationship_key = record { beq = relationship_key_eq; beq_iff = relationship_key_eq_iff }

-- `pending_relationship_key`
unfoldable pub pending_relationship_key : PendingRelationship → RelationshipKey
pending_relationship_key r = record {
  source_record_id = r.source_record_id;
  destination_object = r.destination_object;
  relationship_field = r.relationship_field;
  related_source_object = r.related_source_object;
  related_source_record_id = r.related_source_record_id;
  related_destination_object = r.related_destination_object;
  relationship_mode = r.relationship_mode;
  association_category = r.association_category;
  association_type_id = r.association_type_id;
}

-- `pending_relationship_source_ids`
unfoldable pub pending_relationship_source_ids : PendingRelationships → List String
pending_relationship_source_ids [] = []
pending_relationship_source_ids ((k, r) ∷ pending) =
    let rest = pending_relationship_source_ids pending in
    if strip r.source_record_id == "" then rest else r.source_record_id ∷ rest

-- The calls that links need: the two identity ledgers and the relationship writes of a `DataWriter`,
-- in one batch where it `SupportsBatchRelationshipWrites`.
pub record LinkHost (W : Type 0) : Type 0 where
  pub get_destination_record_ids : String → List String → String → Eff W (Dict String String)
  pub get_shared_destination_record_ids :
      Option (String → List String → String → Eff W (Dict String (List String)))
  pub write_relationship : RelationshipWrite → Eff W RelationshipWriteResult
  pub write_relationships :
      Option (List RelationshipWrite → Eff W (List BatchRelationshipWriteResult))

abbrev pub target_ambiguous : Fault
target_ambiguous =
    mapping_error "Referenced destination records are ambiguous across compatible Sanka runs."
      "SANKA_MIGRATE_RELATIONSHIP_TARGET_AMBIGUOUS"

-- The entries with exactly one candidate.
unfoldable pub single_candidates : Dict String (List String) → List (String × String)
single_candidates [] = []
single_candidates ((source_id, id ∷ []) ∷ shared) = (source_id, id) ∷ single_candidates shared
single_candidates ((source_id, ids) ∷ shared) = single_candidates shared

abbrev pub is_ambiguous : String × List String → Bool
is_ambiguous (source_id, ids) = ltb 1 (length ids)

-- The source and destination objects of a relationship's other end.
abbrev pub Pair : Type 0
Pair = String × String

-- `str(relationship["destinationRecordId"] or "").strip()`
abbrev pub linked_record_id : PendingRelationship → String
linked_record_id r = strip (elim r.destination_record_id [ none ↦ "" | some d ↦ d ])

-- The pairs of related objects, each with its related source ids.
unfoldable pub related_source_ids_by_pair :
    Dict Pair (List String) → PendingRelationships → Dict Pair (List String)
related_source_ids_by_pair ids [] = ids
related_source_ids_by_pair ids ((k, r) ∷ items) =
    related_source_ids_by_pair
      (append_to (r.related_source_object, r.related_destination_object) r.related_source_record_id
        ids)
      items

-- The write of a pending relationship, where both ends are known.
unfoldable pub pending_write :
    Dict Pair (Dict String String) → ℕ → PendingRelationship → Option RelationshipWrite
pending_write resolved index r =
    let record_id = linked_record_id r in
    let pair : Pair = (r.related_source_object, r.related_destination_object) in
    elim (get r.related_source_record_id (get_or pair [] resolved)) [
      | none ↦ none
      | some related ↦
          if record_id == "" || related == ""
          then none
          else some (record {
            trace_id = join "pending:" (decimal index);
            object_type = r.destination_object;
            record_id = record_id;
            relationship_field = r.relationship_field;
            related_object_type = r.related_destination_object;
            related_record_id = related;
            relationship_mode = r.relationship_mode;
            association_category = r.association_category;
            association_type_id = r.association_type_id;
          })
    ]

-- The loop that collects a batch, with `pending_key_by_trace`.
unfoldable pub link_inputs :
    Dict Pair (Dict String String)
    → ℕ
    → PendingRelationships
    → List (RelationshipWrite × RelationshipKey)
unfolding pending_write
link_inputs resolved index [] = []
link_inputs resolved index ((k, r) ∷ items) =
    let rest = link_inputs resolved (suc index) items in
    elim (pending_write resolved index r) [ none ↦ rest | some write ↦ (write, k) ∷ rest ]

-- `{result.trace_id: result for result in results}`
unfoldable pub results_by_trace :
    Dict String BatchRelationshipWriteResult
    → List BatchRelationshipWriteResult
    → Dict String BatchRelationshipWriteResult
results_by_trace by_trace [] = by_trace
results_by_trace by_trace (r ∷ results) = results_by_trace (set r.trace_id r by_trace) results

abbrev pub is_linked : Option BatchRelationshipWriteResult → Bool
is_linked none = false
is_linked (some r) = elim r.status [ RelationshipStatus.failed ↦ false | _ ↦ true ]

-- The loop over the results of the batch.
unfoldable pub drop_linked :
    Dict String BatchRelationshipWriteResult
    → List (RelationshipWrite × RelationshipKey)
    → PendingRelationships
    → PendingRelationships
drop_linked by_trace [] remaining = remaining
drop_linked by_trace ((write, k) ∷ inputs) remaining =
    drop_linked by_trace inputs
      (if is_linked (get write.trace_id by_trace) then pop k remaining else remaining)
