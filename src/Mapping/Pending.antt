-- ===== src/Mapping/Pending.antt =====
-- The retry of deferred relationships (mapping/pending_relationships.py).
pub mod Shrinks
pub mod Remaining
use Prim.Native.String.{◌++◌ as join}
use sanka.Prelude.{
  ℕ, suc, String, ◌≡◌, ◌↔◌, Bool, true, false, ◌&&◌, ◌||◌, not, Option, none, some, List, [], ◌∷◌,
  ◌++◌, map, if◌then◌else◌, filter, ◌==◌, eq_string, eq_option, eq_nat, eq_pair, Eq, any, all,
  arith, contains, ltb, length,
}
use sanka.Prelude.Dict.{Dict, get, set, pop, get_or, has, update, append_to}
use sanka.Prelude.Text.{strip, decimal}
use sanka.Prelude.Sort.{sorted_set}
use sanka.Fault.{Fault, mapping_error, Result, return, raise}
use sanka.Effect.{Eff, pure, throw, catch, ◌>>=◌, ◌>>◌}
use sanka.Model.{PendingRelationship, PendingRelationships, RelationshipKey}
use sanka.Ledger.{normalized_ids}
use sanka.Records.{
  RelationshipWrite, RelationshipWriteResult, BatchRelationshipWriteResult, RelationshipStatus,
}
use sanka.Mapping.Links.{
  eq_relationship_key, pending_relationship_key, LinkHost, target_ambiguous, single_candidates,
  is_ambiguous, Pair, linked_record_id, related_source_ids_by_pair, pending_write, link_inputs,
  results_by_trace, is_linked, drop_linked,
}

module _ {W : Type 0} (host : LinkHost W) where
  -- The shared lookup, made for the ids that the run's ledger lacks.
  unfoldable pub resolve_shared :
      (String → List String → String → Eff W (Dict String (List String)))
      → String
      → String
      → List String
      → Dict String String
      → Eff W (Dict String String)
  unfolding single_candidates
  resolve_shared get_shared source_object destination_object [] destination_ids =
      pure destination_ids
  resolve_shared get_shared source_object destination_object (m ∷ missing) destination_ids = do
    shared ← get_shared source_object (m ∷ missing) destination_object
    (if any is_ambiguous shared
        then throw target_ambiguous
        else pure (update destination_ids (single_candidates shared)))

  -- `resolve_destination_record_ids`
  unfoldable pub resolve_destination_record_ids :
      String → List String → String → Eff W (Dict String String)
  unfolding resolve_shared normalized_ids
  resolve_destination_record_ids source_object source_record_ids destination_object = do
    let ids = normalized_ids source_record_ids
    destination_ids ← host.get_destination_record_ids source_object ids destination_object
    let missing = sorted_set (filter (λ i. not (has i destination_ids)) ids)
    elim host.get_shared_destination_record_ids [
      | none ↦ pure destination_ids
      | some get_shared ↦
          resolve_shared get_shared source_object destination_object missing destination_ids
    ]

  -- One lookup per pair.
  unfoldable pub resolve_pairs : Dict Pair (List String) → Eff W (Dict Pair (Dict String String))
  unfolding resolve_destination_record_ids
  resolve_pairs [] = pure []
  resolve_pairs (((source_object, destination_object), ids) ∷ pairs) = do
    resolved ← resolve_destination_record_ids source_object (sorted_set ids) destination_object
    rest ← resolve_pairs pairs
    pure (((source_object, destination_object), resolved) ∷ rest)

  -- The loop without batch writes: each write that does not raise takes its entry out.
  unfoldable pub link_each :
      Dict Pair (Dict String String)
      → ℕ
      → PendingRelationships
      → PendingRelationships
      → Eff W PendingRelationships
  unfolding pending_write
  link_each resolved index [] remaining = pure remaining
  link_each resolved index ((k, r) ∷ items) remaining = elim (pending_write resolved index r) [
    | none ↦ link_each resolved (suc index) items remaining
    | some write ↦ λ w.
        let (result, after) = host.write_relationship write w in
        elim result [
          | raise e ↦ link_each resolved (suc index) items remaining after
          | return a ↦ link_each resolved (suc index) items (pop k remaining) after
        ]
  ]

  -- `if batch_destination is not None and relationship_inputs: …`
  unfoldable pub link_batch :
      (List RelationshipWrite → Eff W (List BatchRelationshipWriteResult))
      → List (RelationshipWrite × RelationshipKey)
      → PendingRelationships
      → Eff W PendingRelationships
  unfolding results_by_trace drop_linked
  link_batch write_relationships [] remaining = pure remaining
  link_batch write_relationships (i ∷ inputs) remaining = do
    results ← catch (write_relationships (map (λ x. x.0) (i ∷ inputs))) (λ e. pure [])
    pure (drop_linked (results_by_trace [] results) (i ∷ inputs) remaining)

  -- The part of `retry_pending_relationships` below the first return.
  unfoldable pub retry_items :
      PendingRelationships → PendingRelationships → Eff W PendingRelationships
  unfolding related_source_ids_by_pair resolve_pairs link_each link_inputs link_batch
  retry_items items remaining = do
    resolved ← resolve_pairs (related_source_ids_by_pair [] items)
    elim host.write_relationships [
      | none ↦ link_each resolved 0 items remaining
      | some write_relationships ↦
          link_batch write_relationships (link_inputs resolved 0 items) remaining
    ]

  -- `if not retry_items: return remaining`, and the rest.
  unfoldable pub retry_any :
      PendingRelationships → PendingRelationships → Eff W PendingRelationships
  unfolding retry_items
  retry_any [] remaining = pure remaining
  retry_any (item ∷ items) remaining = retry_items (item ∷ items) remaining

  -- `retry_pending_relationships`
  unfoldable pub retry_pending_relationships :
      PendingRelationships → List String → Eff W PendingRelationships
  unfolding retry_any
  retry_pending_relationships pending excluded =
      retry_any (filter (λ (k, r). not (contains r.source_record_id excluded)) pending) pending
