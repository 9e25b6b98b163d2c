-- ===== src/Mapping/Pending/Remaining.antt =====
-- What a retry of parked relationships leaves parked (mapping/pending_relationships.py).
use sanka.Prelude.{
  String, ◌≡◌, ◌⊎◌, inl, inr, refl, ◌∙◌, Bool, true, false, not, none, some, List, [], ◌∷◌, filter,
  ◌==◌, eq_string, any, arith, contains, Option-cases, Bool-cases,
}
use sanka.Prelude.Dict.{get, Distinct}
use sanka.Fault.{return, Result-cases}
use sanka.Model.{PendingRelationship, PendingRelationships, RelationshipKey}
use sanka.Mapping.Links.{
  LinkHost, eq_relationship_key, relationship_key_eq_iff, linked_record_id,
  related_source_ids_by_pair, link_inputs,
}
use sanka.Mapping.Pending.{resolve_pairs, retry_items, retry_any, retry_pending_relationships}
use sanka.Mapping.Pending.Shrinks.{
  can_link, Shrinks, link_each-Returned, drop_linked-Shrinks, link_batch-Returned,
}

abbrev pub is_retried : List String → RelationshipKey × PendingRelationship → Bool
is_retried excluded (k, r) = not (contains r.source_record_id excluded)

can_link-absent :
    (p : RelationshipKey × PendingRelationship → Bool) (k : RelationshipKey)
    (pending : PendingRelationships)
    → get k pending ≡ none
    → can_link k (filter p pending) ≡ false
unfolding any filter get
can_link-absent p k [] e = refl
can_link-absent p k ((j, r) ∷ pending) e = ground (arith, can_link-absent p k pending)

-- Under a key, in entries with distinct keys, an item is the entry.
can_link-entry :
    (excluded : List String) (k : RelationshipKey) (r : PendingRelationship)
    (pending : PendingRelationships)
    → Distinct pending
    → get k pending ≡ some r
    → can_link k (filter (is_retried excluded) pending) ≡ true
    → (contains r.source_record_id excluded ≡ false) × ((linked_record_id r == "") ≡ false)
unfolding any filter get
can_link-entry excluded k r [] d e c = absurd (cc)
can_link-entry excluded k r ((j, s) ∷ pending) (fresh, d) e c = elim (Bool-cases (j == k)) [
  | inl same ↦
      let k_fresh : get k pending ≡ none = rw (← (relationship_key_eq_iff j k).0 same) fresh in
      ground (arith, same, can_link-absent (is_retried excluded) k pending k_fresh)
  | inr other ↦ ground (arith, other, can_link-entry excluded k r pending d)
]

retry_items-Shrinks :
    {W : Type 0} (host : LinkHost W) (items before after : PendingRelationships) (w : W)
    → (retry_items host items before w).0 ≡ return after
    → Shrinks items before after
unfolding retry_items
retry_items-Shrinks {W} host items before after w h =
    let pairs = related_source_ids_by_pair [] items in
    elim (Result-cases (resolve_pairs host pairs w).0) [
      | inr (fault, failed) ↦ absurd (ground arith)
      | inl (resolved, ok) ↦ elim (Option-cases host.write_relationships) [
        | inl one_by_one ↦
            let (end, e, s) =
              link_each-Returned host resolved items 0 before (resolve_pairs host pairs w).1 in
            let same : end ≡ after = ground (arith, ok, one_by_one, e) in rw (← same) s
        | inr (write, batched) ↦
            let (end, e, s) =
              link_batch-Returned host resolved write (link_inputs resolved 0 items) items before
                (resolve_pairs host pairs w).1
                (λ t. drop_linked-Shrinks host resolved t items 0 before) in
            let same : end ≡ after = ground (arith, ok, batched, e) in rw (← same) s
      ]
    ]

retry_any-Shrinks :
    {W : Type 0} (host : LinkHost W) (items pending after : PendingRelationships) (w : W)
    → (retry_any host items pending w).0 ≡ return after
    → Shrinks items pending after
unfolding retry_any
retry_any-Shrinks host [] pending after w h = λ k. inl (ground arith)
retry_any-Shrinks host (item ∷ items) pending after w h =
    retry_items-Shrinks host (item ∷ items) pending after w h

-- A retry that returns leaves under each key the entry that was parked or none; and it leaves every
-- entry whose record is excluded, and every entry that does not know its destination record.
pub retry_pending_relationships_keeps :
    {W : Type 0} (host : LinkHost W) (pending after : PendingRelationships) (excluded : List String)
    (w : W) (k : RelationshipKey) (r : PendingRelationship)
    → (retry_pending_relationships host pending excluded w).0 ≡ return after
    → Distinct pending
    → get k pending ≡ some r
    → ((get k after ≡ some r) ⊎ (get k after ≡ none))
      × ((contains r.source_record_id excluded ≡ true) ⊎ (linked_record_id r ≡ "")
          → get k after ≡ some r)
retry_pending_relationships_keeps host pending after excluded w k r h d e =
    let items = filter (is_retried excluded) pending in
    let shrinks =
      retry_any-Shrinks host items pending after w (unfold retry_pending_relationships in h) k in
    elim shrinks [
      | inl kept ↦ (inl (kept ∙ e), λ stays. kept ∙ e)
      | inr (can, gone) ↦
          let (free, known) = can_link-entry excluded k r pending d e can in
          (
            inr gone,
            λ stays.
                absurd (ground (arith, free, known, eq_string.beq_iff (linked_record_id r) "")),
          )
    ]
