-- ===== src/Mapping/Pending/Shrinks.antt =====
-- The writes of one retry only take parked relationships away (mapping/pending_relationships.py).
use sanka.Prelude.{
  ℕ, suc, String, ◌≡◌, ◌⊎◌, inl, inr, refl, Bool, true, false, ◌&&◌, not, none, some, List, [], ◌∷◌,
  map, ◌==◌, eq_string, any, arith, Option-cases, Bool-cases,
}
use sanka.Prelude.Dict.{Dict, get, pop, get-pop}
use sanka.Fault.{Result, return, Result-cases}
use sanka.Effect.{Eff}
use sanka.Model.{PendingRelationship, PendingRelationships, RelationshipKey}
use sanka.Records.{RelationshipWrite, BatchRelationshipWriteResult}
use sanka.Mapping.Links.{
  Pair, LinkHost, eq_relationship_key, relationship_key_eq_iff, linked_record_id, pending_write,
  link_inputs, results_by_trace, drop_linked, is_linked,
}
use sanka.Mapping.Pending.{link_each, link_batch}

-- Some item under the key knows its destination record.
abbrev pub can_link : RelationshipKey → PendingRelationships → Bool
can_link k = any (λ (j, r). j == k && not (linked_record_id r == ""))

-- Under every key the entry stays, or the key can link and its entry is gone.
abbrev pub Shrinks : PendingRelationships → PendingRelationships → PendingRelationships → Type 0
Shrinks items before after =
    (k : RelationshipKey)
    → (get k after ≡ get k before) ⊎ ((can_link k items ≡ true) × (get k after ≡ none))

pending_write-none :
    (resolved : Dict Pair (Dict String String)) (index : ℕ) (r : PendingRelationship)
    (write : RelationshipWrite)
    → pending_write resolved index r ≡ some write
    → (linked_record_id r == "") ≡ false
unfolding pending_write
pending_write-none resolved index r write h = ground arith

module _ (items : PendingRelationships) where
  Shrinks-refl : (before : PendingRelationships) → Shrinks items before before
  Shrinks-refl before k = inl refl

  Shrinks-pop :
      (j : RelationshipKey) (before after : PendingRelationships)
      → can_link j items ≡ true
      → Shrinks items (pop j before) after
      → Shrinks items before after
  Shrinks-pop j before after links h k =
      ground (arith, h k, get-pop j k before, relationship_key_eq_iff j k)

Shrinks-cons :
    (item : RelationshipKey × PendingRelationship) (items before after : PendingRelationships)
    → Shrinks items before after
    → Shrinks (item ∷ items) before after
unfolding any
Shrinks-cons (j, r) items before after h k = ground (arith, h k)

can_link-head :
    (resolved : Dict Pair (Dict String String)) (index : ℕ) (k : RelationshipKey)
    (r : PendingRelationship) (items : PendingRelationships) (write : RelationshipWrite)
    → pending_write resolved index r ≡ some write
    → can_link k ((k, r) ∷ items) ≡ true
unfolding any
can_link-head resolved index k r items write h =
    ground (arith, pending_write-none resolved index r write h, relationship_key_eq_iff k k)

module _ {W : Type 0} (host : LinkHost W) (resolved : Dict Pair (Dict String String)) where
  -- The result is a return, of entries that shrink `before`.
  abbrev Returned :
      PendingRelationships → PendingRelationships → Result PendingRelationships → Type 0
  Returned items before r =
      (after : PendingRelationships) × (r ≡ return after) × Shrinks items before after

  pub link_each-Returned :
      (items : PendingRelationships) (index : ℕ) (before : PendingRelationships) (w : W)
      → Returned items before (link_each host resolved index items before w).0
  unfolding link_each
  link_each-Returned [] index before w = (before, refl, Shrinks-refl [] before)
  link_each-Returned ((k, r) ∷ items) index before w =
      elim (Option-cases (pending_write resolved index r)) [
        | inl unresolved ↦
            let (after, e, s) = link_each-Returned items (suc index) before w in
            (after, ground (arith, unresolved, e), Shrinks-cons (k, r) items before after s)
        | inr (write, there) ↦
            let w' = (host.write_relationship write w).1 in
            elim (Result-cases (host.write_relationship write w).0) [
              | inl (done, ok) ↦
                  let (after, e, s) = link_each-Returned items (suc index) (pop k before) w' in
                  (
                    after,
                    ground (arith, there, ok, e),
                    Shrinks-pop ((k, r) ∷ items) k before after
                        (can_link-head resolved index k r items write there)
                        (Shrinks-cons (k, r) items (pop k before) after s),
                  )
              | inr (fault, failed) ↦
                  let (after, e, s) = link_each-Returned items (suc index) before w' in
                  (
                    after,
                    ground (arith, there, failed, e),
                    Shrinks-cons (k, r) items before after s,
                  )
            ]
      ]

  -- The batch's loop over one item more.
  drop_linked-cons :
      (by_trace : Dict String BatchRelationshipWriteResult) (k : RelationshipKey)
      (r : PendingRelationship) (items : PendingRelationships) (index : ℕ)
      (before : PendingRelationships)
      → (drop_linked by_trace (link_inputs resolved index ((k, r) ∷ items)) before
          ≡ drop_linked by_trace (link_inputs resolved (suc index) items) before)
        ⊎ ((can_link k ((k, r) ∷ items) ≡ true)
            × (drop_linked by_trace (link_inputs resolved index ((k, r) ∷ items)) before
                ≡ drop_linked by_trace (link_inputs resolved (suc index) items) (pop k before)))
  unfolding drop_linked link_inputs
  drop_linked-cons by_trace k r items index before =
      elim (Option-cases (pending_write resolved index r)) [
        | inl unresolved ↦ inl (ground (arith, unresolved))
        | inr (write, there) ↦ elim (Bool-cases (is_linked (get write.trace_id by_trace))) [
          | inl linked ↦
              inr
                (can_link-head resolved index k r items write there, ground (arith, there, linked))
          | inr unlinked ↦ inl (ground (arith, there, unlinked))
        ]
      ]

  pub drop_linked-Shrinks :
      (by_trace : Dict String BatchRelationshipWriteResult) (items : PendingRelationships)
      (index : ℕ) (before : PendingRelationships)
      → Shrinks items before (drop_linked by_trace (link_inputs resolved index items) before)
  drop_linked-Shrinks by_trace [] index before =
      unfold drop_linked link_inputs in Shrinks-refl [] before
  drop_linked-Shrinks by_trace ((k, r) ∷ items) index before =
      step (drop_linked by_trace (link_inputs resolved index ((k, r) ∷ items)) before)
        (drop_linked-cons by_trace k r items index before)
        (drop_linked-Shrinks by_trace items (suc index) before)
        (drop_linked-Shrinks by_trace items (suc index) (pop k before))
    where
      rest : PendingRelationships → PendingRelationships
      rest b = drop_linked by_trace (link_inputs resolved (suc index) items) b

      step :
          (after : PendingRelationships)
          → (after ≡ rest before)
            ⊎ ((can_link k ((k, r) ∷ items) ≡ true) × (after ≡ rest (pop k before)))
          → Shrinks items before (rest before)
          → Shrinks items (pop k before) (rest (pop k before))
          → Shrinks ((k, r) ∷ items) before after
      step after (inl same) s t = rw same (Shrinks-cons (k, r) items before (rest before) s)
      step after (inr (can, popped)) s t = rw popped (
          Shrinks-pop ((k, r) ∷ items) k before (rest (pop k before)) can
            (Shrinks-cons (k, r) items (pop k before) (rest (pop k before)) t))

  pub link_batch-Returned :
      (write_relationships : List RelationshipWrite → Eff W (List BatchRelationshipWriteResult))
      (inputs : List (RelationshipWrite × RelationshipKey)) (items before : PendingRelationships)
      (w : W)
      → ((t : Dict String BatchRelationshipWriteResult)
          → Shrinks items before (drop_linked t inputs before))
      → Returned items before (link_batch host write_relationships inputs before w).0
  unfolding link_batch
  link_batch-Returned write_relationships [] items before w s = (before, refl, λ k. inl refl)
  link_batch-Returned write_relationships (i ∷ inputs) items before w s =
      elim (Result-cases (write_relationships (map (λ x. x.0) (i ∷ inputs)) w).0) [
        | inl (results, ok) ↦ (
          drop_linked (results_by_trace [] results) (i ∷ inputs) before,
          ground (arith, ok),
          s (results_by_trace [] results),
        )
        | inr (fault, failed) ↦ (
          drop_linked (results_by_trace [] []) (i ∷ inputs) before,
          ground (arith, failed),
          s (results_by_trace [] []),
        )
      ]
