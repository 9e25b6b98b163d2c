-- ===== src/Ledger/Pairs/FailedIds.antt =====
-- The failed ids by pair against the rows of the ledger (runtime/execution/local.py).
use sanka.Prelude.{
  String, ◌≡◌, refl, ap, ◌∙◌, Bool, false, ◌&&◌, ◌||◌, Option, none, some, List, [], ◌∷◌, ◌++◌, map,
  if◌then◌else◌, ◌==◌, eq_string, eq_pair, filter, contains, contains-append, any, arith,
  Bool-cases, inl, inr, beq_refl,
}
use sanka.Prelude.Dict.{Dict, get, get_or, get-set, Distinct, set-Distinct}
use sanka.Prelude.Sort.{sort, insert_sorted}
use sanka.Model.{failed, eq_status}
use sanka.Ledger.{ResultKey, ResultCell, Table, run_rows, eq_key, key_eq_iff}
use sanka.Ledger.Reads.{result_key}
use sanka.Ledger.Pairs.{
  PairFailedIds, add_failed, failed_by_pair, failed_rows, failed_of, failed_source_ids_by_pair,
  pair_le,
}

-- The row under the key is there and failed.
abbrev pub is_failed_row : Option ResultCell → Bool
is_failed_row none = false
is_failed_row (some cell) = cell.status == failed

module _ {A : Type 0} (p : A → Bool) where
  any-insert_sorted :
      (le : A → A → Bool) (a : A) (xs : List A) → any p (insert_sorted le a xs) ≡ (p a || any p xs)
  unfolding insert_sorted any
  any-insert_sorted le a [] = refl
  any-insert_sorted le a (x ∷ xs) = ground (arith, any-insert_sorted le a xs)

  any-sort : (le : A → A → Bool) (xs : List A) → any p (sort le xs) ≡ any p xs
  unfolding sort any
  any-sort le [] = refl
  any-sort le (x ∷ xs) = ground (arith, any-sort le xs, any-insert_sorted le x (sort le xs))

any-map :
    {A B : Type 0} (p : B → Bool) (f : A → B) (xs : List A)
    → any p (map f xs) ≡ any (λ x. p (f x)) xs
unfolding any
any-map p f [] = refl
any-map p f (x ∷ xs) = ap (λ b. p (f x) || b) (any-map p f xs)

failed_by_pair-Distinct :
    (failed_ids : Dict (String × String) (List String)) (rows : Table)
    → Distinct failed_ids
    → Distinct (failed_by_pair failed_ids rows)
unfolding failed_by_pair add_failed
failed_by_pair-Distinct failed_ids [] d = d
failed_by_pair-Distinct failed_ids ((k, cell) ∷ rows) d =
    failed_by_pair-Distinct (add_failed k failed_ids) rows (set-Distinct _ _ failed_ids d)

module _ (source_object destination_object id : String) where
  abbrev pair : String × String
  pair = (source_object, destination_object)

  -- A row of this record, a dict entry that has it, and an item of the result that has it.
  abbrev names_row : ResultKey × ResultCell → Bool
  names_row (k, cell) =
      k.source_object == source_object
      && (k.destination_object == destination_object && k.source_record_id == id)

  abbrev pub lists : PairFailedIds → Bool
  lists p =
      p.source_object == source_object
      && (p.destination_object == destination_object && contains id p.source_record_ids)

  contains-add_failed :
      (k : ResultKey) (cell : ResultCell) (failed_ids : Dict (String × String) (List String))
      → contains id (get_or pair [] (add_failed k failed_ids))
        ≡ (contains id (get_or pair [] failed_ids) || names_row (k, cell))
  unfolding add_failed get_or contains
  contains-add_failed k cell failed_ids =
      let row_pair : String × String = (k.source_object, k.destination_object) in
      let ids = get_or row_pair [] failed_ids in
      ground (
        arith,
        get-set row_pair pair
            (if contains k.source_record_id ids then ids else ids ++ k.source_record_id ∷ [])
            failed_ids,
        contains-append id ids (k.source_record_id ∷ []),
        eq_string.beq_iff k.source_object source_object,
        eq_string.beq_iff k.destination_object destination_object,
        eq_string.beq_iff k.source_record_id id,
      )

  contains-failed_by_pair :
      (failed_ids : Dict (String × String) (List String)) (rows : Table)
      → contains id (get_or pair [] (failed_by_pair failed_ids rows))
        ≡ (contains id (get_or pair [] failed_ids) || any names_row rows)
  unfolding failed_by_pair any
  contains-failed_by_pair failed_ids [] = ground arith
  contains-failed_by_pair failed_ids ((k, cell) ∷ rows) = ground (
    arith,
    contains-failed_by_pair (add_failed k failed_ids) rows,
    contains-add_failed k cell failed_ids,
  )

  any-lists :
      (failed_ids : Dict (String × String) (List String))
      → Distinct failed_ids
      → any (λ e. lists (failed_of e)) failed_ids ≡ contains id (get_or pair [] failed_ids)
  unfolding any get_or get contains
  any-lists [] d = refl
  any-lists (((s, t), ids) ∷ rest) (fresh, d) = ground (
    arith,
    any-lists rest d,
    fresh,
    eq_string.beq_iff s source_object,
    eq_string.beq_iff t destination_object,
  )

  any-failed_rows :
      (run_id : String) (table : Table)
      → Distinct table
      → any names_row (failed_rows run_id table)
        ≡ is_failed_row (get (result_key run_id source_object destination_object id) table)
  unfolding any filter get run_rows
  any-failed_rows run_id [] d = refl
  any-failed_rows run_id ((k, cell) ∷ table) (fresh, d) =
      let key = result_key run_id source_object destination_object id in
      elim (Bool-cases (k == key)) [
        | inl same ↦ ground (
          arith,
          any-failed_rows run_id table d,
          (key_eq_iff k key).0 same,
          fresh,
          beq_refl run_id,
          beq_refl source_object,
          beq_refl destination_object,
          beq_refl id,
        )
        | inr other ↦ ground (arith, any-failed_rows run_id table d, other)
      ]

  -- On a table with unique keys, the result of `failed_source_ids_by_pair` lists an id under its pair of
  -- objects exactly if the id's row is there with the status `failed`.
  pub failed_source_ids_by_pair-lists :
      (run_id : String) (table : Table)
      → Distinct table
      → any lists (failed_source_ids_by_pair run_id table)
        ≡ is_failed_row (get (result_key run_id source_object destination_object id) table)
  unfolding failed_source_ids_by_pair
  failed_source_ids_by_pair-lists run_id table d =
      let found = failed_by_pair [] (failed_rows run_id table) in
      any-map lists failed_of (sort (λ a b. pair_le a.0 b.0) found)
      ∙ any-sort (λ e. lists (failed_of e)) (λ a b. pair_le a.0 b.0) found
      ∙ any-lists found (failed_by_pair-Distinct [] (failed_rows run_id table) tt)
      ∙ contains-failed_by_pair [] (failed_rows run_id table)
      ∙ unfold get_or get contains in any-failed_rows run_id table d
