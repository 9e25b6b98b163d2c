-- ===== src/Batch/Settle/Repair.antt =====
-- The repair of failed records (`run_batch` of execution/routes.py) by what the ledger of local.py holds.
use sanka.Prelude.{
  String, ◌≡◌, ◌⊎◌, Bool, true, false, not, ◌&&◌, Option, none, some, List, [], ◌∷◌, ◌==◌,
  eq_option, eq_string, arith, inl, inr, Bool-cases, Option-cases, contains,
}
use sanka.Prelude.Dict.{get, Distinct}
use sanka.Model.{skipped, is_terminal, eq_status}
use sanka.Ledger.{ResultCell, Table, eq_key, terminal_destination_ids}
use sanka.Ledger.Reads.{result_key, get-terminal_destination_ids}
use sanka.Batch.{RecordState}
use sanka.Batch.Settle.{is_failed, repair, repair_states}

-- The states of two lists, one by one.
unfoldable pub Pairwise :
    (RecordState → RecordState → Type 0) → List RecordState → List RecordState → Type 0
Pairwise R [] [] = Unit
Pairwise R (x ∷ xs) (y ∷ ys) = R x y × Pairwise R xs ys
Pairwise R _ _ = ⊥

module _ (run_id source_object destination_object : String) (table : Table)
    (ids : List String) where
  -- The row of a record.
  abbrev row_of : RecordState → Option ResultCell
  row_of state =
      get (result_key run_id source_object destination_object state.source_record_id) table

  -- A failed record of the page, with an id, whose row has a terminal status.
  unfoldable pub is_committed : RecordState → Bool
  is_committed state =
      is_failed state
      && (not (state.source_record_id == "")
          && (contains state.source_record_id ids
              && elim (row_of state) [ none ↦ false | some cell ↦ is_terminal cell.status ]))

  -- A state after its repair, against the state before: one that was committed is skipped, with its
  -- row's destination id, and any other is the same.
  abbrev pub IsRepaired : RecordState → RecordState → Type 0
  IsRepaired before after =
      ((is_committed before ≡ true)
        × ((cell : ResultCell) × (row_of before ≡ some cell)
            × (after.destination_record_id ≡ cell.destination_record_id))
        × (after.status ≡ some skipped)
        × (after.source_record_id ≡ before.source_record_id))
      ⊎ ((is_committed before ≡ false) × (after ≡ before))

  repair-IsRepaired :
      (state : RecordState)
      → Distinct table
      → IsRepaired state (
          repair (terminal_destination_ids run_id source_object ids destination_object table) state)
  unfolding repair is_committed
  repair-IsRepaired state d =
      let read =
        get-terminal_destination_ids run_id source_object destination_object state.source_record_id
          ids table d in
      elim (Bool-cases (is_committed state)) [
        | inr left ↦ elim (Option-cases (row_of state)) [
          | inl no_row ↦ inr (left, ground (arith, read, no_row))
          | inr (cell, row) ↦ inr (left, ground (arith, read, row, left))
        ]
        | inl committed ↦ elim (Option-cases (row_of state)) [
          | inl no_row ↦ absurd (ground (arith, no_row, committed))
          | inr (cell, row) ↦ inl (
            committed,
            (cell, row, ground (arith, read, row, committed)),
            ground (arith, read, row, committed),
            ground (arith, read, row, committed),
          )
        ]
      ]

  -- The repair by the ledger's answer for the ids of the page goes through the records in order. A failed
  -- record of the page whose row in the ledger has a terminal status becomes `skipped` with the
  -- destination id of that row, and every other record stays as it is: also a failed one without such
  -- a row. The keys of the table are unique.
  pub repair_states-IsRepaired :
      (states : List RecordState)
      → Distinct table
      → Pairwise IsRepaired states (
          repair_states
            (terminal_destination_ids run_id source_object ids destination_object table)
            states)
  unfolding repair_states Pairwise
  repair_states-IsRepaired [] d = tt
  repair_states-IsRepaired (state ∷ states) d =
      (repair-IsRepaired state d, repair_states-IsRepaired states d)
