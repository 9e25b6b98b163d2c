-- ===== src/Ledger/Merge.antt =====
-- The upsert of local.py as an operation on rows: replays and retries of a batch.
use mathlib.Core.List.{foldl-append, map-append}
use sanka.Prelude.{
  String, ◌≡◌, refl, ap, ◌∙◌, Option, none, some, List, [], ◌∷◌, ◌++◌, map, foldl, arith, ◌==◌,
  if◌then◌else◌,
}
use sanka.Prelude.Dict.{get, get-set}
use sanka.Ledger.{
  ResultKey, ResultCell, Table, result_row, eq_key, key_eq_iff, on_conflict, upsert_row,
  upsert_results,
}
use sanka.Model.{RecordWriteOutcome}

-- Merging rows is associative, so a batch acts on a stored row as one row does.
pub on_conflict_assoc :
    (a b c : ResultCell) → on_conflict (on_conflict a b) c ≡ on_conflict a (on_conflict b c)
unfolding on_conflict
on_conflict_assoc a b c = ground arith

pub on_conflict_idem : (a : ResultCell) → on_conflict a a ≡ a
unfolding on_conflict
on_conflict_idem a = ground arith

foldl-on_conflict :
    (a c : ResultCell) (cells : List ResultCell)
    → foldl on_conflict (on_conflict a c) cells ≡ on_conflict a (foldl on_conflict c cells)
foldl-on_conflict a c [] = refl
foldl-on_conflict a c (d ∷ cells) =
    rw on_conflict_assoc (foldl-on_conflict a (on_conflict c d) cells)

-- What becomes of one key's row.
abbrev pub absorb_cell : Option ResultCell → ResultCell → Option ResultCell
absorb_cell none c = some c
absorb_cell (some row) c = some (on_conflict row c)

abbrev pub absorb : Option ResultCell → List ResultCell → Option ResultCell
absorb = foldl absorb_cell

pub absorb-some :
    (row : ResultCell) (cells : List ResultCell)
    → absorb (some row) cells ≡ some (foldl on_conflict row cells)
absorb-some row [] = refl
absorb-some row (c ∷ cells) = absorb-some (on_conflict row c) cells

absorb_twice :
    (o : Option ResultCell) (cells : List ResultCell)
    → absorb (absorb o cells) cells ≡ absorb o cells
absorb_twice o [] = refl
absorb_twice none (c ∷ cells) =
    let w = foldl on_conflict c cells in
    rw (absorb-some c cells) (
      absorb-some (on_conflict w c) cells
      ∙ ap some (foldl-on_conflict w c cells ∙ on_conflict_idem w))
absorb_twice (some row) (c ∷ cells) =
    let w = foldl on_conflict c cells in
    let once : foldl on_conflict (on_conflict row c) cells ≡ on_conflict row w =
      foldl-on_conflict row c cells in
    rw (absorb-some (on_conflict row c) cells, once)
      (absorb-some (on_conflict (on_conflict row w) c) cells
        ∙ ap some (
            foldl-on_conflict (on_conflict row w) c cells
            ∙ on_conflict_assoc row w w
            ∙ ap (on_conflict row) (on_conflict_idem w)))

-- The rows of one key, in order.
unfoldable pub cells_for : ResultKey → List (ResultKey × ResultCell) → List ResultCell
cells_for k [] = []
cells_for k ((j, c) ∷ rows) = if j == k then c ∷ cells_for k rows else cells_for k rows

pub get-upsert_rows :
    (k : ResultKey) (rows : List (ResultKey × ResultCell)) (table : Table)
    → get k (foldl upsert_row table rows) ≡ absorb (get k table) (cells_for k rows)
unfolding cells_for upsert_row
get-upsert_rows k [] table = refl
get-upsert_rows k ((j, c) ∷ rows) table = ground (
  arith,
  get-upsert_rows k rows (upsert_row table (j, c)),
  get-set j k (elim (get j table) [ none ↦ c | some row ↦ on_conflict row c ]) table,
  key_eq_iff j k,
)

cells_for-append :
    (k : ResultKey) (xs ys : List (ResultKey × ResultCell))
    → cells_for k (xs ++ ys) ≡ cells_for k xs ++ cells_for k ys
unfolding cells_for
cells_for-append k [] ys = refl
cells_for-append k ((j, c) ∷ xs) ys = ground (arith, cells_for-append k xs ys)

pub upsert_results-eq :
    (run_id : String) (results : List RecordWriteOutcome) (table : Table)
    → (upsert_results run_id results table).1
      ≡ foldl upsert_row table (map (result_row run_id) results)
unfolding upsert_results
upsert_results-eq run_id [] table = refl
upsert_results-eq run_id (outcome ∷ rest) table = refl

-- A write of `xs` that is followed by a retry of the whole batch `xs ++ ys`, as after a crash in the
-- middle of a batch, leaves under every key the row that one write of `xs ++ ys` leaves.
pub upsert_results_resume :
    (run_id : String) (xs ys : List RecordWriteOutcome) (table : Table) (k : ResultKey)
    → get k (upsert_results run_id (xs ++ ys) (upsert_results run_id xs table).1).1
      ≡ get k (upsert_results run_id (xs ++ ys) table).1
upsert_results_resume run_id xs ys table k =
    simp (upsert_results-eq, map-append, foldl-append, get-upsert_rows, absorb_twice)
