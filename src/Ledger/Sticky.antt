-- ===== src/Ledger/Sticky.antt =====
-- Terminal rows of the ledger under later batches (runtime/execution/local.py).
use mathlib.Core.List.{foldl-append, map-append}
use sanka.Prelude.{
  String, ◌≡◌, ◌≢◌, refl, true, none, some, List, [], ◌∷◌, ◌++◌, map, foldl, arith, eq_string,
  eq_nat, ◌==◌, Option-cases, Bool-cases, inl, inr,
}
use sanka.Prelude.Dict.{get, get-set, get-set_self}
use sanka.Ledger.{
  ResultKey, ResultCell, Table, result_row, eq_key, key_eq_iff, on_conflict, upsert_row,
  upsert_results,
}
use sanka.Model.{RecordWriteOutcome, eq_status, is_terminal}
use sanka.Ledger.Merge.{upsert_results-eq}

-- `later` holds what `row` had settled: the terminal status, and a known destination id.
pub record Settles (row later : ResultCell) : Type 0 where
  pub status : later.status ≡ row.status
  pub destination : row.destination_record_id ≢ none → later.destination_record_id ≢ none

on_conflict-Settles :
    (row c : ResultCell) → is_terminal row.status ≡ true → Settles row (on_conflict row c)
unfolding on_conflict
on_conflict-Settles row c h = ground arith

Settles-trans : {a b c : ResultCell} → Settles a b → Settles b c → Settles a c
Settles-trans p q = ground (arith, p.destination, q.destination)

module _ (k : ResultKey) where
  -- The row under `k` is there, and settles what `row` did.
  abbrev pub Holds : ResultCell → Table → Type 0
  Holds row table = (later : ResultCell) × (get k table ≡ some later) × Settles row later

  upsert_row-Holds :
      (row : ResultCell) (entry : ResultKey × ResultCell) (table : Table)
      → is_terminal row.status ≡ true
      → Holds row table
      → Holds row (upsert_row table entry)
  unfolding upsert_row
  upsert_row-Holds row (j, c) table t (later, e, s) = elim (Bool-cases (j == k)) [
    | inl same ↦ (
      on_conflict later c,
      ground (
        arith,
        get-set j k (elim (get j table) [ none ↦ c | some r ↦ on_conflict r c ]) table,
        (key_eq_iff j k).0 same,
      ),
      Settles-trans s (on_conflict-Settles later c (ground arith)),
    )
    | inr other ↦ (
      later,
      ground
          (arith, get-set j k (elim (get j table) [ none ↦ c | some r ↦ on_conflict r c ]) table),
      s,
    )
  ]

  rows-Holds :
      (row : ResultCell) (rows : List (ResultKey × ResultCell)) (table : Table)
      → is_terminal row.status ≡ true
      → Holds row table
      → Holds row (foldl upsert_row table rows)
  rows-Holds row [] table t h = h
  rows-Holds row (r ∷ rows) table t h =
      rows-Holds row rows (upsert_row table r) t (upsert_row-Holds row r table t h)

-- A row with a terminal status keeps that status through any sequence of batches of any runs, and a
-- destination id that it has is replaced at most by another, never by none.
pub terminal_sticky :
    (k : ResultKey) (row : ResultCell) (batches : List (String × List RecordWriteOutcome))
    (table : Table)
    → get k table ≡ some row
    → is_terminal row.status ≡ true
    → Holds k row (foldl (λ t b. (upsert_results b.0 b.1 t).1) table batches)
terminal_sticky k row batches table e t =
    go batches table (row, e, record { status = refl; destination = λ h. h })
  where
    go :
        (bs : List (String × List RecordWriteOutcome)) (tb : Table)
        → Holds k row tb
        → Holds k row (foldl (λ t b. (upsert_results b.0 b.1 t).1) tb bs)
    go [] tb h = h
    go ((r, results) ∷ bs) tb h =
        go bs (upsert_results r results tb).1
          (rw upsert_results-eq (rows-Holds k row (map (result_row r) results) tb t h))

upsert_row-terminal :
    (k : ResultKey) (c : ResultCell) (table : Table)
    → is_terminal c.status ≡ true
    → (later : ResultCell) × (get k (upsert_row table (k, c)) ≡ some later)
      × (is_terminal later.status ≡ true)
unfolding upsert_row on_conflict
upsert_row-terminal k c table t = elim (Option-cases (get k table)) [
  | inl e ↦ (c, rw e (get-set_self k c table), t)
  | inr (row, e) ↦
      (on_conflict row c, rw e (get-set_self k (on_conflict row c) table), ground arith)
]

-- The row of a terminal outcome is terminal after its batch.
pub outcome-terminal :
    (run_id : String) (xs ys : List RecordWriteOutcome) (outcome : RecordWriteOutcome)
    (table : Table)
    → is_terminal outcome.status ≡ true
    → (later : ResultCell) × (get
          (result_row run_id outcome).0
          (upsert_results run_id (xs ++ outcome ∷ ys) table).1
        ≡ some later)
      × (is_terminal later.status ≡ true)
outcome-terminal run_id xs ys outcome table t =
    let k = (result_row run_id outcome).0 in
    let before = foldl upsert_row table (map (result_row run_id) xs) in
    let (row, e, t') = upsert_row-terminal k (result_row run_id outcome).1 before t in
    let (later, e', s) =
      rows-Holds k row (map (result_row run_id) ys) (upsert_row before (result_row run_id outcome))
        t' (row, e, record { status = refl; destination = λ h. h }) in
    (later, simp (upsert_results-eq, map-append, foldl-append) e', rw s.status t')
