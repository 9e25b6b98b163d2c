-- ===== src/Continuous/Reconcile/Checked.antt =====
-- The pages that a reconciliation checks (runtime/execution/continuous.py,
-- `reconcile_terminal_batch_pages`).
use sanka.Prelude.{
  String, ◌≡◌, ◌⊎◌, refl, Bool, true, false, Option, none, some, List, [], ◌∷◌, ◌==◌, eq_string,
  arith, inl, inr, Option-cases, Bool-cases, all, contains, map,
}
use sanka.Prelude.Dict.{Dict, get, Distinct}
use sanka.Model.{is_terminal, BatchPage, ManifestRow}
use sanka.Ledger.{ResultCell, Table, eq_key, terminal_destination_ids}
use sanka.Ledger.Reads.{result_key, terminal_of, get-terminal_destination_ids}
use sanka.Continuous.Reconcile.{page_ids, same_set, page_is_terminal, checked_pages}

all-contains :
    (p : String → Bool) (x : String) (xs : List String)
    → all p xs ≡ true
    → contains x xs ≡ true
    → p x ≡ true
unfolding all contains
all-contains p x [] h c = absurd (ground arith)
all-contains p x (y ∷ ys) h c = ground (arith, all-contains p x ys, eq_string.beq_iff y x)

contains_keys :
    (k : String) (d : Dict String (Option String))
    → contains k (map (λ (id, destination). id) d) ≡ true
    → (v : Option String) × (get k d ≡ some v)
unfolding contains get
contains_keys k [] h = absurd (ground arith)
contains_keys k ((j, v) ∷ d) h = elim (Bool-cases (j == k)) [
  | inl same ↦ (v, ground arith)
  | inr other ↦ let (w, there) = contains_keys k d (ground arith) in (w, ground arith)
]

-- The row of a record in the ledger, whose status is terminal.
abbrev pub HasTerminalRow : String → Table → ManifestRow → String → Type 0
HasTerminalRow run_id table row id =
    (cell : ResultCell) × (get (result_key run_id row.source_object row.destination_object id) table
      ≡ some cell)
    × (is_terminal cell.status ≡ true)

terminal_of-some :
    (o : Option ResultCell) (v : Option String)
    → terminal_of o ≡ some v
    → (cell : ResultCell) × (o ≡ some cell) × (is_terminal cell.status ≡ true)
terminal_of-some none v h = absurd (ground arith)
terminal_of-some (some cell) v h = (cell, refl, ground arith)

module _ (run_id : String) (table : Table) where
  pub page_is_terminal_row :
      (row : ManifestRow) (page : BatchPage) (id : String)
      → Distinct table
      → page_is_terminal run_id table row page ≡ true
      → contains id (page_ids page) ≡ true
      → HasTerminalRow run_id table row id
  unfolding page_is_terminal same_set
  page_is_terminal_row row page id d h c =
      let ids = page_ids page in
      let found =
        terminal_destination_ids run_id row.source_object ids row.destination_object table in
      let read =
        get-terminal_destination_ids run_id row.source_object row.destination_object id ids table
          d in
      let (v, there) = contains_keys id found (
        all-contains (λ y. contains y (map (λ (i, destination). i) found)) id ids (ground arith)
          c) in
      terminal_of-some _ v (ground (arith, read, there))

  -- The first page is of another route, or its records are in the ledger and it is checked.
  checked_pages_first :
      (manifest : Dict String ManifestRow) (selected : List String) (k : String) (first : BatchPage)
      (pages : Dict String BatchPage) (checked : List (String × BatchPage))
      → checked_pages run_id table manifest selected ((k, first) ∷ pages) ≡ some checked
      → (rest : List (String × BatchPage)) × (checked_pages run_id table manifest selected pages
          ≡ some rest)
        × (((contains k selected ≡ false) × (checked ≡ rest))
            ⊎ ((checked ≡ (k, first) ∷ rest)
                × ((row : ManifestRow) × (get k manifest ≡ some row)
                    × (page_is_terminal run_id table row first ≡ true))))
  unfolding checked_pages
  checked_pages_first manifest selected k first pages checked h =
      elim (Bool-cases (contains k selected)) [
        | inl chosen ↦ elim (Option-cases (get k manifest)) [
          | inl unknown ↦ absurd (ground arith)
          | inr (row, known) ↦
              elim (Option-cases (checked_pages run_id table manifest selected pages)) [
                | inl gave_up ↦ absurd (ground arith)
                | inr (rest, e) ↦ (rest, e, inr (ground arith, (row, known, ground arith)))
              ]
        ]
        | inr other ↦ (checked, ground arith, inl (other, refl))
      ]

  checked_pages_absent :
      (manifest : Dict String ManifestRow) (selected : List String) (pages : Dict String BatchPage)
      (checked : List (String × BatchPage)) (key : String)
      → checked_pages run_id table manifest selected pages ≡ some checked
      → get key pages ≡ none
      → get key checked ≡ none
  unfolding checked_pages get
  checked_pages_absent manifest selected [] checked key h absent = ground arith
  checked_pages_absent manifest selected ((k, page) ∷ pages) checked key h absent =
      let (rest, e, which) = checked_pages_first manifest selected k page pages checked h in
      let later = checked_pages_absent manifest selected pages rest key e (ground arith) in
      elim which [
        | inl (other, same) ↦ ground arith
        | inr (same, (row, known, terminal)) ↦ ground arith
      ]

  pub checked_pages-Distinct :
      (manifest : Dict String ManifestRow) (selected : List String) (pages : Dict String BatchPage)
      (checked : List (String × BatchPage))
      → checked_pages run_id table manifest selected pages ≡ some checked
      → Distinct pages
      → Distinct checked
  unfolding checked_pages
  checked_pages-Distinct manifest selected [] checked h d =
      let nothing : checked ≡ [] = ground arith in rw nothing tt
  checked_pages-Distinct manifest selected ((k, page) ∷ pages) checked h (fresh, d) =
      let (rest, e, which) = checked_pages_first manifest selected k page pages checked h in
      let later = checked_pages-Distinct manifest selected pages rest e d in
      elim which [
        | inl (other, same) ↦ rw same later
        | inr (same, (row, known, terminal)) ↦
            rw same (checked_pages_absent manifest selected pages rest k e fresh, later)
      ]

  pub checked_pages_sound :
      (manifest : Dict String ManifestRow) (selected : List String) (pages : Dict String BatchPage)
      (checked : List (String × BatchPage)) (key : String) (page : BatchPage)
      → checked_pages run_id table manifest selected pages ≡ some checked
      → contains key selected ≡ true
      → get key pages ≡ some page
      → (get key checked ≡ some page)
        × ((row : ManifestRow) × (get key manifest ≡ some row)
            × (page_is_terminal run_id table row page ≡ true))
  unfolding get
  checked_pages_sound manifest selected [] checked key page h c there = absurd (ground arith)
  checked_pages_sound manifest selected ((k, first) ∷ pages) checked key page h c there =
      let (rest, e, which) = checked_pages_first manifest selected k first pages checked h in
      elim (Bool-cases (k == key)) [
        | inl here ↦
            let at_key = (eq_string.beq_iff k key).0 here in
            elim which [
              | inl (other, same) ↦ absurd (ground (arith, at_key))
              | inr (same, (row, known, terminal)) ↦
                  (ground arith, (row, ground (arith, at_key), ground arith))
            ]
        | inr later ↦
            let (found, evidence) =
              checked_pages_sound manifest selected pages rest key page e c (ground arith) in
            elim which [
              | inl (other, same) ↦ (ground arith, evidence)
              | inr (same, (row, known, terminal)) ↦ (ground arith, evidence)
            ]
      ]
