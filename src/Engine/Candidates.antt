-- ===== src/Engine/Candidates.antt =====
-- The candidate ids of a route (runtime/engine.py, `_candidate_ids`).
use sanka.Prelude.{
  ℕ, zero, suc, ◌≤◌, ◌<◌, String, ◌≡◌, ◌≢◌, refl, subst, ◌∙◌, true, false, not, ◌||◌, Option, none,
  some, List, [], ◌∷◌, ◌++◌, ◌==◌, eq_string, eq_option, contains, contains-append, filter,
  length-filter_le, length, arith, inl, inr, Bool-cases,
}
use sanka.Prelude.Text.{text_le}
use sanka.Prelude.Sort.{sort, insert_sorted, contains-sort, contains-insert_sorted}
use sanka.Fault.{return, Result-cases}
use sanka.Effect.{Eff}
use sanka.Value.{field_value}
use sanka.Records.{SourceRecord, RecordPage}
use sanka.Prelude.Dict.{get}
use sanka.Engine.{
  candidate_identity, collect_candidates, next_cursor_text, after_page, freeze_candidates,
  candidate_ids,
}

-- The cursors that were not seen yet.
abbrev unseen : List String → List String → ℕ
unseen seen cursors = length (filter (λ c. not (contains c seen)) cursors)

unseen_le :
    (c : String) (seen cursors : List String)
    → unseen (seen ++ c ∷ []) cursors ≤ unseen seen cursors
unfolding filter contains
unseen_le c seen [] = omega arith
unseen_le c seen (x ∷ cursors) =
    ground (arith, unseen_le c seen cursors, contains-append x seen (c ∷ []))

unseen_lt :
    (c : String) (seen cursors : List String)
    → contains c cursors ≡ true
    → contains c seen ≡ false
    → unseen (seen ++ c ∷ []) cursors < unseen seen cursors
unfolding filter contains
unseen_lt c seen [] h n = absurd (ground (arith, h))
unseen_lt c seen (x ∷ cursors) h n = ground (
  arith,
  unseen_lt c seen cursors,
  unseen_le c seen cursors,
  contains-append x seen (c ∷ []),
  eq_string.beq_iff c x,
  eq_string.beq_iff x c,
  h,
  n,
)

module _ {W : Type 0} (read_records : Option String → Eff W RecordPage)
    (identity_field : String) where
  -- Every cursor that the source gives is one of these.
  abbrev pub CursorsAmong : List String → Type 0
  CursorsAmong cursors =
      (cursor : Option String) (w : W) (page : RecordPage)
      → (read_records cursor w).0 ≡ return page
      → (next_cursor_text page == "" || contains (next_cursor_text page) cursors) ≡ true

  freeze_enough :
      (cursors : List String)
      → CursorsAmong cursors
      → (fuel : ℕ) (ids seen : List String) (cursor : Option String) (w : W)
      → unseen seen cursors < fuel
      → (freeze_candidates read_records identity_field fuel ids seen cursor w).0 ≢ return none
  unfolding freeze_candidates after_page
  freeze_enough cursors among zero ids seen cursor w low = absurd (omega (arith, low))
  freeze_enough cursors among (suc fuel) ids seen cursor w low =
      elim (Result-cases (read_records cursor w).0) [
        | inr (e, raised) ↦ ground (arith, raised)
        | inl (page, read) ↦
            elim (Result-cases (collect_candidates identity_field ids page.records)) [
              | inr (e, raised) ↦ ground (arith, read, raised)
              | inl (found, collected) ↦ ground (
                arith,
                read,
                collected,
                among cursor w page read,
                unseen_lt (next_cursor_text page) seen cursors,
                freeze_enough cursors among fuel found (seen ++ next_cursor_text page ∷ [])
                    (some (next_cursor_text page)) (read_records cursor w).1,
                low,
              )
            ]
      ]

  -- If every cursor that the source gives is one of a list, one page more than the list is long is
  -- enough for the enumeration: it ends with ids or an error.
  pub candidate_ids_enough :
      (cursors : List String) (fuel : ℕ) (w : W)
      → CursorsAmong cursors
      → length cursors < fuel
      → (candidate_ids read_records identity_field fuel w).0 ≢ return none
  unfolding candidate_ids
  candidate_ids_enough cursors fuel w among low =
      freeze_enough cursors among fuel [] [] none w
        (omega (arith, low, length-filter_le (λ c. not (contains c [])) cursors))

-- Each id once, and none empty.
abbrev pub IsProper : List String → Type 0
IsProper [] = Unit
IsProper (id ∷ ids) = (id ≢ "") × ((contains id ids ≡ false) × IsProper ids)

append-IsProper :
    (id : String) (ids : List String)
    → id ≢ ""
    → contains id ids ≡ false
    → IsProper ids
    → IsProper (ids ++ id ∷ [])
unfolding contains
append-IsProper id [] n absent h = (n, (refl, tt))
append-IsProper id (x ∷ ids) n absent (named, (once, h)) = (
  named,
  (
    ground (
      arith,
      contains-append x ids (id ∷ []),
      eq_string.beq_iff x id,
      eq_string.beq_iff id x,
      once,
      absent,
    ),
    append-IsProper id ids n (ground (arith, absent)) h,
  ),
)

insert_sorted-IsProper :
    (id : String) (ids : List String)
    → id ≢ ""
    → contains id ids ≡ false
    → IsProper ids
    → IsProper (insert_sorted text_le id ids)
unfolding insert_sorted contains
insert_sorted-IsProper id [] n absent h = (n, (refl, tt))
insert_sorted-IsProper id (x ∷ ids) n absent (named, (once, h)) = elim (Bool-cases (text_le id x)) [
  | inl before ↦ rw before (n, (absent, (named, (once, h))))
  | inr after ↦ rw after (
    named,
    (
      contains-insert_sorted text_le x id ids
          ∙ ground (arith, eq_string.beq_iff x id, eq_string.beq_iff id x, once, absent),
      insert_sorted-IsProper id ids n (ground (arith, absent)) h,
    ),
  )
]

sort-IsProper : (ids : List String) → IsProper ids → IsProper (sort text_le ids)
unfolding sort
sort-IsProper [] h = tt
sort-IsProper (id ∷ ids) (named, (once, h)) =
    insert_sorted-IsProper id (sort text_le ids) named (contains-sort text_le id ids ∙ once)
      (sort-IsProper ids h)

collect_candidates-IsProper :
    (identity_field : String) (ids : List String) (records : List SourceRecord)
    (found : List String)
    → IsProper ids
    → collect_candidates identity_field ids records ≡ return found
    → IsProper found
unfolding collect_candidates
collect_candidates-IsProper identity_field ids [] found h e = subst IsProper (ground (arith, e)) h
collect_candidates-IsProper identity_field ids (r ∷ records) found h e =
    let id = candidate_identity (field_value (get identity_field r)) in
    elim (Bool-cases (id == "")) [
      | inl blank ↦ absurd (ground (arith, blank, e))
      | inr named ↦ elim (Bool-cases (contains id ids)) [
        | inl twice ↦ absurd (ground (arith, named, twice, e))
        | inr new ↦
            collect_candidates-IsProper identity_field (ids ++ id ∷ []) records found
              (append-IsProper id ids (ground (arith, named, eq_string.beq_iff id "")) new h)
              (ground (arith, named, new, e))
      ]
    ]

module _ {W : Type 0} (read_records : Option String → Eff W RecordPage)
    (identity_field : String) where
  freeze-IsProper :
      (fuel : ℕ) (ids seen : List String) (cursor : Option String) (w : W) (frozen : List String)
      → IsProper ids
      → (freeze_candidates read_records identity_field fuel ids seen cursor w).0
        ≡ return (some frozen)
      → IsProper frozen
  unfolding freeze_candidates after_page
  freeze-IsProper zero ids seen cursor w frozen h e = absurd (ground (arith, e))
  freeze-IsProper (suc fuel) ids seen cursor w frozen h e =
      elim (Result-cases (read_records cursor w).0) [
        | inr (f, raised) ↦ absurd (ground (arith, raised, e))
        | inl (page, read) ↦
            elim (Result-cases (collect_candidates identity_field ids page.records)) [
              | inr (f, raised) ↦ absurd (ground (arith, read, raised, e))
              | inl (found, collected) ↦
                  let proper =
                    collect_candidates-IsProper identity_field ids page.records found h collected in
                  elim (Bool-cases page.has_more) [
                    | inr last ↦
                        subst IsProper (ground (arith, read, collected, last, e))
                          (sort-IsProper found proper)
                    | inl more ↦
                        freeze-IsProper fuel found (seen ++ next_cursor_text page ∷ [])
                          (some (next_cursor_text page)) (read_records cursor w).1 frozen proper
                          (ground (arith, read, collected, more, e))
                  ]
            ]
      ]

  -- The candidate ids that the enumeration returns are not empty, and each is there once.
  pub candidate_ids-IsProper :
      (fuel : ℕ) (w : W) (frozen : List String)
      → (candidate_ids read_records identity_field fuel w).0 ≡ return (some frozen)
      → IsProper frozen
  unfolding candidate_ids
  candidate_ids-IsProper fuel w frozen e = freeze-IsProper fuel [] [] none w frozen tt e
