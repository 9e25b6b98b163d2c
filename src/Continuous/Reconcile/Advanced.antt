-- ===== src/Continuous/Reconcile/Advanced.antt =====
-- How a reconciliation advances the checked routes (runtime/execution/continuous.py,
-- `reconcile_terminal_batch_pages`).
use sanka.Prelude.{
  String, ◌≡◌, ◌≢◌, ◌⊎◌, ◌∙◌, subst, true, false, none, some, List, [], ◌∷◌, ◌==◌, eq_string,
  beq_refl, arith, inl, inr, Option-cases, Bool-cases, contains,
}
use sanka.Prelude.Dict.{Dict, get, get-set, get-set_self, get-pop, Distinct}
use sanka.Model.{BatchPage}
use sanka.Ledger.{eq_key}
use sanka.Continuous.{stripped}
use sanka.Continuous.Reconcile.{advance_page, advance_pages}

-- What the evidence of a page says of its route's progress.
abbrev pub IsAdvanced : String → BatchPage → Dict String String → List String → Type 0
IsAdvanced route_key page checkpoints completed_routes =
    ((page.has_more ≡ true)
      × (stripped page.next_cursor ≢ "")
      × (get route_key checkpoints ≡ some (stripped page.next_cursor)))
    ⊎ ((page.has_more ≡ false)
        × (get route_key checkpoints ≡ none)
        × (contains route_key completed_routes ≡ true))

module _ (k : String) (page : BatchPage) (progress next : Dict String String × List String) where
  advance_page_other :
      (key : String)
      → advance_page k page progress ≡ some next
      → (k == key) ≡ false
      → get key next.0 ≡ get key progress.0
  unfolding advance_page
  advance_page_other key h other =
      ground (arith, get-set k key (stripped page.next_cursor) progress.0, get-pop k key progress.0)

  advance_page_kept :
      (key : String)
      → advance_page k page progress ≡ some next
      → contains key progress.1 ≡ true
      → contains key next.1 ≡ true
  unfolding advance_page contains
  advance_page_kept key h c = ground arith

  advance_page-IsAdvanced :
      advance_page k page progress ≡ some next → IsAdvanced k page next.0 next.1
  unfolding advance_page contains
  advance_page-IsAdvanced h = elim (Bool-cases page.has_more) [
    | inl more ↦ elim (Bool-cases (stripped page.next_cursor == "")) [
      | inl blank ↦ absurd (ground arith)
      | inr cursor ↦ inl (
        more,
        λ same. absurd (ground (arith, eq_string.beq_iff (stripped page.next_cursor) "")),
        ground (arith, get-set_self k (stripped page.next_cursor) progress.0),
      )
    ]
    | inr done ↦
        inr (done, ground (arith, get-pop k k progress.0, beq_refl k), ground (arith, beq_refl k))
  ]

advance_pages_kept :
    (checked : List (String × BatchPage)) (progress after : Dict String String × List String)
    (key : String)
    → advance_pages checked progress ≡ some after
    → contains key progress.1 ≡ true
    → contains key after.1 ≡ true
unfolding advance_pages
advance_pages_kept [] progress after key h c = ground arith
advance_pages_kept ((k, page) ∷ checked) progress after key h c =
    elim (Option-cases (advance_page k page progress)) [
      | inl gave_up ↦ absurd (ground arith)
      | inr (next, e) ↦
          advance_pages_kept checked next after key (ground arith)
            (advance_page_kept k page progress next key e c)
    ]

advance_pages_other :
    (checked : List (String × BatchPage)) (progress after : Dict String String × List String)
    (key : String)
    → advance_pages checked progress ≡ some after
    → get key checked ≡ none
    → get key after.0 ≡ get key progress.0
unfolding advance_pages get
advance_pages_other [] progress after key h absent = ground arith
advance_pages_other ((k, page) ∷ checked) progress after key h absent =
    elim (Option-cases (advance_page k page progress)) [
      | inl gave_up ↦ absurd (ground arith)
      | inr (next, e) ↦
          advance_pages_other checked next after key (ground arith) (ground arith)
          ∙ advance_page_other k page progress next key e (ground arith)
    ]

pub advance_pages-IsAdvanced :
    (checked : List (String × BatchPage)) (progress after : Dict String String × List String)
    (key : String) (page : BatchPage)
    → advance_pages checked progress ≡ some after
    → Distinct checked
    → get key checked ≡ some page
    → IsAdvanced key page after.0 after.1
unfolding advance_pages get
advance_pages-IsAdvanced [] progress after key page h d there = absurd (ground arith)
advance_pages-IsAdvanced ((k, first) ∷ checked) progress after key page h (fresh, d) there =
    elim (Option-cases (advance_page k first progress)) [
      | inl gave_up ↦ absurd (ground arith)
      | inr (next, e) ↦ elim (Bool-cases (k == key)) [
        | inl here ↦
            let at_key = (eq_string.beq_iff k key).0 here in
            let kept = advance_pages_kept checked next after key (ground arith) in
            let gone : get key checked ≡ none = ground (arith, at_key, fresh) in
            let same = advance_pages_other checked next after key (ground arith) gone in
            let same_page : first ≡ page = ground arith in
            elim (advance_page-IsAdvanced k first progress next e) [
              | inl (more, cursor, found) ↦ inl (
                ground (arith, same_page),
                subst (λ (p : BatchPage). stripped p.next_cursor ≢ "") same_page cursor,
                ground (arith, same_page, same, found, at_key),
              )
              | inr (done, removed, complete) ↦ inr (
                ground (arith, same_page),
                ground (arith, same, removed, at_key),
                kept (subst (λ (name : String). contains name next.1 ≡ true) at_key complete),
              )
            ]
        | inr later ↦
            advance_pages-IsAdvanced checked next after key page (ground arith) d (ground arith)
      ]
    ]
