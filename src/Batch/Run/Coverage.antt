-- ===== src/Batch/Run/Coverage.antt =====
-- The completion of an exact-ID route (`run_batch` of execution/routes.py).
use sanka.Prelude.{
  String, ◌≡◌, refl, Bool, true, false, not, ◌&&◌, Option, none, some, List, [], ◌∷◌, if◌then◌else◌,
  contains, eq_string, eq_nat, ◌==◌, arith, length, filter, Bool-cases, inl, inr, ap, sym, ◌∙◌,
}
use sanka.Prelude.Dict.{Dict, has}
use sanka.Prelude.Sort.{sorted_set, contains-sorted_set}
use sanka.Fault.{Result, return, raise}
use sanka.Effect.{pure}
use sanka.Model.{ExecutionSnapshot}
use sanka.Records.{RecordPage}
use sanka.Batch.{ExecutionRoute, BatchHost}
use sanka.Batch.Settle.{RouteTally}
use sanka.Batch.Parked.{◌>>=◌, complete_route, sync_exact_scope_warning, put_warnings}
use sanka.Batch.Page.{uncovered_candidate_count}
use sanka.Batch.Config.{BatchProgress, has_cursor, stop_at}
use sanka.Batch.Run.{is_covered, try_complete, finish_round}

-- The ledger, read in this world, holds a terminal result for each candidate.
abbrev pub Covered : {W : Type 0} → BatchHost W → ExecutionRoute → List String → W → Type 0
Covered host route candidates w =
    (terminal : Dict String (Option String)) × (((host.terminal_destination_ids route.source_object
          (sorted_set candidates) route.destination_object w).0
        ≡ return terminal)
      × ((id : String) → contains id candidates ≡ true → has id terminal ≡ true))

none_left :
    (terminal : Dict String (Option String)) (id : String) (ids : List String)
    → length (filter (λ id. not (has id terminal)) ids) ≡ 0
    → contains id ids ≡ true
    → has id terminal ≡ true
unfolding filter contains
none_left terminal id (x ∷ ids) h c =
    ground (arith, none_left terminal id ids, h, c, eq_string.beq_iff x id)
none_left terminal id [] h c = absurd (ground (arith, c))

abbrev uncovered_ids : List String → Dict String (Option String) → List String
uncovered_ids candidates terminal = filter (λ id. not (has id terminal)) (sorted_set candidates)

module _ {W : Type 0} (host : BatchHost W) (route : ExecutionRoute) (candidates : List String) where
  -- `try_complete` after the read of the ledger.
  abbrev read_then :
      BatchProgress
      → ExecutionSnapshot
      → Result (Dict String (Option String)) × W
      → Result BatchProgress × (W × ExecutionSnapshot)
  read_then p s (raise e, w) = (raise e, (w, s))
  read_then p s (return terminal, w) =
      let n = length (uncovered_ids candidates terminal) in
      let t = sync_exact_scope_warning route.route_key n (length (sorted_set candidates)) s in
      if n == 0
      then (return p, (w, complete_route route.route_key t))
      else (return (stop_at route.route_key none p), (w, t))

  try_complete-read_then :
      (p : BatchProgress) (w : W) (s : ExecutionSnapshot)
      → try_complete host route (some candidates) p (w, s)
        ≡ read_then p s (
            host.terminal_destination_ids route.source_object
              (sorted_set candidates)
              route.destination_object
              w)
  unfolding try_complete is_covered uncovered_candidate_count ◌>>=◌
  try_complete-read_then p w s = ground arith

  read_then-Covered :
      (p : BatchProgress) (s : ExecutionSnapshot) (x : Result (Dict String (Option String)) × W)
      → contains route.route_key s.completed_routes ≡ false
      → contains route.route_key (read_then p s x).1.1.completed_routes ≡ true
      → (terminal : Dict String (Option String)) × ((x.0 ≡ return terminal)
          × ((id : String) → contains id candidates ≡ true → has id terminal ≡ true))
  unfolding sync_exact_scope_warning put_warnings
  read_then-Covered p s (raise e, w) before after = absurd (ground (arith, before, after))
  read_then-Covered p s (return terminal, w) before after =
      elim (Bool-cases (length (uncovered_ids candidates terminal) == 0)) [
        | inl none_uncovered ↦ (
          terminal,
          (
            refl,
            λ id c.
                none_left terminal id (sorted_set candidates) (ground (arith, none_uncovered))
                  (contains-sorted_set id candidates ∙ c),
          ),
        )
        | inr some_uncovered ↦ absurd (ground (arith, some_uncovered, before, after))
      ]

  -- If the end of a round completes a route under an exact-ID scope, no record of the page failed, the
  -- source has no further page, and the ledger holds a terminal result for every candidate.
  pub finish_round-Covered :
      (page : RecordPage) (t : RouteTally) (p : BatchProgress) (w : W) (s : ExecutionSnapshot)
      → contains route.route_key s.completed_routes ≡ false
      → contains route.route_key
          (finish_round host route (some candidates) page t p (w, s)).1.1.completed_routes
        ≡ true
      → (t.batch_failed ≡ false)
        × (((page.has_more && has_cursor page.next_cursor) ≡ false)
            × Covered host route candidates w)
  unfolding finish_round
  finish_round-Covered page t p w s before =
      branches t.batch_failed (page.has_more && has_cursor page.next_cursor)
    where
      branches :
          (failed more : Bool)
          → contains route.route_key
              ((if failed
                  then pure (stop_at route.route_key t.last_terminal_cursor p)
                  else if more
                  then pure (stop_at route.route_key page.next_cursor p)
                  else try_complete host route (some candidates) p)
                (w, s)).1.1.completed_routes
            ≡ true
          → (failed ≡ false) × ((more ≡ false) × Covered host route candidates w)
      branches true more after = absurd (ground (arith, before, after))
      branches false true after = absurd (ground (arith, before, after))
      branches false false after =
          let x =
            host.terminal_destination_ids route.source_object (sorted_set candidates)
              route.destination_object w in
          (
            refl,
            (
              refl,
              read_then-Covered p s x before (
                  ap (λ y. contains route.route_key y.1.1.completed_routes)
                    (sym (try_complete-read_then p w s))
                  ∙ after),
            ),
          )
