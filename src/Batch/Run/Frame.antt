-- ===== src/Batch/Run/Frame.antt =====
-- Relations on snapshots that follow the code of a batch (`run_batch` of execution/routes.py): one that
-- holds of each of the changes of a round is carried over the loop up to its last assignments.
use sanka.Prelude.{
  ℕ, String, Bool, true, false, ◌&&◌, Option, none, some, List, [], ◌∷◌, if◌then◌else◌, contains,
  eq_string,
}
use sanka.Fault.{Result, return, raise}
use sanka.Effect.{Eff, pure, lift, and_then}
use sanka.Value.{Value}
use sanka.Model.{ExecutionSnapshot, PendingRelationships}
use sanka.Records.{RecordPage}
use sanka.Batch.{ExecutionRoute, RecordState, BatchHost}
use sanka.Batch.Settle.{tally_states, repair_states, RouteTally}
use sanka.Batch.Parked.{
  ◌>>=◌, route_state, put_route_state, enter_route, put_pending, complete_route,
  sync_exact_scope_warning, modify, current_snapshot, retry_parked_relationships,
}
use sanka.Batch.Config.{BatchConfig, BatchProgress, start_tally, tallied, has_cursor, is_trivial}
use sanka.Batch.Run.{
  settle_page, is_covered, try_complete, finish_round, retry_at_end, route_round, retry_completed,
  route_step, run_routes,
}

-- A preorder on snapshots that the changes of a round respect.
pub record IsFrame (R : ExecutionSnapshot → ExecutionSnapshot → Type 0) : Type 0 where
  pub same : (s : ExecutionSnapshot) → R s s
  pub chain : (s t u : ExecutionSnapshot) → R s t → R t u → R s u
  pub pending :
      (key : String) (p : PendingRelationships) (ids : List String) (s : ExecutionSnapshot)
      → R s (put_pending key p ids s)
  pub enter : (key : String) (s : ExecutionSnapshot) → R s (enter_route key s)
  pub complete : (key : String) (s : ExecutionSnapshot) → R s (complete_route key s)
  pub warn :
      (key : String) (n m : ℕ) (s : ExecutionSnapshot) → R s (sync_exact_scope_warning key n m s)
  pub count :
      (key : String) (states : List RecordState) (cursor : Option String) (s : ExecutionSnapshot)
      → R s (
          put_route_state key
            (tallied
              (route_state key s)
              (tally_states states (start_tally (route_state key s) cursor)))
            s)

module _ {W : Type 0} (R : ExecutionSnapshot → ExecutionSnapshot → Type 0) (frame : IsFrame R) where
  -- The snapshot after an action is related to the one before: at one snapshot, or at each.
  abbrev pub RespectsAt : {A : Type 0} → ExecutionSnapshot → Eff (W × ExecutionSnapshot) A → Type 0
  RespectsAt s m = (w : W) → R s (m (w, s)).1.1

  abbrev pub Respects : {A : Type 0} → Eff (W × ExecutionSnapshot) A → Type 0
  Respects m = (s : ExecutionSnapshot) → RespectsAt s m

  and_then-Respects :
      {A B : Type 0} (r : Result A) (f : A → Eff (W × ExecutionSnapshot) B)
      → ((a : A) → Respects (f a))
      → Respects (and_then r f)
  and_then-Respects (return a) f h = h a
  and_then-Respects (raise e) f h = λ s w. frame.same s

  bind_at :
      {A B : Type 0} (s : ExecutionSnapshot) (m : Eff (W × ExecutionSnapshot) A)
      (f : A → Eff (W × ExecutionSnapshot) B)
      → RespectsAt s m
      → ((a : A) → Respects (f a))
      → RespectsAt s (m >>= f)
  unfolding ◌>>=◌
  bind_at s m f h g w =
      let x = m (w, s) in
      frame.chain s x.1.1 (and_then x.0 f x.1).1.1 (h w) (and_then-Respects x.0 f g x.1.1 x.1.0)

  pub bind :
      {A B : Type 0} (m : Eff (W × ExecutionSnapshot) A) (f : A → Eff (W × ExecutionSnapshot) B)
      → Respects m
      → ((a : A) → Respects (f a))
      → Respects (m >>= f)
  bind m f h g s = bind_at s m f (h s) g

  snapshot_then :
      {B : Type 0} (f : ExecutionSnapshot → Eff (W × ExecutionSnapshot) B)
      → ((s : ExecutionSnapshot) → RespectsAt s (f s))
      → Respects (current_snapshot >>= f)
  unfolding ◌>>=◌
  snapshot_then f h s w = h s w

  either :
      {A : Type 0} (b : Bool) (m n : Eff (W × ExecutionSnapshot) A)
      → Respects m
      → Respects n
      → Respects (if b then m else n)
  either true m n h g = h
  either false m n h g = g

  either_at :
      {A : Type 0} (s : ExecutionSnapshot) (b : Bool) (m n : Eff (W × ExecutionSnapshot) A)
      → RespectsAt s m
      → RespectsAt s n
      → RespectsAt s (elim b [ true ↦ m | false ↦ n ])
  either_at s true m n h g = h
  either_at s false m n h g = g

  module _ (host : BatchHost W) where
    retry-Respects :
        (key : String) (p : PendingRelationships) (excluded : List String)
        → Respects (retry_parked_relationships host key p excluded)
    unfolding retry_parked_relationships
    retry-Respects key p excluded =
        bind _ _ (λ s w. frame.same s)
          λ remaining.
            snapshot_then _
              λ s. bind_at s _ _ (λ w. frame.pending key _ _ s) λ x. λ s w. frame.same s

    settle_page-Respects :
        (route : ExecutionRoute) (ids : List String) (cursor : Option String)
        (states : List RecordState)
        → Respects (settle_page host route ids cursor states)
    unfolding settle_page
    settle_page-Respects route ids cursor states = snapshot_then _ λ s.
        bind_at s _ _ (λ w. frame.pending route.route_key _ _ s)
          λ x.
            bind _ _ (λ s w. frame.same s)
              λ y.
                bind _ _ (λ s w. frame.same s)
                  λ confirmed. snapshot_then _ λ t.
                    bind_at t _ _
                      (λ w. frame.count route.route_key (repair_states confirmed states) cursor t)
                      λ z. bind _ _ (λ s w. frame.same s) λ u. λ s w. frame.same s

    is_covered-Respects :
        (route : ExecutionRoute) (candidates : Option (List String))
        → Respects (is_covered host route candidates)
    unfolding is_covered
    is_covered-Respects route none = λ s w. frame.same s
    is_covered-Respects route (some candidates) =
        bind _ _ (λ s w. frame.same s)
          λ n. bind _ _ (λ s w. frame.warn route.route_key n _ s) λ x. λ s w. frame.same s

    complete-Respects :
        {A : Type 0} (key : String) (a : A) → Respects (modify (complete_route key) >>= λ x. pure a)
    complete-Respects key a = bind _ _ (λ s w. frame.complete key s) λ x. λ s w. frame.same s

    try_complete-Respects :
        (route : ExecutionRoute) (candidates : Option (List String)) (p : BatchProgress)
        → Respects (try_complete host route candidates p)
    unfolding try_complete
    try_complete-Respects route candidates p =
        bind _ _ (is_covered-Respects route candidates)
          λ covered. either covered _ _ (complete-Respects route.route_key p) (λ s w. frame.same s)

    finish_round-Respects :
        (route : ExecutionRoute) (candidates : Option (List String)) (page : RecordPage)
        (t : RouteTally) (p : BatchProgress)
        → Respects (finish_round host route candidates page t p)
    unfolding finish_round
    finish_round-Respects route candidates page t p =
        either t.batch_failed _ _ (λ s w. frame.same s)
          (either (page.has_more && has_cursor page.next_cursor) _ _ (λ s w. frame.same s)
            (try_complete-Respects route candidates p))

    retry_some :
        (key : String) (p : PendingRelationships)
        → Respects (retry_parked_relationships host key p [] >>= λ x. pure tt)
    retry_some key p = bind _ _ (retry-Respects key p []) λ x. λ s w. frame.same s

    end_retry-Respects :
        (key : String) (p : PendingRelationships) (more : Bool)
        → Respects (elim p [
          | [] ↦ pure tt
          | entry ∷ pending ↦
              if more
              then pure tt
              else (retry_parked_relationships host key (entry ∷ pending) [] >>= λ x. pure tt)
        ])
    end_retry-Respects key [] more = λ s w. frame.same s
    end_retry-Respects key (entry ∷ pending) true = λ s w. frame.same s
    end_retry-Respects key (entry ∷ pending) false = retry_some key (entry ∷ pending)

    retry_at_end-Respects :
        (route : ExecutionRoute) (page : RecordPage) → Respects (retry_at_end host route page)
    unfolding retry_at_end
    retry_at_end-Respects route page =
        snapshot_then _ λ s. end_retry-Respects route.route_key _ page.has_more s

    module _ (transform : Value → Option String → Result Value) (equals : Value → Value → Bool)
        (lower : String → String) (config : BatchConfig) where
      pub retry_completed-Respects :
          (key : String) (p : PendingRelationships)
          → Respects (retry_completed transform equals lower host config key p)
      unfolding retry_completed
      retry_completed-Respects key [] = λ s w. frame.same s
      retry_completed-Respects key (entry ∷ pending) = retry_some key (entry ∷ pending)

      route_round-Respects :
          (route : ExecutionRoute) (candidates : Option (List String)) (p : BatchProgress)
          → Respects (route_round transform equals lower host config route candidates p)
      unfolding route_round
      route_round-Respects route candidates p =
          bind _ _ (λ s w. frame.enter route.route_key s)
            λ x. snapshot_then _ λ s.
              bind_at s _ _ (λ w. frame.same s)
                λ page. bind _ _ (retry-Respects route.route_key _ _) λ y.
                  bind _ _ (λ s w. frame.same s)
                    λ terminal.
                      bind _ _ (λ s w. frame.same s)
                        λ related.
                          bind _ _ (λ s w. frame.same s)
                            λ written.
                              bind _ _ (λ s w. frame.same s)
                                λ linked. bind _ _ (settle_page-Respects route _ _ linked) λ t.
                                  bind _ _ (retry_at_end-Respects route page)
                                    λ z. finish_round-Respects route candidates page t _

      route_step-Respects :
          (route : ExecutionRoute) (p : BatchProgress)
          → Respects (route_step transform equals lower host config route p)
      unfolding route_step
      route_step-Respects route p =
          bind (lift _) _ (λ s w. frame.same s)
            λ candidates.
              bind _ _ (λ s w. frame.same s)
                λ owners. snapshot_then _ λ s.
                  either_at s (contains route.route_key s.completed_routes) _ _
                    (bind _ _ (retry_completed-Respects route.route_key _)
                      (λ x. λ s w. frame.same s) s)
                    (either_at s
                      (is_trivial candidates config.route_high_water_marks route.route_key) _ _
                      (complete-Respects route.route_key _ s)
                      (route_round-Respects route candidates _ s))

      -- The loop over the routes, whether it returns or raises.
      pub run_routes-Respects :
          (routes : List ExecutionRoute) (p : BatchProgress)
          → Respects (run_routes transform equals lower host config routes p)
      unfolding run_routes
      run_routes-Respects [] p = λ s w. frame.same s
      run_routes-Respects (route ∷ routes) p =
          bind _ _ (route_step-Respects route p) λ q. run_routes-Respects routes q
