-- ===== src/Batch/Run/Done.antt =====
-- The answer of a batch and its complete routes (`run_batch` of execution/routes.py).
use sanka.Prelude.{
  String, ◌≡◌, refl, Bool, true, false, ◌&&◌, Option, none, List, [], ◌∷◌, contains, eq_string,
  arith, All, contains-append, beq_refl,
}
use sanka.Prelude.Dict.{Dict}
use sanka.Fault.{Result, return, raise}
use sanka.Effect.{pure, lift, and_then}
use sanka.Value.{Value}
use sanka.Model.{ExecutionSnapshot, PendingRelationships}
use sanka.Records.{RecordPage}
use sanka.Batch.{ExecutionRoute, BatchHost}
use sanka.Batch.Settle.{RouteTally, add_id}
use sanka.Batch.Parked.{◌>>=◌, complete_route, modify}
use sanka.Batch.Config.{
  BatchConfig, BatchProgress, stop_at, has_cursor, is_trivial, start_progress, verify_scope,
  close_batch,
}
use sanka.Batch.Run.{
  try_complete, finish_round, route_round, route_step, retry_completed, run_routes, run_batch,
}
use sanka.Batch.Run.Frame.{retry_completed-Respects, run_routes-Respects}
use sanka.Batch.Run.Invariants.{Keeps, Keeps-IsFrame}
use sanka.Batch.Run.Post.{
  Post, PostAt, bind-Post, bind-PostAt, snapshot-Post, either-Post, either-PostAt,
}

-- A batch that is not to be called again has completed this route, and had nothing open before.
abbrev Finished : Bool → String → BatchProgress → ExecutionSnapshot → Type 0
Finished before key q t =
    q.has_more ≡ false → (before ≡ false) × (contains key t.completed_routes ≡ true)

contains-add_id_self : (key : String) (ids : List String) → contains key (add_id key ids) ≡ true
unfolding add_id contains
contains-add_id_self key ids = ground (arith, contains-append key ids (key ∷ []), beq_refl key)

-- All of the routes are complete.
abbrev pub AllComplete : List ExecutionRoute → ExecutionSnapshot → Type 0
AllComplete routes t = All (λ route. contains route.route_key t.completed_routes ≡ true) routes

same_return : {B : Type 0} (a b : B) → return a ≡ return b → a ≡ b
same_return a b eq = ground (arith, eq)

module _ {W : Type 0} (host : BatchHost W) where
  stop-Finished :
      (before : Bool) (key : String) (cursor : Option String) (p : BatchProgress)
      → Post {W = W} (Finished before key) (pure (stop_at key cursor p))
  stop-Finished before key cursor p s w b eq more = absurd (ground (arith, eq, more))

  -- Any action that ends in the given progress, in a snapshot where the route is complete.
  ends-Finished :
      (key : String) (p : BatchProgress) (s : ExecutionSnapshot)
      → contains key s.completed_routes ≡ true
      → PostAt {W = W} (Finished p.has_more key) s (pure p)
  ends-Finished key p s h w b eq more = ground (arith, same_return p b eq, more, h)

  complete-Finished :
      (key : String) (p : BatchProgress)
      → Post {W = W} (Finished p.has_more key) (modify (complete_route key) >>= λ x. pure p)
  unfolding ◌>>=◌ complete_route
  complete-Finished key p s w b eq more =
      ends-Finished key p (complete_route key s) (contains-add_id_self key s.completed_routes) w b
        eq more

  finish_round-Finished :
      (route : ExecutionRoute) (candidates : Option (List String)) (page : RecordPage)
      (t : RouteTally) (p : BatchProgress)
      → Post (Finished p.has_more route.route_key) (finish_round host route candidates page t p)
  unfolding finish_round try_complete
  finish_round-Finished route candidates page t p =
      let key = route.route_key in
      either-Post (Finished p.has_more key) t.batch_failed _ _
        (stop-Finished p.has_more key t.last_terminal_cursor p)
        (either-Post (Finished p.has_more key) (page.has_more && has_cursor page.next_cursor) _ _
          (stop-Finished p.has_more key page.next_cursor p)
          (bind-Post (Finished p.has_more key) _ _ λ covered.
            either-Post (Finished p.has_more key) covered _ _ (complete-Finished key p)
              (stop-Finished p.has_more key none p)))

  module _ (transform : Value → Option String → Result Value) (equals : Value → Value → Bool)
      (lower : String → String) (config : BatchConfig) where
    route_round-Finished :
        (route : ExecutionRoute) (candidates : Option (List String)) (p : BatchProgress)
        → Post
            (Finished p.has_more route.route_key)
            (route_round transform equals lower host config route candidates p)
    unfolding route_round
    route_round-Finished route candidates p =
        let Q = Finished p.has_more route.route_key in
        bind-Post Q _ _ λ x. snapshot-Post Q _ λ s. bind-PostAt Q s _ _ λ page. bind-Post Q _ _ λ y.
          bind-Post Q _ _ λ terminal. bind-Post Q _ _ λ related. bind-Post Q _ _ λ written.
            bind-Post Q _ _ λ linked.
              bind-Post Q _ _
                λ t. bind-Post Q _ _ λ z. finish_round-Finished route candidates page t _

    -- The retry of a complete route leaves it complete.
    completed-Finished :
        (key : String) (pending : PendingRelationships) (p : BatchProgress) (s : ExecutionSnapshot)
        → contains key s.completed_routes ≡ true
        → PostAt
            (Finished p.has_more key)
            s
            (retry_completed transform equals lower host config key pending >>= λ x. pure p)
    unfolding ◌>>=◌
    completed-Finished key pending p s h w =
        let kept =
          retry_completed-Respects Keeps Keeps-IsFrame host transform equals lower config key
            pending s w in
        let x = retry_completed transform equals lower host config key pending (w, s) in
        after x (kept.1.1.1 key h)
      where
        after :
            (x : Result (Unit {0}) × (W × ExecutionSnapshot))
            → contains key x.1.1.completed_routes ≡ true
            → (b : BatchProgress)
            → (and_then {B = BatchProgress} x.0 (λ y. pure p) x.1).0 ≡ return b
            → Finished p.has_more key b (and_then {B = BatchProgress} x.0 (λ y. pure p) x.1).1.1
        after (return y, z) k b eq = ends-Finished key p z.1 k z.0 b eq
        after (raise e, z) k b eq = absurd (ground (arith, eq))

    route_step-Finished :
        (route : ExecutionRoute) (p : BatchProgress)
        → Post
            (Finished p.has_more route.route_key)
            (route_step transform equals lower host config route p)
    unfolding route_step
    route_step-Finished route p =
        let key = route.route_key in
        let Q = Finished p.has_more key in
        bind-Post Q (lift _) _ λ candidates. bind-Post Q _ _ λ owners. snapshot-Post Q _ λ s.
          either-PostAt Q s (contains key s.completed_routes) _ _
            (λ h. completed-Finished key _ _ s h)
            (either-PostAt Q s (is_trivial candidates config.route_high_water_marks key) _ _
              (λ h. complete-Finished key _ s) (route_round-Finished route candidates _ s))

    run_routes-AllComplete :
        (routes : List ExecutionRoute) (p : BatchProgress) (w : W) (s : ExecutionSnapshot)
        (q : BatchProgress)
        → (run_routes transform equals lower host config routes p (w, s)).0 ≡ return q
        → q.has_more ≡ false
        → (p.has_more ≡ false)
          × AllComplete routes (run_routes transform equals lower host config routes p (w, s)).1.1
    unfolding run_routes ◌>>=◌
    run_routes-AllComplete [] p w s q eq more = (ground (arith, same_return p q eq, more), tt)
    run_routes-AllComplete (route ∷ routes) p w s q eq more =
        after (route_step transform equals lower host config route p (w, s))
          (route_step-Finished route p s w) (λ b z. run_routes-AllComplete routes b z.0 z.1 q) eq
      where
        after :
            (x : Result BatchProgress × (W × ExecutionSnapshot))
            → ((b : BatchProgress) → x.0 ≡ return b → Finished p.has_more route.route_key b x.1.1)
            → ((b : BatchProgress) (z : W × ExecutionSnapshot)
                → (run_routes transform equals lower host config routes b z).0 ≡ return q
                → q.has_more ≡ false
                → (b.has_more ≡ false)
                  × AllComplete routes
                      (run_routes transform equals lower host config routes b z).1.1)
            → (and_then x.0 (run_routes transform equals lower host config routes) x.1).0 ≡ return q
            → (p.has_more ≡ false)
              × AllComplete
                  (route ∷ routes)
                  (and_then x.0 (run_routes transform equals lower host config routes) x.1).1.1
        after (raise e, z) post rec eq = absurd (ground (arith, eq))
        after (return b, z) post rec eq =
            let (idle, rest) = rec b z eq more in
            let (before, complete) = post b refl idle in
            let kept =
              run_routes-Respects Keeps Keeps-IsFrame host transform equals lower config routes b
                z.1 z.0 in
            (before, (kept.1.1.1 route.route_key complete, rest))

    -- A batch that answers that there is no more to do leaves every one of its routes complete.
    pub run_batch-AllComplete :
        (content_hash : Dict String (List String) → String) (routes : List ExecutionRoute) (w : W)
        (s : ExecutionSnapshot)
        → (run_batch transform equals lower host config content_hash routes (w, s)).0 ≡ return false
        → AllComplete routes
            (run_batch transform equals lower host config content_hash routes (w, s)).1.1
    unfolding run_batch ◌>>=◌
    run_batch-AllComplete content_hash routes w s =
        verified (verify_scope content_hash config.exact_scope)
      where
        closed :
            (x : Result BatchProgress × (W × ExecutionSnapshot))
            → ((q : BatchProgress) → x.0 ≡ return q → q.has_more ≡ false → AllComplete routes x.1.1)
            → (and_then {B = Bool} x.0 (λ p. modify (close_batch p) >>= λ u. pure p.has_more) x.1).0
              ≡ return false
            → AllComplete routes
                (and_then {B = Bool} x.0
                  (λ p. modify (close_batch p) >>= λ u. pure p.has_more)
                  x.1).1.1
        closed (raise e, z) h eq = absurd (ground (arith, eq))
        closed (return q, z) h eq = h q refl (same_return q.has_more false eq)

        verified :
            (r : Result (Unit {0}))
            → ((lift r >>= λ y.
                  run_routes transform equals lower host config routes start_progress >>= λ p.
                  modify (close_batch p) >>= λ u. pure p.has_more)
                (w, s)).0
              ≡ return false
            → AllComplete routes
                ((lift r >>= λ y.
                    run_routes transform equals lower host config routes start_progress >>= λ p.
                    modify (close_batch p) >>= λ u. pure p.has_more)
                  (w, s)).1.1
        verified (raise e) eq = absurd (ground (arith, eq))
        verified (return y) eq =
            closed (run_routes transform equals lower host config routes start_progress (w, s))
              (λ q e more. (run_routes-AllComplete routes start_progress w s q e more).1) eq
