-- ===== src/Batch/Run/Invariants.antt =====
-- Invariants of a whole batch (`run_batch` of execution/routes.py): its counters, its complete routes and
-- the snapshot after an error.
use sanka.Prelude.{
  ℕ, String, ◌≡◌, refl, sym, ap, subst, ◌∙◌, Bool, true, false, Option, List, [], ◌∷◌,
  if◌then◌else◌, length, contains, eq_string, arith, ◌==◌, contains-append,
}
use sanka.Prelude.Dict.{Dict, get_or, get-set}
use sanka.Fault.{Fault, Result, return, raise}
use sanka.Effect.{Eff, pure, lift, and_then}
use sanka.Value.{Value}
use sanka.Model.{WriteStatus, failed, eq_status, ExecutionSnapshot}
use sanka.Batch.{ExecutionRoute, BatchHost}
use sanka.Batch.Settle.{tally_states, add_id}
use sanka.Batch.Settle.Counters.{IsUnique, tally_states-CountsFailed}
use sanka.Batch.Parked.{
  ◌>>=◌, RouteState, route_state, put_route_state, enter_route, put_pending, put_warnings, modify,
  complete_route, sync_exact_scope_warning,
}
use sanka.Batch.Config.{
  start_progress, verify_scope, close_batch, BatchConfig, BatchProgress, start_tally, tallied,
}
use sanka.Batch.Run.{run_routes, run_batch}
use sanka.Batch.Run.Frame.{bind, IsFrame, run_routes-Respects}

abbrev pub Counted : Dict WriteStatus ℕ → List String → Type 0
Counted counts ids = (get_or failed 0 counts ≡ length ids) × IsUnique ids

-- Of every route, the counter of failed records is the number of its failed ids.
abbrev pub FailedCounted : ExecutionSnapshot → Type 0
FailedCounted s = (key : String) → Counted (route_state key s).counts (route_state key s).failed_ids

route_state-put :
    (key j : String) (r : RouteState) (s : ExecutionSnapshot)
    → ((route_state j (put_route_state key r s)).counts
        ≡ (if key == j then r.counts else (route_state j s).counts))
      × ((route_state j (put_route_state key r s)).failed_ids
          ≡ (if key == j then r.failed_ids else (route_state j s).failed_ids))
unfolding route_state put_route_state get_or
route_state-put key j r s = (
  ground (arith, get-set key j r.counts s.route_counts),
  ground (arith, get-set key j r.failed_ids s.route_failed_record_ids),
)

choose-Counted :
    (b : Bool) (c d : Dict WriteStatus ℕ) (ids others : List String)
    → Counted c ids
    → Counted d others
    → Counted (if b then c else d) (if b then ids else others)
choose-Counted true c d ids others h g = h
choose-Counted false c d ids others h g = g

put_route_state-FailedCounted :
    (key : String) (r : RouteState) (s : ExecutionSnapshot)
    → Counted r.counts r.failed_ids
    → FailedCounted s
    → FailedCounted (put_route_state key r s)
put_route_state-FailedCounted key r s h g j =
    let (c, f) = route_state-put key j r s in
    let chosen =
      choose-Counted (key == j) r.counts (route_state j s).counts r.failed_ids
        (route_state j s).failed_ids h (g j) in
    (ap (get_or failed 0) c ∙ chosen.0 ∙ ap length (sym f), subst IsUnique (sym f) chosen.1)

FailedCounted-IsFrame : IsFrame (λ s t. FailedCounted s → FailedCounted t)
unfolding put_pending enter_route complete_route sync_exact_scope_warning put_warnings route_state
FailedCounted-IsFrame = record {
  same = λ s h. h;
  chain = λ s t u f g h. g (f h);
  pending = λ key p ids s h. h;
  enter = λ key s h. put_route_state-FailedCounted key (route_state key s) s (h key) h;
  complete = λ key s h. h;
  warn = λ key n m s h. h;
  count = λ key states cursor s h.
      put_route_state-FailedCounted key
        (tallied (route_state key s) (tally_states states (start_tally (route_state key s) cursor)))
        s (tally_states-CountsFailed states (start_tally (route_state key s) cursor) (h key)) h;
}

-- What a round leaves as it is: the checkpoints, the pages, `has_more` and each completed route.
abbrev pub Keeps : ExecutionSnapshot → ExecutionSnapshot → Type 0
Keeps s t =
    (t.checkpoints ≡ s.checkpoints)
    × ((t.batch_pages ≡ s.batch_pages)
        × ((t.has_more ≡ s.has_more)
            × ((key : String)
                → contains key s.completed_routes ≡ true
                → contains key t.completed_routes ≡ true)))

contains-add_id_keep :
    (key id : String) (ids : List String)
    → contains key ids ≡ true
    → contains key (add_id id ids) ≡ true
unfolding add_id
contains-add_id_keep key id ids h = ground (arith, contains-append key ids (id ∷ []), h)

pub Keeps-IsFrame : IsFrame Keeps
unfolding put_pending enter_route complete_route sync_exact_scope_warning put_warnings
    put_route_state
Keeps-IsFrame = record {
  same = λ s. (refl, (refl, (refl, λ key h. h)));
  chain = λ s t u (a, (b, (c, d))) (a', (b', (c', d'))).
      (a' ∙ a, (b' ∙ b, (c' ∙ c, λ key h. d' key (d key h))));
  pending = λ key p ids s. (refl, (refl, (refl, λ k h. h)));
  enter = λ key s. (refl, (refl, (refl, λ k h. h)));
  complete =
      λ key s. (refl, (refl, (refl, λ k h. contains-add_id_keep k key s.completed_routes h)));
  warn = λ key n m s. (refl, (refl, (refl, λ k h. h)));
  count = λ key states cursor s. (refl, (refl, (refl, λ k h. h)));
}

closed_on_raise :
    {W : Type 0} (x : Result BatchProgress × (W × ExecutionSnapshot)) (s : ExecutionSnapshot)
    (e : Fault)
    → Keeps s x.1.1
    → (and_then {B = Bool} x.0 (λ p. modify (close_batch p) >>= λ u. pure p.has_more) x.1).0
      ≡ raise e
    → Keeps s
        (and_then {B = Bool} x.0 (λ p. modify (close_batch p) >>= λ u. pure p.has_more) x.1).1.1
unfolding ◌>>=◌
closed_on_raise (raise f, after) s e kept h = kept
closed_on_raise (return p, after) s e kept h = absurd (ground (arith, h))

kept_on_raise :
    {W : Type 0} (r : Result (Unit {0})) (m : Eff (W × ExecutionSnapshot) BatchProgress) (w : W)
    (s : ExecutionSnapshot) (e : Fault)
    → Keeps s (m (w, s)).1.1
    → ((lift r >>= λ y. m >>= λ p. modify (close_batch p) >>= λ u. pure p.has_more) (w, s)).0
      ≡ raise e
    → Keeps s
        ((lift r >>= λ y. m >>= λ p. modify (close_batch p) >>= λ u. pure p.has_more) (w, s)).1.1
unfolding ◌>>=◌
kept_on_raise (raise f) m w s e kept h = Keeps-IsFrame.same s
kept_on_raise (return y) m w s e kept h = closed_on_raise (m (w, s)) s e kept h

module _ (transform : Value → Option String → Result Value) (equals : Value → Value → Bool)
    (lower : String → String) {W : Type 0} (host : BatchHost W) (config : BatchConfig)
    (content_hash : Dict String (List String) → String) (routes : List ExecutionRoute) where
  abbrev run : Eff (W × ExecutionSnapshot) Bool
  run = run_batch transform equals lower host config content_hash routes

  -- Through a batch, whether it returns or raises, the counter of failed records of every route stays
  -- the number of the route's failed ids, each of which is there once.
  pub run_batch-FailedCounted :
      (w : W) (s : ExecutionSnapshot) → FailedCounted s → FailedCounted (run (w, s)).1.1
  unfolding run_batch route_state
  run_batch-FailedCounted w s =
      bind _ FailedCounted-IsFrame (lift _) _ (λ s w h. h)
        (λ x.
          bind _ FailedCounted-IsFrame _ _
            (run_routes-Respects _ FailedCounted-IsFrame host transform equals lower config routes
              start_progress)
            λ p. bind _ FailedCounted-IsFrame _ _ (λ s w h. h) λ y. λ s w h. h)
        s w

  -- A batch that raises leaves the checkpoints, the pages and `has_more` of the snapshot as they were,
  -- and each route that was complete still is.
  pub run_batch-raise :
      (w : W) (s : ExecutionSnapshot) (e : Fault)
      → (run (w, s)).0 ≡ raise e
      → Keeps s (run (w, s)).1.1
  unfolding run_batch ◌>>=◌
  run_batch-raise w s e h =
      kept_on_raise (verify_scope content_hash config.exact_scope)
        (run_routes transform equals lower host config routes start_progress) w s e
        (run_routes-Respects _ Keeps-IsFrame host transform equals lower config routes
          start_progress s w)
        h
