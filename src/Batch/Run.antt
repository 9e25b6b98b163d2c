-- ===== src/Batch/Run.antt =====
-- `run_batch` of execution/routes.py: the round of one route and the loop over the routes.
pub mod Frame
pub mod Invariants
pub mod Post
pub mod Done
pub mod Coverage
use sanka.Prelude.{
  ℕ, String, ◌≡◌, Bool, true, false, not, ◌&&◌, ◌||◌, Option, none, some, List, [], ◌∷◌, map,
  if◌then◌else◌, ◌==◌, eq_string, eq_nat, eq_option, filter, contains, any, length,
}
use sanka.Prelude.Dict.{Dict, get, set, get_or, has}
use sanka.Prelude.Sort.{sorted_set}
use sanka.Fault.{Fault, Result, return, raise}
use sanka.Effect.{Eff, pure, throw, lift}
use sanka.Value.{Value}
use sanka.Model.{ExecutionSnapshot, PendingRelationships}
use sanka.Ledger.{bulk_save_incomplete}
use sanka.Records.{SourceRecord, RecordPage, WriteOptions}
use sanka.Mapping.Field.{is_owner, destination_identity_fields}
use sanka.Mapping.Owner.{owner_directory, source_owner_directory}
use sanka.Scope.{ExactIdScope, verify_candidate_hash}
use sanka.Batch.{ExecutionRoute, RecordState, OwnerDirectories, BatchHost}
use sanka.Batch.Payload.{destination_payload}
use sanka.Batch.Write.{write_phase}
use sanka.Batch.Relationships.{link_phase}
use sanka.Batch.Settle.{
  RouteTally, drop_page, park_states, park_ids, new_outcomes, is_failed, repair_states,
  tally_states, observe,
}
use sanka.Batch.Parked.{
  ◌>>=◌, RouteState, route_state, put_route_state, enter_route, put_pending, complete_route,
  sync_exact_scope_warning, on_host, modify, current_snapshot, retry_parked_relationships,
}
use sanka.Batch.Page.{
  read_route_page, related_destination_ids, uncovered_candidate_count, page_source_ids,
  page_records,
}
use sanka.Batch.Config.{
  BatchConfig, BatchProgress, outside_scope, owners_unsupported, route_candidates, current_cursor,
  start_progress, verify_scope, close_batch, is_trivial, upper_bound, start_tally, tallied, stop_at,
  with_page, with_owners, has_cursor,
}

-- `WriteOptions` of a route.
abbrev pub write_options : BatchConfig → ExecutionRoute → WriteOptions
write_options config route = record {
  conflict_policy = config.policies.conflict_policy;
  identity_fields = destination_identity_fields route.fields;
  invalid_email_policy = config.policies.invalid_email_policy;
  invalid_email_audit_field = config.policies.invalid_email_audit_field;
}

abbrev pub has_owner_mapping : ExecutionRoute → Bool
has_owner_mapping route = any (λ f. is_owner f.mapping_kind) route.fields

-- What the phases after the writes do with the states of a page: park, persist, repair and count.
module _ {W : Type 0} (host : BatchHost W) (route : ExecutionRoute) where
  -- Count-verified persistence.
  unfoldable pub persist : List RecordState → Eff W (Unit {0})
  unfolding new_outcomes
  persist states = do
    let outcomes = new_outcomes route states
    saved ← host.upsert_results outcomes
    (if saved == length outcomes then pure tt else throw bulk_save_incomplete)

  -- The confirmed results, read only if some record failed.
  unfoldable pub confirmed_results :
      List String → List RecordState → Eff W (Dict String (Option String))
  confirmed_results ids states =
      if any is_failed states
      then host.terminal_destination_ids route.source_object ids route.destination_object
      else pure []

  unfoldable pub settle_page :
      List String → Option String → List RecordState → Eff (W × ExecutionSnapshot) RouteTally
  unfolding drop_page park_states park_ids persist confirmed_results repair_states tally_states
      route_state put_route_state put_pending observe
  settle_page ids cursor states = do
    let key = route.route_key
    s ← current_snapshot
    let r = route_state key s
    _ ← modify (
        put_pending key (park_states states (drop_page ids r.pending))
          (park_ids ids states r.pending_ids))
    _ ← on_host (persist states)
    confirmed ← on_host (confirmed_results ids states)
    let repaired = repair_states confirmed states
    parked ← current_snapshot
    let before = route_state key parked
    let t = tally_states repaired (start_tally before cursor)
    _ ← modify (put_route_state key (tallied before t))
    _ ← on_host (λ w. (return tt, observe host route repaired w))
    pure t

  -- Whether the ledger covers every candidate; a shortfall stays visible as a warning.
  unfoldable pub is_covered : Option (List String) → Eff (W × ExecutionSnapshot) Bool
  unfolding uncovered_candidate_count sync_exact_scope_warning
  is_covered none = pure true
  is_covered (some candidates) = do
    uncovered ← on_host (uncovered_candidate_count host route candidates)
    _ ← modify (sync_exact_scope_warning route.route_key uncovered (length (sorted_set candidates)))
    pure (uncovered == 0)

  -- The last branch of a round: the route completes, or stays in progress.
  unfoldable pub try_complete :
      Option (List String) → BatchProgress → Eff (W × ExecutionSnapshot) BatchProgress
  unfolding is_covered complete_route
  try_complete candidates p = do
    covered ← is_covered candidates
    (if covered
        then (do _ ← modify (complete_route route.route_key); pure p)
        else pure (stop_at route.route_key none p))

  -- The end of a round.
  unfoldable pub finish_round :
      Option (List String)
      → RecordPage
      → RouteTally
      → BatchProgress
      → Eff (W × ExecutionSnapshot) BatchProgress
  unfolding try_complete
  finish_round candidates page t p =
      if t.batch_failed
      then pure (stop_at route.route_key t.last_terminal_cursor p)
      else if page.has_more && has_cursor page.next_cursor
      then pure (stop_at route.route_key page.next_cursor p)
      else try_complete candidates p

  -- The retry at the end of a route.
  unfoldable pub retry_at_end : RecordPage → Eff (W × ExecutionSnapshot) (Unit {0})
  unfolding retry_parked_relationships route_state
  retry_at_end page = do
    s ← current_snapshot
    elim (route_state route.route_key s).pending [
      | [] ↦ pure tt
      | entry ∷ pending ↦ if page.has_more then pure tt else (do
        _ ← retry_parked_relationships host route.route_key (entry ∷ pending) []
        pure tt)
    ]

module _ (transform : Value → Option String → Result Value) (equals : Value → Value → Bool)
    (lower : String → String) {W : Type 0} (host : BatchHost W) (config : BatchConfig) where
  -- The owner directories, acquired when the first route needs them.
  unfoldable pub acquire_owners : ExecutionRoute → OwnerDirectories → Eff W OwnerDirectories
  unfolding owner_directory source_owner_directory
  acquire_owners route owners = elim owners.directory [
    | some directory ↦ pure owners
    | none ↦
        if has_owner_mapping route
        then elim host.list_owners [
          | none ↦ throw owners_unsupported
          | some list_owners ↦ do
            profiles ← list_owners
            elim host.list_source_owners [
              | none ↦ pure (record {
                directory = some (owner_directory lower profiles);
                source_directory = none;
              })
              | some list_source_owners ↦ do
                source_profiles ← list_source_owners
                pure (record {
                  directory = some (owner_directory lower profiles);
                  source_directory = some (source_owner_directory lower [] source_profiles);
                })
            ]
        ]
        else pure owners
  ]

  -- The round of a route that is not complete.
  unfoldable pub route_round :
      ExecutionRoute
      → Option (List String)
      → BatchProgress
      → Eff (W × ExecutionSnapshot) BatchProgress
  unfolding enter_route current_cursor read_route_page page_records page_source_ids
      retry_parked_relationships related_destination_ids write_phase link_phase settle_page
      retry_at_end finish_round destination_payload route_state
  route_round route candidates p = do
    let key = route.route_key
    _ ← modify (enter_route key)
    s ← current_snapshot
    let cursor = current_cursor route s.checkpoints
    page ← on_host (
        read_route_page host route config.batch_size cursor
          (upper_bound config.route_high_water_marks key))
    let records = page_records route candidates page.records
    let ids = page_source_ids route records
    _ ← retry_parked_relationships host key (route_state key s).pending ids
    terminal ←
        on_host (host.terminal_destination_ids route.source_object ids route.destination_object)
    related ← on_host (related_destination_ids host route records)
    written ← on_host (
        write_phase host route (write_options config route)
          (destination_payload transform equals lower related (has_owner_mapping route) p.owners
            config.policies route)
          config.on_missing_identity terminal records)
    linked ← on_host (link_phase host route related written)
    t ← settle_page host route ids cursor linked
    _ ← retry_at_end host route page
    finish_round host route candidates page t (with_page key ids page p)

  -- The retry of a route that is complete.
  unfoldable pub retry_completed :
      String → PendingRelationships → Eff (W × ExecutionSnapshot) (Unit {0})
  unfolding retry_parked_relationships
  retry_completed key [] = pure tt
  retry_completed key (entry ∷ pending) = do
    _ ← retry_parked_relationships host key (entry ∷ pending) []
    pure tt

  -- One pass of the loop over the routes.
  unfoldable pub route_step :
      ExecutionRoute → BatchProgress → Eff (W × ExecutionSnapshot) BatchProgress
  unfolding route_candidates acquire_owners retry_completed is_trivial complete_route route_round
      route_state
  route_step route p = do
    let key = route.route_key
    candidates ← lift (route_candidates config.exact_scope key)
    owners ← on_host (acquire_owners route p.owners)
    s ← current_snapshot
    let q = with_owners owners p
    elim (contains key s.completed_routes) [
      | true ↦ do _ ← retry_completed key (route_state key s).pending; pure q
      | false ↦ elim (is_trivial candidates config.route_high_water_marks key) [
        | true ↦ do _ ← modify (complete_route key); pure q
        | false ↦ route_round route candidates q
      ]
    ]

  unfoldable pub run_routes :
      List ExecutionRoute → BatchProgress → Eff (W × ExecutionSnapshot) BatchProgress
  unfolding route_step
  run_routes [] p = pure p
  run_routes (route ∷ routes) p = do q ← route_step route p; run_routes routes q

  -- `run_batch`
  unfoldable pub run_batch :
      (Dict String (List String) → String) → List ExecutionRoute → Eff (W × ExecutionSnapshot) Bool
  unfolding run_routes verify_candidate_hash
  run_batch content_hash routes = do
    _ ← lift (verify_scope content_hash config.exact_scope)
    p ← run_routes routes start_progress
    _ ← modify (close_batch p)
    pure p.has_more
