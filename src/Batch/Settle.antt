-- ===== src/Batch/Settle.antt =====
-- The end of a route's round in `run_batch` (execution/routes.py): parking, the outcomes to persist, the
-- repair, and the counters with the checkpoint. The observer is told in `observe`.
pub mod Counters
pub mod Progress
pub mod Repair
use sanka.Prelude.{
  ℕ, suc, String, ◌≡◌, ◌+◌, ◌-◌, Bool, true, false, ◌&&◌, ◌||◌, not, Option, none, some, List, [],
  ◌∷◌, ◌++◌, map, if◌then◌else◌, ◌==◌, eq_string, eq_option, filter, contains, any, length,
}
use sanka.Prelude.Dict.{Dict, get, set, get_or, has, pop, update}
use sanka.Model.{
  WriteStatus, created, updated, skipped, failed, is_terminal, eq_status, RecordWriteOutcome,
  PendingRelationships,
}
use sanka.Mapping.Links.{eq_relationship_key}
use sanka.Batch.{ExecutionRoute, RecordState, BatchHost, status_or_failed}

-- What the snapshot keeps for one route while its records are counted, with two locals of the loop.
pub record RouteTally : Type 0 where
  pub counts : Dict WriteStatus ℕ
  pub failed_ids : List String
  pub pending_ids : List String
  pub last_terminal_cursor : Option String
  pub batch_failed : Bool

-- The parking of pending relationships: those of the page's own records are replaced.
unfoldable pub drop_page : List String → PendingRelationships → PendingRelationships
drop_page page_ids pending = filter (λ (k, r). not (contains r.source_record_id page_ids)) pending

unfoldable pub park_states : List RecordState → PendingRelationships → PendingRelationships
park_states [] pending = pending
park_states (state ∷ states) pending =
    park_states states (update pending state.pending_relationships)

-- `set.add` and `set.discard`.
unfoldable pub add_id : String → List String → List String
add_id id ids = if contains id ids then ids else ids ++ id ∷ []

unfoldable pub discard_id : String → List String → List String
discard_id id ids = filter (λ other. not (other == id)) ids

abbrev pub has_pending : RecordState → Bool
has_pending state = elim state.pending_relationships [ [] ↦ false | _ ↦ true ]

unfoldable pub add_pending : List RecordState → List String → List String
unfolding add_id
add_pending [] ids = ids
add_pending (state ∷ states) ids =
    add_pending states (if has_pending state then add_id state.source_record_id ids else ids)

-- `current_route_pending.difference_update(…)`, and the additions of the loop.
unfoldable pub park_ids : List String → List RecordState → List String → List String
unfolding add_pending
park_ids page_ids states ids = add_pending states (filter (λ id. not (contains id page_ids)) ids)

abbrev pub outcome_of : ExecutionRoute → RecordState → RecordWriteOutcome
outcome_of route state = record {
  source_object = route.source_object;
  source_record_id = state.source_record_id;
  destination_object = route.destination_object;
  destination_record_id = state.destination_record_id;
  status = status_or_failed state.status;
  message = state.message;
}

-- `new_outcomes`
unfoldable pub new_outcomes : ExecutionRoute → List RecordState → List RecordWriteOutcome
new_outcomes route states =
    map (outcome_of route) (filter (λ state. not state.already_terminal) states)

-- `state.status == "failed"`
abbrev pub is_failed : RecordState → Bool
is_failed state = state.status == some failed

-- The repair of one state by the confirmed results.
unfoldable pub repair : Dict String (Option String) → RecordState → RecordState
repair confirmed state = elim (get state.source_record_id confirmed) [
  | none ↦ state
  | some destination_record_id ↦
      if is_failed state
      then record state {
        destination_record_id = destination_record_id;
        status = some skipped;
        message = some "Destination result was already committed by an active execution attempt.";
      }
      else state
]

unfoldable pub repair_states : Dict String (Option String) → List RecordState → List RecordState
unfolding repair
repair_states confirmed states = map (repair confirmed) states

-- The counters of a record that failed.
unfoldable pub tally_failed : String → RouteTally → RouteTally
unfolding add_id
tally_failed id t = record t {
  counts =
      if contains id t.failed_ids
      then t.counts
      else set failed (get_or failed 0 t.counts + 1) t.counts;
  failed_ids = add_id id t.failed_ids;
  batch_failed = true;
}

-- `current_route_counts[status] = current_route_counts.get(status, 0) + 1`, of a record that is new.
unfoldable pub count_new : Bool → WriteStatus → Dict WriteStatus ℕ → Dict WriteStatus ℕ
count_new true status counts = counts
count_new false status counts = set status (get_or status 0 counts + 1) counts

-- The counters of a record that did not fail; subtraction on ℕ is the `max(0, …)`.
unfoldable pub tally_settled : Bool → WriteStatus → String → Bool → RouteTally → RouteTally
unfolding add_id discard_id count_new
tally_settled already_terminal status id relationship_failed t =
    let counts = count_new already_terminal status t.counts in
    record {
      counts =
          if contains id t.failed_ids
          then set failed (get_or failed 0 counts - 1) counts
          else counts;
      failed_ids = discard_id id t.failed_ids;
      pending_ids =
          if relationship_failed then add_id id t.pending_ids else discard_id id t.pending_ids;
      last_terminal_cursor = if t.batch_failed then t.last_terminal_cursor else some id;
      batch_failed = t.batch_failed;
    }

-- One round of the loop over the states.
unfoldable pub tally : RecordState → RouteTally → RouteTally
unfolding tally_failed tally_settled
tally state t =
    let status = status_or_failed state.status in
    if status == failed
    then tally_failed state.source_record_id t
    else tally_settled state.already_terminal status state.source_record_id
        state.relationship_failed t

unfoldable pub tally_states : List RecordState → RouteTally → RouteTally
unfolding tally
tally_states [] t = t
tally_states (state ∷ states) t = tally_states states (tally state t)

-- The calls of `host.observer.record_failed`.
unfoldable pub observe : {W : Type 0} → BatchHost W → ExecutionRoute → List RecordState → W → W
observe host route [] w = w
observe host route (state ∷ states) w = observe host route states (
    if status_or_failed state.status == failed
    then host.record_failed route.route_key route.source_object state.source_record_id w
    else w)
