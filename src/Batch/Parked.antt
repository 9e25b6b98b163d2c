-- ===== src/Batch/Parked.antt =====
-- The snapshot of a batch (execution/routes.py): its parts for one route, the retry of parked
-- relationships and the coverage warning. A batch acts on the host's world and the snapshot together,
-- and what it changed of the snapshot stays past an exception.
use Prim.Native.Char.{code}
use Prim.Native.String.{◌++◌ as join}
use sanka.Prelude.{
  ℕ, String, Bool, true, false, not, ◌&&◌, List, [], ◌∷◌, ◌++◌, if◌then◌else◌, ◌==◌, eq_string,
  eq_nat, filter, contains,
}
use sanka.Prelude.Dict.{Dict, set, get_or}
use sanka.Prelude.Text.{decimal}
use sanka.Fault.{return}
use sanka.Effect.{Eff, pure, and_then}
use sanka.Model.{WriteStatus, created, updated, skipped, ExecutionSnapshot, PendingRelationships}
use sanka.Mapping.Links.{pending_relationship_source_ids}
use sanka.Mapping.Pending.{retry_pending_relationships}
use sanka.Batch.{BatchHost}
use sanka.Batch.Settle.{add_id}

-- What the snapshot keeps for one route.
pub record RouteState : Type 0 where
  pub counts : Dict WriteStatus ℕ
  pub pending_ids : List String
  pub pending : PendingRelationships
  pub failed_ids : List String

-- `dict.fromkeys(("created", "updated", "skipped"), 0)`
abbrev pub zero_counts : Dict WriteStatus ℕ
zero_counts = (created, 0) ∷ (updated, 0) ∷ (skipped, 0) ∷ []

unfoldable pub route_state : String → ExecutionSnapshot → RouteState
route_state key s = record {
  counts = get_or key zero_counts s.route_counts;
  pending_ids = get_or key [] s.route_pending_record_ids;
  pending = get_or key [] s.route_pending_relationships;
  failed_ids = get_or key [] s.route_failed_record_ids;
}

unfoldable pub put_route_state : String → RouteState → ExecutionSnapshot → ExecutionSnapshot
put_route_state key r s = record s {
  route_counts = set key r.counts s.route_counts;
  route_pending_record_ids = set key r.pending_ids s.route_pending_record_ids;
  route_pending_relationships = set key r.pending s.route_pending_relationships;
  route_failed_record_ids = set key r.failed_ids s.route_failed_record_ids;
}

-- The four `setdefault` calls at the start of a round.
unfoldable pub enter_route : String → ExecutionSnapshot → ExecutionSnapshot
unfolding route_state put_route_state
enter_route key s = put_route_state key (route_state key s) s

-- The pending relationships and ids of a route, and nothing else.
unfoldable pub put_pending :
    String → PendingRelationships → List String → ExecutionSnapshot → ExecutionSnapshot
put_pending key pending ids s = record s {
  route_pending_record_ids = set key ids s.route_pending_record_ids;
  route_pending_relationships = set key pending s.route_pending_relationships;
}

-- `snapshot.completed_routes.add(route_key)`
unfoldable pub complete_route : String → ExecutionSnapshot → ExecutionSnapshot
unfolding add_id
complete_route key s = record s { completed_routes = add_id key s.completed_routes }

unfoldable pub put_warnings : List String → ExecutionSnapshot → ExecutionSnapshot
put_warnings warnings s = record s { warnings = warnings }

-- `text.startswith(prefix)`
unfoldable pub starts_with : String → String → Bool
starts_with String.[] text = true
starts_with (String.◌∷◌ c prefix) String.[] = false
starts_with (String.◌∷◌ c prefix) (String.◌∷◌ d text) =
    let rest = starts_with prefix text in code c == code d && rest

abbrev pub warning_prefix : String → String
warning_prefix key = join "Exact-ID scope: route " (join key " has ")

abbrev coverage_warning : String → ℕ → ℕ → String
coverage_warning key uncovered candidates = join (warning_prefix key) (
    join (decimal uncovered) (
      join " of " (
        join (decimal candidates) (
          join " candidate ids without a terminal result; the route cannot complete until"
            " the execution ledger covers every candidate id."))))

-- `_sync_exact_scope_warning`
unfoldable pub sync_exact_scope_warning : String → ℕ → ℕ → ExecutionSnapshot → ExecutionSnapshot
unfolding starts_with put_warnings
sync_exact_scope_warning key uncovered candidates s =
    let warnings = filter (λ w. not (starts_with (warning_prefix key) w)) s.warnings in
    put_warnings
      (if uncovered == 0
        then warnings
        else warnings ++ coverage_warning key uncovered candidates ∷ [])
      s

-- One action after another, as in Effect; a proof of a property that holds of each action follows it.
infixl 5 ◌>>=◌
unfoldable pub ◌>>=◌ : {W A B : Type 0} → Eff W A → (A → Eff W B) → Eff W B
(m >>= f) w = let (r, after) = m w in and_then r f after

-- A host's call, in a batch.
abbrev pub on_host : {W A : Type 0} → Eff W A → Eff (W × ExecutionSnapshot) A
on_host operation (w, s) = let (result, after) = operation w in (result, (after, s))

-- A change of the snapshot.
abbrev pub modify :
    {W : Type 0} → (ExecutionSnapshot → ExecutionSnapshot) → Eff (W × ExecutionSnapshot) (Unit {0})
modify change (w, s) = (return tt, (w, change s))

abbrev pub current_snapshot : {W : Type 0} → Eff (W × ExecutionSnapshot) ExecutionSnapshot
current_snapshot (w, s) = (return s, (w, s))

-- `set.update`
unfoldable pub add_ids : List String → List String → List String
unfolding add_id
add_ids [] ids = ids
add_ids (id ∷ new) ids = add_ids new (add_id id ids)

module _ {W : Type 0} (host : BatchHost W) where
  -- `_retry_parked_relationships`
  unfoldable pub retry_parked_relationships :
      String → PendingRelationships → List String → Eff (W × ExecutionSnapshot) PendingRelationships
  unfolding add_ids put_pending
  retry_parked_relationships key pending excluded = do
    let previous = pending_relationship_source_ids pending
    remaining ← on_host (retry_pending_relationships host.links pending excluded)
    s ← current_snapshot
    let ids = get_or key [] s.route_pending_record_ids
    let kept = filter (λ id. not (contains id previous)) ids
    _ ←
        modify
          (put_pending key remaining (add_ids (pending_relationship_source_ids remaining) kept))
    pure remaining
