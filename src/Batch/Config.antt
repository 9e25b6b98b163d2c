-- ===== src/Batch/Config.antt =====
-- The arguments and the locals of `run_batch` (execution/routes.py), and its tests on a route.
use sanka.Prelude.{
  ℕ, String, Bool, true, false, not, Option, none, some, List, [], ◌∷◌, if◌then◌else◌, ◌==◌,
  eq_string, eq_nat, eq_option,
}
use sanka.Prelude.Dict.{Dict, get, set, get_or}
use sanka.Prelude.Text.{strip}
use sanka.Fault.{Fault, execution_fault, Result, return, raise}
use sanka.Model.{ExecutionSnapshot, BatchPage}
use sanka.Records.{RecordPage}
use sanka.Scope.{verify_candidate_hash, ExactIdScope, verify_candidate_hash}
use sanka.Batch.{ExecutionRoute, WritePolicies, OwnerDirectories, or_default}
use sanka.Batch.Write.{OnMissingIdentity}
use sanka.Batch.Settle.{RouteTally}
use sanka.Batch.Parked.{RouteState}

-- The arguments of a batch that hold for all of its routes.
pub record BatchConfig : Type 0 where
  pub policies : WritePolicies
  pub batch_size : ℕ
  pub route_high_water_marks : Option (Dict String (Option String))
  pub exact_scope : Option ExactIdScope
  pub on_missing_identity : OnMissingIdentity

-- The locals of the loop over the routes.
pub record BatchProgress : Type 0 where
  pub next_checkpoints : Dict String String
  pub batch_pages : Dict String BatchPage
  pub has_more : Bool
  pub owners : OwnerDirectories

abbrev pub outside_scope : Fault
outside_scope =
    execution_fault "Sanka execution includes a route outside the exact-ID scope."
      "SANKA_MIGRATE_EXECUTION_ROUTE_INVALID"

abbrev pub owners_unsupported : Fault
owners_unsupported =
    execution_fault "Destination provider does not support owner mapping."
      "SANKA_MIGRATE_OWNER_MAPPING_UNSUPPORTED"

-- The candidates of a route; `none` without an exact scope.
unfoldable pub route_candidates : Option ExactIdScope → String → Result (Option (List String))
route_candidates none key = return none
route_candidates (some scope) key = elim (get key scope.candidate_ids_by_route) [
  | none ↦ raise outside_scope
  | some ids ↦ return (some ids)
]

-- `str(checkpoints.get(route_key) or legacy_cursor or "").strip() or None`
unfoldable pub current_cursor : ExecutionRoute → Dict String String → Option String
current_cursor route checkpoints =
    let legacy : String = elim route.source_filter [
      | none ↦ get_or route.source_object "" checkpoints
      | some f ↦ ""
    ] in
    let cursor = strip (or_default (get route.route_key checkpoints) legacy) in
    if cursor == "" then none else some cursor

-- The source held no records for the route when the scope froze.
unfoldable pub is_frozen_empty : Option (Dict String (Option String)) → String → Bool
is_frozen_empty none key = false
is_frozen_empty (some marks) key = elim (get key marks) [
  | none ↦ false
  | some mark ↦ elim mark [ none ↦ true | some m ↦ false ]
]

abbrev pub upper_bound : Option (Dict String (Option String)) → String → Option String
upper_bound none key = none
upper_bound (some marks) key = get_or key none marks

-- Whether the route needs no read: no candidate, or nothing there at the freeze.
unfoldable pub is_trivial :
    Option (List String) → Option (Dict String (Option String)) → String → Bool
unfolding is_frozen_empty
is_trivial none marks key = is_frozen_empty marks key
is_trivial (some []) marks key = true
is_trivial (some (c ∷ candidates)) marks key = false

-- The tally that a round starts with, and what it leaves of a route.
abbrev pub start_tally : RouteState → Option String → RouteTally
start_tally r cursor = record {
  counts = r.counts;
  failed_ids = r.failed_ids;
  pending_ids = r.pending_ids;
  last_terminal_cursor = cursor;
  batch_failed = false;
}

abbrev pub tallied : RouteState → RouteTally → RouteState
tallied r t = record {
  counts = t.counts;
  pending_ids = t.pending_ids;
  pending = r.pending;
  failed_ids = t.failed_ids;
}

-- `next_checkpoints[route_key] = cursor`, where there is one, and `has_more = True`.
abbrev pub stop_at : String → Option String → BatchProgress → BatchProgress
stop_at key cursor p = record p {
  next_checkpoints = elim cursor [
    | none ↦ p.next_checkpoints
    | some c ↦ if c == "" then p.next_checkpoints else set key c p.next_checkpoints
  ];
  has_more = true;
}

abbrev pub with_page : String → List String → RecordPage → BatchProgress → BatchProgress
with_page key ids page p = record p {
  batch_pages =
      set key
        (record {
          source_record_ids = ids;
          next_cursor = page.next_cursor;
          has_more = page.has_more;
        })
        p.batch_pages;
}

abbrev pub with_owners : OwnerDirectories → BatchProgress → BatchProgress
with_owners owners p = record p { owners = owners }

abbrev pub has_cursor : Option String → Bool
has_cursor none = false
has_cursor (some c) = not (c == "")

-- The locals before the loop.
abbrev pub start_progress : BatchProgress
start_progress = record {
  next_checkpoints = [];
  batch_pages = [];
  has_more = false;
  owners = record { directory = none; source_directory = none };
}

-- `if exact_scope is not None: exact_scope.verify_candidate_hash()`
abbrev pub verify_scope :
    (Dict String (List String) → String) → Option ExactIdScope → Result (Unit {0})
verify_scope content_hash none = return tt
verify_scope content_hash (some scope) = verify_candidate_hash content_hash scope

-- The last assignments of a batch.
abbrev pub close_batch : BatchProgress → ExecutionSnapshot → ExecutionSnapshot
close_batch p s = record s {
  checkpoints = p.next_checkpoints;
  batch_pages = p.batch_pages;
  has_more = p.has_more;
}
