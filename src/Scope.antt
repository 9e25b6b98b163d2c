-- ===== src/Scope.antt =====
-- The exact-ID scope of an execution (runtime/execution/scope.py). `content_hash` of hashing.py is a
-- parameter: SHA-256 over canonical JSON.
pub mod Canonical
use sanka.Prelude.{String, not, List, map, ◌==◌, eq_string, filter}
use sanka.Prelude.Dict.{Dict}
use sanka.Prelude.Text.{strip}
use sanka.Prelude.Sort.{sorted_set}
use sanka.Model.{ManifestRow}
use sanka.Fault.{Fault, execution_fault, Result, require}

-- `sorted({str(id).strip() for id in ids if str(id).strip()})`
unfoldable pub canonical_ids : List String → List String
canonical_ids ids = sorted_set (filter (λ id. not (id == "")) (map strip ids))

-- `ExactIdScope`. Its `route_totals` are the numbers of candidates, and it has no high-water marks.
pub record ExactIdScope : Type 0 where
  pub route_manifest : List ManifestRow
  pub selected_route_keys : List String
  pub candidate_ids_by_route : Dict String (List String)
  pub candidate_hash : String

abbrev pub candidate_hash_mismatch : Fault
candidate_hash_mismatch =
    execution_fault "The exact-ID candidate set does not match its approved candidate hash."
      "SANKA_MIGRATE_EXACT_SCOPE_CANDIDATE_HASH_MISMATCH"

module _ (content_hash : Dict String (List String) → String) where
  -- `exact_candidate_hash`
  unfoldable pub exact_candidate_hash : Dict String (List String) → String
  unfolding canonical_ids
  exact_candidate_hash candidates =
      content_hash (map (λ (route_key, ids). (route_key, canonical_ids ids)) candidates)

  -- `verify_candidate_hash`
  unfoldable pub verify_candidate_hash : ExactIdScope → Result (Unit {0})
  unfolding exact_candidate_hash
  verify_candidate_hash scope =
      require (exact_candidate_hash scope.candidate_ids_by_route == scope.candidate_hash)
        candidate_hash_mismatch
