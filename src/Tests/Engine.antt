-- ===== src/Tests/Engine.antt =====
-- Examples of the engine's loops.
use sanka.Prelude.{
  ℕ, suc, String, ◌≡◌, ◌≢◌, refl, subst, Bool, true, false, Option, none, some, [], ◌∷◌, arith,
  contains, ◌==◌, eq_string, ◌||◌, any, filter,
}
use sanka.Prelude.Dict.{get, set, get_or, has, update}
use sanka.Prelude.Text.{strip, is_space, text_le}
use sanka.Prelude.Sort.{sort, insert_sorted, sorted_set}
use sanka.Fault.{data_access_error, return, raise}
use sanka.Effect.{Eff, pure}
use sanka.Value.{text, field_value, rendering, text_or_empty}
use sanka.Records.{RecordPage}
use sanka.Engine.{next_cursor_text, with_retries, candidate_ids}
use sanka.Prelude.{◌⊎◌}
use sanka.Model.{ExecutionStatus, JournalEntry}
use sanka.Journal.{SaveOutcome, ClaimOutcome}
use sanka.Mapping.Pending.{retry_pending_relationships}
use sanka.Mapping.Field.{last_part}
use sanka.Ledger.{Table, terminal_destination_ids, upsert_results}
use sanka.Scope.{ExactIdScope, verify_candidate_hash}
use sanka.Batch.Run.{run_batch}
use sanka.Engine.Drive.{DriveHost}
use sanka.Engine.Resume.{drive_apply}
use sanka.Engine.Resume.Completed.{Applied, drive_apply-Finished}
use sanka.Tests.Batch.{table_host, contacts, no_hash, written_table, config}
use sanka.Tests.Mapping.{plain, never, same_text}
use sanka.Engine.Attempts.{Bounded, with_retries-Bounded}
use sanka.Engine.Candidates.{CursorsAmong, IsProper, candidate_ids_enough, candidate_ids-IsProper}

-- A destination that is never there, in a world that counts the calls.
abbrev unavailable : Eff ℕ Bool
unavailable calls = (raise (data_access_error "unavailable" "transient" true none), suc calls)

abbrev no_pause : ℕ → ℕ → ℕ
no_pause delay calls = calls

with_retries-Bounded_example :
    Bounded no_pause unavailable (λ calls. calls) 5 0 (with_retries no_pause unavailable 0)
with_retries-Bounded_example =
    with_retries-Bounded no_pause unavailable (λ calls. calls) (λ w. refl) (λ n w. refl) 0

-- A source with two pages.
abbrev two_pages : Option String → Eff ℕ RecordPage
two_pages none = pure (record {
  object_key = "Contact";
  records = (("Id", text "2") ∷ []) ∷ [];
  next_cursor = some "c";
  has_more = true;
})
two_pages (some cursor) = pure (record {
  object_key = "Contact";
  records = (("Id", text "1") ∷ []) ∷ [];
  next_cursor = none;
  has_more = false;
})

same_page : (p q : RecordPage) → return p ≡ return q → p ≡ q
same_page p q e = ground (arith, e)

two_pages-CursorsAmong : CursorsAmong two_pages "Id" ("c" ∷ [])
unfolding strip is_space contains
two_pages-CursorsAmong none w page read =
    subst (λ p. (next_cursor_text p == "" || contains (next_cursor_text p) ("c" ∷ [])) ≡ true)
      (same_page _ page read) refl
two_pages-CursorsAmong (some cursor) w page read =
    subst (λ p. (next_cursor_text p == "" || contains (next_cursor_text p) ("c" ∷ [])) ≡ true)
      (same_page _ page read) refl

candidate_ids_enough_example : (candidate_ids two_pages "Id" 2 0).0 ≢ return none
candidate_ids_enough_example =
    candidate_ids_enough two_pages "Id" ("c" ∷ []) 2 0 two_pages-CursorsAmong (omega arith)

candidate_ids-IsProper_example : IsProper ("1" ∷ "2" ∷ [])
unfolding candidate_ids strip is_space contains get field_value rendering sort insert_sorted text_le
candidate_ids-IsProper_example = candidate_ids-IsProper two_pages "Id" 2 0 ("1" ∷ "2" ∷ []) refl

-- A run with no journal entry yet, over the ledger's table.
abbrev drive_host : DriveHost Table
drive_host = record {
  batch = table_host;
  load = pure none;
  save = λ entry. pure SaveOutcome.saved;
  claim = λ attempt. pure (ClaimOutcome.claimed, none);
  utc_now = λ table. "now";
}

abbrev approved_scope : ExactIdScope
approved_scope = record {
  route_manifest = [];
  selected_route_keys = "Contact|contacts" ∷ [];
  candidate_ids_by_route = ("Contact|contacts", "1" ∷ []) ∷ [];
  candidate_hash = "";
}

abbrev apply_contacts : Eff Table (Option ExecutionStatus)
apply_contacts =
    drive_apply plain never same_text no_hash drive_host (config none).policies 50 (contacts ∷ []) 1
      "run" approved_scope

contacts_applied : (apply_contacts written_table).0 ≡ return (some ExecutionStatus.completed)
unfolding drive_apply run_batch sanka.Batch.Parked.◌>>=◌ any contains retry_pending_relationships
    filter get_or get set strip text_or_empty field_value is_space terminal_destination_ids update
    last_part upsert_results verify_candidate_hash has sorted_set
contacts_applied = refl

drive_apply-Finished_example :
    ((entry : JournalEntry) × ((drive_host.load written_table).0 ≡ return (some entry))
      × (entry.status ≡ ExecutionStatus.completed)
      × ((apply_contacts written_table).1 ≡ (drive_host.load written_table).1))
    ⊎ Applied plain never same_text no_hash drive_host
        (config none).policies
        50
        (contacts ∷ [])
        "run"
        approved_scope
        written_table
        (apply_contacts written_table).1
drive_apply-Finished_example =
    drive_apply-Finished plain never same_text no_hash drive_host (config none).policies 50
      (contacts ∷ []) 1 "run" approved_scope written_table contacts_applied
