-- ===== src/Engine.antt =====
-- Two loops of `MigrationEngine` (runtime/engine.py): the retry of a destination write and the
-- enumeration of the candidate ids of a route.
pub mod Attempts
pub mod Candidates
pub mod Drive
pub mod Resume
use sanka.Prelude.{
  ℕ, zero, suc, ◌+◌, ◌-◌, ◌*◌, ◌^◌, min, max, String, ◌≡◌, Bool, true, false, not, ◌&&◌, ◌||◌,
  Option, none, some, List, [], ◌∷◌, ◌++◌, if◌then◌else◌, ◌==◌, eq_string, eq_option, contains, leb,
}
use sanka.Prelude.Dict.{get}
use sanka.Prelude.Text.{strip, text_le}
use sanka.Prelude.Sort.{sort}
use sanka.Fault.{Fault, data_access_error, execution_error, Result, return, raise}
use sanka.Effect.{Eff, pure, throw, lift, ◌>>=◌}
use sanka.Value.{Value, none_value, rendering, field_value}
use sanka.Records.{SourceRecord, RecordPage}
use sanka.Batch.{or_default}

abbrev pub max_write_attempts : ℕ
max_write_attempts = 5

-- `error.retryable`, of a `DataAccessError`; any other exception passes `_with_retries`.
unfoldable pub is_retryable : Fault → Bool
is_retryable (data_access_error message category retryable retry_after_seconds) = retryable
is_retryable _ = false

-- The delay in milliseconds after the given number of failed attempts; `retry_after_seconds` is taken
-- in whole seconds.
unfoldable pub retry_delay : ℕ → Fault → ℕ
retry_delay attempt (data_access_error message category retryable (some seconds)) =
    max (min 30000 (500 * 2 ^ (attempt - 1))) (1000 * seconds)
retry_delay attempt _ = min 30000 (500 * 2 ^ (attempt - 1))

module _ {W A : Type 0} (sleep : ℕ → W → W) (operation : Eff W A) where
  -- The loop of `_with_retries`, on fuel, with the number of attempts that failed so far.
  unfoldable pub retry_loop : ℕ → ℕ → Eff W A
  unfolding is_retryable retry_delay
  retry_loop zero attempt = operation
  retry_loop (suc fuel) attempt = λ w.
      let (result, after) = operation w in
      elim result [
        | return a ↦ (return a, after)
        | raise e ↦
            let again = retry_loop fuel (suc attempt) (sleep (retry_delay (suc attempt) e) after) in
            if not (is_retryable e) || leb max_write_attempts (suc attempt)
            then (raise e, after)
            else again
      ]

  -- `_with_retries`
  unfoldable pub with_retries : Eff W A
  unfolding retry_loop
  with_retries = retry_loop max_write_attempts 0

-- `"" if raw_identity is None else str(raw_identity).strip()`
unfoldable pub candidate_identity : Value → String
candidate_identity none_value = ""
candidate_identity v = strip (rendering v)

abbrev pub without_identity : Fault
without_identity = execution_error "route has a record without identity field"

abbrev pub duplicate_identity : Fault
duplicate_identity = execution_error "route has duplicate source identity"

abbrev pub did_not_advance : Fault
did_not_advance = execution_error "route did not advance while freezing candidates"

-- The loop over one page, with the ids found so far.
unfoldable pub collect_candidates : String → List String → List SourceRecord → Result (List String)
unfolding candidate_identity
collect_candidates identity_field ids [] = return ids
collect_candidates identity_field ids (r ∷ records) =
    let id = candidate_identity (field_value (get identity_field r)) in
    if id == ""
    then raise without_identity
    else if contains id ids
    then raise duplicate_identity
    else collect_candidates identity_field (ids ++ id ∷ []) records

abbrev pub next_cursor_text : RecordPage → String
next_cursor_text page = strip (or_default page.next_cursor "")

module _ {W : Type 0} (read_records : Option String → Eff W RecordPage)
    (identity_field : String) where
  -- What follows a page.
  unfoldable pub after_page :
      (List String → List String → Option String → Eff W (Option (List String)))
      → List String
      → Option String
      → List String
      → RecordPage
      → Eff W (Option (List String))
  after_page continue seen cursor ids page =
      let next = next_cursor_text page in
      if not page.has_more
      then pure (some (sort text_le ids))
      else if next == "" || (cursor == some next || contains next seen)
      then throw did_not_advance
      else continue ids (seen ++ next ∷ []) (some next)

  -- The loop of `_candidate_ids`, on fuel; `none` is the end of the fuel.
  unfoldable pub freeze_candidates :
      ℕ → List String → List String → Option String → Eff W (Option (List String))
  unfolding after_page collect_candidates
  freeze_candidates zero ids seen cursor = pure none
  freeze_candidates (suc fuel) ids seen cursor = do
    page ← read_records cursor
    found ← lift (collect_candidates identity_field ids page.records)
    after_page (freeze_candidates fuel) seen cursor found page

  -- `_candidate_ids`
  unfoldable pub candidate_ids : ℕ → Eff W (Option (List String))
  unfolding freeze_candidates
  candidate_ids fuel = freeze_candidates fuel [] [] none
