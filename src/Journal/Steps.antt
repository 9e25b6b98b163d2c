-- ===== src/Journal/Steps.antt =====
-- What the saves and claims of any handles do to the rows of the journal (runtime/execution/local.py).
use sanka.Prelude.{
  String, ◌≡◌, refl, true, false, ◌&&◌, ◌||◌, not, some, arith, eq_string, eq_option, ◌==◌,
  if◌then◌else◌, Bool-cases, inl, inr, Option-cases,
}
use sanka.Prelude.Dict.{get, set, get-set}
use sanka.Model.{ExecutionStatus, AttemptIdentity, JournalEntry}
use sanka.Journal.{
  written, claimed_row, JournalRow, Journal, Handle, is_cancelled, entry_records_cancellation,
  write_entry_sync, save, claim, is_claimable, may_claim, owned_by_other_job,
  owned_by_other_attempt,
}

-- One call of `save` or `claim` through any handle on the file.
pub data Step (before after : Journal) : Type 0 where
  saves :
      (h : Handle) (now : String) (entry : JournalEntry)
      → after ≡ (save h now entry before).1
      → Step before after
  claims :
      (h : Handle) (now : String) (attempt : AttemptIdentity)
      → after ≡ (claim h now attempt before).2
      → Step before after

pub data Reach (start : Journal) : Journal → Type 0 where
  here : Reach start start
  next : {a b : Journal} → Reach start a → Step a b → Reach start b

pub get-write_entry_sync :
    (run_id : String) (h : Handle) (now : String) (entry : JournalEntry) (journal : Journal)
    → get run_id (write_entry_sync h now entry journal)
      ≡ (if h.run_id == run_id then some (written h now entry journal) else get run_id journal)
unfolding write_entry_sync
get-write_entry_sync run_id h now entry journal =
    get-set h.run_id run_id (written h now entry journal) journal

-- What `save` did: nothing, or one write, of a cancelled entry where a cancellation was recorded.
pub data Saves (h : Handle) (now : String) (entry : JournalEntry) (journal after : Journal)
    : Type 0 where
  unchanged : after ≡ journal → Saves h now entry journal after
  wrote :
      (e : JournalEntry)
      → after ≡ write_entry_sync h now e journal
      → e.attempt_id ≡ entry.attempt_id
      → ((row : JournalRow)
          → get h.run_id journal ≡ some row
          → (owned_by_other_attempt h entry row ≡ false)
            × (entry_records_cancellation row.status row.entry_json ≡ true
                → is_cancelled e.status ≡ true))
      → Saves h now entry journal after

pub save-Saves :
    (h : Handle) (now : String) (entry : JournalEntry) (journal : Journal)
    → Saves h now entry journal (save h now entry journal).1
unfolding save
save-Saves h now entry journal = elim (Option-cases (get h.run_id journal)) [
  | inl absent ↦ wrote entry (ground arith) refl (λ row e. absurd (cc))
  | inr (row, there) ↦ elim (Bool-cases (owned_by_other_job h row)) [
    | inl job ↦ unchanged (ground arith)
    | inr own_job ↦ elim (Bool-cases (owned_by_other_attempt h entry row)) [
      | inl attempt ↦ unchanged (ground arith)
      | inr own ↦
          elim (Bool-cases (
            entry_records_cancellation row.status row.entry_json
            && not (is_cancelled entry.status))) [
              | inl late ↦
                  wrote (record entry { status = ExecutionStatus.cancelled }) (ground arith) refl
                    (λ row' e. (ground arith, λ c. refl))
              | inr now_saved ↦
                  wrote entry (ground arith) refl (λ row' e. (ground arith, ground arith))
            ]
    ]
  ]
]

-- What `claim` did to the rows: nothing, or the update of a row whose guards it passed.
pub data Claims (h : Handle) (now : String) (attempt : AttemptIdentity) (journal after : Journal)
    : Type 0 where
  unchanged : after ≡ journal → Claims h now attempt journal after
  updates :
      (row : JournalRow)
      → get h.run_id journal ≡ some row
      → entry_records_cancellation row.status row.entry_json ≡ false
      → may_claim attempt row ≡ true
      → after ≡ set h.run_id (claimed_row row now attempt) journal
      → Claims h now attempt journal after

pub claim-Claims :
    (h : Handle) (now : String) (attempt : AttemptIdentity) (journal : Journal)
    → Claims h now attempt journal (claim h now attempt journal).2
unfolding claim
claim-Claims h now attempt journal = elim (Option-cases (get h.run_id journal)) [
  | inl absent ↦ unchanged (ground arith)
  | inr (row, there) ↦ elim (Bool-cases (entry_records_cancellation row.status row.entry_json)) [
    | inl cancelled ↦ unchanged (ground arith)
    | inr live ↦
        elim (Bool-cases (
          owned_by_other_job h row
          || not (is_claimable row.status)
          || not (may_claim attempt row))) [
            | inl refused ↦ unchanged (ground arith)
            | inr passed ↦ updates row there live (ground arith) (ground arith)
          ]
  ]
]
