-- ===== src/Journal/Cancellation.antt =====
-- A recorded cancellation under the saves and claims of any handles (runtime/execution/local.py).
use sanka.Prelude.{
  String, ◌≡◌, ◌≢◌, true, false, some, arith, eq_string, eq_option, ◌==◌, Bool-cases, inl, inr,
}
use sanka.Prelude.Dict.{get, get-set}
use sanka.Model.{AttemptIdentity, JournalEntry}
use sanka.Journal.Steps.{
  Step, saves, claims, Reach, here, next, Saves, save-Saves, Claims, claim-Claims,
  get-write_entry_sync,
}
use sanka.Journal.{
  written, claimed_row, JournalRow, Journal, Handle, ClaimOutcome, is_cancelled,
  entry_records_cancellation, write_entry_sync, save, claim, saved,
}

-- The run's row is there and records a cancellation.
abbrev pub IsCancelled : String → Journal → Type 0
IsCancelled run_id journal =
    (row : JournalRow) × (get run_id journal ≡ some row)
    × (entry_records_cancellation row.status row.entry_json ≡ true)

cancelled_row :
    (h : Handle) (now : String) (entry : JournalEntry) (journal : Journal)
    → is_cancelled entry.status ≡ true
    → entry_records_cancellation
        (written h now entry journal).status
        (written h now entry journal).entry_json
      ≡ true
unfolding entry_records_cancellation
cancelled_row h now entry journal c = ground arith

-- Writing a cancelled entry, under any run.
write-IsCancelled :
    (run_id : String) (h : Handle) (now : String) (entry : JournalEntry) (journal : Journal)
    → (h.run_id ≡ run_id → is_cancelled entry.status ≡ true)
    → IsCancelled run_id journal
    → IsCancelled run_id (write_entry_sync h now entry journal)
write-IsCancelled run_id h now entry journal c (row, e, r) =
    elim (Bool-cases (h.run_id == run_id)) [
      | inl same ↦ (
        written h now entry journal,
        ground (arith, get-write_entry_sync run_id h now entry journal),
        cancelled_row h now entry journal (c ((eq_string.beq_iff h.run_id run_id).0 same)),
      )
      | inr other ↦ (row, ground (arith, get-write_entry_sync run_id h now entry journal), r)
    ]

save-IsCancelled :
    (run_id : String) (h : Handle) (now : String) (entry : JournalEntry) (journal : Journal)
    → IsCancelled run_id journal
    → IsCancelled run_id (save h now entry journal).1
save-IsCancelled run_id h now entry journal c =
    go (save h now entry journal).1 (save-Saves h now entry journal)
  where
    go : (after : Journal) → Saves h now entry journal after → IsCancelled run_id after
    go after (Saves.unchanged e) = rw e c
    go after (Saves.wrote e w a rules) =
        let (row, there, r) = c in
        rw w (write-IsCancelled run_id h now e journal (λ same. (rules row (rw same there)).1 r) c)

claim-IsCancelled :
    (run_id : String) (h : Handle) (now : String) (attempt : AttemptIdentity) (journal : Journal)
    → IsCancelled run_id journal
    → IsCancelled run_id (claim h now attempt journal).2
claim-IsCancelled run_id h now attempt journal (row, e, r) =
    (row, go (claim h now attempt journal).2 (claim-Claims h now attempt journal), r)
  where
    go : (after : Journal) → Claims h now attempt journal after → get run_id after ≡ some row
    go after (Claims.unchanged same) = rw same e
    go after (Claims.updates old there live guard w) = rw w (
        ground (
          arith,
          get-set h.run_id run_id (claimed_row old now attempt) journal,
          eq_string.beq_iff h.run_id run_id,
        ))

Step-IsCancelled :
    (run_id : String) {a b : Journal} → Step a b → IsCancelled run_id a → IsCancelled run_id b
Step-IsCancelled run_id {a} (saves h now entry e) c = rw e (save-IsCancelled run_id h now entry a c)
Step-IsCancelled run_id {a} (claims h now attempt e) c =
    rw e (claim-IsCancelled run_id h now attempt a c)

Reach-IsCancelled :
    (run_id : String) {a b : Journal} → Reach a b → IsCancelled run_id a → IsCancelled run_id b
Reach-IsCancelled run_id here c = c
Reach-IsCancelled run_id (next r s) c = Step-IsCancelled run_id s (Reach-IsCancelled run_id r c)

-- After a run's row records a cancellation, and after any further saves and claims through any
-- handles: the row still records it, no handle of the run can claim an attempt, and no handle of the
-- run saves an entry that is not itself cancelled.
pub cancellation_final :
    {a b : Journal}
    → Reach a b
    → (h : Handle) → IsCancelled h.run_id a
    → (now : String) (attempt : AttemptIdentity) (entry : JournalEntry)
    → IsCancelled h.run_id b
      × ((claim h now attempt b).0.0 ≡ ClaimOutcome.cancelled)
      × (is_cancelled entry.status ≡ false → (save h now entry b).0 ≢ saved)
unfolding claim save
cancellation_final r h c now attempt entry =
    let (row, e, cancels) = Reach-IsCancelled h.run_id r c in
    ((row, e, cancels), ground arith, ground arith)
