-- ===== src/Continuous/Loop/Outcome.antt =====
-- What the loop over the batches, its exception handler and the batch safety limit return
-- (runtime/execution/continuous.py).
use sanka.Prelude.{
  ℕ, ◌-◌, String, ◌≡◌, ◌≢◌, ◌⊎◌, subst, true, ◌&&◌, ◌||◌, not, Option, none, some, ◌==◌, eq_string,
  eq_option, arith, inl, inr, Bool-cases, Option-cases,
}
use sanka.Prelude.Text.{first}
use sanka.Fault.{Fault, return, Result-cases}
use sanka.Effect.{Eff, throw, catch, fault_message, ◌>>=◌ as bind}
use sanka.Model.{ExecutionStatus, JournalEntry}
use sanka.Engine.Drive.{Marker}
use sanka.Continuous.Report.{Job, marked_entry, fresh_entry, or_else}
use sanka.Continuous.Host.{
  ExecutionHost, entry_is_cancelled, is_execution_fault, save_marked, mark_execution_failed,
  load_or_absent, batch_safety_limit_message,
}
use sanka.Continuous.Loop.{batches, after_fault, after_limit, run_job}
use sanka.Continuous.Loop.Ended.{IsEnded, bind-return, batches-IsEnded}
use sanka.Continuous.Loop.Rounds.{Rounds, batches-Rounds}

module _ {W : Type 0} (host : ExecutionHost W) where
  save_marked-saved :
      (entry result : JournalEntry) (w : W)
      → (save_marked host entry w).0 ≡ return (some result)
      → entry ≡ result
  unfolding save_marked
  save_marked-saved entry result w h = elim (Result-cases (host.save entry w).0) [
    | inr (e, raised) ↦ absurd (ground (arith, raised, h))
    | inl (outcome, e) ↦ ground (arith, e, h)
  ]

  -- An entry that `mark_execution_failed` returns is failed.
  mark_execution_failed-failed :
      (message : String) (job_id : Option String) (attempt_id : String) (result : JournalEntry)
      (w : W)
      → (mark_execution_failed host message job_id attempt_id w).0 ≡ return (some result)
      → result.status ≡ ExecutionStatus.failed
  unfolding mark_execution_failed marked_entry
  mark_execution_failed-failed message job_id attempt_id result w h =
      elim (Result-cases (host.load w).0) [
        | inr (e, raised) ↦ elim (Bool-cases (is_execution_fault e)) [
          | inl expected ↦ absurd (ground (arith, raised, expected, h))
          | inr other ↦ absurd (ground (arith, raised, other, h))
        ]
        | inl (found, e) ↦
            let entry = or_else found (fresh_entry job_id (some attempt_id)) in
            let marked = marked_entry (host.clock w) message job_id (some attempt_id) entry in
            elim (Bool-cases
              (not (job_id == none) && not (entry.job_id == none || entry.job_id == job_id))) [
                | inl other ↦ absurd (ground (arith, e, other, h))
                | inr own ↦
                    let same =
                      save_marked-saved marked result (host.load w).1 (ground (arith, e, own, h)) in
                    ground (arith, same)
              ]
      ]

  pub throws :
      {A B : Type 0} (m : Eff W A) (e : Fault) (result : B) (w : W)
      → (bind m (λ _. throw e) w).0 ≢ return result
  throws m e result w h =
      let (a, returned, rest) = bind-return m (λ _. throw e) w result h in ground arith

  after_fault-cancelled :
      (job : Job) (e : Fault) (result : Option JournalEntry) (w : W)
      → (after_fault host job e w).0 ≡ return result
      → (entry : JournalEntry) × (result ≡ some entry) × (entry_is_cancelled entry ≡ true)
  unfolding after_fault
  after_fault-cancelled job e result w h =
      let (latest, loaded, h1) = bind-return (load_or_absent host) _ w result h in
      let marked =
        mark_execution_failed host (first 500 (fault_message e)) job.job_id job.attempt_id in
      let after = (load_or_absent host w).1 in
      elim (Option-cases latest) [
        | inl absent ↦ absurd (throws marked e result after (ground (arith, absent, h1)))
        | inr (entry, there) ↦ elim (Bool-cases (entry_is_cancelled entry)) [
          | inl cancelled ↦ (entry, ground (arith, there, cancelled, h1), cancelled)
          | inr live ↦ absurd (throws marked e result after (ground (arith, there, live, h1)))
        ]
      ]

  -- A loop with `left` batches to its limit that starts in the world `w` runs all of them, every one
  -- goes on, and in the world after them the journal refuses the mark of the limit; the entry is what
  -- the journal holds after that.
  pub record LimitRefused (job : Job) (left n : ℕ) (previous : Marker) (w : W)
      (entry : JournalEntry) : Type 0 where
    pub after : W
    pub rounds : Rounds host job left n previous w after
    pub refused :
        (mark_execution_failed host batch_safety_limit_message job.job_id job.attempt_id after).0
        ≡ return none
    pub held :
        (host.load
          (mark_execution_failed host batch_safety_limit_message job.job_id job.attempt_id
            after).1).0
        ≡ return (some entry)

  -- The end of the limit: the entry that was marked, or the one that the journal holds.
  IsRefused : Job → W → JournalEntry → Type 0
  IsRefused job z entry =
      ((mark_execution_failed host batch_safety_limit_message job.job_id job.attempt_id z).0
        ≡ return none)
      × ((host.load
            (mark_execution_failed host batch_safety_limit_message job.job_id job.attempt_id z).1).0
          ≡ return (some entry))

  after_limit_outcome :
      (job : Job) (entry : JournalEntry) (w : W)
      → (after_limit host job w).0 ≡ return entry
      → (entry.status ≡ ExecutionStatus.failed) ⊎ IsRefused job w entry
  unfolding after_limit IsRefused
  after_limit_outcome job entry w h =
      let mark = mark_execution_failed host batch_safety_limit_message job.job_id job.attempt_id in
      let (marked, m, h1) = bind-return mark _ w entry h in
      elim (Option-cases marked) [
        | inr (failed, there) ↦
            let same : failed ≡ entry = ground (arith, there, h1) in
            inl (
              mark_execution_failed-failed batch_safety_limit_message job.job_id job.attempt_id
                entry w (ground (arith, m, there, same)))
        | inl refused ↦ elim (Result-cases (host.load (mark w).1).0) [
          | inr (e, raised) ↦ absurd (ground (arith, refused, raised, h1))
          | inl (final, loaded) ↦ elim (Option-cases final) [
            | inl absent ↦ absurd (ground (arith, refused, loaded, absent, h1))
            | inr (held, present) ↦
                inr (ground (arith, m, refused), ground (arith, refused, loaded, present, h1))
          ]
        ]
      ]

  pub run_job_outcome :
      (job : Job) (max_batches n : ℕ) (previous : Marker) (entry : JournalEntry) (w : W)
      → (run_job host job max_batches n previous w).0 ≡ return entry
      → IsEnded job.scope entry ⊎ LimitRefused job (max_batches - n) n previous w entry
  unfolding run_job IsRefused
  run_job_outcome job max_batches n previous entry w h =
      let loop = batches host job (max_batches - n) n previous in
      let guarded = catch loop (after_fault host job) in
      let (ending, ended, h1) = bind-return guarded _ w entry h in
      elim (Option-cases ending) [
        | inl over ↦ elim (Result-cases (loop w).0) [
          | inr (fault, raised) ↦
              let (found, f, cancelled) =
                after_fault-cancelled job fault ending (loop w).1 (ground (arith, raised, ended)) in
              absurd (ground (arith, f, over))
          | inl (r, e) ↦
              let limit : (loop w).0 ≡ return none = ground (arith, e, ended, over) in
              let same : (guarded w).1 ≡ (loop w).1 = ground (arith, limit) in
              elim (after_limit_outcome job entry (guarded w).1 (ground (arith, over, h1))) [
                | inl failed ↦ inl (inr (inl failed))
                | inr refused ↦
                    let at_end : IsRefused job (loop w).1 entry =
                      subst (λ z. IsRefused job z entry) same refused in
                    inr (record {
                      after = (loop w).1;
                      rounds = batches-Rounds host job (max_batches - n) n previous w limit;
                      refused = at_end.0;
                      held = at_end.1;
                    })
              ]
        ]
        | inr (result, there) ↦
            let same : result ≡ entry = ground (arith, there, h1) in
            elim (Result-cases (loop w).0) [
              | inl (r, e) ↦ inl (
                  batches-IsEnded host job (max_batches - n) n previous entry w
                    (ground (arith, e, ended, there, same)))
              | inr (fault, raised) ↦
                  let (found, f, cancelled) =
                    after_fault-cancelled job fault ending (loop w).1
                      (ground (arith, raised, ended)) in
                  let this : found ≡ entry = ground (arith, f, there, same) in
                  inl
                    (inl (subst (λ (x : JournalEntry). entry_is_cancelled x ≡ true) this cancelled))
            ]
      ]
