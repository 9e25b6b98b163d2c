-- ===== src/Continuous/Run/Outcome.antt =====
-- What a continuous run returns (runtime/execution/continuous.py, `ContinuousExecutor.run`).
use sanka.Prelude.{
  ℕ, ◌-◌, String, ◌≡◌, ◌⊎◌, subst, refl, true, Option, none, some, eq_string, eq_option, arith, inl,
  inr, Bool-cases, Option-cases,
}
use sanka.Prelude.Text.{first}
use sanka.Fault.{return, Result-cases}
use sanka.Effect.{fault_message}
use sanka.Model.{ExecutionStatus, ExecutionScope, AttemptIdentity, JournalEntry}
use sanka.Journal.{ClaimOutcome}
use sanka.Continuous.Manifest.{canonical_route_manifest}
use sanka.Continuous.Report.{validated_scope}
use sanka.Continuous.Host.{ExecutionHost, entry_is_cancelled, mark_execution_failed}
use sanka.Continuous.Run.{
  job_of, or_current, batches_before, marker_before, effective_scope, start_job, run_claimed,
  claim_and_run, is_completed, run,
}
use sanka.Continuous.Loop.Ended.{IsEnded, bind-return}
use sanka.Continuous.Loop.Outcome.{LimitRefused, throws, run_job_outcome}

ClaimOutcome-cases :
    (o : ClaimOutcome)
    → (o ≡ ClaimOutcome.claimed) ⊎ ((o ≡ ClaimOutcome.superseded) ⊎ (o ≡ ClaimOutcome.cancelled))
ClaimOutcome-cases ClaimOutcome.claimed = inl refl
ClaimOutcome-cases ClaimOutcome.superseded = inr (inl refl)
ClaimOutcome-cases ClaimOutcome.cancelled = inr (inr refl)

module _ {W : Type 0} (host : ExecutionHost W) where
  validated_scope_same :
      (scope effective : ExecutionScope) (entry : Option JournalEntry)
      → validated_scope scope entry ≡ return effective
      → effective ≡ scope
  unfolding validated_scope
  validated_scope_same scope effective none h = ground arith
  validated_scope_same scope effective (some entry) h = elim (Option-cases entry.scope) [
    | inl missing ↦ absurd (ground (arith, missing, h))
    | inr (saved, there) ↦ elim (Result-cases (canonical_route_manifest scope.route_manifest)) [
      | inr (e, invalid) ↦ absurd (ground (arith, there, invalid, h))
      | inl (current, c) ↦ elim (Result-cases (canonical_route_manifest saved.route_manifest)) [
        | inr (e, invalid) ↦ absurd (ground (arith, there, c, invalid, h))
        | inl (old, o) ↦ ground (arith, there, c, o, h)
      ]
    ]
  ]

  -- From the entry `saved` and the world `w` the run goes through all batches to its limit, and the
  -- journal refuses the mark of the limit.
  abbrev pub IsRefused :
      ℕ
      → ExecutionScope
      → AttemptIdentity
      → Option String
      → Option ℕ
      → Option JournalEntry
      → W
      → JournalEntry
      → Type 0
  IsRefused max_batches scope attempt job_id batch_size saved w entry =
      LimitRefused host (job_of host scope attempt job_id batch_size saved w)
        (max_batches - batches_before saved) (batches_before saved) (marker_before saved) w entry

  run_claimed_outcome :
      (max_batches : ℕ) (scope : ExecutionScope) (attempt : AttemptIdentity)
      (job_id : Option String) (batch_size : Option ℕ) (saved : Option JournalEntry)
      (entry : JournalEntry) (w : W)
      → (run_claimed host max_batches scope attempt job_id batch_size saved w).0 ≡ return entry
      → IsEnded scope entry ⊎ IsRefused max_batches scope attempt job_id batch_size saved w entry
  unfolding run_claimed start_job effective_scope
  run_claimed_outcome max_batches scope attempt job_id batch_size saved entry w h =
      elim (Result-cases (validated_scope scope saved)) [
        | inr (e, invalid) ↦
            let (effective, ok, h1) =
              bind-return (effective_scope host scope attempt job_id saved) _ w entry h in
            absurd (
              throws host
                (mark_execution_failed host (first 500 (fault_message e)) job_id attempt.attempt_id)
                e effective w (ground (arith, invalid, ok)))
        | inl (effective, valid) ↦
            let same = validated_scope_same scope effective saved valid in
            run_job_outcome host (job_of host scope attempt job_id batch_size saved w) max_batches
              (batches_before saved) (marker_before saved) entry w (ground (arith, valid, same, h))
      ]

  -- The claim of the run from `w`: what was loaded, what the fence answered, and the entry to go on from.
  pub record Claimed (attempt : AttemptIdentity) (w : W) (outcome : ClaimOutcome) : Type 0 where
    pub loaded : Option JournalEntry
    pub taken : Option JournalEntry
    pub read : (host.load w).0 ≡ return loaded
    pub answered : (host.claim attempt (host.load w).1).0 ≡ return (outcome, taken)

  -- The ways in which a run from the world `w` returns an entry.
  pub data IsOutcome (max_batches : ℕ) (scope : ExecutionScope) (attempt : AttemptIdentity)
      (job_id : Option String) (batch_size : Option ℕ) (w : W) (entry : JournalEntry) : Type 0 where
    ended : IsEnded scope entry → IsOutcome max_batches scope attempt job_id batch_size w entry
    completed_before :
        entry.status ≡ ExecutionStatus.completed
        → (host.load w).0 ≡ return (some entry)
        → IsOutcome max_batches scope attempt job_id batch_size w entry
    cancelled_at_fence :
        (c : Claimed attempt w ClaimOutcome.cancelled)
        → or_current c.taken c.loaded ≡ some entry
        → IsOutcome max_batches scope attempt job_id batch_size w entry
    limit_refused :
        (c : Claimed attempt w ClaimOutcome.claimed)
        → IsRefused max_batches scope attempt job_id batch_size
            (or_current c.taken c.loaded)
            (host.claim attempt (host.load w).1).1
            entry
        → IsOutcome max_batches scope attempt job_id batch_size w entry

  claim_and_run-IsOutcome :
      (max_batches : ℕ) (scope : ExecutionScope) (attempt : AttemptIdentity)
      (job_id : Option String) (batch_size : Option ℕ) (current : Option JournalEntry)
      (entry : JournalEntry) (w : W)
      → (host.load w).0 ≡ return current
      → (claim_and_run host max_batches scope attempt job_id batch_size current (host.load w).1).0
        ≡ return entry
      → IsOutcome max_batches scope attempt job_id batch_size w entry
  unfolding claim_and_run
  claim_and_run-IsOutcome max_batches scope attempt job_id batch_size current entry w loaded h =
      let before = (host.load w).1 in
      let ((outcome, taken), c, h1) = bind-return (host.claim attempt) _ before entry h in
      let saved = or_current taken current in
      elim (ClaimOutcome-cases outcome) [
        | inl ours ↦
            let answered : (host.claim attempt before).0 ≡ return (ClaimOutcome.claimed, taken) =
              ground (arith, c, ours) in
            elim (run_claimed_outcome max_batches scope attempt job_id batch_size saved entry
              (host.claim attempt before).1 (ground (arith, ours, h1))) [
                | inl done ↦ ended done
                | inr refused ↦
                    limit_refused
                      (record {
                        loaded = current;
                        taken = taken;
                        read = loaded;
                        answered = answered;
                      })
                      refused
              ]
        | inr (inl late) ↦ absurd (ground (arith, late, h1))
        | inr (inr cancelled) ↦ elim (Option-cases saved) [
          | inl absent ↦ absurd (ground (arith, cancelled, absent, h1))
          | inr (resolved, there) ↦
              cancelled_at_fence
                (record {
                  loaded = current;
                  taken = taken;
                  read = loaded;
                  answered = ground (arith, c, cancelled);
                })
                (ground (arith, cancelled, there, h1))
        ]
      ]

  -- When a continuous run returns an entry, that entry is cancelled, or failed, or
  -- completed with no selected route below its frozen total; or it is the entry that the run loaded, and
  -- completed; or the fence answered that the run is cancelled, and it is the entry that came with
  -- that answer, or else the one that the run loaded; or, from the world after the run's own claim,
  -- every batch up to the safety limit went on, the journal then refused the mark of the limit, and
  -- it is the entry that the journal held after that.
  pub run-IsOutcome :
      (max_batches : ℕ) (scope : ExecutionScope) (attempt : AttemptIdentity)
      (job_id : Option String) (batch_size : Option ℕ) (entry : JournalEntry) (w : W)
      → (run host max_batches scope attempt job_id batch_size w).0 ≡ return entry
      → IsOutcome max_batches scope attempt job_id batch_size w entry
  unfolding run
  run-IsOutcome max_batches scope attempt job_id batch_size entry w h =
      let (current, loaded, h1) = bind-return host.load _ w entry h in
      elim (Option-cases current) [
        | inl absent ↦
            claim_and_run-IsOutcome max_batches scope attempt job_id batch_size none entry w
              (ground (arith, loaded, absent)) (ground (arith, absent, h1))
        | inr (held, there) ↦ elim (Bool-cases (entry_is_cancelled held)) [
          | inl cancelled ↦
              let same : held ≡ entry = ground (arith, there, cancelled, h1) in
              ended (inl (subst (λ (x : JournalEntry). entry_is_cancelled x ≡ true) same cancelled))
          | inr live ↦ elim (Bool-cases (is_completed held.status)) [
            | inl complete ↦
                let same : held ≡ entry = ground (arith, there, live, complete, h1) in
                completed_before (ground (arith, same, complete))
                  (ground (arith, loaded, there, same))
            | inr unfinished ↦
                claim_and_run-IsOutcome max_batches scope attempt job_id batch_size (some held)
                  entry w (ground (arith, loaded, there))
                  (ground (arith, there, live, unfinished, h1))
          ]
        ]
      ]
