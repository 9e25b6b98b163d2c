-- ===== src/Engine/Resume/Completed.antt =====
-- The status of an apply (runtime/engine.py, `_drive_apply`).
use sanka.Prelude.{
  ℕ, String, ◌≡◌, refl, ap, sym, subst, ◌∙◌, Bool, Option, none, some, List, arith, ◌⊎◌, inl, inr,
  Option-cases,
}
use sanka.Prelude.Dict.{Dict}
use sanka.Fault.{Result, return, Result-cases}
use sanka.Value.{Value}
use sanka.Effect.{Eff}
use sanka.Model.{ExecutionStatus, ExecutionSnapshot, ExecutionScope, JournalEntry}
use sanka.Journal.{ClaimOutcome}
use sanka.Scope.{ExactIdScope}
use sanka.Batch.{ExecutionRoute, WritePolicies}
use sanka.Batch.Run.{run_batch}
use sanka.Batch.Run.Done.{AllComplete, run_batch-AllComplete}
use sanka.Engine.Drive.{DriveHost, progress_marker}
use sanka.Engine.Drive.Finished.{Ends, begins, drive_loop-Ends}
use sanka.Engine.Resume.{
  batch_config, start_entry, drive_from, after_claim, drive_apply, resume_exact_scope, is_settled,
  or_loaded, apply_attempt,
}

settled_completed :
    (loaded : Option JournalEntry)
    → is_settled loaded ≡ some ExecutionStatus.completed
    → (entry : JournalEntry) × (loaded ≡ some entry) × (entry.status ≡ ExecutionStatus.completed)
settled_completed none h = absurd (ground (arith, h))
settled_completed (some entry) h = (entry, refl, ground (arith, h))

resume_exact_scope_same :
    (approved : ExactIdScope) (saved : Option ExecutionScope) (scope : ExactIdScope)
    → resume_exact_scope approved saved ≡ return scope
    → scope ≡ approved
unfolding resume_exact_scope
resume_exact_scope_same approved none scope h = ground (arith, h)
resume_exact_scope_same approved (some saved) scope h = ground (arith, h)

module _ (transform : Value → Option String → Result Value) (equals : Value → Value → Bool)
    (lower : String → String) (content_hash : Dict String (List String) → String) {W : Type 0}
    (host : DriveHost W) (policies : WritePolicies) (batch_size : ℕ)
    (routes : List ExecutionRoute) where
  -- The batches of a run, under the approved scope.
  abbrev batch_of : ExactIdScope → Eff (W × ExecutionSnapshot) Bool
  batch_of scope =
      run_batch transform equals lower host.batch (batch_config policies batch_size scope)
        content_hash routes

  -- The loop of a run from the entry `loaded` in the world `w` ends in the world `z`.
  abbrev pub LoopEnds : String → ExactIdScope → Option JournalEntry → W → W → Type 0
  LoopEnds run_id scope loaded w z =
      Ends host (batch_of scope)
        (start_entry (host.utc_now w) (apply_attempt run_id).attempt_id batch_size scope loaded) w
        (AllComplete routes) z

  drive_from-Ends :
      (fuel : ℕ) (run_id : String) (scope : ExactIdScope) (loaded : Option JournalEntry) (w : W)
      → (drive_from transform equals lower content_hash host policies batch_size routes fuel run_id
          scope loaded w).0
        ≡ return (some ExecutionStatus.completed)
      → LoopEnds run_id scope loaded w
          (drive_from transform equals lower content_hash host policies batch_size routes fuel
            run_id scope loaded w).1
  unfolding drive_from
  drive_from-Ends fuel run_id scope loaded w h =
      let entry =
        start_entry (host.utc_now w) (apply_attempt run_id).attempt_id batch_size scope loaded in
      drive_loop-Ends host (batch_of scope) entry w (AllComplete routes)
        (run_batch-AllComplete host.batch transform equals lower
          (batch_config policies batch_size scope) content_hash routes)
        fuel entry (progress_marker entry.snapshot) w begins h

  -- What the run of `drive_apply` from `w` to `z` did: it loaded and claimed an entry, and its loop ended.
  pub record Applied (run_id : String) (approved : ExactIdScope) (w z : W) : Type 0 where
    pub loaded : Option JournalEntry
    pub taken : Option JournalEntry
    pub read : (host.load w).0 ≡ return loaded
    pub claimed :
        (host.claim (apply_attempt run_id) (host.load w).1).0 ≡ return (ClaimOutcome.claimed, taken)
    pub ends :
        LoopEnds run_id approved
          (or_loaded taken loaded)
          (host.claim (apply_attempt run_id) (host.load w).1).1
          z

  after_claim-Ends :
      (fuel : ℕ) (run_id : String) (approved : ExactIdScope) (loaded : Option JournalEntry)
      (outcome : ClaimOutcome) (taken : Option JournalEntry) (w : W)
      → (after_claim transform equals lower content_hash host policies batch_size routes fuel run_id
          approved loaded
          (outcome, taken)
          w).0
        ≡ return (some ExecutionStatus.completed)
      → (outcome ≡ ClaimOutcome.claimed)
        × LoopEnds run_id approved
            (or_loaded taken loaded)
            w
            (after_claim transform equals lower content_hash host policies batch_size routes fuel
              run_id approved loaded
              (outcome, taken)
              w).1
  unfolding after_claim resume_exact_scope
  after_claim-Ends fuel run_id approved loaded ClaimOutcome.cancelled taken w h =
      absurd (ground (arith, h))
  after_claim-Ends fuel run_id approved loaded ClaimOutcome.superseded taken w h =
      absurd (ground (arith, h))
  after_claim-Ends fuel run_id approved loaded ClaimOutcome.claimed taken w h =
      let entry = or_loaded taken loaded in
      let drives =
        drive_from transform equals lower content_hash host policies batch_size routes fuel run_id
          approved entry in
      elim (Result-cases
        (resume_exact_scope approved (elim entry [ none ↦ none | some e ↦ e.scope ]))) [
          | inr (e, refused) ↦ absurd (ground (arith, refused, h))
          | inl (scope, resumed) ↦
              let same : scope ≡ approved =
                resume_exact_scope_same approved (elim entry [ none ↦ none | some e ↦ e.scope ])
                  scope resumed in
              let rest : after_claim transform equals lower content_hash host policies batch_size
                    routes fuel run_id approved loaded (ClaimOutcome.claimed, taken) w
                  ≡ drives w =
                ground (arith, resumed, same) in
              (
                refl,
                subst
                    (λ (y : Result (Option ExecutionStatus) × W).
                      LoopEnds run_id approved entry w y.1)
                    (sym rest)
                    (drive_from-Ends fuel run_id approved entry w (ap (λ y. y.0) (sym rest) ∙ h)),
              )
        ]

  -- If an apply ends as completed, then the journal entry that it loaded was completed, and it did
  -- nothing else; or it claimed the run, and its own loop went, from the start entry and the world
  -- after the claim, through batches that were saved with more to do to a batch that answered that
  -- there is no more: in that batch's snapshot every route is complete, its entry was saved, and that
  -- save was the last thing the apply did.
  pub drive_apply-Finished :
      (fuel : ℕ) (run_id : String) (approved : ExactIdScope) (w : W)
      → (drive_apply transform equals lower content_hash host policies batch_size routes fuel run_id
          approved w).0
        ≡ return (some ExecutionStatus.completed)
      → ((entry : JournalEntry) × ((host.load w).0 ≡ return (some entry))
          × (entry.status ≡ ExecutionStatus.completed)
          × ((drive_apply transform equals lower content_hash host policies batch_size routes fuel
                run_id approved w).1
              ≡ (host.load w).1))
        ⊎ Applied run_id approved w
            (drive_apply transform equals lower content_hash host policies batch_size routes fuel
              run_id approved w).1
  unfolding drive_apply
  drive_apply-Finished fuel run_id approved w h = elim (Result-cases (host.load w).0) [
    | inr (e, raised) ↦ absurd (ground (arith, raised, h))
    | inl (loaded, read) ↦ elim (Option-cases (is_settled loaded)) [
      | inl unsettled ↦
          let claim = host.claim (apply_attempt run_id) (host.load w).1 in
          elim (Result-cases claim.0) [
            | inr (e, raised) ↦ absurd (ground (arith, read, unsettled, raised, h))
            | inl ((outcome, taken), answered) ↦
                let rest : drive_apply transform equals lower content_hash host policies batch_size
                      routes fuel run_id approved w
                    ≡ after_claim transform equals lower content_hash host policies batch_size
                        routes fuel run_id approved loaded (outcome, taken) claim.1 =
                  ground (arith, read, unsettled, answered) in
                let (ours, ends) =
                  after_claim-Ends fuel run_id approved loaded outcome taken claim.1
                    (ap (λ y. y.0) (sym rest) ∙ h) in
                inr (record {
                  loaded = loaded;
                  taken = taken;
                  read = read;
                  claimed = answered ∙ ap (λ o. return (o, taken)) ours;
                  ends =
                      subst
                        (λ (y : Result (Option ExecutionStatus) × W).
                          LoopEnds run_id approved (or_loaded taken loaded) claim.1 y.1)
                        (sym rest) ends;
                })
          ]
      | inr (status, settled) ↦
          let (entry, there, done) = settled_completed loaded (ground (arith, read, settled, h)) in
          inl (entry, read ∙ ap return there, done, ground (arith, read, settled))
    ]
  ]
