-- ===== src/Continuous/Loop/Ended.antt =====
-- How the continuous executor ends (runtime/execution/continuous.py, `ContinuousExecutor.run`).
use sanka.Prelude.{
  ℕ, zero, suc, ◌+◌, String, ◌≡◌, ◌⊎◌, ◌∙◌, sym, subst, ap, refl, Bool, true, false, Option, some,
  List, [], ◌∷◌, ◌==◌, eq_string, eq_option, arith, inl, inr, Bool-cases, Option-cases,
}
use sanka.Fault.{return, Result-cases}
use sanka.Effect.{Eff, lift, ◌>>=◌ as bind}
use sanka.Model.{ExecutionStatus, ExecutionSnapshot, ExecutionScope, JournalEntry}
use sanka.Journal.{SaveOutcome, is_cancelled, entry_records_cancellation}
use sanka.Engine.Drive.{Marker}
use sanka.Continuous.Manifest.{canonical_route_manifest, selected_route_keys}
use sanka.Continuous.{reopen_incomplete_routes, known_incomplete_route_keys}
use sanka.Continuous.Report.{Job, assemble_continuous_report}
use sanka.Continuous.Host.{ExecutionHost, entry_is_cancelled}
use sanka.Continuous.Loop.{
  Turn, turn_of, reopened, state_of, Round, returns, goes_on, incomplete_routes, reconciled_turn,
  after_save, report_turn, finish_turn, run_batch, round, batches,
}

-- No selected route is below its frozen total.
abbrev pub IsReconciled : ExecutionScope → ExecutionSnapshot → Type 0
IsReconciled scope snapshot =
    known_incomplete_route_keys snapshot scope.selected_route_keys scope.route_totals ≡ []

-- An entry that the loop returns: cancelled, failed, or completed with no selected route
-- below its frozen total.
abbrev pub IsEnded : ExecutionScope → JournalEntry → Type 0
IsEnded scope entry =
    (entry_is_cancelled entry ≡ true)
    ⊎ ((entry.status ≡ ExecutionStatus.failed)
        ⊎ ((entry.status ≡ ExecutionStatus.completed) × IsReconciled scope entry.snapshot))

pub bind-return :
    {W A B : Type 0} (m : Eff W A) (f : A → Eff W B) (w : W) (b : B)
    → (bind m f w).0 ≡ return b
    → (a : A) × ((m w).0 ≡ return a) × ((f a (m w).1).0 ≡ return b)
bind-return m f w b h = elim (Result-cases (m w).0) [
  | inl (a, e) ↦ (a, e, ground (arith, e, h))
  | inr (e, raised) ↦ absurd (ground (arith, raised, h))
]

pub Round-cases :
    (r : Round)
    → ((entry : JournalEntry) × (r ≡ returns entry)) ⊎ ((marker : Marker) × (r ≡ goes_on marker))
Round-cases (returns entry) = inl (entry, refl)
Round-cases (goes_on marker) = inr (marker, refl)

module _ {W : Type 0} (host : ExecutionHost W) (job : Job) where
  after_save-IsEnded :
      (turn : Turn) (entry result : JournalEntry) (outcome : SaveOutcome) (w : W)
      → (entry.status ≡ state_of turn)
      → (turn.has_more ≡ false → turn.stalled ≡ false → IsReconciled job.scope entry.snapshot)
      → (after_save host job turn entry outcome w).0 ≡ return (returns result)
      → IsEnded job.scope result
  unfolding after_save state_of entry_records_cancellation
  after_save-IsEnded turn entry result SaveOutcome.saved w state done h =
      elim (Bool-cases turn.stalled) [
        | inl stalled ↦ inr (inl (ground (arith, state, h)))
        | inr moving ↦ elim (Bool-cases turn.has_more) [
          | inl more ↦ absurd (ground (arith, moving, more, h))
          | inr last ↦
              let same : entry ≡ result = ground (arith, moving, last, h) in
              subst (IsEnded job.scope) same
                (inr (inr (ground (arith, state, moving, last), done last moving)))
        ]
      ]
  after_save-IsEnded turn entry result SaveOutcome.superseded w state done h = absurd (ground arith)
  after_save-IsEnded turn entry result SaveOutcome.cancelled w state done h = inl (ground arith)

  -- The report keeps the status that it is given, and the snapshot of a batch that did not stall.
  assembled :
      (now : String) (state : ExecutionStatus) (n : ℕ) (stalled : Bool) (warning : Option String)
      (entry result : JournalEntry)
      → assemble_continuous_report job now state n stalled warning entry ≡ return result
      → (result.status ≡ state) × (stalled ≡ false → result.snapshot ≡ entry.snapshot)
  unfolding assemble_continuous_report
  assembled now state n stalled warning entry result h =
      elim (Result-cases (canonical_route_manifest job.scope.route_manifest)) [
        | inr (e, invalid) ↦ absurd (ground arith)
        | inl (manifest, canonical) ↦
            elim (Result-cases (selected_route_keys manifest job.scope.selected_route_keys)) [
              | inr (e, unknown) ↦ absurd (ground arith)
              | inl (selected, known) ↦ (ground arith, λ moving. ground arith)
            ]
      ]

  incomplete_routes_none :
      (turn : Turn)
      → turn.has_more ≡ false
      → incomplete_routes host job turn ≡ []
      → IsReconciled job.scope turn.entry.snapshot
  unfolding incomplete_routes
  incomplete_routes_none turn last h = ground (arith, last, h)

  reopened_calm :
      (keys : List String) (turn after : Turn) (warning : Option String)
      → reopened keys turn ≡ return (after, warning)
      → after.has_more ≡ false
      → (keys ≡ []) × (after ≡ turn)
  unfolding reopened
  reopened_calm [] turn after warning h last = (refl, ground arith)
  reopened_calm (key ∷ keys) turn after warning h last =
      elim (Result-cases (reopen_incomplete_routes turn.entry.snapshot (key ∷ keys) true)) [
        | inr (e, unsafe) ↦ absurd (ground arith)
        | inl (snapshot, opened) ↦ absurd (ground arith)
      ]

  finish_turn-IsEnded :
      (n : ℕ) (turn : Turn) (result : JournalEntry) (w : W)
      → (finish_turn host job n turn w).0 ≡ return (returns result)
      → IsEnded job.scope result
  unfolding finish_turn report_turn
  finish_turn-IsEnded n turn result w h =
      let keys = incomplete_routes host job turn in
      let ((after, warning), opened, h1) =
        bind-return (lift (reopened keys turn)) _ w (returns result) h in
      let (entry, report, h2) =
        bind-return (report_turn host job n after warning) _ w (returns result) h1 in
      let (outcome, known, h3) = bind-return (host.save entry) _ w (returns result) h2 in
      let (state, kept) =
        assembled (host.clock w) (state_of after) (n + 1) after.stalled warning after.entry entry
          report in
      after_save-IsEnded after entry result outcome (host.save entry w).1 state
        (λ last moving.
          let (none_short, same) = reopened_calm keys turn after warning opened last in
          subst (IsReconciled job.scope) (sym (kept moving)) (
            subst (λ (t : Turn). IsReconciled job.scope t.entry.snapshot) (sym same)
              (incomplete_routes_none turn (ap (λ (t : Turn). t.has_more) (sym same) ∙ last)
                none_short)))
        h3

  run_batch-IsEnded :
      (n : ℕ) (previous : Marker) (result : JournalEntry) (w : W)
      → (run_batch host job n previous w).0 ≡ return (returns result)
      → IsEnded job.scope result
  unfolding run_batch
  run_batch-IsEnded n previous result w h =
      let ((entry, has_more), stepped, h1) = bind-return host.step _ w (returns result) h in
      elim (Bool-cases (is_cancelled entry.status)) [
        | inl cancelled ↦ inl (unfold entry_records_cancellation in ground (arith, cancelled, h1))
        | inr running ↦
            let after = (host.step w).1 in
            let turned : Eff W Turn =
              λ z. (reconciled_turn host job previous (turn_of previous entry has_more) z, z) in
            let rest : (bind turned (finish_turn host job n) after).0 ≡ return (returns result) =
              ground (arith, running, h1) in
            let (turn, reconciled, h2) =
              bind-return turned (finish_turn host job n) after (returns result) rest in
            finish_turn-IsEnded n turn result after h2
      ]

  round-IsEnded :
      (n : ℕ) (previous : Marker) (result : JournalEntry) (w : W)
      → (round host job n previous w).0 ≡ return (returns result)
      → IsEnded job.scope result
  unfolding round
  round-IsEnded n previous result w h =
      let (latest, loaded, h1) = bind-return host.load _ w (returns result) h in
      elim (Option-cases latest) [
        | inl absent ↦
            run_batch-IsEnded n previous result (host.load w).1 (ground (arith, absent, h1))
        | inr (entry, there) ↦ elim (Bool-cases (entry_is_cancelled entry)) [
          | inl cancelled ↦
              let same : entry ≡ result = ground (arith, there, cancelled, h1) in
              inl (subst (λ (x : JournalEntry). entry_is_cancelled x ≡ true) same cancelled)
          | inr live ↦ elim (Bool-cases (entry.attempt_id == some job.attempt_id)) [
            | inl own ↦
                run_batch-IsEnded n previous result (host.load w).1
                  (ground (arith, there, live, own, h1))
            | inr other ↦ absurd (ground (arith, there, live, other, h1))
          ]
        ]
      ]

  -- The loop over the batches, however many are left.
  pub batches-IsEnded :
      (left n : ℕ) (previous : Marker) (result : JournalEntry) (w : W)
      → (batches host job left n previous w).0 ≡ return (some result)
      → IsEnded job.scope result
  unfolding batches
  batches-IsEnded zero n previous result w h = absurd (ground arith)
  batches-IsEnded (suc left) n previous result w h =
      let (ending, ended, h1) = bind-return (round host job n previous) _ w (some result) h in
      elim (Round-cases ending) [
        | inl (entry, e) ↦
            let same : entry ≡ result = ground (arith, e, h1) in
            round-IsEnded n previous result w (ground (arith, ended, e, same))
        | inr (marker, e) ↦
            batches-IsEnded left (n + 1) marker result (round host job n previous w).1
              (ground (arith, e, h1))
      ]
