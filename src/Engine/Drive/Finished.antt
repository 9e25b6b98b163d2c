-- ===== src/Engine/Drive/Finished.antt =====
-- The end of the loop over the batches (runtime/engine.py, `_drive_apply`).
use sanka.Prelude.{
  true, subst, sym, ℕ, zero, suc, ◌≡◌, ◌≢◌, ap, ◌∙◌, Bool, false, Option, some, ◌==◌, eq_string,
  eq_list, eq_pair, arith, inl, inr, Bool-cases,
}
use sanka.Fault.{Fault, Result, return, Result-cases}
use sanka.Effect.{Eff, ◌>>=◌}
use sanka.Model.{ExecutionStatus, ExecutionSnapshot, JournalEntry}
use sanka.Journal.{SaveOutcome}
use sanka.Engine.Drive.{
  Marker, progress_marker, DriveHost, batch_entry, save_failed, after_save, drive_loop,
}

module _ {W : Type 0} (host : DriveHost W) (batch : Eff (W × ExecutionSnapshot) Bool)
    (start : JournalEntry) (w₀ : W) where
  -- The entries and worlds that the loop goes through from its start: a batch that has more and does not
  -- stall is saved, and the saved entry is the next one.
  pub data Reached : JournalEntry → W → Type 0 where
    begins : Reached start w₀
    continues :
        {entry : JournalEntry} {w : W} (after : W) (snapshot : ExecutionSnapshot) (z : W)
        → Reached entry w
        → batch (w, entry.snapshot) ≡ (return true, (after, snapshot))
        → host.save (batch_entry (host.utc_now after) false true snapshot entry) after
          ≡ (return SaveOutcome.saved, z)
        → Reached (batch_entry (host.utc_now after) false true snapshot entry) z

  -- The run ends in the world `z`: from an entry that the loop reached, a batch answered that there is
  -- no more, and its entry, which is completed, was the last save. `P` holds of the saved snapshot.
  pub record Ends (P : ExecutionSnapshot → Type 0) (z : W) : Type 0 where
    pub entry : JournalEntry
    pub world : W
    pub reached : Reached entry world
    pub after : W
    pub snapshot : ExecutionSnapshot
    pub answered : batch (world, entry.snapshot) ≡ (return false, (after, snapshot))
    pub saved :
        host.save (batch_entry (host.utc_now after) false false snapshot entry) after
        ≡ (return SaveOutcome.saved, z)
    pub holds : P snapshot

  -- A saved batch with more to do, after which the run completes: it goes on with the next batch.
  save_continues :
      (next : Eff W (Option ExecutionStatus)) (stalled : Bool) (saving : JournalEntry) (w : W)
      → ((host.save saving >>= after_save next stalled true) w).0
        ≡ return (some ExecutionStatus.completed)
      → ((host.save saving w).0 ≡ return SaveOutcome.saved)
        × (stalled ≡ false)
        × ((host.save saving >>= after_save next stalled true) w ≡ next (host.save saving w).1)
  unfolding after_save
  save_continues next stalled saving w h = elim (Result-cases (host.save saving w).0) [
    | inr (e, raised) ↦ absurd (ground (arith, raised, h))
    | inl (outcome, returned) ↦ elim (Bool-cases stalled) [
      | inl stuck ↦ absurd (ground (arith, returned, stuck, h))
      | inr moving ↦
          let is_saved : outcome ≡ SaveOutcome.saved = ground (arith, returned, moving, h) in
          (ground (arith, returned, is_saved), moving, ground (arith, returned, is_saved, moving))
    ]
  ]

  -- The last save of a run that completes.
  save_ends :
      (next : Eff W (Option ExecutionStatus)) (saving : JournalEntry) (w : W)
      → ((host.save saving >>= after_save next false false) w).0
        ≡ return (some ExecutionStatus.completed)
      → ((host.save saving w).0 ≡ return SaveOutcome.saved)
        × (((host.save saving >>= after_save next false false) w).1 ≡ (host.save saving w).1)
  unfolding after_save
  save_ends next saving w h = elim (Result-cases (host.save saving w).0) [
    | inr (e, raised) ↦ absurd (ground (arith, raised, h))
    | inl (outcome, returned) ↦
        let is_saved : outcome ≡ SaveOutcome.saved = ground (arith, returned, h) in
        (ground (arith, returned, is_saved), ground (arith, returned, is_saved))
  ]

  save_failed_raises :
      (entry : JournalEntry) (e : Fault) (w : W) (x : Option ExecutionStatus)
      → (save_failed host entry e w).0 ≢ return x
  unfolding save_failed
  save_failed_raises entry e w x = ground arith

  pub drive_loop-Ends :
      (P : ExecutionSnapshot → Type 0)
      → ((w : W) (s : ExecutionSnapshot) → (batch (w, s)).0 ≡ return false → P (batch (w, s)).1.1)
      → (fuel : ℕ) (entry : JournalEntry) (previous : Marker) (w : W) → Reached entry w
      → (drive_loop host batch fuel entry previous w).0 ≡ return (some ExecutionStatus.completed)
      → Ends P (drive_loop host batch fuel entry previous w).1
  unfolding drive_loop
  drive_loop-Ends P done zero entry previous w r h = absurd (ground (arith, h))
  drive_loop-Ends P done (suc fuel) entry previous w r h =
      let x = batch (w, entry.snapshot) in
      let after = x.1.0 in
      let marker = progress_marker x.1.1 in
      let now = host.utc_now after in
      elim (Result-cases x.0) [
        | inr (e, raised) ↦ absurd (
            ground (
              arith,
              raised,
              h,
              save_failed_raises (record entry { snapshot = x.1.1 }) e after
                  (some ExecutionStatus.completed),
            ))
        | inl (more, returned) ↦ elim (Bool-cases more) [
          | inl again ↦
              let answered : x.0 ≡ return true = returned ∙ ap return again in
              let stalled = marker == previous in
              let saving = batch_entry now stalled true x.1.1 entry in
              let calm = batch_entry now false true x.1.1 entry in
              let next = drive_loop host batch fuel saving marker in
              let unrolled : drive_loop host batch (suc fuel) entry previous w
                  ≡ (host.save saving >>= after_save next stalled true) after =
                ground (arith, answered) in
              let (ok, moving, goes) =
                save_continues next stalled saving after (ap (λ y. y.0) (sym unrolled) ∙ h) in
              let same : saving ≡ calm = ap (λ b. batch_entry now b true x.1.1 entry) moving in
              let ok' : (host.save calm after).0 ≡ return SaveOutcome.saved =
                subst (λ (e : JournalEntry). (host.save e after).0 ≡ return SaveOutcome.saved) same
                  ok in
              let reached : Reached saving (host.save saving after).1 =
                subst (λ (e : JournalEntry). Reached e (host.save e after).1) (sym same)
                  (continues after x.1.1 (host.save calm after).1 r (ap (λ a. (a, x.1)) answered)
                    (ap (λ a. (a, (host.save calm after).1)) ok')) in
              subst (λ (y : Result (Option ExecutionStatus) × W). Ends P y.1)
                (sym (unrolled ∙ goes))
                (drive_loop-Ends P done fuel saving marker (host.save saving after).1 reached
                  (ap (λ y. y.0) (sym (unrolled ∙ goes)) ∙ h))
          | inr last ↦
              let answered : x.0 ≡ return false = returned ∙ ap return last in
              let saving = batch_entry now false false x.1.1 entry in
              let next = drive_loop host batch fuel saving marker in
              let unrolled : drive_loop host batch (suc fuel) entry previous w
                  ≡ (host.save saving >>= after_save next false false) after =
                ground (arith, answered) in
              let (ok, ends) = save_ends next saving after (ap (λ y. y.0) (sym unrolled) ∙ h) in
              record {
                entry = entry;
                world = w;
                reached = r;
                after = after;
                snapshot = x.1.1;
                answered = ap (λ a. (a, x.1)) answered;
                saved =
                    ap (λ a. (a, (host.save saving after).1)) ok
                    ∙ ap (λ z. (return SaveOutcome.saved, z)) (sym (ap (λ y. y.1) unrolled ∙ ends));
                holds = done w entry.snapshot answered;
              }
        ]
      ]
