-- ===== src/Continuous/Loop/Rounds.antt =====
-- The rounds of the loop over the batches (runtime/execution/continuous.py).
use sanka.Prelude.{ℕ, zero, suc, ◌+◌, ◌∙◌, sym, ap, ◌≡◌, subst, Option, none, arith, inl, inr}
use sanka.Fault.{Result, return}
use sanka.Model.{JournalEntry}
use sanka.Engine.Drive.{Marker}
use sanka.Continuous.Report.{Job}
use sanka.Continuous.Host.{ExecutionHost}
use sanka.Continuous.Loop.{goes_on, round, batches}
use sanka.Continuous.Loop.Ended.{Round-cases, bind-return}

module _ {W : Type 0} (host : ExecutionHost W) where
  -- The rounds that the loop runs, from a world to another, when every one of them goes on.
  pub data Rounds (job : Job) : ℕ → ℕ → Marker → W → W → Type 0 where
    finished : (n : ℕ) (previous : Marker) (w : W) → Rounds job 0 n previous w w
    goes :
        (left n : ℕ) (previous marker : Marker) (w after z : W)
        → round host job n previous w ≡ (return (goes_on marker), after)
        → Rounds job left (n + 1) marker after z
        → Rounds job (suc left) n previous w z

  pub batches-Rounds :
      (job : Job) (left n : ℕ) (previous : Marker) (w : W)
      → (batches host job left n previous w).0 ≡ return none
      → Rounds job left n previous w (batches host job left n previous w).1
  unfolding batches
  batches-Rounds job zero n previous w h = finished n previous w
  batches-Rounds job (suc left) n previous w h =
      let x = round host job n previous w in
      let (ending, ended, h1) = bind-return (round host job n previous) _ w none h in
      elim (Round-cases ending) [
        | inl (entry, e) ↦ absurd (ground (arith, e, h1))
        | inr (marker, e) ↦
            let on : x.0 ≡ return (goes_on marker) = ended ∙ ap return e in
            let rest : batches host job (suc left) n previous w
                ≡ batches host job left (n + 1) marker x.1 =
              ground (arith, on) in
            subst (λ (y : Result (Option JournalEntry) × W). Rounds job (suc left) n previous w y.1)
              (sym rest)
              (goes left n previous marker w x.1 (batches host job left (n + 1) marker x.1).1
                (ap (λ r. (r, x.1)) on)
                (batches-Rounds job left (n + 1) marker x.1 (ap (λ y. y.0) (sym rest) ∙ h)))
      ]
