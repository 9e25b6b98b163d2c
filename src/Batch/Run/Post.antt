-- ===== src/Batch/Run/Post.antt =====
-- Rules on what an action of a batch returns, which follow the code (`run_batch` of execution/routes.py).
use sanka.Prelude.{◌≡◌, refl, Bool, true, false, if◌then◌else◌, eq_string, arith}
use sanka.Fault.{Result, return, raise}
use sanka.Effect.{Eff, and_then}
use sanka.Model.{ExecutionSnapshot}
use sanka.Batch.Parked.{◌>>=◌, current_snapshot}

module _ {W B : Type 0} (Q : B → ExecutionSnapshot → Type 0) where
  -- What holds where an action returns: at one snapshot, or at each.
  abbrev pub PostAt : ExecutionSnapshot → Eff (W × ExecutionSnapshot) B → Type 0
  PostAt s m = (w : W) (b : B) → (m (w, s)).0 ≡ return b → Q b (m (w, s)).1.1

  abbrev pub Post : Eff (W × ExecutionSnapshot) B → Type 0
  Post m = (s : ExecutionSnapshot) → PostAt s m

  and_then-Post :
      {A : Type 0} (r : Result A) (f : A → Eff (W × ExecutionSnapshot) B)
      → ((a : A) → Post (f a))
      → Post (and_then r f)
  and_then-Post (return a) f h = h a
  and_then-Post (raise e) f h = λ s w b eq. absurd (ground (arith, eq))

  pub bind-PostAt :
      {A : Type 0} (s : ExecutionSnapshot) (m : Eff (W × ExecutionSnapshot) A)
      (f : A → Eff (W × ExecutionSnapshot) B)
      → ((a : A) → Post (f a))
      → PostAt s (m >>= f)
  unfolding ◌>>=◌
  bind-PostAt s m f h w b eq = let x = m (w, s) in and_then-Post x.0 f h x.1.1 x.1.0 b eq

  pub bind-Post :
      {A : Type 0} (m : Eff (W × ExecutionSnapshot) A) (f : A → Eff (W × ExecutionSnapshot) B)
      → ((a : A) → Post (f a))
      → Post (m >>= f)
  bind-Post m f h s = bind-PostAt s m f h

  pub snapshot-Post :
      (f : ExecutionSnapshot → Eff (W × ExecutionSnapshot) B)
      → ((s : ExecutionSnapshot) → PostAt s (f s))
      → Post (current_snapshot >>= f)
  unfolding ◌>>=◌
  snapshot-Post f h s w = h s w

  pub either-Post :
      (b : Bool) (m n : Eff (W × ExecutionSnapshot) B) → Post m → Post n → Post (if b then m else n)
  either-Post true m n h g = h
  either-Post false m n h g = g

  pub either-PostAt :
      (s : ExecutionSnapshot) (b : Bool) (m n : Eff (W × ExecutionSnapshot) B)
      → (b ≡ true → PostAt s m)
      → PostAt s n
      → PostAt s (elim b [ true ↦ m | false ↦ n ])
  either-PostAt s true m n h g = h refl
  either-PostAt s false m n h g = g
