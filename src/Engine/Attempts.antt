-- ===== src/Engine/Attempts.antt =====
-- The number of attempts of a write (runtime/engine.py, `_with_retries`).
use sanka.Prelude.{ℕ, zero, suc, ◌+◌, ◌≤◌, ◌<◌, ◌≡◌, true, refl, arith, inl, inr}
use sanka.Fault.{Fault, Result, raise, Result-cases}
use sanka.Effect.{Eff}
use sanka.Engine.{is_retryable, retry_delay, retry_loop, with_retries}

module _ {W A : Type 0} (sleep : ℕ → W → W) (operation : Eff W A) (calls : W → ℕ) where
  -- The outcome of a loop that started in `w`: its calls, and an error that could be retried.
  abbrev pub Bounded : ℕ → W → Result A × W → Type 0
  Bounded most w x =
      (calls w < calls x.1)
      × (calls x.1 ≤ calls w + most)
      × ((e : Fault) → x.0 ≡ raise e → is_retryable e ≡ true → calls x.1 ≡ calls w + most)

  module _ (counts : (w : W) → calls (operation w).1 ≡ suc (calls w))
      (rests : (n : ℕ) (w : W) → calls (sleep n w) ≡ calls w) where
    retry_loop-Bounded :
        (left attempt : ℕ) (w : W)
        → left + attempt ≡ 4
        → Bounded (suc left) w (retry_loop sleep operation (suc left) attempt w)
    unfolding retry_loop
    retry_loop-Bounded zero attempt w h = ground (arith, Result-cases (operation w).0, counts w, h)
    retry_loop-Bounded (suc left) attempt w h = elim (Result-cases (operation w).0) [
      | inl (a, returned) ↦ ground (arith, returned, counts w)
      | inr (e, raised) ↦
          let next = sleep (retry_delay (suc attempt) e) (operation w).1 in
          let (more, most, all) = retry_loop-Bounded left (suc attempt) next (omega (arith, h)) in
          ground (
            arith,
            raised,
            counts w,
            rests (retry_delay (suc attempt) e) (operation w).1,
            more,
            most,
            all,
            h,
          )
    ]

    -- Where each attempt counts one call and a pause counts none: a write with retries is called once at
    -- least and five times at most, and five times exactly if it ends in an error that could be retried.
    pub with_retries-Bounded : (w : W) → Bounded 5 w (with_retries sleep operation w)
    unfolding with_retries
    with_retries-Bounded w = retry_loop-Bounded 4 0 w refl
