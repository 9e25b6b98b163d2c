-- ===== src/Fault.antt =====
-- Exceptions as values: the classes that the runtime raises (runtime/execution/errors.py,
-- runtime/mapping/errors.py, runtime/engine.py, runtime/state.py, runtime/flow/model.py, sanka_connector/errors.py), with
-- the stable code or category that callers test. The `details` mapping of a fault is not modelled.
use sanka.Prelude.{ℕ, String, ◌≡◌, refl, Bool, true, false, Option, ◌⊎◌, inl, inr}

pub data Fault : Type 0 where
  execution_fault mapping_error flow_error : (message code : String) → Fault
  data_access_error :
      (message category : String) (retryable : Bool) (retry_after_seconds : Option ℕ) → Fault
  execution_error plan_mismatch_error state_error value_error key_error assertion_error :
      (message : String) → Fault

pub data Result {ℓ} (A : Type ℓ) : Type ℓ where
  return : A → Result A
  raise : Fault → Result A

infixl 5 ◌>>=◌ ◌>>◌
abbrev pub ◌>>=◌ {ℓ κ} : {A : Type ℓ} {B : Type κ} → Result A → (A → Result B) → Result B
return a >>= f = f a
raise e >>= f = raise e

abbrev pub ◌>>◌ {ℓ} : {B : Type ℓ} → Result (Unit {0}) → Result B → Result B
m >> k = m >>= λ _. k

-- `if not test: raise fault`
abbrev pub require : Bool → Fault → Result (Unit {0})
require true e = return tt
require false e = raise e

pub Result-cases {ℓ} :
    {A : Type ℓ} (r : Result A) → ((a : A) × (r ≡ return a)) ⊎ ((e : Fault) × (r ≡ raise e))
Result-cases (return a) = inl (a, refl)
Result-cases (raise e) = inr (e, refl)

-- A guarded computation that returned: the test held.
pub require-return {ℓ} :
    {B : Type ℓ} (test : Bool) (e : Fault) (rest : Result B) {b : B}
    → (require test e >> rest) ≡ return b
    → (test ≡ true) × (rest ≡ return b)
require-return true e rest h = (refl, h)
require-return false e rest h = absurd (cc)
