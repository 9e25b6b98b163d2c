-- ===== src/Effect.antt =====
-- Calls that act on the outside world and may raise: the world is passed on, also past an exception.
use sanka.Prelude.{String}
use sanka.Fault.{
  Fault, execution_fault, mapping_error, data_access_error, execution_error, plan_mismatch_error,
  state_error, value_error, flow_error, key_error, assertion_error, Result, return, raise,
}

abbrev pub Eff {ℓ} : Type ℓ → Type ℓ → Type ℓ
Eff W A = W → Result A × W

module _ {ℓ} {W A : Type ℓ} where
  abbrev pub pure : A → Eff W A
  pure a w = (return a, w)

  abbrev pub throw : Fault → Eff W A
  throw e w = (raise e, w)

  -- A pure computation that may raise.
  abbrev pub lift : Result A → Eff W A
  lift r w = (r, w)

  -- `try: … except Exception as error: …`
  abbrev pub catch : Eff W A → (Fault → Eff W A) → Eff W A
  catch m handler w =
      let (r, w') = m w in elim r [ return a ↦ (return a, w') | raise e ↦ handler e w' ]

module _ {ℓ} {W A B : Type ℓ} where
  abbrev pub and_then : Result A → (A → Eff W B) → Eff W B
  and_then (return a) f = f a
  and_then (raise e) f = throw e

  infixl 5 ◌>>=◌ ◌>>◌
  abbrev pub ◌>>=◌ : Eff W A → (A → Eff W B) → Eff W B
  ◌>>=◌ m f w = let (r, w') = m w in and_then r f w'

  abbrev pub ◌>>◌ : Eff W A → Eff W B → Eff W B
  m >> n = m >>= λ _. n

-- `str(error)`
unfoldable pub fault_message : Fault → String
fault_message (execution_fault message code) = message
fault_message (mapping_error message code) = message
fault_message (data_access_error message category retryable retry_after_seconds) = message
fault_message (execution_error message) = message
fault_message (plan_mismatch_error message) = message
fault_message (state_error message) = message
fault_message (value_error message) = message
fault_message (flow_error message code) = message
fault_message (key_error message) = message
fault_message (assertion_error message) = message
