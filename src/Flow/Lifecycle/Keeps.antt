-- ===== src/Flow/Lifecycle/Keeps.antt =====
-- Properties of the world that calls keep, whether they return or raise: rules for the methods of
-- `FlowLifecycle` (runtime/flow/lifecycle.py).
use sanka.Prelude.{String, ◌≡◌, refl, List, map}
use sanka.Fault.{Result, return, raise}
use sanka.Effect.{Eff, ◌>>=◌, and_then}
use sanka.Flow.Model.{Claim, Observation, Digests}
use sanka.Flow.Lifecycle.{
  FlowHost, call, call_with, granted, renew, release_quietly, run_claimed, with_claim, require_same,
}

-- The world after the call has the property if the world before had it.
abbrev pub Keeps : {W A : Type 0} → (W → Type 0) → Eff W A → Type 0
Keeps {W} P m = (w : W) → P w → P (m w).1

module _ {W : Type 0} (P : W → Type 0) where
  -- To go past a call: the world after it, and what follows each result.
  pub and_then-Keeps :
      {A B : Type 0} (r : Result A) (f : A → Eff W B) (w : W)
      → P w
      → ((a : A) → r ≡ return a → Keeps P (f a))
      → P (and_then r f w).1
  and_then-Keeps (return a) f w p keep = keep a refl w p
  and_then-Keeps (raise e) f w p keep = p

  pub bind-Keeps :
      {A B : Type 0} (m : Eff W A) (f : A → Eff W B)
      → Keeps P m
      → ((a : A) → Keeps P (f a))
      → Keeps P (m >>= f)
  bind-Keeps m f first rest w p =
      let (r, after) = m w in and_then-Keeps r f after (first w p) (λ a e. rest a)

-- A property of the world, beside a claim.
abbrev pub Beside : {W : Type 0} → (W → Type 0) → W × Claim → Type 0
Beside P s = P s.0

module _ {W : Type 0} (P : W → Type 0) where
  pub call-Keeps : {A : Type 0} (m : Eff W A) → Keeps P m → Keeps (Beside P) (call m)
  call-Keeps m keep (w, c) p = keep w p

  pub call_with-Keeps :
      {A : Type 0} (m : Claim → Eff W A)
      → ((c : Claim) → Keeps P (m c))
      → Keeps (Beside P) (call_with m)
  call_with-Keeps m keep (w, c) p = keep c w p

  granted-Keeps : (r : Result Claim) (w : W) (c : Claim) → P w → P (granted (r, w) c).1.0
  granted-Keeps (return c') w c p = p
  granted-Keeps (raise e) w c p = p

module _ {W : Type 0} (host : FlowHost W) (P : W → Type 0) where
  pub renew-Keeps :
      (digest attempt_id : String)
      → Keeps P (host.claim digest attempt_id)
      → Keeps (Beside P) (renew host digest attempt_id)
  renew-Keeps digest attempt_id keep (w, c) p =
      let (r, after) = host.claim digest attempt_id w in granted-Keeps P r after c (keep w p)

  release_quietly-Keeps :
      ((c : Claim) → Keeps P (host.release c)) → (c : Claim) → Keeps P (release_quietly host c)
  unfolding release_quietly
  release_quietly-Keeps keep c w p = keep c w p

  run_claimed-Keeps :
      {A : Type 0} (body : Eff (W × Claim) A) (r : Result Claim)
      → ((c : Claim) → Keeps P (host.release c))
      → Keeps (Beside P) body
      → Keeps P (run_claimed host body r)
  unfolding run_claimed
  run_claimed-Keeps body (raise e) release keep w p = p
  run_claimed-Keeps body (return c) release keep w p =
      let (result, (after, latest)) = body (w, c) in release latest after (keep (w, c) p)

  pub with_claim-Keeps :
      {A : Type 0} (digest attempt_id : String) (body : Eff (W × Claim) A)
      → Keeps P (host.claim digest attempt_id)
      → ((c : Claim) → Keeps P (host.release c))
      → Keeps (Beside P) body
      → Keeps P (with_claim host body digest attempt_id)
  unfolding with_claim
  with_claim-Keeps digest attempt_id body claim release keep w p =
      let (r, claimed) = host.claim digest attempt_id w in
      run_claimed-Keeps body r release keep claimed (claim w p)

  pub require_same-Keeps :
      (digests : Digests) (expected : Observation)
      → ((ids : List String) → Keeps P (host.observe ids))
      → Keeps P (require_same host digests expected)
  unfolding require_same
  require_same-Keeps digests expected observe =
      bind-Keeps P (host.observe (map (λ r. r.target_id) expected.resources)) _
        (observe (map (λ r. r.target_id) expected.resources)) (λ actual w p. p)
