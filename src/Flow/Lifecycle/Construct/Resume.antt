-- ===== src/Flow/Lifecycle/Construct/Resume.antt =====
-- A construction that is resumed with its receipts (runtime/flow/lifecycle.py, `construct`).
use sanka.Prelude.{
  String, ◌≡◌, ◌≢◌, true, false, Option, none, some, List, [], ◌∷◌, map, ◌==◌, eq_string,
}
use sanka.Prelude.Dict.{update}
use sanka.Fault.{Result, return}
use sanka.Effect.{lift, ◌>>=◌}
use sanka.Flow.Json.{Document}
use sanka.Flow.Model.{
  OwnedResource, Observation, Operation, Action, eq_action, FlowPlan, Claim, OperationReceipt,
  Construction, Digests,
}
use sanka.Flow.Advance.{advance, by_target_id}
use sanka.Flow.Lifecycle.{FlowHost, Blueprints, call, call_with, renew, require_same, check_plan}
use sanka.Flow.Lifecycle.Keeps.{
  Keeps, Beside, bind-Keeps, and_then-Keeps, call-Keeps, call_with-Keeps, renew-Keeps,
  with_claim-Keeps, require_same-Keeps,
}
use sanka.Flow.Lifecycle.Construct.{
  Bindings, receipt_of, after_begin, construct_operation, construct_loop, construct_new,
  construct_or_return, construct_body, construct, owned_resources, require_construction,
}

-- A property of the world that the store's calls and observations keep, and under which the store has a
-- receipt for each operation that is begun.
pub record ResumeKeeps {W : Type 0} (host : FlowHost W) (P : W → Type 0) : Type 0 where
  pub claim : (digest attempt_id : String) → Keeps P (host.claim digest attempt_id)
  pub release : (c : Claim) → Keeps P (host.release c)
  pub construction : (digest : String) → Keeps P (host.construction digest)
  pub load : Keeps P host.load
  pub begin_operation : (c : Claim) (op : Operation) → Keeps P (host.begin_operation c op)
  pub has_receipt :
      (c : Claim) (op : Operation) (w : W) → P w → (host.begin_operation c op w).0 ≢ return none
  pub finish_construction :
      (c : Claim) (resources : List OwnedResource) (o : Observation)
      → Keeps P (host.finish_construction c resources o)
  pub observe : (ids : List String) → Keeps P (host.observe ids)

module _ {W : Type 0} (host : FlowHost W) (digests : Digests) (P : W → Type 0)
    (k : ResumeKeeps host P) where
  -- The operation takes the stored receipt.
  after_begin-Keeps :
      (op : Operation) (expected : Observation) (bindings : Bindings)
      (r : Result (Option OperationReceipt))
      → r ≢ return none
      → (stored : Option OperationReceipt) → r ≡ return stored
      → Keeps (Beside P) (after_begin host digests op expected bindings stored)
  after_begin-Keeps op expected bindings r some_receipt none e = absurd (some_receipt e)
  after_begin-Keeps op expected bindings r some_receipt (some receipt) e =
      unfold after_begin receipt_of in
      λ s p. and_then-Keeps (Beside P) (advance digests expected op receipt) _ s p (λ o e' t q. q)

  operation-Keeps :
      (digest attempt_id : String) (op : Operation) (expected : Observation) (bindings : Bindings)
      → Keeps (Beside P) (construct_operation host digests digest attempt_id op expected bindings)
  unfolding construct_operation
  operation-Keeps digest attempt_id op expected bindings =
      bind-Keeps (Beside P) (renew host digest attempt_id) _
        (renew-Keeps host P digest attempt_id (k.claim digest attempt_id))
        λ u s p.
          and_then-Keeps (Beside P) (host.begin_operation s.1 op s.0).0 _ _
            (k.begin_operation s.1 op s.0 p)
            (after_begin-Keeps op expected bindings (host.begin_operation s.1 op s.0).0
              (k.has_receipt s.1 op s.0 p))

  loop-Keeps :
      (digest attempt_id : String) (ops : List Operation) (expected : Observation)
      (bindings : Bindings)
      → Keeps (Beside P) (construct_loop host digests digest attempt_id ops expected bindings)
  unfolding construct_loop
  loop-Keeps digest attempt_id [] expected bindings = λ s p. p
  loop-Keeps digest attempt_id (op ∷ ops) expected bindings =
      elim (op.action == Action.preserve)
        as (λ preserved. Keeps (Beside P) (elim preserved [
          | true ↦ construct_loop host digests digest attempt_id ops expected bindings
          | false ↦
              construct_operation host digests digest attempt_id op expected bindings
              >>= λ (after, rebound).
                  construct_loop host digests digest attempt_id ops after rebound
        ])) [
          | true ↦ loop-Keeps digest attempt_id ops expected bindings
          | false ↦
              bind-Keeps (Beside P)
                (construct_operation host digests digest attempt_id op expected bindings) _
                (operation-Keeps digest attempt_id op expected bindings)
                λ (after, rebound). loop-Keeps digest attempt_id ops after rebound
        ]

  module _ (plan : FlowPlan) (attempt_id : String) where
    require_construction-Keeps :
        (c : Option Construction) → Keeps (Beside P) (require_construction host digests c)
    unfolding require_construction
    require_construction-Keeps none = λ s p. p
    require_construction-Keeps (some c) = λ s p. p

    new-Keeps : Keeps (Beside P) (construct_new host digests plan attempt_id)
    unfolding construct_new
    new-Keeps =
        bind-Keeps (Beside P) (call host.load) _ (call-Keeps P host.load k.load) λ installation.
          bind-Keeps (Beside P)
            (construct_loop host digests (digests.plan plan) attempt_id plan.operations
              plan.observed
              (update [] (map (λ r. (r.logical_id, r.target_id)) installation.resources)))
            _ (loop-Keeps (digests.plan plan) attempt_id plan.operations plan.observed _)
            λ (expected, bindings).
              bind-Keeps (Beside P) (call (require_same host digests expected)) _
                (call-Keeps P (require_same host digests expected)
                  (require_same-Keeps host P digests expected k.observe))
                λ u.
                  bind-Keeps (Beside P)
                    (lift
                      (owned_resources bindings (by_target_id expected.resources) plan.operations))
                    _ (λ s p. p)
                    λ resources.
                      bind-Keeps (Beside P)
                        (call_with (λ c. host.finish_construction c resources expected)) _
                        (call_with-Keeps P (λ c. host.finish_construction c resources expected)
                          (λ c. k.finish_construction c resources expected))
                        λ installed.
                          bind-Keeps (Beside P) (call (host.construction (digests.plan plan))) _
                            (call-Keeps P (host.construction (digests.plan plan))
                              (k.construction (digests.plan plan)))
                            require_construction-Keeps

    or_return-Keeps :
        (c : Option Construction)
        → Keeps (Beside P) (construct_or_return host digests plan attempt_id c)
    unfolding construct_or_return
    or_return-Keeps none = new-Keeps
    or_return-Keeps (some finished) =
        bind-Keeps (Beside P) (call (require_same host digests finished.observation)) _
          (call-Keeps P (require_same host digests finished.observation)
            (require_same-Keeps host P digests finished.observation k.observe))
          λ u s p. p

    body-Keeps : Keeps (Beside P) (construct_body host digests plan attempt_id)
    unfolding construct_body
    body-Keeps =
        bind-Keeps (Beside P) (call (host.construction (digests.plan plan))) _
          (call-Keeps P (host.construction (digests.plan plan))
            (k.construction (digests.plan plan)))
          or_return-Keeps

    -- If the store has a receipt for each operation that is begun, `construct` makes only the store's
    -- calls other than `complete_operation`, and observations: what these keep of the world, and what
    -- makes the store have its receipts, `construct` keeps, whether it returns or raises. So it asks
    -- the target neither to recover nor to construct.
    pub construct-Resumes :
        (blueprints : Blueprints) (digest : Document → String) (approved_digest : String)
        → Keeps P (construct host digests blueprints digest plan approved_digest attempt_id)
    unfolding construct
    construct-Resumes blueprints digest approved_digest =
        bind-Keeps P (lift (check_plan blueprints digest digests host.target plan approved_digest))
          _ (λ w p. p)
          λ u.
            with_claim-Keeps host P (digests.plan plan) attempt_id
              (construct_body host digests plan attempt_id) (k.claim (digests.plan plan) attempt_id)
              k.release body-Keeps
