-- ===== src/Flow/Advance/Activation.antt =====
-- What `_validate_activation` accepts (runtime/flow/lifecycle.py).
use sanka.Prelude.{
  String, ◌≡◌, ◌≢◌, Bool, true, false, ◌&&◌, Option, none, some, List, [], ◌∷◌, all, if◌then◌else◌,
  ◌==◌, eq_string, contains, arith, inl, inr, Bool-cases, Option-cases, ap, subst, ◌∙◌,
}
use sanka.Prelude.Dict.{Dict, get, has}
use sanka.Fault.{return, Result-cases, require-return}
use sanka.Flow.Model.{ObservedResource, eq_observed_resource, Observation, eq_observation}
use sanka.Flow.Advance.{
  by_target_id, same_keys, validate_resource, validate_resources, validate_activation,
}

-- A resource before and after an activation of the workflows with these ids.
abbrev pub IsActivated :
    List String → String → Option ObservedResource → Option ObservedResource → Type 0
IsActivated workflow_ids id none none = Unit
IsActivated workflow_ids id (some left) (some right) =
    if contains id workflow_ids
    then (right.revision ≢ "") × (right ≡ record left { active = true; revision = right.revision })
    else right ≡ left
IsActivated workflow_ids id _ _ = ⊥

-- The test of one resource.
validate_resource-IsActivated :
    (ids : List String) (id : String) (left right : ObservedResource)
    → validate_resource ids id left right ≡ return tt
    → IsActivated ids id (some left) (some right)
unfolding validate_resource
validate_resource-IsActivated ids id left right e = elim (Bool-cases (contains id ids)) [
  | inl workflow ↦
      let kept : ObservedResource = record left {
        active = right.active;
        revision = right.revision;
      } in
      let is_active : right.active ≡ true = ground (arith, e, workflow) in
      let equal : (right == kept) ≡ true = ground (arith, e, workflow) in
      let has_revision : (right.revision == "") ≡ false = ground (arith, e, workflow) in
      let e' : right ≡ kept = (eq_observed_resource.beq_iff right kept).0 equal in
      rw workflow (
        λ empty. absurd (ground (arith, has_revision, eq_string.beq_iff right.revision "", empty)),
        e' ∙ ap (λ (b : Bool). record left { active = b; revision = right.revision }) is_active,
      )
  | inr other ↦
      let equal : (right == left) ≡ true = ground (arith, e, other) in
      rw other ((eq_observed_resource.beq_iff right left).0 equal)
]

validate_resources-IsActivated :
    (ids : List String) (new old : Dict String ObservedResource) (id : String)
    (left : ObservedResource)
    → validate_resources ids new old ≡ return tt
    → get id old ≡ some left
    → IsActivated ids id (some left) (get id new)
unfolding validate_resources get
validate_resources-IsActivated ids new [] id left e there = absurd (cc)
validate_resources-IsActivated ids new ((k, l) ∷ old) id left e there =
    elim (Option-cases (get k new)) [
      | inl gone ↦ absurd (ground (arith, e, gone))
      | inr (right, found) ↦ elim (Result-cases (validate_resource ids k l right)) [
        | inr (fault, refused) ↦ absurd (ground (arith, e, found, refused))
        | inl (u, passed) ↦ elim (Bool-cases (k == id)) [
          | inl this ↦
              let k_is_id : k ≡ id = (eq_string.beq_iff k id).0 this in
              let l_is_left : l ≡ left = ground (arith, there, this) in
              subst (λ (x : String). IsActivated ids x (some left) (get x new)) k_is_id
                (rw found (
                  subst (λ (x : ObservedResource). IsActivated ids k (some x) (some right))
                    l_is_left (validate_resource-IsActivated ids k l right passed)))
          | inr other ↦
              validate_resources-IsActivated ids new old id left (ground (arith, e, found, passed))
                (ground (arith, there, other))
        ]
      ]
    ]

not_has : (id : String) (d : Dict String ObservedResource) → get id d ≡ none → has id d ≡ true → ⊥
unfolding has
not_has id d absent there = ground (arith, absent, there)

&&-parts : (a b : Bool) → (a && b) ≡ true → (a ≡ true) × (b ≡ true)
&&-parts a b h = ground (arith, h)

-- A key of a list of entries is found by `get`.
all-has :
    (d new : Dict String ObservedResource) (id : String) (r : ObservedResource)
    → all (λ e. has e.0 d) new ≡ true
    → get id new ≡ some r
    → has id d ≡ true
unfolding all get
all-has d [] id r h there = absurd (cc)
all-has d ((k, x) ∷ new) id r h there = elim (Bool-cases (k == id)) [
  | inl this ↦
      subst (λ (y : String). has y d ≡ true) ((eq_string.beq_iff k id).0 this) (ground (arith, h))
  | inr other ↦ all-has d new id r (ground (arith, h)) (ground (arith, there, other))
]

-- An active observation that `_validate_activation` accepts is the expected one but for its revision
-- and for the workflows: at each target id both observations have a resource or neither has; the
-- resource of a workflow is active, has a revision that is not empty, and is unchanged in all else;
-- any other resource is unchanged.
pub validate_activation-IsActivated :
    (expected active : Observation) (workflow_ids : List String)
    → validate_activation expected active workflow_ids ≡ return tt
    → (active ≡ record expected { resources = active.resources; revision = active.revision })
      × ((id : String)
          → IsActivated workflow_ids id
              (get id (by_target_id expected.resources))
              (get id (by_target_id active.resources)))
unfolding validate_activation same_keys
validate_activation-IsActivated expected active ids e =
    let old : Dict String ObservedResource = by_target_id expected.resources in
    let new : Dict String ObservedResource = by_target_id active.resources in
    let kept : Observation = record expected {
      resources = active.resources;
      revision = active.revision;
    } in
    let (tests, rest) =
      require-return (active == kept && same_keys old new) _ (validate_resources ids new old) e in
    let (equal, keys) = &&-parts (active == kept) (same_keys old new) tests in
    let (_, new_keys) = &&-parts (all (λ x. has x.0 new) old) (all (λ x. has x.0 old) new) keys in
    (
      (eq_observation.beq_iff active kept).0 equal,
      λ id. elim (Option-cases (get id old)) [
        | inr (left, there) ↦
            rw there (validate_resources-IsActivated ids new old id left rest there)
        | inl absent ↦ elim (Option-cases (get id new)) [
          | inl gone ↦ rw (absent, gone) tt
          | inr (right, found) ↦
              absurd (not_has id old absent (all-has old new id right new_keys found))
        ]
      ],
    )
