-- ===== src/Flow/Merge/Law.antt =====
-- The law of the three-way merge (runtime/flow/merge.py): at each path, what one side leaves alone comes
-- from the other side.
use sanka.Prelude.{
  ℕ, zero, suc, ◌≤◌, ◌<◌, String, ◌≡◌, Option, none, some, List, [], ◌∷◌, ◌++◌, ◌==◌, eq_string,
  eq_option, opt_eq_iff, arith, inl, inr, Bool-cases,
}
use sanka.Flow.Json.{
  Json, null, boolean, number, text, array, object, Members, end, member, Document, member_get,
  eq_json,
}
use sanka.Flow.Merge.{
  Merge, merge_fields, merge_preserved, merge_changed, merge, depth, depth_members, depth_of,
  merge_configuration,
}
use sanka.Flow.Merge.Fields.{
  Reconciles, now-Reconciles, new-Reconciles, kept-Reconciles, objects-Reconciles,
  merge_fields-Reconciles,
}

member_get-depth : (k : String) (m : Members) → depth_of (member_get k m) ≤ depth_members m
unfolding member_get depth_of depth_members
member_get-depth k end = omega arith
member_get-depth k (member j v m) = ground (arith, member_get-depth k m)

module _ (rec : Merge) (path : List String) where
  -- The recursive calls on values less deep than `now` reconcile.
  abbrev RecReconciles : Option Json → Type 0
  RecReconciles now =
      (o n w : Option Json) (p : List String)
      → depth_of n < depth_of now
      → (rec o n w p).conflicts ≡ []
      → Reconciles o n w (rec o n w p).value

  object-Reconciles :
      (o n w : Members)
      → RecReconciles (some (object n))
      → (merge_fields rec o n w path).conflicts ≡ []
      → Reconciles
          (some (object o))
          (some (object n))
          (some (object w))
          (some (object (merge_fields rec o n w path).value))
  unfolding depth_of depth
  object-Reconciles o n w each clean =
      objects-Reconciles o n w (merge_fields rec o n w path).value (
        merge_fields-Reconciles rec o n w path
          (λ k.
            each (member_get k o) (member_get k n) (member_get k w) (path ++ k ∷ [])
              (omega (arith, member_get-depth k n)))
          clean)

  preserved-Reconciles :
      (old now new : Option Json)
      → old ≡ new
      → RecReconciles now
      → (merge_preserved rec old now new path).conflicts ≡ []
      → Reconciles old now new (merge_preserved rec old now new path).value
  unfolding merge_preserved
  preserved-Reconciles none now new e each clean = kept-Reconciles _ _ _ e
  preserved-Reconciles (some null) now new e each clean = kept-Reconciles _ _ _ e
  preserved-Reconciles (some (boolean b)) now new e each clean = kept-Reconciles _ _ _ e
  preserved-Reconciles (some (number s)) now new e each clean = kept-Reconciles _ _ _ e
  preserved-Reconciles (some (text s)) now new e each clean = kept-Reconciles _ _ _ e
  preserved-Reconciles (some (array xs)) now new e each clean = kept-Reconciles _ _ _ e
  preserved-Reconciles (some (object o)) none new e each clean = kept-Reconciles _ _ _ e
  preserved-Reconciles (some (object o)) (some null) new e each clean = kept-Reconciles _ _ _ e
  preserved-Reconciles (some (object o)) (some (boolean b)) new e each clean =
      kept-Reconciles _ _ _ e
  preserved-Reconciles (some (object o)) (some (number s)) new e each clean =
      kept-Reconciles _ _ _ e
  preserved-Reconciles (some (object o)) (some (text s)) new e each clean = kept-Reconciles _ _ _ e
  preserved-Reconciles (some (object o)) (some (array xs)) new e each clean =
      kept-Reconciles _ _ _ e
  preserved-Reconciles (some (object o)) (some (object n)) none e each clean =
      kept-Reconciles _ _ _ e
  preserved-Reconciles (some (object o)) (some (object n)) (some null) e each clean =
      kept-Reconciles _ _ _ e
  preserved-Reconciles (some (object o)) (some (object n)) (some (boolean b)) e each clean =
      kept-Reconciles _ _ _ e
  preserved-Reconciles (some (object o)) (some (object n)) (some (number s)) e each clean =
      kept-Reconciles _ _ _ e
  preserved-Reconciles (some (object o)) (some (object n)) (some (text s)) e each clean =
      kept-Reconciles _ _ _ e
  preserved-Reconciles (some (object o)) (some (object n)) (some (array xs)) e each clean =
      kept-Reconciles _ _ _ e
  preserved-Reconciles (some (object o)) (some (object n)) (some (object w)) e each clean =
      object-Reconciles o n w each clean

  changed-Reconciles :
      (old now new : Option Json)
      → RecReconciles now
      → (merge_changed rec old now new path).conflicts ≡ []
      → Reconciles old now new (merge_changed rec old now new path).value
  unfolding merge_changed
  changed-Reconciles none now new each clean = absurd (cc)
  changed-Reconciles (some null) now new each clean = absurd (cc)
  changed-Reconciles (some (boolean b)) now new each clean = absurd (cc)
  changed-Reconciles (some (number s)) now new each clean = absurd (cc)
  changed-Reconciles (some (text s)) now new each clean = absurd (cc)
  changed-Reconciles (some (array xs)) now new each clean = absurd (cc)
  changed-Reconciles (some (object o)) none new each clean = absurd (cc)
  changed-Reconciles (some (object o)) (some null) new each clean = absurd (cc)
  changed-Reconciles (some (object o)) (some (boolean b)) new each clean = absurd (cc)
  changed-Reconciles (some (object o)) (some (number s)) new each clean = absurd (cc)
  changed-Reconciles (some (object o)) (some (text s)) new each clean = absurd (cc)
  changed-Reconciles (some (object o)) (some (array xs)) new each clean = absurd (cc)
  changed-Reconciles (some (object o)) (some (object n)) none each clean = absurd (cc)
  changed-Reconciles (some (object o)) (some (object n)) (some null) each clean = absurd (cc)
  changed-Reconciles (some (object o)) (some (object n)) (some (boolean b)) each clean = absurd (cc)
  changed-Reconciles (some (object o)) (some (object n)) (some (number s)) each clean = absurd (cc)
  changed-Reconciles (some (object o)) (some (object n)) (some (text s)) each clean = absurd (cc)
  changed-Reconciles (some (object o)) (some (object n)) (some (array xs)) each clean = absurd (cc)
  changed-Reconciles (some (object o)) (some (object n)) (some (object w)) each clean =
      object-Reconciles o n w each clean

merge-Reconciles :
    (fuel : ℕ) (old now new : Option Json) (path : List String)
    → depth_of now < fuel
    → (merge fuel old now new path).conflicts ≡ []
    → Reconciles old now new (merge fuel old now new path).value
unfolding merge
merge-Reconciles zero old now new path h clean = absurd (omega arith)
merge-Reconciles (suc fuel) old now new path h clean = elim (Bool-cases (now == new)) [
  | inl e ↦ rw e (now-Reconciles old now new ((opt_eq_iff now new).0 e))
  | inr now_new ↦ elim (Bool-cases (old == now)) [
    | inl e ↦ rw (now_new, e) (new-Reconciles old now new ((opt_eq_iff old now).0 e))
    | inr old_now ↦
        let each : RecReconciles (merge fuel) path now =
          λ o n w p less. merge-Reconciles fuel o n w p (omega arith) in
        elim (Bool-cases (old == new)) [
          | inl e ↦
              rw (now_new, old_now, e)
                (preserved-Reconciles (merge fuel) path old now new ((opt_eq_iff old new).0 e) each
                  (rw (now_new, old_now, e) at clean))
          | inr old_new ↦
              rw (now_new, old_now, old_new)
                (changed-Reconciles (merge fuel) path old now new each
                  (rw (now_new, old_now, old_new) at clean))
        ]
  ]
]

abbrev pub whole : Document → Option Json
whole d = some (object d.fields)

-- If a merge reports no conflict, then at each path its result agrees with the desired configuration
-- where the current one still equals the previous one, and with the current one where the desired one
-- equals the previous one: in what the value is (missing, null, a scalar, a list or an object), and so
-- at each path below.
pub merge_configuration-Reconciles :
    (previous current desired : Document)
    → (merge_configuration previous current desired).conflicts ≡ []
    → Reconciles
        (whole previous)
        (whole current)
        (whole desired)
        (whole (merge_configuration previous current desired).value)
unfolding merge_configuration depth_of depth
merge_configuration-Reconciles previous current desired clean =
    object-Reconciles (merge (suc (depth_members current.fields))) [] previous.fields current.fields
      desired.fields
      (λ o n w p less. merge-Reconciles (suc (depth_members current.fields)) o n w p (omega arith))
      clean
