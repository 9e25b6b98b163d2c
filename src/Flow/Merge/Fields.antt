-- ===== src/Flow/Merge/Fields.antt =====
-- Paths in configurations, and the merge of the members of objects (runtime/flow/merge.py).
use sanka.Prelude.{
  String, ◌≡◌, refl, sym, ap, subst, ◌∙◌, Bool, true, false, Option, none, some, List, [], ◌∷◌,
  ◌++◌, if◌then◌else◌, ◌==◌, eq_string, eq_option, arith, inl, inr, Bool-cases, contains,
  contains-append,
}
use sanka.Prelude.Sort.{contains-sorted_set}
use sanka.Flow.Json.{Json, object, Members, end, member, member_get, eq_json}
use sanka.Flow.Merge.{Merge, Merged, member_keys, merged_keys, put_member, merge_keys, merge_fields}

-- The value of a key, if the value is an object that has it.
abbrev pub child : String → Option Json → Option Json
child k (some (object m)) = member_get k m
child k _ = none

abbrev pub at : List String → Option Json → Option Json
at [] v = v
at (k ∷ path) v = at path (child k v)

-- What a value is, without the members of an object.
abbrev pub shape : Option Json → Option Json
shape (some (object m)) = some (object end)
shape v = v

-- At each path, what the user left alone is as desired, and what the desired configuration left alone
-- is as the user has it.
abbrev pub Reconciles : Option Json → Option Json → Option Json → Option Json → Type 0
Reconciles old now new result =
    (path : List String)
    → (at path old ≡ at path now → shape (at path result) ≡ shape (at path new))
      × (at path old ≡ at path new → shape (at path result) ≡ shape (at path now))

pub now-Reconciles : (old now new : Option Json) → now ≡ new → Reconciles old now new now
now-Reconciles old now new e path = (λ same. ap (λ v. shape (at path v)) e, λ same. refl)

pub new-Reconciles : (old now new : Option Json) → old ≡ now → Reconciles old now new new
new-Reconciles old now new e path = (λ same. refl, λ same. ap shape (sym same ∙ ap (at path) e))

pub kept-Reconciles : (old now new : Option Json) → old ≡ new → Reconciles old now new now
kept-Reconciles old now new e path = (λ same. ap shape (sym same ∙ ap (at path) e), λ same. refl)

pub objects-Reconciles :
    (old now new result : Members)
    → ((k : String)
        → Reconciles (member_get k old) (member_get k now) (member_get k new) (member_get k result))
    → Reconciles (some (object old)) (some (object now)) (some (object new)) (some (object result))
objects-Reconciles old now new result each [] = (λ same. refl, λ same. refl)
objects-Reconciles old now new result each (k ∷ path) = each k path

append-nil : {A : Type 0} (xs ys : List A) → xs ++ ys ≡ [] → (xs ≡ []) × (ys ≡ [])
append-nil [] ys e = (refl, e)
append-nil (x ∷ xs) ys e = absurd (cc)

member_get-put_member :
    (k j : String) (v : Option Json) (m : Members)
    → member_get k (put_member j v m)
      ≡ (if j == k then (elim v [ none ↦ member_get k m | some x ↦ some x ]) else member_get k m)
unfolding member_get put_member
member_get-put_member k j none m = ground arith
member_get-put_member k j (some x) m = refl

not_member : (k : String) (m : Members) → contains k (member_keys m) ≡ false → member_get k m ≡ none
unfolding contains member_keys member_get
not_member k end h = refl
not_member k (member j v m) h = ground (arith, not_member k m, h)

first_or_same :
    (got rest u v : Option Json) (same found : Bool)
    → got ≡ (if same then (elim u [ none ↦ rest | some x ↦ some x ]) else rest)
    → rest ≡ (if found then v else none)
    → u ≡ v
    → same ≡ true
    → got ≡ v
first_or_same got rest none v same found e f g h = ground (arith, e, f, g, h)
first_or_same got rest (some x) v same found e f g h = ground (arith, e, f, g, h)

module _ (rec : Merge) (old now new : Members) (path : List String) where
  abbrev field : String → Merged (Option Json)
  field k = rec (member_get k old) (member_get k now) (member_get k new) (path ++ k ∷ [])

  -- The result has, at each key of the loop, the value of its merge.
  merge_keys-get :
      (k : String) (keys : List String)
      → member_get k (merge_keys rec keys old now new path).value
        ≡ (if contains k keys then (field k).value else none)
  unfolding merge_keys contains
  merge_keys-get k [] = unfold member_get in refl
  merge_keys-get k (j ∷ keys) =
      let rest = (merge_keys rec keys old now new path).value in
      elim (Bool-cases (j == k)) [
        | inl same ↦
            let e : (field j).value ≡ (field k).value =
              ap (λ (x : String). (field x).value) ((eq_string.beq_iff j k).0 same) in
            rw same (
              first_or_same _ (member_get k rest) (field j).value (field k).value (j == k)
                (contains k keys) (member_get-put_member k j (field j).value rest)
                (merge_keys-get k keys) e same)
        | inr other ↦
            ground
              (arith, other, member_get-put_member k j (field j).value rest, merge_keys-get k keys)
      ]

  -- Without conflicts, no merge of a key has any.
  merge_keys-clean :
      (k : String) (keys : List String)
      → (merge_keys rec keys old now new path).conflicts ≡ []
      → contains k keys ≡ true
      → (field k).conflicts ≡ []
  unfolding merge_keys contains
  merge_keys-clean k [] e there = absurd (cc)
  merge_keys-clean k (j ∷ keys) e there =
      let (first, rest) =
        append-nil (field j).conflicts (merge_keys rec keys old now new path).conflicts e in
      elim (Bool-cases (j == k)) [
        | inl same ↦
            subst (λ (x : String). (field x).conflicts ≡ []) ((eq_string.beq_iff j k).0 same) first
        | inr other ↦ merge_keys-clean k keys rest (ground (arith, other, there))
      ]

  -- A key that the loop does not visit is in none of the three.
  not_merged :
      (k : String)
      → contains k (merged_keys old now new) ≡ false
      → (member_get k old ≡ none) × (member_get k now ≡ none) × (member_get k new ≡ none)
  unfolding merged_keys
  not_merged k h =
      let every = member_keys old ++ (member_keys now ++ member_keys new) in
      let all_false : contains k every ≡ false = sym (contains-sorted_set k every) ∙ h in
      (
        not_member k old (
            ground (
              arith,
              all_false,
              contains-append k (member_keys old) (member_keys now ++ member_keys new),
            )),
        not_member k now (
            ground (
              arith,
              all_false,
              contains-append k (member_keys old) (member_keys now ++ member_keys new),
              contains-append k (member_keys now) (member_keys new),
            )),
        not_member k new (
            ground (
              arith,
              all_false,
              contains-append k (member_keys old) (member_keys now ++ member_keys new),
              contains-append k (member_keys now) (member_keys new),
            )),
      )

  pub merge_fields-Reconciles :
      ((k : String)
        → (field k).conflicts ≡ []
        → Reconciles (member_get k old) (member_get k now) (member_get k new) (field k).value)
      → (merge_fields rec old now new path).conflicts ≡ []
      → (k : String)
      → Reconciles
          (member_get k old)
          (member_get k now)
          (member_get k new)
          (member_get k (merge_fields rec old now new path).value)
  unfolding merge_fields
  merge_fields-Reconciles each clean k =
      let keys = merged_keys old now new in
      elim (Bool-cases (contains k keys)) [
        | inl there ↦
            let e : (field k).value ≡ member_get k (merge_keys rec keys old now new path).value =
              sym (ground (arith, merge_keys-get k keys, there)) in
            subst (Reconciles (member_get k old) (member_get k now) (member_get k new)) e
              (each k (merge_keys-clean k keys clean there))
        | inr absent ↦
            let (o, n, w) = not_merged k absent in
            let e : member_get k (merge_keys rec keys old now new path).value ≡ none =
              ground (arith, merge_keys-get k keys, absent) in
            rw (o, n, w, e) (now-Reconciles none none none refl)
      ]

-- A key's value is less deep than its object.
