-- ===== src/Flow/Merge.antt =====
-- The three-way merge of configurations (runtime/flow/merge.py). `_MISSING` is `none`. The recursion is on
-- fuel, of which more than the depth of the current value is enough.
pub mod Fields
pub mod Law
use sanka.Prelude.{
  ℕ, zero, suc, ◌+◌, max, String, ◌≡◌, Bool, true, false, ◌&&◌, Option, none, some, List, [], ◌∷◌,
  ◌++◌, if◌then◌else◌, ◌==◌, eq_string, eq_option,
}
use sanka.Prelude.Sort.{sorted_set}
use sanka.Flow.Json.{
  Json, null, boolean, number, text, array, object, Items, nil, cons, Members, end, member,
  Document, member_get, eq_json,
}

-- `FieldConflict`: its path with the three values.
pub record FieldConflict : Type 0 where
  pub path : List String
  pub previous : Option Json
  pub current : Option Json
  pub desired : Option Json

-- What a merge returns, and what it appends to `conflicts` and to `preserved`.
pub record Merged (A : Type 0) : Type 0 where
  pub value : A
  pub conflicts : List FieldConflict
  pub preserved : List (List String)

-- `m.keys()`
unfoldable pub member_keys : Members → List String
member_keys end = []
member_keys (member k v m) = k ∷ member_keys m

-- `sorted(old.keys() | now.keys() | new.keys())`
unfoldable pub merged_keys : Members → Members → Members → List String
unfolding member_keys
merged_keys old now new = sorted_set (member_keys old ++ (member_keys now ++ member_keys new))

-- The members of a value that is an object.
abbrev pub members_of : Option Json → Option Members
members_of (some (object m)) = some m
members_of _ = none

abbrev pub Merge : Type 0
Merge = Option Json → Option Json → Option Json → List String → Merged (Option Json)

-- `if value is not _MISSING: output[key] = value`
unfoldable pub put_member : String → Option Json → Members → Members
put_member k none m = m
put_member k (some v) m = member k v m

-- The loop of `merge_fields` over the keys.
unfoldable pub merge_keys :
    Merge → List String → Members → Members → Members → List String → Merged Members
unfolding put_member
merge_keys merge [] old now new path = record { value = end; conflicts = []; preserved = [] }
merge_keys merge (k ∷ keys) old now new path =
    let rest = merge_keys merge keys old now new path in
    let field = merge (member_get k old) (member_get k now) (member_get k new) (path ++ k ∷ []) in
    record {
      value = put_member k field.value rest.value;
      conflicts = field.conflicts ++ rest.conflicts;
      preserved = field.preserved ++ rest.preserved;
    }

-- `merge_fields`
unfoldable pub merge_fields : Merge → Members → Members → Members → List String → Merged Members
unfolding merge_keys merged_keys
merge_fields merge old now new path = merge_keys merge (merged_keys old now new) old now new path

abbrev pub as_object : Merged Members → Merged (Option Json)
as_object m = record {
  value = some (object m.value);
  conflicts = m.conflicts;
  preserved = m.preserved;
}

abbrev pub keep : Option Json → Merged (Option Json)
keep v = record { value = v; conflicts = []; preserved = [] }

-- The branch for a value that the desired configuration does not change.
unfoldable pub merge_preserved :
    Merge → Option Json → Option Json → Option Json → List String → Merged (Option Json)
unfolding merge_fields
merge_preserved merge (some (object old)) (some (object now)) (some (object new)) path =
    as_object (merge_fields merge old now new path)
merge_preserved merge old now new path = record {
  value = now;
  conflicts = [];
  preserved = path ∷ [];
}

-- The branch for a value that both sides change.
unfoldable pub merge_changed :
    Merge → Option Json → Option Json → Option Json → List String → Merged (Option Json)
unfolding merge_fields
merge_changed merge (some (object old)) (some (object now)) (some (object new)) path =
    as_object (merge_fields merge old now new path)
merge_changed merge old now new path = record {
  value = now;
  conflicts = record { path = path; previous = old; current = now; desired = new } ∷ [];
  preserved = [];
}

-- `merge`
unfoldable pub merge : ℕ → Merge
unfolding merge_preserved merge_changed
merge zero old now new path = keep now
merge (suc fuel) old now new path =
    if now == new
    then keep now
    else if old == now
    then keep new
    else if old == new
    then merge_preserved (merge fuel) old now new path
    else merge_changed (merge fuel) old now new path

-- The levels of a value.
unfoldable mutual
  pub depth : Json → ℕ
  depth null = 1
  depth (boolean b) = 1
  depth (number s) = 1
  depth (text s) = 1
  depth (array xs) = 1
  depth (object m) = 1 + depth_members m

  pub depth_members : Members → ℕ
  depth_members end = 0
  depth_members (member k v m) = max (depth v) (depth_members m)

unfoldable pub depth_of : Option Json → ℕ
unfolding depth
depth_of none = 0
depth_of (some v) = depth v

-- `merge_configuration`
unfoldable pub merge_configuration : Document → Document → Document → Merged Document
unfolding merge merge_fields depth
merge_configuration previous current desired =
    let fields =
      merge_fields (merge (suc (depth_members current.fields))) previous.fields current.fields
        desired.fields [] in
    record {
      value = record { fields = fields.value };
      conflicts = fields.conflicts;
      preserved = fields.preserved;
    }
