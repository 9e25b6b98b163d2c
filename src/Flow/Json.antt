-- ===== src/Flow/Json.antt =====
-- JSON values as `canonical_json` sees them (runtime/hashing.py), and the frozen documents of
-- runtime/flow/model.py. A number is its text, since 1 and 1.0 are different documents.
use sanka.Prelude.{
  String, ◌≡◌, Bool, true, false, ◌&&◌, not, Option, none, some, List, [], ◌∷◌, if◌then◌else◌, Eq,
  ◌==◌, ◌↔◌, eq_string, arith,
}

mutual
  pub data Json : Type 0 where
    null : Json
    boolean : Bool → Json
    number : String → Json
    text : String → Json
    array : Items → Json
    object : Members → Json

  pub data Items : Type 0 where
    nil : Items
    cons : Json → Items → Items

  pub data Members : Type 0 where
    end : Members
    member : String → Json → Members → Members

abbrev pub bool_eq : Bool → Bool → Bool
bool_eq true b = b
bool_eq false b = not b

-- Equality of the canonical texts.
unfoldable mutual
  pub json_eq : Json → Json → Bool
  json_eq null null = true
  json_eq (boolean a) (boolean b) = bool_eq a b
  json_eq (number a) (number b) = a == b
  json_eq (text a) (text b) = a == b
  json_eq (array a) (array b) = items_eq a b
  json_eq (object a) (object b) = members_eq a b
  json_eq _ _ = false

  pub items_eq : Items → Items → Bool
  items_eq nil nil = true
  items_eq (cons x xs) (cons y ys) = json_eq x y && items_eq xs ys
  items_eq _ _ = false

  pub members_eq : Members → Members → Bool
  members_eq end end = true
  members_eq (member j x xs) (member k y ys) = j == k && (json_eq x y && members_eq xs ys)
  members_eq _ _ = false

cons_iff :
    {x y : Json} {xs ys : Items} (p q : Bool)
    → (p ≡ true) ↔ (x ≡ y)
    → (q ≡ true) ↔ (xs ≡ ys)
    → ((p && q) ≡ true) ↔ (cons x xs ≡ cons y ys)
cons_iff p q h k = ground (arith, h, k)

member_iff :
    {i j : String} {x y : Json} {xs ys : Members} (o p q : Bool)
    → (o ≡ true) ↔ (i ≡ j)
    → (p ≡ true) ↔ (x ≡ y)
    → (q ≡ true) ↔ (xs ≡ ys)
    → ((o && (p && q)) ≡ true) ↔ (member i x xs ≡ member j y ys)
member_iff o p q g h k = ground (arith, g, h, k)

array_iff : {xs ys : Items} (p : Bool) → (p ≡ true) ↔ (xs ≡ ys) → (p ≡ true) ↔ (array xs ≡ array ys)
array_iff p h = ground (arith, h)

object_iff :
    {xs ys : Members} (p : Bool) → (p ≡ true) ↔ (xs ≡ ys) → (p ≡ true) ↔ (object xs ≡ object ys)
object_iff p h = ground (arith, h)

mutual
  unfolding json_eq items_eq members_eq

  pub json_eq_iff : (a b : Json) → (json_eq a b ≡ true) ↔ (a ≡ b)
  json_eq_iff null null = ground arith
  json_eq_iff null (boolean b) = ground arith
  json_eq_iff null (number b) = ground arith
  json_eq_iff null (text b) = ground arith
  json_eq_iff null (array b) = ground arith
  json_eq_iff null (object b) = ground arith
  json_eq_iff (boolean a) null = ground arith
  json_eq_iff (boolean true) (boolean true) = ground arith
  json_eq_iff (boolean true) (boolean false) = ground arith
  json_eq_iff (boolean false) (boolean true) = ground arith
  json_eq_iff (boolean false) (boolean false) = ground arith
  json_eq_iff (boolean a) (number b) = ground arith
  json_eq_iff (boolean a) (text b) = ground arith
  json_eq_iff (boolean a) (array b) = ground arith
  json_eq_iff (boolean a) (object b) = ground arith
  json_eq_iff (number a) null = ground arith
  json_eq_iff (number a) (boolean b) = ground arith
  json_eq_iff (number a) (number b) = ground (arith, eq_string.beq_iff a b)
  json_eq_iff (number a) (text b) = ground arith
  json_eq_iff (number a) (array b) = ground arith
  json_eq_iff (number a) (object b) = ground arith
  json_eq_iff (text a) null = ground arith
  json_eq_iff (text a) (boolean b) = ground arith
  json_eq_iff (text a) (number b) = ground arith
  json_eq_iff (text a) (text b) = ground (arith, eq_string.beq_iff a b)
  json_eq_iff (text a) (array b) = ground arith
  json_eq_iff (text a) (object b) = ground arith
  json_eq_iff (array a) null = ground arith
  json_eq_iff (array a) (boolean b) = ground arith
  json_eq_iff (array a) (number b) = ground arith
  json_eq_iff (array a) (text b) = ground arith
  json_eq_iff (array a) (array b) = array_iff (items_eq a b) (items_eq_iff a b)
  json_eq_iff (array a) (object b) = ground arith
  json_eq_iff (object a) null = ground arith
  json_eq_iff (object a) (boolean b) = ground arith
  json_eq_iff (object a) (number b) = ground arith
  json_eq_iff (object a) (text b) = ground arith
  json_eq_iff (object a) (array b) = ground arith
  json_eq_iff (object a) (object b) = object_iff (members_eq a b) (members_eq_iff a b)

  pub items_eq_iff : (a b : Items) → (items_eq a b ≡ true) ↔ (a ≡ b)
  items_eq_iff nil nil = ground arith
  items_eq_iff nil (cons y ys) = ground arith
  items_eq_iff (cons x xs) nil = ground arith
  items_eq_iff (cons x xs) (cons y ys) =
      cons_iff (json_eq x y) (items_eq xs ys) (json_eq_iff x y) (items_eq_iff xs ys)

  pub members_eq_iff : (a b : Members) → (members_eq a b ≡ true) ↔ (a ≡ b)
  members_eq_iff end end = ground arith
  members_eq_iff end (member k y ys) = ground arith
  members_eq_iff (member j x xs) end = ground arith
  members_eq_iff (member j x xs) (member k y ys) =
      member_iff (j == k) (json_eq x y) (members_eq xs ys) (eq_string.beq_iff j k) (json_eq_iff x y)
        (members_eq_iff xs ys)

instance abbrev pub eq_json : Eq Json
eq_json = record { beq = json_eq; beq_iff = json_eq_iff }

instance abbrev pub eq_members : Eq Members
eq_members = record { beq = members_eq; beq_iff = members_eq_iff }

-- `Document`: an object, compared by its text.
pub record Document : Type 0 where
  pub fields : Members

-- `value.get(key)`
unfoldable pub member_get : String → Members → Option Json
member_get k end = none
member_get k (member j v rest) = if j == k then some v else member_get k rest

abbrev pub document_get : String → Document → Option Json
document_get k d = member_get k d.fields

-- The values of an array.
unfoldable pub items : Items → List Json
items nil = []
items (cons x xs) = x ∷ items xs
