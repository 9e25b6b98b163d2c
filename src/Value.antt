-- ===== src/Value.antt =====
-- The values of source records and destination properties. A value that is not a string carries the
-- text that `str()` gives, since the code reads it no other way, and a number its truth value.
use sanka.Prelude.{
  String, Bool, true, false, not, if◌then◌else◌, Option, none, some, ◌==◌, eq_string,
}

mutual
  pub data Value : Type 0 where
    none_value : Value
    text : String → Value
    boolean : Bool → Value
    number : (rendered : String) (truth : Bool) → Value
    array : (rendered : String) → Values → Value
    object : (rendered : String) → Fields → Value

  pub data Values : Type 0 where
    nil : Values
    cons : Value → Values → Values

  pub data Fields : Type 0 where
    end : Fields
    field : String → Value → Fields → Fields

-- `bool(value)`
unfoldable pub truthy : Value → Bool
truthy none_value = false
truthy (text s) = not (s == "")
truthy (boolean b) = b
truthy (number rendered truth) = truth
truthy (array rendered nil) = false
truthy (array rendered (cons x xs)) = true
truthy (object rendered end) = false
truthy (object rendered (field k v fs)) = true

-- `str(value)`
unfoldable pub rendering : Value → String
rendering none_value = "None"
rendering (text s) = s
rendering (boolean b) = if b then "True" else "False"
rendering (number rendered truth) = rendered
rendering (array rendered xs) = rendered
rendering (object rendered fs) = rendered

-- `str(value or "")`
unfoldable pub text_or_empty : Value → String
unfolding truthy rendering
text_or_empty v = if truthy v then rendering v else ""

-- `record.get(key)`, where a missing key gives `None`.
unfoldable pub field_value : Option Value → Value
field_value none = none_value
field_value (some v) = v

-- The entry of an object's key.
unfoldable pub field_get : String → Fields → Value
field_get k end = none_value
field_get k (field j v fs) = if j == k then v else field_get k fs
