-- ===== src/Mapping/Properties/Keys.antt =====
-- Which destination properties a record gets (mapping/record_mapping.py).
use sanka.Prelude.{
  String, ◌≡◌, ◌⊎◌, inl, inr, refl, Bool, true, false, ◌&&◌, not, Option, none, some, List, [], ◌∷◌,
  ◌++◌, ◌==◌, eq_string, any, arith, Bool-cases, beq_refl,
}
use sanka.Prelude.Dict.{get, set, has, get-set}
use sanka.Fault.{Result, return, raise, ◌>>=◌}
use sanka.Value.{Value, field_value}
use sanka.Records.{SourceRecord}
use sanka.Mapping.Field.{MigrationMappingField, is_link, last_part}
use sanka.Mapping.Properties.{
  is_blank, as_mapping_error, mapped, store, map_value, is_absent, map_field, map_fields,
  destination_properties,
}

>>=-eq-return {ℓ κ} :
    {A : Type ℓ} {B : Type κ} (m : Result A) (f : A → Result B) {b : B}
    → (m >>= f) ≡ return b
    → (a : A) × (m ≡ return a) × (f a ≡ return b)
>>=-eq-return (return a) f h = (a, refl, h)
>>=-eq-return (raise e) f h = cc

as_mapping_error-eq-return {ℓ} :
    {A : Type ℓ} (m : Result A) {a : A} → as_mapping_error m ≡ return a → m ≡ return a
unfolding as_mapping_error
as_mapping_error-eq-return (return a) h = h
as_mapping_error-eq-return (raise e) h = absurd (ground arith)

module _ (transform : Value → Option String → Result Value) (equals : Value → Value → Bool) where
  -- A round that returns has kept the properties or set the field's target; it keeps them only where
  -- the field is a link, or is not required, or has a value map.
  data Round (f : MigrationMappingField) (before after : SourceRecord) : Type 0 where
    kept :
        after ≡ before
        → (is_link f.mapping_kind ≡ false → f.required ≡ true → f.value_map ≡ [] → ⊥)
        → Round f before after
    stored :
        (v : Value)
        → after ≡ set f.target_field v before
        → is_link f.mapping_kind ≡ false
        → Round f before after

  store-Round :
      (f : MigrationMappingField) (before after : SourceRecord) (m : Option Value)
      → is_link f.mapping_kind ≡ false
      → (m ≡ none → f.value_map ≡ [] → ⊥)
      → store f before m ≡ return after
      → Round f before after
  unfolding store
  store-Round f before after none plain no_map h = kept (cc) (λ l r e. no_map refl e)
  store-Round f before after (some v) plain no_map h =
      elim (Bool-cases (is_blank f.empty_value_policy v)) [
        | inl blank ↦ kept (ground arith) (λ l r e. ground arith)
        | inr solid ↦ stored v (ground arith) plain
      ]

  mapped-ne-none :
      (r : SourceRecord) (f : MigrationMappingField) (v : Value) (m : Option Value)
      → mapped transform equals r f v ≡ return m
      → m ≡ none
      → f.value_map ≡ []
      → ⊥
  unfolding mapped
  mapped-ne-none r f v m h e empty = ground arith

  map_value-Round :
      (r : SourceRecord) (f : MigrationMappingField) (v : Value) (before after : SourceRecord)
      → is_link f.mapping_kind ≡ false
      → map_value transform equals r f v before ≡ return after
      → Round f before after
  unfolding map_value
  map_value-Round r f v before after plain h =
      let (v', t, h₁) =
        >>=-eq-return (transform v f.transform_rule) _ (as_mapping_error-eq-return _ h) in
      let (m, e, h₂) = >>=-eq-return (mapped transform equals r f v') _ h₁ in
      store-Round f before after m plain (mapped-ne-none r f v' m e) h₂

  map_field-Round :
      (r : SourceRecord) (f : MigrationMappingField) (before after : SourceRecord)
      → map_field transform equals r f before ≡ return after
      → Round f before after
  unfolding map_field
  map_field-Round r f before after h =
      let value = field_value (get (last_part f.source_field) r) in
      elim (Bool-cases (is_link f.mapping_kind)) [
        | inl link ↦ kept (ground arith) (λ l q e. cc)
        | inr plain ↦ elim (Bool-cases (is_absent f.empty_value_policy value)) [
          | inl absent ↦ kept (ground arith) (λ l q e. ground arith)
          | inr there ↦ map_value-Round r f value before after plain (ground arith)
        ]
      ]

  -- The target of some plain (scalar or owner) field.
  abbrev pub is_target : String → List MigrationMappingField → Bool
  is_target k = any (λ f. f.target_field == k && not (is_link f.mapping_kind))

  map_fields_sound :
      (r : SourceRecord) (fields : List MigrationMappingField) (before after : SourceRecord)
      (k : String)
      → map_fields transform equals r fields before ≡ return after
      → has k after ≡ true
      → (has k before ≡ true) ⊎ (is_target k fields ≡ true)
  unfolding map_fields any
  map_fields_sound r [] before after k h e = inl (ground arith)
  map_fields_sound r (f ∷ fields) before after k h e =
      let (next, h₁, h₂) = >>=-eq-return (map_field transform equals r f before) _ h in
      step next (map_field-Round r f before next h₁) (map_fields_sound r fields next after k h₂ e)
    where
      step :
          (next : SourceRecord)
          → Round f before next
          → (has k next ≡ true) ⊎ (is_target k fields ≡ true)
          → (has k before ≡ true) ⊎ (is_target k (f ∷ fields) ≡ true)
      step next round (inr later) = inr (ground arith)
      step next (kept same n) (inl now) = inl (rw same at now)
      step next (stored v w plain) (inl now) =
          unfold has in ground (arith, get-set f.target_field k v before)

  map_fields_keep :
      (r : SourceRecord) (fields : List MigrationMappingField) (before after : SourceRecord)
      (k : String)
      → map_fields transform equals r fields before ≡ return after
      → has k before ≡ true
      → has k after ≡ true
  unfolding map_fields
  map_fields_keep r [] before after k h e = ground arith
  map_fields_keep r (f ∷ fields) before after k h e =
      let (next, h₁, h₂) = >>=-eq-return (map_field transform equals r f before) _ h in
      map_fields_keep r fields next after k h₂ (step next (map_field-Round r f before next h₁))
    where
      step : (next : SourceRecord) → Round f before next → has k next ≡ true
      step next (kept same n) = rw same e
      step next (stored v w plain) = unfold has in ground (arith, get-set f.target_field k v before)

  -- Each property that a record gets is the target of a plain field: links never write a property here.
  pub destination_properties_sound :
      (r : SourceRecord) (fields : List MigrationMappingField) (properties : SourceRecord)
      (k : String)
      → destination_properties transform equals r fields ≡ return properties
      → has k properties ≡ true
      → is_target k fields ≡ true
  unfolding destination_properties has get
  destination_properties_sound r fields properties k h e =
      ground (arith, map_fields_sound r fields [] properties k h e)

  required_stored :
      (r : SourceRecord) (f : MigrationMappingField) (before after : SourceRecord)
      → is_link f.mapping_kind ≡ false
      → f.required ≡ true
      → f.value_map ≡ []
      → Round f before after
      → has f.target_field after ≡ true
  unfolding has
  required_stored r f before after plain q e (kept same never) = absurd (never plain q e)
  required_stored r f before after plain q e (stored v w p) =
      ground (arith, get-set f.target_field f.target_field v before, beq_refl f.target_field)

  map_fields_required :
      (r : SourceRecord) (xs ys : List MigrationMappingField) (f : MigrationMappingField)
      (before after : SourceRecord)
      → is_link f.mapping_kind ≡ false
      → f.required ≡ true
      → f.value_map ≡ []
      → map_fields transform equals r (xs ++ f ∷ ys) before ≡ return after
      → has f.target_field after ≡ true
  unfolding map_fields
  map_fields_required r [] ys f before after plain q e h =
      let (next, h₁, h₂) = >>=-eq-return (map_field transform equals r f before) _ h in
      map_fields_keep r ys next after f.target_field h₂
        (required_stored r f before next plain q e (map_field-Round r f before next h₁))
  map_fields_required r (x ∷ xs) ys f before after plain q e h =
      let (next, h₁, h₂) = >>=-eq-return (map_field transform equals r x before) _ h in
      map_fields_required r xs ys f next after plain q e h₂

  -- A record that is mapped has every required scalar or owner property whose field has no value map.
  pub destination_properties_required :
      (r : SourceRecord) (xs ys : List MigrationMappingField) (f : MigrationMappingField)
      (properties : SourceRecord)
      → is_link f.mapping_kind ≡ false
      → f.required ≡ true
      → f.value_map ≡ []
      → destination_properties transform equals r (xs ++ f ∷ ys) ≡ return properties
      → has f.target_field properties ≡ true
  unfolding destination_properties
  destination_properties_required r xs ys f properties plain q e h =
      map_fields_required r xs ys f [] properties plain q e h
