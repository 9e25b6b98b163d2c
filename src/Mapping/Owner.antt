-- ===== src/Mapping/Owner.antt =====
-- Owner directories (mapping/owner_mapping.py). `str.lower` is the parameter `lower`: the tables of
-- Unicode's case mapping are not modelled.
pub mod Sound
use sanka.Prelude.{
  eq_nat, ◌||◌, ℕ, suc, String, ◌≡◌, Bool, true, false, ◌&&◌, ◌||◌, not, Option, none, some, List,
  [], ◌∷◌, ◌++◌, if◌then◌else◌, filter, ◌==◌, eq_string, arith, length, eq_nat, leb, ltb,
}
use sanka.Prelude.Dict.{Dict, get, set, pop, get_or, append_to}
use sanka.Prelude.Text.{strip}
use sanka.Fault.{◌>>=◌, Fault, mapping_error, Result, return, raise, ◌>>=◌}
use Prim.Native.Char.{code}
use sanka.Records.{SourceRecord}
use sanka.Mapping.Field.{MigrationMappingField, is_owner}
use sanka.Value.{text, Value, text, text_or_empty, field_value}

-- `OwnerProfile` (sanka_connector/records.py).
pub record OwnerProfile : Type 0 where
  pub id : String
  pub email : String
  pub active : Bool

-- `MissingOwnerPolicy`
pub data MissingOwnerPolicy : Type 0 where
  block fallback leave_empty : MissingOwnerPolicy

-- The faults of `resolve`; the messages stand without the email.
abbrev pub duplicate : Fault
duplicate =
    mapping_error "Destination owner email is duplicated" "SANKA_MIGRATE_OWNER_EMAIL_DUPLICATE"

abbrev pub inactive : Fault
inactive = mapping_error "Destination owner is inactive" "SANKA_MIGRATE_OWNER_INACTIVE"

abbrev pub not_found : Fault
not_found = mapping_error "Destination owner email was not found" "SANKA_MIGRATE_OWNER_NOT_FOUND"

abbrev pub fallback_required : Fault
fallback_required =
    mapping_error "A fallback owner email is required." "SANKA_MIGRATE_FALLBACK_OWNER_REQUIRED"

-- The tests of `resolve` on the matches of an email, before the policy is read.
unfoldable pub resolve_matches : List OwnerProfile → Result (Option String) → Result (Option String)
resolve_matches [] by_policy = by_policy
resolve_matches (profile ∷ []) by_policy =
    if profile.active then return (some profile.id) else raise inactive
resolve_matches (profile ∷ other ∷ rest) by_policy = raise duplicate

module _ (lower : String → String) where
  -- `normalize_owner_email`, of a string.
  unfoldable pub normalize_owner_email : String → String
  normalize_owner_email value = lower (strip value)

  -- `OwnerDirectory.__init__`: the profiles under each email.
  unfoldable pub index_profiles :
      Dict String (List OwnerProfile) → List OwnerProfile → Dict String (List OwnerProfile)
  unfolding normalize_owner_email
  index_profiles by_email [] = by_email
  index_profiles by_email (profile ∷ profiles) =
      let email = normalize_owner_email profile.email in
      index_profiles (if email == "" then by_email else append_to email profile by_email) profiles

  unfoldable pub owner_directory : List OwnerProfile → Dict String (List OwnerProfile)
  unfolding index_profiles
  owner_directory profiles = index_profiles [] profiles

  -- `resolve` with the policy "block".
  unfoldable pub resolve_block : Dict String (List OwnerProfile) → String → Result (Option String)
  unfolding resolve_matches normalize_owner_email
  resolve_block by_email email =
      resolve_matches (get_or (normalize_owner_email email) [] by_email) (raise not_found)

  -- `resolve`
  unfoldable pub resolve :
      Dict String (List OwnerProfile)
      → String
      → MissingOwnerPolicy
      → String
      → Result (Option String)
  unfolding resolve_block
  resolve by_email email block fallback_email = resolve_block by_email email
  resolve by_email email leave_empty fallback_email =
      resolve_matches (get_or (normalize_owner_email email) [] by_email) (return none)
  resolve by_email email fallback fallback_email =
      resolve_matches (get_or (normalize_owner_email email) [] by_email) (
        let other = normalize_owner_email fallback_email in
        if other == ""
        then raise fallback_required
        else if other == normalize_owner_email email
        then raise not_found
        else resolve_block by_email other)

  -- `SourceOwnerDirectory.__init__`
  unfoldable pub source_owner_directory :
      Dict String OwnerProfile → List OwnerProfile → Dict String OwnerProfile
  source_owner_directory by_id [] = by_id
  source_owner_directory by_id (profile ∷ profiles) =
      let id = strip profile.id in
      source_owner_directory (if id == "" then by_id else set id profile by_id) profiles

  -- `email_for_id`
  unfoldable pub email_for_id : Dict String OwnerProfile → Value → Option String
  email_for_id by_id owner_id = elim (get (strip (text_or_empty owner_id)) by_id) [
    | none ↦ none
    | some profile ↦
        let email = normalize_owner_email profile.email in
        if not profile.active || email == "" then none else some email
  ]

-- `"@" in text`
unfoldable pub has_at : String → Bool
has_at String.[] = false
has_at (String.◌∷◌ c s) = code c == b'@' || has_at s

module _ (lower : String → String) where
  -- The email that an owner property names: its text, or the email of a source owner id.
  unfoldable pub source_email : Option (Dict String OwnerProfile) → Value → String
  unfolding normalize_owner_email email_for_id has_at
  source_email none v = normalize_owner_email lower (text_or_empty v)
  source_email (some source_directory) v =
      let email = normalize_owner_email lower (text_or_empty v) in
      if has_at email
      then email
      else elim (email_for_id lower source_directory v) [ none ↦ "" | some e ↦ e ]

  -- `map_owner_properties`, with the owner fields of the route.
  unfoldable pub map_owner_properties :
      Dict String (List OwnerProfile)
      → Option (Dict String OwnerProfile)
      → MissingOwnerPolicy
      → String
      → List MigrationMappingField
      → SourceRecord
      → Result SourceRecord
  unfolding source_email resolve
  map_owner_properties directory source_directory policy fallback_email [] properties =
      return properties
  map_owner_properties directory source_directory policy fallback_email (f ∷ fields) properties =
      if is_owner f.mapping_kind
      then (do
        owner_id ←
            resolve lower directory
              (source_email source_directory (field_value (get f.target_field properties))) policy
              fallback_email
        map_owner_properties directory source_directory policy fallback_email fields
            (elim owner_id [
              | none ↦ pop f.target_field properties
              | some id ↦ set f.target_field (text id) properties
            ]))
      else map_owner_properties directory source_directory policy fallback_email fields properties
