-- ===== src/Tests/Mapping.antt =====
-- Examples of the mapping family's theorems.
use sanka.Prelude.{
  ℕ, String, ◌≡◌, refl, Bool, true, false, Option, none, some, List, [], ◌∷◌, ◌⊎◌, contains,
  eq_string, if◌then◌else◌, filter,
}
use sanka.Prelude.Dict.{get, set, get_or, append_to, has}
use sanka.Prelude.Text.{strip, is_space}
use sanka.Fault.{Result, return, raise}
use sanka.Effect.{pure}
use sanka.Value.{Value, text, field_value}
use sanka.Model.{PendingRelationship, PendingRelationships, RelationshipKey}
use sanka.Records.{SourceRecord, RelationshipStatus}
use sanka.Mapping.Field.{
  last_part, MappingKind, EmptyValuePolicy, UnmappedValuePolicy, MigrationMappingField,
}
use sanka.Mapping.Properties.{destination_properties}
use sanka.Mapping.Properties.Keys.{
  destination_properties_sound, destination_properties_required, is_target,
}
use sanka.Mapping.Owner.{
  OwnerProfile, MissingOwnerPolicy, inactive, duplicate, owner_directory, resolve,
  normalize_owner_email,
}
use sanka.Mapping.Owner.Sound.{matches, IsOnlyOwner, resolve_sound, resolve_by_matches}
use sanka.Mapping.Links.{LinkHost, eq_relationship_key, linked_record_id}
use sanka.Mapping.Pending.{retry_pending_relationships}
use sanka.Mapping.Pending.Remaining.{retry_pending_relationships_keeps}

abbrev pub plain : Value → Option String → Result Value
plain v rule = return v

abbrev pub never : Value → Value → Bool
never v w = false

abbrev pub same_text : String → String
same_text s = s

abbrev pub email_field : MigrationMappingField
email_field = record {
  source_field = "Contact.Email";
  target_object = "contacts";
  target_field = "email";
  transform_rule = none;
  empty_value_policy = EmptyValuePolicy.preserve;
  required = true;
  identity = some true;
  mapping_kind = MappingKind.scalar;
  source_reference_object = none;
  target_reference_object = none;
  relationship_mode = none;
  association_category = none;
  association_type_id = none;
  source_filter = none;
  value_map = [];
  unmapped_value_policy = UnmappedValuePolicy.error;
}

abbrev pub source_contact : SourceRecord
source_contact = ("Id", text "1") ∷ ("Email", text "a@b") ∷ []

abbrev mapped_contact : SourceRecord
mapped_contact = ("email", text "a@b") ∷ []

contact_maps :
    destination_properties plain never source_contact (email_field ∷ []) ≡ return mapped_contact
unfolding destination_properties get set field_value last_part
contact_maps = refl

destination_properties_sound_example : is_target plain never "email" (email_field ∷ []) ≡ true
unfolding has get
destination_properties_sound_example =
    destination_properties_sound plain never source_contact (email_field ∷ []) mapped_contact
      "email" contact_maps refl

destination_properties_required_example : has "email" mapped_contact ≡ true
destination_properties_required_example =
    destination_properties_required plain never source_contact [] [] email_field mapped_contact refl
      refl refl contact_maps

abbrev ann : OwnerProfile
ann = record { id = "o1"; email = "ann"; active = true }

ann_resolves :
    resolve same_text (owner_directory same_text (ann ∷ [])) "ann" MissingOwnerPolicy.block ""
    ≡ return (some "o1")
unfolding resolve owner_directory normalize_owner_email get_or append_to set get strip is_space
ann_resolves = refl

resolve_sound_example :
    IsOnlyOwner same_text (ann ∷ []) (normalize_owner_email same_text "ann") "o1"
    ⊎ ((MissingOwnerPolicy.block ≡ MissingOwnerPolicy.fallback)
        × (matches same_text (ann ∷ []) (normalize_owner_email same_text "ann") ≡ [])
        × IsOnlyOwner same_text
            (ann ∷ [])
            (normalize_owner_email same_text (normalize_owner_email same_text ""))
            "o1")
resolve_sound_example =
    resolve_sound same_text (ann ∷ []) "ann" "" MissingOwnerPolicy.block "o1" ann_resolves

resolve_by_matches_example :
    ((p : OwnerProfile)
      → matches same_text (ann ∷ []) (normalize_owner_email same_text "ann") ≡ p ∷ []
      → resolve same_text (owner_directory same_text (ann ∷ [])) "ann" MissingOwnerPolicy.block ""
        ≡ (if p.active then return (some p.id) else raise inactive))
    × ((p q : OwnerProfile) (ms : List OwnerProfile)
        → matches same_text (ann ∷ []) (normalize_owner_email same_text "ann") ≡ p ∷ q ∷ ms
        → resolve same_text (owner_directory same_text (ann ∷ [])) "ann" MissingOwnerPolicy.block ""
          ≡ raise duplicate)
resolve_by_matches_example =
    resolve_by_matches same_text (ann ∷ []) "ann" "" MissingOwnerPolicy.block

-- A contact without its destination id yet, and its company.
abbrev pending_company : PendingRelationship
pending_company = record {
  source_record_id = "1";
  destination_object = "contacts";
  destination_record_id = none;
  relationship_field = "company";
  related_source_object = "Account";
  related_source_record_id = "9";
  related_destination_object = "companies";
  relationship_mode = "default";
  association_category = none;
  association_type_id = none;
}

abbrev company_key : RelationshipKey
company_key = record {
  source_record_id = "1";
  destination_object = "contacts";
  relationship_field = "company";
  related_source_object = "Account";
  related_source_record_id = "9";
  related_destination_object = "companies";
  relationship_mode = "default";
  association_category = none;
  association_type_id = none;
}

abbrev pub parked : PendingRelationships
parked = (company_key, pending_company) ∷ []

-- A destination that links everything, and ledgers that know each id by its own name.
abbrev pub link_host : {W : Type 0} → LinkHost W
link_host = record {
  get_destination_record_ids = λ source ids destination. pure (("9", "d9") ∷ []);
  get_shared_destination_record_ids = none;
  write_relationship =
      λ write. pure (record { status = RelationshipStatus.linked; message = none });
  write_relationships = none;
}

retry_stays : (retry_pending_relationships (link_host {W = ℕ}) parked [] 0).0 ≡ return parked
unfolding retry_pending_relationships filter contains append_to set get get_or strip
retry_stays = refl

retry_pending_relationships_keeps_example :
    ((get company_key parked ≡ some pending_company) ⊎ (get company_key parked ≡ none))
    × ((contains {A = String} "1" [] ≡ true) ⊎ (linked_record_id pending_company ≡ "")
        → get company_key parked ≡ some pending_company)
unfolding get
retry_pending_relationships_keeps_example =
    retry_pending_relationships_keeps (link_host {W = ℕ}) parked parked [] 0 company_key
      pending_company retry_stays (refl, tt) refl
