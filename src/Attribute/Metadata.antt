-- ===== src/Attribute/Metadata.antt =====
-- services/attributes/metadata_attributes.py: the metadata of discovered certificates and failed discoveries.
mod Constants
use pyadcs_connector.Prelude.{true, false, [], ◌∷◌}
use pyadcs_connector.Text.{codes}
use pyadcs_connector.Json.{Value, null, str}
use pyadcs_connector.Attribute.Build.{
  dict, list, build_attribute, get_metadata_attribute_properties,
}
pub use Constants.{
  metadata_ca_name_attribute_description, metadata_ca_name_attribute_label,
  metadata_ca_name_attribute_name, metadata_ca_name_attribute_uuid,
  metadata_failed_reason_attribute_description, metadata_failed_reason_attribute_label,
  metadata_failed_reason_attribute_name, metadata_failed_reason_attribute_uuid,
  metadata_template_name_attribute_description, metadata_template_name_attribute_label,
  metadata_template_name_attribute_name, metadata_template_name_attribute_uuid,
}

pub get_ca_name_metadata_attribute : Value → Value
get_ca_name_metadata_attribute ca_name =
    let properties : Value =
      get_metadata_attribute_properties metadata_ca_name_attribute_label true null false in
    let content : Value =
      (list ((dict ((codes "reference", ca_name) ∷ (codes "data", ca_name) ∷ [])) ∷ [])) in
    build_attribute metadata_ca_name_attribute_name metadata_ca_name_attribute_uuid (codes "meta")
      (str (codes "string")) metadata_ca_name_attribute_description properties content null null

pub get_template_name_metadata_attribute : Value → Value
get_template_name_metadata_attribute template_name =
    let properties : Value =
      get_metadata_attribute_properties metadata_template_name_attribute_label true null false in
    let content : Value =
      (list
        ((dict ((codes "reference", template_name) ∷ (codes "data", template_name) ∷ [])) ∷ [])) in
    build_attribute metadata_template_name_attribute_name metadata_template_name_attribute_uuid
      (codes "meta") (str (codes "string")) metadata_template_name_attribute_description properties
      content null null

pub get_failed_reason_metadata_attribute : Value → Value
get_failed_reason_metadata_attribute failed_reason =
    let properties : Value =
      get_metadata_attribute_properties metadata_failed_reason_attribute_label true null false in
    let content : Value =
      (list
        ((dict ((codes "reference", failed_reason) ∷ (codes "data", failed_reason) ∷ [])) ∷ [])) in
    build_attribute metadata_failed_reason_attribute_name metadata_failed_reason_attribute_uuid
      (codes "meta") (str (codes "string")) metadata_failed_reason_attribute_description properties
      content null null
