-- ===== src/Attribute/Raprofile.antt =====
-- services/attributes/raprofile_attributes.py: the attributes of an RA profile.
mod Constants
use pyadcs_connector.Prelude.{◌/◌, true, false, List, [], ◌∷◌, map}
use pyadcs_connector.Text.{Text, codes}
use pyadcs_connector.Json.{Value, null, str}
use pyadcs_connector.Dump.{TemplateData}
use pyadcs_connector.Dump.Dicts.{to_dict}
use pyadcs_connector.Attribute.CaSelect.{ca_select_method_content}
use pyadcs_connector.Attribute.Build.{dict, list, build_attribute, get_data_attribute_properties}
pub use Constants.{
  raprofile_authority_uuid_attribute_description, raprofile_authority_uuid_attribute_label,
  raprofile_authority_uuid_attribute_name, raprofile_authority_uuid_attribute_uuid,
  raprofile_ca_name_attribute_description, raprofile_ca_name_attribute_label,
  raprofile_ca_name_attribute_name, raprofile_ca_name_attribute_uuid,
  raprofile_ca_select_group_attribute_description, raprofile_ca_select_group_attribute_label,
  raprofile_ca_select_group_attribute_name, raprofile_ca_select_group_attribute_uuid,
  raprofile_configstring_attribute_description, raprofile_configstring_attribute_label,
  raprofile_configstring_attribute_name, raprofile_configstring_attribute_uuid,
  raprofile_select_ca_method_attribute_description, raprofile_select_ca_method_attribute_label,
  raprofile_select_ca_method_attribute_name, raprofile_select_ca_method_attribute_uuid,
  raprofile_template_name_attribute_description, raprofile_template_name_attribute_label,
  raprofile_template_name_attribute_name, raprofile_template_name_attribute_uuid,
}

abbrev pub template_content : TemplateData → Value
template_content template =
    dict ((codes "reference", template.display_name) ∷ (codes "data", to_dict template) ∷ [])

pub get_select_ca_method_attribute : Value
get_select_ca_method_attribute =
    let properties : Value =
      get_data_attribute_properties raprofile_select_ca_method_attribute_label false true true true
        false in
    build_attribute raprofile_select_ca_method_attribute_name
      raprofile_select_ca_method_attribute_uuid (codes "data") (str (codes "string"))
      raprofile_select_ca_method_attribute_description properties ca_select_method_content null null

pub get_authority_uuid_attribute : Text → Value
get_authority_uuid_attribute authority_uuid =
    let properties : Value =
      get_data_attribute_properties raprofile_authority_uuid_attribute_label false true false false
        false in
    let content : Value =
      (list (
        (dict
          ((codes "reference", (str authority_uuid)) ∷ (codes "data", (str authority_uuid)) ∷ []))
        ∷ [])) in
    build_attribute raprofile_authority_uuid_attribute_name raprofile_authority_uuid_attribute_uuid
      (codes "data") (str (codes "string")) raprofile_authority_uuid_attribute_description
      properties content null null

pub get_ca_select_group_attribute : Value
get_ca_select_group_attribute =
    let callback : Value =
      (dict (
        (
          codes "callbackContext",
          (str (
              codes
                "/v1/callbacks/raProfile/caSelect/{ca_select_method}/{authority_instance_uuid}")),
        )
        ∷ (codes "callbackMethod", (str (codes "GET")))
        ∷ (
          codes "mappings",
          (list (
              (dict (
                (codes "from", (str (codes "raprofile_select_ca_method.data")))
                ∷ (codes "to", (str (codes "ca_select_method")))
                ∷ (codes "targets", (list ((str (codes "pathVariable")) ∷ [])))
                ∷ []))
              ∷ (dict (
                  (codes "from", (str (codes "raprofile_authority_uuid.data")))
                  ∷ (codes "to", (str (codes "authority_instance_uuid")))
                  ∷ (codes "targets", (list ((str (codes "pathVariable")) ∷ [])))
                  ∷ []))
              ∷ [])),
        )
        ∷ [])) in
    build_attribute raprofile_ca_select_group_attribute_name
      raprofile_ca_select_group_attribute_uuid (codes "group") null
      raprofile_ca_select_group_attribute_description null null callback null

pub get_template_name_attribute : List TemplateData → Value
get_template_name_attribute templates =
    let properties : Value =
      get_data_attribute_properties raprofile_template_name_attribute_label false true true true
        false in
    let content : Value = list (map template_content templates) in
    build_attribute raprofile_template_name_attribute_name raprofile_template_name_attribute_uuid
      (codes "data") (str (codes "object")) raprofile_template_name_attribute_description properties
      content null null

pub get_raprofile_config_string_attribute : Value
get_raprofile_config_string_attribute =
    let properties : Value =
      get_data_attribute_properties raprofile_configstring_attribute_label false false false true
        false in
    build_attribute raprofile_configstring_attribute_name raprofile_configstring_attribute_uuid
      (codes "data") (str (codes "string")) raprofile_configstring_attribute_description properties
      null null null

pub get_raprofile_ca_name_attribute : Value → Value
get_raprofile_ca_name_attribute ca_names =
    let properties : Value =
      get_data_attribute_properties raprofile_ca_name_attribute_label false false true true false in
    build_attribute raprofile_ca_name_attribute_name raprofile_ca_name_attribute_uuid (codes "data")
      (str (codes "object")) raprofile_ca_name_attribute_description properties ca_names null null
