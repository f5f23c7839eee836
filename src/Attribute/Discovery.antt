-- ===== src/Attribute/Discovery.antt =====
-- services/attributes/discovery_attributes.py: the attributes of a discovery.
mod Constants
use pyadcs_connector.Prelude.{
  if◌then◌else◌, select, all, Result, ◌>>=◌, ◌>>◌, ◌/◌, true, false, List, [], ◌∷◌, map, ok, err,
  value_error,
}
use pyadcs_connector.Text.{Text, codes, text_eq}
use pyadcs_connector.Json.{Value, null, str}
use pyadcs_connector.Attribute.CaSelect.{ca_select_method_content}
use pyadcs_connector.Attribute.Build.{
  dict, list, build_attribute, get_data_attribute_properties, get_info_attribute_properties,
}
pub use Constants.{
  discovery_authority_instance_attribute_description, discovery_authority_instance_attribute_label,
  discovery_authority_instance_attribute_name, discovery_authority_instance_attribute_uuid,
  discovery_ca_name_attribute_description, discovery_ca_name_attribute_label,
  discovery_ca_name_attribute_name, discovery_ca_name_attribute_uuid,
  discovery_ca_select_group_attribute_description, discovery_ca_select_group_attribute_label,
  discovery_ca_select_group_attribute_name, discovery_ca_select_group_attribute_uuid,
  discovery_configstring_attribute_description, discovery_configstring_attribute_label,
  discovery_configstring_attribute_name, discovery_configstring_attribute_uuid,
  discovery_info_attribute_description, discovery_info_attribute_label,
  discovery_info_attribute_name, discovery_info_attribute_uuid,
  discovery_issued_after_attribute_description, discovery_issued_after_attribute_label,
  discovery_issued_after_attribute_name, discovery_issued_after_attribute_uuid,
  discovery_issued_days_before_attribute_description, discovery_issued_days_before_attribute_label,
  discovery_issued_days_before_attribute_name, discovery_issued_days_before_attribute_uuid,
  discovery_select_ca_method_attribute_description, discovery_select_ca_method_attribute_label,
  discovery_select_ca_method_attribute_name, discovery_select_ca_method_attribute_uuid,
  discovery_template_name_attribute_description, discovery_template_name_attribute_label,
  discovery_template_name_attribute_name, discovery_template_name_attribute_uuid,
}

abbrev authority_instance_content : Text × Text → Value
authority_instance_content (uuid, name) = dict (
    (codes "reference", str name)
    ∷ (codes "data", dict ((codes "uuid", str uuid) ∷ (codes "name", str name) ∷ []))
    ∷ [])

-- `kind != "PyADCS-WinRM"` raises.
unfoldable pub validate_discovery_kind : Text → Result (Unit {0})
validate_discovery_kind kind =
    if text_eq kind (codes "PyADCS-WinRM") then ok tt else err value_error

pub get_discovery_info_attribute : Value
get_discovery_info_attribute =
    let properties : Value =
      get_info_attribute_properties discovery_info_attribute_label true null in
    let markdown_string : Value =
      (str (
        codes
          "### Configuration of ADCS certificate discovery\n\nDiscovery by default runs on all authorities and templates.\nIt is looking for all certificates that have disposition >= 12 and <= 21.\n\nIf you want to limit the discovery to specific authorities or templates, then select the corresponding values.")) in
    let content : Value = (list ((dict ((codes "data", markdown_string) ∷ [])) ∷ [])) in
    build_attribute discovery_info_attribute_name discovery_info_attribute_uuid (codes "info")
      (str (codes "text")) discovery_info_attribute_description properties content null null

-- The instances of the kind, as `(uuid, name)`, are what the database query returns.
pub get_authority_instances_attribute : List (Text × Text) → Value
get_authority_instances_attribute instances =
    let properties : Value =
      get_data_attribute_properties discovery_authority_instance_attribute_label false true true
        true false in
    let content : Value = list (map authority_instance_content instances) in
    build_attribute discovery_authority_instance_attribute_name
      discovery_authority_instance_attribute_uuid (codes "data") (str (codes "object"))
      discovery_authority_instance_attribute_description properties content null null

pub get_select_ca_method_attribute : Value
get_select_ca_method_attribute =
    let properties : Value =
      get_data_attribute_properties discovery_select_ca_method_attribute_label false true true true
        false in
    build_attribute discovery_select_ca_method_attribute_name
      discovery_select_ca_method_attribute_uuid (codes "data") (str (codes "string"))
      discovery_select_ca_method_attribute_description properties ca_select_method_content null null

pub get_ca_select_group_attribute : Value
get_ca_select_group_attribute =
    let callback : Value =
      (dict (
        (
          codes "callbackContext",
          (str (
              codes
                "/v1/callbacks/discovery/caSelect/{ca_select_method}/{authority_instance_uuid}")),
        )
        ∷ (codes "callbackMethod", (str (codes "GET")))
        ∷ (
          codes "mappings",
          (list (
              (dict (
                (codes "from", (str (codes "discovery_select_ca_method.data")))
                ∷ (codes "to", (str (codes "ca_select_method")))
                ∷ (codes "targets", (list ((str (codes "pathVariable")) ∷ [])))
                ∷ []))
              ∷ (dict (
                  (codes "from", (str (codes "discovery_authority_instance.data.uuid")))
                  ∷ (codes "to", (str (codes "authority_instance_uuid")))
                  ∷ (codes "targets", (list ((str (codes "pathVariable")) ∷ [])))
                  ∷ []))
              ∷ [])),
        )
        ∷ [])) in
    build_attribute discovery_ca_select_group_attribute_name
      discovery_ca_select_group_attribute_uuid (codes "group") null
      discovery_ca_select_group_attribute_description null null callback null

pub get_discovery_ca_name_attribute : Value → Value
get_discovery_ca_name_attribute ca_names =
    let properties : Value =
      get_data_attribute_properties discovery_ca_name_attribute_label false false true true true in
    build_attribute discovery_ca_name_attribute_name discovery_ca_name_attribute_uuid (codes "data")
      (str (codes "object")) discovery_ca_name_attribute_description properties ca_names null null

pub get_template_name_attribute : Value
get_template_name_attribute =
    let properties : Value =
      get_data_attribute_properties discovery_template_name_attribute_label false false true true
        true in
    let callback : Value =
      (dict (
        (
          codes "callbackContext",
          (str (codes "/v1/callbacks/discovery/listTemplate/{authority_instance_uuid}")),
        )
        ∷ (codes "callbackMethod", (str (codes "GET")))
        ∷ (
          codes "mappings",
          (list (
              (dict (
                (codes "from", (str (codes "discovery_authority_instance.data.uuid")))
                ∷ (codes "to", (str (codes "authority_instance_uuid")))
                ∷ (codes "targets", (list ((str (codes "pathVariable")) ∷ [])))
                ∷ []))
              ∷ [])),
        )
        ∷ [])) in
    build_attribute discovery_template_name_attribute_name discovery_template_name_attribute_uuid
      (codes "data") (str (codes "object")) discovery_template_name_attribute_description properties
      null callback null

pub get_issued_after_attribute : Value
get_issued_after_attribute =
    let properties : Value =
      get_data_attribute_properties discovery_issued_after_attribute_label false false false true
        false in
    build_attribute discovery_issued_after_attribute_name discovery_issued_after_attribute_uuid
      (codes "data") (str (codes "datetime")) discovery_issued_after_attribute_description
      properties null null null

pub get_issued_days_before_attribute : Value
get_issued_days_before_attribute =
    let properties : Value =
      get_data_attribute_properties discovery_issued_days_before_attribute_label false true false
        true false in
    let content : Value =
      (list (
        (dict ((codes "reference", (str (codes "5"))) ∷ (codes "data", (str (codes "5"))) ∷ []))
        ∷ [])) in
    build_attribute discovery_issued_days_before_attribute_name
      discovery_issued_days_before_attribute_uuid (codes "data") (str (codes "integer"))
      discovery_issued_days_before_attribute_description properties content null null

pub get_discovery_config_string_attribute : Value
get_discovery_config_string_attribute =
    let properties : Value =
      get_data_attribute_properties discovery_configstring_attribute_label false false false true
        false in
    build_attribute discovery_configstring_attribute_name discovery_configstring_attribute_uuid
      (codes "data") (str (codes "string")) discovery_configstring_attribute_description properties
      null null null

unfoldable pub get_discovery_attributes_list : List (Text × Text) → Text → Result (List Value)
unfolding validate_discovery_kind
get_discovery_attributes_list instances kind = do
  validate_discovery_kind kind
  ok (
      get_discovery_info_attribute
      ∷ get_authority_instances_attribute instances
      ∷ get_select_ca_method_attribute
      ∷ get_ca_select_group_attribute
      ∷ get_template_name_attribute
      ∷ get_issued_after_attribute
      ∷ [])
