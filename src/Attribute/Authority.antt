-- ===== src/Attribute/Authority.antt =====
-- services/attributes/authority_attributes.py: the attributes of an authority instance.
mod Constants
use pyadcs_connector.Prelude.{
  if◌then◌else◌, Result, ◌>>=◌, ◌>>◌, ◌*◌, ◌/◌, true, false, List, [], ◌∷◌, ◌++◌, ok, err,
  value_error,
}
use pyadcs_connector.Text.{Text, codes, text_eq}
use pyadcs_connector.Json.{Value, null, str}
use pyadcs_connector.Json.{is_text}
use pyadcs_connector.Attribute.Build.{
  dict, list, build_attribute, get_data_attribute_properties, get_info_attribute_properties,
}
pub use Constants.{
  authority_adcs_info_attribute_description, authority_adcs_info_attribute_label,
  authority_adcs_info_attribute_name, authority_adcs_info_attribute_uuid,
  authority_credential_attribute_description, authority_credential_attribute_label,
  authority_credential_attribute_name, authority_credential_attribute_uuid,
  authority_credential_type_attribute_description, authority_credential_type_attribute_label,
  authority_credential_type_attribute_name, authority_credential_type_attribute_uuid,
  authority_server_address_attribute_description, authority_server_address_attribute_label,
  authority_server_address_attribute_name, authority_server_address_attribute_uuid,
  authority_ssh_port_attribute_description, authority_ssh_port_attribute_label,
  authority_ssh_port_attribute_name, authority_ssh_port_attribute_uuid,
  authority_use_https_attribute_description, authority_use_https_attribute_label,
  authority_use_https_attribute_name, authority_use_https_attribute_uuid,
  authority_winrm_port_attribute_description, authority_winrm_port_attribute_label,
  authority_winrm_port_attribute_name, authority_winrm_port_attribute_uuid,
  authority_winrm_transport_attribute_description, authority_winrm_transport_attribute_label,
  authority_winrm_transport_attribute_name, authority_winrm_transport_attribute_uuid,
  authority_winrm_transport_config_attribute_description,
  authority_winrm_transport_config_attribute_label, authority_winrm_transport_config_attribute_name,
  authority_winrm_transport_config_attribute_uuid,
}

abbrev server_regexp : Text
server_regexp =
    codes "^((([0-9]|[1-9][0-9]|1[0-9]{2}|2[0-4][0-9]|25[0-5])\\.){3}([0-9]|"
    ++ (codes "[1-9][0-9]|1[0-9]{2}|2[0-4][0-9]|25[0-5])|(([a-zA-Z0-9]|[a-zA-Z0-9]"
        ++ (codes "[a-zA-Z0-9\\-]*[a-zA-Z0-9])\\.)*([A-Za-z0-9]|[A-Za-z0-9]"
            ++ (codes "[A-Za-z0-9\\-]*" ++ codes "[A-Za-z0-9]))$")))

-- `kind != "PyADCS-WinRM"` raises.
unfoldable pub validate_authority_kind : Text → Result (Unit {0})
validate_authority_kind kind =
    if text_eq kind (codes "PyADCS-WinRM") then ok tt else err value_error

unfoldable pub get_adcs_info_attribute : Value
get_adcs_info_attribute =
    let properties : Value =
      get_info_attribute_properties authority_adcs_info_attribute_label true null in
    let markdown_string : Value =
      (str (
        codes
          "### ADCS authority instance configuration using WinRM protocol\n\nChoose the credential and server configuration to proceed.")) in
    let content : Value = (list ((dict ((codes "data", markdown_string) ∷ [])) ∷ [])) in
    build_attribute authority_adcs_info_attribute_name authority_adcs_info_attribute_uuid
      (codes "info") (str (codes "text")) authority_adcs_info_attribute_description properties
      content null null

unfoldable pub get_credential_type_attribute : Value
get_credential_type_attribute =
    let properties : Value =
      get_data_attribute_properties authority_credential_type_attribute_label false true true true
        false in
    let content : Value =
      (list (
        (dict
          ((codes "reference", (str (codes "Basic"))) ∷ (codes "data", (str (codes "Basic"))) ∷ []))
        ∷ [])) in
    build_attribute authority_credential_type_attribute_name
      authority_credential_type_attribute_uuid (codes "data") (str (codes "string"))
      authority_credential_type_attribute_description properties content null null

unfoldable pub get_credential_attribute : Value
get_credential_attribute =
    let properties : Value =
      get_data_attribute_properties authority_credential_attribute_label false true true true
        false in
    let callback : Value =
      (dict (
        (codes "callbackContext", (str (codes "core/getCredentials")))
        ∷ (codes "callbackMethod", (str (codes "GET")))
        ∷ (
          codes "mappings",
          (list (
              (dict (
                (codes "from", (str (codes "authority_credential_type")))
                ∷ (codes "to", (str (codes "credentialKind")))
                ∷ (codes "targets", (list ((str (codes "pathVariable")) ∷ [])))
                ∷ []))
              ∷ [])),
        )
        ∷ [])) in
    build_attribute authority_credential_attribute_name authority_credential_attribute_uuid
      (codes "data") (str (codes "credential")) authority_credential_attribute_description
      properties null callback null

unfoldable pub get_winrm_transport_attribute : Value
get_winrm_transport_attribute =
    let properties : Value =
      get_data_attribute_properties authority_winrm_transport_attribute_label false true true true
        false in
    let content : Value =
      (list (
        (dict (
          (codes "reference", (str (codes "CredSSP")))
          ∷ (codes "data", (str (codes "credssp")))
          ∷ []))
        ∷ [])) in
    build_attribute authority_winrm_transport_attribute_name
      authority_winrm_transport_attribute_uuid (codes "data") (str (codes "string"))
      authority_winrm_transport_attribute_description properties content null null

unfoldable pub get_winrm_transport_config_attribute : Text → Value
get_winrm_transport_config_attribute kind =
    let callback : Value =
      (dict (
        (
          codes "callbackContext",
          (str (codes "/v1/callbacks/authority/winrmConfig/{kind}/{winrm_transport}")),
        )
        ∷ (codes "callbackMethod", (str (codes "GET")))
        ∷ (
          codes "mappings",
          (list (
              (dict (
                (codes "from", (str (codes "authority_winrm_transport.data")))
                ∷ (codes "to", (str (codes "winrm_transport")))
                ∷ (codes "targets", (list ((str (codes "pathVariable")) ∷ [])))
                ∷ []))
              ∷ (dict (
                  (codes "to", (str (codes "kind")))
                  ∷ (codes "targets", (list ((str (codes "pathVariable")) ∷ [])))
                  ∷ (codes "value", (str kind))
                  ∷ []))
              ∷ [])),
        )
        ∷ [])) in
    build_attribute authority_winrm_transport_config_attribute_name
      authority_winrm_transport_config_attribute_uuid (codes "group") null
      authority_winrm_transport_config_attribute_description null null callback null

unfoldable pub get_server_attribute : Value
get_server_attribute =
    let properties : Value =
      get_data_attribute_properties authority_server_address_attribute_label false true false true
        false in
    let server_regexp_constraint : Value = dict (
      (codes "type", str (codes "regExp"))
      ∷ (codes "description", str (codes "Address of ADCS Server"))
      ∷ (codes "errorMessage", str (codes "Enter Valid Address"))
      ∷ (codes "data", str server_regexp)
      ∷ []) in
    let constraints : Value = list (server_regexp_constraint ∷ []) in
    build_attribute authority_server_address_attribute_name authority_server_address_attribute_uuid
      (codes "data") (str (codes "string")) authority_server_address_attribute_description
      properties null null constraints

unfoldable pub get_use_https_attribute : Value
get_use_https_attribute =
    let properties : Value =
      get_data_attribute_properties authority_use_https_attribute_label false false false true
        false in
    let content : Value =
      (list (
        (dict
          ((codes "reference", (str (codes "True"))) ∷ (codes "data", (str (codes "true"))) ∷ []))
        ∷ [])) in
    build_attribute authority_use_https_attribute_name authority_use_https_attribute_uuid
      (codes "data") (str (codes "boolean")) authority_use_https_attribute_description properties
      content null null

unfoldable pub get_winrm_port_attribute : Value
get_winrm_port_attribute =
    let properties : Value =
      get_data_attribute_properties authority_winrm_port_attribute_label false true false true
        false in
    let content : Value =
      (list (
        (dict
          ((codes "reference", (str (codes "5985"))) ∷ (codes "data", (str (codes "5985"))) ∷ []))
        ∷ [])) in
    build_attribute authority_winrm_port_attribute_name authority_winrm_port_attribute_uuid
      (codes "data") (str (codes "integer")) authority_winrm_port_attribute_description properties
      content null null

unfoldable pub get_authority_attributes_list : Text → Result (List Value)
unfolding validate_authority_kind
get_authority_attributes_list kind = do
  validate_authority_kind kind
  ok (
      get_adcs_info_attribute ∷ get_credential_type_attribute ∷ get_credential_attribute
      ∷ get_server_attribute ∷ get_use_https_attribute ∷ get_winrm_port_attribute
      ∷ get_winrm_transport_attribute ∷ [])

-- The transport is what `get_attribute_value` gave, so it may be any value.
unfoldable pub validate_transport : Value → Result (Unit {0})
validate_transport winrm_transport =
    if is_text winrm_transport (codes "credssp") then ok tt else err value_error

unfoldable pub get_all_authority_attributes_list : Text → Value → Result (List Value)
unfolding validate_authority_kind validate_transport
get_all_authority_attributes_list kind winrm_transport = do
  validate_authority_kind kind
  validate_transport winrm_transport
  ok (
      get_adcs_info_attribute
      ∷ get_credential_type_attribute
      ∷ get_credential_attribute
      ∷ get_server_attribute
      ∷ get_use_https_attribute
      ∷ get_winrm_port_attribute
      ∷ get_winrm_transport_attribute
      ∷ get_winrm_transport_config_attribute kind
      ∷ [])

unfoldable pub get_winrm_transport_configuration_attributes_list :
    Text → Value → Result (List Value)
unfolding validate_authority_kind validate_transport
get_winrm_transport_configuration_attributes_list kind winrm_transport = do
  validate_authority_kind kind
  validate_transport winrm_transport
  ok []
