-- ===== src/Views.antt =====
-- views/attributes.py, views/callbacks.py and exceptions/exception_handler.py: what the requests for
-- attributes are answered.
pub mod Offered
use pyadcs_connector.Prelude.{
  ℕ, List, [], ◌∷◌, map, select, Exception, not_found_exception, validation_exception,
  winrm_execution_exception, authority_exception, discovery_exception, value_error,
  generic_exception, Result, ok, err, if◌then◌else◌, ◌>>◌,
}
use pyadcs_connector.Text.{Text, text_eq}
use pyadcs_connector.Json.{Value}
use pyadcs_connector.Dump.Template.{parse_template_data}
use pyadcs_connector.Attribute.Build.{list}
use pyadcs_connector.Attribute.CaSelect.{search_method, configstring, method}
use pyadcs_connector.Attribute.Authority.{
  get_authority_attributes_list, get_winrm_transport_configuration_attributes_list,
}
use pyadcs_connector.Attribute.Discovery.{
  get_discovery_attributes_list, get_discovery_config_string_attribute,
  get_discovery_ca_name_attribute,
}
use pyadcs_connector.Attribute.Raprofile.{
  get_select_ca_method_attribute, get_authority_uuid_attribute, get_ca_select_group_attribute,
  get_template_name_attribute, get_raprofile_config_string_attribute,
  get_raprofile_ca_name_attribute,
}
use pyadcs_connector.Db.Authorities.{AuthorityInstance, Authorities}
use pyadcs_connector.Authority.{get_cas, run_by_uuid}
use pyadcs_connector.Authority.Sessions.{SessionConfig}
use pyadcs_connector.Remoting.Session.{Protocol, Remote, ◌>>=◌, local_step}
use pyadcs_connector.Remoting.Scripts.Listing.{get_templates_script}

-- The status that `process_exception` answers an exception with.
unfoldable pub process_exception : Exception → ℕ
process_exception not_found_exception = 404
process_exception validation_exception = 422
process_exception (winrm_execution_exception _) = 400
process_exception authority_exception = 400
process_exception discovery_exception = 400
process_exception _ = 500

-- A response: its status and, where it has one, its list.
abbrev pub Answer : Type 0
Answer = ℕ × List Value

-- `except ValueError`
abbrev pub or_bad_request : Result (List Value) → Result Answer
or_bad_request (ok attributes) = ok (200, attributes)
or_bad_request (err value_error) = ok (400, [])
or_bad_request (err e) = err e

unfoldable pub get_authority_attributes : Text → Result Answer
get_authority_attributes kind = or_bad_request (get_authority_attributes_list kind)

-- `AuthorityInstance.objects.filter(kind=kind)`
abbrev instances_of : Text → Authorities → List (Text × Text)
instances_of kind table =
    map (λ (a : AuthorityInstance). (a.uuid, a.name))
      (select (λ (a : AuthorityInstance). text_eq a.kind kind) table.rows)

unfoldable pub get_discovery_attributes : Authorities → Text → Result Answer
get_discovery_attributes table kind =
    or_bad_request (get_discovery_attributes_list (instances_of kind table) kind)

unfoldable pub get_winrm_transport_configuration : Text → Value → Result Answer
get_winrm_transport_configuration kind winrm_transport =
    or_bad_request (get_winrm_transport_configuration_attributes_list kind winrm_transport)

module _ (winrm : SessionConfig → Protocol) where
  unfoldable pub get_raprofile_attributes_list : Authorities → Text → Remote (List Value)
  get_raprofile_attributes_list table uuid = do
    result ← run_by_uuid winrm table uuid get_templates_script
    templates ← local_step (parse_template_data result)
    local_step (
        ok (
          get_select_ca_method_attribute
          ∷ get_authority_uuid_attribute uuid
          ∷ get_ca_select_group_attribute
          ∷ get_template_name_attribute templates
          ∷ []))

  -- `eval` is Python's, on the words for the truth values.
  module _ (eval : Text → Result Value) where
    -- The two callbacks differ in the attributes that they answer with.
    abbrev ca_select_configuration :
        Value → (Value → Value) → Text → Authorities → Text → Remote (List Value)
    ca_select_configuration config_string_attribute ca_name_attribute ca_select_method table uuid =
        let searched : Remote (List Value) = (do
          cas ← get_cas winrm eval table uuid
          local_step (ok (ca_name_attribute (list cas) ∷ []))) in
        if text_eq ca_select_method (method configstring)
        then local_step (ok (config_string_attribute ∷ []))
        else if text_eq ca_select_method (method search_method)
        then searched
        else local_step (err generic_exception)

    unfoldable pub get_discovery_ca_select_configuration :
        Text → Authorities → Text → Remote (List Value)
    get_discovery_ca_select_configuration =
        ca_select_configuration get_discovery_config_string_attribute
          get_discovery_ca_name_attribute

    unfoldable pub get_raprofile_ca_select_configuration :
        Text → Authorities → Text → Remote (List Value)
    get_raprofile_ca_select_configuration =
        ca_select_configuration get_raprofile_config_string_attribute
          get_raprofile_ca_name_attribute
