-- ===== src/Certificates/Requests.antt =====
-- services/certificate_management.py: what is read from a request, and from the server's answer.
use pyadcs_connector.Prelude.{
  ℕ, zero, suc, List, [], ◌∷◌, ◌++◌, ◌+◌, ◌/◌, ◌%◌, ◌||◌, Result, ok, err, ◌>>=◌, if◌then◌else◌,
  is_empty, ltb, generic_exception, type_error, validation_exception, not_found_exception, ◌-◌,
}
use pyadcs_connector.Text.{Text, codes, concat}
use pyadcs_connector.Text.Utf8.{decode}
use pyadcs_connector.Text.SplitLines.{splitlines}
use pyadcs_connector.Json.{
  Value, str, arr, null, obj, end, field, of_list, get_item, is_text, truthy,
}
use pyadcs_connector.Dump.{Response, AuthorityData, TemplateData, IdentifiedCertificate}
use pyadcs_connector.Dump.Dicts.{authority_from_dict, from_dict}
use pyadcs_connector.Attribute.Access.{get_attribute_value}
use pyadcs_connector.Attribute.CaSelect.{search_method, configstring, method}
use pyadcs_connector.Attribute.Raprofile.{
  raprofile_select_ca_method_attribute_name, raprofile_ca_name_attribute_name,
  raprofile_configstring_attribute_name, raprofile_template_name_attribute_name,
}
use pyadcs_connector.Discovery.Collect.{ca_of_config_string}

-- The message of the exception is a text and the method; only texts can be added to a text.
abbrev unknown_method : Value → Result AuthorityData
unknown_method (str _) = err generic_exception
unknown_method _ = err type_error

-- `request_dto["raProfileAttributes"]`, and the attribute of this name in it.
abbrev pub raprofile_value : Value → Text → Result Value
raprofile_value request_dto name = do
  attributes ← get_item request_dto (codes "raProfileAttributes")
  get_attribute_value name attributes

unfoldable pub get_ca_from_attributes : Value → Result AuthorityData
get_ca_from_attributes request_dto = do
  select_ca_method ← raprofile_value request_dto raprofile_select_ca_method_attribute_name
  if is_text select_ca_method (method search_method)
      then (do
        ca ← raprofile_value request_dto raprofile_ca_name_attribute_name
        authority_from_dict ca)
      else if is_text select_ca_method (method configstring)
      then (do
        config_string ← raprofile_value request_dto raprofile_configstring_attribute_name
        if truthy config_string then ca_of_config_string config_string else err generic_exception)
      else unknown_method select_ca_method

-- `TemplateData.from_dict(…)`
unfoldable pub template_of : Value → Result TemplateData
template_of request_dto = do
  template ← raprofile_value request_dto raprofile_template_name_attribute_name
  from_dict template

pub data CertificateRequestFormat : Type 0 where
  crmf pkcs10 : CertificateRequestFormat

-- The message of `ValidationException` is a text and the format.
abbrev unsupported : Value → Result CertificateRequestFormat
unsupported (str _) = err validation_exception
unsupported _ = err type_error

unfoldable pub certificate_request_format : Value → Result CertificateRequestFormat
certificate_request_format v =
    if is_text v (codes "crmf")
    then ok crmf
    else if is_text v (codes "pkcs10")
    then ok pkcs10
    else unsupported v

unfoldable pub get_certificate_data : Response → Result Text
get_certificate_data result = do
  input_string ← decode result.std_out
  ok (concat (splitlines input_string))

-- `CertificateDto(certificate, None, None)`; its certificate type is the default.
pub record CertificateDto : Type 0 where
  pub certificate_data : Text
  pub uuid : Value
  pub meta : Value

-- The end of `issue_new_certificate`.
unfoldable pub issued : Response → Result CertificateDto
issued result = do
  certificate ← get_certificate_data result
  if is_empty certificate
      then err validation_exception
      else ok (record { certificate_data = certificate; uuid = null; meta = null })

-- `response["meta"] = []`
abbrev pub no_meta : Value
no_meta = obj (field (codes "meta") (arr (of_list [])) end)

-- The end of `identify`.
unfoldable pub identified : TemplateData → List IdentifiedCertificate → Result Value
identified template [] = err not_found_exception
identified template (c ∷ []) =
    if is_text template.oid c.certificate_template || is_text template.name c.certificate_template
    then ok no_meta
    else err validation_exception
identified template (_ ∷ _ ∷ _) = err validation_exception

-- The key that a reason is in the dictionary of the reasons. A value that is no text is no key, as
-- the empty text is none; lists and dictionaries, which cannot be keys, are left out.
unfoldable pub reason_key : Value → Text
reason_key (str reason) = reason
reason_key _ = []

-- `'{0:x}'.format(n)`
abbrev pub hex_digit : ℕ → ℕ
hex_digit d = if ltb d 10 then b'0' + d else b'a' + (d - 10)

abbrev pub hex_on : ℕ → ℕ → Text
hex_on zero n = []
hex_on (suc fuel) n =
    let rest = hex_on fuel (n / 16) in
    if ltb n 16 then hex_digit n ∷ [] else rest ++ (hex_digit (n % 16) ∷ [])

-- As many rounds as the number is large are more than it has digits.
unfoldable pub hex : ℕ → Text
hex n = hex_on (suc n) n

-- `x509_serial_number` is the serial number of a base64 encoded certificate.
abbrev pub get_certificate_serial_number : (Value → Result ℕ) → Value → Result Text
get_certificate_serial_number x509_serial_number certificate = do
  serial_number ← x509_serial_number certificate
  ok (hex serial_number)

-- The request as the script has it: a CRMF request goes into a CMS one, and an f-string formats it.
unfoldable pub encoded_request :
    (Value → Text)
    → (Value → Value → TemplateData → Result Text)
    → CertificateRequestFormat
    → Value
    → AuthorityData
    → TemplateData
    → Result Text
encoded_request formatted create_cms crmf request ca template = create_cms request ca.name template
encoded_request formatted create_cms pkcs10 request ca template = ok (formatted request)
