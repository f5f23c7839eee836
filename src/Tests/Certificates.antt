-- ===== src/Tests/Certificates.antt =====
-- One certificate that is issued and identified, and the advertised endpoints.
use pyadcs_connector.Prelude.{
  List, [], ◌∷◌, ok, err, count, all, is_empty, not, All, ◌≡◌, ◌↔◌, refl, validation_exception,
  not_found_exception, if◌then◌else◌, true,
}
use pyadcs_connector.Text.{
  Text, codes, strip, split, split_once, starts_with, text_eq, lstrip, rstrip, is_space,
}
use pyadcs_connector.Text.Utf8.{decode}
use pyadcs_connector.Json.{Value, null, str, of_list}
use pyadcs_connector.Dump.{
  Response, TemplateData, IdentifiedCertificate, lines_of, get_value_from_line,
}
use pyadcs_connector.Dump.Identified.{scan, scan_line, parse_identified_certificates}
use pyadcs_connector.Dump.Identified.Laws.{is_config_line}
use pyadcs_connector.Attribute.Build.{dict, list}
use pyadcs_connector.Dump.Dicts.{to_dict}
use pyadcs_connector.Json.{arr, of_list, get_item, lookup}
use pyadcs_connector.Remoting.Session.Closed.{Closes}
use pyadcs_connector.Certificates.{issue, renew, revoke, identify}
use pyadcs_connector.Prelude.{some, none, pos}
use pyadcs_connector.Text.{text_eq}
use pyadcs_connector.Cms.Structures.{Asn1, octets}
use pyadcs_connector.Views.Offered.{attributes_of, searched-reads}
use pyadcs_connector.Attribute.CaSelect.{search_method, method_content}
use pyadcs_connector.Attribute.Raprofile.{
  template_content, raprofile_select_ca_method_attribute_name, raprofile_ca_name_attribute_name,
  raprofile_template_name_attribute_name,
}
use pyadcs_connector.Authority.{authority_content}
use pyadcs_connector.Tests.Database.{ca}
use pyadcs_connector.Certificates.Requests.{
  get_ca_from_attributes, template_of, issued, identified, no_meta,
}
use pyadcs_connector.Certificates.Laws.{issued-unbroken, identified_iff, is_template_of, unbroken}
use pyadcs_connector.Certificates.Closed.{operations-Closes}
use pyadcs_connector.Routes.{dispatch}
use pyadcs_connector.Routes.Endpoints.{asked, function_groups}
use pyadcs_connector.Routes.Laws.{is_handled, is_unserved, endpoints_handled}
use pyadcs_connector.Tests.Sessions.{answer, others, quiet, seventh-IsFresh, after, attribute}
use pyadcs_connector.Tests.Collection.{formatted}
use pyadcs_connector.Db.Authorities.{Authorities}

abbrev printed : Response
printed = answer 0 "SerialNumber : 5a\nCertificateTemplate : WebServer\nConfigString : host\\CA"

abbrev web_server : IdentifiedCertificate
web_server = record {
  certificate_template = codes "WebServer";
  serial_number = codes "5a";
  config_string = codes "host\\CA";
}

abbrev lines : List Text
lines =
    codes "SerialNumber : 5a"
    ∷ codes "CertificateTemplate : WebServer"
    ∷ codes "ConfigString : host\\CA"
    ∷ []

printed-lines : lines_of printed ≡ ok lines
unfolding lines_of decode strip lstrip rstrip is_space split
printed-lines = refl

printed_parsed : parse_identified_certificates printed ≡ ok (web_server ∷ [])
unfolding lines_of decode strip lstrip rstrip is_space split parse_identified_certificates scan
    scan_line starts_with get_value_from_line split_once
printed_parsed = refl

abbrev web_template : TemplateData
web_template = record {
  name = str (codes "WebServer");
  display_name = str (codes "Web Server");
  schema_version = str (codes "1");
  version = str (codes "4.1");
  oid = str (codes "1.2.3");
}

identified_iff_example :
    ((identified web_template (web_server ∷ []) ≡ err not_found_exception)
      ↔ (count is_config_line lines ≡ 0))
    × ((identified web_template (web_server ∷ []) ≡ ok no_meta) ↔ (
        (count is_config_line lines ≡ 1)
        × (all (is_template_of web_template) (web_server ∷ []) ≡ true)))
identified_iff_example =
    identified_iff web_template printed lines (web_server ∷ []) printed-lines printed_parsed

issued-unbroken_example : issued (answer 0 "MIIC\r\n5g==\n") ≡ (
    if is_empty (unbroken (codes "MIIC\r\n5g==\n"))
    then err validation_exception
    else ok
        (record { certificate_data = unbroken (codes "MIIC\r\n5g==\n"); uuid = null; meta = null }))
unfolding decode
issued-unbroken_example = issued-unbroken (answer 0 "MIIC\r\n5g==\n") (codes "MIIC\r\n5g==\n") refl

abbrev table : Authorities
table = record { rows = after ∷ []; seq = 1 }

abbrev request_dto : Value
request_dto = dict (
    (codes "request", str (codes "MIIB"))
    ∷ (codes "format", str (codes "pkcs10"))
    ∷ (codes "certificate", str (codes "MIIC"))
    ∷ (codes "reason", str (codes "keyCompromise"))
    ∷ (
      codes "raProfileAttributes",
      arr (
          of_list (
            attribute "raprofile_select_ca_method" (str (codes "configstring"))
            ∷ attribute "raprofile_config_string" (str (codes "host\\CA"))
            ∷ attribute "raprofile_template_name" (to_dict web_template)
            ∷ [])),
    )
    ∷ [])

operations-Closes_example :
    Closes others
      (issue quiet formatted (λ _. ok 90) (λ _ _ _. ok []) 100 3000 table request_dto (codes "u1"))
    × Closes others (
        renew quiet formatted (λ _. ok 90) (λ _ _ _. ok []) 100 3000 table request_dto (codes "u1"))
    × Closes others (
        revoke quiet formatted
          (λ _. ok 90)
          (λ _ _ _. ok [])
          100
          3000
          table
          request_dto
          (codes "u1"))
    × Closes others (
        identify quiet formatted
          (λ _. ok 90)
          (λ _ _ _. ok [])
          100
          3000
          table
          request_dto
          (codes "u1"))
operations-Closes_example =
    operations-Closes quiet formatted (λ _. ok 90) (λ _ _ _. ok []) 100 3000 others
      (λ _. seventh-IsFresh (answer 0 "")) table (codes "u1") request_dto

endpoints_handled_example :
    All
      (λ e. is_handled (dispatch e.method (asked (codes "u1") e)) ≡ not (is_unserved e))
      function_groups
unfolding text_eq
endpoints_handled_example = endpoints_handled (codes "u1") refl (refl, (refl, tt)) refl

abbrev choices : List (Text × Value)
choices =
    (raprofile_template_name_attribute_name, template_content web_template)
    ∷ (codes "comment", null)
    ∷ (raprofile_ca_name_attribute_name, authority_content ca)
    ∷ (raprofile_select_ca_method_attribute_name, method_content search_method)
    ∷ []

abbrev searched_request : Value
searched_request = dict ((codes "raProfileAttributes", list (attributes_of choices)) ∷ [])

searched-reads_example :
    (get_ca_from_attributes searched_request ≡ ok ca)
    × (template_of searched_request ≡ ok web_template)
unfolding get_item lookup text_eq
searched-reads_example = searched-reads ca web_template searched_request choices refl refl refl refl

-- A library that encodes everything but the outermost structure as nothing.
abbrev library : Asn1
library = record {
  load = λ _. ok (record {
    subject = codes "subject";
    public_key = codes "key";
    extensions = some (
        record { extn_id = codes "2.5.29.17"; critical = none; extn_value = octets (codes "names") }
        ∷ []);
  });
  int = λ _. ok (pos 4);
  dump_template_oid = λ _. ok (codes "oid");
  dump_request_info = λ _. ok (codes "info");
  dump_pki_data = λ _. ok (codes "data");
  dump_signed_attrs = λ _. ok (codes "attributes");
  dump_content_info = λ _. ok (codes "MIIC");
  sha256 = λ b. b;
  b64encode = λ b. b;
}
