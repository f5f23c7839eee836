-- ===== src/Discovery/Collect.antt =====
-- The part of `discover_certificates` before its transaction: the choice of the CAs and the
-- collection of the certificates, page by page.
pub mod Laws
pub mod ConfigString
use pyadcs_connector.Prelude.{
  ℕ, zero, suc, List, [], ◌∷◌, ◌++◌, Option, none, some, Result, ok, err, ◌>>=◌, if◌then◌else◌,
  length, ◌==◌, map, is_empty, index_error, attribute_error, generic_exception, ◌||◌, not, ◌>>◌,
}
use pyadcs_connector.Text.{Text, split}
use pyadcs_connector.Json.{Value, null, str, truthy, is_text}
use pyadcs_connector.Dump.{Response, AuthorityData, TemplateData, ParseResult}
use pyadcs_connector.Dump.Dicts.{authority_from_dicts, from_dicts}
use pyadcs_connector.Dump.Certificate.{parse_certificates}
use pyadcs_connector.Dump.Authority.{parse_authority_data}
use pyadcs_connector.Attribute.Access.{get_attribute_value, get_attribute_value_list}
use pyadcs_connector.Attribute.CaSelect.{search_method, configstring, method}
use pyadcs_connector.Attribute.Discovery.{
  discovery_select_ca_method_attribute_name, discovery_ca_name_attribute_name,
  discovery_configstring_attribute_name, discovery_template_name_attribute_name,
  discovery_issued_after_attribute_name,
}
use pyadcs_connector.Remoting.{run_ps}
use pyadcs_connector.Remoting.Scripts.{get_cas_script, dump_certificates_script}

-- `config_string.split("\\")`: the host and the name of the CA, which must not be empty.
unfoldable pub ca_of_parts : Text → List Text → Result AuthorityData
ca_of_parts config_string [] = err index_error
ca_of_parts config_string (computer_name ∷ []) = err index_error
ca_of_parts config_string (computer_name ∷ ca_name ∷ rest) =
    if is_empty ca_name || is_empty computer_name
    then err generic_exception
    else ok (record {
      name = str ca_name;
      display_name = str ca_name;
      computer_name = str computer_name;
      config_string = str config_string;
      ca_type = str [];
      is_enterprise = null;
      is_root = null;
      is_accessible = null;
      service_status = null;
    })

-- The value of the request's attribute; only texts have `split`.
unfoldable pub ca_of_config_string : Value → Result AuthorityData
unfolding ca_of_parts
ca_of_config_string (str config_string) = ca_of_parts config_string (split b'\\' config_string)
ca_of_config_string _ = err attribute_error

-- The CAs that the attributes of the request choose; `located` is the look-up of the authority
-- instance of the request.
unfoldable pub chosen_cas : Result (Unit {0}) → Value → Result (List AuthorityData)
chosen_cas located attributes = do
  select_ca_method ← get_attribute_value discovery_select_ca_method_attribute_name attributes
  located
  if is_text select_ca_method (method search_method)
      then (do
        values ← get_attribute_value_list discovery_ca_name_attribute_name attributes
        authority_from_dicts values)
      else if is_text select_ca_method (method configstring)
      then (do
        config_string ← get_attribute_value discovery_configstring_attribute_name attributes
        if not (truthy config_string)
            then err generic_exception
            else (do ca ← ca_of_config_string config_string; ok (ca ∷ [])))
      else err generic_exception

-- `for template in templates`, or one round without a template.
unfoldable pub rounds : List TemplateData → List (Option TemplateData)
rounds [] = none ∷ []
rounds (t ∷ ts) = map some (t ∷ ts)

-- `total_certificates.extend(…)`, then what follows; an exception ends the collection, and `none`
-- is a collection that has run out of fuel.
unfoldable pub extend :
    List ParseResult → Option (Result (List ParseResult)) → Option (Result (List ParseResult))
extend certificates none = none
extend certificates (some (err e)) = some (err e)
extend certificates (some (ok more)) = some (ok (certificates ++ more))

-- The `while` loop of one CA and template, from the page of this number on.
unfoldable pub collect_pages :
    ℕ → (ℕ → Result (List ParseResult)) → ℕ → ℕ → Option (Result (List ParseResult))
collect_pages zero dump page_size page = none
collect_pages (suc fuel) dump page_size page =
    let rest = collect_pages fuel dump page_size (suc page) in
    elim (dump page) [
      | err e ↦ some (err e)
      | ok certificates ↦
          if length certificates == page_size
          then extend certificates rest
          else some (ok certificates)
    ]

-- What the connector does not implement: the commands of a WinRM session, Python's `eval`, and what
-- an f-string makes of a value.
module _ (powershell : Text → Result Response) (eval : Text → Result Value)
    (formatted : Value → Text) where
  unfoldable pub dump :
      AuthorityData → Option TemplateData → Value → ℕ → ℕ → Result (List ParseResult)
  dump ca template issued_after page_size page = do
    result ←
        run_ps powershell
          (dump_certificates_script formatted ca template issued_after page page_size)
    parse_certificates result

  -- One CA after the other; the certificates of an earlier round come first.
  unfoldable pub collect_rounds :
      ℕ
      → Value
      → ℕ
      → AuthorityData
      → List (Option TemplateData)
      → Option (Result (List ParseResult))
      → Option (Result (List ParseResult))
  collect_rounds fuel issued_after page_size ca [] rest = rest
  collect_rounds fuel issued_after page_size ca (t ∷ ts) rest =
      let later = collect_rounds fuel issued_after page_size ca ts rest in
      elim (collect_pages fuel (dump ca t issued_after page_size) page_size 1) [
        | none ↦ none
        | some (err e) ↦ some (err e)
        | some (ok certificates) ↦ extend certificates later
      ]

  unfoldable pub collect_cas :
      ℕ
      → Value
      → ℕ
      → List (Option TemplateData)
      → List AuthorityData
      → Option (Result (List ParseResult))
  collect_cas fuel issued_after page_size templates [] = some (ok [])
  collect_cas fuel issued_after page_size templates (ca ∷ cas) =
      collect_rounds fuel issued_after page_size ca templates
        (collect_cas fuel issued_after page_size templates cas)

  -- Where the request chooses no CA, all of them are asked for.
  unfoldable pub cas_or_all : List AuthorityData → Result (List AuthorityData)
  cas_or_all [] = do result ← run_ps powershell get_cas_script; parse_authority_data eval result
  cas_or_all (ca ∷ cas) = ok (ca ∷ cas)

  -- `disconnected` is the closing of the session, behind the collection.
  abbrev gathered :
      Result (Unit {0})
      → List AuthorityData
      → Option (Result (List ParseResult))
      → Option (Result (List AuthorityData × List ParseResult))
  gathered disconnected cas none = none
  gathered disconnected cas (some (err e)) = some (err e)
  gathered disconnected cas (some (ok certificates)) =
      some (do disconnected; ok (cas, certificates))

  abbrev collect_from :
      Result (Unit {0})
      → ℕ
      → ℕ
      → Result (List AuthorityData × List TemplateData × Value)
      → Option (Result (List AuthorityData × List ParseResult))
  collect_from disconnected fuel page_size (err e) = some (err e)
  collect_from disconnected fuel page_size (ok (cas, templates, issued_after)) =
      gathered disconnected cas (collect_cas fuel issued_after page_size (rounds templates) cas)

  -- `connected` is the opening of the session, and `disconnected` its closing.
  unfoldable pub collect :
      ℕ
      → Result (Unit {0})
      → Result (Unit {0})
      → Result (Unit {0})
      → ℕ
      → Value
      → Option (Result (List AuthorityData × List ParseResult))
  collect fuel located connected disconnected page_size attributes =
      collect_from disconnected fuel page_size (do
        chosen ← chosen_cas located attributes
        values ← get_attribute_value_list discovery_template_name_attribute_name attributes
        templates ← from_dicts values
        issued_after ← get_attribute_value discovery_issued_after_attribute_name attributes
        connected
        cas ← cas_or_all chosen
        ok (cas, templates, issued_after))
