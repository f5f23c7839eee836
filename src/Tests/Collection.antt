-- ===== src/Tests/Collection.antt =====
-- A server with one certificate, collected in pages of two.
use pyadcs_connector.Prelude.{
  String, zero, suc, ℕ, List, [], ◌∷◌, map, none, some, Option, Result, ok, err, value_error,
  index_error, ◌≡◌, ◌≤◌, ◌*◌, arith, refl,
}
use pyadcs_connector.Prelude.Pages.{page}
use pyadcs_connector.Text.{Text, codes, join, text_eq, split}
use pyadcs_connector.Attribute.CaSelect.{method}
use pyadcs_connector.Json.{
  Value, str, arr, obj, field, end, of_list, iterate, get, is_text, lookup, truthy, len, get_first,
}
use pyadcs_connector.Dump.{Response, AuthorityData, TemplateData, ParseResult}
use pyadcs_connector.Dump.Certificate.RoundTrip.{result_of}
use pyadcs_connector.Remoting.{check_result, run_ps}
use pyadcs_connector.Discovery.Collect.{
  ca_of_parts, chosen_cas, rounds, dump, collect_cas, ca_of_config_string,
}
use pyadcs_connector.Discovery.Collect.Laws.{Serves, rows_of, collect_complete}
use pyadcs_connector.Discovery.Collect.ConfigString.{ca_named, config_string_cases}
use pyadcs_connector.Tests.Dumps.{row, response, printed_rows, rows_parsed}
use pyadcs_connector.Tests.Database.{ca, history, database, digest, uuid_of, message}
use pyadcs_connector.Db.{Db}
use pyadcs_connector.Db.Rows.{find}
use pyadcs_connector.Attribute.Access.{
  get_attribute_value, get_attribute_value_list, find_value, find_values, is_named, has_contents,
}
use pyadcs_connector.Dump.Dicts.{from_dicts}
use pyadcs_connector.Discovery.Persist.Laws.{Persisted}
use pyadcs_connector.Discovery.Run.{run_discovery, run_discovery_completes}

abbrev powershell : Text → Result Response
powershell script = ok (response printed_rows)

abbrev no_eval : Text → Result Value
no_eval s = err value_error

abbrev pub formatted : Value → Text
formatted (str s) = s
formatted _ = []

abbrev stored : AuthorityData → Option TemplateData → List ParseResult
stored _ t = map result_of (row "MIIC7j" "5g==" ∷ [])

served :
    (c : AuthorityData) (k : ℕ)
    → k * 2 ≤ 1
    → dump powershell no_eval formatted c none (str []) 2 (suc k) ≡ ok (page 2 k (stored c none))
unfolding dump run_ps check_result
served c zero h = rows_parsed
served c (suc k) h = absurd (omega (arith, h))

one-Serves : (c : AuthorityData) → Serves powershell no_eval formatted stored (str []) 1 2 c none
one-Serves c = record { answers = served c; enough_fuel = omega arith }

collect_complete_example :
    collect_cas powershell no_eval formatted 1 (str []) 2 (none ∷ []) (ca ∷ [])
    ≡ some (ok (rows_of stored (none ∷ []) (ca ∷ [])))
collect_complete_example =
    collect_complete powershell no_eval formatted stored (str []) 1 2 (none ∷ []) (ca ∷ [])
      ((one-Serves ca, tt), tt)

config_string_cases_example :
    (ca_of_config_string (str (join (codes "\\") (codes "host" ∷ codes "CA" ∷ [])))
      ≡ ok (ca_named (codes "host") (codes "CA")))
    × (ca_of_config_string (str (codes "host")) ≡ err index_error)
config_string_cases_example =
    config_string_cases (codes "host") (codes "CA") (ground arith) (ground arith)

abbrev value_of : String → String → Value
value_of name content = obj (
    field (codes "name") (str (codes name)) (
      field (codes "content")
        (arr (of_list (obj (field (codes "data") (str (codes content)) end) ∷ []))) end))

-- A request for the one CA of a config string, all templates and all days.
abbrev attributes : Value
attributes = arr (
    of_list (
      value_of "discovery_select_ca_method" "configstring"
      ∷ value_of "discovery_config_string" "host\\CA"
      ∷ []))

abbrev the_ca : AuthorityData
the_ca = ca_named (codes "host") (codes "CA")

run_discovery_completes_example :
    (db' : Db) × (run_discovery powershell no_eval formatted digest uuid_of message 1
        (ok tt)
        (ok tt)
        (ok tt)
        2
        (history 2 "u2" "second" "inProgress")
        attributes
        database
      ≡ some db')
    × Persisted digest uuid_of the_ca 2 (rows_of stored (rounds []) (the_ca ∷ [])) database db'
unfolding find chosen_cas get_attribute_value get_attribute_value_list find_value find_values
    from_dicts rounds join iterate is_named get is_text lookup text_eq has_contents truthy len
    get_first method split ca_of_config_string ca_of_parts
run_discovery_completes_example =
    run_discovery_completes powershell no_eval formatted digest uuid_of message stored 1 2
      attributes (str []) the_ca [] [] [] refl refl refl refl ((one-Serves the_ca, tt), tt)
      (history 2 "u2" "second" "inProgress") database refl
