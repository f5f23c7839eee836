-- ===== src/Dump/Template.antt =====
-- `DumpParser.parse_template_data`
pub mod RoundTrip
use pyadcs_connector.Prelude.{List, [], ◌∷◌, ◌++◌, Result, ok, ◌>>=◌, if◌then◌else◌, ◌>>◌}
use pyadcs_connector.Text.{Text, codes, starts_with, split_once}
use pyadcs_connector.Json.{str}
use pyadcs_connector.Dump.{Response, TemplateData, lines_of, get_value_from_line}

-- The variables of the loop.
pub record Scan : Type 0 where
  pub result : List TemplateData
  pub name : Text
  pub display_name : Text
  pub schema_version : Text
  pub version : Text
  pub oid : Text

abbrev pub start : List TemplateData → Scan
start result = record {
  result = result;
  name = [];
  display_name = [];
  schema_version = [];
  version = [];
  oid = [];
}

-- The record that a complete scan adds.
abbrev pub template_of : Scan → TemplateData
template_of s = record {
  name = str s.name;
  display_name = str s.display_name;
  schema_version = str s.schema_version;
  version = str s.version;
  oid = str s.oid;
}

-- One round of the loop. `complete_record` is set and cleared in the same round.
unfoldable pub scan_line : Scan → Text → Result Scan
unfolding starts_with split_once get_value_from_line
scan_line s line =
    if starts_with (codes "Name ") line
    then (do v ← get_value_from_line line; ok (record s { name = v }))
    else if starts_with (codes "DisplayName ") line
    then (do v ← get_value_from_line line; ok (record s { display_name = v }))
    else if starts_with (codes "SchemaVersion ") line
    then (do v ← get_value_from_line line; ok (record s { schema_version = v }))
    else if starts_with (codes "Version ") line
    then (do v ← get_value_from_line line; ok (record s { version = v }))
    else if starts_with (codes "OID ") line
    then (do
      v ← get_value_from_line line
      ok (start (s.result ++ template_of (record s { oid = v }) ∷ [])))
    else ok s

unfoldable pub scan : Scan → List Text → Result Scan
scan s [] = ok s
scan s (line ∷ lines) = do s' ← scan_line s line; scan s' lines

unfoldable pub parse_template_data : Response → Result (List TemplateData)
parse_template_data r = do lines ← lines_of r; s ← scan (start []) lines; ok s.result
