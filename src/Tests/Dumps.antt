-- ===== src/Tests/Dumps.antt =====
-- Printed records, and what the parsers make of them.
use pyadcs_connector.Text.{Text, codes, is_space, lstrip, rstrip, strip, starts_with, join}
use pyadcs_connector.Text.Lines.{newline}
use pyadcs_connector.Prelude.{
  All, String, ◌≡◌, refl, true, false, List, [], ◌∷◌, ◌++◌, map, arith, ok,
}
use pyadcs_connector.Text.Utf8.{decode}
use pyadcs_connector.Dump.{Response}
use pyadcs_connector.Dump.Dicts.{
  to_dict, from_dicts, authority_to_dict, authority_from_dicts, from_dicts-to_dicts,
}
use pyadcs_connector.Dump.Format.{line_end, Prints}
use pyadcs_connector.Dump.Template
use pyadcs_connector.Dump.Template.{template_of, parse_template_data}
use pyadcs_connector.Dump.Template.RoundTrip.{IsListed, templates_lines, parse-templates_lines}
use pyadcs_connector.Dump.Certificate.{parse_certificates}
use pyadcs_connector.Dump.Certificate.RoundTrip.{
  IsRow, Row, result_of, rows_lines, open_lines, parse-rows_lines, parse-rows_lines_open,
}

abbrev frame : Text
frame = codes "\r\n\r\n"

abbrev pub response : List Text → Response
response lines = record {
  status_code = 0;
  std_out = frame ++ (join newline lines ++ frame);
  std_err = [];
}

abbrev template : String → String → Template.Scan
template name oid = record {
  result = [];
  name = codes name;
  display_name = codes name;
  schema_version = codes "2";
  version = codes "100.3";
  oid = codes oid;
}

abbrev templates : List Template.Scan
templates = template "Web Server" "1.3.6.1" ∷ template "User" "1.3.6.2" ∷ []

templates-Prints :
    Prints (response (templates_lines true templates)) (templates_lines true templates)
unfolding decode join is_space
templates-Prints = record {
  lead = frame;
  trail = frame;
  lead_blank = (refl, (refl, (refl, (refl, tt))));
  trail_blank = (refl, (refl, (refl, (refl, tt))));
  decoded = refl;
}

templates-IsListed : All IsListed templates
unfolding strip lstrip rstrip is_space
templates-IsListed = (
  record {
    name_ok = (refl, ground arith);
    display_name_ok = (refl, ground arith);
    schema_version_ok = (refl, ground arith);
    version_ok = (refl, ground arith);
    oid_ok = (refl, ground arith);
    oid_ne_nil = λ e. cc;
  },
  (
    record {
      name_ok = (refl, ground arith);
      display_name_ok = (refl, ground arith);
      schema_version_ok = (refl, ground arith);
      version_ok = (refl, ground arith);
      oid_ok = (refl, ground arith);
      oid_ne_nil = λ e. cc;
    },
    tt,
  ),
)

parse-templates_lines_example :
    parse_template_data (response (templates_lines true templates)) ≡ ok (map template_of templates)
parse-templates_lines_example =
    parse-templates_lines (response (templates_lines true templates)) true templates
      templates-IsListed templates-Prints

abbrev pub row : String → String → Row
row first last = record {
  before = codes "RequestID                  : 710" ∷ [];
  template = codes "WebServer";
  between = [];
  first = codes first;
  more = codes last ∷ [];
  closing = codes "CertificateTemplateOid     : WebServer";
}

row-IsRow : IsRow (row "MIIC7j" "5g==")
unfolding starts_with strip lstrip rstrip is_space
row-IsRow = record {
  before_ok = ((refl, refl), tt);
  template_ok = refl;
  between_ok = tt;
  first_ok = record {
    stripped = refl;
    no_dash = ground arith;
    no_return = ground arith;
    no_newline = ground arith;
  };
  more_ok = (
    record {
      stripped = refl;
      no_dash = ground arith;
      no_return = ground arith;
      no_newline = ground arith;
    },
    tt,
  );
  closing_ok = (refl, refl);
  closing_outdented = refl;
}

abbrev pub printed_rows : List Text
printed_rows = rows_lines (line_end true) (row "MIIC7j" "5g==" ∷ []) (codes "RowId : 710" ∷ [])

rows-Prints : Prints (response printed_rows) printed_rows
unfolding decode join is_space
rows-Prints = record {
  lead = frame;
  trail = frame;
  lead_blank = (refl, (refl, (refl, (refl, tt))));
  trail_blank = (refl, (refl, (refl, (refl, tt))));
  decoded = refl;
}

pub rows_parsed :
    parse_certificates (response printed_rows) ≡ ok (map result_of (row "MIIC7j" "5g==" ∷ []))
unfolding rstrip is_space starts_with
rows_parsed =
    parse-rows_lines (response printed_rows) true (row "MIIC7j" "5g==" ∷ [])
      (codes "RowId : 710" ∷ []) (row-IsRow, tt) ((refl, refl), tt) rows-Prints refl (refl, λ e. cc)
      (ground arith)

parse-rows_lines_example :
    parse_certificates (response printed_rows) ≡ ok (map result_of (row "MIIC7j" "5g==" ∷ []))
unfolding rstrip is_space starts_with
parse-rows_lines_example =
    parse-rows_lines (response printed_rows) true (row "MIIC7j" "5g==" ∷ [])
      (codes "RowId : 710" ∷ []) (row-IsRow, tt) ((refl, refl), tt) rows-Prints refl (refl, λ e. cc)
      (ground arith)

abbrev printed_open : List Text
printed_open = rows_lines [] [] (open_lines [] (row "MIIC7j" "5g==") [])

open-Prints : Prints (response printed_open) printed_open
unfolding decode join is_space
open-Prints = record {
  lead = frame;
  trail = frame;
  lead_blank = (refl, (refl, (refl, (refl, tt))));
  trail_blank = (refl, (refl, (refl, (refl, tt))));
  decoded = refl;
}

parse-rows_lines_open_example : parse_certificates (response printed_open) ≡ ok []
unfolding rstrip is_space
parse-rows_lines_open_example =
    parse-rows_lines_open (response printed_open) false [] (row "MIIC7j" "5g==") tt row-IsRow
      open-Prints refl (refl, λ e. cc) (ground arith)

from_dicts-to_dicts_example :
    (from_dicts (map to_dict (map template_of templates)) ≡ ok (map template_of templates))
    × (authority_from_dicts (map authority_to_dict []) ≡ ok [])
from_dicts-to_dicts_example = from_dicts-to_dicts (map template_of templates) []
