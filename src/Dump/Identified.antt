-- ===== src/Dump/Identified.antt =====
-- `DumpParser.parse_identified_certificates`
pub mod Laws
use pyadcs_connector.Prelude.{List, [], ◌∷◌, ◌++◌, Result, ok, ◌>>=◌, if◌then◌else◌, ◌>>◌}
use pyadcs_connector.Text.{Text, codes, starts_with}
use pyadcs_connector.Dump.{Response, IdentifiedCertificate, lines_of, get_value_from_line}

-- The variables of the loop: the list, and what the next record has so far.
pub record Scan : Type 0 where
  pub result : List IdentifiedCertificate
  pub certificate : IdentifiedCertificate

abbrev pub start : List IdentifiedCertificate → Scan
start result = record {
  result = result;
  certificate = record { certificate_template = []; serial_number = []; config_string = [] };
}

-- The config string ends a record, whichever of the other values stand before it.
unfoldable pub scan_line : Scan → Text → Result Scan
scan_line s line =
    let c = s.certificate in
    if starts_with (codes "SerialNumber ") line
    then (do
      v ← get_value_from_line line
      ok (record s { certificate = record c { serial_number = v } }))
    else if starts_with (codes "CertificateTemplate ") line
    then (do
      v ← get_value_from_line line
      ok (record s { certificate = record c { certificate_template = v } }))
    else if starts_with (codes "ConfigString ") line
    then (do
      v ← get_value_from_line line
      ok (start (s.result ++ record c { config_string = v } ∷ [])))
    else ok s

unfoldable pub scan : Scan → List Text → Result Scan
scan s [] = ok s
scan s (line ∷ lines) = do s' ← scan_line s line; scan s' lines

unfoldable pub parse_identified_certificates : Response → Result (List IdentifiedCertificate)
parse_identified_certificates r = do lines ← lines_of r; s ← scan (start []) lines; ok s.result
