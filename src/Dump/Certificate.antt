-- ===== src/Dump/Certificate.antt =====
-- `DumpParser.parse_certificates`
pub mod RoundTrip
use pyadcs_connector.Text.{Text, codes, strip, starts_with, split_once, remove, concat}
use pyadcs_connector.Prelude.{
  Bool, true, false, if◌then◌else◌, Result, ◌>>=◌, ◌&&◌, List, [], ◌∷◌, ◌++◌, ok, ◌>>◌,
}
use pyadcs_connector.Dump.{Response, ParseResult, lines_of, get_value_from_line}

-- The variables of the loop.
pub record Scan : Type 0 where
  pub result : List ParseResult
  pub in_cert : Bool
  pub cert : List Text
  pub template : Text

abbrev pub start : List ParseResult → Scan
start result = record { result = result; in_cert = false; cert = []; template = [] }

-- `cert_data`: the collected lines, joined, without armour and line ends
unfoldable pub cert_data : List Text → Text
cert_data cert = remove (codes "\n") (
    remove (codes "\r") (
      remove (codes "-----END CERTIFICATE-----")
        (remove (codes "-----BEGIN CERTIFICATE-----") (concat cert))))

-- The last branch: a line that belongs to no certificate ends the one that is being read.
unfoldable pub end_certificate : Scan → Scan
end_certificate s =
    if s.in_cert
    then start (s.result ++ record { template = s.template; certificate = cert_data s.cert } ∷ [])
    else record s { in_cert = false }

unfoldable pub scan_line : Scan → Text → Result Scan
unfolding starts_with split_once get_value_from_line end_certificate
scan_line s line =
    if s.in_cert && starts_with (codes "      ") line
    then ok (record s { cert = s.cert ++ strip line ∷ [] })
    else if starts_with (codes "CertificateTemplate ") line
    then (do v ← get_value_from_line line; ok (record s { template = v }))
    else if starts_with (codes "RawCertificate ") line
    then (do
      v ← get_value_from_line line
      ok (record s { cert = s.cert ++ v ∷ []; in_cert = true }))
    else ok (end_certificate s)

unfoldable pub scan : Scan → List Text → Result Scan
scan s [] = ok s
scan s (line ∷ lines) = do s' ← scan_line s line; scan s' lines

unfoldable pub parse_certificates : Response → Result (List ParseResult)
parse_certificates r = do lines ← lines_of r; s ← scan (start []) lines; ok s.result
