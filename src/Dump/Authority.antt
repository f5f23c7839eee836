-- ===== src/Dump/Authority.antt =====
-- `DumpParser.parse_authority_data`
use pyadcs_connector.Prelude.{List, [], ◌∷◌, ◌++◌, Result, ok, ◌>>=◌, if◌then◌else◌}
use pyadcs_connector.Text.{Text, codes, starts_with}
use pyadcs_connector.Json.{Value, str}
use pyadcs_connector.Dump.{Response, AuthorityData, lines_of, get_value_from_line}

-- The variables of the loop: the list, and what the next record has so far.
pub record Scan : Type 0 where
  pub result : List AuthorityData
  pub authority : AuthorityData

abbrev pub blank : AuthorityData
blank = record {
  name = str [];
  display_name = str [];
  computer_name = str [];
  config_string = str [];
  ca_type = str [];
  is_enterprise = str [];
  is_root = str [];
  is_accessible = str [];
  service_status = str [];
}

abbrev pub start : List AuthorityData → Scan
start result = record { result = result; authority = blank }

-- `eval` is Python's, of the texts that PowerShell prints for its Boolean values.
module _ (eval : Text → Result Value) where
  unfoldable pub scan_line : Scan → Text → Result Scan
  scan_line s line =
      let a = s.authority in
      let put : AuthorityData → Scan = λ next. record s { authority = next } in
      if starts_with (codes "Name ") line
      then (do v ← get_value_from_line line; ok (put (record a { name = str v })))
      else if starts_with (codes "DisplayName ") line
      then (do v ← get_value_from_line line; ok (put (record a { display_name = str v })))
      else if starts_with (codes "ComputerName ") line
      then (do v ← get_value_from_line line; ok (put (record a { computer_name = str v })))
      else if starts_with (codes "ConfigString ") line
      then (do v ← get_value_from_line line; ok (put (record a { config_string = str v })))
      else if starts_with (codes "Type ") line
      then (do v ← get_value_from_line line; ok (put (record a { ca_type = str v })))
      else if starts_with (codes "IsEnterprise ") line
      then (do v ← get_value_from_line line; b ← eval v; ok (put (record a { is_enterprise = b })))
      else if starts_with (codes "IsRoot ") line
      then (do v ← get_value_from_line line; b ← eval v; ok (put (record a { is_root = b })))
      else if starts_with (codes "IsAccessible ") line
      then (do v ← get_value_from_line line; b ← eval v; ok (put (record a { is_accessible = b })))
      else if starts_with (codes "ServiceStatus ") line
      then (do
        v ← get_value_from_line line
        ok (start (s.result ++ record a { service_status = str v } ∷ [])))
      else ok s

  unfoldable pub scan : Scan → List Text → Result Scan
  scan s [] = ok s
  scan s (line ∷ lines) = do s' ← scan_line s line; scan s' lines

  unfoldable pub parse_authority_data : Response → Result (List AuthorityData)
  parse_authority_data r = do lines ← lines_of r; s ← scan (start []) lines; ok s.result
