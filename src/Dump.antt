-- ===== src/Dump.antt =====
-- utils/dump_parser.py: the records that the parsers return, and what the parsers share.
pub mod Format
pub mod Dicts
pub mod Template
pub mod Certificate
pub mod Authority
pub mod Identified
use pyadcs_connector.Prelude.{
  ℕ, List, Option, none, some, Result, ok, err, value_error, ◌>>=◌, ◌>>◌,
}
use pyadcs_connector.Text.{Text, strip, split, split_once}
use pyadcs_connector.Text.Utf8.{Bytes, decode}
use pyadcs_connector.Json.{Value}

-- What `run_ps` returns: `winrm.Response`.
pub record Response : Type 0 where
  pub status_code : ℕ
  pub std_out : Bytes
  pub std_err : Bytes

pub record ParseResult : Type 0 where
  pub template : Text
  pub certificate : Text

pub record IdentifiedCertificate : Type 0 where
  pub certificate_template : Text
  pub serial_number : Text
  pub config_string : Text

-- Built by the parser from texts, and by `from_dict` from whatever values a request holds.
pub record TemplateData : Type 0 where
  pub name : Value
  pub display_name : Value
  pub schema_version : Value
  pub version : Value
  pub oid : Value

pub record AuthorityData : Type 0 where
  pub name : Value
  pub display_name : Value
  pub computer_name : Value
  pub config_string : Value
  pub ca_type : Value
  pub is_enterprise : Value
  pub is_root : Value
  pub is_accessible : Value
  pub service_status : Value

-- `input_data.std_out.decode('utf-8').strip().split('\n')`
unfoldable pub lines_of : Response → Result (List Text)
lines_of r = do s ← decode r.std_out; ok (split b'\n' (strip s))

-- The unpacking of two names from `map(str.strip, …)`.
abbrev second_part : Option (Text × Text) → Result Text
second_part none = err value_error
second_part (some (_, value)) = ok (strip value)

unfoldable pub get_value_from_line : Text → Result Text
get_value_from_line line = second_part (split_once b':' line)
