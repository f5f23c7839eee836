-- ===== src/Remoting/Scripts.antt =====
-- remoting/winrm/scripts.py: the scripts of a discovery.
pub mod Listing
pub mod Certificates
use pyadcs_connector.Prelude.{
  ℕ, zero, suc, ◌+◌, ◌/◌, ◌%◌, ltb, List, [], ◌∷◌, ◌++◌, Option, none, some, if◌then◌else◌,
}
use pyadcs_connector.Text.{Text, codes, join, concat}
use pyadcs_connector.Json.{Value, truthy, is_text}
use pyadcs_connector.Dump.{AuthorityData, TemplateData}

abbrev pub import_module : Text
import_module = concat (
    codes "Import-Module PSPKI\n"
    ∷ codes
        "$OutputEncoding = [console]::InputEncoding = [console]::OutputEncoding = [System.Text.UTF8Encoding]::new()\n"
    ∷ codes
        "$Host.UI.RawUI.BufferSize = New-Object Management.Automation.Host.Size (2048, $Host.UI.RawUI.BufferSize.Height)"
    ∷ [])

-- `'\n'.join(…)`
abbrev pub joined_lines : List Text → Text
joined_lines = join (codes "\n")

abbrev pub get_cas_script : Text
get_cas_script = joined_lines (
    import_module
    ∷ codes "$TemplateList = @()"
    ∷ codes "(Get-CertificationAuthority) | Foreach-Object {"
    ∷ codes "$template = $_"
    ∷ codes
        "$OutputObject = \"\" | Select Name, DisplayName, ComputerName, ConfigString, Type, IsEnterprise, IsRoot, IsAccessible, ServiceStatus"
    ∷ codes "$outputObject.Name = $template.Name"
    ∷ codes "$OutputObject.DisplayName = $template.DisplayName"
    ∷ codes "$OutputObject.ComputerName = $template.ComputerName"
    ∷ codes "$OutputObject.ConfigString = $template.ConfigString"
    ∷ codes "$OutputObject.Type = $template.Type"
    ∷ codes "$OutputObject.IsEnterprise = $template.IsEnterprise"
    ∷ codes "$OutputObject.IsRoot = $template.IsRoot"
    ∷ codes "$OutputObject.IsAccessible = $template.IsAccessible"
    ∷ codes "$OutputObject.ServiceStatus = $template.ServiceStatus"
    ∷ codes "$TemplateList += $OutputObject"
    ∷ codes "}"
    ∷ codes "$TemplateList | Format-List"
    ∷ [])

-- The digits of a number.
abbrev decimal_on : ℕ → ℕ → Text
decimal_on zero n = []
decimal_on (suc fuel) n =
    let rest = decimal_on fuel (n / 10) in
    if ltb n 10 then (b'0' + n) ∷ [] else rest ++ ((b'0' + n % 10) ∷ [])

-- As many rounds as the number is large are more than it has digits.
unfoldable pub decimal : ℕ → Text
decimal n = decimal_on (suc n) n

-- `formatted` is what an f-string makes of a value.
module _ (formatted : Value → Text) where
  abbrev template_filter : TemplateData → Text
  template_filter template =
      if is_text template.schema_version (codes "1")
      then concat (codes ", \"CertificateTemplate -eq " ∷ formatted template.name ∷ codes "\"" ∷ [])
      else concat (codes ", \"CertificateTemplate -eq " ∷ formatted template.oid ∷ codes "\"" ∷ [])

  abbrev optional_filter : Option TemplateData → Text
  optional_filter none = []
  optional_filter (some template) = template_filter template

  unfoldable pub dump_certificates_script :
      AuthorityData → Option TemplateData → Value → ℕ → ℕ → Text
  dump_certificates_script ca template issued_after page page_size =
      let base_cmd : Text = concat (
        codes "Get-CertificationAuthority -Name \""
        ∷ formatted ca.name
        ∷ codes "\" | Get-AdcsDatabaseRow -Property \"RawCertificate\" -Page "
        ∷ decimal page
        ∷ codes " -PageSize "
        ∷ decimal page_size
        ∷ codes " -Filter \"Request.Disposition -ge 12\", \"Request.Disposition -le 21\""
        ∷ optional_filter template
        ∷ []) in
      if truthy issued_after
      then joined_lines (
          import_module
          ∷ concat
              (codes "$issued_after = Get-Date -Date \"" ∷ formatted issued_after ∷ codes "\"" ∷ [])
          ∷ (base_cmd ++ codes ", \"NotBefore -ge $issued_after\"")
          ∷ [])
      else joined_lines (import_module ∷ base_cmd ∷ [])
