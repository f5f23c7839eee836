-- ===== src/Remoting/Scripts/Listing.antt =====
-- remoting/winrm/scripts.py: the scripts that list and verify.
use pyadcs_connector.Prelude.{List, [], ◌∷◌, ◌++◌, Result, ok, err, value_error}
use pyadcs_connector.Text.{Text, codes, join, concat}
use pyadcs_connector.Remoting.Scripts.{import_module, joined_lines}

abbrev pub verify_connection_script : Text
verify_connection_script = joined_lines (import_module ∷ [])

unfoldable pub get_ca_script : Text → Text
get_ca_script computer_name = joined_lines (
    import_module
    ∷ (codes "Get-CertificationAuthority -ComputerName "
        ++ (computer_name ++ codes " | Format-List *"))
    ∷ [])

abbrev pub get_templates_script : Text
get_templates_script = joined_lines (
    import_module
    ∷ codes "$TemplateList = @()"
    ∷ codes "(Get-CertificateTemplate) | Foreach-Object {"
    ∷ codes "$template = $_"
    ∷ codes "$OutputObject = \"\" | Select Name, DisplayName, SchemaVersion, Version, OID"
    ∷ codes "$outputObject.Name = $template.Name"
    ∷ codes "$OutputObject.DisplayName = $template.DisplayName"
    ∷ codes "$OutputObject.SchemaVersion = $template.SchemaVersion"
    ∷ codes "$OutputObject.Version = $template.Version"
    ∷ codes "$OutputObject.OID = $template.Oid.Value"
    ∷ codes "$TemplateList += $OutputObject"
    ∷ codes "}"
    ∷ codes "$TemplateList | Format-List"
    ∷ [])

-- An empty list of properties is refused.
unfoldable pub select_objects : Text → List Text → Result Text
select_objects command [] = err value_error
select_objects command (p ∷ ps) =
    ok (concat (command ∷ codes " | Select-Object -Property " ∷ join (codes ", ") (p ∷ ps) ∷ []))

unfoldable pub get_template_oid_script : Text → Text
get_template_oid_script template = joined_lines (
    import_module
    ∷ concat (codes "(Get-CertificateTemplate -Name \"" ∷ template ∷ codes "\").Oid.Value" ∷ [])
    ∷ [])
