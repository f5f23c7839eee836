-- ===== src/Remoting/Scripts/Certificates.antt =====
-- remoting/winrm/scripts.py: the scripts of certificate management.
use pyadcs_connector.Prelude.{ℕ, [], ◌∷◌}
use pyadcs_connector.Text.{Text, codes, concat}
use pyadcs_connector.Json.{Value}
use pyadcs_connector.Dump.{AuthorityData, TemplateData}
use pyadcs_connector.Revocation.{from_string, to_string_ps_value}
use pyadcs_connector.Remoting.Scripts.{import_module, joined_lines, decimal}

abbrev imports : Text
imports = concat (
    codes
      "$OutputEncoding = [console]::InputEncoding = [console]::OutputEncoding = [System.Text.UTF8Encoding]::new()\n"
    ∷ codes
        "$Host.UI.RawUI.BufferSize = New-Object Management.Automation.Host.Size (2048, $Host.UI.RawUI.BufferSize.Height)"
    ∷ [])

-- `formatted` is what an f-string makes of a value.
module _ (formatted : Value → Text) where
  unfoldable pub submit_certificate_request_script :
      Text → AuthorityData → TemplateData → ℕ → ℕ → Text
  submit_certificate_request_script request ca template polling_interval timeout = concat (
      imports
      ∷ codes "\n"
      ∷ codes "$config = \""
      ∷ formatted ca.config_string
      ∷ codes "\"\n"
      ∷ codes "$template = \"CertificateTemplate:"
      ∷ formatted template.name
      ∷ codes "\"\n"
      ∷ codes "$encoding = 0x1\n"
      ∷ codes "$pollMilliseconds = "
      ∷ decimal polling_interval
      ∷ codes "\n"
      ∷ codes "$timeoutMilliseconds = "
      ∷ decimal timeout
      ∷ codes "\n"
      ∷ codes "\n"
      ∷ codes "$csr = \""
      ∷ request
      ∷ codes "\"\n"
      ∷ codes "\n"
      ∷ codes "$req = New-Object -ComObject CertificateAuthority.Request\n"
      ∷ codes "\n"
      ∷ codes "$disposition = $req.Submit(0xff, $csr, $template, $config)\n"
      ∷ codes "$requestId   = $req.GetRequestId()\n"
      ∷ codes "\n"
      ∷ codes "if ($disposition -eq 0 -or $disposition -eq 3) {\n"
      ∷ codes "    $certB64 = $req.GetCertificate($encoding)\n"
      ∷ codes "} else {\n"
      ∷ codes "    do {\n"
      ∷ codes "        Start-Sleep -Milliseconds $pollMilliseconds\n"
      ∷ codes "        $elapsed += $pollMilliseconds\n"
      ∷ codes "        $disposition = $req.RetrievePending($requestId, $config)\n"
      ∷ codes "    } until ($disposition -eq 3 -or $elapsed -ge $timeout)   # 3 = issued\n"
      ∷ codes "\n"
      ∷ codes "    if ($disposition -eq 3) {\n"
      ∷ codes "        $certB64 = $req.GetCertificate($encoding)\n"
      ∷ codes "    } else {\n"
      ∷ codes "        throw \"Timeout waiting for certificate (request $requestId).\"\n"
      ∷ codes "    }\n"
      ∷ codes "}\n"
      ∷ codes "\n"
      ∷ codes "$certB64\n"
      ∷ [])

  unfoldable pub identify_certificate_script : Text → AuthorityData → Text
  identify_certificate_script serial_number ca = joined_lines (
      import_module
      ∷ concat (
          codes "Get-CertificationAuthority -Name \""
          ∷ formatted ca.name
          ∷ codes "\" | Get-AdcsDatabaseRow -Filter \"SerialNumber -eq "
          ∷ serial_number
          ∷ codes
              "\", \"Request.Disposition -ge 12\", \"Request.Disposition -le 21\" -Property \"SerialNumber\", \"CertificateTemplate\", \"ConfigString\""
          ∷ [])
      ∷ [])

  unfoldable pub get_revoke_script : AuthorityData → Text → Text → Text
  get_revoke_script ca certificate_serial_number reason = joined_lines (
      import_module
      ∷ concat (
          codes "Get-CertificationAuthority -Name \""
          ∷ formatted ca.name
          ∷ codes "\" | Get-IssuedRequest -Filter \"SerialNumber -eq "
          ∷ certificate_serial_number
          ∷ codes "\" | Revoke-Certificate -Reason \""
          ∷ to_string_ps_value (from_string reason)
          ∷ codes "\""
          ∷ [])
      ∷ [])
