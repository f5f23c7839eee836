-- ===== src/Certificates.antt =====
-- services/certificate_management.py: issuing, renewing, revoking and identifying certificates.
pub mod Requests
pub mod Laws
pub mod Closed
use pyadcs_connector.Prelude.{ℕ, Result, ok}
use pyadcs_connector.Text.{Text, codes}
use pyadcs_connector.Json.{Value, get_item}
use pyadcs_connector.Dump.{AuthorityData, TemplateData}
use pyadcs_connector.Dump.Identified.{parse_identified_certificates}
use pyadcs_connector.Db.Authorities.{Authorities}
use pyadcs_connector.Authority.Sessions.{SessionConfig}
use pyadcs_connector.Authority.{run_by_uuid}
use pyadcs_connector.Remoting.Session.{Protocol, Remote, ◌>>=◌, ◌>>◌, local_step}
use pyadcs_connector.Remoting.Scripts.Certificates.{
  submit_certificate_request_script, identify_certificate_script, get_revoke_script,
}
use pyadcs_connector.Certificates.Requests.{
  get_ca_from_attributes, template_of, CertificateRequestFormat, certificate_request_format,
  reason_key, encoded_request, CertificateDto, issued, identified, get_certificate_serial_number,
}

-- What the connector takes from elsewhere: the WinRM library, what an f-string makes of a value,
-- the serial number of a base64 encoded certificate, the CMS request around a CRMF one, and the
-- two settings of the polling.
module _ (winrm : SessionConfig → Protocol) (formatted : Value → Text)
    (x509_serial_number : Value → Result ℕ)
    (create_cms : Value → Value → TemplateData → Result Text)
    (polling_interval polling_timeout : ℕ) where
  unfoldable pub issue_new_certificate :
      Authorities
      → Text
      → Value
      → CertificateRequestFormat
      → AuthorityData
      → TemplateData
      → Remote CertificateDto
  issue_new_certificate table uuid request format ca template = do
    certificate_request ←
        local_step (encoded_request formatted create_cms format request ca template)
    result ← run_by_uuid winrm table uuid (
        submit_certificate_request_script formatted certificate_request ca template polling_interval
          polling_timeout)
    local_step (issued result)

  unfoldable pub prepare_and_issue : Authorities → Value → Text → Remote CertificateDto
  prepare_and_issue table request_dto uuid = do
    ca ← local_step (get_ca_from_attributes request_dto)
    template ← local_step (template_of request_dto)
    named ← local_step (get_item request_dto (codes "format"))
    format ← local_step (certificate_request_format named)
    request ← local_step (get_item request_dto (codes "request"))
    issue_new_certificate table uuid request format ca template

  unfoldable pub issue : Authorities → Value → Text → Remote CertificateDto
  issue table request_dto uuid = do
    request ← local_step (get_item request_dto (codes "request"))
    prepare_and_issue table request_dto uuid

  unfoldable pub renew : Authorities → Value → Text → Remote CertificateDto
  renew table request_dto uuid = do
    certificate ← local_step (get_item request_dto (codes "certificate"))
    serial_number ← local_step (get_certificate_serial_number x509_serial_number certificate)
    prepare_and_issue table request_dto uuid

  unfoldable pub revoke : Authorities → Value → Text → Remote (Unit {0})
  revoke table request_dto uuid = do
    ca ← local_step (get_ca_from_attributes request_dto)
    reason ← local_step (get_item request_dto (codes "reason"))
    certificate ← local_step (get_item request_dto (codes "certificate"))
    serial_number ← local_step (get_certificate_serial_number x509_serial_number certificate)
    result ←
        run_by_uuid winrm table uuid
          (get_revoke_script formatted ca serial_number (reason_key reason))
    local_step (ok tt)

  unfoldable pub identify : Authorities → Value → Text → Remote Value
  identify table request_dto uuid = do
    ca ← local_step (get_ca_from_attributes request_dto)
    template ← local_step (template_of request_dto)
    certificate ← local_step (get_item request_dto (codes "certificate"))
    serial_number ← local_step (get_certificate_serial_number x509_serial_number certificate)
    result ← run_by_uuid winrm table uuid (identify_certificate_script formatted serial_number ca)
    parsed ← local_step (parse_identified_certificates result)
    local_step (identified template parsed)
