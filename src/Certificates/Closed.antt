-- ===== src/Certificates/Closed.antt =====
-- The sessions of services/certificate_management.py are closed.
use pyadcs_connector.Prelude.{ℕ, List, Result, ok}
use pyadcs_connector.Text.{Text, codes}
use pyadcs_connector.Json.{Value, get_item}
use pyadcs_connector.Dump.{Response, AuthorityData, TemplateData, IdentifiedCertificate}
use pyadcs_connector.Dump.Identified.{parse_identified_certificates}
use pyadcs_connector.Db.Authorities.{Authorities, get_by_uuid}
use pyadcs_connector.Authority.{run_by_uuid}
use pyadcs_connector.Authority.Sessions.{SessionConfig, create_session_from_authority_instance}
use pyadcs_connector.Remoting.Session.{Protocol, Remote, local_step, ◌>>=◌}
use pyadcs_connector.Remoting.Session.Closed.{
  Closes, IsFresh, local_step-Closes, >>=-Closes, with_session-Closes,
}
use pyadcs_connector.Certificates.{
  issue_new_certificate, prepare_and_issue, issue, renew, revoke, identify,
}
use pyadcs_connector.Remoting.Scripts.Certificates.{
  get_revoke_script, submit_certificate_request_script, identify_certificate_script,
}
use pyadcs_connector.Certificates.Requests.{
  get_ca_from_attributes, template_of, CertificateRequestFormat, certificate_request_format,
  encoded_request, issued, identified, reason_key, get_certificate_serial_number,
}

-- A step of its own in front of a computation that closes.
after_step {ℓ κ} :
    {A : Type ℓ} {B : Type κ} (shells : List ℕ) (r : Result A) (k : A → Remote B)
    → ((a : A) → Closes shells (k a))
    → Closes shells (local_step r >>= k)
after_step shells r k = >>=-Closes shells (local_step r) k (local_step-Closes shells r)

-- A session behind which there are only steps of its own.
then_step {ℓ} :
    {B : Type ℓ} (shells : List ℕ) (m : Remote Response) (f : Response → Result B)
    → Closes shells m
    → Closes shells (m >>= (λ r. local_step (f r)))
then_step shells m f closes = >>=-Closes shells m _ closes (λ r. local_step-Closes shells (f r))

module _ (winrm : SessionConfig → Protocol) (formatted : Value → Text)
    (x509_serial_number : Value → Result ℕ)
    (create_cms : Value → Value → TemplateData → Result Text) (polling_interval polling_timeout : ℕ)
    (shells : List ℕ) (fresh : (config : SessionConfig) → IsFresh shells (winrm config))
    (table : Authorities) (uuid : Text) where
  run_by_uuid-Closes : (script : Text) → Closes shells (run_by_uuid winrm table uuid script)
  run_by_uuid-Closes script = after_step shells (get_by_uuid uuid table) _ (λ a.
      after_step shells (create_session_from_authority_instance a) _
        (λ config. with_session-Closes shells (winrm config) script (fresh config)))

  issue_new_certificate-Closes :
      (request : Value) (format : CertificateRequestFormat) (ca : AuthorityData)
      (template : TemplateData)
      → Closes shells (
          issue_new_certificate winrm formatted x509_serial_number create_cms polling_interval
            polling_timeout table uuid request format ca template)
  unfolding issue_new_certificate
  issue_new_certificate-Closes request format ca template =
      after_step shells (encoded_request formatted create_cms format request ca template) _ (λ r.
        let script =
          submit_certificate_request_script formatted r ca template polling_interval
            polling_timeout in
        then_step shells (run_by_uuid winrm table uuid script) issued (run_by_uuid-Closes script))

  prepare_and_issue-Closes :
      (request_dto : Value)
      → Closes shells (
          prepare_and_issue winrm formatted x509_serial_number create_cms polling_interval
            polling_timeout table request_dto uuid)
  unfolding prepare_and_issue
  prepare_and_issue-Closes request_dto =
      after_step shells (get_ca_from_attributes request_dto) _ (λ ca.
        after_step shells (template_of request_dto) _ (λ template.
          after_step shells (get_item request_dto (codes "format")) _ (λ named.
            after_step shells (certificate_request_format named) _ (λ format.
              after_step shells (get_item request_dto (codes "request")) _
                (λ request. issue_new_certificate-Closes request format ca template)))))

  revoke-Closes :
      (request_dto : Value)
      → Closes shells (
          revoke winrm formatted x509_serial_number create_cms polling_interval polling_timeout
            table request_dto uuid)
  unfolding revoke
  revoke-Closes request_dto = after_step shells (get_ca_from_attributes request_dto) _ (λ ca.
      after_step shells (get_item request_dto (codes "reason")) _ (λ reason.
        after_step shells (get_item request_dto (codes "certificate")) _ (λ certificate.
          after_step shells (get_certificate_serial_number x509_serial_number certificate) _ (λ n.
            let script = get_revoke_script formatted ca n (reason_key reason) in
            then_step shells (run_by_uuid winrm table uuid script) (λ _. ok tt)
              (run_by_uuid-Closes script)))))

  identify-Closes :
      (request_dto : Value)
      → Closes shells (
          identify winrm formatted x509_serial_number create_cms polling_interval polling_timeout
            table request_dto uuid)
  unfolding identify
  identify-Closes request_dto = after_step shells (get_ca_from_attributes request_dto) _ (λ ca.
      after_step shells (template_of request_dto) _ (λ template.
        after_step shells (get_item request_dto (codes "certificate")) _ (λ certificate.
          after_step shells (get_certificate_serial_number x509_serial_number certificate) _ (λ n.
            let script = identify_certificate_script formatted n ca in
            let ending : List IdentifiedCertificate → Remote Value =
              λ parsed. local_step (identified template parsed) in
            >>=-Closes shells (run_by_uuid winrm table uuid script)
              (λ result. local_step (parse_identified_certificates result) >>= ending)
              (run_by_uuid-Closes script)
              (λ result.
                after_step shells (parse_identified_certificates result) ending
                  (λ parsed. local_step-Closes shells (identified template parsed)))))))

  -- Where a request to issue, to renew, to revoke or to identify a certificate returns, and the
  -- server numbers a new shell apart from the open ones, the shells are those that were open before,
  -- and no connection is left.
  pub operations-Closes :
      (request_dto : Value)
      → Closes shells (
          issue winrm formatted x509_serial_number create_cms polling_interval polling_timeout table
            request_dto uuid)
        × Closes shells (
            renew winrm formatted x509_serial_number create_cms polling_interval polling_timeout
              table request_dto uuid)
        × Closes shells (
            revoke winrm formatted x509_serial_number create_cms polling_interval polling_timeout
              table request_dto uuid)
        × Closes shells (
            identify winrm formatted x509_serial_number create_cms polling_interval polling_timeout
              table request_dto uuid)
  unfolding issue renew
  operations-Closes request_dto = (
    after_step shells (get_item request_dto (codes "request")) _
        (λ _. prepare_and_issue-Closes request_dto),
    after_step shells (get_item request_dto (codes "certificate")) _ (λ certificate.
        after_step shells (get_certificate_serial_number x509_serial_number certificate) _
          (λ _. prepare_and_issue-Closes request_dto)),
    revoke-Closes request_dto,
    identify-Closes request_dto,
  )
