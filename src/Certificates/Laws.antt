-- ===== src/Certificates/Laws.antt =====
-- What a certificate operation that returns has done.
use pyadcs_connector.Prelude.{
  List, [], ◌∷◌, Bool, true, not, ◌||◌, all, select, count, length, is_empty, Bool-cases, inl, inr,
  ok, err, ok-injective, ◌≡◌, ◌↔◌, refl, ap, sym, ◌∙◌, arith, not_found_exception,
  validation_exception, if◌then◌else◌,
}
use mathlib.Core.Path.{subst}
use pyadcs_connector.Text.{Text}
use pyadcs_connector.Text.Utf8.{decode}
use pyadcs_connector.Text.SplitLines.{is_break, concat-splitlines}
use pyadcs_connector.Json.{null, is_text}
use pyadcs_connector.Dump.{Response, TemplateData, IdentifiedCertificate, lines_of}
use pyadcs_connector.Dump.Identified.{parse_identified_certificates}
use pyadcs_connector.Dump.Identified.Laws.{is_config_line, parse_identified-length}
use pyadcs_connector.Certificates.Requests.{get_certificate_data, issued, identified, no_meta}

abbrev pub unbroken : Text → Text
unbroken = select (λ c. not (is_break c))

-- Where the server's output can be decoded, the certificate is the decoded text without its line
-- breaks, and a text that has nothing else is refused.
pub issued-unbroken :
    (result : Response) (printed : Text)
    → decode result.std_out ≡ ok printed
    → issued result ≡ (
        if is_empty (unbroken printed)
        then err validation_exception
        else ok (record { certificate_data = unbroken printed; uuid = null; meta = null }))
unfolding get_certificate_data issued
issued-unbroken result printed h = rw (h, concat-splitlines printed) refl

abbrev pub is_template_of : TemplateData → IdentifiedCertificate → Bool
is_template_of template c =
    is_text template.oid c.certificate_template || is_text template.name c.certificate_template

accepted_iff :
    (template : TemplateData) (certificates : List IdentifiedCertificate)
    → ((identified template certificates ≡ err not_found_exception) ↔ (length certificates ≡ 0))
      × ((identified template certificates ≡ ok no_meta)
          ↔ ((length certificates ≡ 1) × (all (is_template_of template) certificates ≡ true)))
unfolding identified
accepted_iff template [] =
    ((λ _. refl, λ _. refl), (λ h. absurd (cc h), λ p. absurd (omega (arith, p.0))))
accepted_iff template (c ∷ []) = elim (Bool-cases (is_template_of template c)) [
  | inl e ↦
      rw e ((λ h. absurd (cc h), λ h. absurd (omega (arith, h))), (λ _. (refl, refl), λ _. refl))
  | inr e ↦ rw e (
    (λ h. absurd (cc h), λ h. absurd (omega (arith, h))),
    (λ h. absurd (cc h), λ p. absurd (cc p.1)),
  )
]
accepted_iff template (c ∷ d ∷ cs) = (
  (λ h. absurd (cc h), λ h. absurd (omega (arith, h))),
  (λ h. absurd (cc h), λ p. absurd (omega (arith, p.0))),
)

-- Where the server's answer is parsed, the certificate is not found just where no line begins with
-- the label of a config string, and it is accepted just where there is one such line, and the
-- template beside it is the RA profile's, by its OID or by its name.
pub identified_iff :
    (template : TemplateData) (r : Response) (lines : List Text)
    (certificates : List IdentifiedCertificate)
    → lines_of r ≡ ok lines
    → parse_identified_certificates r ≡ ok certificates
    → ((identified template certificates ≡ err not_found_exception)
        ↔ (count is_config_line lines ≡ 0))
      × ((identified template certificates ≡ ok no_meta) ↔ (
          (count is_config_line lines ≡ 1) × (all (is_template_of template) certificates ≡ true)))
identified_iff template r lines certificates hl hp =
    let (lines', e, size) = parse_identified-length r certificates hp in
    let same : lines ≡ lines' = ok-injective (sym hl ∙ e) in
    subst
      (λ n.
        ((identified template certificates ≡ err not_found_exception) ↔ (n ≡ 0))
        × ((identified template certificates ≡ ok no_meta)
            ↔ ((n ≡ 1) × (all (is_template_of template) certificates ≡ true))))
      (size ∙ sym (ap (count is_config_line) same)) (accepted_iff template certificates)
