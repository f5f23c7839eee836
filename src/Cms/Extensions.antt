-- ===== src/Cms/Extensions.antt =====
-- What of a CRMF request goes into the CMS request.
use pyadcs_connector.Prelude.{List, [], ◌∷◌, Option, none, some, select, ok, ◌≡◌, map}
use pyadcs_connector.Text.{Text}
use pyadcs_connector.Text.Utf8.{Bytes}
use pyadcs_connector.Json.{Value}
use pyadcs_connector.Dump.{TemplateData}
use pyadcs_connector.Cms.Structures.{
  Extension, CertTemplate, CriAttribute, CertificationRequestNullSigned, EncapsulatedContentInfo,
  SignerInfo, SignedData, Asn1,
}
use pyadcs_connector.Cms.{is_san, template_extension, create_pki_data, create_signed_attributes}

abbrev or_nil : Option (List Extension) → List Extension
or_nil none = []
or_nil (some extensions) = extensions

abbrev pub extensions_of : CertTemplate → List Extension
extensions_of t = or_nil t.extensions

abbrev pub at_most_one {ℓ} : {A : Type ℓ} → List A → List A
at_most_one [] = []
at_most_one (x ∷ xs) = x ∷ []

-- The certification request has the subject and the key of the CRMF request, and as its extensions
-- the one for the template and the first of the CRMF request's that names other subjects. It is
-- signed with the digest of its encoding.
abbrev pub IsConverted : Asn1 → Value → TemplateData → CertificationRequestNullSigned → Type 0
IsConverted asn1 crmf template p =
    let info = p.certification_request_info in
    (t : CertTemplate) × (e : Extension) × (dumped : Bytes) × (asn1.load crmf ≡ ok t)
    × (template_extension asn1 template ≡ ok e)
    × (info.subject ≡ t.subject)
    × (info.subject_pk_info ≡ t.public_key)
    × (map (λ (a : CriAttribute). a.attribute_values) info.attributes
        ≡ ((e ∷ at_most_one (select is_san (extensions_of t))) ∷ []) ∷ [])
    × (asn1.dump_request_info info ≡ ok dumped)
    × (p.signature ≡ asn1.sha256 dumped)

-- One signer, who bears the name of the CA.
abbrev pub HasOneSigner : Asn1 → Value → EncapsulatedContentInfo → List SignerInfo → Type 0
HasOneSigner asn1 ca_name eci signers =
    (s : SignerInfo) × (dumped : Bytes) × (signers ≡ s ∷ [])
    × (s.issuer ≡ ca_name)
    × (s.signed_attrs ≡ create_signed_attributes asn1 eci)
    × (asn1.dump_signed_attrs s.signed_attrs ≡ ok dumped)
    × (s.signature ≡ asn1.sha256 dumped)

-- The signed data hold the encoding of the certification request, its digest, and one signer who
-- bears the name of the CA.
abbrev pub IsSignedFor : Asn1 → Value → CertificationRequestNullSigned → SignedData → Type 0
IsSignedFor asn1 ca_name p signed =
    (asn1.dump_pki_data (create_pki_data asn1 p) ≡ ok signed.encap_content_info.content)
    × HasOneSigner asn1 ca_name signed.encap_content_info signed.signer_infos
