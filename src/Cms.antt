-- ===== src/Cms.antt =====
-- utils/cms_utils.py: a CRMF request as a CMS one, over the ASN.1 library.
pub mod Structures
pub mod Extensions
use pyadcs_connector.Prelude.{
  List, [], ◌∷◌, Option, none, some, Bool, ◌||◌, Result, ok, err, ◌>>=◌, if◌then◌else◌,
  attribute_error, index_error, ◌>>◌,
}
use pyadcs_connector.Text.{Text, codes, text_eq, split}
use pyadcs_connector.Json.{Value, str, is_text}
use pyadcs_connector.Dump.{TemplateData}
use pyadcs_connector.Cms.Structures.{
  certificate_type, octets, Extension, CertTemplate, CertificationRequestInfo,
  CertificationRequestNullSigned, PkiData, EncapsulatedContentInfo, object_identifier, digest,
  CmsAttribute, SignerInfo, SignedData, Asn1,
}

-- `template.version.split('.')`
abbrev version_parts : Value → Result (List Text)
version_parts (str version) = ok (split b'.' version)
version_parts _ = err attribute_error

abbrev first_part : List Text → Result Text
first_part [] = err index_error
first_part (part ∷ _) = ok part

abbrev second_part : List Text → Result Text
second_part (_ ∷ part ∷ _) = ok part
second_part _ = err index_error

-- `ext_id in ('2.5.29.17', 'subject_alt_name')`
abbrev pub is_san : Extension → Bool
is_san e = text_eq e.extn_id (codes "2.5.29.17") || text_eq e.extn_id (codes "subject_alt_name")

-- The loop over the extensions of the request, which ends at the first that names other subjects.
unfoldable pub first_san : List Extension → List Extension
first_san [] = []
first_san (e ∷ es) = let later = first_san es in if is_san e then e ∷ [] else later

abbrev pub san_of : Option (List Extension) → List Extension
san_of none = []
san_of (some extensions) = first_san extensions

module _ (asn1 : Asn1) where
  -- The extension that names the certificate template.
  unfoldable pub template_extension : TemplateData → Result Extension
  template_extension template =
      let by_oid : Result Extension = (do
        versions ← version_parts template.version
        first ← first_part versions
        major ← asn1.int first
        second ← second_part versions
        minor ← asn1.int second
        dumped ← asn1.dump_template_oid (record {
          template_id = template.oid;
          template_major_version = major;
          template_minor_version = minor;
        })
        ok (record {
          extn_id = codes "1.3.6.1.4.1.311.21.7";
          critical = none;
          extn_value = octets dumped;
        })) in
      if is_text template.schema_version (codes "1")
      then ok (record {
        extn_id = codes "microsoft_enroll_certtype";
        critical = none;
        extn_value = certificate_type template.name;
      })
      else by_oid

  unfoldable pub request_info : CertTemplate → Extension → CertificationRequestInfo
  request_info cert_template extension = record {
    version = 0;
    subject = cert_template.subject;
    subject_pk_info = cert_template.public_key;
    attributes =
        record {
          attribute_type = codes "extension_request";
          attribute_values = (extension ∷ san_of cert_template.extensions) ∷ [];
        }
        ∷ [];
  }

  unfoldable pub convert_crmf_to_null_signed_pkcs10 :
      Value → TemplateData → Result CertificationRequestNullSigned
  convert_crmf_to_null_signed_pkcs10 encoded template = do
    cert_template ← asn1.load encoded
    extension ← template_extension template
    dumped ← asn1.dump_request_info (request_info cert_template extension)
    ok (record {
      certification_request_info = request_info cert_template extension;
      signature_algorithm = codes "sha256";
      signature = asn1.sha256 dumped;
    })

  unfoldable pub create_pki_data : CertificationRequestNullSigned → PkiData
  create_pki_data pkcs10 = record {
    req_sequence = record { body_part_id = 0; certification_request = pkcs10 } ∷ [];
  }

  unfoldable pub create_encap_content_info : PkiData → Result EncapsulatedContentInfo
  create_encap_content_info pki_data = do
    dumped ← asn1.dump_pki_data pki_data
    ok (record { content_type = codes "1.3.6.1.5.5.7.12.2"; content = dumped })

  unfoldable pub create_signed_attributes : EncapsulatedContentInfo → List CmsAttribute
  create_signed_attributes eci =
      record {
        attribute_type = codes "1.2.840.113549.1.9.3";
        attribute_values = object_identifier (codes "1.3.6.1.5.5.7.12.2") ∷ [];
      }
      ∷ record {
        attribute_type = codes "1.2.840.113549.1.9.4";
        attribute_values = digest (asn1.sha256 eci.content) ∷ [];
      }
      ∷ []

  unfoldable pub create_signer_infos : Value → EncapsulatedContentInfo → Result (List SignerInfo)
  create_signer_infos ca_name eci = do
    dumped ← asn1.dump_signed_attrs (create_signed_attributes eci)
    ok (
        record {
          version = 1;
          issuer = ca_name;
          serial_number = 123456789;
          digest_algorithm = codes "sha256";
          signed_attrs = create_signed_attributes eci;
          signature_algorithm = codes "1.3.6.1.5.5.7.6.2";
          signature = asn1.sha256 dumped;
        }
        ∷ [])

  unfoldable pub create_signed_data : PkiData → Value → Result SignedData
  create_signed_data pki_data ca_name = do
    eci ← create_encap_content_info pki_data
    signer_infos ← create_signer_infos ca_name eci
    ok (record {
      version = 3;
      digest_algorithms = codes "sha256" ∷ [];
      encap_content_info = eci;
      signer_infos = signer_infos;
    })

  -- The base64 text, as `issue_new_certificate` decodes it.
  unfoldable pub create_cms : Value → Value → TemplateData → Result Text
  create_cms crmf ca_name template = do
    pkcs10 ← convert_crmf_to_null_signed_pkcs10 crmf template
    signed_data ← create_signed_data (create_pki_data pkcs10) ca_name
    dumped ←
        asn1.dump_content_info
          (record { content_type = codes "1.2.840.113549.1.7.2"; content = signed_data })
    ok (asn1.b64encode dumped)
