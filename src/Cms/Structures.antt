-- ===== src/Cms/Structures.antt =====
-- The structures that utils/cms_utils.py fills in, of utils/adcs_asn1.py, utils/cmc.py, utils/crmf.py
-- and the ASN.1 library. A part that is copied as a whole is its bytes.
use pyadcs_connector.Prelude.{ℕ, ℤ, List, Option, Bool, Result}
use pyadcs_connector.Text.{Text}
use pyadcs_connector.Text.Utf8.{Bytes}
use pyadcs_connector.Json.{Value}

pub data ExtensionValue : Type 0 where
  certificate_type : Value → ExtensionValue
  octets : Bytes → ExtensionValue

pub record Extension : Type 0 where
  pub extn_id : Text
  pub critical : Option Bool
  pub extn_value : ExtensionValue

-- The part `certTemplate` of the first message of a CRMF request.
pub record CertTemplate : Type 0 where
  pub subject : Bytes
  pub public_key : Bytes
  pub extensions : Option (List Extension)

pub record CertificateTemplateOid : Type 0 where
  pub template_id : Value
  pub template_major_version : ℤ
  pub template_minor_version : ℤ

-- An attribute of a certification request, whose values are lists of extensions.
pub record CriAttribute : Type 0 where
  pub attribute_type : Text
  pub attribute_values : List (List Extension)

pub record CertificationRequestInfo : Type 0 where
  pub version : ℕ
  pub subject : Bytes
  pub subject_pk_info : Bytes
  pub attributes : List CriAttribute

pub record CertificationRequestNullSigned : Type 0 where
  pub certification_request_info : CertificationRequestInfo
  pub signature_algorithm : Text
  pub signature : Bytes

pub record TaggedCertificationRequest : Type 0 where
  pub body_part_id : ℕ
  pub certification_request : CertificationRequestNullSigned

-- The other three sequences of `PKIData` are empty.
pub record PkiData : Type 0 where
  pub req_sequence : List TaggedCertificationRequest

pub record EncapsulatedContentInfo : Type 0 where
  pub content_type : Text
  pub content : Bytes

-- The value of an attribute of the signer: an identifier, or a digest.
pub data CmsValue : Type 0 where
  object_identifier : Text → CmsValue
  digest : Bytes → CmsValue

pub record CmsAttribute : Type 0 where
  pub attribute_type : Text
  pub attribute_values : List CmsValue

-- The issuer is the common name.
pub record SignerInfo : Type 0 where
  pub version : ℕ
  pub issuer : Value
  pub serial_number : ℕ
  pub digest_algorithm : Text
  pub signed_attrs : List CmsAttribute
  pub signature_algorithm : Text
  pub signature : Bytes

pub record SignedData : Type 0 where
  pub version : ℕ
  pub digest_algorithms : List Text
  pub encap_content_info : EncapsulatedContentInfo
  pub signer_infos : List SignerInfo

pub record ContentInfo : Type 0 where
  pub content_type : Text
  pub content : SignedData

-- What the connector takes from elsewhere: loading a base64 encoded CRMF request, the DER encoding of
-- the structures, SHA-256, base64, and Python's `int` on texts.
pub record Asn1 : Type 0 where
  pub load : Value → Result CertTemplate
  pub int : Text → Result ℤ
  pub dump_template_oid : CertificateTemplateOid → Result Bytes
  pub dump_request_info : CertificationRequestInfo → Result Bytes
  pub dump_pki_data : PkiData → Result Bytes
  pub dump_signed_attrs : List CmsAttribute → Result Bytes
  pub dump_content_info : ContentInfo → Result Bytes
  pub sha256 : Bytes → Bytes
  pub b64encode : Bytes → Text
