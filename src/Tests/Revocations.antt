-- ===== src/Tests/Revocations.antt =====
-- A reason, and a text that is none.
use pyadcs_connector.Prelude.{◌≡◌, refl, false}
use pyadcs_connector.Text.{codes, text_eq}
use pyadcs_connector.Revocation.{
  CertificateRevocationReason, unspecified, key_compromise, ca_compromise, affiliation_changed,
  superseded, cessation_of_operation, certificate_hold, privileges_withdrawn, aa_compromise, value,
  from_string, from_string-value,
}

no_reason : (q : CertificateRevocationReason) → text_eq (value q) (codes "removeFromCRL") ≡ false
unfolding value text_eq
no_reason unspecified = refl
no_reason key_compromise = refl
no_reason ca_compromise = refl
no_reason affiliation_changed = refl
no_reason superseded = refl
no_reason cessation_of_operation = refl
no_reason certificate_hold = refl
no_reason privileges_withdrawn = refl
no_reason aa_compromise = refl

from_string-value_example :
    (from_string (value aa_compromise) ≡ aa_compromise)
    × (from_string (codes "removeFromCRL") ≡ unspecified)
from_string-value_example = from_string-value aa_compromise (codes "removeFromCRL") no_reason
