-- ===== src/Revocation.antt =====
-- utils/revocation_reason.py: the reasons of a revocation, as requests and as PowerShell spell them.
use pyadcs_connector.Prelude.{List, [], ◌∷◌, Option, none, some, Bool, false, ◌≡◌, refl}
use pyadcs_connector.Text.{Text, codes, text_eq}
use pyadcs_connector.Db.Rows.{find}

pub data CertificateRevocationReason : Type 0 where
  unspecified key_compromise ca_compromise affiliation_changed : CertificateRevocationReason
  superseded cessation_of_operation certificate_hold : CertificateRevocationReason
  privileges_withdrawn aa_compromise : CertificateRevocationReason

-- `.value`
unfoldable pub value : CertificateRevocationReason → Text
value unspecified = codes "unspecified"
value key_compromise = codes "keyCompromise"
value ca_compromise = codes "cACompromise"
value affiliation_changed = codes "affiliationChanged"
value superseded = codes "superseded"
value cessation_of_operation = codes "cessationOfOperation"
value certificate_hold = codes "certificateHold"
value privileges_withdrawn = codes "privilegeWithdrawn"
value aa_compromise = codes "aACompromise"

-- The dictionary of `from_string`.
abbrev by_string : List (Text × CertificateRevocationReason)
by_string =
    (codes "unspecified", unspecified)
    ∷ (codes "keyCompromise", key_compromise)
    ∷ (codes "cACompromise", ca_compromise)
    ∷ (codes "affiliationChanged", affiliation_changed)
    ∷ (codes "superseded", superseded)
    ∷ (codes "cessationOfOperation", cessation_of_operation)
    ∷ (codes "certificateHold", certificate_hold)
    ∷ (codes "privilegeWithdrawn", privileges_withdrawn)
    ∷ (codes "aACompromise", aa_compromise)
    ∷ []

abbrev or_unspecified : Option (Text × CertificateRevocationReason) → CertificateRevocationReason
or_unspecified none = unspecified
or_unspecified (some (_, reason)) = reason

abbrev has_key : Text → Text × CertificateRevocationReason → Bool
has_key s entry = text_eq entry.0 s

-- A text that is not in the dictionary is `unspecified`.
unfoldable pub from_string : Text → CertificateRevocationReason
from_string s = or_unspecified (find (has_key s) by_string)

unfoldable pub to_string_ps_value : CertificateRevocationReason → Text
to_string_ps_value unspecified = codes "Unspecified"
to_string_ps_value key_compromise = codes "KeyCompromise"
to_string_ps_value ca_compromise = codes "CACompromise"
to_string_ps_value affiliation_changed = codes "AffiliationChanged"
to_string_ps_value superseded = codes "Superseded"
to_string_ps_value cessation_of_operation = codes "CeaseOfOperation"
to_string_ps_value certificate_hold = codes "Hold"
to_string_ps_value privileges_withdrawn = codes "Unspecified"
to_string_ps_value aa_compromise = codes "Unspecified"

from_string-value_own : (r : CertificateRevocationReason) → from_string (value r) ≡ r
unfolding from_string value find text_eq
from_string-value_own unspecified = refl
from_string-value_own key_compromise = refl
from_string-value_own ca_compromise = refl
from_string-value_own affiliation_changed = refl
from_string-value_own superseded = refl
from_string-value_own cessation_of_operation = refl
from_string-value_own certificate_hold = refl
from_string-value_own privileges_withdrawn = refl
from_string-value_own aa_compromise = refl

from_string_other :
    (s : Text)
    → ((r : CertificateRevocationReason) → text_eq (value r) s ≡ false)
    → from_string s ≡ unspecified
unfolding from_string value find
from_string_other s other =
    rw
      (
        other unspecified,
        other key_compromise,
        other ca_compromise,
        other affiliation_changed,
        other superseded,
        other cessation_of_operation,
        other certificate_hold,
        other privileges_withdrawn,
        other aa_compromise,
      )
      refl

-- Each reason is found by the text that is its value, and a text that is no reason's value stands
-- for the unspecified one.
pub from_string-value :
    (r : CertificateRevocationReason) (s : Text)
    → ((q : CertificateRevocationReason) → text_eq (value q) s ≡ false)
    → (from_string (value r) ≡ r) × (from_string s ≡ unspecified)
from_string-value r s other = (from_string-value_own r, from_string_other s other)
