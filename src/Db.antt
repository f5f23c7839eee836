-- ===== src/Db.antt =====
-- models/*.py: the tables of the connector, as lists of rows in the order of their insertion.
pub mod Rows
pub mod Authorities
use pyadcs_connector.Text.{Text, text_eq}
use pyadcs_connector.Prelude.{ℕ, ◌==◌, count, ◌≤◌, ◌<◌, ◌≡◌, Bool, Option, List}
use pyadcs_connector.Json.{Value}

pub record DiscoveryHistory : Type 0 where
  pub id : ℕ
  pub uuid : Text
  pub name : Text
  pub status : Text
  pub meta : Value

pub record Certificate : Type 0 where
  pub id : ℕ
  pub fingerprint : Text
  pub base64content : Text

pub record DiscoveryCertificate : Type 0 where
  pub id : ℕ
  pub uuid : Text
  pub meta : Value
  pub discovery : ℕ
  pub certificate : ℕ

-- The singleton row of the sweep's lease; a time is a number of seconds.
pub record CertificateCleanupState : Type 0 where
  pub last_run_at : Option ℕ

-- The tables, and the last value of each table's sequence of identifiers.
pub record Db : Type 0 where
  pub histories : List DiscoveryHistory
  pub certificates : List Certificate
  pub links : List DiscoveryCertificate
  pub cleanup_state : Option CertificateCleanupState
  pub history_seq : ℕ
  pub certificate_seq : ℕ
  pub link_seq : ℕ

-- Tests of rows.
abbrev pub has_fingerprint : Text → Certificate → Bool
has_fingerprint fp c = text_eq c.fingerprint fp

abbrev pub has_certificate_id : ℕ → Certificate → Bool
has_certificate_id i c = c.id == i

abbrev pub has_history_id : ℕ → DiscoveryHistory → Bool
has_history_id i h = h.id == i

abbrev pub has_history_uuid : Text → DiscoveryHistory → Bool
has_history_uuid u h = text_eq h.uuid u

abbrev pub links_to : ℕ → DiscoveryCertificate → Bool
links_to i l = l.certificate == i

abbrev pub is_of : ℕ → DiscoveryCertificate → Bool
is_of i l = l.discovery == i

-- What the database's constraints and sequences keep: fingerprints are unique, no identifier is
-- above its sequence, and every link names a certificate and a discovery that are there.
pub record IsConsistent (db : Db) : Type 0 where
  pub unique_fingerprint : (fp : Text) → count (has_fingerprint fp) db.certificates ≤ 1
  pub unique_certificate : (i : ℕ) → count (has_certificate_id i) db.certificates ≤ 1
  pub fresh_certificate :
      (i : ℕ) → db.certificate_seq < i → count (has_certificate_id i) db.certificates ≡ 0
  pub fresh_history : (i : ℕ) → db.history_seq < i → count (has_history_id i) db.histories ≡ 0
  pub unique_history : (i : ℕ) → count (has_history_id i) db.histories ≤ 1
  pub linked_certificate :
      (i : ℕ) → 0 < count (links_to i) db.links → 0 < count (has_certificate_id i) db.certificates
  pub linked_history :
      (i : ℕ) → 0 < count (is_of i) db.links → 0 < count (has_history_id i) db.histories
