-- ===== src/Migration.antt =====
-- migrations/0002_shared_certificate_store.py: from a table that holds the content of every
-- discovered certificate to the shared certificate table.
pub mod Numbered
pub mod First
pub mod Laws
pub mod Backfill
use pyadcs_connector.Prelude.{
  ℕ, suc, List, [], ◌∷◌, Option, none, some, Bool, not, ◌&&◌, ltb, any, count, select, map, length,
  ◌≡◌,
}
use pyadcs_connector.Text.{Text, text_eq}
use pyadcs_connector.Text.Utf8.{Bytes}
use pyadcs_connector.Fingerprint.{certificate_fingerprint}
use pyadcs_connector.Json.{Value}
use pyadcs_connector.Db.{
  Db, DiscoveryHistory, Certificate, DiscoveryCertificate, has_history_id, has_fingerprint,
}
use pyadcs_connector.Db.Rows.{find, delete_where}

-- A row of `discovery_certificate` as migration 0001 made it; the discovery is a bare number.
pub record OldLink : Type 0 where
  pub id : ℕ
  pub uuid : Text
  pub base64content : Text
  pub discovery_id : ℕ
  pub meta : Value

pub record OldDb : Type 0 where
  pub histories : List DiscoveryHistory
  pub links : List OldLink
  pub history_seq : ℕ
  pub link_seq : ℕ

-- `EXISTS (SELECT 1 FROM discovery_history dh WHERE dh.id = dc.discovery_id)`
abbrev pub is_live : List DiscoveryHistory → OldLink → Bool
is_live histories l = any (has_history_id l.discovery_id) histories

abbrev pub is_dangling : List DiscoveryHistory → OldLink × Option ℕ → Bool
is_dangling histories (l, _) = not (is_live histories l)

-- The order in which the INSERT comes upon the rows of its SELECT, which SQL leaves open.
pub record Order : Type 0 where
  pub order : List OldLink → List OldLink
  pub same_rows : (p : OldLink → Bool) (rows : List OldLink) → count p (order rows) ≡ count p rows

abbrev pub link_of : OldLink → ℕ → DiscoveryCertificate
link_of l certificate = record {
  id = l.id;
  uuid = l.uuid;
  meta = l.meta;
  discovery = l.discovery_id;
  certificate = certificate;
}

abbrev pub id_or_null : Option Certificate → Option ℕ
id_or_null none = none
id_or_null (some c) = some c.id

abbrev pub cons_link :
    OldLink → Option ℕ → Option (List DiscoveryCertificate) → Option (List DiscoveryCertificate)
cons_link l none rest = none
cons_link l (some i) none = none
cons_link l (some i) (some ls) = some (link_of l i ∷ ls)

-- NOT NULL on the new column, which fails where a row has no certificate.
unfoldable pub not_null : List (OldLink × Option ℕ) → Option (List DiscoveryCertificate)
not_null [] = some []
not_null ((l, i) ∷ rows) = cons_link l i (not_null rows)

module _ (sha256_hexdigest : Bytes → Text) where
  abbrev pub fp_of_row : OldLink → Text
  fp_of_row l = certificate_fingerprint sha256_hexdigest l.base64content

  -- `row_number() OVER (PARTITION BY fp ORDER BY id) = 1`: no row of the fingerprint has a lower
  -- identifier. Identifiers are unique.
  abbrev pub is_first : List OldLink → OldLink → Bool
  is_first rows l = not (any (λ m. text_eq (fp_of_row m) (fp_of_row l) && ltb m.id l.id) rows)

  -- The rows of the INSERT, numbered by the sequence of the new table.
  unfoldable pub numbered : ℕ → List OldLink → List Certificate
  numbered seq [] = []
  numbered seq (l ∷ ls) =
      record { id = suc seq; fingerprint = fp_of_row l; base64content = l.base64content }
      ∷ numbered (suc seq) ls

  -- One row of the UPDATE; fingerprints are unique, so there is at most one certificate.
  abbrev pub backfilled : List Certificate → OldLink → OldLink × Option ℕ
  backfilled certificates l = (l, id_or_null (find (has_fingerprint (fp_of_row l)) certificates))

  module _ (chosen_order : Order) where
    -- The rows that the INSERT selects.
    abbrev pub chosen : OldDb → List OldLink
    chosen old =
        let live = select (is_live old.histories) old.links in
        chosen_order.order (select (is_first live) live)

    abbrev with_links : OldDb → List Certificate → Option (List DiscoveryCertificate) → Option Db
    with_links old certificates none = none
    with_links old certificates (some links) = some (record {
      histories = old.histories;
      certificates = certificates;
      links = links;
      cleanup_state = some (record { last_run_at = none });
      history_seq = old.history_seq;
      certificate_seq = length certificates;
      link_seq = old.link_seq;
    })

    -- The migration is one transaction; `none` is one that is rolled back.
    unfoldable pub migrate : OldDb → Option Db
    migrate old =
        let certificates = numbered 0 (chosen old) in
        with_links old certificates (
          not_null
            (delete_where (is_dangling old.histories) (map (backfilled certificates) old.links)))
