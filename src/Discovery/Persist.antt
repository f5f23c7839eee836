-- ===== src/Discovery/Persist.antt =====
-- The transaction of `discover_certificates`: what the collected certificates become in the
-- database.
pub mod Rows
pub mod Order
pub mod Inserted
pub mod Links
pub mod Laws
use pyadcs_connector.Text.{Text, codes, text_eq, text_lt}
use pyadcs_connector.Prelude.{
  ℕ, if◌then◌else◌, length, any, Result, ◌>>=◌, ◌>>◌, suc, ◌+◌, Option, none, some, List, [], ◌∷◌,
  ◌++◌, ok, err, key_error, index_error,
}
use pyadcs_connector.Text.Utf8.{Bytes}
use pyadcs_connector.Fingerprint.{certificate_fingerprint}
use pyadcs_connector.Json.{Value, str, arr, of_list}
use pyadcs_connector.Dump.{AuthorityData, ParseResult}
use pyadcs_connector.Db.{
  Db, DiscoveryHistory, Certificate, DiscoveryCertificate, has_history_id, has_fingerprint,
}
use pyadcs_connector.Db.Rows.{find, update_where}
use pyadcs_connector.Attribute.Metadata.{
  get_ca_name_metadata_attribute, get_template_name_metadata_attribute,
}

-- utils/discovery_status.py
pub data DiscoveryStatus : Type 0 where
  in_progress failed completed warning : DiscoveryStatus

-- `.value`
unfoldable pub status_value : DiscoveryStatus → Text
status_value in_progress = codes "inProgress"
status_value failed = codes "failed"
status_value completed = codes "completed"
status_value warning = codes "warning"

-- A dictionary from fingerprints, its entries in the order in which the keys were first put.
abbrev pub Unique : Type 0
Unique = List (Text × ParseResult)

unfoldable pub dict_put : Text → ParseResult → Unique → Unique
dict_put k v [] = (k, v) ∷ []
dict_put k v ((j, w) ∷ m) = if text_eq j k then (j, v) ∷ m else (j, w) ∷ dict_put k v m

-- `sorted(unique.items())`; no two keys are equal, so the values are never compared
unfoldable pub insert_item : Text × ParseResult → Unique → Unique
insert_item (k, v) [] = (k, v) ∷ []
insert_item (k, v) ((j, w) ∷ m) =
    if text_lt j k then (j, w) ∷ insert_item (k, v) m else (k, v) ∷ (j, w) ∷ m

unfoldable pub sorted_items : Unique → Unique
unfolding insert_item
sorted_items [] = []
sorted_items (kv ∷ m) = insert_item kv (sorted_items m)

abbrev pub new_certificate : ℕ → Text → Text → Certificate
new_certificate i fp content = record { id = i; fingerprint = fp; base64content = content }

-- One row of `bulk_create(…, ignore_conflicts=True)`: a fingerprint that is there already is
-- skipped, and takes a number from the sequence all the same.
unfoldable pub insert_certificate : Text → Text → Db → Db
insert_certificate fp content db =
    let next = suc db.certificate_seq in
    let row : Certificate = new_certificate next fp content in
    if any (has_fingerprint fp) db.certificates
    then record db { certificate_seq = next }
    else record db { certificates = db.certificates ++ row ∷ []; certificate_seq = next }

unfoldable pub bulk_create_certificates : Unique → Db → Db
unfolding insert_certificate
bulk_create_certificates [] db = db
bulk_create_certificates ((fp, c) ∷ m) db =
    bulk_create_certificates m (insert_certificate fp c.certificate db)

abbrev pub id_or_key_error : Option Certificate → Result ℕ
id_or_key_error none = err key_error
id_or_key_error (some c) = ok c.id

-- `id_by_fp[fp]`
unfoldable pub id_by_fp : List Certificate → Text → Result ℕ
id_by_fp certificates fp = id_or_key_error (find (has_fingerprint fp) certificates)

abbrev pub meta_of : AuthorityData → Text → Value
meta_of ca template_name = arr (
    of_list (
      get_ca_name_metadata_attribute ca.name
      ∷ get_template_name_metadata_attribute (str template_name)
      ∷ []))

-- `get_certificate_meta`: the name is that of the first CA, whichever issued the certificate.
unfoldable pub get_certificate_meta : List AuthorityData → Text → Result Value
get_certificate_meta [] template_name = err index_error
get_certificate_meta (ca ∷ cas) template_name = ok (meta_of ca template_name)

abbrev pub complete : DiscoveryHistory → DiscoveryHistory
complete h = record h { status = status_value completed }

-- What the connector does not implement: SHA-256, and the choice of a link's UUID, here by the
-- number of its row.
module _ (sha256_hexdigest : Bytes → Text) (link_uuid : ℕ → Text) where
  abbrev pub fp_of : ParseResult → Text
  fp_of c = certificate_fingerprint sha256_hexdigest c.certificate

  -- `dict(zip(fingerprints, total_certificates))`, from the entries put so far
  unfoldable pub unique_from : Unique → List ParseResult → Unique
  unfolding dict_put
  unique_from m [] = m
  unique_from m (c ∷ cs) = unique_from (dict_put (fp_of c) c m) cs

  -- The rows that link the collected certificates, in their order.
  unfoldable pub links_for :
      List AuthorityData
      → ℕ
      → List Certificate
      → ℕ
      → List ParseResult
      → Result (List DiscoveryCertificate)
  links_for cas discovery rows seq [] = ok []
  links_for cas discovery rows seq (c ∷ cs) = do
    certificate ← id_by_fp rows (fp_of c)
    meta ← get_certificate_meta cas c.template
    rest ← links_for cas discovery rows (suc seq) cs
    ok (
        record {
          id = suc seq;
          uuid = link_uuid (suc seq);
          meta = meta;
          discovery = discovery;
          certificate = certificate;
        }
        ∷ rest)

  -- The part of the transaction behind the check that the discovery is still there.
  unfoldable pub persist_found : List AuthorityData → ℕ → List ParseResult → Db → Result Db
  unfolding unique_from
  persist_found cas discovery total_certificates db =
      let unique = unique_from [] total_certificates in
      let db' = bulk_create_certificates (sorted_items unique) db in
      do
        links ← links_for cas discovery db'.certificates db'.link_seq total_certificates
        ok (record db' {
          histories = update_where (has_history_id discovery) complete db'.histories;
          links = db'.links ++ links;
          link_seq = db'.link_seq + length links;
        })

  -- An error rolls the transaction back; a discovery that was deleted meanwhile is left alone.
  unfoldable pub persist : List AuthorityData → ℕ → List ParseResult → Db → Result Db
  unfolding persist_found
  persist cas discovery total_certificates db =
      elim (find (has_history_id discovery) db.histories) [
        | none ↦ ok db
        | some dh ↦ persist_found cas dh.id total_certificates db
      ]
