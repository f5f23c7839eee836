-- ===== src/Discovery.antt =====
-- services/discovery_history.py and views/discovery_history.py: the life of a discovery.
pub mod Persist
pub mod Creation
pub mod Life
pub mod Response
pub mod Collect
pub mod Run
pub mod Settled
use pyadcs_connector.Prelude.{
  if◌then◌else◌, any, Exception, Result, ◌>>=◌, ◌>>◌, ℕ, suc, Bool, none, some, List, [], ◌∷◌, ◌++◌,
  ok, err, already_exist_exception, ltb, count, Option,
}
use pyadcs_connector.Text.{Text, text_eq}
use pyadcs_connector.Json.{Value, null, str, arr, of_list}
use pyadcs_connector.Dump.{AuthorityData, ParseResult}
use pyadcs_connector.Db.{Db, DiscoveryHistory, has_history_id, has_history_uuid, is_of}
use pyadcs_connector.Db.Rows.{find, update_where, delete_where}
use pyadcs_connector.Attribute.Discovery.{validate_discovery_kind}
use pyadcs_connector.Attribute.Metadata.{get_failed_reason_metadata_attribute}
use pyadcs_connector.Text.Utf8.{Bytes}
use pyadcs_connector.Discovery.Persist.{in_progress, failed, status_value, persist}

-- The request that starts a discovery. Its name and kind are texts.
pub record DiscoveryForm : Type 0 where
  pub name : Text
  pub kind : Text
  pub attributes : Value

abbrev pub has_name : Text → DiscoveryHistory → Bool
has_name name h = text_eq h.name name

-- `create_discovery_history`; `uuid` is the one that `uuid4` gives.
unfoldable pub create_discovery_history : Text → DiscoveryForm → Db → Result (DiscoveryHistory × Db)
unfolding validate_discovery_kind
create_discovery_history uuid form db =
    let next = suc db.history_seq in
    let row : DiscoveryHistory = record {
      id = next;
      uuid = uuid;
      name = form.name;
      status = status_value in_progress;
      meta = null;
    } in
    do
      validate_discovery_kind form.kind
      if any (has_name form.name) db.histories
          then err already_exist_exception
          else ok (row, record db { histories = db.histories ++ row ∷ []; history_seq = next })

-- A discovery is deleted and, by cascade, its links.
abbrev pub without_discovery : DiscoveryHistory → Db → Db
without_discovery h db = record db {
  histories = delete_where (has_history_id h.id) db.histories;
  links = delete_where (is_of h.id) db.links;
}

abbrev delete_found : Option DiscoveryHistory → Db → ℕ × Db
delete_found none db = (404, db)
delete_found (some h) db = (204, without_discovery h db)

-- The DELETE branch of `discovery_operations` for a UUID: the status of the response, 500 for an
-- exception that the view does not catch, and the database. `get` raises where it finds more than
-- one row.
unfoldable pub delete_discovery : Text → Db → ℕ × Db
delete_discovery uuid db =
    if ltb 1 (count (has_history_uuid uuid) db.histories)
    then (500, db)
    else delete_found (find (has_history_uuid uuid) db.histories) db

-- The DELETE branch for the text of the path, which `to_python` of the UUID column reads as the
-- canonical text of a UUID, or refuses with an exception that the view does not catch.
unfoldable pub delete_request : (Text → Result Text) → Text → Db → ℕ × Db
unfolding delete_discovery
delete_request to_python text db = elim (to_python text) [
  | ok uuid ↦ delete_discovery uuid db
  | err e ↦ (500, db)
]

-- What the collection over WinRM comes to: the CAs and the certificates, or an exception.
abbrev pub Collected : Type 0
Collected = Result (List AuthorityData × List ParseResult)

abbrev pub mark_failed : Text → DiscoveryHistory → DiscoveryHistory
mark_failed reason h = record h {
  status = status_value failed;
  meta = arr (of_list (get_failed_reason_metadata_attribute (str reason) ∷ []));
}

-- The handler of `run_discovery`: a filtered update, which brings nothing back.
unfoldable pub fail_discovery : Text → Text → Db → Db
fail_discovery uuid reason db = record db {
  histories = update_where (has_history_uuid uuid) (mark_failed reason) db.histories;
}

module _ (sha256_hexdigest : Bytes → Text) (link_uuid : ℕ → Text) (str_of : Exception → Text) where
  -- The end of `run_discovery`, from what was collected for the discovery that was there when the
  -- thread began. An exception, also one of the transaction, marks the discovery as failed.
  unfoldable pub finish_discovery : DiscoveryHistory → Collected → Db → Db
  unfolding fail_discovery
  finish_discovery dh (err e) db = fail_discovery dh.uuid (str_of e) db
  finish_discovery dh (ok (cas, certificates)) db =
      elim (persist sha256_hexdigest link_uuid cas dh.id certificates db) [
        | err e ↦ fail_discovery dh.uuid (str_of e) db
        | ok db' ↦ db'
      ]
