-- ===== src/Tests/Database.antt =====
-- A small database with a running and a completed discovery.
use pyadcs_connector.Text.{Text, codes, text_eq}
use pyadcs_connector.Prelude.{
  ℕ, count, Exception, String, ◌≡◌, refl, none, some, List, [], ◌∷◌, arith, ok, Result,
}
use pyadcs_connector.Text.Utf8.{Bytes, encode}
use pyadcs_connector.Json.{null, str}
use pyadcs_connector.Dump.{AuthorityData, ParseResult}
use pyadcs_connector.Db.{
  Db, DiscoveryHistory, Certificate, DiscoveryCertificate, IsConsistent, has_history_id, is_of,
}
use pyadcs_connector.Db.Rows.{find, update_where}
use pyadcs_connector.Discovery.{DiscoveryForm, delete_discovery, delete_request, finish_discovery}
use pyadcs_connector.Prelude.{if◌then◌else◌}
use pyadcs_connector.Discovery.Settled.{HasEnded, finish-HasEnded, finish-delete}
use pyadcs_connector.Discovery.Life.{delete_twice, delete_cascades, finish-IsConsistent}
use pyadcs_connector.Fingerprint.{certificate_fingerprint}
use pyadcs_connector.Discovery.Persist.{
  sorted_items, meta_of, get_certificate_meta, status_value, persist, bulk_create_certificates,
  id_by_fp, links_for,
}
use pyadcs_connector.Discovery.Persist.Inserted.{Ascends, persist-Ascends}
use pyadcs_connector.Discovery.Persist.Laws.{Persisted, persist_completes, persist-IsConsistent}
use pyadcs_connector.Cleanup.{Planner}

-- Stand-ins for what the connector does not implement.
abbrev pub digest : Bytes → Text
digest bytes = bytes

abbrev pub uuid_of : ℕ → Text
uuid_of n = n ∷ []

abbrev pub message : Exception → Text
message e = codes "error"

abbrev pub in_table : Planner
in_table = record { order = λ rows. rows; same_rows = λ p rows. refl }

abbrev pub history : ℕ → String → String → String → DiscoveryHistory
history i uuid name status = record {
  id = i;
  uuid = codes uuid;
  name = codes name;
  status = codes status;
  meta = null;
}

abbrev pub certificate : ℕ → String → Certificate
certificate i content = record {
  id = i;
  fingerprint = codes content;
  base64content = codes content;
}

abbrev link : ℕ → ℕ → ℕ → DiscoveryCertificate
link i d c = record { id = i; uuid = i ∷ []; meta = null; discovery = d; certificate = c }

-- Certificate 1 is linked by discovery 1; certificates 2 and 3 are orphans.
abbrev pub database : Db
database = record {
  histories = history 1 "u1" "first" "completed" ∷ history 2 "u2" "second" "inProgress" ∷ [];
  certificates = certificate 1 "AA" ∷ certificate 2 "BB" ∷ certificate 3 "CC" ∷ [];
  links = link 1 1 1 ∷ [];
  cleanup_state = some (record { last_run_at = none });
  history_seq = 2;
  certificate_seq = 3;
  link_seq = 1;
}

abbrev empty : Db
empty = record {
  histories = [];
  certificates = [];
  links = [];
  cleanup_state = none;
  history_seq = 0;
  certificate_seq = 0;
  link_seq = 0;
}

abbrev pub ca : AuthorityData
ca = record {
  name = str (codes "CA");
  display_name = str (codes "CA");
  computer_name = str (codes "host");
  config_string = str (codes "host\\CA");
  ca_type = str [];
  is_enterprise = null;
  is_root = null;
  is_accessible = null;
  service_status = null;
}

abbrev pub collected : List ParseResult
collected =
    record { template = codes "Web"; certificate = codes "DD" }
    ∷ record { template = codes "User"; certificate = codes "AA" }
    ∷ record { template = codes "Web"; certificate = codes "DD" }
    ∷ []

persist_completes_example :
    (db' : Db) × (persist digest uuid_of (ca ∷ []) 2 collected database ≡ ok db')
    × Persisted digest uuid_of ca 2 collected database db'
unfolding find
persist_completes_example =
    persist_completes digest uuid_of ca [] 2 collected database
      (history 2 "u2" "second" "inProgress") refl

finish-delete_example :
    let db' = (delete_discovery (codes "u2") database).1 in
    finish_discovery digest uuid_of message
      (history 2 "u2" "second" "inProgress")
      (ok (ca ∷ [], collected))
      db'
    ≡ db'
unfolding find text_eq
finish-delete_example =
    finish-delete digest uuid_of message (history 2 "u2" "second" "inProgress")
      (ok (ca ∷ [], collected)) database refl (omega arith)

delete_cascades_example :
    let db' = (delete_discovery (codes "u1") database).1 in
    (count (has_history_id 1) db'.histories ≡ 0)
    × (count (is_of 1) db'.links ≡ 0)
    × (db'.certificates ≡ database.certificates)
    × (count (has_history_id 2) db'.histories ≡ count (has_history_id 2) database.histories)
    × (count (is_of 2) db'.links ≡ count (is_of 2) database.links)
unfolding find text_eq
delete_cascades_example =
    delete_cascades (codes "u1") database (history 1 "u1" "first" "completed") 2 (omega arith) refl
      (λ e. absurd (omega (arith, e)))

-- A UUID column that reads a UUID in capitals too.
abbrev read_uuid : Text → Result Text
read_uuid text = if text_eq text (codes "U1") then ok (codes "u1") else ok text

delete_twice_example :
    let (status, db') = delete_request read_uuid (codes "u1") database in
    (status ≡ 204) × (delete_request read_uuid (codes "U1") db' ≡ (404, db'))
unfolding text_eq
delete_twice_example =
    delete_twice (codes "u1") database read_uuid (codes "u1") (codes "U1") refl refl refl

abbrev form : DiscoveryForm
form = record { name = codes "new"; kind = codes "PyADCS-WinRM"; attributes = null }

abbrev created : Db
created = record empty { histories = history 1 "u1" "new" "inProgress" ∷ []; history_seq = 1 }

-- A consistent database is what a creation leaves.
created-IsConsistent : IsConsistent created
created-IsConsistent = grind arith

abbrev one : List ParseResult
one = record { template = codes "Web"; certificate = codes "DD" } ∷ []

abbrev persisted : Db
persisted = record created {
  histories = history 1 "u1" "new" "completed" ∷ [];
  certificates = certificate 1 "DD" ∷ [];
  certificate_seq = 1;
  links =
      record {
        id = 1;
        uuid = 1 ∷ [];
        meta = meta_of ca (codes "Web");
        discovery = 1;
        certificate = 1;
      }
      ∷ [];
  link_seq = 1;
}

persist_run : persist digest uuid_of (ca ∷ []) 1 one created ≡ ok persisted
unfolding persist find sorted_items bulk_create_certificates text_eq links_for id_by_fp
    get_certificate_meta certificate_fingerprint encode update_where status_value
persist_run = refl

persist-Ascends_example : Ascends digest uuid_of one created.certificates persisted.certificates
persist-Ascends_example =
    persist-Ascends digest uuid_of (ca ∷ []) 1 one created persisted persist_run

persist-IsConsistent_example : IsConsistent persisted
persist-IsConsistent_example =
    persist-IsConsistent digest uuid_of (ca ∷ []) 1 one created persisted created-IsConsistent
      persist_run

finish-IsConsistent_example : IsConsistent (
    finish_discovery digest uuid_of message
      (history 1 "u1" "new" "inProgress")
      (ok (ca ∷ [], collected))
      created)
finish-IsConsistent_example =
    finish-IsConsistent digest uuid_of message (history 1 "u1" "new" "inProgress")
      (ok (ca ∷ [], collected)) created created-IsConsistent

finish-HasEnded_example : HasEnded (history 1 "u1" "new" "inProgress") (
    finish_discovery digest uuid_of message
      (history 1 "u1" "new" "inProgress")
      (ok (ca ∷ [], collected))
      created)
unfolding find
finish-HasEnded_example =
    finish-HasEnded digest uuid_of message (history 1 "u1" "new" "inProgress")
      (ok (ca ∷ [], collected)) created refl
