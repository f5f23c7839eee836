-- ===== src/System/Changes.antt =====
-- What the persistence transaction and the sweep change of each table.
use pyadcs_connector.Prelude.{
  ℕ, count, ◌≡◌, ◌<◌, refl, ap, ◌∙◌, sym, ◌⊎◌, inl, inr, List, [], ◌∷◌, ◌++◌, ok, Option-cases,
  >>=-eq-ok, ok-injective, arith, Bool, Bool-cases, any, suc,
}
use mathlib.Core.Path.{subst}
use pyadcs_connector.Discovery.{DiscoveryForm, has_name, create_discovery_history}
use pyadcs_connector.Attribute.Discovery.{validate_discovery_kind}
use pyadcs_connector.Text.{Text}
use pyadcs_connector.Text.Utf8.{Bytes}
use pyadcs_connector.Dump.{AuthorityData, ParseResult}
use pyadcs_connector.Db.{
  Db, DiscoveryHistory, DiscoveryCertificate, IsConsistent, has_history_id, has_fingerprint,
  has_certificate_id, is_of,
}
use pyadcs_connector.Db.Rows.{find, find-none, update_where}
use pyadcs_connector.Discovery.Persist.{
  complete, links_for, persist_found, persist, sorted_items, unique_from,
}
use pyadcs_connector.Discovery.Persist.Rows.{bulk_others}
use pyadcs_connector.Discovery.Persist.Links.{links_for-count}
use pyadcs_connector.Discovery.Persist.Laws.{inserted, persist-found, persist_deleted}
use pyadcs_connector.Cleanup.{Settings, Planner, claim_lease, delete_orphan_batch}
use pyadcs_connector.Cleanup.Batch.{batch-le, batch_safety}

-- The discovery's row is completed and links of it are added; nothing else of the two tables
-- changes.
pub record Added (discovery : ℕ) (db db' : Db) : Type 0 where
  pub new_links : List DiscoveryCertificate
  pub links_added : db'.links ≡ db.links ++ new_links
  pub of_discovery : (i : ℕ) → 0 < count (is_of i) new_links → discovery ≡ i
  pub histories_completed :
      db'.histories ≡ update_where (has_history_id discovery) complete db.histories
  pub same_history_seq : db'.history_seq ≡ db.history_seq

module _ (sha256_hexdigest : Bytes → Text) (link_uuid : ℕ → Text) where
  found_adds :
      (cas : List AuthorityData) (discovery : ℕ) (cs : List ParseResult) (db db' : Db)
      → persist_found sha256_hexdigest link_uuid cas discovery cs db ≡ ok db'
      → Added discovery db db'
  unfolding persist_found
  found_adds cas discovery cs db db' e =
      let db1 = inserted sha256_hexdigest link_uuid cs db in
      let unique = sorted_items (unique_from sha256_hexdigest link_uuid [] cs) in
      let (histories, links, _, seq) = bulk_others unique db in
      let (ls, made, e') =
        >>=-eq-ok
          (links_for sha256_hexdigest link_uuid cas discovery db1.certificates db1.link_seq cs) _
          e in
      let counts =
        links_for-count sha256_hexdigest link_uuid cas discovery db1.certificates db1.link_seq cs ls
          made in
      subst (Added discovery db) (ok-injective e') (record {
        new_links = ls;
        links_added = ap (λ l. l ++ ls) links;
        of_discovery = counts.1;
        histories_completed = ap (update_where (has_history_id discovery) complete) histories;
        same_history_seq = seq;
      })

  pub persist_adds :
      (cas : List AuthorityData) (discovery : ℕ) (cs : List ParseResult) (db db' : Db)
      → persist sha256_hexdigest link_uuid cas discovery cs db ≡ ok db'
      → (db ≡ db') ⊎ Added discovery db db'
  persist_adds cas discovery cs db db' e =
      elim (Option-cases (find (has_history_id discovery) db.histories)) [
        | inl gone ↦ inl (
            ok-injective (
              sym (
                persist_deleted sha256_hexdigest link_uuid cas discovery cs db
                  (find-none _ db.histories gone))
              ∙ e))
        | inr (dh, found) ↦ inr (
            found_adds cas discovery cs db db'
              (sym (persist-found sha256_hexdigest link_uuid cas discovery cs db dh found) ∙ e))
      ]

-- A batch keeps the database consistent.
pub batch-IsConsistent :
    (planner : Planner) (batch bound : ℕ) (db : Db)
    → IsConsistent db
    → IsConsistent (delete_orphan_batch planner batch bound db).1
unfolding delete_orphan_batch
batch-IsConsistent planner batch bound db c = record {
  unique_fingerprint = λ fp.
      omega (arith, batch-le planner batch bound db (has_fingerprint fp), c.unique_fingerprint fp);
  unique_certificate = λ i.
      omega (arith, batch-le planner batch bound db (has_certificate_id i), c.unique_certificate i);
  fresh_certificate = λ i lt.
      omega
        (arith, batch-le planner batch bound db (has_certificate_id i), c.fresh_certificate i lt);
  fresh_history = c.fresh_history;
  unique_history = c.unique_history;
  linked_certificate =
      λ i n. omega (arith, batch_safety planner batch bound db i (inl n), c.linked_certificate i n);
  linked_history = c.linked_history;
}

-- A batch leaves the discoveries and their links as they are.
pub batch_others :
    (planner : Planner) (batch bound : ℕ) (db : Db)
    → let db' = (delete_orphan_batch planner batch bound db).1 in
      (db'.histories ≡ db.histories) × (db'.links ≡ db.links) × (db'.history_seq ≡ db.history_seq)
unfolding delete_orphan_batch
batch_others planner batch bound db = (refl, refl, refl)

pub claim_others :
    (settings : Settings) (lock_free : Bool) (now : ℕ) (db : Db)
    → let db' = (claim_lease settings lock_free now db).1 in
      (db'.histories ≡ db.histories)
      × (db'.links ≡ db.links)
      × (db'.history_seq ≡ db.history_seq)
      × (db'.certificates ≡ db.certificates)
      × (db'.certificate_seq ≡ db.certificate_seq)
unfolding claim_lease
claim_others settings lock_free now db = ground arith

-- The row of a new discovery stands under the next identifier, and has no links.
pub record Started (uuid : Text) (db : Db) (h : DiscoveryHistory) (db' : Db) : Type 0 where
  pub next_id : h.id ≡ suc db.history_seq
  pub its_uuid : h.uuid ≡ uuid
  pub row_added : db'.histories ≡ db.histories ++ h ∷ []
  pub same_links : db'.links ≡ db.links
  pub same_certificates : db'.certificates ≡ db.certificates
  pub next_seq : db'.history_seq ≡ suc db.history_seq

pub create_adds :
    (uuid : Text) (form : DiscoveryForm) (db db' : Db) (h : DiscoveryHistory)
    → create_discovery_history uuid form db ≡ ok (h, db')
    → Started uuid db h db'
unfolding create_discovery_history
create_adds uuid form db db' h e =
    let (_, _, e1) = >>=-eq-ok (validate_discovery_kind form.kind) _ e in
    elim (Bool-cases (any (has_name form.name) db.histories)) [
      | inl taken ↦ absurd (cc (rw taken at e1))
      | inr new ↦
          let same = ok-injective (rw new at e1) in
          subst (λ p. Started uuid db p.0 p.1) same
            (record {
              next_id = refl;
              its_uuid = refl;
              row_added = refl;
              same_links = refl;
              same_certificates = refl;
              next_seq = refl;
            })
    ]
