-- ===== src/Discovery/Persist/Laws.antt =====
-- What persisting a discovery does to the database.
use mathlib.Core.Path.{subst}
use pyadcs_connector.Text.{Text}
use pyadcs_connector.Prelude.{
  ℕ, Option-cases, count, All, ◌≤◌, ◌<◌, ◌≡◌, ◌∙◌, inl, inr, Bool, true, some, List, [], ◌∷◌, ◌++◌,
  arith, ok, ==_iff, length, >>=-eq-ok, ok-injective, ◌+◌, refl, ap, count-append, sym,
}
use pyadcs_connector.Text.Utf8.{Bytes}
use pyadcs_connector.Dump.{AuthorityData, ParseResult}
use pyadcs_connector.Db.{
  Db, DiscoveryHistory, Certificate, DiscoveryCertificate, IsConsistent, has_fingerprint,
  has_certificate_id, has_history_id, links_to, is_of,
}
use pyadcs_connector.Db.Rows.{
  find, find-some, find-none, count_of_find, update_where, count-update_where,
}
use pyadcs_connector.Discovery.Persist.{
  sorted_items, bulk_create_certificates, fp_of, unique_from, links_for, complete, persist_found,
  persist,
}
use pyadcs_connector.Discovery.Persist.Rows.{
  has_key, bulk-grows, bulk-HasKeys, bulk-has, bulk_others,
}
use pyadcs_connector.Discovery.Persist.Order.{has_key-sorted, unique-covers}
use pyadcs_connector.Discovery.Persist.Links.{LinksOf, links_for_total, links_for-count}

module _ (sha256_hexdigest : Bytes → Text) (link_uuid : ℕ → Text) where
  -- The certificate table after the insertion of what was collected.
  abbrev pub inserted : List ParseResult → Db → Db
  inserted cs db =
      bulk_create_certificates (sorted_items (unique_from sha256_hexdigest link_uuid [] cs)) db

  -- A discovery that was deleted during the collection is not brought back: nothing changes.
  pub persist_deleted :
      (cas : List AuthorityData) (discovery : ℕ) (cs : List ParseResult) (db : Db)
      → count (has_history_id discovery) db.histories ≡ 0
      → persist sha256_hexdigest link_uuid cas discovery cs db ≡ ok db
  unfolding persist
  persist_deleted cas discovery cs db h =
      elim (Option-cases (find (has_history_id discovery) db.histories)) [
        | inl e ↦ rw (e, persist)
        | inr (x, e) ↦ absurd (
            omega (
              arith,
              count_of_find (has_history_id discovery) (has_history_id discovery) db.histories x e
                  (find-some (has_history_id discovery) db.histories x e),
            ))
      ]

  covered :
      (cs es : List ParseResult) (db : Db)
      → All
          (λ c.
            has_key
              (fp_of sha256_hexdigest link_uuid c)
              (unique_from sha256_hexdigest link_uuid [] cs)
            ≡ true)
          es
      → All
          (λ c.
            0
            < count
                (has_fingerprint (fp_of sha256_hexdigest link_uuid c))
                (inserted cs db).certificates)
          es
  covered cs [] db h = tt
  covered cs (e ∷ es) db h = (
    bulk-has (sorted_items (unique_from sha256_hexdigest link_uuid [] cs)) db
        (fp_of sha256_hexdigest link_uuid e)
        (has_key-sorted (fp_of sha256_hexdigest link_uuid e)
            (unique_from sha256_hexdigest link_uuid [] cs)
          ∙ h.0),
    covered cs es db h.1,
  )

  -- What is there after a discovery was persisted.
  pub record Persisted (ca : AuthorityData) (discovery : ℕ) (cs : List ParseResult) (db db' : Db)
      : Type 0 where
    pub new_links : List DiscoveryCertificate
    pub links_added : db'.links ≡ db.links ++ new_links
    pub one_for_each : LinksOf sha256_hexdigest link_uuid ca db'.certificates discovery cs new_links
    pub completed_status :
        db'.histories ≡ update_where (has_history_id discovery) complete db.histories
    pub certificates_kept :
        (q : Certificate → Bool) → count q db.certificates ≤ count q db'.certificates

  found_completes :
      (ca : AuthorityData) (cas : List AuthorityData) (discovery : ℕ) (cs : List ParseResult)
      (db : Db)
      → (db' : Db) × (persist_found sha256_hexdigest link_uuid (ca ∷ cas) discovery cs db ≡ ok db')
        × Persisted ca discovery cs db db'
  unfolding persist_found
  found_completes ca cas discovery cs db =
      let db1 = inserted cs db in
      let unique = sorted_items (unique_from sha256_hexdigest link_uuid [] cs) in
      let (histories, links, _, _) = bulk_others unique db in
      let (ls, made, good) =
        links_for_total sha256_hexdigest link_uuid ca cas discovery db1.certificates db1.link_seq cs
          (covered cs cs db (unique-covers sha256_hexdigest link_uuid [] cs)) in
      (
        record db1 {
          histories = update_where (has_history_id discovery) complete db1.histories;
          links = db1.links ++ ls;
          link_seq = db1.link_seq + length ls;
        },
        rw made,
        record {
          new_links = ls;
          links_added = ap (λ l. l ++ ls) links;
          one_for_each = good;
          completed_status = ap (update_where (has_history_id discovery) complete) histories;
          certificates_kept = bulk-grows unique db;
        },
      )

  pub persist-found :
      (cas : List AuthorityData) (discovery : ℕ) (cs : List ParseResult) (db : Db)
      (dh : DiscoveryHistory)
      → find (has_history_id discovery) db.histories ≡ some dh
      → persist sha256_hexdigest link_uuid cas discovery cs db
        ≡ persist_found sha256_hexdigest link_uuid cas discovery cs db
  unfolding persist
  persist-found cas discovery cs db dh found =
      rw (found, persist)
        (ap (λ i. persist_found sha256_hexdigest link_uuid cas i cs db)
          ((==_iff dh.id discovery).0 (find-some (has_history_id discovery) db.histories dh found)))

  -- While the discovery is there, and there is a CA, persisting succeeds: each collected
  -- certificate gets one link, in order, to the row of its fingerprint; the discovery is
  -- completed; and of no kind of certificate are there fewer than before.
  pub persist_completes :
      (ca : AuthorityData) (cas : List AuthorityData) (discovery : ℕ) (cs : List ParseResult)
      (db : Db) (dh : DiscoveryHistory)
      → find (has_history_id discovery) db.histories ≡ some dh
      → (db' : Db) × (persist sha256_hexdigest link_uuid (ca ∷ cas) discovery cs db ≡ ok db')
        × Persisted ca discovery cs db db'
  persist_completes ca cas discovery cs db dh found =
      let (db', made, good) = found_completes ca cas discovery cs db in
      (db', persist-found (ca ∷ cas) discovery cs db dh found ∙ made, good)

  -- A history that is completed stays under its identifier.
  complete-id : (i : ℕ) (h : DiscoveryHistory) → has_history_id i (complete h) ≡ has_history_id i h
  complete-id i h = refl

  persist_found-IsConsistent :
      (cas : List AuthorityData) (discovery : ℕ) (cs : List ParseResult) (db db' : Db)
      → 0 < count (has_history_id discovery) db.histories
      → IsConsistent db
      → persist_found sha256_hexdigest link_uuid cas discovery cs db ≡ ok db'
      → IsConsistent db'
  unfolding persist_found
  persist_found-IsConsistent cas discovery cs db db' there h e =
      let db1 = inserted cs db in
      let unique = sorted_items (unique_from sha256_hexdigest link_uuid [] cs) in
      let (histories, links, _, seq) = bulk_others unique db in
      let (ls, made, e') =
        >>=-eq-ok
          (links_for sha256_hexdigest link_uuid cas discovery db1.certificates db1.link_seq cs) _
          e in
      let (to, of) =
        links_for-count sha256_hexdigest link_uuid cas discovery db1.certificates db1.link_seq cs ls
          made in
      let same_histories : (i : ℕ)
          → count (has_history_id i)
              (update_where (has_history_id discovery) complete db1.histories)
            ≡ count (has_history_id i) db.histories =
        λ i.
          count-update_where (has_history_id i) (has_history_id discovery) complete db1.histories
            (complete-id i)
          ∙ ap (count (has_history_id i)) histories in
      let keys = bulk-HasKeys unique db (record {
        unique_fingerprint = h.unique_fingerprint;
        unique_certificate = h.unique_certificate;
        fresh_certificate = h.fresh_certificate;
      }) in
      subst IsConsistent (ok-injective e') (record {
        unique_fingerprint = keys.unique_fingerprint;
        unique_certificate = keys.unique_certificate;
        fresh_certificate = keys.fresh_certificate;
        fresh_history = λ i lt. same_histories i ∙ h.fresh_history i (subst (λ n. n < i) seq lt);
        unique_history = λ i. rw (same_histories i) (h.unique_history i);
        linked_certificate = λ i n. ground (
          arith,
          count-append (links_to i) db1.links ls,
          ap (count (links_to i)) links,
          to i,
          h.linked_certificate i,
          bulk-grows unique db (has_certificate_id i),
        );
        linked_history = λ i n. rw (same_histories i) (
            ground (
              arith,
              count-append (is_of i) db1.links ls,
              ap (count (is_of i)) links,
              of i,
              h.linked_history i,
              λ (e : discovery ≡ i). subst (λ j. 0 < count (has_history_id j) db.histories) e there,
            ));
      })

  -- Persisting keeps the database consistent.
  pub persist-IsConsistent :
      (cas : List AuthorityData) (discovery : ℕ) (cs : List ParseResult) (db db' : Db)
      → IsConsistent db
      → persist sha256_hexdigest link_uuid cas discovery cs db ≡ ok db'
      → IsConsistent db'
  persist-IsConsistent cas discovery cs db db' h e =
      elim (Option-cases (find (has_history_id discovery) db.histories)) [
        | inl gone ↦
            subst IsConsistent
              (ok-injective
                (sym (persist_deleted cas discovery cs db (find-none _ db.histories gone)) ∙ e))
              h
        | inr (dh, found) ↦
            persist_found-IsConsistent cas discovery cs db db'
              (count_of_find (has_history_id discovery) (has_history_id discovery) db.histories dh
                found (find-some (has_history_id discovery) db.histories dh found))
              h (sym (persist-found cas discovery cs db dh found) ∙ e)
      ]
