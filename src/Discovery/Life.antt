-- ===== src/Discovery/Life.antt =====
-- Failing, finishing and deleting a discovery.
use pyadcs_connector.Text.{Text}
use pyadcs_connector.Prelude.{
  ℕ, ltb, Option-cases, count, ◌≡◌, refl, ◌≢◌, ◌⊎◌, inl, inr, some, arith, ok, err, Bool-cases,
  Exception, sym, ◌∙◌, ◌==◌, ==_iff, Result-cases, Result, ==_refl, ◌≤◌, false,
}
use pyadcs_connector.Text.Utf8.{Bytes}
use mathlib.Core.Path.{subst}
use pyadcs_connector.Db.{
  Db, DiscoveryHistory, IsConsistent, has_history_id, has_history_uuid, links_to, is_of,
}
use pyadcs_connector.Db.Rows.{
  find, count-update_where, delete_where, count-delete_where_found, find-none_of_count, find-count,
  count-delete_where_self, count-delete_where-le, count-delete_where_other,
}
use pyadcs_connector.Discovery.Persist.{persist}
use pyadcs_connector.Discovery.Persist.Laws.{persist-IsConsistent}
use pyadcs_connector.Discovery.{
  without_discovery, delete_discovery, delete_request, Collected, mark_failed, fail_discovery,
  finish_discovery,
}

delete_none :
    (uuid : Text) (db : Db)
    → count (has_history_uuid uuid) db.histories ≡ 0
    → delete_discovery uuid db ≡ (404, db)
unfolding delete_discovery
delete_none uuid db missing =
    rw (find-none_of_count (has_history_uuid uuid) db.histories missing, missing, delete_discovery)

delete_request-read :
    (to_python : Text → Result Text) (text uuid : Text) (db : Db)
    → to_python text ≡ ok uuid
    → delete_request to_python text db ≡ delete_discovery uuid db
unfolding delete_request
delete_request-read to_python text uuid db read = rw (read, delete_request)

module _ (uuid : Text) (db : Db) where
  -- A deletion changes nothing, or deletes the discovery that it finds.
  pub delete_cases :
      ((delete_discovery uuid db).1 ≡ db)
      ⊎ ((h : DiscoveryHistory) × (find (has_history_uuid uuid) db.histories ≡ some h)
          × ((delete_discovery uuid db).1 ≡ without_discovery h db))
  unfolding delete_discovery
  delete_cases = elim (Bool-cases (ltb 1 (count (has_history_uuid uuid) db.histories))) [
    | inl many ↦ inl (rw many)
    | inr few ↦ elim (Option-cases (find (has_history_uuid uuid) db.histories)) [
      | inl e ↦ inl (rw (few, e, delete_discovery))
      | inr (h, e) ↦ inr (h, e, rw (few, e, delete_discovery))
    ]
  ]

  pub delete_one :
      (h : DiscoveryHistory)
      → count (has_history_uuid uuid) db.histories ≤ 1
      → find (has_history_uuid uuid) db.histories ≡ some h
      → delete_discovery uuid db ≡ (204, without_discovery h db)
  unfolding delete_discovery
  delete_one h few e =
      let not_many : ltb 1 (count (has_history_uuid uuid) db.histories) ≡ false = ground arith in
      rw (not_many, e, delete_discovery)

  -- After a deletion of a UUID that one discovery has, nothing of the discovery is left, neither
  -- its row nor a link; the shared certificates stay, and so do the rows and the links of every
  -- other discovery.
  pub delete_cascades :
      (h : DiscoveryHistory) (i : ℕ)
      → count (has_history_uuid uuid) db.histories ≤ 1
      → find (has_history_uuid uuid) db.histories ≡ some h
      → i ≢ h.id
      → let db' = (delete_discovery uuid db).1 in
        (count (has_history_id h.id) db'.histories ≡ 0)
        × (count (is_of h.id) db'.links ≡ 0)
        × (db'.certificates ≡ db.certificates)
        × (count (has_history_id i) db'.histories ≡ count (has_history_id i) db.histories)
        × (count (is_of i) db'.links ≡ count (is_of i) db.links)
  delete_cascades h i few e ne = rw (delete_one h few e) (
    count-delete_where_self (has_history_id h.id) db.histories,
    count-delete_where_self (is_of h.id) db.links,
    refl,
    count-delete_where_other (has_history_id i) (has_history_id h.id) db.histories
        (λ x p. ground arith),
    count-delete_where_other (is_of i) (is_of h.id) db.links (λ x p. ground arith),
  )

  pub delete-IsConsistent : IsConsistent db → IsConsistent (delete_discovery uuid db).1
  delete-IsConsistent c = elim (delete_cases) [
    | inl e ↦ rw e c
    | inr (h, _, e) ↦ rw e (record {
      unique_fingerprint = c.unique_fingerprint;
      unique_certificate = c.unique_certificate;
      fresh_certificate = c.fresh_certificate;
      fresh_history = λ i lt. omega (
        arith,
        count-delete_where-le (has_history_id i) (has_history_id h.id) db.histories,
        c.fresh_history i lt,
      );
      unique_history = λ i. omega (
        arith,
        count-delete_where-le (has_history_id i) (has_history_id h.id) db.histories,
        c.unique_history i,
      );
      linked_certificate = λ i n.
          c.linked_certificate i
            (omega (arith, n, count-delete_where-le (links_to i) (is_of h.id) db.links));
      linked_history = λ i n. elim (Bool-cases (i == h.id)) [
        | inl same ↦ absurd (
            omega (
              arith,
              n,
              subst (λ j. count (is_of j) (delete_where (is_of h.id) db.links) ≡ 0)
                  (sym ((==_iff i h.id).0 same)) (count-delete_where_self (is_of h.id) db.links),
            ))
        | inr other ↦
            rw
              (count-delete_where_other (has_history_id i) (has_history_id h.id) db.histories
                (λ x p. ground arith))
              (c.linked_history i
                (omega (arith, n, count-delete_where-le (is_of i) (is_of h.id) db.links)))
      ];
    })
  ]

  -- Of two requests to delete the one discovery of a UUID, however each of them spells it, the
  -- first is answered with 204, and the second with 404 and changes nothing.
  pub delete_twice :
      (to_python : Text → Result Text) (first second : Text)
      → to_python first ≡ ok uuid
      → to_python second ≡ ok uuid
      → count (has_history_uuid uuid) db.histories ≡ 1
      → let (status, db') = delete_request to_python first db in
        (status ≡ 204) × (delete_request to_python second db' ≡ (404, db'))
  delete_twice to_python first second e1 e2 one =
      let (h, found) = find-count (has_history_uuid uuid) db.histories (omega (arith, one)) in
      let fewer =
        count-delete_where_found (has_history_uuid uuid) (has_history_id h.id) db.histories h found
          (==_refl h.id) in
      subst (λ r. (r.0 ≡ 204) × (delete_request to_python second r.1 ≡ (404, r.1)))
        (sym (
          delete_request-read to_python first uuid db e1 ∙ delete_one h (omega (arith, one)) found))
        (
          refl,
          delete_request-read to_python second uuid (without_discovery h db) e2
              ∙ delete_none uuid (without_discovery h db) (omega (arith, one, fewer)),
        )

  -- A failure changes the status and the metadata of the discovery and brings nothing back.
  pub fail_keeps :
      (reason : Text) (i : ℕ)
      → count (has_history_id i) (fail_discovery uuid reason db).histories
        ≡ count (has_history_id i) db.histories
  unfolding fail_discovery
  fail_keeps reason i =
      count-update_where (has_history_id i) (has_history_uuid uuid) (mark_failed reason)
        db.histories (λ x. refl)

  pub fail-IsConsistent :
      (reason : Text) → IsConsistent db → IsConsistent (fail_discovery uuid reason db)
  unfolding fail_discovery
  fail-IsConsistent reason c = record {
    unique_fingerprint = c.unique_fingerprint;
    unique_certificate = c.unique_certificate;
    fresh_certificate = c.fresh_certificate;
    linked_certificate = c.linked_certificate;
    fresh_history = λ i lt. fail_keeps reason i ∙ c.fresh_history i lt;
    unique_history = λ i. rw (fail_keeps reason i) (c.unique_history i);
    linked_history = λ i n. rw (fail_keeps reason i) (c.linked_history i n);
  }

module _ (sha256_hexdigest : Bytes → Text) (link_uuid : ℕ → Text) (str_of : Exception → Text) where
  -- However the collection of a discovery ends, the database is consistent afterwards.
  pub finish-IsConsistent :
      (dh : DiscoveryHistory) (collected : Collected) (db : Db)
      → IsConsistent db
      → IsConsistent (finish_discovery sha256_hexdigest link_uuid str_of dh collected db)
  unfolding finish_discovery
  finish-IsConsistent dh (err e) db c = fail-IsConsistent dh.uuid db (str_of e) c
  finish-IsConsistent dh (ok (cas, certificates)) db c =
      elim (Result-cases (persist sha256_hexdigest link_uuid cas dh.id certificates db)) [
        | inl (db', e) ↦
            rw (e, finish_discovery)
              (persist-IsConsistent sha256_hexdigest link_uuid cas dh.id certificates db db' c e)
        | inr (x, e) ↦ rw (e, finish_discovery) (fail-IsConsistent dh.uuid db (str_of x) c)
      ]
