-- ===== src/Discovery/Settled.antt =====
-- A discovery whose thread ends is no longer in progress.
use pyadcs_connector.Prelude.{
  ℕ, List, Exception, some, Result-cases, ok, err, >>=-eq-ok, ok-injective, inl, inr, ◌⊎◌, ◌≡◌,
  refl, sym, ap, ◌∙◌, ==_refl, if◌then◌else◌, [], count, ◌≤◌, arith,
}
use pyadcs_connector.Text.{Text}
use pyadcs_connector.Text.Utf8.{Bytes}
use pyadcs_connector.Text.Laws.{text_eq_refl}
use pyadcs_connector.Dump.{AuthorityData, ParseResult}
use pyadcs_connector.Db.{Db, DiscoveryHistory, has_history_id, has_history_uuid}
use pyadcs_connector.Db.Rows.{
  find, update_where, find-update_where, update_where_none, count-delete_where_found,
  count-delete_where_self,
}
use pyadcs_connector.Discovery.Life.{delete_one}
use pyadcs_connector.Discovery.Persist.Laws.{persist_deleted}
use pyadcs_connector.Discovery.{
  delete_discovery, without_discovery, Collected, mark_failed, fail_discovery, finish_discovery,
}
use pyadcs_connector.Discovery.Persist.{
  failed, completed, status_value, complete, persist, persist_found, links_for, unique_from,
  sorted_items, bulk_create_certificates,
}
use pyadcs_connector.Discovery.Persist.Rows.{bulk_others}

-- The row of the discovery is there, with one of the two statuses of an end.
abbrev pub HasEnded : DiscoveryHistory → Db → Type 0
HasEnded dh db =
    (h : DiscoveryHistory) × (find (has_history_id dh.id) db.histories ≡ some h)
    × ((h.status ≡ status_value completed) ⊎ (h.status ≡ status_value failed))

fail-HasEnded :
    (dh : DiscoveryHistory) (db : Db) (reason : Text)
    → find (has_history_id dh.id) db.histories ≡ some dh
    → HasEnded dh (fail_discovery dh.uuid reason db)
unfolding fail_discovery
fail-HasEnded dh db reason found = (
  mark_failed reason dh,
  find-update_where (has_history_id dh.id) (has_history_uuid dh.uuid) (mark_failed reason)
        db.histories dh (λ y. refl) found
      ∙ ap (λ b. some (if b then mark_failed reason dh else dh)) (text_eq_refl dh.uuid),
  inr refl,
)

module _ (sha256_hexdigest : Bytes → Text) (link_uuid : ℕ → Text) (str_of : Exception → Text) where
  persist-HasEnded :
      (cas : List AuthorityData) (dh : DiscoveryHistory) (certificates : List ParseResult)
      (db db' : Db)
      → find (has_history_id dh.id) db.histories ≡ some dh
      → persist_found sha256_hexdigest link_uuid cas dh.id certificates db ≡ ok db'
      → HasEnded dh db'
  unfolding persist_found
  persist-HasEnded cas dh certificates db db' found h =
      let unique = sorted_items (unique_from sha256_hexdigest link_uuid [] certificates) in
      let db1 = bulk_create_certificates unique db in
      let (links, _, made) =
        >>=-eq-ok
          (links_for sha256_hexdigest link_uuid cas dh.id db1.certificates db1.link_seq
            certificates)
          _ h in
      let same = (bulk_others unique db).0 in
      (
        complete dh,
        ap (λ (d : Db). find (has_history_id dh.id) d.histories) (sym (ok-injective made))
            ∙ (ap
                  (λ rows.
                    find (has_history_id dh.id) (update_where (has_history_id dh.id) complete rows))
                  same
                ∙ (find-update_where (has_history_id dh.id) (has_history_id dh.id) complete
                      db.histories dh (λ y. refl) found
                    ∙ ap (λ b. some (if b then complete dh else dh)) (==_refl dh.id))),
        inl refl,
      )

  -- A discovery that is still there as its thread read it is completed or failed when the thread ends,
  -- whatever was collected and whether or not it could be persisted.
  pub finish-HasEnded :
      (dh : DiscoveryHistory) (collected : Collected) (db : Db)
      → find (has_history_id dh.id) db.histories ≡ some dh
      → HasEnded dh (finish_discovery sha256_hexdigest link_uuid str_of dh collected db)
  unfolding finish_discovery persist find status_value
  finish-HasEnded dh (err e) db found = fail-HasEnded dh db (str_of e) found
  finish-HasEnded dh (ok (cas, certificates)) db found =
      elim (Result-cases (persist_found sha256_hexdigest link_uuid cas dh.id certificates db)) [
        | inl (db', e) ↦
            rw (found, persist, e, finish_discovery)
              (persist-HasEnded cas dh certificates db db' found e)
        | inr (x, e) ↦
            rw (found, persist, e, finish_discovery) (fail-HasEnded dh db (str_of x) found)
      ]

  -- A thread whose discovery is gone changes nothing.
  finish_gone :
      (dh : DiscoveryHistory) (collected : Collected) (db : Db)
      → count (has_history_id dh.id) db.histories ≡ 0
      → count (has_history_uuid dh.uuid) db.histories ≡ 0
      → finish_discovery sha256_hexdigest link_uuid str_of dh collected db ≡ db
  unfolding finish_discovery fail_discovery
  finish_gone dh (err e) db no_id no_uuid =
      ap (λ rows. record db { histories = rows })
        (update_where_none (has_history_uuid dh.uuid) (mark_failed (str_of e)) db.histories no_uuid)
  finish_gone dh (ok (cas, certificates)) db no_id no_uuid =
      rw
        (
          persist_deleted sha256_hexdigest link_uuid cas dh.id certificates db no_id,
          finish_discovery,
        )
        refl

  -- A discovery that is deleted before its thread ends is not brought back: whatever was
  -- collected, or failed, the end of the thread leaves the database as the deletion left it, where
  -- no other discovery has its UUID.
  pub finish-delete :
      (dh : DiscoveryHistory) (collected : Collected) (db : Db)
      → find (has_history_uuid dh.uuid) db.histories ≡ some dh
      → count (has_history_uuid dh.uuid) db.histories ≤ 1
      → let db' = (delete_discovery dh.uuid db).1 in
        finish_discovery sha256_hexdigest link_uuid str_of dh collected db' ≡ db'
  finish-delete dh collected db found few =
      let fewer =
        count-delete_where_found (has_history_uuid dh.uuid) (has_history_id dh.id) db.histories dh
          found (==_refl dh.id) in
      rw (delete_one dh.uuid db dh few found) (
        finish_gone dh collected (without_discovery dh db)
          (count-delete_where_self (has_history_id dh.id) db.histories) (omega (arith, few, fewer)))
