-- ===== src/Migration/Backfill.antt =====
-- The whole migration.
use pyadcs_connector.Prelude.{
  ℕ, List, [], some, any, count, select, map, length, ◌≡◌, refl, ap, ◌∙◌, arith, if◌then◌else◌, inr,
  count-select_le, none,
}
use pyadcs_connector.Text.{Text}
use pyadcs_connector.Text.Utf8.{Bytes}
use pyadcs_connector.Db.{Db, Certificate, IsConsistent, has_history_id, has_fingerprint}
use pyadcs_connector.Store.{store_of}
use pyadcs_connector.Migration.{OldLink, OldDb, Order, is_live, is_first, numbered, chosen, migrate}
use pyadcs_connector.Migration.Numbered.{
  length-numbered, numbered-fp, numbered_outside, numbered_unique, numbered-IsLabelled,
}
use pyadcs_connector.Migration.First.{has_old_id, has_fp, first_there, first_unique}
use pyadcs_connector.Migration.Laws.{
  of_old, old_content, old_store, IsKeyed, map_if, delete-map, select-live, live_history, Linked,
  all-Linked,
}

module _ (sha256_hexdigest : Bytes → Text)
    (apart : (b c : Bytes) → sha256_hexdigest b ≡ sha256_hexdigest c → b ≡ c) (chosen_order : Order)
    (old : OldDb) (keyed : IsKeyed old) where
  abbrev live : List OldLink
  live = select (is_live old.histories) old.links

  abbrev certificates : List Certificate
  certificates = numbered sha256_hexdigest 0 (chosen sha256_hexdigest chosen_order old)

  -- A fingerprint has as many certificates as first rows.
  count_certificates :
      (fp : Text)
      → count (has_fingerprint fp) certificates
        ≡ count (has_fp sha256_hexdigest live fp) (select (is_first sha256_hexdigest live) live)
  count_certificates fp =
      numbered-fp sha256_hexdigest 0 (chosen sha256_hexdigest chosen_order old) fp
      ∙ chosen_order.same_rows (has_fp sha256_hexdigest live fp)
          (select (is_first sha256_hexdigest live) live)

  linked :
      Linked sha256_hexdigest apart certificates
        (numbered_unique sha256_hexdigest 0 (chosen sha256_hexdigest chosen_order old))
        (numbered-IsLabelled sha256_hexdigest 0 (chosen sha256_hexdigest chosen_order old))
        live
  linked =
      all-Linked sha256_hexdigest apart certificates
        (numbered_unique sha256_hexdigest 0 (chosen sha256_hexdigest chosen_order old))
        (numbered-IsLabelled sha256_hexdigest 0 (chosen sha256_hexdigest chosen_order old)) live
        (λ fp n. rw (count_certificates fp) (first_there sha256_hexdigest live fp n))

  abbrev migrated : Db
  migrated = record {
    histories = old.histories;
    certificates = certificates;
    links = linked.links;
    cleanup_state = some (record { last_run_at = none });
    history_seq = old.history_seq;
    certificate_seq = length certificates;
    link_seq = old.link_seq;
  }

  migrate_makes : migrate sha256_hexdigest chosen_order old ≡ some migrated
  unfolding migrate
  migrate_makes =
      rw (delete-map old.histories certificates sha256_hexdigest old.links, linked.made) refl

  migrated-IsConsistent : IsConsistent migrated
  migrated-IsConsistent =
      let rows = chosen sha256_hexdigest chosen_order old in
      record {
        unique_fingerprint = λ fp. rw (count_certificates fp) (
            first_unique sha256_hexdigest live fp (λ i. omega (
              arith,
              count-select_le (has_old_id i) (is_live old.histories) old.links,
              keyed.unique_link i,
            )));
        unique_certificate = numbered_unique sha256_hexdigest 0 rows;
        fresh_certificate = λ i lt.
            numbered_outside sha256_hexdigest 0 rows i
              (inr (omega (arith, lt, length-numbered sha256_hexdigest 0 rows)));
        fresh_history = keyed.fresh_history;
        unique_history = keyed.unique_history;
        linked_certificate = linked.to_there;
        linked_history =
            λ i n. live_history old.histories i old.links (omega (arith, n, linked.of_same i));
      }

  -- Where SHA-256 tells all bytes apart and the old tables keep their keys, the migration is not
  -- rolled back, whichever order the rows are inserted in; the new database is consistent; and a
  -- discovery that is there has the certificates that it had, in their order, while a number that
  -- names no discovery has none.
  pub migrate_keeps :
      (db : Db) × (migrate sha256_hexdigest chosen_order old ≡ some db)
      × IsConsistent db
      × ((i : ℕ)
          → store_of db i ≡ (if any (has_history_id i) old.histories then old_store old i else []))
  migrate_keeps = (
    migrated,
    migrate_makes,
    migrated-IsConsistent,
    λ i.
        linked.behind i
        ∙ ap (map old_content) (select-live old.histories i old.links)
        ∙ map_if (any (has_history_id i) old.histories) (select (of_old i) old.links),
  )
