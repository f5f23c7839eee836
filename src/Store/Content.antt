-- ===== src/Store/Content.antt =====
-- Every stored certificate stays under the fingerprint of its content.
use pyadcs_connector.Prelude.{
  ℕ, List, [], ◌∷◌, count, All, ◌≡◌, refl, ◌∙◌, sym, arith, Bool-cases, inl, inr, some,
}
use pyadcs_connector.Text.{Text, text_eq, text_lt}
use pyadcs_connector.Text.Laws.{text_eq_iff}
use pyadcs_connector.Text.Utf8.{Bytes}
use pyadcs_connector.Fingerprint.{certificate_fingerprint}
use pyadcs_connector.Dump.{ParseResult}
use pyadcs_connector.Db.{Db, Certificate, has_fingerprint}
use pyadcs_connector.Db.Rows.{find, find-some, count_of_find}
use pyadcs_connector.Discovery.Persist.{
  Unique, dict_put, insert_item, sorted_items, unique_from, insert_certificate,
  bulk_create_certificates,
}
use pyadcs_connector.Discovery.Persist.Rows.{count-insert}
use pyadcs_connector.Store.{is_mislabelled}

module _ (sha256_hexdigest : Bytes → Text) where
  -- No row has the fingerprint of another content.
  abbrev pub IsLabelled : List Certificate → Type 0
  IsLabelled rows = count (is_mislabelled sha256_hexdigest) rows ≡ 0

  abbrev pub IsEntry : Text × ParseResult → Type 0
  IsEntry (k, c) = k ≡ certificate_fingerprint sha256_hexdigest c.certificate

  put-IsEntry :
      (k : Text) (v : ParseResult) (m : Unique)
      → IsEntry (k, v)
      → All IsEntry m
      → All IsEntry (dict_put k v m)
  unfolding dict_put
  put-IsEntry k v [] e h = (e, tt)
  put-IsEntry k v ((j, w) ∷ m) e h = elim (Bool-cases (text_eq j k)) [
    | inl same ↦ rw same ((text_eq_iff j k).0 same ∙ e, h.1)
    | inr other ↦ rw other (h.0, put-IsEntry k v m e h.1)
  ]

  unique_from-IsEntry :
      (link_uuid : ℕ → Text) (m : Unique) (cs : List ParseResult)
      → All IsEntry m
      → All IsEntry (unique_from sha256_hexdigest link_uuid m cs)
  unfolding unique_from
  unique_from-IsEntry link_uuid m [] h = h
  unique_from-IsEntry link_uuid m (c ∷ cs) h =
      unique_from-IsEntry link_uuid
        (dict_put (certificate_fingerprint sha256_hexdigest c.certificate) c m) cs
        (put-IsEntry _ c m refl h)

  insert_item-IsEntry :
      (kv : Text × ParseResult) (m : Unique)
      → IsEntry kv
      → All IsEntry m
      → All IsEntry (insert_item kv m)
  unfolding insert_item
  insert_item-IsEntry (k, v) [] e h = (e, tt)
  insert_item-IsEntry (k, v) ((j, w) ∷ m) e h = elim (Bool-cases (text_lt j k)) [
    | inl before ↦ rw before (h.0, insert_item-IsEntry (k, v) m e h.1)
    | inr after ↦ rw after (e, h)
  ]

  sorted-IsEntry : (m : Unique) → All IsEntry m → All IsEntry (sorted_items m)
  unfolding sorted_items
  sorted-IsEntry [] h = tt
  sorted-IsEntry (kv ∷ m) h = insert_item-IsEntry kv (sorted_items m) h.0 (sorted-IsEntry m h.1)

  pub entries-IsEntry :
      (link_uuid : ℕ → Text) (cs : List ParseResult)
      → All IsEntry (sorted_items (unique_from sha256_hexdigest link_uuid [] cs))
  entries-IsEntry link_uuid cs = sorted-IsEntry _ (unique_from-IsEntry link_uuid [] cs tt)

  pub bulk-IsLabelled :
      (m : Unique) (db : Db)
      → All IsEntry m
      → IsLabelled db.certificates
      → IsLabelled (bulk_create_certificates m db).certificates
  unfolding bulk_create_certificates
  bulk-IsLabelled [] db e h = h
  bulk-IsLabelled ((k, c) ∷ m) db e h =
      bulk-IsLabelled m (insert_certificate k c.certificate db) e.1 (
        ground (
          arith,
          count-insert k c.certificate db (is_mislabelled sha256_hexdigest),
          text_eq_iff k (certificate_fingerprint sha256_hexdigest c.certificate),
          h,
          e.0,
        ))

  -- The row that a fingerprint leads to has that content, where no two contents share a
  -- fingerprint.
  pub find-content :
      (rows : List Certificate) (t : Text) (c : Certificate)
      → ((s : Text)
          → certificate_fingerprint sha256_hexdigest s ≡ certificate_fingerprint sha256_hexdigest t
          → s ≡ t)
      → IsLabelled rows
      → find (has_fingerprint (certificate_fingerprint sha256_hexdigest t)) rows ≡ some c
      → c.base64content ≡ t
  find-content rows t c free labelled found =
      let fp = certificate_fingerprint sha256_hexdigest t in
      let own = (text_eq_iff c.fingerprint fp).0 (find-some (has_fingerprint fp) rows c found) in
      elim (Bool-cases (is_mislabelled sha256_hexdigest c)) [
        | inl bad ↦ absurd (
            omega (
              arith,
              labelled,
              count_of_find (has_fingerprint fp) (is_mislabelled sha256_hexdigest) rows c found bad,
            ))
        | inr good ↦ free c.base64content (
            sym (
              (text_eq_iff c.fingerprint
                  (certificate_fingerprint sha256_hexdigest c.base64content)).0
                (ground arith))
            ∙ own)
      ]
