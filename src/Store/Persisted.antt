-- ===== src/Store/Persisted.antt =====
-- Persisting a discovery appends what was collected to its certificates, and leaves those of every
-- other discovery as they are.
use pyadcs_connector.Prelude.{
  ℕ, List, [], ◌∷◌, ◌++◌, select, map, All, ok, >>=-eq-ok, ok-injective, ◌≡◌, ap, ◌∙◌, sym, arith,
  Option-cases, inl, inr, ◌⊎◌, ◌==◌, if◌then◌else◌, append-nil, true, false, count-select_le, Bool,
}
use mathlib.Core.Path.{subst}
use pyadcs_connector.Text.{Text}
use pyadcs_connector.Text.Utf8.{Bytes}
use pyadcs_connector.Fingerprint.{certificate_fingerprint}
use pyadcs_connector.Dump.{AuthorityData, ParseResult}
use pyadcs_connector.Db.{
  Db, Certificate, DiscoveryCertificate, IsConsistent, has_history_id, links_to, is_of,
}
use pyadcs_connector.Db.Rows.{find, find-none}
use pyadcs_connector.Discovery.Persist.{
  links_for, sorted_items, unique_from, persist_found, persist,
}
use pyadcs_connector.Discovery.Persist.Rows.{bulk-grows, bulk-HasKeys, bulk_others}
use pyadcs_connector.Discovery.Persist.Laws.{inserted, persist-found, persist_deleted}
use pyadcs_connector.Store.{contents, store_of}
use pyadcs_connector.Store.Rows.{
  select-append, has_content, content_of-same, content_of-some, contents_same, contents-append,
}
use pyadcs_connector.Store.Content.{IsLabelled, entries-IsEntry, bulk-IsLabelled}
use pyadcs_connector.Store.Published.{content, links_for-contents}

-- The rows of one discovery among links of one discovery.
select_own :
    (discovery i : ℕ) (ls : List DiscoveryCertificate)
    → All (λ l. l.discovery ≡ discovery) ls
    → select (is_of i) ls ≡ (if discovery == i then ls else [])
select_own discovery i [] own = ground arith
select_own discovery i (l ∷ ls) own = ground (arith, select_own discovery i ls own.1, own.0)

append_if :
    (b : Bool) (xs ts : List Text) (rows : List Certificate) (ls : List DiscoveryCertificate)
    → contents rows ls ≡ ts
    → xs ++ contents rows (if b then ls else []) ≡ (if b then xs ++ ts else xs)
unfolding contents
append_if true xs ts rows ls h = ap (λ l. xs ++ l) h
append_if false xs ts rows ls h = append-nil xs

-- The store after certificates of a discovery were added to it.
abbrev pub Appends : ℕ → List Text → Db → Db → Type 0
Appends discovery certificates db db' =
    (i : ℕ)
    → store_of db' i ≡ (if discovery == i then store_of db i ++ certificates else store_of db i)

module _ (sha256_hexdigest : Bytes → Text) (link_uuid : ℕ → Text)
    (apart : (s t : Text)
      → certificate_fingerprint sha256_hexdigest s ≡ certificate_fingerprint sha256_hexdigest t
      → s ≡ t) where
  found-Appends :
      (cas : List AuthorityData) (discovery : ℕ) (cs : List ParseResult) (db db' : Db)
      → IsConsistent db
      → IsLabelled sha256_hexdigest db.certificates
      → persist_found sha256_hexdigest link_uuid cas discovery cs db ≡ ok db'
      → IsLabelled sha256_hexdigest db'.certificates × Appends discovery (map content cs) db db'
  unfolding persist_found
  found-Appends cas discovery cs db db' c labelled e =
      let db1 = inserted sha256_hexdigest link_uuid cs db in
      let unique = sorted_items (unique_from sha256_hexdigest link_uuid [] cs) in
      let (_, links, _, _) = bulk_others unique db in
      let (ls, made, e') =
        >>=-eq-ok
          (links_for sha256_hexdigest link_uuid cas discovery db1.certificates db1.link_seq cs) _
          e in
      let keys = bulk-HasKeys unique db (record {
        unique_fingerprint = c.unique_fingerprint;
        unique_certificate = c.unique_certificate;
        fresh_certificate = c.fresh_certificate;
      }) in
      let labelled1 =
        bulk-IsLabelled sha256_hexdigest unique db (entries-IsEntry sha256_hexdigest link_uuid cs)
          labelled in
      let (behind, own) =
        links_for-contents sha256_hexdigest link_uuid apart cas discovery db1.certificates
          db1.link_seq cs ls keys.unique_certificate labelled1 made in
      let kept : (i : ℕ) → contents db1.certificates (select (is_of i) db.links) ≡ store_of db i =
        λ i. contents_same db.certificates db1.certificates (select (is_of i) db.links) (λ k n.
          let (t, has) = content_of-some db.certificates k (
            c.linked_certificate k
              (omega (arith, n, count-select_le (links_to k) (is_of i) db.links))) in
          content_of-same db.certificates db1.certificates k t (keys.unique_certificate k)
            (bulk-grows unique db (has_content k t)) has
          ∙ sym has) in
      subst
        (λ d. IsLabelled sha256_hexdigest d.certificates × Appends discovery (map content cs) db d)
        (ok-injective e')
        (
          labelled1,
          λ i.
              ap (λ l. contents db1.certificates (select (is_of i) (l ++ ls))) links
              ∙ ap (contents db1.certificates) (select-append (is_of i) db.links ls)
              ∙ contents-append db1.certificates (select (is_of i) db.links) (select (is_of i) ls)
              ∙ ap (λ l. l ++ contents db1.certificates (select (is_of i) ls)) (kept i)
              ∙ ap (λ l. store_of db i ++ contents db1.certificates l)
                  (select_own discovery i ls own)
              ∙ append_if (discovery == i) (store_of db i) (map content cs) db1.certificates ls
                  behind,
        )

  -- Where persisting succeeds, either the discovery is gone and nothing changes, or what was
  -- collected is appended.
  pub persist-Appends :
      (cas : List AuthorityData) (discovery : ℕ) (cs : List ParseResult) (db db' : Db)
      → IsConsistent db
      → IsLabelled sha256_hexdigest db.certificates
      → persist sha256_hexdigest link_uuid cas discovery cs db ≡ ok db'
      → (db ≡ db')
        ⊎ (IsLabelled sha256_hexdigest db'.certificates × Appends discovery (map content cs) db db')
  persist-Appends cas discovery cs db db' c labelled e =
      elim (Option-cases (find (has_history_id discovery) db.histories)) [
        | inl gone ↦ inl (
            ok-injective (
              sym (
                persist_deleted sha256_hexdigest link_uuid cas discovery cs db
                  (find-none _ db.histories gone))
              ∙ e))
        | inr (dh, found) ↦ inr (
            found-Appends cas discovery cs db db' c labelled
              (sym (persist-found sha256_hexdigest link_uuid cas discovery cs db dh found) ∙ e))
      ]
