-- ===== src/Store/Refinement.antt =====
-- Every transaction of the connector is one of the three changes of the abstract store.
use pyadcs_connector.Prelude.{
  ℕ, List, [], ◌++◌, count, select, map, All, ◌≡◌, ◌<◌, refl, ap, ◌∙◌, sym, arith, Exception, ok,
  err, Bool-cases, inl, inr, ◌==◌, ==_iff, if◌then◌else◌, Result-cases, count-select_le,
  length-select, length-zero,
}
use mathlib.Core.Path.{subst}
use pyadcs_connector.Text.{Text}
use pyadcs_connector.Text.Utf8.{Bytes}
use pyadcs_connector.Fingerprint.{fingerprint_apart}
use pyadcs_connector.Db.{Db, DiscoveryHistory, IsConsistent, is_of, links_to}
use pyadcs_connector.Db.Rows.{delete_where}
use pyadcs_connector.Discovery.Life.{delete_cases}
use pyadcs_connector.Discovery.{delete_discovery, fail_discovery, finish_discovery, Collected}
use pyadcs_connector.Discovery.Persist.{persist}
use pyadcs_connector.Cleanup.{Planner, claim_lease, delete_orphan_batch}
use pyadcs_connector.Cleanup.Batch.{kept-batch, batch-le, linked_no_orphan}
use pyadcs_connector.System.{
  System, Step, start, finish, lose, delete, claim, batch, Reach, begin, later,
}
use pyadcs_connector.System.Changes.{create_adds, batch-IsConsistent, batch_others, claim_others}
use pyadcs_connector.System.Threads.{IsThread, All-remove}
use pyadcs_connector.System.Reachable.{IsSound, step-IsSound, initial-IsSound}
use pyadcs_connector.Store.{
  store_of, contents, Change, keep, publish, drop_all, Collects, Named, Offered, Deleted,
  is_mislabelled,
}
use pyadcs_connector.Store.Rows.{
  select-delete_self, select-delete_other, has_content, content_of-same, content_of-some,
  contents_same,
}
use pyadcs_connector.Store.Content.{IsLabelled}
use pyadcs_connector.Store.Published.{content}
use pyadcs_connector.Store.Persisted.{Appends, persist-Appends}

-- A batch leaves every content that a link leads to.
batch_keeps :
    (planner : Planner) (n bound : ℕ) (db : Db)
    → IsConsistent db
    → (i : ℕ) → store_of (delete_orphan_batch planner n bound db).1 i ≡ store_of db i
batch_keeps planner n bound db c i =
    let db' = (delete_orphan_batch planner n bound db).1 in
    let (_, links, _) = batch_others planner n bound db in
    let c' = batch-IsConsistent planner n bound db c in
    ap (λ l. contents db'.certificates (select (is_of i) l)) links
    ∙ contents_same db.certificates db'.certificates (select (is_of i) db.links) (λ k m.
      let linked : 0 < count (links_to k) db.links =
        omega (arith, m, count-select_le (links_to k) (is_of i) db.links) in
      let (t, has) = content_of-some db.certificates k (c.linked_certificate k linked) in
      content_of-same db.certificates db'.certificates k t (c'.unique_certificate k)
        (omega (
          arith,
          kept-batch planner n bound db (has_content k t)
              (λ x e. linked_no_orphan planner n bound db k x linked (ground arith)),
        ))
        has
      ∙ sym has)

delete_drops :
    (uuid : Text) (db : Db)
    → Change (λ _ _. ⊥) (Named uuid db) (store_of db) (store_of (delete_discovery uuid db).1)
unfolding contents
delete_drops uuid db = elim (delete_cases uuid db) [
  | inl e ↦ rw e (keep (λ i. refl))
  | inr (h, found, e) ↦ rw e (
      drop_all h.id (h, found, refl)
        (λ i. elim (Bool-cases (h.id == i)) [
          | inl same ↦ rw same (
              ap (contents db.certificates) (
                subst (λ j. select (is_of j) (delete_where (is_of h.id) db.links) ≡ [])
                  ((==_iff h.id i).0 same) (select-delete_self (is_of h.id) db.links)))
          | inr other ↦ rw other (
              ap (contents db.certificates)
                (select-delete_other (is_of i) (is_of h.id) db.links (λ x p. ground arith)))
        ]))
]

same_store :
    (db db' : Db)
    → db'.certificates ≡ db.certificates
    → db'.links ≡ db.links
    → (i : ℕ) → store_of db' i ≡ store_of db i
same_store db db' certificates links i =
    ap (λ c. contents c (select (is_of i) db'.links)) certificates
    ∙ ap (λ l. contents db.certificates (select (is_of i) l)) links

delete_certificates :
    (uuid : Text) (db : Db) → (delete_discovery uuid db).1.certificates ≡ db.certificates
delete_certificates uuid db = elim (delete_cases uuid db) [
  | inl e ↦ rw e refl
  | inr (h, found, e) ↦ rw e refl
]

-- A discovery without links has no certificates.
no_content : (db : Db) (i : ℕ) → count (is_of i) db.links ≡ 0 → store_of db i ≡ []
unfolding contents
no_content db i none_of =
    ap (contents db.certificates)
      (length-zero (select (is_of i) db.links) (length-select (is_of i) db.links ∙ none_of))

append_publishes :
    (discovery : ℕ) (ts : List Text) (db db' : Db) (offered : ℕ → List Text → Type 0)
    → offered discovery ts
    → count (is_of discovery) db.links ≡ 0
    → Appends discovery ts db db'
    → Change offered (λ _. ⊥) (store_of db) (store_of db')
append_publishes discovery ts db db' offered offer unlinked appends =
    publish discovery ts offer (no_content db discovery unlinked) (λ i.
      elim (Bool-cases (discovery == i)) [
        | inl e ↦
            let same = (==_iff discovery i).0 e in
            rw e (
              appends i
              ∙ ap (λ b. if b then store_of db i ++ ts else store_of db i) e
              ∙ ap (λ l. l ++ ts)
                  (subst (λ j. store_of db j ≡ []) same (no_content db discovery unlinked)))
        | inr e ↦ rw e (appends i ∙ ap (λ b. if b then store_of db i ++ ts else store_of db i) e)
      ])

module _ (sha256_hexdigest : Bytes → Text) (link_uuid : ℕ → Text) (str_of : Exception → Text)
    (apart : (b c : Bytes) → sha256_hexdigest b ≡ sha256_hexdigest c → b ≡ c) where
  finish_changes :
      (h : DiscoveryHistory) (collected : Collected) (db : Db)
      → IsConsistent db
      → IsLabelled sha256_hexdigest db.certificates
      → count (is_of h.id) db.links ≡ 0
      → let db' = finish_discovery sha256_hexdigest link_uuid str_of h collected db in
        IsLabelled sha256_hexdigest db'.certificates
        × Change (Collects h collected) (λ _. ⊥) (store_of db) (store_of db')
  unfolding finish_discovery fail_discovery
  finish_changes h (err e) db c labelled unlinked = (labelled, keep (λ i. refl))
  finish_changes h (ok (cas, cs)) db c labelled unlinked =
      elim (Result-cases (persist sha256_hexdigest link_uuid cas h.id cs db)) [
        | inr (x, e) ↦ rw (e, finish_discovery) (labelled, keep (λ i. refl))
        | inl (db', e) ↦
            rw (e, finish_discovery)
              (elim (persist-Appends sha256_hexdigest link_uuid
                (fingerprint_apart sha256_hexdigest apart) cas h.id cs db db' c labelled e) [
                  | inl same ↦
                      subst
                        (λ d.
                          IsLabelled sha256_hexdigest d.certificates
                          × Change (Collects h (ok (cas, cs))) (λ _. ⊥) (store_of db) (store_of d))
                        same (labelled, keep (λ i. refl))
                  | inr (labelled', appends) ↦ (
                    labelled',
                    append_publishes h.id (map content cs) db db' (Collects h (ok (cas, cs)))
                        (refl, refl) unlinked appends,
                  )
                ])
      ]

  -- What the refinement relies on along a run.
  pub record IsFaithful (s : System) : Type 0 where
    pub sound : IsSound s
    pub labelled : IsLabelled sha256_hexdigest s.db.certificates

  module _ (planner : Planner) where
    -- One transaction keeps the labels and is one change of the abstract store.
    step-IsLabelled :
        (s t : System) (step : Step planner sha256_hexdigest link_uuid str_of s t)
        → IsFaithful s
        → IsLabelled sha256_hexdigest t.db.certificates
          × Change (Offered step) (Deleted step) (store_of s.db) (store_of t.db)
    step-IsLabelled s t (start uuid form h db' unused unused' e) r =
        let made = create_adds uuid form s.db db' h e in
        (
          rw made.same_certificates r.labelled,
          keep (same_store s.db db' made.same_certificates made.same_links),
        )
    step-IsLabelled s t (finish before h after collected e) r =
        let j = subst (All (IsThread s.db)) e r.sound.settled.threads in
        let (own, _) = All-remove (IsThread s.db) before h after j in
        finish_changes h collected s.db r.sound.consistent r.labelled own.no_links
    step-IsLabelled s t (lose before h after e) r = (r.labelled, keep (λ i. refl))
    step-IsLabelled s t (delete uuid) r =
        (rw (delete_certificates uuid s.db) r.labelled, delete_drops uuid s.db)
    step-IsLabelled s t (claim settings lock_free now) r =
        let (_, links, _, certificates, _) = claim_others settings lock_free now s.db in
        (
          rw certificates r.labelled,
          keep (same_store s.db (claim_lease settings lock_free now s.db).1 certificates links),
        )
    step-IsLabelled s t (batch n bound) r = (
      omega (arith, batch-le planner n bound s.db (is_mislabelled sha256_hexdigest), r.labelled),
      keep (batch_keeps planner n bound s.db r.sound.consistent),
    )

    Reach-IsFaithful :
        (s : System) → Reach planner sha256_hexdigest link_uuid str_of s → IsFaithful s
    Reach-IsFaithful s begin = record { sound = initial-IsSound; labelled = refl }
    Reach-IsFaithful s (later r step) =
        let before = Reach-IsFaithful _ r in
        record {
          sound = step-IsSound planner sha256_hexdigest link_uuid str_of _ s step before.sound;
          labelled = (step-IsLabelled _ s step before).0;
        }

    -- Where SHA-256 tells all bytes apart, every transaction from a state that the connector can
    -- reach is, on the contents of each discovery, one of the three changes of the abstract store:
    -- none; the publication of a discovery that had none, of just the contents that its thread
    -- collected, in their order; or the removal of those of the discovery that is deleted.
    pub Reach-refines :
        (s t : System)
        → Reach planner sha256_hexdigest link_uuid str_of s
        → (step : Step planner sha256_hexdigest link_uuid str_of s t)
        → Change (Offered step) (Deleted step) (store_of s.db) (store_of t.db)
    Reach-refines s t r step = (step-IsLabelled s t step (Reach-IsFaithful s r)).1
