-- ===== src/Cleanup/Batch.antt =====
-- What one batch deletes, and what it leaves alone.
use pyadcs_connector.Prelude.{
  ℕ, leb, ==_iff, count, ◌+◌, ◌-◌, ◌≤◌, ◌<◌, min, ◌≡◌, refl, ap, ◌∙◌, ◌⊎◌, inl, inr, Bool, true,
  false, arith,
}
use pyadcs_connector.Db.{Db, Certificate, links_to, has_certificate_id}
use pyadcs_connector.Db.Rows.{
  delete_limit-deleted, delete_limit-count, delete_limit-other, delete_limit-le, delete_limit-wider,
  count-any,
}
use pyadcs_connector.Cleanup.{Planner, is_orphan, delete_orphan_batch}

-- The orphans that a sweep with this bound may delete.
abbrev pub orphans : ℕ → Db → ℕ
orphans bound db = count (is_orphan bound db.links) db.certificates

abbrev pub under : ℕ → Certificate → Bool
under bound c = leb c.id bound

module _ (planner : Planner) (batch bound : ℕ) (db : Db) where
  pub batch-deleted : (delete_orphan_batch planner batch bound db).0 ≡ min batch (orphans bound db)
  unfolding delete_orphan_batch
  batch-deleted =
      delete_limit-deleted batch (is_orphan bound db.links) (planner.order db.certificates)
      ∙ ap (min batch) (planner.same_rows (is_orphan bound db.links) db.certificates)

  pub orphans-batch :
      orphans bound (delete_orphan_batch planner batch bound db).1 ≡ orphans bound db - batch
  unfolding delete_orphan_batch
  orphans-batch =
      delete_limit-count batch (is_orphan bound db.links) (planner.order db.certificates)
      ∙ ap (λ n. n - batch) (planner.same_rows (is_orphan bound db.links) db.certificates)

  pub under-batch :
      count (under bound) (delete_orphan_batch planner batch bound db).1.certificates
        + (delete_orphan_batch planner batch bound db).0
      ≡ count (under bound) db.certificates
  unfolding delete_orphan_batch is_orphan
  under-batch =
      delete_limit-wider (under bound) batch (is_orphan bound db.links)
        (planner.order db.certificates) (λ c h. ground arith)
      ∙ planner.same_rows (under bound) db.certificates

  pub all-batch :
      count (λ _. true) (delete_orphan_batch planner batch bound db).1.certificates
        + (delete_orphan_batch planner batch bound db).0
      ≡ count (λ _. true) db.certificates
  unfolding delete_orphan_batch
  all-batch =
      delete_limit-wider (λ _. true) batch (is_orphan bound db.links)
        (planner.order db.certificates) (λ c h. refl)
      ∙ planner.same_rows (λ _. true) db.certificates

  pub kept-batch :
      (q : Certificate → Bool)
      → ((c : Certificate) → q c ≡ true → is_orphan bound db.links c ≡ false)
      → count q (delete_orphan_batch planner batch bound db).1.certificates
        ≡ count q db.certificates
  unfolding delete_orphan_batch
  kept-batch q h =
      delete_limit-other q batch (is_orphan bound db.links) (planner.order db.certificates) h
      ∙ planner.same_rows q db.certificates

  pub batch-le :
      (q : Certificate → Bool)
      → count q (delete_orphan_batch planner batch bound db).1.certificates
        ≤ count q db.certificates
  unfolding delete_orphan_batch
  batch-le q = omega (
    arith,
    delete_limit-le q batch (is_orphan bound db.links) (planner.order db.certificates),
    planner.same_rows q db.certificates,
  )

  -- A certificate that a discovery links, and one above the sweep's bound, is no orphan.
  pub linked_no_orphan :
      (i : ℕ) (c : Certificate)
      → 0 < count (links_to i) db.links
      → has_certificate_id i c ≡ true
      → is_orphan bound db.links c ≡ false
  unfolding is_orphan
  linked_no_orphan i c h e = ground (arith, count-any (links_to c.id) db.links, (==_iff c.id i).0 e)

  -- A batch deletes no certificate that a discovery links, and none above the bound: of either
  -- identifier there are as many rows as before.
  pub batch_safety :
      (i : ℕ)
      → (0 < count (links_to i) db.links) ⊎ (bound < i)
      → count (has_certificate_id i) (delete_orphan_batch planner batch bound db).1.certificates
        ≡ count (has_certificate_id i) db.certificates
  batch_safety i (inl linked) =
      kept-batch (has_certificate_id i) (λ c e. linked_no_orphan i c linked e)
  batch_safety i (inr above) =
      kept-batch (has_certificate_id i) (λ c e. unfold is_orphan in ground arith)
