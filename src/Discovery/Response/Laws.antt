-- ===== src/Discovery/Response/Laws.antt =====
-- What the pages of a discovery's certificates come to.
use pyadcs_connector.Prelude.{
  ℕ, zero, suc, true, List, [], ◌∷◌, ◌++◌, Result, ok, count, length, select, map, take, drop, pos,
  ◌*◌, ◌≤◌, ◌<◌, ◌≡◌, refl, ap, sym, ◌∙◌, arith, Option-cases, inl, inr, length-select, ==_refl,
  count-true, count-select_le, map-append, ◌>>=◌,
}
use pyadcs_connector.Prelude.Pages.{page, pages, pages_cover}
use pyadcs_connector.Text.{codes}
use pyadcs_connector.Db.{
  Db, DiscoveryHistory, DiscoveryCertificate, Certificate, IsConsistent, is_of, links_to,
  has_certificate_id,
}
use pyadcs_connector.Db.Rows.{find, find-none}
use pyadcs_connector.Discovery.Response.{
  DiscoveryHistoryRequestDto, DiscoveryCertificateDto, page_index, with_certificates, dto_of, slice,
  ByUuid, ordered_rows, get_discovery_history_data,
}

-- Every link whose certificate is there is among the rows.
with_certificates-length :
    (certificates : List Certificate) (ls : List DiscoveryCertificate)
    → ((i : ℕ) → 0 < count (links_to i) ls → 0 < count (has_certificate_id i) certificates)
    → length (with_certificates certificates ls) ≡ length ls
unfolding with_certificates
with_certificates-length certificates [] h = refl
with_certificates-length certificates (l ∷ ls) h =
    let rest = with_certificates-length certificates ls (λ i n. h i (omega (arith, n))) in
    elim (Option-cases (find (has_certificate_id l.certificate) certificates)) [
      | inl e ↦ absurd (
          ground (
            arith,
            find-none (has_certificate_id l.certificate) certificates e,
            h l.certificate,
            ==_refl l.certificate,
          ))
      | inr (c, e) ↦ rw (e, with_certificates) (omega (arith, rest))
    ]

slice-page {ℓ} : {A : Type ℓ} (k n : ℕ) (rows : List A) → slice k (pos n) rows ≡ ok (page n k rows)
unfolding slice
slice-page k n rows = ap (λ m. ok (take m (drop (k * n) rows))) (omega arith)

page_index-suc : (k : ℕ) → page_index (pos (suc k)) ≡ k
unfolding page_index
page_index-suc k = omega arith

module _ (by_uuid : ByUuid) (h : DiscoveryHistory) (db : Db) where
  abbrev pub request : ℕ → ℕ → DiscoveryHistoryRequestDto
  request n k = record {
    name = h.name;
    kind = codes "PyADCS-WinRM";
    page_number = pos (suc k);
    items_per_page = pos n;
  }

  -- The certificates of `m` pages of `n`, from the page of index `k` on.
  unfoldable pub read_pages : ℕ → ℕ → ℕ → Result (List DiscoveryCertificateDto)
  read_pages n zero k = ok []
  read_pages n (suc m) k = do
    response ← get_discovery_history_data by_uuid (request n k) h db
    rest ← read_pages n m (suc k)
    ok (response.certificate_data ++ rest)

  response-page :
      (n k : ℕ)
      → get_discovery_history_data by_uuid (request n k) h db
        ≡ ok (record {
          name = h.name;
          uuid = h.uuid;
          status = h.status;
          certificate_data = map dto_of (page n k (ordered_rows by_uuid h.id db));
          meta = h.meta;
          total_certificates_discovered = count (is_of h.id) db.links;
        })
  unfolding get_discovery_history_data
  response-page n k = rw (page_index-suc k, slice-page k n (ordered_rows by_uuid h.id db))

  read-pages :
      (n m k : ℕ) → read_pages n m k ≡ ok (map dto_of (pages n m k (ordered_rows by_uuid h.id db)))
  unfolding read_pages
  read-pages n zero k = refl
  read-pages n (suc m) k =
      let rows = ordered_rows by_uuid h.id db in
      rw (response-page n k, read-pages n m (suc k))
        (ap ok (sym (map-append dto_of (page n k rows) (pages n m (suc k) rows))))

  -- Enough pages of one size show every row of the discovery once, in the order of the database,
  -- and of a consistent database as many rows as the response's total says.
  pub read_pages_cover :
      (n m : ℕ)
      → IsConsistent db
      → count (is_of h.id) db.links ≤ m * n
      → (read_pages n m 0 ≡ ok (map dto_of (ordered_rows by_uuid h.id db)))
        × (length (ordered_rows by_uuid h.id db) ≡ count (is_of h.id) db.links)
  read_pages_cover n m c enough =
      let rows = ordered_rows by_uuid h.id db in
      let total : length rows ≡ count (is_of h.id) db.links =
        sym (count-true rows)
        ∙ by_uuid.same_rows (λ _. true) _
        ∙ count-true _
        ∙ with_certificates-length db.certificates (select (is_of h.id) db.links) (λ i k.
          c.linked_certificate i
            (omega (arith, k, count-select_le (links_to i) (is_of h.id) db.links)))
        ∙ length-select (is_of h.id) db.links in
      (
        read-pages n m 0
            ∙ ap (λ r. ok (map dto_of r)) (pages_cover n m 0 rows (omega (arith, total, enough)))
            ∙ ap (λ j. ok (map dto_of (drop j rows))) {x = 0 * n} {y = 0} (omega arith),
        total,
      )
