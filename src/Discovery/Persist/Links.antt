-- ===== src/Discovery/Persist/Links.antt =====
-- The links of a persisted discovery: one for each collected certificate, in order, to the row of
-- its fingerprint.
use mathlib.Core.Path.{subst}
use pyadcs_connector.Text.Laws.{text_eq_iff}
use pyadcs_connector.Text.{Text}
use pyadcs_connector.Prelude.{
  ℕ, count, All, ◌<◌, ◌≡◌, refl, some, List, [], ◌∷◌, ok, suc, Option-cases, ap, inl, inr, arith,
  ==_iff, >>=-eq-ok, ok-injective,
}
use pyadcs_connector.Text.Utf8.{Bytes}
use pyadcs_connector.Dump.{AuthorityData, ParseResult}
use pyadcs_connector.Db.{
  Certificate, DiscoveryCertificate, has_fingerprint, has_certificate_id, links_to, is_of,
}
use pyadcs_connector.Db.Rows.{find, find-count, find-some, count_of_find}
use pyadcs_connector.Discovery.Persist.{
  fp_of, id_or_key_error, id_by_fp, get_certificate_meta, meta_of, links_for,
}

-- What a link says of a collected certificate.
pub record LinkOf (ca : AuthorityData) (rows : List Certificate) (discovery : ℕ) (fp : Text)
    (c : ParseResult) (l : DiscoveryCertificate) : Type 0 where
  pub of_discovery : l.discovery ≡ discovery
  pub has_meta : l.meta ≡ meta_of ca c.template
  pub row : Certificate
  pub row_found : find (has_fingerprint fp) rows ≡ some row
  pub row_fingerprint : row.fingerprint ≡ fp
  pub to_row : l.certificate ≡ row.id

module _ (sha256_hexdigest : Bytes → Text) (link_uuid : ℕ → Text) where
  abbrev pub LinksOf :
      AuthorityData → List Certificate → ℕ → List ParseResult → List DiscoveryCertificate → Type 0
  LinksOf ca rows discovery [] [] = Unit
  LinksOf ca rows discovery [] (l ∷ ls) = ⊥
  LinksOf ca rows discovery (c ∷ cs) [] = ⊥
  LinksOf ca rows discovery (c ∷ cs) (l ∷ ls) =
      LinkOf ca rows discovery (fp_of sha256_hexdigest link_uuid c) c l
      × LinksOf ca rows discovery cs ls

  -- Where there is a CA and a row for every fingerprint, the links are made.
  pub links_for_total :
      (ca : AuthorityData) (cas : List AuthorityData) (discovery : ℕ) (rows : List Certificate)
      (seq : ℕ) (cs : List ParseResult)
      → All (λ c. 0 < count (has_fingerprint (fp_of sha256_hexdigest link_uuid c)) rows) cs
      → (ls : List DiscoveryCertificate) × (links_for sha256_hexdigest link_uuid
            (ca ∷ cas)
            discovery
            rows
            seq
            cs
          ≡ ok ls)
        × LinksOf ca rows discovery cs ls
  unfolding links_for id_by_fp get_certificate_meta
  links_for_total ca cas discovery rows seq [] h = ([], refl, tt)
  links_for_total ca cas discovery rows seq (c ∷ cs) h =
      let fp = fp_of sha256_hexdigest link_uuid c in
      let (row, found) = find-count (has_fingerprint fp) rows h.0 in
      let (ls, made, good) = links_for_total ca cas discovery rows (suc seq) cs h.1 in
      let l : DiscoveryCertificate = record {
        id = suc seq;
        uuid = link_uuid (suc seq);
        meta = meta_of ca c.template;
        discovery = discovery;
        certificate = row.id;
      } in
      (
        l ∷ ls,
        rw (found, made),
        (
          record {
            of_discovery = refl;
            has_meta = refl;
            row = row;
            row_found = found;
            row_fingerprint =
                (text_eq_iff row.fingerprint fp).0 (find-some (has_fingerprint fp) rows row found);
            to_row = refl;
          },
          good,
        ),
      )

  abbrev IsSound : List Certificate → ℕ → DiscoveryCertificate → Type 0
  IsSound rows discovery l =
      (l.discovery ≡ discovery) × (0 < count (has_certificate_id l.certificate) rows)

  id_by_fp-count :
      (rows : List Certificate) (fp : Text) (i : ℕ)
      → id_by_fp rows fp ≡ ok i
      → 0 < count (has_certificate_id i) rows
  unfolding id_by_fp
  id_by_fp-count rows fp i h = elim (Option-cases (find (has_fingerprint fp) rows)) [
    | inl e ↦ absurd (cc (h, ap id_or_key_error e))
    | inr (row, e) ↦
        count_of_find (has_fingerprint fp) (has_certificate_id i) rows row e (ground arith)
  ]

  -- Every link that is made names the discovery and a row that is there.
  links_for-IsSound :
      (cas : List AuthorityData) (discovery : ℕ) (rows : List Certificate) (seq : ℕ)
      (cs : List ParseResult) (ls : List DiscoveryCertificate)
      → links_for sha256_hexdigest link_uuid cas discovery rows seq cs ≡ ok ls
      → All (IsSound rows discovery) ls
  unfolding links_for
  links_for-IsSound cas discovery rows seq [] [] h = tt
  links_for-IsSound cas discovery rows seq [] (l ∷ ls) h = absurd (cc)
  links_for-IsSound cas discovery rows seq (c ∷ cs) ls h =
      let fp = fp_of sha256_hexdigest link_uuid c in
      let (i, e, h1) = >>=-eq-ok (id_by_fp rows fp) _ h in
      let (meta, _, h2) = >>=-eq-ok (get_certificate_meta cas c.template) _ h1 in
      let (rest, made, h3) =
        >>=-eq-ok (links_for sha256_hexdigest link_uuid cas discovery rows (suc seq) cs) _ h2 in
      subst (All (IsSound rows discovery)) (ok-injective h3) (
        (refl, id_by_fp-count rows fp i e),
        links_for-IsSound cas discovery rows (suc seq) cs rest made,
      )

  sound-count :
      (rows : List Certificate) (discovery : ℕ) (ls : List DiscoveryCertificate)
      → All (IsSound rows discovery) ls
      → ((i : ℕ) → 0 < count (links_to i) ls → 0 < count (has_certificate_id i) rows)
        × ((i : ℕ) → 0 < count (is_of i) ls → discovery ≡ i)
  sound-count rows discovery [] h = (λ i n. absurd (omega arith), λ i n. absurd (omega arith))
  sound-count rows discovery (l ∷ ls) h =
      let (to, of) = sound-count rows discovery ls h.1 in
      (
        (λ i n. ground (arith, to i, h.0.1, ==_iff l.certificate i)),
        (λ i n. ground (arith, of i, h.0.0)),
      )

  pub links_for-count :
      (cas : List AuthorityData) (discovery : ℕ) (rows : List Certificate) (seq : ℕ)
      (cs : List ParseResult) (ls : List DiscoveryCertificate)
      → links_for sha256_hexdigest link_uuid cas discovery rows seq cs ≡ ok ls
      → ((i : ℕ) → 0 < count (links_to i) ls → 0 < count (has_certificate_id i) rows)
        × ((i : ℕ) → 0 < count (is_of i) ls → discovery ≡ i)
  links_for-count cas discovery rows seq cs ls h =
      sound-count rows discovery ls (links_for-IsSound cas discovery rows seq cs ls h)
