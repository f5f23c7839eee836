-- ===== src/Store/Published.antt =====
-- What persisting a discovery publishes.
use pyadcs_connector.Prelude.{
  ℕ, suc, List, [], ◌∷◌, some, count, map, All, ok, >>=-eq-ok, ok-injective, ◌≡◌, ◌≤◌, refl, ap,
  arith, Option-cases, inl, inr, ==_iff,
}
use mathlib.Core.Path.{subst}
use pyadcs_connector.Text.{Text}
use pyadcs_connector.Text.Laws.{text_eq_iff}
use pyadcs_connector.Text.Utf8.{Bytes}
use pyadcs_connector.Fingerprint.{certificate_fingerprint}
use pyadcs_connector.Dump.{AuthorityData, ParseResult}
use pyadcs_connector.Db.{Certificate, DiscoveryCertificate, has_fingerprint, has_certificate_id}
use pyadcs_connector.Db.Rows.{find, count_of_find}
use pyadcs_connector.Discovery.Persist.{id_or_key_error, id_by_fp, get_certificate_meta, links_for}
use pyadcs_connector.Store.{content_of, contents}
use pyadcs_connector.Store.Rows.{has_content, content_of_unique}
use pyadcs_connector.Store.Content.{IsLabelled, find-content}

abbrev pub content : ParseResult → Text
content c = c.certificate

module _ (sha256_hexdigest : Bytes → Text) (link_uuid : ℕ → Text)
    (apart : (s t : Text)
      → certificate_fingerprint sha256_hexdigest s ≡ certificate_fingerprint sha256_hexdigest t
      → s ≡ t) where
  pub id_by_fp-content :
      (rows : List Certificate) (t : Text) (i : ℕ)
      → ((k : ℕ) → count (has_certificate_id k) rows ≤ 1)
      → IsLabelled sha256_hexdigest rows
      → id_by_fp rows (certificate_fingerprint sha256_hexdigest t) ≡ ok i
      → content_of rows i ≡ some t
  unfolding id_by_fp
  id_by_fp-content rows t i one labelled h =
      let fp = certificate_fingerprint sha256_hexdigest t in
      elim (Option-cases (find (has_fingerprint fp) rows)) [
        | inl e ↦ absurd (cc (h, ap id_or_key_error e))
        | inr (c, e) ↦
            let same = find-content sha256_hexdigest rows t c (λ s. apart s t) labelled e in
            content_of_unique rows i t (one i) (
              count_of_find (has_fingerprint fp) (has_content i t) rows c e (
                ground (
                  arith,
                  same,
                  text_eq_iff c.base64content t,
                  h,
                  ap id_or_key_error e,
                  ==_iff c.id i,
                )))
      ]

  -- The new links are of the discovery, and behind them stand the contents that were collected, in
  -- their order.
  pub links_for-contents :
      (cas : List AuthorityData) (discovery : ℕ) (rows : List Certificate) (seq : ℕ)
      (cs : List ParseResult) (ls : List DiscoveryCertificate)
      → ((k : ℕ) → count (has_certificate_id k) rows ≤ 1)
      → IsLabelled sha256_hexdigest rows
      → links_for sha256_hexdigest link_uuid cas discovery rows seq cs ≡ ok ls
      → (contents rows ls ≡ map content cs) × All (λ l. l.discovery ≡ discovery) ls
  unfolding links_for contents
  links_for-contents cas discovery rows seq [] ls one labelled h =
      subst
        (λ l.
          (contents rows l ≡ []) × All (λ (x : DiscoveryCertificate). x.discovery ≡ discovery) l)
        (ok-injective h) (refl, tt)
  links_for-contents cas discovery rows seq (c ∷ cs) ls one labelled h =
      let fp = certificate_fingerprint sha256_hexdigest c.certificate in
      let (i, e, h1) = >>=-eq-ok (id_by_fp rows fp) _ h in
      let (meta, _, h2) = >>=-eq-ok (get_certificate_meta cas c.template) _ h1 in
      let (rest, made, h3) =
        >>=-eq-ok (links_for sha256_hexdigest link_uuid cas discovery rows (suc seq) cs) _ h2 in
      let (behind, own) =
        links_for-contents cas discovery rows (suc seq) cs rest one labelled made in
      subst
        (λ l.
          (contents rows l ≡ c.certificate ∷ map content cs)
          × All (λ (x : DiscoveryCertificate). x.discovery ≡ discovery) l)
        (ok-injective h3)
        (rw (id_by_fp-content rows c.certificate i one labelled e, behind) refl, (refl, own))
