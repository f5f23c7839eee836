-- ===== src/Migration/Laws.antt =====
-- The migration succeeds, keeps every certificate of every discovery, and leaves the database
-- consistent.
use pyadcs_connector.Prelude.{
  ℕ, List, [], ◌∷◌, some, Bool, true, false, any, count, select, map, ◌≡◌, ◌≤◌, ◌<◌, refl, ap, ◌∙◌,
  arith, ◌==◌, ==_iff, ==_refl, if◌then◌else◌, Bool-cases, inl, inr,
}
use pyadcs_connector.Text.{Text}
use pyadcs_connector.Text.Laws.{text_eq_refl}
use pyadcs_connector.Text.Utf8.{Bytes}
use pyadcs_connector.Fingerprint.{fingerprint_apart}
use pyadcs_connector.Db.{
  DiscoveryHistory, Certificate, DiscoveryCertificate, has_history_id, has_fingerprint,
  has_certificate_id, links_to, is_of,
}
use pyadcs_connector.Db.Rows.{find-count, count_of_find, delete_where, count-any}
use pyadcs_connector.Discovery.Persist.{id_or_key_error, id_by_fp}
use pyadcs_connector.Store.{is_mislabelled, content_of, contents}
use pyadcs_connector.Store.Published.{id_by_fp-content}
use pyadcs_connector.Migration.{
  OldLink, OldDb, is_live, is_dangling, fp_of_row, backfilled, cons_link, link_of, not_null,
}
use pyadcs_connector.Migration.First.{has_old_id, has_fp}

abbrev pub of_old : ℕ → OldLink → Bool
of_old i l = l.discovery_id == i

abbrev pub old_content : OldLink → Text
old_content l = l.base64content

-- The table before the migration, read per discovery.
abbrev pub old_store : OldDb → ℕ → List Text
old_store old i = map old_content (select (of_old i) old.links)

pub map_if :
    (b : Bool) (ls : List OldLink)
    → map old_content (if b then ls else []) ≡ (if b then map old_content ls else [])
map_if true ls = refl
map_if false ls = refl

-- What the keys of the old tables keep.
pub record IsKeyed (old : OldDb) : Type 0 where
  pub unique_link : (i : ℕ) → count (has_old_id i) old.links ≤ 1
  pub unique_history : (i : ℕ) → count (has_history_id i) old.histories ≤ 1
  pub fresh_history : (i : ℕ) → old.history_seq < i → count (has_history_id i) old.histories ≡ 0

pub delete-map :
    (histories : List DiscoveryHistory) (certificates : List Certificate) (sha : Bytes → Text)
    (ls : List OldLink)
    → delete_where (is_dangling histories) (map (backfilled sha certificates) ls)
      ≡ map (backfilled sha certificates) (select (is_live histories) ls)
unfolding delete_where
delete-map histories certificates sha [] = refl
delete-map histories certificates sha (l ∷ ls) = elim (Bool-cases (is_live histories l)) [
  | inl e ↦ rw (e, delete-map histories certificates sha ls) refl
  | inr e ↦ rw e (delete-map histories certificates sha ls)
]

pub select-live :
    (histories : List DiscoveryHistory) (i : ℕ) (ls : List OldLink)
    → select (of_old i) (select (is_live histories) ls)
      ≡ (if any (has_history_id i) histories then select (of_old i) ls else [])
select-live histories i [] = ground arith
select-live histories i (l ∷ ls) = elim (Bool-cases (l.discovery_id == i)) [
  | inl e ↦
      let alike : is_live histories l ≡ any (has_history_id i) histories =
        ap (λ j. any (has_history_id j) histories) ((==_iff l.discovery_id i).0 e) in
      elim (Bool-cases (any (has_history_id i) histories)) [
        | inl live ↦
            rw (alike, live, e)
              (ap (◌∷◌ l) (
                select-live histories i ls ∙ ap (λ b. if b then select (of_old i) ls else []) live))
        | inr dead ↦
            rw (alike, dead)
              (select-live histories i ls ∙ ap (λ b. if b then select (of_old i) ls else []) dead)
      ]
  | inr e ↦ elim (Bool-cases (is_live histories l)) [
    | inl live ↦ rw (live, e) (select-live histories i ls)
    | inr dead ↦ rw (dead, e) (select-live histories i ls)
  ]
]

pub live_history :
    (histories : List DiscoveryHistory) (i : ℕ) (ls : List OldLink)
    → 0 < count (of_old i) (select (is_live histories) ls)
    → 0 < count (has_history_id i) histories
live_history histories i [] h = absurd (omega (arith, h))
live_history histories i (l ∷ ls) h = elim (Bool-cases (is_live histories l)) [
  | inr dead ↦ live_history histories i ls (rw dead at h)
  | inl live ↦
      let h' = rw live at h in
      elim (Bool-cases (l.discovery_id == i)) [
        | inl e ↦ ground (
          arith,
          live,
          ap (λ j. any (has_history_id j) histories) ((==_iff l.discovery_id i).0 e),
          count-any (has_history_id i) histories,
        )
        | inr e ↦ live_history histories i ls (ground (arith, h', e))
      ]
]

module _ (sha256_hexdigest : Bytes → Text)
    (apart : (b c : Bytes) → sha256_hexdigest b ≡ sha256_hexdigest c → b ≡ c)
    (certificates : List Certificate)
    (one : (k : ℕ) → count (has_certificate_id k) certificates ≤ 1)
    (labelled : count (is_mislabelled sha256_hexdigest) certificates ≡ 0) where
  -- The links that the backfill makes of rows whose fingerprints are all there.
  pub record Linked (ls : List OldLink) : Type 0 where
    pub links : List DiscoveryCertificate
    pub made : not_null (map (backfilled sha256_hexdigest certificates) ls) ≡ some links
    pub behind :
        (i : ℕ)
        → contents certificates (select (is_of i) links) ≡ map old_content (select (of_old i) ls)
    pub of_same : (i : ℕ) → count (is_of i) links ≡ count (of_old i) ls
    pub to_there :
        (i : ℕ) → 0 < count (links_to i) links → 0 < count (has_certificate_id i) certificates

  pub all-Linked :
      (ls : List OldLink)
      → ((fp : Text)
          → 0 < count (has_fp sha256_hexdigest ls fp) ls
          → 0 < count (has_fingerprint fp) certificates)
      → Linked ls
  unfolding not_null contents
  all-Linked [] there = record {
    links = [];
    made = refl;
    behind = λ i. refl;
    of_same = λ i. refl;
    to_there = λ i n. absurd (omega (arith, n));
  }
  all-Linked (l ∷ ls) there =
      let fp = fp_of_row sha256_hexdigest l in
      let (c, found) =
        find-count (has_fingerprint fp) certificates (there fp (ground (arith, text_eq_refl fp))) in
      let rest = all-Linked ls (λ k n. there k (ground (arith, n))) in
      let here : content_of certificates c.id ≡ some l.base64content =
        unfold id_by_fp in
        id_by_fp-content sha256_hexdigest (λ n. []) (fingerprint_apart sha256_hexdigest apart)
          certificates l.base64content c.id one labelled (ap id_or_key_error found) in
      record {
        links = link_of l c.id ∷ rest.links;
        made = rw (found, rest.made, cons_link) refl;
        behind = λ i. elim (Bool-cases (l.discovery_id == i)) [
          | inl e ↦ rw (e, here, rest.behind i) refl
          | inr e ↦ rw e (rest.behind i)
        ];
        of_same = λ i. omega (arith, rest.of_same i);
        to_there = λ i n. ground (
          arith,
          n,
          rest.to_there i,
          count_of_find (has_fingerprint fp) (has_certificate_id c.id) certificates c found
              (==_refl c.id),
          ==_iff c.id i,
        );
      }
