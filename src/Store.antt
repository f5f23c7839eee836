-- ===== src/Store.antt =====
-- What the shared certificate table stands for: the certificates of each discovery, as a table of
-- their contents would hold them.
pub mod Rows
pub mod Content
pub mod Published
pub mod Persisted
pub mod Refinement
use pyadcs_connector.Prelude.{
  ℕ, List, [], ◌∷◌, Option, none, some, Bool, not, ◌==◌, if◌then◌else◌, select, map, ◌≡◌,
}
use pyadcs_connector.Prelude.{Exception, ok, err}
use pyadcs_connector.Dump.{ParseResult}
use pyadcs_connector.Cleanup.{Planner}
use pyadcs_connector.Discovery.{Collected}
use pyadcs_connector.System.{System, Step, finish, delete}
use pyadcs_connector.Text.{Text, text_eq}
use pyadcs_connector.Text.Utf8.{Bytes}
use pyadcs_connector.Db.{
  Db, DiscoveryHistory, Certificate, DiscoveryCertificate, has_certificate_id, has_history_uuid,
  is_of,
}
use pyadcs_connector.Db.Rows.{find}
use pyadcs_connector.Fingerprint.{certificate_fingerprint}

abbrev pub content_or_none : Option Certificate → Option Text
content_or_none none = none
content_or_none (some c) = some c.base64content

-- The content behind a link's certificate.
abbrev pub content_of : List Certificate → ℕ → Option Text
content_of certificates i = content_or_none (find (has_certificate_id i) certificates)

abbrev pub cons_some : Option Text → List Text → List Text
cons_some none ts = ts
cons_some (some t) ts = t ∷ ts

-- The contents behind links, in their order.
unfoldable pub contents : List Certificate → List DiscoveryCertificate → List Text
contents certificates [] = []
contents certificates (l ∷ ls) =
    cons_some (content_of certificates l.certificate) (contents certificates ls)

-- The abstract store: for each discovery, the contents of its certificates.
abbrev pub Store : Type 0
Store = ℕ → List Text

abbrev pub store_of : Db → Store
store_of db i = contents db.certificates (select (is_of i) db.links)

-- What a transaction may do to the abstract store: leave it, publish the certificates that are
-- offered for a discovery that has none yet, or drop those of a discovery that is deleted.
pub data Change (offered : ℕ → List Text → Type 0) (deleted : ℕ → Type 0) (before after : Store)
    : Type 0 where
  keep : ((i : ℕ) → after i ≡ before i) → Change offered deleted before after
  publish :
      (discovery : ℕ) (certificates : List Text)
      → offered discovery certificates
      → before discovery ≡ []
      → ((i : ℕ) → after i ≡ (if discovery == i then certificates else before i))
      → Change offered deleted before after
  drop_all :
      (discovery : ℕ)
      → deleted discovery
      → ((i : ℕ) → after i ≡ (if discovery == i then [] else before i))
      → Change offered deleted before after

-- The certificates that a thread of the discovery `h` offers at its end.
abbrev pub Collects : DiscoveryHistory → Collected → ℕ → List Text → Type 0
Collects h (err e) discovery certificates = ⊥
Collects h (ok (cas, cs)) discovery certificates =
    (discovery ≡ h.id) × (certificates ≡ map (λ (c : ParseResult). c.certificate) cs)

-- The discovery that a request to delete it means.
abbrev pub Named : Text → Db → ℕ → Type 0
Named uuid db discovery =
    (h : DiscoveryHistory) × (find (has_history_uuid uuid) db.histories ≡ some h)
    × (h.id ≡ discovery)

module _ {planner : Planner} {sha256_hexdigest : Bytes → Text} {link_uuid : ℕ → Text}
    {str_of : Exception → Text} {s : System} where
  -- Only the end of a thread offers certificates, those that it collected.
  abbrev pub Offered :
      {t : System} → Step planner sha256_hexdigest link_uuid str_of s t → ℕ → List Text → Type 0
  Offered (finish before h after collected e) = Collects h collected
  Offered _ = λ discovery certificates. ⊥

  -- Only a request to delete a discovery drops any.
  abbrev pub Deleted :
      {t : System} → Step planner sha256_hexdigest link_uuid str_of s t → ℕ → Type 0
  Deleted (delete uuid) = Named uuid s.db
  Deleted _ = λ discovery. ⊥

-- A row whose fingerprint is not that of its content.
abbrev pub is_mislabelled : (Bytes → Text) → Certificate → Bool
is_mislabelled sha256_hexdigest c =
    not (text_eq c.fingerprint (certificate_fingerprint sha256_hexdigest c.base64content))
