-- ===== src/Discovery/Response.antt =====
-- `get_discovery_history_data` and the objects of objects/discovery_*_dto.py: one page of the
-- certificates of a discovery.
pub mod Laws
use pyadcs_connector.Prelude.{
  ℤ, ℕ, Bool, false, List, [], ◌∷◌, Result, ok, err, count, if◌then◌else◌, take, drop, select, map,
  value_error, pos, negsuc, ◌*◌, ◌-◌, ◌+◌, ◌>>=◌, ◌>>◌, ◌≡◌, none, some,
}
use pyadcs_connector.Text.{Text}
use pyadcs_connector.Json.{Value}
use pyadcs_connector.Db.{
  Db, DiscoveryHistory, DiscoveryCertificate, Certificate, is_of, has_certificate_id,
}
use pyadcs_connector.Db.Rows.{find}
use pyadcs_connector.Discovery.Persist.{DiscoveryStatus, in_progress}

pub record DiscoveryHistoryRequestDto : Type 0 where
  pub name : Text
  pub kind : Text
  pub page_number : ℤ
  pub items_per_page : ℤ

pub record DiscoveryCertificateDto : Type 0 where
  pub uuid : Text
  pub base64_content : Text
  pub meta : Value

pub record DiscoveryHistoryResponseDto : Type 0 where
  pub name : Text
  pub uuid : Text
  pub status : Text
  pub certificate_data : List DiscoveryCertificateDto
  pub meta : Value
  pub total_certificates_discovered : ℕ

-- `discovery_history.status == DiscoveryStatus.…`: the status is a text, and a member of an
-- `Enum` is equal to no text.
abbrev pub equals_member : Text → DiscoveryStatus → Bool
equals_member status member = false

-- `0 if page_number <= 0 else page_number - 1`
unfoldable pub page_index : ℤ → ℕ
page_index (pos n) = n - 1
page_index (negsuc n) = 0

-- The inner join of `select_related`: a link without its certificate is not among the rows.
unfoldable pub with_certificates :
    List Certificate → List DiscoveryCertificate → List (DiscoveryCertificate × Certificate)
with_certificates certificates [] = []
with_certificates certificates (l ∷ ls) =
    let rest = with_certificates certificates ls in
    elim (find (has_certificate_id l.certificate) certificates) [
      | none ↦ rest
      | some c ↦ (l, c) ∷ rest
    ]

abbrev pub dto_of : DiscoveryCertificate × Certificate → DiscoveryCertificateDto
dto_of (l, c) = record { uuid = l.uuid; base64_content = c.base64content; meta = l.meta }

-- A query set cut to `[page_number * n : (page_number + 1) * n]`; a negative bound is refused.
unfoldable pub slice {ℓ} : {A : Type ℓ} → ℕ → ℤ → List A → Result (List A)
slice page_number (negsuc n) rows = err value_error
slice page_number (pos n) rows =
    ok (take ((page_number + 1) * n - page_number * n) (drop (page_number * n) rows))

-- How the database orders rows by their UUID, and rows of the same UUID, which SQL leaves open.
pub record ByUuid : Type 0 where
  pub order : List (DiscoveryCertificate × Certificate) → List (DiscoveryCertificate × Certificate)
  pub same_rows :
      (p : DiscoveryCertificate × Certificate → Bool)
      (rows : List (DiscoveryCertificate × Certificate))
      → count p (order rows) ≡ count p rows

module _ (by_uuid : ByUuid) where
  -- The rows that the pages are cut from.
  abbrev pub ordered_rows : ℕ → Db → List (DiscoveryCertificate × Certificate)
  ordered_rows discovery db =
      by_uuid.order (with_certificates db.certificates (select (is_of discovery) db.links))

  unfoldable pub get_discovery_history_data :
      DiscoveryHistoryRequestDto → DiscoveryHistory → Db → Result DiscoveryHistoryResponseDto
  get_discovery_history_data request h db =
      let total_certificates = count (is_of h.id) db.links in
      let response : List DiscoveryCertificateDto → ℕ → DiscoveryHistoryResponseDto =
        λ certificates total. record {
          name = h.name;
          uuid = h.uuid;
          status = h.status;
          certificate_data = certificates;
          meta = h.meta;
          total_certificates_discovered = total;
        } in
      let paged : Result DiscoveryHistoryResponseDto = (do
        rows ← slice (page_index request.page_number) request.items_per_page (ordered_rows h.id db)
        ok (response (map dto_of rows) total_certificates)) in
      if equals_member h.status in_progress then ok (response [] 0) else paged
