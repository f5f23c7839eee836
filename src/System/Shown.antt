-- ===== src/System/Shown.antt =====
-- What is shown of a discovery while its thread runs.
use pyadcs_connector.Prelude.{
  ℕ, ℤ, pos, negsuc, true, List, [], ◌∷◌, ◌++◌, Exception, ok, count, length, select, map, ◌≡◌, ◌≤◌,
  refl, sym, ap, ◌∙◌, arith, count-true, length-select, Option-cases, inl, inr, take, drop, zero,
  suc, ◌+◌, ◌*◌, ◌-◌, All, >>=-eq-ok, ok-injective,
}
use mathlib.Core.Path.{subst}
use pyadcs_connector.Text.{Text}
use pyadcs_connector.Text.Utf8.{Bytes}
use pyadcs_connector.Db.{
  Db, DiscoveryHistory, DiscoveryCertificate, Certificate, is_of, has_certificate_id,
}
use pyadcs_connector.Db.Rows.{find}
use pyadcs_connector.Cleanup.{Planner}
use pyadcs_connector.Discovery.Response.{
  DiscoveryHistoryRequestDto, DiscoveryHistoryResponseDto, page_index, with_certificates, slice,
  ByUuid, ordered_rows, dto_of, get_discovery_history_data,
}
use pyadcs_connector.System.{System, Reach}
use pyadcs_connector.System.Threads.{IsThread, All-remove}
use pyadcs_connector.System.Reachable.{Reach-IsSound}

with_certificates-le :
    (certificates : List Certificate) (ls : List DiscoveryCertificate)
    → length (with_certificates certificates ls) ≤ length ls
unfolding with_certificates
with_certificates-le certificates [] = omega arith
with_certificates-le certificates (l ∷ ls) =
    let rest = with_certificates-le certificates ls in
    elim (Option-cases (find (has_certificate_id l.certificate) certificates)) [
      | inl e ↦ rw (e, with_certificates) (omega (arith, rest))
      | inr (c, e) ↦ rw (e, with_certificates) (omega (arith, rest))
    ]

empty_of_length {ℓ} : {A : Type ℓ} (xs : List A) → length xs ≤ 0 → xs ≡ []
empty_of_length [] h = refl
empty_of_length (x ∷ xs) h = absurd (omega (arith, h))

nothing_left {ℓ} : {A : Type ℓ} (m n : ℕ) → take {A = A} m (drop n []) ≡ []
nothing_left zero n = refl
nothing_left (suc m) zero = refl
nothing_left (suc m) (suc n) = refl

slice_nothing {ℓ} :
    {A : Type ℓ} (k : ℕ) (n : ℤ) (rows : List A) (r : List A)
    → rows ≡ []
    → slice k n rows ≡ ok r
    → r ≡ []
unfolding slice
slice_nothing k (negsuc n) rows r nothing h = absurd (cc)
slice_nothing k (pos n) rows r nothing h =
    sym (ok-injective h)
    ∙ ap (λ l. take ((k + 1) * n - k * n) (drop (k * n) l)) nothing
    ∙ nothing_left ((k + 1) * n - k * n) (k * n)

module _ (by_uuid : ByUuid) (db : Db) where
  no_rows : (i : ℕ) → count (is_of i) db.links ≡ 0 → ordered_rows by_uuid i db ≡ []
  no_rows i nothing =
      let ls = select (is_of i) db.links in
      empty_of_length (ordered_rows by_uuid i db) (
        omega (
          arith,
          count-true (ordered_rows by_uuid i db),
          by_uuid.same_rows (λ _. true) (with_certificates db.certificates ls),
          count-true (with_certificates db.certificates ls),
          with_certificates-le db.certificates ls,
          length-select (is_of i) db.links,
          nothing,
        ))

  unlinked_response :
      (request : DiscoveryHistoryRequestDto) (h : DiscoveryHistory)
      (response : DiscoveryHistoryResponseDto)
      → count (is_of h.id) db.links ≡ 0
      → get_discovery_history_data by_uuid request h db ≡ ok response
      → (response.certificate_data ≡ []) × (response.total_certificates_discovered ≡ 0)
  unfolding get_discovery_history_data
  unlinked_response request h response nothing e =
      let (rows, cut, e') =
        >>=-eq-ok
          (slice (page_index request.page_number) request.items_per_page
            (ordered_rows by_uuid h.id db))
          _ e in
      let same = ok-injective e' in
      let empty =
        slice_nothing (page_index request.page_number) request.items_per_page
          (ordered_rows by_uuid h.id db) rows (no_rows h.id nothing) cut in
      (
        ap (λ (r : DiscoveryHistoryResponseDto). r.certificate_data) (sym same)
            ∙ ap (map dto_of) empty,
        ap (λ (r : DiscoveryHistoryResponseDto). r.total_certificates_discovered) (sym same)
            ∙ nothing,
      )

module _ (planner : Planner) (sha256_hexdigest : Bytes → Text) (link_uuid : ℕ → Text)
    (str_of : Exception → Text) (by_uuid : ByUuid) where
  -- Whatever the order of the transactions and whichever page is asked for, the response for a
  -- discovery whose thread still runs has no certificates, and a total of zero.
  pub running_shows_nothing :
      (s : System) (before : List DiscoveryHistory) (h : DiscoveryHistory)
      (after : List DiscoveryHistory) (request : DiscoveryHistoryRequestDto)
      (response : DiscoveryHistoryResponseDto)
      → Reach planner sha256_hexdigest link_uuid str_of s
      → s.running ≡ before ++ h ∷ after
      → get_discovery_history_data by_uuid request h s.db ≡ ok response
      → (response.certificate_data ≡ []) × (response.total_certificates_discovered ≡ 0)
  running_shows_nothing s before h after request response r e =
      let sound = Reach-IsSound planner sha256_hexdigest link_uuid str_of s r in
      let own =
        (All-remove (IsThread s.db) before h after
          (subst (λ l. All (IsThread s.db) l) e sound.settled.threads)).0 in
      unlinked_response by_uuid s.db request h response own.no_links
