-- ===== src/Discovery/Collect/Laws.antt =====
-- The collection brings everything that the server holds, once and in its order.
use pyadcs_connector.Prelude.{
  ℕ, zero, suc, List, [], ◌∷◌, ◌++◌, append_assoc, Option, some, Result, ok, length, drop, min,
  ◌==◌, ==_iff, Bool-cases, inl, inr, ◌≡◌, ◌≤◌, ◌<◌, ◌+◌, ◌*◌, ◌-◌, refl, sym, ap, ◌∙◌, arith,
  length-take, length-drop, take-append-drop, All,
}
use pyadcs_connector.Prelude.Pages.{page, drop-drop, take-all}
use pyadcs_connector.Text.{Text}
use pyadcs_connector.Json.{Value}
use pyadcs_connector.Dump.{Response, AuthorityData, TemplateData, ParseResult}
use pyadcs_connector.Discovery.Collect.{extend, collect_pages, dump, collect_rounds, collect_cas}

module _ (dump_page : ℕ → Result (List ParseResult)) (n : ℕ) (rows : List ParseResult)
    (answers : (k : ℕ) → k * n ≤ length rows → dump_page (suc k) ≡ ok (page n k rows)) where
  length-page : (k : ℕ) → length (page n k rows) ≡ min n (length rows - k * n)
  length-page k = length-take n (drop (k * n) rows) ∙ ap (min n) (length-drop (k * n) rows)

  -- From a page on that the earlier full pages lead to.
  collect_pages-from :
      (fuel k : ℕ)
      → k * n ≤ length rows
      → length rows < k * n + fuel * n
      → collect_pages fuel dump_page n (suc k) ≡ some (ok (drop (k * n) rows))
  unfolding collect_pages extend
  collect_pages-from zero k low high = absurd (omega (arith, low, high))
  collect_pages-from (suc fuel) k low high = elim (Bool-cases (length (page n k rows) == n)) [
    | inl full ↦
        let len = (==_iff (length (page n k rows)) n).0 full in
        let next =
          collect_pages-from fuel (suc k) (omega (arith, len, length-page k, low))
            (omega (arith, high)) in
        rw (answers k low, full, next, collect_pages, extend)
          (ap (λ r. some (ok (page n k rows ++ r)))
              (ap (λ j. drop j rows) {x = suc k * n} {y = k * n + n} (omega arith)
                ∙ sym (drop-drop n (k * n) rows))
            ∙ ap (λ r. some (ok r)) (take-append-drop n (drop (k * n) rows)))
    | inr last ↦
        rw (answers k low, last, collect_pages)
          (ap (λ r. some (ok r))
            (take-all n (drop (k * n) rows) (
              ground (
                arith,
                last,
                ==_iff (length (page n k rows)) n,
                length-page k,
                length-drop (k * n) rows,
              ))))
  ]

-- What the server holds, as the rounds ask for it.
unfoldable pub rows_of_ca :
    (AuthorityData → Option TemplateData → List ParseResult)
    → AuthorityData
    → List (Option TemplateData)
    → List ParseResult
rows_of_ca rows ca [] = []
rows_of_ca rows ca (t ∷ ts) = rows ca t ++ rows_of_ca rows ca ts

unfoldable pub rows_of :
    (AuthorityData → Option TemplateData → List ParseResult)
    → List (Option TemplateData)
    → List AuthorityData
    → List ParseResult
rows_of rows templates [] = []
rows_of rows templates (ca ∷ cas) = rows_of_ca rows ca templates ++ rows_of rows templates cas

module _ (powershell : Text → Result Response) (eval : Text → Result Value)
    (formatted : Value → Text) (rows : AuthorityData → Option TemplateData → List ParseResult)
    (issued_after : Value) (fuel n : ℕ) where
  -- The server answers each page that is asked for with that page of its rows, of which the fuel
  -- is above the number of pages.
  pub record Serves (ca : AuthorityData) (t : Option TemplateData) : Type 0 where
    pub answers :
        (k : ℕ)
        → k * n ≤ length (rows ca t)
        → dump powershell eval formatted ca t issued_after n (suc k) ≡ ok (page n k (rows ca t))
    pub enough_fuel : length (rows ca t) < fuel * n

  round_complete :
      (ca : AuthorityData) (t : Option TemplateData)
      → Serves ca t
      → collect_pages fuel (dump powershell eval formatted ca t issued_after n) n 1
        ≡ some (ok (rows ca t))
  round_complete ca t s =
      collect_pages-from (dump powershell eval formatted ca t issued_after n) n (rows ca t)
        s.answers fuel 0 (omega arith) (omega (arith, s.enough_fuel))
      ∙ ap (λ j. some (ok (drop j (rows ca t)))) {x = 0 * n} {y = 0} (omega arith)

  rounds_complete :
      (ca : AuthorityData) (ts : List (Option TemplateData)) (later : List ParseResult)
      → All (Serves ca) ts
      → collect_rounds powershell eval formatted fuel issued_after n ca ts (some (ok later))
        ≡ some (ok (rows_of_ca rows ca ts ++ later))
  unfolding collect_rounds rows_of_ca extend
  rounds_complete ca [] later s = refl
  rounds_complete ca (t ∷ ts) later s =
      rw (round_complete ca t s.0, rounds_complete ca ts later s.1, collect_rounds, extend)
        (ap (λ r. some (ok r)) (sym (append_assoc (rows ca t) (rows_of_ca rows ca ts) later)))

  -- Where the server answers every page that is asked for, and the fuel is above the number of
  -- pages of each round, the collection ends and brings all rows of every CA and template, once
  -- and in the order of the rounds.
  pub collect_complete :
      (templates : List (Option TemplateData)) (cas : List AuthorityData)
      → All (λ ca. All (Serves ca) templates) cas
      → collect_cas powershell eval formatted fuel issued_after n templates cas
        ≡ some (ok (rows_of rows templates cas))
  unfolding collect_cas rows_of
  collect_complete templates [] s = refl
  collect_complete templates (ca ∷ cas) s =
      rw (collect_complete templates cas s.1)
        (rounds_complete ca templates (rows_of rows templates cas) s.0)
