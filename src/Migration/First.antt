-- ===== src/Migration/First.antt =====
-- Of the rows of one fingerprint exactly one is first: the one with the lowest identifier.
use pyadcs_connector.Prelude.{
  ℕ, List, [], ◌∷◌, Bool, true, ◌&&◌, ◌==◌, ==_iff, ltb, count, select, ◌≡◌, ◌≤◌, ◌<◌, ◌+◌, refl,
  arith, Bool-cases, inl, inr, ltb→lt, count_mono, count-select_le, ◌⊎◌,
}
use pyadcs_connector.Text.{Text, text_eq}
use pyadcs_connector.Text.Laws.{text_eq_iff}
use pyadcs_connector.Text.Utf8.{Bytes}
use pyadcs_connector.Db.Rows.{count-any}
use pyadcs_connector.Migration.{OldLink, fp_of_row, is_first}

abbrev pub has_old_id : ℕ → OldLink → Bool
has_old_id i l = l.id == i

abbrev pub is_below : (OldLink → Bool) → ℕ → OldLink → Bool
is_below p i l = p l && ltb l.id i

-- A row of a test with the lowest identifier; it passes every test that it passes by itself.
pub record Lowest (p : OldLink → Bool) (rows : List OldLink) : Type 0 where
  pub row : OldLink
  pub passes : p row ≡ true
  pub is_there : (q : OldLink → Bool) → q row ≡ true → 0 < count q rows
  pub lowest : count (is_below p row.id) rows ≡ 0

below_mono :
    (p : OldLink → Bool) (i j : ℕ) (rows : List OldLink)
    → i ≤ j
    → count (is_below p i) rows ≤ count (is_below p j) rows
below_mono p i j rows h = count_mono (is_below p i) (is_below p j) rows (λ x e. ground arith)

find-Lowest : (p : OldLink → Bool) (rows : List OldLink) → 0 < count p rows → Lowest p rows
find-Lowest p [] h = absurd (omega (arith, h))
find-Lowest p (l ∷ rows) h = elim (Bool-cases (ltb 0 (count p rows))) [
  | inr none_left ↦ record {
    row = l;
    passes = ground (arith, h, none_left);
    is_there = λ q e. ground (arith, e);
    lowest = ground (arith, none_left, count_mono (is_below p l.id) p rows (λ x e. ground arith));
  }
  | inl more ↦
      let m = find-Lowest p rows (ltb→lt 0 (count p rows) more) in
      elim (Bool-cases (p l && ltb l.id m.row.id)) [
        | inl lower ↦ record {
          row = l;
          passes = ground arith;
          is_there = λ q e. ground (arith, e);
          lowest = ground (arith, m.lowest, below_mono p l.id m.row.id rows, lower);
        }
        | inr higher ↦ record {
          row = m.row;
          passes = m.passes;
          is_there = λ q e. omega (arith, m.is_there q e);
          lowest = ground (arith, m.lowest, higher);
        }
      ]
]

count-select :
    (p q : OldLink → Bool) (rows : List OldLink)
    → count p (select q rows) ≡ count (λ l. p l && q l) rows
count-select p q [] = refl
count-select p q (l ∷ rows) = ground (arith, count-select p q rows)

count-split :
    (p q r : OldLink → Bool) (rows : List OldLink)
    → ((l : OldLink) → p l ≡ true → (q l ≡ true) ⊎ (r l ≡ true))
    → count p rows ≤ count q rows + count r rows
count-split p q r [] h = omega arith
count-split p q r (l ∷ rows) h = ground (arith, h l, count-split p q r rows h)

module _ (sha256_hexdigest : Bytes → Text) (rows : List OldLink) (fp : Text) where
  abbrev pub has_fp : OldLink → Bool
  has_fp l = text_eq (fp_of_row sha256_hexdigest l) fp

  -- The row with the lowest identifier is first.
  Lowest-first : (m : Lowest has_fp rows) → is_first sha256_hexdigest rows m.row ≡ true
  Lowest-first m =
      let same = (text_eq_iff (fp_of_row sha256_hexdigest m.row) fp).0 m.passes in
      let others = λ (x : OldLink).
        text_eq (fp_of_row sha256_hexdigest x) (fp_of_row sha256_hexdigest m.row)
        && ltb x.id m.row.id in
      ground (
        arith,
        count-any others rows,
        count_mono others (is_below has_fp m.row.id) rows (λ x e. ground (
          arith,
          text_eq_iff (fp_of_row sha256_hexdigest x) fp,
          text_eq_iff (fp_of_row sha256_hexdigest x) (fp_of_row sha256_hexdigest m.row),
          same,
        )),
        m.lowest,
      )

  pub first_there :
      0 < count has_fp rows → 0 < count has_fp (select (is_first sha256_hexdigest rows) rows)
  first_there h =
      let m = find-Lowest has_fp rows h in
      rw (count-select has_fp (is_first sha256_hexdigest rows) rows) (
        m.is_there (λ l. has_fp l && is_first sha256_hexdigest rows l)
          (ground (arith, m.passes, Lowest-first m)))

  -- A first row has no higher identifier than the lowest one.
  first_low :
      (m : Lowest has_fp rows) (l : OldLink)
      → (has_fp l && is_first sha256_hexdigest rows l) ≡ true
      → (is_below has_fp m.row.id l ≡ true) ⊎ (has_old_id m.row.id l ≡ true)
  first_low m l e =
      let before = λ (x : OldLink).
        text_eq (fp_of_row sha256_hexdigest x) (fp_of_row sha256_hexdigest l) && ltb x.id l.id in
      elim (Bool-cases (ltb m.row.id l.id)) [
        | inl higher ↦ absurd (
            ground (
              arith,
              e,
              count-any before rows,
              m.is_there before (
                  ground (
                    arith,
                    higher,
                    m.passes,
                    e,
                    text_eq_iff (fp_of_row sha256_hexdigest m.row) fp,
                    text_eq_iff (fp_of_row sha256_hexdigest m.row) (fp_of_row sha256_hexdigest l),
                    text_eq_iff (fp_of_row sha256_hexdigest l) fp,
                  )),
            ))
        | inr low ↦ elim (Bool-cases (l.id == m.row.id)) [
          | inl equal ↦ inr equal
          | inr unequal ↦ inl (ground (arith, e, low, unequal, ==_iff l.id m.row.id))
        ]
      ]

  pub first_unique :
      ((i : ℕ) → count (has_old_id i) rows ≤ 1)
      → count has_fp (select (is_first sha256_hexdigest rows) rows) ≤ 1
  first_unique one = elim (Bool-cases (ltb 0 (count has_fp rows))) [
    | inr nothing ↦
        ground (arith, count-select_le has_fp (is_first sha256_hexdigest rows) rows, nothing)
    | inl some_row ↦
        let m = find-Lowest has_fp rows (ltb→lt 0 (count has_fp rows) some_row) in
        omega (
          arith,
          count-select has_fp (is_first sha256_hexdigest rows) rows,
          count-split (λ l. has_fp l && is_first sha256_hexdigest rows l) (is_below has_fp m.row.id)
              (has_old_id m.row.id) rows (first_low m),
          m.lowest,
          one m.row.id,
        )
  ]
