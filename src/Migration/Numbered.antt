-- ===== src/Migration/Numbered.antt =====
-- The keys of the rows that the migration inserts.
use pyadcs_connector.Prelude.{
  ℕ, suc, List, [], ◌∷◌, count, length, ◌≡◌, ◌≤◌, ◌<◌, ◌+◌, refl, arith, ==_iff, ◌==◌, Bool-cases,
  ◌⊎◌, inl, inr,
}
use pyadcs_connector.Text.{Text, text_eq}
use pyadcs_connector.Text.Laws.{text_eq_refl}
use pyadcs_connector.Text.Utf8.{Bytes}
use pyadcs_connector.Db.{has_fingerprint, has_certificate_id}
use pyadcs_connector.Store.Content.{IsLabelled}
use pyadcs_connector.Migration.{OldLink, fp_of_row, numbered}

module _ (sha256_hexdigest : Bytes → Text) where
  pub length-numbered :
      (n : ℕ) (rows : List OldLink) → length (numbered sha256_hexdigest n rows) ≡ length rows
  unfolding numbered
  length-numbered n [] = refl
  length-numbered n (l ∷ ls) = omega (arith, length-numbered (suc n) ls)

  pub numbered-fp :
      (n : ℕ) (rows : List OldLink) (fp : Text)
      → count (has_fingerprint fp) (numbered sha256_hexdigest n rows)
        ≡ count (λ l. text_eq (fp_of_row sha256_hexdigest l) fp) rows
  unfolding numbered
  numbered-fp n [] fp = refl
  numbered-fp n (l ∷ ls) fp = ground (arith, numbered-fp (suc n) ls fp)

  pub numbered_outside :
      (n : ℕ) (rows : List OldLink) (i : ℕ)
      → (i ≤ n) ⊎ (n + length rows < i)
      → count (has_certificate_id i) (numbered sha256_hexdigest n rows) ≡ 0
  unfolding numbered
  numbered_outside n [] i h = refl
  numbered_outside n (l ∷ ls) i (inl h) =
      ground (arith, numbered_outside (suc n) ls i (inl (omega (arith, h))), ==_iff (suc n) i, h)
  numbered_outside n (l ∷ ls) i (inr h) =
      ground (arith, numbered_outside (suc n) ls i (inr (omega (arith, h))), ==_iff (suc n) i, h)

  pub numbered_unique :
      (n : ℕ) (rows : List OldLink) (i : ℕ)
      → count (has_certificate_id i) (numbered sha256_hexdigest n rows) ≤ 1
  unfolding numbered
  numbered_unique n [] i = omega arith
  numbered_unique n (l ∷ ls) i = elim (Bool-cases (suc n == i)) [
    | inl e ↦ ground (
      arith,
      e,
      ==_iff (suc n) i,
      numbered_outside (suc n) ls i (inl (ground (arith, ==_iff (suc n) i, e))),
    )
    | inr e ↦ ground (arith, e, numbered_unique (suc n) ls i)
  ]

  pub numbered-IsLabelled :
      (n : ℕ) (rows : List OldLink) → IsLabelled sha256_hexdigest (numbered sha256_hexdigest n rows)
  unfolding numbered
  numbered-IsLabelled n [] = refl
  numbered-IsLabelled n (l ∷ ls) =
      ground (arith, text_eq_refl (fp_of_row sha256_hexdigest l), numbered-IsLabelled (suc n) ls)
