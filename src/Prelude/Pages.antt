-- ===== src/Prelude/Pages.antt =====
-- A list read page by page.
use Prim.Native.Nat.{ℕ, zero, suc, ◌+◌, ◌≤◌, ◌*◌}
use mathlib.Core.Path.{subst, ◌≡◌, refl, ap, ◌∙◌, sym}
use mathlib.Core.List.{List, [], ◌∷◌, ◌++◌}
use native.Mathlib.Omega.{arith}
use pyadcs_connector.Prelude.Lists.{length, take, drop, take-append-drop}

module _ {ℓ} {A : Type ℓ} where
  -- Page `k`, from 0, of `n` elements.
  abbrev pub page : ℕ → ℕ → List A → List A
  page n k xs = take n (drop (k * n) xs)

  drop_nil : (n : ℕ) → drop {A = A} n [] ≡ []
  drop_nil zero = refl
  drop_nil (suc n) = refl

  pub drop-drop : (m n : ℕ) (xs : List A) → drop m (drop n xs) ≡ drop (n + m) xs
  drop-drop m zero xs = ap (λ k. drop k xs) (omega arith)
  drop-drop m (suc n) [] = drop_nil m ∙ sym (drop_nil (suc n + m))
  drop-drop m (suc n) (x ∷ xs) =
      drop-drop m n xs ∙ ap (λ k. drop k (x ∷ xs)) {x = suc (n + m)} (omega arith)

  drop-all : (n : ℕ) (xs : List A) → length xs ≤ n → drop n xs ≡ []
  drop-all zero [] h = refl
  drop-all zero (x ∷ xs) h = absurd (omega (arith, h))
  drop-all (suc n) [] h = refl
  drop-all (suc n) (x ∷ xs) h = drop-all n xs (omega (arith, h))

  pub take-all : (n : ℕ) (xs : List A) → length xs ≤ n → take n xs ≡ xs
  take-all zero [] h = refl
  take-all zero (x ∷ xs) h = absurd (omega (arith, h))
  take-all (suc n) [] h = refl
  take-all (suc n) (x ∷ xs) h = ap (◌∷◌ x) (take-all n xs (omega (arith, h)))

  -- The first `m` pages from page `k` on, one after the other.
  abbrev pub pages : ℕ → ℕ → ℕ → List A → List A
  pages n zero k xs = []
  pages n (suc m) k xs = page n k xs ++ pages n m (suc k) xs

  pub pages_cover :
      (n m k : ℕ) (xs : List A) → length xs ≤ (k + m) * n → pages n m k xs ≡ drop (k * n) xs
  pages_cover n zero k xs h = sym (drop-all (k * n) xs (ground (arith, h)))
  pages_cover n (suc m) k xs h =
      ap (λ rest. page n k xs ++ rest)
        (pages_cover n m (suc k) xs (subst (λ j. length xs ≤ j * n) (omega arith) h))
      ∙ ap (λ rest. page n k xs ++ rest)
          (ap (λ j. drop j xs) (omega arith) ∙ sym (drop-drop n (k * n) xs))
      ∙ take-append-drop n (drop (k * n) xs)
