-- ===== src/Db/Rows.antt =====
-- Queries and changes over the rows of a table.
use pyadcs_connector.Prelude.{
  List, if◌then◌else◌, Bool-cases, count, ℕ, zero, suc, ◌+◌, ◌-◌, ◌≤◌, ◌<◌, min, ◌≡◌, refl, ap, ◌∙◌,
  inl, inr, Bool, true, false, Option, none, some, [], ◌∷◌, arith, ltb, any,
}

module _ {ℓ} {A : Type ℓ} where
  -- `filter(…).first()` and `get(…)`
  unfoldable pub find : (A → Bool) → List A → Option A
  find p [] = none
  find p (x ∷ xs) = let rest = find p xs in if p x then some x else rest

  -- `filter(…).update(…)`
  unfoldable pub update_where : (A → Bool) → (A → A) → List A → List A
  update_where p f [] = []
  update_where p f (x ∷ xs) = (if p x then f x else x) ∷ update_where p f xs

  -- `filter(…).delete()`
  unfoldable pub delete_where : (A → Bool) → List A → List A
  delete_where p [] = []
  delete_where p (x ∷ xs) = let rest = delete_where p xs in if p x then rest else x ∷ rest

  -- `DELETE … WHERE … LIMIT n`: the rows that are left, and the number of the deleted ones.
  unfoldable pub delete_limit : ℕ → (A → Bool) → List A → List A × ℕ
  delete_limit zero p xs = (xs, 0)
  delete_limit (suc n) p [] = ([], 0)
  delete_limit (suc n) p (x ∷ xs) =
      let gone = delete_limit n p xs in
      let kept = delete_limit (suc n) p xs in
      if p x then (gone.0, gone.1 + 1) else (x ∷ kept.0, kept.1)

  pub find-count : (p : A → Bool) (xs : List A) → 0 < count p xs → (x : A) × (find p xs ≡ some x)
  unfolding find
  find-count p [] h = absurd (omega arith)
  find-count p (x ∷ xs) h = elim (Bool-cases (p x)) [
    | inl e ↦ (x, rw e)
    | inr e ↦ rw e (find-count p xs (ground arith))
  ]

  -- A row that is found passes each test that it passes by itself.
  pub count_of_find :
      (p q : A → Bool) (xs : List A) (x : A) → find p xs ≡ some x → q x ≡ true → 0 < count q xs
  unfolding find
  count_of_find p q [] x h k = absurd (cc)
  count_of_find p q (y ∷ xs) x h k = ground (arith, count_of_find p q xs x)

  pub find-none : (p : A → Bool) (xs : List A) → find p xs ≡ none → count p xs ≡ 0
  unfolding find
  find-none p [] h = refl
  find-none p (x ∷ xs) h = ground (arith, find-none p xs)

  pub find-none_of_count : (p : A → Bool) (xs : List A) → count p xs ≡ 0 → find p xs ≡ none
  unfolding find
  find-none_of_count p [] h = refl
  find-none_of_count p (x ∷ xs) h = ground (arith, find-none_of_count p xs)

  pub find-some : (p : A → Bool) (xs : List A) (x : A) → find p xs ≡ some x → p x ≡ true
  unfolding find
  find-some p [] x h = cc
  find-some p (y ∷ xs) x h = ground (arith, find-some p xs x)

  changed : (p q : A → Bool) (f : A → A) (y : A) → p (f y) ≡ p y → p (if q y then f y else y) ≡ p y
  changed p q f y kept = elim (Bool-cases (q y)) [ inl e ↦ rw e kept | inr e ↦ rw e refl ]

  pub some-injective : {x y : A} → some x ≡ some y → x ≡ y
  some-injective h = cc

  -- The first row of a test, after a change that keeps the test.
  pub find-update_where :
      (p q : A → Bool) (f : A → A) (xs : List A) (x : A)
      → ((y : A) → p (f y) ≡ p y)
      → find p xs ≡ some x
      → find p (update_where q f xs) ≡ some (if q x then f x else x)
  unfolding find update_where
  find-update_where p q f [] x kept h = absurd (cc h)
  find-update_where p q f (y ∷ ys) x kept h = elim (Bool-cases (p y)) [
    | inl e ↦
        let same : y ≡ x = some-injective (rw e at h) in
        rw (changed p q f y (kept y) ∙ e) (ap (λ z. some (if q z then f z else z)) same)
    | inr e ↦ rw (changed p q f y (kept y) ∙ e) (find-update_where p q f ys x kept (rw e at h))
  ]

  pub update_where_none :
      (p : A → Bool) (f : A → A) (xs : List A) → count p xs ≡ 0 → update_where p f xs ≡ xs
  unfolding update_where
  update_where_none p f [] h = refl
  update_where_none p f (x ∷ xs) h = elim (Bool-cases (p x)) [
    | inl e ↦ absurd (ground arith)
    | inr e ↦ rw e (ap (◌∷◌ x) (update_where_none p f xs (ground arith)))
  ]

  -- Rows of a test that the change keeps are as many as before.
  pub count-update_where :
      (q p : A → Bool) (f : A → A) (xs : List A)
      → ((x : A) → q (f x) ≡ q x)
      → count q (update_where p f xs) ≡ count q xs
  unfolding update_where
  count-update_where q p f [] h = refl
  count-update_where q p f (x ∷ xs) h = ground (arith, h x, count-update_where q p f xs h)

  pub count-delete_where_self : (p : A → Bool) (xs : List A) → count p (delete_where p xs) ≡ 0
  unfolding delete_where
  count-delete_where_self p [] = refl
  count-delete_where_self p (x ∷ xs) = ground (arith, count-delete_where_self p xs)

  pub count-delete_where-le :
      (q p : A → Bool) (xs : List A) → count q (delete_where p xs) ≤ count q xs
  unfolding delete_where
  count-delete_where-le q p [] = omega arith
  count-delete_where-le q p (x ∷ xs) = ground (arith, count-delete_where-le q p xs)

  -- A deletion that means a row of another test leaves fewer of that test.
  pub count-delete_where_found :
      (q p : A → Bool) (xs : List A) (x : A)
      → find q xs ≡ some x
      → p x ≡ true
      → count q (delete_where p xs) < count q xs
  unfolding find delete_where
  count-delete_where_found q p [] x h k = absurd (cc h)
  count-delete_where_found q p (y ∷ ys) x h k =
      let fewer = count-delete_where-le q p ys in
      elim (Bool-cases (q y)) [
        | inl e ↦
            let gone : p y ≡ true = ap p (some-injective (rw e at h)) ∙ k in
            rw gone (ground (arith, fewer, e))
        | inr e ↦ ground (arith, e, count-delete_where_found q p ys x (rw e at h) k)
      ]

  -- Rows that the deletion does not mean are kept.
  pub count-delete_where_other :
      (q p : A → Bool) (xs : List A)
      → ((x : A) → q x ≡ true → p x ≡ false)
      → count q (delete_where p xs) ≡ count q xs
  unfolding delete_where
  count-delete_where_other q p [] h = refl
  count-delete_where_other q p (x ∷ xs) h = ground (arith, h x, count-delete_where_other q p xs h)

  -- A limited deletion deletes as many rows of the test as the limit allows.
  pub delete_limit-deleted :
      (n : ℕ) (p : A → Bool) (xs : List A) → (delete_limit n p xs).1 ≡ min n (count p xs)
  unfolding delete_limit
  delete_limit-deleted zero p xs = omega arith
  delete_limit-deleted (suc n) p [] = omega arith
  delete_limit-deleted (suc n) p (x ∷ xs) =
      ground (arith, delete_limit-deleted n p xs, delete_limit-deleted (suc n) p xs)

  pub delete_limit-count :
      (n : ℕ) (p : A → Bool) (xs : List A) → count p (delete_limit n p xs).0 ≡ count p xs - n
  unfolding delete_limit
  delete_limit-count zero p xs = omega arith
  delete_limit-count (suc n) p [] = omega arith
  delete_limit-count (suc n) p (x ∷ xs) =
      ground (arith, delete_limit-count n p xs, delete_limit-count (suc n) p xs)

  pub delete_limit-other :
      (q : A → Bool) (n : ℕ) (p : A → Bool) (xs : List A)
      → ((x : A) → q x ≡ true → p x ≡ false)
      → count q (delete_limit n p xs).0 ≡ count q xs
  unfolding delete_limit
  delete_limit-other q zero p xs h = refl
  delete_limit-other q (suc n) p [] h = refl
  delete_limit-other q (suc n) p (x ∷ xs) h =
      ground (arith, h x, delete_limit-other q n p xs h, delete_limit-other q (suc n) p xs h)

  pub delete_limit-le :
      (q : A → Bool) (n : ℕ) (p : A → Bool) (xs : List A)
      → count q (delete_limit n p xs).0 ≤ count q xs
  unfolding delete_limit
  delete_limit-le q zero p xs = omega arith
  delete_limit-le q (suc n) p [] = omega arith
  delete_limit-le q (suc n) p (x ∷ xs) =
      ground (arith, delete_limit-le q n p xs, delete_limit-le q (suc n) p xs)

  -- Of a wider test, as many rows are left as were not deleted.
  pub delete_limit-wider :
      (q : A → Bool) (n : ℕ) (p : A → Bool) (xs : List A)
      → ((x : A) → p x ≡ true → q x ≡ true)
      → count q (delete_limit n p xs).0 + (delete_limit n p xs).1 ≡ count q xs
  unfolding delete_limit
  delete_limit-wider q zero p xs h = omega arith
  delete_limit-wider q (suc n) p [] h = refl
  delete_limit-wider q (suc n) p (x ∷ xs) h =
      ground (arith, h x, delete_limit-wider q n p xs h, delete_limit-wider q (suc n) p xs h)

  pub count-any : (p : A → Bool) (xs : List A) → any p xs ≡ ltb 0 (count p xs)
  count-any p [] = refl
  count-any p (x ∷ xs) = ground (arith, count-any p xs)
