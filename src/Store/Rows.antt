-- ===== src/Store/Rows.antt =====
-- Selected rows after a deletion, and the contents behind links of a table that changes.
use pyadcs_connector.Prelude.{
  ℕ, List, [], ◌∷◌, ◌++◌, Option, none, some, Bool, true, false, ◌&&◌, count, select, All, ◌≡◌, ◌<◌,
  ◌≤◌, refl, ap, ◌∙◌, arith, Bool-cases, Option-cases, inl, inr, ==_refl, count_mono,
}
use pyadcs_connector.Text.{Text, text_eq}
use pyadcs_connector.Text.Laws.{text_eq_iff}
use pyadcs_connector.Db.{Certificate, DiscoveryCertificate, has_certificate_id, links_to}
use pyadcs_connector.Db.Rows.{find, find-some, find-count, count_of_find, delete_where}
use pyadcs_connector.Store.{content_of, content_or_none, cons_some, contents}

module _ {ℓ} {A : Type ℓ} where
  pub select-append :
      (p : A → Bool) (xs ys : List A) → select p (xs ++ ys) ≡ select p xs ++ select p ys
  select-append p [] ys = refl
  select-append p (x ∷ xs) ys = ground (arith, select-append p xs ys)

  pub select-delete_self : (p : A → Bool) (xs : List A) → select p (delete_where p xs) ≡ []
  unfolding delete_where
  select-delete_self p [] = refl
  select-delete_self p (x ∷ xs) = ground (arith, select-delete_self p xs)

  pub select-delete_other :
      (q p : A → Bool) (xs : List A)
      → ((x : A) → q x ≡ true → p x ≡ false)
      → select q (delete_where p xs) ≡ select q xs
  unfolding delete_where
  select-delete_other q p [] h = refl
  select-delete_other q p (x ∷ xs) h = ground (arith, h x, select-delete_other q p xs h)

  pub select-All : (p : A → Bool) (xs : List A) → All (λ x. p x ≡ true) xs → select p xs ≡ xs
  select-All p [] h = refl
  select-All p (x ∷ xs) h = rw h.0 (ap (◌∷◌ x) (select-All p xs h.1))

  pub select-none : (p : A → Bool) (xs : List A) → All (λ x. p x ≡ false) xs → select p xs ≡ []
  select-none p [] h = refl
  select-none p (x ∷ xs) h = rw h.0 (select-none p xs h.1)

  -- The rows that are selected pass the tests that all rows pass.
  pub All-select {κ} :
      (P : A → Type κ) (p : A → Bool) (xs : List A) → All P xs → All P (select p xs)
  All-select P p [] h = tt
  All-select P p (x ∷ xs) h = elim (Bool-cases (p x)) [
    | inl e ↦ rw e (h.0, All-select P p xs h.1)
    | inr e ↦ rw e (All-select P p xs h.1)
  ]

abbrev pub has_content : ℕ → Text → Certificate → Bool
has_content i t c = has_certificate_id i c && text_eq c.base64content t

pub content_of-count :
    (rows : List Certificate) (i : ℕ) (t : Text)
    → content_of rows i ≡ some t
    → 0 < count (has_content i t) rows
content_of-count rows i t h = elim (Option-cases (find (has_certificate_id i) rows)) [
  | inl e ↦ absurd (cc (h, ap content_or_none e))
  | inr (c, e) ↦ count_of_find (has_certificate_id i) (has_content i t) rows c e (
      ground (
        arith,
        find-some (has_certificate_id i) rows c e,
        h,
        ap content_or_none e,
        text_eq_iff c.base64content t,
      ))
]

pub content_of_unique :
    (rows : List Certificate) (i : ℕ) (t : Text)
    → count (has_certificate_id i) rows ≤ 1
    → 0 < count (has_content i t) rows
    → content_of rows i ≡ some t
unfolding find
content_of_unique [] i t one h = absurd (omega (arith, h))
content_of_unique (c ∷ rows) i t one h =
    let fewer = count_mono (has_content i t) (has_certificate_id i) rows (λ x e. ground arith) in
    elim (Bool-cases (has_certificate_id i c)) [
      | inl e ↦
          rw (e, content_or_none)
            (ap some ((text_eq_iff c.base64content t).0 (ground (arith, one, h, e, fewer))))
      | inr e ↦ rw e (content_of_unique rows i t (ground (arith, one, e)) (ground (arith, h, e)))
    ]

-- A table that has every row with the identifier as often has the same content under it.
pub content_of-same :
    (rows rows' : List Certificate) (i : ℕ) (t : Text)
    → count (has_certificate_id i) rows' ≤ 1
    → count (has_content i t) rows ≤ count (has_content i t) rows'
    → content_of rows i ≡ some t
    → content_of rows' i ≡ some t
content_of-same rows rows' i t one more h =
    content_of_unique rows' i t one (omega (arith, more, content_of-count rows i t h))

-- A certificate that is there has a content.
pub content_of-some :
    (rows : List Certificate) (i : ℕ)
    → 0 < count (has_certificate_id i) rows
    → (t : Text) × (content_of rows i ≡ some t)
content_of-some rows i h =
    let (c, e) = find-count (has_certificate_id i) rows h in (c.base64content, ap content_or_none e)

-- Links whose certificates keep their contents keep them in their order.
pub contents_same :
    (rows rows' : List Certificate) (ls : List DiscoveryCertificate)
    → ((i : ℕ) → 0 < count (links_to i) ls → content_of rows' i ≡ content_of rows i)
    → contents rows' ls ≡ contents rows ls
unfolding contents
contents_same rows rows' [] h = refl
contents_same rows rows' (l ∷ ls) h = rw (
  h l.certificate (ground (arith, ==_refl l.certificate)),
  contents_same rows rows' ls (λ i n. h i (omega (arith, n))),
)

cons_some-append :
    (o : Option Text) (ts us : List Text) → cons_some o (ts ++ us) ≡ cons_some o ts ++ us
cons_some-append none ts us = refl
cons_some-append (some t) ts us = refl

pub contents-append :
    (rows : List Certificate) (ls ms : List DiscoveryCertificate)
    → contents rows (ls ++ ms) ≡ contents rows ls ++ contents rows ms
unfolding contents
contents-append rows [] ms = refl
contents-append rows (l ∷ ls) ms =
    ap (cons_some (content_of rows l.certificate)) (contents-append rows ls ms)
    ∙ cons_some-append (content_of rows l.certificate) (contents rows ls) (contents rows ms)
