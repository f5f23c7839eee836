-- ===== src/Authority/Table.antt =====
-- The rows of the table of authority instances: what tells them apart.
use pyadcs_connector.Prelude.{
  ℕ, suc, List, [], ◌∷◌, ◌++◌, count, count-append, any, some, Bool, Bool-cases, true, false, inl,
  inr, ◌≡◌, ◌≤◌, ◌<◌, ◌==◌, ==_refl, ==_iff, refl, ap, sym, ◌∙◌, arith, if◌then◌else◌, ◌+◌,
}
use mathlib.Core.Path.{subst}
use pyadcs_connector.Text.{Text, text_eq}
use pyadcs_connector.Text.Laws.{text_eq_iff}
use pyadcs_connector.Db.Rows.{some-injective, find, update_where}
use pyadcs_connector.Db.Authorities.{AuthorityInstance, Authorities, has_name, has_uuid, has_id}

-- No two instances have one name, or one identifier, and no identifier is above the sequence.
pub record IsTable (table : Authorities) : Type 0 where
  pub unique_name : (name : Text) → count (has_name name) table.rows ≤ 1
  pub unique_id : (i : ℕ) → count (has_id i) table.rows ≤ 1
  pub fresh_id : (i : ℕ) → table.seq < i → count (has_id i) table.rows ≡ 0

abbrev one_if : Bool → ℕ
one_if b = if b then 1 else 0

-- A row that is found by one test is found by any test that tells it from the others.
find_unique {ℓ} :
    {A : Type ℓ} (p q : A → Bool) (xs : List A) (a : A)
    → find p xs ≡ some a
    → q a ≡ true
    → count q xs ≤ 1
    → (find q xs ≡ some a) × (0 < count q xs)
unfolding find
find_unique p q [] a h k u = absurd (cc)
find_unique p q (x ∷ xs) a h k u = elim (Bool-cases (p x)) [
  | inl e ↦
      let same : x ≡ a = some-injective (rw e at h) in
      let passes = ap q same ∙ k in (rw passes (ap some same), omega (arith, ap one_if passes))
  | inr e ↦
      let (there, more) = find_unique p q xs a (rw e at h) k (omega (arith, u)) in
      elim (Bool-cases (q x)) [
        | inl g ↦ absurd (omega (arith, u, more, ap one_if g))
        | inr g ↦ (rw g there, omega (arith, more))
      ]
]

count-update_none {ℓ} :
    {A : Type ℓ} (p q : A → Bool) (f : A → A) (xs : List A)
    → count p xs ≤ 0
    → count q (update_where p f xs) ≡ count q xs
unfolding update_where
count-update_none p q f [] h = refl
count-update_none p q f (x ∷ xs) h = ground (arith, count-update_none p q f xs)

-- A change of the one row of a test, to a row that another test sees in the same way.
count-update_one {ℓ} :
    {A : Type ℓ} (p q : A → Bool) (a a' : A) (xs : List A)
    → find p xs ≡ some a
    → count p xs ≤ 1
    → q a' ≡ q a
    → count q (update_where p (λ _. a') xs) ≡ count q xs
unfolding find update_where
count-update_one p q a a' [] h u same = refl
count-update_one p q a a' (x ∷ xs) h u same = elim (Bool-cases (p x)) [
  | inl e ↦
      let unique : count p xs ≤ 0 = omega (arith, u, ap one_if e) in
      let swap = same ∙ sym (ap q (some-injective (rw e at h))) in
      rw (e, swap) (omega (arith, count-update_none p q (λ _. a') xs unique))
  | inr e ↦ rw e (omega (arith, count-update_one p q a a' xs (rw e at h) (omega (arith, u)) same))
]

pub empty-IsTable : IsTable (record { rows = []; seq = 0 })
empty-IsTable = record {
  unique_name = λ name. omega arith;
  unique_id = λ i. omega arith;
  fresh_id = λ i h. refl;
}

abbrev pub Same : AuthorityInstance → AuthorityInstance → Type 0
Same a a' = (a'.id ≡ a.id) × (a'.name ≡ a.name)

pub updated-IsTable :
    (table : Authorities) (uuid : Text) (a a' : AuthorityInstance)
    → IsTable table
    → find (has_uuid uuid) table.rows ≡ some a
    → a'.id ≡ a.id
    → a'.name ≡ a.name
    → IsTable (record table { rows = update_where (has_id a.id) (λ _. a') table.rows })
updated-IsTable table uuid a a' t found same_id same_name =
    let unique = t.unique_id a.id in
    let (here, _) =
      find_unique (has_uuid uuid) (has_id a.id) table.rows a found (==_refl a.id) unique in
    let kept : (q : AuthorityInstance → Bool)
        → q a' ≡ q a
        → count q (update_where (has_id a.id) (λ _. a') table.rows) ≡ count q table.rows =
      λ q e. count-update_one (has_id a.id) q a a' table.rows here unique e in
    record {
      unique_name = λ name.
          omega
            (arith, kept (has_name name) (ap (λ n. text_eq n name) same_name), t.unique_name name);
      unique_id = λ i. omega (arith, kept (has_id i) (ap (λ j. j == i) same_id), t.unique_id i);
      fresh_id = λ i h. kept (has_id i) (ap (λ j. j == i) same_id) ∙ t.fresh_id i h;
    }

any-count {ℓ} : {A : Type ℓ} (p : A → Bool) (xs : List A) → any p xs ≡ false → count p xs ≡ 0
any-count p [] h = refl
any-count p (x ∷ xs) h = ground (arith, any-count p xs)

at_most_one {ℓ} : {A : Type ℓ} (q : A → Bool) (x : A) → (if q x then 1 else 0) ≤ 1
at_most_one q x = ground arith

pub created-IsTable :
    (table : Authorities) (a : AuthorityInstance)
    → IsTable table
    → any (has_name a.name) table.rows ≡ false
    → a.id ≡ suc table.seq
    → IsTable (record { rows = table.rows ++ a ∷ []; seq = suc table.seq })
created-IsTable table a t untaken numbered =
    let rows' = table.rows ++ a ∷ [] in
    let one : (q : AuthorityInstance → Bool)
        → count q rows' ≡ count q table.rows + (if q a then 1 else 0) =
      λ q. omega (arith, count-append q table.rows (a ∷ [])) in
    let none_yet = any-count (has_name a.name) table.rows untaken in
    let unnumbered = t.fresh_id (suc table.seq) (omega arith) in
    record {
      unique_name = λ name. elim (Bool-cases (text_eq a.name name)) [
        | inl e ↦
            let none_of =
              subst (λ n. count (has_name n) table.rows ≡ 0) ((text_eq_iff a.name name).0 e)
                none_yet in
            omega (arith, one (has_name name), none_of, at_most_one (has_name name) a)
        | inr e ↦
            let other = ap one_if e in omega (arith, one (has_name name), other, t.unique_name name)
      ];
      unique_id = λ i. elim (Bool-cases (a.id == i)) [
        | inl e ↦
            let none_of =
              subst (λ j. count (has_id j) table.rows ≡ 0) (sym numbered ∙ (==_iff a.id i).0 e)
                unnumbered in
            omega (arith, one (has_id i), none_of, at_most_one (has_id i) a)
        | inr e ↦ let other = ap one_if e in omega (arith, one (has_id i), other, t.unique_id i)
      ];
      fresh_id = λ i h. elim (Bool-cases (a.id == i)) [
        | inl e ↦ absurd (omega (arith, h, numbered, (==_iff a.id i).0 e))
        | inr e ↦
            let other = ap one_if e in
            omega (arith, one (has_id i), other, t.fresh_id i (omega (arith, h)))
      ];
    }
