-- ===== src/Attribute/Access/Merge.antt =====
-- What `merge_attributes` comes to.
use pyadcs_connector.Prelude.{
  List, [], ◌∷◌, Option, none, some, Result, ok, err, Bool, true, false, ◌≡◌, sym, ap, ◌∙◌,
  Option-cases, inl, inr, >>=-eq-ok, ok-injective, arith, select,
}
use mathlib.Core.Path.{subst}
use pyadcs_connector.Text.{Text, codes, text_eq}
use pyadcs_connector.Text.Laws.{text_eq_refl, text_eq_iff}
use pyadcs_connector.Json.{
  Value, obj, field, end, Fields, lookup, store, get_item, set_item, or_key_error,
}
use pyadcs_connector.Attribute.Access.{last_named, put_content, merge_each}

lookup-store : (k : Text) (v : Value) (fs : Fields) → lookup k (store k v fs) ≡ some v
unfolding lookup store
lookup-store k v end = rw (text_eq_refl k)
lookup-store k v (field j w fs) = ground (arith, lookup-store k v fs, text_eq_refl k)

lookup-store_other :
    (k j : Text) (v : Value) (fs : Fields)
    → text_eq k j ≡ false
    → lookup j (store k v fs) ≡ lookup j fs
unfolding lookup store
lookup-store_other k j v end ne = rw ne
lookup-store_other k j v (field i w fs) ne =
    ground (
      arith,
      lookup-store_other k j v fs ne,
      text_eq_iff i k,
      λ (e : i ≡ k). ap (λ s. text_eq s j) e,
    )

-- What becomes of an offered attribute that the request names: it takes the content that the
-- request has, and stays as it was offered in all else.
pub record IsMerged (request : List (Value × Value)) (offered m : Value) : Type 0 where
  pub name : Value
  pub corresponding : Value
  pub content : Value
  pub has_name : get_item offered (codes "name") ≡ ok name
  pub requested : last_named name request ≡ some corresponding
  pub from_request : get_item corresponding (codes "content") ≡ ok content
  pub is_set : set_item offered (codes "content") content ≡ ok m
  pub has_content : get_item m (codes "content") ≡ ok content
  pub keeps :
      (key : Text) → text_eq (codes "content") key ≡ false → get_item m key ≡ get_item offered key

-- The merged attributes are those of the offered ones that the request names, in their order.
abbrev pub AreMerged : List (Value × Value) → List Value → List Value → Type 0
AreMerged request [] [] = Unit
AreMerged request [] (m ∷ ms) = ⊥
AreMerged request (a ∷ attributes) [] = ⊥
AreMerged request (a ∷ attributes) (m ∷ ms) = IsMerged request a m × AreMerged request attributes ms

set_item-get :
    (a m v : Value)
    → set_item a (codes "content") v ≡ ok m
    → (get_item m (codes "content") ≡ ok v)
      × ((key : Text) → text_eq (codes "content") key ≡ false → get_item m key ≡ get_item a key)
unfolding set_item get_item
set_item-get (obj fs) m v h =
    subst
      (λ n.
        (get_item n (codes "content") ≡ ok v)
        × ((key : Text)
            → text_eq (codes "content") key ≡ false
            → get_item n key ≡ get_item (obj fs) key))
      (ok-injective h)
      (
        ap or_key_error (lookup-store (codes "content") v fs),
        λ key other. ap or_key_error (lookup-store_other (codes "content") key v fs other),
      )
set_item-get _ m v h = absurd (cc)

abbrev is_some : Option Value → Bool
is_some none = false
is_some (some v) = true

abbrev is_key : List (Value × Value) → Result Value → Bool
is_key request (err e) = false
is_key request (ok name) = is_some (last_named name request)

-- An attribute of the offer that the request names.
abbrev pub is_requested : List (Value × Value) → Value → Bool
is_requested request a = is_key request (get_item a (codes "name"))

put_content-IsMerged :
    (request : List (Value × Value)) (a c name : Value) (rest : Result (List Value))
    (ms : List Value)
    → get_item a (codes "name") ≡ ok name
    → last_named name request ≡ some c
    → put_content a c rest ≡ ok ms
    → (m : Value) × (tail : List Value) × (ms ≡ m ∷ tail) × IsMerged request a m × (rest ≡ ok tail)
put_content-IsMerged request a c name rest ms named found h =
    let (content, has, h1) = >>=-eq-ok (get_item c (codes "content")) _ h in
    let (m, put, h2) = >>=-eq-ok (set_item a (codes "content") content) _ h1 in
    let (tail, merged, h3) = >>=-eq-ok rest _ h2 in
    let (its, kept) = set_item-get a m content put in
    (
      m,
      tail,
      sym (ok-injective h3),
      record {
        name = name;
        corresponding = c;
        content = content;
        has_name = named;
        requested = found;
        from_request = has;
        is_set = put;
        has_content = its;
        keeps = kept;
      },
      merged,
    )

abbrev requested_of : List (Value × Value) → List Value → List Value
requested_of request attributes = select (is_requested request) attributes

pub merge_each-AreMerged :
    (request : List (Value × Value)) (attributes ms : List Value)
    → merge_each request attributes ≡ ok ms
    → AreMerged request (requested_of request attributes) ms
unfolding merge_each
merge_each-AreMerged request [] ms h = subst (AreMerged request []) (ok-injective h) tt
merge_each-AreMerged request (a ∷ attributes) ms h =
    let (name, named, h1) = >>=-eq-ok (get_item a (codes "name")) _ h in
    elim (Option-cases (last_named name request)) [
      | inl unknown ↦
          let is_not = ap (is_key request) named ∙ ap is_some unknown in
          rw is_not (merge_each-AreMerged request attributes ms (rw unknown at h1))
      | inr (c, found) ↦
          let is = ap (is_key request) named ∙ ap is_some found in
          let (m, tail, shape, first, merged) =
            put_content-IsMerged request a c name (merge_each request attributes) ms named found
              (rw found at h1) in
          rw is (
            subst (AreMerged request (a ∷ requested_of request attributes)) (sym shape)
              (first, merge_each-AreMerged request attributes tail merged))
    ]
