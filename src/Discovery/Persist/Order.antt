-- ===== src/Discovery/Persist/Order.antt =====
-- The dictionary of fingerprints: its keys, and the order in which they are inserted.
use pyadcs_connector.Text.{Text, text_eq, text_lt}
use pyadcs_connector.Text.Laws.{text_eq_iff, text_eq_refl}
use pyadcs_connector.Prelude.{
  ℕ, Bool-cases, All, ◌≡◌, refl, ◌∙◌, inl, inr, true, false, ◌||◌, List, [], ◌∷◌, arith, any,
}
use pyadcs_connector.Text.Order.{text_lt_connex}
use pyadcs_connector.Text.Utf8.{Bytes}
use pyadcs_connector.Dump.{ParseResult}
use pyadcs_connector.Discovery.Persist.{
  Unique, dict_put, insert_item, sorted_items, fp_of, unique_from,
}
use pyadcs_connector.Discovery.Persist.Rows.{has_key}

has_key-put :
    (fp k : Text) (v : ParseResult) (m : Unique)
    → has_key fp (dict_put k v m) ≡ (text_eq k fp || has_key fp m)
unfolding dict_put
has_key-put fp k v [] = refl
has_key-put fp k v ((j, w) ∷ m) = ground (arith, has_key-put fp k v m, text_eq_iff j k)

has_key-insert :
    (fp k : Text) (v : ParseResult) (m : Unique)
    → has_key fp (insert_item (k, v) m) ≡ (text_eq k fp || has_key fp m)
unfolding insert_item
has_key-insert fp k v [] = refl
has_key-insert fp k v ((j, w) ∷ m) = ground (arith, has_key-insert fp k v m)

pub has_key-sorted : (fp : Text) (m : Unique) → has_key fp (sorted_items m) ≡ has_key fp m
unfolding sorted_items
has_key-sorted fp [] = refl
has_key-sorted fp ((k, v) ∷ m) =
    ground (arith, has_key-insert fp k v (sorted_items m), has_key-sorted fp m)

-- No two entries have one key.
abbrev pub HasDistinctKeys : Unique → Type 0
HasDistinctKeys [] = Unit
HasDistinctKeys ((k, v) ∷ m) = (has_key k m ≡ false) × HasDistinctKeys m

put-HasDistinctKeys :
    (k : Text) (v : ParseResult) (m : Unique) → HasDistinctKeys m → HasDistinctKeys (dict_put k v m)
unfolding dict_put
put-HasDistinctKeys k v [] h = (refl, tt)
put-HasDistinctKeys k v ((j, w) ∷ m) h = elim (Bool-cases (text_eq j k)) [
  | inl e ↦ rw e h
  | inr e ↦ rw e (
    ground (arith, has_key-put j k v m, text_eq_iff k j, text_eq_iff j k, h.0),
    put-HasDistinctKeys k v m h.1,
  )
]

-- The keys stand in strictly ascending order.
abbrev pub IsAscending : Unique → Type 0
IsAscending [] = Unit
IsAscending ((k, v) ∷ []) = Unit
IsAscending ((k, v) ∷ (j, w) ∷ m) = (text_lt k j ≡ true) × IsAscending ((j, w) ∷ m)

insert-IsAscending :
    (k : Text) (v : ParseResult) (m : Unique)
    → has_key k m ≡ false
    → IsAscending m
    → IsAscending (insert_item (k, v) m)
unfolding insert_item
insert-IsAscending k v [] h s = tt
insert-IsAscending k v ((j, w) ∷ []) h s = elim (Bool-cases (text_lt j k)) [
  | inl e ↦ rw e (e, tt)
  | inr e ↦ rw e (text_lt_connex j k e (ground arith), tt)
]
insert-IsAscending k v ((j, w) ∷ (i, u) ∷ m) h s =
    let rest = insert-IsAscending k v ((i, u) ∷ m) (ground arith) s.1 in
    elim (Bool-cases (text_lt j k)) [
      | inl e ↦ rw e (elim (Bool-cases (text_lt i k)) [
        | inl e' ↦ rw e' (s.0, (rw e' at rest))
        | inr e' ↦ rw e' (e, (rw e' at rest))
      ])
      | inr e ↦ rw e (text_lt_connex j k e (ground arith), s)
    ]

pub sorted-IsAscending : (m : Unique) → HasDistinctKeys m → IsAscending (sorted_items m)
unfolding sorted_items
sorted-IsAscending [] h = tt
sorted-IsAscending ((k, v) ∷ m) h =
    insert-IsAscending k v (sorted_items m) (has_key-sorted k m ∙ h.0) (sorted-IsAscending m h.1)

module _ (sha256_hexdigest : Bytes → Text) (link_uuid : ℕ → Text) where
  unique-HasDistinctKeys :
      (m : Unique) (cs : List ParseResult)
      → HasDistinctKeys m
      → HasDistinctKeys (unique_from sha256_hexdigest link_uuid m cs)
  unfolding unique_from
  unique-HasDistinctKeys m [] h = h
  unique-HasDistinctKeys m (c ∷ cs) h =
      unique-HasDistinctKeys (dict_put (fp_of sha256_hexdigest link_uuid c) c m) cs
        (put-HasDistinctKeys (fp_of sha256_hexdigest link_uuid c) c m h)

  unique-keeps :
      (m : Unique) (cs : List ParseResult) (fp : Text)
      → has_key fp m ≡ true
      → has_key fp (unique_from sha256_hexdigest link_uuid m cs) ≡ true
  unfolding unique_from
  unique-keeps m [] fp h = h
  unique-keeps m (c ∷ cs) fp h =
      unique-keeps (dict_put (fp_of sha256_hexdigest link_uuid c) c m) cs fp
        (ground (arith, has_key-put fp (fp_of sha256_hexdigest link_uuid c) c m))

  -- Every collected certificate's fingerprint is a key.
  pub unique-covers :
      (m : Unique) (cs : List ParseResult)
      → All
          (λ c.
            has_key
              (fp_of sha256_hexdigest link_uuid c)
              (unique_from sha256_hexdigest link_uuid m cs)
            ≡ true)
          cs
  unfolding unique_from
  unique-covers m [] = tt
  unique-covers m (c ∷ cs) =
      let fp = fp_of sha256_hexdigest link_uuid c in
      (
        unique-keeps (dict_put fp c m) cs fp
            (ground (arith, has_key-put fp fp c m, text_eq_refl fp)),
        unique-covers (dict_put fp c m) cs,
      )

  -- The keys are those that were there and the fingerprints of the collected certificates.
  pub has_key-unique :
      (fp : Text) (m : Unique) (cs : List ParseResult)
      → has_key fp (unique_from sha256_hexdigest link_uuid m cs)
        ≡ (has_key fp m || any (λ c. text_eq (fp_of sha256_hexdigest link_uuid c) fp) cs)
  unfolding unique_from
  has_key-unique fp m [] = ground arith
  has_key-unique fp m (c ∷ cs) =
      let k = fp_of sha256_hexdigest link_uuid c in
      ground (arith, has_key-unique fp (dict_put k c m) cs, has_key-put fp k c m)

  pub insertion-IsAscending :
      (cs : List ParseResult)
      → IsAscending (sorted_items (unique_from sha256_hexdigest link_uuid [] cs))
  insertion-IsAscending cs =
      sorted-IsAscending (unique_from sha256_hexdigest link_uuid [] cs)
        (unique-HasDistinctKeys [] cs tt)
