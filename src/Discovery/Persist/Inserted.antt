-- ===== src/Discovery/Persist/Inserted.antt =====
-- The certificates that the transaction inserts, in the order of their insertion.
use pyadcs_connector.Text.Laws.{text_eq_iff, text_eq_refl}
use pyadcs_connector.Prelude.{
  ℕ, suc, any, arith, sym, ap, ok, ok-injective, >>=-eq-ok, ◌∙◌, append_assoc, append-nil,
  Option-cases, List, [], ◌∷◌, ◌++◌, All, Bool-cases, inl, inr, ◌≡◌, true, ◌⊎◌,
}
use pyadcs_connector.Text.{Text, text_eq, text_lt}
use pyadcs_connector.Discovery.Persist.Order.{
  IsAscending, has_key-sorted, has_key-unique, insertion-IsAscending,
}
use pyadcs_connector.Text.Laws.{text_eq_iff, text_eq_refl}
use pyadcs_connector.Text.Order.{text_lt_trans}
use pyadcs_connector.Text.Utf8.{Bytes}
use pyadcs_connector.Dump.{AuthorityData, ParseResult}
use pyadcs_connector.Db.{Db, Certificate, has_fingerprint, has_history_id}
use pyadcs_connector.Db.Rows.{find}
use pyadcs_connector.Discovery.Persist.{
  fp_of, Unique, sorted_items, unique_from, new_certificate, insert_certificate,
  bulk_create_certificates, links_for, persist, persist_found,
}
use pyadcs_connector.Discovery.Persist.Rows.{has_key}
use mathlib.Core.Path.{subst}

-- Rows with a strictly ascending fingerprint each.
abbrev pub AreAscending : List Certificate → Type 0
AreAscending [] = Unit
AreAscending (c ∷ cs) = All (λ d. text_lt c.fingerprint d.fingerprint ≡ true) cs × AreAscending cs

-- The first key is before each of the others.
first_before :
    (k fp : Text) (v : ParseResult) (m : Unique)
    → IsAscending ((k, v) ∷ m)
    → has_key fp m ≡ true
    → text_lt k fp ≡ true
first_before k fp v [] s h = absurd (cc h)
first_before k fp v ((j, w) ∷ m) s h = elim (Bool-cases (text_eq j fp)) [
  | inl e ↦ subst (λ t. text_lt k t ≡ true) ((text_eq_iff j fp).0 e) s.0
  | inr e ↦ text_lt_trans k j fp s.0 (first_before j fp w m s.1 (rw e at h))
]

tail-IsAscending :
    (k : Text) (v : ParseResult) (m : Unique) → IsAscending ((k, v) ∷ m) → IsAscending m
tail-IsAscending k v [] s = tt
tail-IsAscending k v (x ∷ m) s = s.1

All-weaken :
    {P Q : Certificate → Type 0} (cs : List Certificate)
    → ((c : Certificate) → P c → Q c)
    → All P cs
    → All Q cs
All-weaken [] f h = tt
All-weaken (c ∷ cs) f h = (f c h.0, All-weaken cs f h.1)

-- The rows that the insertion of these entries adds.
abbrev Adds : Unique → List Certificate → List Certificate → Type 0
Adds m before after =
    (new : List Certificate) × (after ≡ before ++ new)
    × All (λ c. has_key c.fingerprint m ≡ true) new
    × AreAscending new

insert_cases :
    (fp content : Text) (db : Db)
    → (insert_certificate fp content db ≡ record db { certificate_seq = suc db.certificate_seq })
      ⊎ (insert_certificate fp content db ≡ record db {
        certificates = db.certificates ++ new_certificate (suc db.certificate_seq) fp content ∷ [];
        certificate_seq = suc db.certificate_seq;
      })
unfolding insert_certificate
insert_cases fp content db = elim (Bool-cases (any (has_fingerprint fp) db.certificates)) [
  | inl e ↦ inl (rw e)
  | inr e ↦ inr (rw e)
]

bulk-Adds :
    (m : Unique) (db : Db)
    → IsAscending m
    → Adds m db.certificates (bulk_create_certificates m db).certificates
unfolding bulk_create_certificates
bulk-Adds [] db s = ([], sym (append-nil db.certificates), tt, tt)
bulk-Adds ((k, v) ∷ m) db s =
    let next = suc db.certificate_seq in
    let row = new_certificate next k v.certificate in
    let more : (c : Certificate)
        → has_key c.fingerprint m ≡ true
        → has_key c.fingerprint ((k, v) ∷ m) ≡ true =
      λ c h. ground arith in
    let goal : Db → Type 0 =
      λ d. Adds ((k, v) ∷ m) db.certificates (bulk_create_certificates m d).certificates in
    let rest : (d : Db) → Adds m d.certificates (bulk_create_certificates m d).certificates =
      λ d. bulk-Adds m d (tail-IsAscending k v m s) in
    elim (insert_cases k v.certificate db) [
      | inl e ↦
          let (new, shape, keys, ascending) = rest (record db { certificate_seq = next }) in
          subst goal (sym e) (new, shape, All-weaken new more keys, ascending)
      | inr e ↦
          let (new, shape, keys, ascending) =
            rest
              (record db { certificates = db.certificates ++ row ∷ []; certificate_seq = next }) in
          subst goal (sym e) (
            row ∷ new,
            shape ∙ append_assoc db.certificates (row ∷ []) new,
            (ground (arith, text_eq_refl k), All-weaken new more keys),
            (All-weaken new (λ c h. first_before k c.fingerprint v m s h) keys, ascending),
          )
    ]

module _ (sha256_hexdigest : Bytes → Text) (link_uuid : ℕ → Text) where
  -- The new rows of a transaction: behind the others, in strictly ascending order, and each with the
  -- fingerprint of a certificate that was collected.
  abbrev pub Ascends : List ParseResult → List Certificate → List Certificate → Type 0
  Ascends cs before after =
      (new : List Certificate) × (after ≡ before ++ new)
      × All (λ c. any (λ r. text_eq (fp_of sha256_hexdigest link_uuid r) c.fingerprint) cs ≡ true)
          new
      × AreAscending new

  persist_found-Ascends :
      (cas : List AuthorityData) (discovery : ℕ) (cs : List ParseResult) (db db' : Db)
      → persist_found sha256_hexdigest link_uuid cas discovery cs db ≡ ok db'
      → Ascends cs db.certificates db'.certificates
  unfolding persist_found
  persist_found-Ascends cas discovery cs db db' h =
      let unique = sorted_items (unique_from sha256_hexdigest link_uuid [] cs) in
      let db1 = bulk_create_certificates unique db in
      let (links, _, made) =
        >>=-eq-ok
          (links_for sha256_hexdigest link_uuid cas discovery db1.certificates db1.link_seq cs) _
          h in
      let (new, shape, keys, ascending) =
        bulk-Adds unique db (insertion-IsAscending sha256_hexdigest link_uuid cs) in
      (
        new,
        ap (λ (d : Db). d.certificates) (sym (ok-injective made)) ∙ shape,
        All-weaken new
            (λ c key.
              sym (has_key-unique sha256_hexdigest link_uuid c.fingerprint [] cs)
              ∙ (sym (has_key-sorted c.fingerprint (unique_from sha256_hexdigest link_uuid [] cs))
                  ∙ key))
            keys,
        ascending,
      )

  -- Where the transaction returns, the certificates that it adds stand behind those that were
  -- there, in strictly ascending order of their fingerprints, in whatever order and however often
  -- they were collected. Each of them has the fingerprint of a certificate that was collected, and
  -- the ones that were there stay as they are.
  pub persist-Ascends :
      (cas : List AuthorityData) (discovery : ℕ) (cs : List ParseResult) (db db' : Db)
      → persist sha256_hexdigest link_uuid cas discovery cs db ≡ ok db'
      → Ascends cs db.certificates db'.certificates
  unfolding persist
  persist-Ascends cas discovery cs db db' h =
      elim (Option-cases (find (has_history_id discovery) db.histories)) [
        | inl gone ↦
            let same = ok-injective (rw (gone, persist) at h) in
            (
              [],
              ap (λ (d : Db). d.certificates) (sym same) ∙ sym (append-nil db.certificates),
              tt,
              tt,
            )
        | inr (dh, found) ↦ persist_found-Ascends cas dh.id cs db db' (rw (found, persist) at h)
      ]
