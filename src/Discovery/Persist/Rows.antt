-- ===== src/Discovery/Persist/Rows.antt =====
-- The insertion of certificates keeps the constraints and leaves a row for every fingerprint.
use pyadcs_connector.Text.{Text, text_eq}
use pyadcs_connector.Prelude.{
  ℕ, count, count-append, ◌≤◌, ◌<◌, ◌≡◌, Bool, false, ◌||◌, [], ◌∷◌, arith, refl, true, ltb,
  if◌then◌else◌, Bool-cases, any, suc, ◌+◌, ◌∙◌, inl, inr,
}
use pyadcs_connector.Text.Laws.{text_eq_iff, text_eq_refl}
use pyadcs_connector.Db.{Db, Certificate, has_fingerprint, has_certificate_id}
use pyadcs_connector.Db.Rows.{count-any}
use pyadcs_connector.Discovery.Persist.{
  new_certificate, Unique, insert_certificate, bulk_create_certificates,
}

-- What the constraints and the sequence of the certificate table keep.
pub record HasKeys (db : Db) : Type 0 where
  pub unique_fingerprint : (fp : Text) → count (has_fingerprint fp) db.certificates ≤ 1
  pub unique_certificate : (i : ℕ) → count (has_certificate_id i) db.certificates ≤ 1
  pub fresh_certificate :
      (i : ℕ) → db.certificate_seq < i → count (has_certificate_id i) db.certificates ≡ 0

abbrev pub has_key : Text → Unique → Bool
has_key k [] = false
has_key k ((j, v) ∷ m) = text_eq j k || has_key k m

module _ (fp content : Text) (db : Db) where
  abbrev pub row : Certificate
  row = new_certificate (suc db.certificate_seq) fp content

  -- The insertion adds its row exactly where the fingerprint is not there.
  pub count-insert :
      (q : Certificate → Bool)
      → count q (insert_certificate fp content db).certificates
        ≡ count q db.certificates
          + (if ltb 0 (count (has_fingerprint fp) db.certificates)
              then 0
              else if q row
              then 1
              else 0)
  unfolding insert_certificate
  count-insert q = elim (Bool-cases (any (has_fingerprint fp) db.certificates)) [
    | inl e ↦ rw e (ground (arith, count-any (has_fingerprint fp) db.certificates))
    | inr e ↦ rw e (
        ground (
          arith,
          count-any (has_fingerprint fp) db.certificates,
          count-append q db.certificates (row ∷ []),
        ))
  ]

  seq-insert : (insert_certificate fp content db).certificate_seq ≡ suc db.certificate_seq
  unfolding insert_certificate
  seq-insert = elim (Bool-cases (any (has_fingerprint fp) db.certificates)) [
    | inl e ↦ rw e
    | inr e ↦ rw e
  ]

  insert-grows :
      (q : Certificate → Bool)
      → count q db.certificates ≤ count q (insert_certificate fp content db).certificates
  insert-grows q = omega (arith, count-insert q)

  insert-has : 0 < count (has_fingerprint fp) (insert_certificate fp content db).certificates
  insert-has = ground (arith, count-insert (has_fingerprint fp), text_eq_refl fp)

  insert_unique :
      HasKeys db
      → (k : Text) → count (has_fingerprint k) (insert_certificate fp content db).certificates ≤ 1
  insert_unique h k = elim (Bool-cases (text_eq fp k)) [
    | inl e ↦
        rw (← (text_eq_iff fp k).0 e)
          (ground (arith, count-insert (has_fingerprint fp), h.unique_fingerprint fp))
    | inr e ↦ ground (arith, e, count-insert (has_fingerprint k), h.unique_fingerprint k)
  ]

  insert-HasKeys : HasKeys db → HasKeys (insert_certificate fp content db)
  insert-HasKeys h = record {
    unique_fingerprint = insert_unique h;
    unique_certificate = λ i.
        ground (
          arith,
          count-insert (has_certificate_id i),
          h.unique_certificate i,
          h.fresh_certificate i,
        );
    fresh_certificate = λ i lt.
        ground (arith, seq-insert, count-insert (has_certificate_id i), h.fresh_certificate i);
  }

  insert_others :
      ((insert_certificate fp content db).histories ≡ db.histories)
      × ((insert_certificate fp content db).links ≡ db.links)
      × ((insert_certificate fp content db).link_seq ≡ db.link_seq)
      × ((insert_certificate fp content db).history_seq ≡ db.history_seq)
  unfolding insert_certificate
  insert_others = elim (Bool-cases (any (has_fingerprint fp) db.certificates)) [
    | inl e ↦ rw e (refl, refl, refl, refl)
    | inr e ↦ rw e (refl, refl, refl, refl)
  ]

pub bulk-grows :
    (m : Unique) (db : Db) (q : Certificate → Bool)
    → count q db.certificates ≤ count q (bulk_create_certificates m db).certificates
unfolding bulk_create_certificates
bulk-grows [] db q = omega arith
bulk-grows ((fp, c) ∷ m) db q = omega (
  arith,
  insert-grows fp c.certificate db q,
  bulk-grows m (insert_certificate fp c.certificate db) q,
)

pub bulk-HasKeys : (m : Unique) (db : Db) → HasKeys db → HasKeys (bulk_create_certificates m db)
unfolding bulk_create_certificates
bulk-HasKeys [] db h = h
bulk-HasKeys ((fp, c) ∷ m) db h =
    bulk-HasKeys m (insert_certificate fp c.certificate db) (insert-HasKeys fp c.certificate db h)

-- Every fingerprint that is to be inserted is there afterwards.
pub bulk-has :
    (m : Unique) (db : Db) (fp : Text)
    → has_key fp m ≡ true
    → 0 < count (has_fingerprint fp) (bulk_create_certificates m db).certificates
unfolding bulk_create_certificates
bulk-has [] db fp h = cc
bulk-has ((k, c) ∷ m) db fp h = ground (
  arith,
  insert-has k c.certificate db,
  bulk-grows m (insert_certificate k c.certificate db) (has_fingerprint k),
  bulk-has m (insert_certificate k c.certificate db) fp,
  text_eq_iff k fp,
)

-- The certificates are all that the insertion touches.
pub bulk_others :
    (m : Unique) (db : Db)
    → ((bulk_create_certificates m db).histories ≡ db.histories)
      × ((bulk_create_certificates m db).links ≡ db.links)
      × ((bulk_create_certificates m db).link_seq ≡ db.link_seq)
      × ((bulk_create_certificates m db).history_seq ≡ db.history_seq)
unfolding bulk_create_certificates
bulk_others [] db = (refl, refl, refl, refl)
bulk_others ((fp, c) ∷ m) db =
    let (a, b, e, f) = insert_others fp c.certificate db in
    let (a', b', e', f') = bulk_others m (insert_certificate fp c.certificate db) in
    (a' ∙ a, b' ∙ b, e' ∙ e, f' ∙ f)
