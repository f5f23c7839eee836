-- ===== src/Discovery/Creation.antt =====
-- Starting a discovery.
use pyadcs_connector.Text.{Text, codes, text_eq}
use pyadcs_connector.Prelude.{
  ℕ, ltb, if◌then◌else◌, count, suc, ◌≡◌, inl, inr, not, [], ◌∷◌, ◌++◌, arith, ok, err,
  already_exist_exception, value_error, Bool-cases, count-append, ok-injective, sym, ap, ◌∙◌, ◌≤◌,
}
use mathlib.Core.Path.{subst}
use pyadcs_connector.Json.{null}
use pyadcs_connector.Db.{Db, DiscoveryHistory, IsConsistent, has_history_id}
use pyadcs_connector.Db.Rows.{count-any}
use pyadcs_connector.Discovery.Persist.{in_progress, status_value}
use pyadcs_connector.Discovery.{DiscoveryForm, has_name, create_discovery_history}

abbrev started : ℕ → Text → DiscoveryForm → DiscoveryHistory
started i uuid form = record {
  id = i;
  uuid = uuid;
  name = form.name;
  status = status_value in_progress;
  meta = null;
}

-- A discovery is created exactly where its kind is the connector's and its name is new; it is
-- then in progress. A wrong kind is a value error, and a name that is taken is refused.
pub create_cases :
    (uuid : Text) (form : DiscoveryForm) (db : Db)
    → create_discovery_history uuid form db ≡ (
        if not (text_eq form.kind (codes "PyADCS-WinRM"))
        then err value_error
        else if ltb 0 (count (has_name form.name) db.histories)
        then err already_exist_exception
        else ok (
          started (suc db.history_seq) uuid form,
          record db {
            histories = db.histories ++ started (suc db.history_seq) uuid form ∷ [];
            history_seq = suc db.history_seq;
          },
        ))
unfolding create_discovery_history
create_cases uuid form db = elim (Bool-cases (text_eq form.kind (codes "PyADCS-WinRM"))) [
  | inr e ↦ rw e
  | inl e ↦ rw (e, count-any (has_name form.name) db.histories)
]

started-IsConsistent :
    (uuid : Text) (form : DiscoveryForm) (db : Db)
    → IsConsistent db
    → IsConsistent (record db {
      histories = db.histories ++ started (suc db.history_seq) uuid form ∷ [];
      history_seq = suc db.history_seq;
    })
started-IsConsistent uuid form db c =
    let row = started (suc db.history_seq) uuid form in
    record {
      unique_fingerprint = c.unique_fingerprint;
      unique_certificate = c.unique_certificate;
      fresh_certificate = c.fresh_certificate;
      linked_certificate = c.linked_certificate;
      fresh_history = λ i lt.
          ground
            (arith, count-append (has_history_id i) db.histories (row ∷ []), c.fresh_history i);
      unique_history = λ i. ground (
        arith,
        count-append (has_history_id i) db.histories (row ∷ []),
        c.fresh_history i,
        c.unique_history i,
      );
      linked_history = λ i n.
          ground
            (arith, count-append (has_history_id i) db.histories (row ∷ []), c.linked_history i);
    }

-- Creating a discovery keeps the database consistent.
pub create-IsConsistent :
    (uuid : Text) (form : DiscoveryForm) (db db' : Db) (h : DiscoveryHistory)
    → IsConsistent db
    → create_discovery_history uuid form db ≡ ok (h, db')
    → IsConsistent db'
create-IsConsistent uuid form db db' h c e =
    let made = sym (create_cases uuid form db) ∙ e in
    elim (Bool-cases (text_eq form.kind (codes "PyADCS-WinRM"))) [
      | inr wrong ↦ absurd (cc (rw wrong at made))
      | inl right ↦ elim (Bool-cases (ltb 0 (count (has_name form.name) db.histories))) [
        | inl taken ↦ absurd (cc (rw (right, taken) at made))
        | inr new ↦
            subst IsConsistent (ap (λ p. p.1) (ok-injective (rw (right, new) at made)))
              (started-IsConsistent uuid form db c)
      ]
    ]

-- What becomes of a database in which no two discoveries have one name, when a discovery is
-- created.
abbrev pub Creates : Text → DiscoveryForm → Db → DiscoveryHistory → Db → Type 0
Creates uuid form db h db' =
    IsConsistent db'
    × ((name : Text) → count (has_name name) db'.histories ≤ 1)
    × (form.kind ≡ codes "PyADCS-WinRM")
    × (count (has_name form.name) db.histories ≡ 0)
    × (db'.histories ≡ db.histories ++ h ∷ [])
    × (count (has_history_id h.id) db'.histories ≡ 1)
    × (h.uuid ≡ uuid)
    × (h.name ≡ form.name)
    × (h.status ≡ status_value in_progress)
    × (h.meta ≡ null)
    × (db'.certificates ≡ db.certificates)
    × (db'.links ≡ db.links)
