-- ===== src/Db/Authorities.antt =====
-- models/authority_instance.py: the table of the authority instances.
use pyadcs_connector.Prelude.{ℕ, List, Bool, ◌==◌, Result, ok, err, none, some, does_not_exist}
use pyadcs_connector.Text.{Text, text_eq}
use pyadcs_connector.Json.{Value}
use pyadcs_connector.Db.Rows.{find}

-- What a request gives is kept as it is, before the conversion to
-- the type of its column.
pub record AuthorityInstance : Type 0 where
  pub id : ℕ
  pub uuid : Text
  pub name : Text
  pub address : Value
  pub https : Value
  pub port : Value
  pub attributes : Value
  pub credential : Value
  pub kind : Text
  pub transport : Value

-- The table, and the last value of its sequence.
pub record Authorities : Type 0 where
  pub rows : List AuthorityInstance
  pub seq : ℕ

abbrev pub has_name : Text → AuthorityInstance → Bool
has_name name a = text_eq a.name name

abbrev pub has_uuid : Text → AuthorityInstance → Bool
has_uuid uuid a = text_eq a.uuid uuid

abbrev pub has_id : ℕ → AuthorityInstance → Bool
has_id i a = a.id == i

-- `AuthorityInstance.objects.get(uuid=…)`
abbrev pub get_by_uuid : Text → Authorities → Result AuthorityInstance
get_by_uuid uuid table = elim (find (has_uuid uuid) table.rows) [
  | none ↦ err does_not_exist
  | some a ↦ ok a
]
