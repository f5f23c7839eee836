-- ===== src/Dump/Dicts.antt =====
-- The conversions between the records of utils/dump_parser.py and dictionaries.
use pyadcs_connector.Prelude.{List, [], ◌∷◌, Result, ok, ◌>>=◌, traverse, ◌≡◌, refl, map}
use pyadcs_connector.Text.{codes, text_eq}
use pyadcs_connector.Json.{Value, obj, end, field, get_item, lookup}
use pyadcs_connector.Dump.{TemplateData, AuthorityData}

-- `TemplateData.to_dict`, and `template.__dict__`
unfoldable pub to_dict : TemplateData → Value
to_dict t = obj (
    field (codes "name") t.name (
      field (codes "display_name") t.display_name (
        field (codes "schema_version") t.schema_version
          (field (codes "version") t.version (field (codes "oid") t.oid end)))))

unfoldable pub from_dict : Value → Result TemplateData
from_dict template = do
  name ← get_item template (codes "name")
  display_name ← get_item template (codes "display_name")
  schema_version ← get_item template (codes "schema_version")
  version ← get_item template (codes "version")
  oid ← get_item template (codes "oid")
  ok (record {
    name = name;
    display_name = display_name;
    schema_version = schema_version;
    version = version;
    oid = oid;
  })

unfoldable pub from_dicts : List Value → Result (List TemplateData)
from_dicts = traverse from_dict

-- `AuthorityData.to_dict`, and `ca.__dict__`
unfoldable pub authority_to_dict : AuthorityData → Value
authority_to_dict a = obj (
    field (codes "name") a.name (
      field (codes "display_name") a.display_name (
        field (codes "computer_name") a.computer_name (
          field (codes "config_string") a.config_string (
            field (codes "ca_type") a.ca_type (
              field (codes "is_enterprise") a.is_enterprise (
                field (codes "is_root") a.is_root (
                  field (codes "is_accessible") a.is_accessible
                    (field (codes "service_status") a.service_status end)))))))))

unfoldable pub authority_from_dict : Value → Result AuthorityData
authority_from_dict authority = do
  name ← get_item authority (codes "name")
  display_name ← get_item authority (codes "display_name")
  computer_name ← get_item authority (codes "computer_name")
  config_string ← get_item authority (codes "config_string")
  ca_type ← get_item authority (codes "ca_type")
  is_enterprise ← get_item authority (codes "is_enterprise")
  is_root ← get_item authority (codes "is_root")
  is_accessible ← get_item authority (codes "is_accessible")
  service_status ← get_item authority (codes "service_status")
  ok (record {
    name = name;
    display_name = display_name;
    computer_name = computer_name;
    config_string = config_string;
    ca_type = ca_type;
    is_enterprise = is_enterprise;
    is_root = is_root;
    is_accessible = is_accessible;
    service_status = service_status;
  })

unfoldable pub authority_from_dicts : List Value → Result (List AuthorityData)
authority_from_dicts = traverse authority_from_dict

-- The record that `from_dict` builds from a record's dictionary is that record.
pub from_dict-to_dict : (t : TemplateData) → from_dict (to_dict t) ≡ ok t
unfolding from_dict to_dict get_item lookup text_eq
from_dict-to_dict t = refl

pub authority_from_dict-to_dict :
    (a : AuthorityData) → authority_from_dict (authority_to_dict a) ≡ ok a
unfolding authority_from_dict authority_to_dict get_item lookup text_eq
authority_from_dict-to_dict a = refl

-- Lists of authorities and of templates that were turned into dictionaries, as the callbacks
-- offer them, come back as they were, in order.
pub from_dicts-to_dicts :
    (ts : List TemplateData) (cas : List AuthorityData)
    → (from_dicts (map to_dict ts) ≡ ok ts)
      × (authority_from_dicts (map authority_to_dict cas) ≡ ok cas)
unfolding from_dicts authority_from_dicts
from_dicts-to_dicts [] [] = (refl, refl)
from_dicts-to_dicts [] (a ∷ cas) =
    (refl, rw (authority_from_dict-to_dict a, (from_dicts-to_dicts [] cas).1))
from_dicts-to_dicts (t ∷ ts) cas =
    (rw (from_dict-to_dict t, (from_dicts-to_dicts ts cas).0), (from_dicts-to_dicts ts cas).1)
