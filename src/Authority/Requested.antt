-- ===== src/Authority/Requested.antt =====
-- services/authority_instance.py: what a request sets on an authority instance.
use pyadcs_connector.Prelude.{Result, ok, ◌>>=◌, ◌>>◌}
use pyadcs_connector.Text.{Text}
use pyadcs_connector.Json.{Value, arr, of_list}
use pyadcs_connector.Db.Authorities.{AuthorityInstance}
use pyadcs_connector.Attribute.Access.{get_attribute_value, merge_attributes}
use pyadcs_connector.Attribute.Authority.{
  validate_authority_kind, get_all_authority_attributes_list,
  authority_winrm_transport_attribute_name, authority_server_address_attribute_name,
  authority_use_https_attribute_name, authority_winrm_port_attribute_name,
  authority_credential_attribute_name,
}

-- The request that creates or updates an instance. Its name and kind are texts.
pub record AuthorityForm : Type 0 where
  pub name : Text
  pub kind : Text
  pub attributes : Value

-- What `update_authority_instance` sets, before it verifies the connection.
unfoldable pub requested : AuthorityForm → AuthorityInstance → Result AuthorityInstance
requested form a = do
  validate_authority_kind a.kind
  transport ← get_attribute_value authority_winrm_transport_attribute_name form.attributes
  original ← get_all_authority_attributes_list a.kind transport
  merged ← merge_attributes form.attributes original
  let attributes = arr (of_list merged)
  address ← get_attribute_value authority_server_address_attribute_name attributes
  https ← get_attribute_value authority_use_https_attribute_name attributes
  port ← get_attribute_value authority_winrm_port_attribute_name attributes
  credential ← get_attribute_value authority_credential_attribute_name attributes
  ok (record a {
    transport = transport;
    attributes = attributes;
    address = address;
    https = https;
    port = port;
    credential = credential;
  })
