-- ===== src/Authority/Usable.antt =====
-- The instances in the table can be used, whatever is requested.
use pyadcs_connector.Prelude.{All, Result, ok, ◌≡◌, true}
use pyadcs_connector.Text.{Text, codes}
use pyadcs_connector.Json.{is_text}
use pyadcs_connector.Attribute.Access.{get_attribute_value}
use pyadcs_connector.Attribute.Authority.{
  validate_authority_kind, authority_server_address_attribute_name,
  authority_use_https_attribute_name, authority_winrm_port_attribute_name,
  authority_credential_attribute_name,
}
use pyadcs_connector.Db.Authorities.{AuthorityInstance, Authorities}
use pyadcs_connector.Authority.Sessions.{SessionConfig, create_session_from_authority_instance}
use pyadcs_connector.Remoting.Session.{Protocol}

-- An instance that a session can be opened for: its kind is the connector's and its transport is
-- CredSSP, its columns take their values, the settings of the connection are the ones that stand
-- in its attributes, and its credential has what a session needs.
pub record IsUsable (saved_by : AuthorityInstance → Result (Unit {0})) (a : AuthorityInstance)
    : Type 0 where
  pub config : SessionConfig
  pub session : create_session_from_authority_instance a ≡ ok config
  pub kind : validate_authority_kind a.kind ≡ ok tt
  pub transport : is_text a.transport (codes "credssp") ≡ true
  pub accepted : saved_by a ≡ ok tt
  pub address :
      get_attribute_value authority_server_address_attribute_name a.attributes ≡ ok a.address
  pub https : get_attribute_value authority_use_https_attribute_name a.attributes ≡ ok a.https
  pub port : get_attribute_value authority_winrm_port_attribute_name a.attributes ≡ ok a.port
  pub credential :
      get_attribute_value authority_credential_attribute_name a.attributes ≡ ok a.credential

module _ (winrm : SessionConfig → Protocol) (saved_by : AuthorityInstance → Result (Unit {0})) where
  abbrev AreUsable : Authorities → Type 0
  AreUsable table = All (IsUsable saved_by) table.rows
