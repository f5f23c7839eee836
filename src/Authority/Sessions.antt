-- ===== src/Authority/Sessions.antt =====
-- remoting/winrm_remoting.py: the session for an authority instance.
use pyadcs_connector.Prelude.{Result, ok, ◌>>=◌}
use pyadcs_connector.Text.{codes}
use pyadcs_connector.Json.{Value, null, obj, get}
use pyadcs_connector.Attribute.Access.{get_attribute_value}
use pyadcs_connector.Db.Authorities.{AuthorityInstance}

-- The arguments of `WinRmRemoting`.
pub record SessionConfig : Type 0 where
  pub username : Value
  pub password : Value
  pub hostname : Value
  pub use_https : Value
  pub port : Value

-- A password may stand in a dictionary, under `secret`.
abbrev pub password_of : Value → Result Value
password_of (obj fields) = get (obj fields) (codes "secret") null
password_of password = ok password

-- `create_session_from_authority_instance`
unfoldable pub create_session_from_authority_instance : AuthorityInstance → Result SessionConfig
create_session_from_authority_instance a = do
  credentials ← get a.credential (codes "attributes") null
  username ← get_attribute_value (codes "username") credentials
  credentials' ← get a.credential (codes "attributes") null
  given ← get_attribute_value (codes "password") credentials'
  password ← password_of given
  ok (record {
    username = username;
    password = password;
    hostname = a.address;
    use_https = a.https;
    port = a.port;
  })
