-- ===== src/Discovery/Collect/ConfigString.antt =====
-- A CA that the request names by its config string.
use pyadcs_connector.Prelude.{
  [], ◌∷◌, ok, err, ◌≡◌, ap, is_empty, ◌||◌, generic_exception, index_error, if◌then◌else◌,
}
use pyadcs_connector.Text.{Text, join}
use pyadcs_connector.Text.Laws.{HasNo, split-join}
use pyadcs_connector.Json.{null, str}
use pyadcs_connector.Dump.{AuthorityData}
use pyadcs_connector.Discovery.Collect.{ca_of_parts, ca_of_config_string}

-- The CA of a host, as the config string has it.
abbrev pub ca_named : Text → Text → AuthorityData
ca_named host name = record {
  name = str name;
  display_name = str name;
  computer_name = str host;
  config_string = str (join (b'\\' ∷ []) (host ∷ name ∷ []));
  ca_type = str [];
  is_enterprise = null;
  is_root = null;
  is_accessible = null;
  service_status = null;
}

-- A config string of a host, a backslash and a name gives the CA of this name on this host; it is
-- refused where either is empty, and a text without a backslash is an index error.
pub config_string_cases :
    (host name : Text)
    → HasNo b'\\' host
    → HasNo b'\\' name
    → (ca_of_config_string (str (join (b'\\' ∷ []) (host ∷ name ∷ []))) ≡ (
        if is_empty name || is_empty host then err generic_exception else ok (ca_named host name)))
      × (ca_of_config_string (str host) ≡ err index_error)
unfolding ca_of_config_string ca_of_parts join
config_string_cases host name h n = (
  ap (ca_of_parts (join (b'\\' ∷ []) (host ∷ name ∷ [])))
      (split-join b'\\' host (name ∷ []) (h, (n, tt))),
  ap (ca_of_parts host) (split-join b'\\' host [] (h, tt)),
)
