-- ===== src/Routes.antt =====
-- pyadcs_connector/urls.py: which view answers a request.
pub mod Segments
pub mod Endpoints
pub mod Laws
use pyadcs_connector.Prelude.{List, [], ◌∷◌, any, if◌then◌else◌, ◌<◌}
use pyadcs_connector.Text.{Text, codes, split}
use pyadcs_connector.Routes.Segments.{
  Method, get_method, post_method, delete_method, same_method, segments, matches,
}

-- The functions of views/*.py.
pub data View : Type 0 where
  get_endpoints get_health get_authority_attributes : View
  validate_authority_attributes authority_operations authority_instance_operations : View
  get_raprofile_attributes validate_raprofile_attributes get_issue_attributes : View
  validate_issue_attributes get_revoke_attributes validate_revoke_attributes : View
  issue_certificate renew_certificate revoke_certificate : View
  identify_certificate get_discovery_attributes validate_discovery_attributes : View
  start_discovery discovery_operations get_winrm_transport_configuration : View
  get_ca_names get_template_names get_discovery_ca_select_configuration : View
  get_raprofile_ca_select_configuration : View

-- `@require_http_methods`
unfoldable pub methods : View → List Method
methods get_endpoints = get_method ∷ []
methods get_health = get_method ∷ []
methods get_authority_attributes = get_method ∷ []
methods validate_authority_attributes = post_method ∷ []
methods authority_operations = get_method ∷ post_method ∷ []
methods authority_instance_operations = get_method ∷ post_method ∷ delete_method ∷ []
methods get_raprofile_attributes = get_method ∷ []
methods validate_raprofile_attributes = post_method ∷ []
methods get_issue_attributes = get_method ∷ []
methods validate_issue_attributes = post_method ∷ []
methods get_revoke_attributes = get_method ∷ []
methods validate_revoke_attributes = post_method ∷ []
methods issue_certificate = post_method ∷ []
methods renew_certificate = post_method ∷ []
methods revoke_certificate = post_method ∷ []
methods identify_certificate = post_method ∷ []
methods get_discovery_attributes = get_method ∷ []
methods validate_discovery_attributes = post_method ∷ []
methods start_discovery = post_method ∷ []
methods discovery_operations = post_method ∷ delete_method ∷ []
methods get_winrm_transport_configuration = get_method ∷ []
methods get_ca_names = get_method ∷ []
methods get_template_names = get_method ∷ []
methods get_discovery_ca_select_configuration = get_method ∷ []
methods get_raprofile_ca_select_configuration = get_method ∷ []

unfoldable pub urlpatterns : List (Text × View)
urlpatterns =
    (codes "v1", get_endpoints)
    ∷ (codes "v1/health", get_health)
    ∷ (codes "v1/authorityProvider/<str:kind>/attributes", get_authority_attributes)
    ∷ (codes "v1/authorityProvider/<str:kind>/attributes/validate", validate_authority_attributes)
    ∷ (codes "v1/authorityProvider/authorities", authority_operations)
    ∷ (codes "v1/authorityProvider/authorities/<str:uuid>", authority_instance_operations)
    ∷ (
      codes "v1/authorityProvider/authorities/<str:uuid>/raProfile/attributes",
      get_raprofile_attributes,
    )
    ∷ (
      codes "v1/authorityProvider/authorities/<str:uuid>/raProfile/attributes/validate",
      validate_raprofile_attributes,
    )
    ∷ (
      codes "v2/authorityProvider/authorities/<str:uuid>/certificates/issue/attributes",
      get_issue_attributes,
    )
    ∷ (
      codes "v2/authorityProvider/authorities/<str:uuid>/certificates/issue/attributes/validate",
      validate_issue_attributes,
    )
    ∷ (
      codes "v2/authorityProvider/authorities/<str:uuid>/certificates/revoke/attributes",
      get_revoke_attributes,
    )
    ∷ (
      codes "v2/authorityProvider/authorities/<str:uuid>/certificates/revoke/attributes/validate",
      validate_revoke_attributes,
    )
    ∷ (codes "v2/authorityProvider/authorities/<str:uuid>/certificates/issue", issue_certificate)
    ∷ (codes "v2/authorityProvider/authorities/<str:uuid>/certificates/renew", renew_certificate)
    ∷ (codes "v2/authorityProvider/authorities/<str:uuid>/certificates/revoke", revoke_certificate)
    ∷ (
      codes "v2/authorityProvider/authorities/<str:uuid>/certificates/identify",
      identify_certificate,
    )
    ∷ (codes "v1/discoveryProvider/<str:kind>/attributes", get_discovery_attributes)
    ∷ (codes "v1/discoveryProvider/<str:kind>/attributes/validate", validate_discovery_attributes)
    ∷ (codes "v1/discoveryProvider/discover", start_discovery)
    ∷ (codes "v1/discoveryProvider/discover/<str:uuid>", discovery_operations)
    ∷ (
      codes "v1/callbacks/authority/winrmConfig/<str:kind>/<str:winrm_transport>",
      get_winrm_transport_configuration,
    )
    ∷ (
      codes "v1/callbacks/discovery/listCertificateAuthority/<str:authority_instance_uuid>",
      get_ca_names,
    )
    ∷ (
      codes "v1/callbacks/discovery/listTemplate/<str:authority_instance_uuid>",
      get_template_names,
    )
    ∷ (
      codes "v1/callbacks/discovery/caSelect/<str:ca_select_method>/<str:authority_instance_uuid>",
      get_discovery_ca_select_configuration,
    )
    ∷ (
      codes "v1/callbacks/raProfile/caSelect/<str:ca_select_method>/<str:authority_instance_uuid>",
      get_raprofile_ca_select_configuration,
    )
    ∷ []

-- The answer to a request, up to the view's own work.
pub data Dispatch : Type 0 where
  not_found method_not_allowed : Dispatch
  handled : View → Dispatch

abbrev allowed : Method → View → Dispatch
allowed method view =
    if any (same_method method) (methods view) then handled view else method_not_allowed

-- The first route that matches the parts of the path.
unfoldable pub dispatch_in : List (Text × View) → Method → List Text → Dispatch
dispatch_in [] method path = not_found
dispatch_in ((route, view) ∷ routes) method path =
    let later = dispatch_in routes method path in
    if matches (segments (codes "<") route) path then allowed method view else later

-- The path of a request, without the slash in front.
abbrev pub dispatch : Method → Text → Dispatch
dispatch method path = dispatch_in urlpatterns method (split b'/' path)
