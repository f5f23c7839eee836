-- ===== src/Routes/Endpoints.antt =====
-- views/info.py: the endpoints that the connector advertises.
use pyadcs_connector.Prelude.{List, [], ◌∷◌, ◌++◌, map}
use pyadcs_connector.Text.{Text, codes, join}
use pyadcs_connector.Routes.Segments.{
  Method, get_method, post_method, delete_method, Segment, literal, variable, segments,
}

pub record Endpoint : Type 0 where
  pub name : Text
  pub context : Text
  pub method : Method

-- The groups of functions of `get_endpoints`.
unfoldable pub authority_provider_endpoints : List Endpoint
authority_provider_endpoints =
    record {
      name = codes "removeAuthorityInstance";
      context = codes "/v1/authorityProvider/authorities/{uuid}";
      method = delete_method;
    }
    ∷ record {
      name = codes "validateIssueCertificateAttributes";
      context =
          codes "/v2/authorityProvider/authorities/{uuid}/certificates/issue/attributes/validate";
      method = post_method;
    }
    ∷ record {
      name = codes "validateRevokeCertificateAttributes";
      context =
          codes "/v2/authorityProvider/authorities/{uuid}/certificates/revoke/attributes/validate";
      method = post_method;
    }
    ∷ record {
      name = codes "validateRAProfileAttributes";
      context = codes "/v1/authorityProvider/authorities/{uuid}/raProfile/attributes/validate";
      method = post_method;
    }
    ∷ record {
      name = codes "revokeCertificate";
      context = codes "/v2/authorityProvider/authorities/{uuid}/certificates/revoke";
      method = post_method;
    }
    ∷ record {
      name = codes "validateAttributes";
      context = codes "/v1/authorityProvider/{kind}/attributes/validate";
      method = post_method;
    }
    ∷ record {
      name = codes "listRevokeCertificateAttributes";
      context = codes "/v2/authorityProvider/authorities/{uuid}/certificates/revoke/attributes";
      method = get_method;
    }
    ∷ record { name = codes "checkHealth"; context = codes "/v1/health"; method = get_method }
    ∷ record {
      name = codes "listAttributeDefinitions";
      context = codes "/v1/authorityProvider/{kind}/attributes";
      method = get_method;
    }
    ∷ record {
      name = codes "updateAuthorityInstance";
      context = codes "/v1/authorityProvider/authorities/{uuid}";
      method = post_method;
    }
    ∷ record {
      name = codes "getConnection";
      context = codes "/v1/authorityProvider/authorities/{uuid}/connect";
      method = get_method;
    }
    ∷ record {
      name = codes "renewCertificate";
      context = codes "/v2/authorityProvider/authorities/{uuid}/certificates/renew";
      method = post_method;
    }
    ∷ record {
      name = codes "listRAProfileAttributes";
      context = codes "/v1/authorityProvider/authorities/{uuid}/raProfile/attributes";
      method = get_method;
    }
    ∷ record {
      name = codes "getAuthorityInstance";
      context = codes "/v1/authorityProvider/authorities/{uuid}";
      method = get_method;
    }
    ∷ record {
      name = codes "listAuthorityInstances";
      context = codes "/v1/authorityProvider/authorities";
      method = get_method;
    }
    ∷ record {
      name = codes "issueCertificate";
      context = codes "/v2/authorityProvider/authorities/{uuid}/certificates/issue";
      method = post_method;
    }
    ∷ record { name = codes "listSupportedFunctions"; context = codes "/v1"; method = get_method }
    ∷ record {
      name = codes "listIssueCertificateAttributes";
      context = codes "/v2/authorityProvider/authorities/{uuid}/certificates/issue/attributes";
      method = get_method;
    }
    ∷ record {
      name = codes "createAuthorityInstance";
      context = codes "/v1/authorityProvider/authorities";
      method = post_method;
    }
    ∷ []

unfoldable pub discovery_provider_endpoints : List Endpoint
discovery_provider_endpoints =
    record {
      name = codes "listAttributeDefinitions";
      context = codes "/v1/discoveryProvider/{kind}/attributes";
      method = get_method;
    }
    ∷ record {
      name = codes "validateAttributes";
      context = codes "/v1/discoveryProvider/{kind}/attributes/validate";
      method = post_method;
    }
    ∷ record {
      name = codes "getDiscovery";
      context = codes "/v1/discoveryProvider/discover/{uuid}";
      method = get_method;
    }
    ∷ record {
      name = codes "discoverCertificate";
      context = codes "/v1/discoveryProvider/discover";
      method = post_method;
    }
    ∷ record {
      name = codes "deleteDiscovery";
      context = codes "/v1/discoveryProvider/discover/{uuid}";
      method = delete_method;
    }
    ∷ []

unfoldable pub function_groups : List Endpoint
function_groups = authority_provider_endpoints ++ discovery_provider_endpoints

abbrev pub value_of : Text → Segment → Text
value_of v (literal l) = l
value_of v variable = v

abbrev pub behind_slash : List Text → List Text
behind_slash [] = []
behind_slash (_ ∷ parts) = parts

-- The parts of the context, behind its first slash, with one text for the variables.
unfoldable pub parts : Text → Endpoint → List Text
parts v e = behind_slash (map (value_of v) (segments (codes "{") e.context))

-- The path that a client asks for.
abbrev pub asked : Text → Endpoint → Text
asked v e = join (b'/' ∷ []) (parts v e)
