-- ===== src/Factory.antt =====
-- The registry of executors: frontend/src/lookingglass/flows/executor-factory.ts.
pub mod Create
pub mod Supported
use protocol_lens.Prelude.{String, Bool, true, false, Option, none, some, List, [], ◌∷◌}

-- The executor classes that a flow can name.
pub data ExecutorClass : Type 0 where
  authorization_code client_credentials implicit refresh_token device_code resource_owner
        oidc_hybrid sp_sso idp_sso saml_logout x509_svid jwt_svid mtls cert_rotation user_lifecycle
        group_management filter_query schema_discovery :
      ExecutorClass

-- `additionalConfig`: the members that some flow sets.
pub record FlowOptions : Type 0 where
  pub use_pkce : Option Bool
  pub include_nonce : Option Bool
  pub response_type : Option String
  pub binding : Option String
  pub sp_initiated : Option Bool
  pub trust_domain : Option String
  pub audience : Option String
  pub scim_base_url : Option String

abbrev pub no_options : FlowOptions
no_options = record {
  use_pkce = none;
  include_nonce = none;
  response_type = none;
  binding = none;
  sp_initiated = none;
  trust_domain = none;
  audience = none;
  scim_base_url = none;
}

pub record FlowEntry : Type 0 where
  pub executor_class : ExecutorClass
  pub description : String
  pub rfc_reference : String
  pub requires_user_interaction : Bool
  pub additional_config : FlowOptions

abbrev flow : ExecutorClass → String → String → Bool → FlowOptions → FlowEntry
flow executor_class description rfc_reference interaction options = record {
  executor_class = executor_class;
  description = description;
  rfc_reference = rfc_reference;
  requires_user_interaction = interaction;
  additional_config = options;
}

-- `FLOW_EXECUTOR_MAP`, in its order.
abbrev pub flow_executor_map : List (String × FlowEntry)
flow_executor_map =
    (
      "authorization-code",
      flow authorization_code "Standard authorization code flow for server-side applications"
          "RFC 6749 Section 4.1" true (record no_options { use_pkce = some false }),
    )
    ∷ (
      "authorization-code-pkce",
      flow authorization_code "Authorization code with PKCE for public clients (SPAs, mobile)"
          "RFC 6749 Section 4.1 + RFC 7636" true (record no_options { use_pkce = some true }),
    )
    ∷ (
      "client-credentials",
      flow client_credentials "Machine-to-machine authentication" "RFC 6749 Section 4.4" false
          no_options,
    )
    ∷ (
      "implicit",
      flow implicit "Legacy flow - tokens returned directly (NOT recommended)"
          "RFC 6749 Section 4.2" true (record no_options { response_type = some "token" }),
    )
    ∷ (
      "refresh-token",
      flow refresh_token "Obtain new access token using refresh token" "RFC 6749 Section 6" false
          no_options,
    )
    ∷ (
      "device-code",
      flow device_code "For devices with limited input capabilities" "RFC 8628" true no_options,
    )
    ∷ (
      "password",
      flow resource_owner "Legacy flow - direct username/password (NOT recommended)"
          "RFC 6749 Section 4.3" false no_options,
    )
    ∷ (
      "oidc-authorization-code",
      flow authorization_code "OIDC authorization code flow with ID token"
          "OIDC Core 1.0 Section 3.1" true
          (record no_options { use_pkce = some true; include_nonce = some true }),
    )
    ∷ (
      "oidc-implicit",
      flow implicit "OIDC implicit flow with id_token" "OIDC Core 1.0 Section 3.2" true
          (record no_options { response_type = some "id_token token"; include_nonce = some true }),
    )
    ∷ (
      "oidc-hybrid",
      flow oidc_hybrid "OIDC hybrid flow - some tokens from authz, some from token endpoint"
          "OIDC Core 1.0 Section 3.3" true
          (record no_options { response_type = some "code id_token" }),
    )
    ∷ (
      "saml-sp-sso",
      flow sp_sso "SP-initiated SAML Single Sign-On" "SAML 2.0 Profiles Section 4.1.3" true
          (record no_options { binding = some "post" }),
    )
    ∷ (
      "saml-sp-sso-redirect",
      flow sp_sso "SP-initiated SAML SSO with HTTP-Redirect binding" "SAML 2.0 Bindings Section 3.4"
          true (record no_options { binding = some "redirect" }),
    )
    ∷ (
      "saml-idp-sso",
      flow idp_sso "IdP-initiated SAML SSO (unsolicited response)" "SAML 2.0 Profiles Section 4.1.5"
          true (record no_options { binding = some "post" }),
    )
    ∷ (
      "saml-logout",
      flow saml_logout "SAML Single Logout" "SAML 2.0 Profiles Section 4.4" false
          (record no_options { sp_initiated = some true; binding = some "post" }),
    )
    ∷ (
      "saml-logout-redirect",
      flow saml_logout "SAML Single Logout with HTTP-Redirect binding"
          "SAML 2.0 Bindings Section 3.4" false
          (record no_options { sp_initiated = some true; binding = some "redirect" }),
    )
    ∷ (
      "x509-svid-issuance",
      flow x509_svid "X.509-SVID certificate acquisition from SPIRE Workload API"
          "SPIFFE X.509-SVID Specification" false
          (record no_options { trust_domain = some "protocolsoup.com" }),
    )
    ∷ (
      "jwt-svid-issuance",
      flow jwt_svid "JWT-SVID token acquisition from SPIRE Workload API"
          "SPIFFE JWT-SVID Specification" false
          (record no_options {
            trust_domain = some "protocolsoup.com";
            audience = some "protocolsoup";
          }),
    )
    ∷ (
      "mtls-service-call",
      flow mtls "Mutual TLS service-to-service call using X.509-SVIDs" "SPIFFE mTLS + RFC 8446"
          false (record no_options { trust_domain = some "protocolsoup.com" }),
    )
    ∷ (
      "mtls-handshake",
      flow mtls "mTLS handshake with X.509-SVIDs" "SPIFFE mTLS + RFC 8446" false
          (record no_options { trust_domain = some "protocolsoup.com" }),
    )
    ∷ (
      "certificate-rotation",
      flow cert_rotation "Analyze automatic X.509-SVID certificate rotation mechanism"
          "SPIFFE Workload API" false
          (record no_options { trust_domain = some "protocolsoup.com" }),
    )
    ∷ (
      "jwt-api-auth",
      flow jwt_svid "Acquire JWT-SVID for API authentication" "SPIFFE JWT-SVID Specification" false
          (record no_options { trust_domain = some "protocolsoup.com"; audience = some "api" }),
    )
    ∷ (
      "user-lifecycle",
      flow user_lifecycle
          "Complete user provisioning lifecycle: Create → Update → Deactivate → Delete" "RFC 7644"
          false (record no_options { scim_base_url = some "/scim/v2" }),
    )
    ∷ (
      "group-membership",
      flow group_management "Create groups and manage user membership" "RFC 7644" false
          (record no_options { scim_base_url = some "/scim/v2" }),
    )
    ∷ (
      "user-discovery",
      flow filter_query "Query users using SCIM filter expressions" "RFC 7644 Section 3.4.2.2" false
          (record no_options { scim_base_url = some "/scim/v2" }),
    )
    ∷ (
      "schema-discovery",
      flow schema_discovery "Discover SCIM server capabilities and schema definitions"
          "RFC 7643, RFC 7644" false (record no_options { scim_base_url = some "/scim/v2" }),
    )
    ∷ []
