-- ===== src/Hooks/FlowIds.antt =====
-- `mapFlowId` of hooks.ts: from the backend's flow ids to those of the executors.
use text.Mathlib.Text
use protocol_lens.Prelude.{
  String, Option, none, some, List, [], ◌∷◌, str_eq, drop_text, if◌then◌else◌,
}
use protocol_lens.Flows.Grant.{present}
use protocol_lens.Hooks.Normal.{normalized}

-- The `switch` statements, as tables.
abbrev pub Table : Type 0
Table = List (String × String)

unfoldable pub lookup : String → Table → Option String
lookup id [] = none
lookup id ((k, v) ∷ rest) = let later = lookup id rest in if str_eq k id then some v else later

-- The protocols that have a table of their own.
pub data Protocol : Type 0 where
  oidc saml spiffe scim other : Protocol

unfoldable pub protocol_of : Option String → Protocol
protocol_of none = other
protocol_of (some p) =
    if str_eq p "oidc"
    then oidc
    else if str_eq p "saml"
    then saml
    else if str_eq p "spiffe"
    then spiffe
    else if str_eq p "scim"
    then scim
    else other

abbrev pub prefixed_table : Table
prefixed_table =
    ("authorization-code", "oidc-authorization-code")
    ∷ ("implicit", "oidc-implicit")
    ∷ ("hybrid", "oidc-hybrid")
    ∷ []

abbrev pub oidc_table : Table
oidc_table =
    ("authorization-code", "oidc-authorization-code")
    ∷ ("authorization-code-pkce", "oidc-authorization-code")
    ∷ ("implicit", "oidc-implicit")
    ∷ ("hybrid", "oidc-hybrid")
    ∷ ("code-id-token", "oidc-hybrid")
    ∷ ("code-token", "oidc-hybrid")
    ∷ []

abbrev pub saml_table : Table
saml_table =
    ("sp-initiated-sso", "saml-sp-sso")
    ∷ ("sp-sso", "saml-sp-sso")
    ∷ ("sp-initiated-sso-redirect", "saml-sp-sso-redirect")
    ∷ ("idp-initiated-sso", "saml-idp-sso")
    ∷ ("idp-sso", "saml-idp-sso")
    ∷ ("single-logout", "saml-logout")
    ∷ ("slo", "saml-logout")
    ∷ ("logout", "saml-logout")
    ∷ ("single-logout-redirect", "saml-logout-redirect")
    ∷ []

abbrev pub spiffe_table : Table
spiffe_table =
    ("x509-svid-issuance", "x509-svid-issuance")
    ∷ ("x509-svid", "x509-svid-issuance")
    ∷ ("x509", "x509-svid-issuance")
    ∷ ("jwt-svid-issuance", "jwt-svid-issuance")
    ∷ ("jwt-svid", "jwt-svid-issuance")
    ∷ ("jwt", "jwt-svid-issuance")
    ∷ ("mtls-service-call", "mtls-service-call")
    ∷ ("mtls", "mtls-service-call")
    ∷ ("mtls-call", "mtls-service-call")
    ∷ ("mtls-handshake", "mtls-service-call")
    ∷ ("certificate-rotation", "certificate-rotation")
    ∷ ("cert-rotation", "certificate-rotation")
    ∷ ("rotation", "certificate-rotation")
    ∷ ("jwt-api-auth", "jwt-api-auth")
    ∷ ("jwt-auth", "jwt-api-auth")
    ∷ ("workload-attestation", "workload-attestation")
    ∷ ("attestation", "workload-attestation")
    ∷ ("trust-bundle", "trust-bundle")
    ∷ ("bundle", "trust-bundle")
    ∷ ("trust-bundle-federation", "trust-bundle")
    ∷ ("workload-registration", "workload-registration")
    ∷ ("registration", "workload-registration")
    ∷ ("node-attestation", "node-attestation")
    ∷ []

abbrev pub scim_table : Table
scim_table =
    ("user-lifecycle", "user-lifecycle")
    ∷ ("user-provisioning", "user-lifecycle")
    ∷ ("group-membership", "group-membership")
    ∷ ("group-management", "group-membership")
    ∷ ("user-discovery", "user-discovery")
    ∷ ("filter-query", "user-discovery")
    ∷ ("filter-queries", "user-discovery")
    ∷ ("bulk-operations", "bulk-operations")
    ∷ ("bulk", "bulk-operations")
    ∷ ("schema-discovery", "schema-discovery")
    ∷ ("discovery", "schema-discovery")
    ∷ []

abbrev pub oauth_table : Table
oauth_table =
    ("authorization-code", "authorization-code")
    ∷ ("authorization-code-pkce", "authorization-code-pkce")
    ∷ ("pkce", "authorization-code-pkce")
    ∷ ("client-credentials", "client-credentials")
    ∷ ("implicit", "implicit")
    ∷ ("refresh-token", "refresh-token")
    ∷ ("refresh", "refresh-token")
    ∷ ("device-code", "device-code")
    ∷ ("device", "device-code")
    ∷ ("device-authorization", "device-code")
    ∷ ("password", "password")
    ∷ ("resource-owner", "password")
    ∷ ("ropc", "password")
    ∷ []

-- A `case` that returns, or what follows the `switch`.
abbrev pub or_next : Option String → String → String
or_next none next = next
or_next (some found) next = found

-- The ids with the prefix of the OIDC flows.
unfoldable pub prefixed : String → Option String
unfolding lookup drop_text
prefixed id = if Text.starts_with id "oidc-" then lookup (drop_text 5 id) prefixed_table else none

-- The tables of a protocol; an unknown id is returned as it is.
unfoldable pub in_tables : Protocol → String → String
unfolding lookup
in_tables oidc id = or_next (lookup id oidc_table) (or_next (lookup id oauth_table) id)
in_tables saml id = or_next (lookup id saml_table) (or_next (lookup id oauth_table) id)
in_tables spiffe id = or_next (lookup id spiffe_table) id
in_tables scim id = or_next (lookup id scim_table) id
in_tables other id = or_next (lookup id oauth_table) id

-- A normalized id.
unfoldable pub map_normal : Protocol → String → String
unfolding prefixed in_tables
map_normal p id = or_next (prefixed id) (in_tables p id)

abbrev pub map_present : Option String → Option String → Option String
map_present p none = none
map_present p (some id) = some (map_normal (protocol_of p) (normalized id))

-- `mapFlowId`; an empty id is no id.
unfoldable pub map_flow_id : Option String → Option String → Option String
unfolding map_normal protocol_of normalized
map_flow_id p id = map_present p (present id)
