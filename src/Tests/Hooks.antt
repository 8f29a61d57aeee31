-- ===== src/Tests/Hooks.antt =====
-- The mapping of flow ids and the hook on sample options.
use protocol_lens.Prelude.{String, true, none, some, [], ◌++◌, ◌≡◌, refl, ◌⊎◌, if◌then◌else◌, ascii}
use protocol_lens.Factory.Supported.{is_some}
use protocol_lens.Hooks.Normal.{normalized, full-not_empty}
use protocol_lens.Hooks.FlowIds.{map_flow_id, protocol_of}
use protocol_lens.Hooks.Mapping.{is_listed, map_flow_id-listed, map_flow_id-stable}
use protocol_lens.Hooks.Executor.{
  Options, HookState, executor_flow_id, factory_config, not_supported, held, change_flow,
}
use protocol_lens.Hooks.Executor.Decides.{is_offered, change_flow-decides}

saml_id : map_flow_id (some "saml") (some "SP_Initiated_SSO") ≡ some "saml-sp-sso"
unfolding map_flow_id ascii
saml_id = refl

-- In OpenID Connect the two names of the same flow are mapped apart.
oidc_pkce : map_flow_id (some "oidc") (some "pkce") ≡ some "authorization-code-pkce"
unfolding map_flow_id ascii
oidc_pkce = refl

oidc_pkce_again :
    map_flow_id (some "oidc") (some "authorization-code-pkce") ≡ some "oidc-authorization-code"
unfolding map_flow_id ascii
oidc_pkce_again = refl

map_flow_id-listed_example :
    (mapped : String) × (map_flow_id (some "oauth2") (some "Refresh") ≡ some mapped)
    × ((mapped ≡ normalized "Refresh") ⊎ (is_listed mapped ≡ true))
unfolding protocol_of
map_flow_id-listed_example =
    map_flow_id-listed (some "oauth2") "Refresh" tt (full-not_empty "Refresh" tt)

map_flow_id-stable_example :
    map_flow_id (some "saml") (map_flow_id (some "saml") (some "SLO"))
    ≡ map_flow_id (some "saml") (some "SLO")
unfolding protocol_of
map_flow_id-stable_example = map_flow_id-stable (some "saml") (some "SLO") tt

abbrev options : Options
options = record {
  protocol_id = some "spiffe";
  flow_id = some "attestation";
  client_id = "client";
  client_secret = none;
  redirect_uri = "https://app.example/callback";
  scopes = [];
  refresh_token = none;
  username = none;
  password = none;
  bearer_token = none;
}

abbrev idle_hook : HookState
idle_hook = record { executor = none; aborted = []; error = some "stale" }

attestation : executor_flow_id options ≡ some "workload-attestation"
unfolding executor_flow_id ascii
attestation = refl

change_flow-decides_example :
    (is_some (change_flow options idle_hook).executor
      ≡ is_offered "workload-attestation" (factory_config "spiffe" options))
    × ((change_flow options idle_hook).error ≡ (
        if is_offered "workload-attestation" (factory_config "spiffe" options)
        then none
        else some (not_supported options)))
    × ((change_flow options idle_hook).aborted ≡ ([] ++ held none) ++ held none)
change_flow-decides_example =
    change_flow-decides options idle_hook "spiffe" "workload-attestation" refl
      (full-not_empty "spiffe" tt) attestation
