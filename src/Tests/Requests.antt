-- ===== src/Tests/Requests.antt =====
-- Sample requests of the authorization code flow.
use protocol_lens.Prelude.{◌≡◌, refl, none, some}
use protocol_lens.Js.Params
use protocol_lens.Flow.State.{SecurityParams, no_params}
use protocol_lens.Flows.AuthorizationCode.Authorize.{authorization_params, generate_security_params}
use protocol_lens.Flows.AuthorizationCode.{request_body}
use protocol_lens.Flows.AuthorizationCode.Pkce.{
  Binds, authorization_request, token_request, generate_security_params-Binds,
}
use protocol_lens.Prelude.{join}
use protocol_lens.Flows.RefreshToken
use protocol_lens.Flows.ResourceOwner
use protocol_lens.Flows.ClientCredentials
use protocol_lens.Flows.Requests.{refresh_request, credential_requests}
use protocol_lens.Tests.{
  refresh_config, owner_config, sample_config, sample, sample_events, code_config, sample_world,
}

abbrev params : SecurityParams
params = record no_params {
  state = some "xyz";
  code_verifier = some "dBjftJeZ4CVP";
  code_challenge = some "E9Melhoa2Owv";
}

authorization_request_example :
    (Params.get "response_type" (authorization_params code_config params) ≡ some "code")
    × (Params.get "state" (authorization_params code_config params) ≡ some "xyz")
    × (Params.get "code_challenge" (authorization_params code_config params) ≡ some "E9Melhoa2Owv")
    × (Params.get "code_challenge_method" (authorization_params code_config params) ≡ some "S256")
    × (Params.get "nonce" (authorization_params code_config params) ≡ none)
unfolding Params.get
authorization_request_example =
    authorization_request code_config params "xyz" refl refl refl refl refl refl

token_request_example :
    (Params.get "grant_type" (request_body code_config params "Splx") ≡ some "authorization_code")
    × (Params.get "code" (request_body code_config params "Splx") ≡ some "Splx")
    × (Params.get "client_id" (request_body code_config params "Splx") ≡ some "client")
    × (Params.get "redirect_uri" (request_body code_config params "Splx")
        ≡ some "https://app.example/callback")
    × (Params.get "code_verifier" (request_body code_config params "Splx") ≡ some "dBjftJeZ4CVP")
    × (Params.get "client_secret" (request_body code_config params "Splx") ≡ none)
token_request_example = token_request code_config params "Splx"

generate_security_params-Binds_example :
    Binds
      (sample sample_events)
      (generate_security_params
        (sample sample_events)
        code_config
        sample_world).1.state.security_params
      3
generate_security_params-Binds_example =
    generate_security_params-Binds (sample sample_events) code_config sample_world refl

refresh_request_example :
    (Params.get "grant_type" (RefreshToken.request_body refresh_config) ≡ some "refresh_token")
    × (Params.get "refresh_token" (RefreshToken.request_body refresh_config)
        ≡ some "tGzv3JOkF0XG5Qx2TlKWIA")
    × (Params.get "client_id" (RefreshToken.request_body refresh_config) ≡ some "client")
    × (Params.get "scope" (RefreshToken.request_body refresh_config) ≡ some "openid profile")
    × (Params.get "client_secret" (RefreshToken.request_body refresh_config) ≡ none)
unfolding join
refresh_request_example = refresh_request refresh_config

credential_requests_example :
    (Params.get "grant_type" (ResourceOwner.request_body owner_config) ≡ some "password")
    × (Params.get "username" (ResourceOwner.request_body owner_config) ≡ some "johndoe")
    × (Params.get "password" (ResourceOwner.request_body owner_config) ≡ some "A3ddj3w")
    × (Params.get "scope" (ResourceOwner.request_body owner_config) ≡ some "openid profile")
    × (Params.get "client_secret" (ResourceOwner.request_body owner_config) ≡ none)
    × (Params.get "grant_type" (ClientCredentials.request_body sample_config "s")
        ≡ some "client_credentials")
    × (Params.get "client_id" (ClientCredentials.request_body sample_config "s") ≡ some "client")
    × (Params.get "client_secret" (ClientCredentials.request_body sample_config "s") ≡ some "s")
    × (Params.get "scope" (ClientCredentials.request_body sample_config "s")
        ≡ some "openid profile")
unfolding join
credential_requests_example = credential_requests owner_config sample_config "s"
