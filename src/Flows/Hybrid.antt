-- ===== src/Flows/Hybrid.antt =====
-- `OIDCHybridExecutor` of flows/oidc-hybrid.ts (OpenID Connect Core, section 3.3).
pub mod Authorize
pub mod Hashes
pub mod Steps
pub mod Ends
pub mod Csrf
pub mod Checks
use protocol_lens.Prelude.{
  ◌≡◌, String, Bool, true, false, Option, none, some, List, [], ◌∷◌, ◌++◌, if◌then◌else◌,
}
use protocol_lens.Js.Value.{Value, str, arr, strings}
use protocol_lens.Js.Params
use protocol_lens.Js.Params.{Params}
use protocol_lens.Flow.State.{
  EventType, Status, awaiting_user, executing, Config, FlowState, SecurityParams, Tokens,
  DecodedToken, TokenType,
}
use protocol_lens.Flow.Env.{Env, RawResponse}
use protocol_lens.Flow.Exec.{Exec, World, pure, throw, ◌>>=◌, ◌>>◌, get_state, update_state}
use protocol_lens.Flow.Base.{event, add_event, begin, begun, begin-then, throw_response, is_ok}
use protocol_lens.Flow.Tokens.{decode, process_token_response}
use protocol_lens.Flow.Popup.{same_state}
use protocol_lens.Flows.Grant.{present, set_present, post_token, guarded, complete}
use protocol_lens.Flows.Hybrid.Authorize.{
  HybridConfig, HybridType, response_text, uses_pkce, config_of, tokens_from_authz_endpoint,
  generate_security_params, build_authorization_url, Callback, open_authorization_popup,
}
use protocol_lens.Flows.Hybrid.Hashes.{HashClaim, c_hash, at_hash, validate_hash}

-- The checks that need both the ID token and the text that it hashes.
unfoldable pub validate_if : Env → HashClaim → Option String → Option String → Exec (Unit {0})
unfolding validate_hash
validate_if env claim none text = pure tt
validate_if env claim (some token) none = pure tt
validate_if env claim (some token) (some text) = validate_hash env claim token text

receive_id : Env → Option String → Exec (List DecodedToken)
receive_id env none = pure []
receive_id env (some id) = do
  decoded ← decode env id TokenType.id_token
  add_event env (
      event EventType.token "ID Token from Authorization Endpoint" "Received before token exchange"
        (some "OIDC Core 1.0 Section 3.3.2.11") [])
  pure (decoded ∷ [])

receive_access : Env → Option String → Exec (List DecodedToken)
receive_access env none = pure []
receive_access env (some access) = do
  decoded ← decode env access TokenType.access_token
  add_event env (
      event EventType.token "Access Token from Authorization Endpoint"
        "Received in fragment (similar to implicit flow)" (some "OIDC Core 1.0 Section 3.3.2.5") [])
  pure (decoded ∷ [])

-- `if (token) tokens.x = token`
abbrev or_old : Option String → Option String → Option String
or_old none old = old
or_old (some token) old = some token

unfoldable pub process_authorization_response : Env → Callback → Exec (Unit {0})
unfolding get_state receive_id receive_access decode add_event update_state
process_authorization_response env r = do
  s ← get_state
  from_id ← receive_id env (present r.id_token)
  from_access ← receive_access env (present r.access_token)
  update_state (λ t. record t {
    tokens = record s.tokens {
      id_token = or_old (present r.id_token) s.tokens.id_token;
      access_token = or_old (present r.access_token) s.tokens.access_token;
    };
    decoded_tokens = s.decoded_tokens ++ (from_id ++ from_access);
  })

-- The form of the token request.
unfoldable pub request_body : HybridConfig → String → SecurityParams → Params
unfolding Params.set
request_body c code p = set_present "client_secret" c.config.client_secret (
    set_present "code_verifier" (if uses_pkce c then p.code_verifier else none) (
      set_present "redirect_uri" c.config.redirect_uri (
        ("grant_type", "authorization_code")
        ∷ ("code", code)
        ∷ ("client_id", c.config.client_id)
        ∷ [])))

accept : Env → Value → Exec (Unit {0})
accept env content = do
  add_event env (
      event EventType.rfc "OIDC Core 1.0 Section 3.3.3.3"
        "Token Response - Additional tokens from token endpoint"
        (some "OIDC Core 1.0 Section 3.3.3.3") [])
  process_token_response env content

refuse : Env → Value → Exec (Unit {0})
refuse env content = throw_response env content "Token exchange failed"

unfoldable pub exchange_code_for_tokens : Env → HybridConfig → String → Exec (Unit {0})
unfolding add_event get_state request_body post_token accept refuse throw_response
    process_token_response
exchange_code_for_tokens env c code = do
  add_event env (
      event EventType.rfc "OIDC Core 1.0 Section 3.3.3"
        "Token Request - Exchanging code for additional tokens" (some "OIDC Core 1.0 Section 3.3.3")
        [])
  s ← get_state
  (response, content) ←
      post_token env c.config (request_body c code s.security_params) "Token Exchange (Hybrid Flow)"
        "OIDC Core 1.0 Section 3.3.3"
  if is_ok response then accept env content else refuse env content

exchange_if : Env → HybridConfig → Option String → Exec (Unit {0})
exchange_if env c none = pure tt
exchange_if env c (some code) = do
  update_state (λ s. record s { status = executing; current_step = "Exchanging code for tokens" })
  exchange_code_for_tokens env c code

-- After the state check.
unfoldable pub finish : Env → HybridConfig → Callback → Exec (Unit {0})
unfolding validate_if process_authorization_response exchange_if exchange_code_for_tokens complete
    update_state
finish env c r = do
  validate_if env c_hash (present r.id_token) (present r.code)
  validate_if env at_hash (present r.id_token) (present r.access_token)
  process_authorization_response env r
  exchange_if env c (present r.code)
  complete env "Flow completed successfully" "OIDC Hybrid Flow Complete"
      "Tokens received from both endpoints" "OIDC Core 1.0 Section 3.3"

-- After the callback: the state check.
unfoldable pub use_callback : Env → HybridConfig → Callback → Exec (Unit {0})
unfolding finish get_state same_state
use_callback env c r = do
  s ← get_state
  if same_state r.state s.security_params.state
      then finish env c r
      else throw "State mismatch - possible CSRF attack"

-- From the authorization URL to the callback.
unfoldable pub after_params : Env → HybridConfig → Exec Callback
unfolding get_state build_authorization_url update_state open_authorization_popup
after_params env c = do
  s ← get_state
  update_state
      (λ t. record t { status = awaiting_user; current_step = "Awaiting user authorization" })
  open_authorization_popup env (build_authorization_url env c s.security_params)

-- The `try` block up to the callback.
unfoldable pub authorize : Env → HybridConfig → Exec Callback
unfolding generate_security_params after_params
authorize env c = do generate_security_params env c; after_params env c

-- The `try` block.
unfoldable pub attempt : Env → HybridConfig → Exec (Unit {0})
unfolding authorize use_callback
attempt env c = do r ← authorize env c; use_callback env c r

-- `execute` after the state has been initialised.
unfoldable pub perform : Env → HybridConfig → Exec (Unit {0})
unfolding add_event guarded attempt tokens_from_authz_endpoint
perform env c = do
  add_event env (
      event EventType.info "Starting OIDC Hybrid Flow"
        "Combining Authorization Code and Implicit flows" (some "OIDC Core 1.0 Section 3.3")
        (("responseType", str (response_text c.response_type))
          ∷ ("scopes", arr (strings (config_of c).scopes))
          ∷ ("clientId", str c.config.client_id)
          ∷ []))
  add_event env (
      event EventType.rfc "OIDC Core 1.0 Section 3.3"
        "Hybrid Flow - Returns some tokens from authz endpoint, some from token endpoint"
        (some "OIDC Core 1.0 Section 3.3")
        (("responseType", str (response_text c.response_type))
          ∷ ("tokensFromAuthzEndpoint", arr (strings (tokens_from_authz_endpoint c.response_type)))
          ∷ ("tokensFromTokenEndpoint", arr (strings ("access_token" ∷ "refresh_token" ∷ [])))
          ∷ []))
  guarded env (attempt env c)

abbrev pub flow_type : String
flow_type = "oidc_hybrid"

abbrev pub first_step : String
first_step = "Initiating OIDC Hybrid Flow"

unfoldable pub execute : Env → HybridConfig → Exec (Unit {0})
unfolding begin perform
execute env c = do begin env first_step; perform env c

pub execute_lem :
    (env : Env) (c : HybridConfig) (w : World)
    → execute env c w ≡ perform env c (begun env first_step w)
unfolding execute
execute_lem env c w = begin-then env first_step (perform env c) w
