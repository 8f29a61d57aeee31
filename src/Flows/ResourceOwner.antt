-- ===== src/Flows/ResourceOwner.antt =====
-- `ResourceOwnerExecutor` of flows/resource-owner.ts (RFC 6749, section 4.3).
pub mod Steps
pub mod Ends
use protocol_lens.Prelude.{
  ◌≡◌, String, Bool, true, false, Option, none, some, List, [], ◌∷◌, str_eq, if◌then◌else◌, join,
  ◌||◌,
}
use protocol_lens.Js.Value.{Value, str, bool, arr, strings, get_prop}
use protocol_lens.Js.Params
use protocol_lens.Js.Params.{Params}
use protocol_lens.Flow.State.{EventType, Config, FlowState}
use protocol_lens.Flow.Env.{Env, RawResponse}
use protocol_lens.Flow.Exec.{Exec, World, pure, ◌>>=◌, ◌>>◌, or_throw, update_state, when}
use protocol_lens.Flow.Base.{event, add_event, begin, begun, begin-then, throw_response, is_ok}
use protocol_lens.Flow.Jwt.{is_text}
use protocol_lens.Flow.Tokens.{process_token_response}
use protocol_lens.Flows.Grant.{set_present, set_scope, post_token, guarded, complete}

pub record OwnerConfig : Type 0 where
  pub config : Config
  pub username : String
  pub password : String

-- The constructor's check: `none` is its exception.
unfoldable pub new_executor : OwnerConfig → Option OwnerConfig
new_executor c = if str_eq c.username "" || str_eq c.password "" then none else some c

-- The form of the token request.
unfoldable pub request_body : OwnerConfig → Params
unfolding Params.set join
request_body c = set_present "client_secret" c.config.client_secret (
    set_scope c.config.scopes (
      ("grant_type", "password")
      ∷ ("username", c.username)
      ∷ ("password", c.password)
      ∷ ("client_id", c.config.client_id)
      ∷ []))

refuse : Env → Value → Exec (Unit {0})
refuse env content = do
  code ← or_throw env.type_error (get_prop content "error")
  when (is_text code "invalid_grant") (
      add_event env (
        event EventType.error "Invalid Credentials" "Username or password is incorrect"
          (some "RFC 6749 Section 5.2") []))
  throw_response env content "Token request failed"

accept : Env → Value → Exec (Unit {0})
accept env content = do
  add_event env (
      event EventType.rfc "RFC 6749 Section 4.3.3" "Access Token Response - Tokens received"
        (some "RFC 6749 Section 4.3.3") [])
  process_token_response env content

unfoldable pub request_token : Env → OwnerConfig → Exec (Unit {0})
unfolding update_state when refuse accept request_body post_token add_event get_prop is_text
    throw_response process_token_response
request_token env c = do
  add_event env (
      event EventType.rfc "RFC 6749 Section 4.3.2"
        "Access Token Request - Sending user credentials directly" (some "RFC 6749 Section 4.3.2")
        (("grant_type", str "password")
          ∷ ("note", str "User credentials sent in clear text (over TLS)")
          ∷ []))
  update_state (λ s. record s { current_step = "Requesting access token with credentials" })
  add_event env (
      event EventType.security "Credentials in Request"
        "Username and password being sent to token endpoint" (some "RFC 6749 Section 4.3.2")
        (("warning", str "This is why ROPC is not recommended")
          ∷ ("username", str c.username)
          ∷ ("passwordSent", bool true)
          ∷ []))
  (response, content) ←
      post_token env c.config (request_body c) "Token Request (Password Grant)"
        "RFC 6749 Section 4.3.2"
  if is_ok response then accept env content else refuse env content

-- The `try` block.
unfoldable pub attempt : Env → OwnerConfig → Exec (Unit {0})
unfolding request_token complete
attempt env c = do
  request_token env c
  complete env "Flow completed successfully" "Resource Owner Password Flow Complete"
      "Tokens obtained using direct credentials" "RFC 6749 Section 4.3"

-- `execute` after the state has been initialised.
unfoldable pub perform : Env → OwnerConfig → Exec (Unit {0})
unfolding add_event guarded attempt
perform env c = do
  add_event env (
      event EventType.info "Starting Resource Owner Password Credentials Flow"
        "⚠ Legacy flow - shown for educational purposes" (some "RFC 6749 Section 4.3")
        (("clientId", str c.config.client_id)
          ∷ ("scopes", arr (strings c.config.scopes))
          ∷ ("username", str c.username)
          ∷ []))
  add_event env (
      event EventType.security "⚠ Security Warning: ROPC Flow Deprecated"
        "This flow exposes user credentials to the client application"
        (some "OAuth 2.0 Security BCP")
        ((
          "risks",
          arr (
              strings (
                "Client has direct access to user credentials"
                ∷ "No user consent screen for scope authorization"
                ∷ "No support for MFA/2FA without extensions"
                ∷ "Credentials could be logged or stored insecurely"
                ∷ "Cannot be used with federated identity providers" ∷ [])),
        )
          ∷ ("recommendation", str "Use Authorization Code flow with PKCE")
          ∷ ("legitimateUseCase", str "First-party apps on trusted OS with no browser")
          ∷ []))
  guarded env (attempt env c)

abbrev pub flow_type : String
flow_type = "password"

abbrev pub first_step : String
first_step = "Initiating Resource Owner Password Flow"

unfoldable pub execute : Env → OwnerConfig → Exec (Unit {0})
unfolding begin perform
execute env c = do begin env first_step; perform env c

pub execute_lem :
    (env : Env) (c : OwnerConfig) (w : World)
    → execute env c w ≡ perform env c (begun env first_step w)
unfolding execute
execute_lem env c w = begin-then env first_step (perform env c) w
