-- ===== src/Flows/RefreshToken.antt =====
-- `RefreshTokenExecutor` of flows/refresh-token.ts (RFC 6749, section 6).
pub mod Steps
pub mod Ends
use protocol_lens.Prelude.{
  ◌≡◌, String, Bool, true, false, Option, none, some, List, [], ◌∷◌, str_eq, if◌then◌else◌, join,
}
use protocol_lens.Js.Value.{Value, str, bool, arr, obj, get_prop, strings, truthy, as_payload}
use protocol_lens.Js.Params
use protocol_lens.Js.Params.{Params}
use protocol_lens.Flow.State.{EventType, Config, FlowState}
use protocol_lens.Flow.Env.{Env, RawResponse}
use protocol_lens.Flow.Exec.{Exec, World, pure, throw, ◌>>=◌, ◌>>◌, or_throw, update_state, when}
use protocol_lens.Flow.Base.{event, add_event, begin, begun, begin-then, throw_response, is_ok}
use protocol_lens.Flow.Jwt.{is_text}
use protocol_lens.Flow.Tokens.{process_token_response}
use protocol_lens.Flows.Grant.{
  present, is_present, set_present, set_scope, post_token, guarded, complete,
}

pub record RefreshConfig : Type 0 where
  pub config : Config
  pub refresh_token : String

-- The constructor's check: `none` is its exception.
unfoldable pub new_executor : RefreshConfig → Option RefreshConfig
new_executor c = if str_eq c.refresh_token "" then none else some c

-- The form of the token request.
unfoldable pub request_body : RefreshConfig → Params
unfolding Params.set join
request_body c = set_present "client_secret" c.config.client_secret (
    set_scope c.config.scopes (
      ("grant_type", "refresh_token")
      ∷ ("refresh_token", c.refresh_token)
      ∷ ("client_id", c.config.client_id)
      ∷ []))

abbrev announce_scope : Env → List String → Exec (Unit {0})
announce_scope env [] = pure tt
announce_scope env (s ∷ ss) = add_event env (
    event EventType.rfc "RFC 6749 Section 6 - Scope"
      "Requesting specific scopes (must be subset of original)" (some "RFC 6749 Section 6")
      (("requestedScope", str (join " " (s ∷ ss)))
        ∷ ("note", str "Scope must be equal to or narrower than original grant")
        ∷ []))

refuse : Env → Value → Exec (Unit {0})
refuse env content = do
  code ← or_throw env.type_error (get_prop content "error")
  when (is_text code "invalid_grant") (
      add_event env (
        event EventType.security "Refresh Token Invalid or Expired"
          "The refresh token is no longer valid - user must re-authenticate"
          (some "RFC 6749 Section 5.2") (as_payload content)))
  throw_response env content "Token refresh failed"

accept : Env → Value → Exec (Unit {0})
accept env content = do
  rotated ← or_throw env.type_error (get_prop content "refresh_token")
  when (truthy rotated) (
      add_event env (
        event EventType.security "Refresh Token Rotation"
          "New refresh token issued - old token should be discarded" (some "RFC 6749 Section 6")
          (("note", str "Refresh token rotation is a security best practice")
            ∷ ("warning", str "Previous refresh token is now invalid")
            ∷ [])))
  process_token_response env content

unfoldable pub refresh_access_token : Env → RefreshConfig → Exec (Unit {0})
unfolding update_state when refuse accept request_body post_token get_prop is_text throw_response
    truthy as_payload process_token_response
refresh_access_token env c = do
  update_state (λ s. record s { current_step = "Requesting new access token" })
  announce_scope env c.config.scopes
  when (is_present c.config.client_secret) (
      add_event env (
        event EventType.security "Client Authentication"
          "Including client_secret for confidential client" (some "RFC 6749 Section 2.3") []))
  (response, content) ←
      post_token env c.config (request_body c) "Token Refresh Request" "RFC 6749 Section 6"
  if is_ok response then accept env content else refuse env content

-- The `try` block.
unfoldable pub attempt : Env → RefreshConfig → Exec (Unit {0})
unfolding refresh_access_token complete
attempt env c = do
  refresh_access_token env c
  complete env "Flow completed successfully" "Refresh Token Flow Complete"
      "New access token obtained" "RFC 6749 Section 6"

-- `execute` after the state has been initialised.
unfoldable pub perform : Env → RefreshConfig → Exec (Unit {0})
unfolding add_event guarded attempt
perform env c = do
  add_event env (
      event EventType.info "Starting Refresh Token Flow"
        "Obtaining new access token using refresh token" (some "RFC 6749 Section 6")
        (("clientId", str c.config.client_id)
          ∷ ("hasRefreshToken", bool true)
          ∷ ("requestedScopes", arr (strings c.config.scopes))
          ∷ []))
  add_event env (
      event EventType.rfc "RFC 6749 Section 6"
        "Refresh tokens allow obtaining new access tokens without user interaction"
        (some "RFC 6749 Section 6")
        (("purpose", str "Extend session without re-authentication")
          ∷ ("security", str "Refresh tokens are long-lived and must be stored securely")
          ∷ []))
  guarded env (attempt env c)

abbrev pub flow_type : String
flow_type = "refresh_token"

abbrev pub first_step : String
first_step = "Initiating Refresh Token Flow"

unfoldable pub execute : Env → RefreshConfig → Exec (Unit {0})
unfolding begin perform
execute env c = do begin env first_step; perform env c

pub execute_lem :
    (env : Env) (c : RefreshConfig) (w : World)
    → execute env c w ≡ perform env c (begun env first_step w)
unfolding execute
execute_lem env c w = begin-then env first_step (perform env c) w
