-- ===== src/Flows/Implicit.antt =====
-- `ImplicitExecutor` of flows/implicit.ts (RFC 6749, section 4.2).
pub mod Authorize
pub mod Steps
pub mod Ends
pub mod Csrf
use protocol_lens.Prelude.{
  ◌≡◌, ℕ, String, Bool, true, false, ◌||◌, Option, none, some, List, [], ◌∷◌, ◌++◌, str_eq,
  if◌then◌else◌, join, concat,
}
use protocol_lens.Js.Value.{
  Value, undefined, str, bool, arr, strings, opt_str, get_prop, truthy, or_else, as_string,
}
use protocol_lens.Js.Params
use protocol_lens.Js.Params.{Params}
use protocol_lens.Flow.State.{
  EventType, Status, awaiting_user, completed, Config, FlowState, SecurityParams, Tokens,
  DecodedToken, TokenType, no_tokens,
}
use protocol_lens.Flow.Env.{Env, WindowEvent}
use protocol_lens.Flow.Exec.{
  Exec, World, pure, throw, ◌>>=◌, ◌>>◌, or_throw, get_state, update_state, set_csrf_state,
  next_call, when,
}
use protocol_lens.Flow.Base.{event, add_event, begin, begun, begin-then, message_of}
use protocol_lens.Flow.Tokens.{decode}
use protocol_lens.Flow.Random.{generate_secure_random}
use protocol_lens.Flow.Popup.{await_callback, same_state}
use protocol_lens.Flows.Grant.{present, set_present, guarded, complete}
use protocol_lens.Flows.Implicit.Authorize.{
  Fragment, ImplicitConfig, build_authorization_url, generate_security_params, id_token,
  open_authorization_popup, response_text, response_type, token,
}

abbrev opt_bool : Option Bool → Value
opt_bool none = undefined
opt_bool (some b) = bool b

abbrev opt_strings : Option (List String) → Value
opt_strings none = undefined
opt_strings (some ss) = arr (strings ss)

abbrev is_true : Option Bool → Bool
is_true none = false
is_true (some b) = b

receive_access : Env → Fragment → Option String → Exec (List DecodedToken)
receive_access env f none = pure []
receive_access env f (some access) = do
  decoded ← decode env access TokenType.access_token
  add_event env (
      event EventType.token "Access Token Received"
        "Token received directly in redirect (no code exchange)" none
        (("tokenType", f.token_type) ∷ ("expiresIn", f.expires_in) ∷ []))
  pure (decoded ∷ [])

receive_id : Env → Option String → Exec (List DecodedToken)
receive_id env none = pure []
receive_id env (some id) = do
  decoded ← decode env id TokenType.id_token
  add_event env (
      event EventType.token "ID Token Received (OIDC)"
        (if is_true decoded.is_valid
          then "ID token validated"
          else "ID token has validation errors")
        (some "OIDC Core 1.0 Section 3.2.2.5")
        (("isValid", opt_bool decoded.is_valid)
          ∷ ("validationErrors", opt_strings decoded.validation_errors)
          ∷ []))
  pure (decoded ∷ [])

-- `v` as a property that may be undefined.
abbrev defined : Value → Option Value
defined undefined = none
defined v = some v

unfoldable pub process_implicit_tokens : Env → Fragment → Exec (Unit {0})
unfolding receive_access receive_id decode update_state add_event as_string
process_implicit_tokens env f = do
  from_access ← receive_access env f (present f.access_token)
  from_id ← receive_id env (present f.id_token)
  update_state (λ s. record s {
    tokens = record no_tokens {
      access_token = present f.access_token;
      id_token = present f.id_token;
      token_type = as_string f.token_type;
      expires_in = defined f.expires_in;
    };
    decoded_tokens = from_access ++ from_id;
  })
  add_event env (
      event EventType.rfc "No Refresh Token in Implicit Flow"
        "RFC 6749 Section 4.2.2 explicitly prohibits refresh tokens in implicit flow"
        (some "RFC 6749 Section 4.2.2")
        (("reason", str "Public clients cannot securely store refresh tokens")
          ∷ ("workaround", str "Use silent renewal with prompt=none or hidden iframe")
          ∷ []))

finish : Env → Fragment → Exec (Unit {0})
finish env f = do
  add_event env (
      event EventType.security "State Parameter Validated"
        "CSRF protection - state matches original value" (some "RFC 6749 Section 10.12") [])
  process_implicit_tokens env f
  complete env "Flow completed" "Implicit Flow Complete"
      "Token(s) received directly from authorization endpoint" "RFC 6749 Section 4.2.2"

-- After the callback: the state check.
unfoldable pub use_callback : Env → Fragment → Exec (Unit {0})
unfolding finish process_implicit_tokens complete get_state same_state add_event
use_callback env f = do
  s ← get_state
  if same_state f.state s.security_params.state
      then finish env f
      else throw "State mismatch - possible CSRF attack"

-- From the authorization URL to the callback.
unfoldable pub after_params : Env → ImplicitConfig → Exec Fragment
unfolding get_state build_authorization_url add_event update_state open_authorization_popup
after_params env c = do
  s ← get_state
  let url : String = build_authorization_url env c s.security_params
  add_event env (
      event EventType.rfc "RFC 6749 Section 4.2.1"
        "Authorization Request - response_type=token returns token directly"
        (some "RFC 6749 Section 4.2.1")
        (("response_type", str (response_text (response_type c)))
          ∷ ("note", str "Token will be returned in URL fragment, not query string")
          ∷ []))
  update_state
      (λ s. record s { status = awaiting_user; current_step = "Awaiting user authorization" })
  open_authorization_popup env url

-- The `try` block up to the callback.
unfoldable pub authorize : Env → ImplicitConfig → Exec Fragment
unfolding generate_security_params after_params
authorize env c = do generate_security_params env c; after_params env c

-- The `try` block.
unfoldable pub attempt : Env → ImplicitConfig → Exec (Unit {0})
unfolding authorize use_callback
attempt env c = do fragment ← authorize env c; use_callback env fragment

-- `execute` after the state has been initialised.
unfoldable pub perform : Env → ImplicitConfig → Exec (Unit {0})
unfolding add_event guarded attempt
perform env c = do
  add_event env (
      event EventType.info "Starting Implicit Flow" "⚠ Legacy flow - shown for educational purposes"
        (some "RFC 6749 Section 4.2")
        (("clientId", str c.config.client_id)
          ∷ ("scopes", arr (strings c.config.scopes))
          ∷ ("responseType", str (response_text (response_type c)))
          ∷ []))
  add_event env (
      event EventType.security "⚠ Security Warning: Implicit Flow Deprecated"
        "This flow is NOT recommended. Use Authorization Code + PKCE instead."
        (some "OAuth 2.0 Security BCP")
        ((
          "risks",
          arr (
              strings (
                "Access token exposed in URL fragment" ∷ "Token visible in browser history"
                ∷ "Token may leak via referrer header" ∷ "No client authentication possible"
                ∷ "Vulnerable to token injection attacks" ∷ [])),
        )
          ∷ ("recommendation", str "Use Authorization Code flow with PKCE (RFC 7636)")
          ∷ []))
  guarded env (attempt env c)

abbrev pub flow_type : String
flow_type = "implicit"

abbrev pub first_step : String
first_step = "Initiating Implicit Flow"

unfoldable pub execute : Env → ImplicitConfig → Exec (Unit {0})
unfolding begin perform
execute env c = do begin env first_step; perform env c

pub execute_lem :
    (env : Env) (c : ImplicitConfig) (w : World)
    → execute env c w ≡ perform env c (begun env first_step w)
unfolding execute
execute_lem env c w = begin-then env first_step (perform env c) w
