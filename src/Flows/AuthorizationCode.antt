-- ===== src/Flows/AuthorizationCode.antt =====
-- `AuthorizationCodeExecutor` of flows/authorization-code.ts (RFC 6749, section 4.1, with PKCE).
pub mod Authorize
pub mod Steps
pub mod Ends
pub mod Csrf
pub mod Pkce
use protocol_lens.Prelude.{
  ◌≡◌, ℕ, ◌+◌, ◌-◌, String, Bool, true, false, not, ◌&&◌, Option, none, some, List, [], ◌∷◌, str_eq,
  if◌then◌else◌, join, concat, take_text, drop_text, length, codes,
}
use protocol_lens.Js.Value.{
  Value, num, str, bool, arr, strings, opt_str, get_prop, truthy, or_else, as_string,
}
use protocol_lens.Js.Params
use protocol_lens.Js.Params.{Params}
use protocol_lens.Flow.State.{
  EventType, Status, awaiting_user, executing, completed, Config, FlowState, SecurityParams, Tokens,
}
use protocol_lens.Flow.Env.{Env, RawResponse, WindowEvent}
use protocol_lens.Flow.Exec.{
  Exec, World, pure, throw, ◌>>=◌, ◌>>◌, or_throw, get_state, update_state, set_csrf_state,
  next_call, when,
}
use protocol_lens.Flow.Base.{
  event, add_event, begin, begun, begin-then, throw_response, message_of, is_ok,
}
use protocol_lens.Flow.Tokens.{process_token_response}
use protocol_lens.Flow.Random.{
  generate_secure_random, generate_code_verifier, generate_code_challenge,
}
use protocol_lens.Flow.Popup.{await_callback, same_state}
use protocol_lens.Flows.Grant.{present, is_present, set_present, post_token, guarded}
use protocol_lens.Flows.AuthorizationCode.Authorize.{
  CodeConfig, build_authorization_url, generate_security_params, open_authorization_popup,
}

-- The form of the token request.
unfoldable pub request_body : CodeConfig → SecurityParams → String → Params
unfolding Params.set
request_body c p code = set_present "client_secret" c.config.client_secret (
    set_present "code_verifier" (if c.use_pkce then p.code_verifier else none) (
      set_present "redirect_uri" c.config.redirect_uri (
        ("grant_type", "authorization_code")
        ∷ ("code", code)
        ∷ ("client_id", c.config.client_id)
        ∷ [])))

refuse : Env → Value → Exec (Unit {0})
refuse env content = throw_response env content "Token exchange failed"

accept : Env → Value → Exec (Unit {0})
accept env content = do
  add_event env (
      event EventType.rfc "RFC 6749 Section 4.1.4"
        "Access Token Response - Tokens received from authorization server"
        (some "RFC 6749 Section 4.1.4") [])
  process_token_response env content

unfoldable pub exchange_code_for_tokens : Env → CodeConfig → String → Exec (Unit {0})
unfolding add_event get_state when request_body post_token accept refuse throw_response
    process_token_response
exchange_code_for_tokens env c code = do
  add_event env (
      event EventType.rfc "RFC 6749 Section 4.1.3"
        "Access Token Request - Exchanging authorization code for tokens"
        (some "RFC 6749 Section 4.1.3") [])
  s ← get_state
  when (c.use_pkce && is_present s.security_params.code_verifier) (
      add_event env (
        event EventType.crypto "PKCE Verification (RFC 7636)"
          "Sending code_verifier for server-side validation" (some "RFC 7636 Section 4.5")
          (("note", str "Server will hash this and compare with code_challenge") ∷ [])))
  (response, content) ←
      post_token env c.config (request_body c s.security_params code) "Token Exchange Request"
        "RFC 6749 Section 4.1.3"
  if is_ok response then accept env content else refuse env content

abbrev one_if : Bool → ℕ
one_if true = 1
one_if false = 0

abbrev is_truthy : Option Value → Bool
is_truthy o = elim o [ none ↦ false | some v ↦ truthy v ]

-- `Object.keys(tokens).filter(k => tokens[k]).length`
unfoldable pub count_tokens : Tokens → ℕ
unfolding truthy
count_tokens t =
    one_if (is_present t.access_token)
    + one_if (is_present t.id_token)
    + one_if (is_present t.refresh_token)
    + one_if (is_present t.token_type)
    + one_if (is_truthy t.expires_in)
    + one_if (is_present t.scope)

-- The end of the `try` block, which counts the tokens that it reports.
unfoldable pub conclude : Env → Exec (Unit {0})
unfolding update_state get_state add_event concat count_tokens
conclude env = do
  update_state (λ s. record s { status = completed; current_step = "Flow completed successfully" })
  s ← get_state
  add_event env (
      event EventType.info "Authorization Code Flow Complete"
        (concat
          ("Successfully obtained " ∷ env.to_text (num (count_tokens s.tokens)) ∷ " token(s)" ∷ []))
        (some "RFC 6749 Section 4.1") [])

unfoldable pub finish : Env → CodeConfig → String → Exec (Unit {0})
unfolding update_state exchange_code_for_tokens conclude
finish env c code = do
  update_state (λ s. record s { status = executing; current_step = "Exchanging code for tokens" })
  exchange_code_for_tokens env c code
  conclude env

-- With a valid state: the code, whose `substring` raises if it is no text.
receive_code : Env → CodeConfig → Value → Value → Exec (Unit {0})
receive_code env c code state = do
  add_event env (
      event EventType.security "State Parameter Validated"
        "CSRF protection - state matches original value" (some "RFC 6749 Section 10.12")
        (("state", state) ∷ []))
  code_text ← or_throw env.type_error (as_string code)
  add_event env (
      event EventType.rfc "RFC 6749 Section 4.1.2"
        "Authorization Response - Received authorization code" (some "RFC 6749 Section 4.1.2")
        (("code", str (concat (take_text 10 code_text ∷ "..." ∷ []))) ∷ ("state", state) ∷ []))
  finish env c code_text

-- After the callback: the state check.
unfoldable pub use_callback : Env → CodeConfig → Value → Value → Exec (Unit {0})
unfolding receive_code finish exchange_code_for_tokens update_state get_state add_event concat
    count_tokens as_string same_state take_text
use_callback env c code state = do
  s ← get_state
  if same_state state s.security_params.state
      then receive_code env c code state
      else throw "State mismatch - possible CSRF attack"

-- From the authorization URL to the callback.
unfoldable pub after_params : Env → CodeConfig → Exec (Value × Value)
unfolding get_state build_authorization_url add_event update_state join open_authorization_popup
after_params env c = do
  s ← get_state
  let url : String = build_authorization_url env c s.security_params
  add_event env (
      event EventType.rfc "RFC 6749 Section 4.1.1"
        "Authorization Request - Client constructs authorization URL"
        (some "RFC 6749 Section 4.1.1")
        (("response_type", str "code")
          ∷ ("client_id", str c.config.client_id)
          ∷ ("redirect_uri", opt_str c.config.redirect_uri)
          ∷ ("scope", str (join " " c.config.scopes))
          ∷ ("state", opt_str s.security_params.state)
          ∷ []))
  update_state
      (λ s. record s { status = awaiting_user; current_step = "Awaiting user authorization" })
  open_authorization_popup env url

-- The `try` block up to the callback.
unfoldable pub authorize : Env → CodeConfig → Exec (Value × Value)
unfolding generate_security_params after_params
authorize env c = do generate_security_params env c; after_params env c

-- The `try` block.
unfoldable pub attempt : Env → CodeConfig → Exec (Unit {0})
unfolding authorize use_callback
attempt env c = do (code, state) ← authorize env c; use_callback env c code state

-- `execute` after the state has been initialised.
unfoldable pub perform : Env → CodeConfig → Exec (Unit {0})
unfolding add_event guarded concat attempt
perform env c = do
  add_event env (
      event EventType.info "Starting Authorization Code Flow"
        (concat
          ("Per RFC 6749 Section 4.1" ∷ (if c.use_pkce then " with PKCE (RFC 7636)" else "") ∷ []))
        (some "RFC 6749 Section 4.1")
        (("clientId", str c.config.client_id)
          ∷ ("scopes", arr (strings c.config.scopes))
          ∷ ("usePkce", bool c.use_pkce)
          ∷ []))
  guarded env (attempt env c)

abbrev pub flow_type : String
flow_type = "authorization_code"

abbrev pub first_step : String
first_step = "Initiating Authorization Code Flow"

unfoldable pub execute : Env → CodeConfig → Exec (Unit {0})
unfolding begin perform
execute env c = do begin env first_step; perform env c

pub execute_lem :
    (env : Env) (c : CodeConfig) (w : World)
    → execute env c w ≡ perform env c (begun env first_step w)
unfolding execute
execute_lem env c w = begin-then env first_step (perform env c) w
