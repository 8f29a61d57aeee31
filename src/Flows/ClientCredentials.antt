-- ===== src/Flows/ClientCredentials.antt =====
-- `ClientCredentialsExecutor` of flows/client-credentials.ts (RFC 6749, section 4.4).
pub mod Steps
pub mod Ends
use protocol_lens.Prelude.{
  ◌≡◌, String, Bool, true, false, Option, none, some, List, [], ◌∷◌, str_eq, if◌then◌else◌, join,
}
use protocol_lens.Js.Value.{Value, str, bool, arr, strings, as_payload}
use protocol_lens.Js.Params
use protocol_lens.Js.Params.{Params}
use protocol_lens.Flow.State.{EventType, Status, Config, FlowState, FlowError}
use protocol_lens.Flow.Env.{Env, RawResponse}
use protocol_lens.Flow.Exec.{Exec, World, pure, ◌>>=◌, ◌>>◌, update_state}
use protocol_lens.Flow.Base.{event, add_event, begin, begun, begin-then, throw_response, is_ok}
use protocol_lens.Flow.Tokens.{process_token_response}
use protocol_lens.Flows.Grant.{present, set_scope, post_token, guarded, complete}

-- The form of the token request.
unfoldable pub request_body : Config → String → Params
unfolding Params.set join
request_body c secret = set_scope c.scopes (
    ("grant_type", "client_credentials")
    ∷ ("client_id", c.client_id)
    ∷ ("client_secret", secret)
    ∷ [])

refuse : Env → Value → Exec (Unit {0})
refuse env content = do
  add_event env (
      event EventType.rfc "RFC 6749 Section 5.2" "Error Response - Token request failed"
        (some "RFC 6749 Section 5.2") (as_payload content))
  throw_response env content "Token request failed"

accept : Env → Value → Exec (Unit {0})
accept env content = do
  add_event env (
      event EventType.rfc "RFC 6749 Section 4.4.3" "Access Token Response - Token received"
        (some "RFC 6749 Section 4.4.3")
        (("note", str "No refresh_token in Client Credentials (RFC 6749 Section 4.4.3)") ∷ []))
  process_token_response env content

unfoldable pub request_token : Env → Config → String → Exec (Unit {0})
unfolding update_state request_body post_token refuse accept add_event throw_response as_payload
    process_token_response
request_token env c secret = do
  add_event env (
      event EventType.rfc "RFC 6749 Section 4.4.2"
        "Access Token Request - Client authenticates and requests token"
        (some "RFC 6749 Section 4.4.2")
        (("grant_type", str "client_credentials")
          ∷ ("authentication", str "client_id + client_secret")
          ∷ []))
  update_state (λ s. record s { current_step = "Requesting access token" })
  add_event env (
      event EventType.security "Client Authentication"
        "Sending client credentials (client_id + client_secret)" (some "RFC 6749 Section 2.3.1")
        (("method", str "POST body (application/x-www-form-urlencoded)")
          ∷ ("note", str "Alternatively could use HTTP Basic Auth")
          ∷ []))
  (response, content) ←
      post_token env c (request_body c secret) "Token Request (Client Credentials)"
        "RFC 6749 Section 4.4.2"
  if is_ok response then accept env content else refuse env content

-- The early return for a client without a secret: no controller and no new initial state.
unfoldable pub refuse_config : Env → Exec (Unit {0})
unfolding update_state add_event
refuse_config env = do
  update_state (λ s. record s {
    status = Status.error;
    current_step = "Configuration Error";
    error = some (record {
      code = "missing_client_secret";
      description = "Client Credentials flow requires a client_secret. Use a confidential client.";
    });
  })
  add_event env (
      event EventType.error "Missing Client Secret"
        "Client Credentials flow requires a confidential client with a client_secret"
        (some "RFC 6749 Section 4.4.2") [])

-- The `try` block.
unfoldable pub attempt : Env → Config → String → Exec (Unit {0})
unfolding request_token complete
attempt env c secret = do
  request_token env c secret
  complete env "Flow completed successfully" "Client Credentials Flow Complete"
      "Access token obtained for client application" "RFC 6749 Section 4.4"

-- `execute` after the state has been initialised.
unfoldable pub perform : Env → Config → String → Exec (Unit {0})
unfolding add_event guarded attempt
perform env c secret = do
  add_event env (
      event EventType.info "Starting Client Credentials Flow"
        "Machine-to-machine authentication without user interaction" (some "RFC 6749 Section 4.4")
        (("clientId", str c.client_id)
          ∷ ("scopes", arr (strings c.scopes))
          ∷ ("note", str "This flow is for confidential clients only")
          ∷ []))
  add_event env (
      event EventType.rfc "RFC 6749 Section 4.4"
        "Client Credentials Grant - Client authenticates directly with authorization server"
        (some "RFC 6749 Section 4.4")
        (("useCase", str "Machine-to-machine, backend services, APIs")
          ∷ ("noUserInvolved", bool true)
          ∷ []))
  guarded env (attempt env c secret)

abbrev pub flow_type : String
flow_type = "client_credentials"

abbrev pub first_step : String
first_step = "Initiating Client Credentials Flow"

unfoldable pub run : Env → Config → String → Exec (Unit {0})
unfolding begin perform
run env c secret = do begin env first_step; perform env c secret

pub run_lem :
    (env : Env) (c : Config) (secret : String) (w : World)
    → run env c secret w ≡ perform env c secret (begun env first_step w)
unfolding run
run_lem env c secret w = begin-then env first_step (perform env c secret) w

abbrev with_secret : Env → Config → Option String → Exec (Unit {0})
with_secret env c none = refuse_config env
with_secret env c (some secret) = run env c secret

unfoldable pub execute : Env → Config → Exec (Unit {0})
unfolding refuse_config run
execute env c = with_secret env c (present c.client_secret)
