-- ===== src/Flows/DeviceCode.antt =====
-- `DeviceCodeExecutor` of flows/device-code.ts (RFC 8628). A poll is taken to be answered before the
-- interval timer fires again, or never.
pub mod Poll
pub mod Steps
pub mod Ends
use protocol_lens.Prelude.{ℕ, ◌≡◌, String, Option, none, some, List, [], ◌∷◌, concat, if◌then◌else◌}
use protocol_lens.Js.Value.{Value, undefined, str, arr, strings, get_prop, or_else}
use protocol_lens.Js.Params.{Params}
use protocol_lens.Flow.State.{
  EventType, Status, awaiting_user, Config, FlowState, SecurityParams, form,
}
use protocol_lens.Flow.Env.{Env, RawResponse}
use protocol_lens.Flow.Exec.{Exec, World, pure, ◌>>=◌, ◌>>◌, or_throw, update_state}
use protocol_lens.Flow.Base.{
  event, add_event, begin, begun, begin-then, make_request, throw_response, message_of, is_ok,
}
use protocol_lens.Flows.Grant.{set_scope, guarded, complete}
use protocol_lens.Flows.DeviceCode.Poll.{DeviceConfig, DeviceAuth, poll_interval, poll_for_token}

-- The members of the response that the flow reads.
read_auth : Env → Value → Exec DeviceAuth
unfolding get_prop
read_auth env content = do
  user_code ← or_throw env.type_error (get_prop content "user_code")
  uri ← or_throw env.type_error (get_prop content "verification_uri")
  complete_uri ← or_throw env.type_error (get_prop content "verification_uri_complete")
  expires_in ← or_throw env.type_error (get_prop content "expires_in")
  interval ← or_throw env.type_error (get_prop content "interval")
  device_code ← or_throw env.type_error (get_prop content "device_code")
  let auth : DeviceAuth = record {
    device_code = device_code;
    user_code = user_code;
    verification_uri = uri;
    verification_uri_complete = complete_uri;
    expires_in = expires_in;
    interval = interval;
  }
  pure auth

refuse : Env → Value → Exec DeviceAuth
refuse env content = throw_response env content "Device authorization request failed"

accept : Env → DeviceConfig → Value → Exec DeviceAuth
accept env c content = do
  auth ← read_auth env content
  add_event env (
      event EventType.rfc "RFC 8628 Section 3.2" "Device Authorization Response received"
        (some "RFC 8628 Section 3.2")
        (("user_code", auth.user_code)
          ∷ ("verification_uri", auth.verification_uri)
          ∷ ("expires_in", auth.expires_in)
          ∷ ("interval", or_else auth.interval (poll_interval c))
          ∷ []))
  pure auth

-- The form of the device authorization request.
unfoldable pub request_body : Config → Params
request_body c = set_scope c.scopes (("client_id", c.client_id) ∷ [])

unfoldable pub request_device_authorization : Env → DeviceConfig → Exec DeviceAuth
unfolding add_event make_request refuse accept read_auth throw_response request_body concat or_else
request_device_authorization env c = do
  add_event env (
      event EventType.rfc "RFC 8628 Section 3.1"
        "Device Authorization Request - Requesting device and user codes"
        (some "RFC 8628 Section 3.1") [])
  (response, content) ←
      make_request env "POST" (concat (c.config.base_url ∷ "/device/authorize" ∷ [])) []
        (some (form (request_body c.config))) "Device Authorization Request"
        (some "RFC 8628 Section 3.1")
  if is_ok response then accept env c content else refuse env content

-- The text of a member of the response.
abbrev text_of : Env → Value → String
text_of env v = message_of env v

-- A member of the response where the state holds a text.
abbrev opt_text : Env → Value → Option String
opt_text env undefined = none
opt_text env v = some (text_of env v)

-- The codes are shown to the user, and the device code is kept.
unfoldable pub show_codes : Env → DeviceAuth → Exec (Unit {0})
unfolding add_event update_state concat message_of
show_codes env auth = do
  add_event env (
      event EventType.user_action "User Action Required"
        (concat (
          "Visit "
          ∷ text_of env auth.verification_uri
          ∷ " and enter code: "
          ∷ text_of env auth.user_code
          ∷ []))
        (some "RFC 8628 Section 3.3")
        (("verification_uri", auth.verification_uri)
          ∷ ("verification_uri_complete", auth.verification_uri_complete)
          ∷ ("user_code", auth.user_code)
          ∷ ("expires_in", auth.expires_in)
          ∷ []))
  update_state (λ s. record s {
    status = awaiting_user;
    current_step = concat (
        "Enter code "
        ∷ text_of env auth.user_code
        ∷ " at "
        ∷ text_of env auth.verification_uri
        ∷ []);
    security_params = record s.security_params { device_code = opt_text env auth.device_code };
  })

-- The `try` block, in which the interval timer fires `ticks` times.
unfoldable pub attempt : Env → ℕ → DeviceConfig → Exec (Unit {0})
unfolding request_device_authorization show_codes poll_for_token complete
attempt env ticks c = do
  auth ← request_device_authorization env c
  show_codes env auth
  poll_for_token env ticks c auth
  complete env "Flow completed successfully" "Device Authorization Flow Complete"
      "User authorized the device" "RFC 8628"

-- `execute` after the state has been initialised.
unfoldable pub perform : Env → ℕ → DeviceConfig → Exec (Unit {0})
unfolding add_event guarded attempt
perform env ticks c = do
  add_event env (
      event EventType.info "Starting Device Authorization Flow"
        "For devices with limited input capabilities" (some "RFC 8628")
        (("clientId", str c.config.client_id)
          ∷ ("scopes", arr (strings c.config.scopes))
          ∷ ("useCase", str "Smart TVs, CLI tools, IoT devices, gaming consoles")
          ∷ []))
  guarded env (attempt env ticks c)

abbrev pub flow_type : String
flow_type = "device_code"

abbrev pub first_step : String
first_step = "Initiating Device Authorization Flow"

unfoldable pub execute : Env → ℕ → DeviceConfig → Exec (Unit {0})
unfolding begin perform
execute env ticks c = do begin env first_step; perform env ticks c

pub execute_lem :
    (env : Env) (ticks : ℕ) (c : DeviceConfig) (w : World)
    → execute env ticks c w ≡ perform env ticks c (begun env first_step w)
unfolding execute
execute_lem env ticks c w = begin-then env first_step (perform env ticks c) w
