-- ===== src/Tests.antt =====
-- A sample browser, server and configuration, and the runs on them.
pub mod Runs
pub mod Requests
pub mod Tokens
pub mod Crypto
pub mod Factory
pub mod Device
pub mod Hybrid
pub mod Hooks
pub mod Sockets
pub mod Session
pub mod Registry
use protocol_lens.Prelude.{
  ℕ, String, Bool, true, false, Option, none, some, List, [], ◌∷◌, replicate,
}
use protocol_lens.Js.Value.{Value, nan, num, str, obj, end, field}
use protocol_lens.Flow.State.{Status, Config, FlowState, FlowError, no_tokens, no_params}
use protocol_lens.Flow.Env.{Env, WindowEvent, message, closed, FetchResult, responded}
use protocol_lens.Flow.Exec.{World, initial_state}
use protocol_lens.Flows.RefreshToken.{RefreshConfig}
use protocol_lens.Flows.ResourceOwner.{OwnerConfig}
use protocol_lens.Flows.AuthorizationCode.Authorize.{CodeConfig}
use protocol_lens.Flows.Implicit.Authorize.{ImplicitConfig}
use protocol_lens.Flows.DeviceCode.Poll.{DeviceConfig}
use protocol_lens.Flows.Hybrid.Authorize.{HybridConfig, code_id_token}

-- The CSRF state that the sample random bytes give.
abbrev pub sample_state : String
sample_state = "07070707070707070707070707070707"

abbrev callback_value : Value
callback_value = obj (
    field "type" (str "oauth_callback")
      (field "code" (str "SplxlOBeZQQYbYS6WxSbIA") (field "state" (str sample_state) end)))

abbrev forged_value : Value
forged_value = obj (field "type" (str "oauth_callback") (field "state" (str "forged") end))

abbrev implicit_value : Value
implicit_value = obj (
    field "type" (str "oauth_implicit_callback")
      (field "access_token" (str "opaque") (field "state" (str sample_state) end)))

abbrev hybrid_value : Value
hybrid_value = obj (
    field "type" (str "oidc_hybrid_callback")
      (field "code" (str "SplxlOBeZQQYbYS6WxSbIA") (field "state" (str sample_state) end)))

abbrev pub hybrid_events : List WindowEvent
hybrid_events = message "https://app.example" hybrid_value ∷ closed ∷ []

-- The authorization window: a message of another origin, then the callbacks.
abbrev pub sample_events : List WindowEvent
sample_events =
    message "https://evil.example" forged_value
    ∷ message "https://app.example" callback_value
    ∷ message "https://app.example" implicit_value
    ∷ closed
    ∷ []

abbrev pub implicit_events : List WindowEvent
implicit_events = message "https://app.example" implicit_value ∷ closed ∷ []

abbrev sample_answer : FetchResult
sample_answer = responded (record {
  status = 200;
  status_text = "OK";
  headers = [];
  content_type = some "application/json";
  body = "{}";
})

-- A browser in which nobody interferes.
abbrev pub sample : List WindowEvent → Env
sample events = record {
  uuid = λ n. "3f0e";
  random = λ n size. replicate size 7;
  now = λ n. n;
  sha256 = λ s. replicate 32 1;
  origin = "https://app.example";
  popup = λ n url. some events;
  fetch = λ n request. sample_answer;
  abort_message = "The operation was aborted";
  others = λ n. [];
  parse_json = λ bytes. some (obj (field "access_token" (str "opaque") end));
  syntax_error = "Unexpected token";
  type_error = "Cannot read properties";
  to_text = λ v. "1";
  coerce = λ v. nan;
  pathname = λ url. some "/token";
  encode_params = λ ps. "q";
}

abbrev pub sample_config : Config
sample_config = record {
  base_url = "https://as.example";
  client_id = "client";
  client_secret = none;
  redirect_uri = some "https://app.example/callback";
  scopes = "openid" ∷ "profile" ∷ [];
  extra_params = some (("prompt", "login") ∷ []);
}

abbrev pub code_config : CodeConfig
code_config = record { config = sample_config; use_pkce = true; include_nonce = true }

abbrev pub implicit_config : ImplicitConfig
implicit_config = record { config = sample_config; include_nonce = false; response_type = none }

abbrev pub device_config : DeviceConfig
device_config = record { config = sample_config; poll_interval = none; max_poll_duration = some 1 }

abbrev pub hybrid_config : HybridConfig
hybrid_config = record { config = sample_config; response_type = code_id_token; use_pkce = none }

abbrev pub refresh_config : RefreshConfig
refresh_config = record { config = sample_config; refresh_token = "tGzv3JOkF0XG5Qx2TlKWIA" }

abbrev pub owner_config : OwnerConfig
owner_config = record { config = sample_config; username = "johndoe"; password = "A3ddj3w" }

abbrev pub stale_error : FlowError
stale_error = record { code = "execution_error"; description = "User closed authorization window" }

-- An executor with one listener whose last run failed.
abbrev pub sample_world : World
sample_world = record {
  flow_type = "authorization_code";
  state = record {
    execution_id = "old";
    flow_type = some "authorization_code";
    status = Status.error;
    current_step = "Flow failed";
    exchanges = [];
    events = [];
    tokens = no_tokens;
    decoded_tokens = [];
    security_params = no_params;
    error = some stale_error;
  };
  listeners = 1 ∷ [];
  delivered = [];
  controller = none;
  calls = 0;
}
