-- ===== src/Flows/Hybrid/Authorize.antt =====
-- The authorization request of flows/oidc-hybrid.ts and its callback. The callback page posts texts.
use protocol_lens.Prelude.{
  String, Bool, true, false, Option, none, some, List, [], ◌∷◌, ◌++◌, str_eq, includes,
  if◌then◌else◌, join, concat,
}
use protocol_lens.Js.Value.{Value, str, get_prop, truthy, or_else, as_string}
use protocol_lens.Js.Params
use protocol_lens.Js.Params.{Params}
use protocol_lens.Flow.State.{EventType, Config, SecurityParams, no_params}
use protocol_lens.Flow.Env.{Env, WindowEvent}
use protocol_lens.Flow.Exec.{
  Exec, pure, throw, ◌>>=◌, ◌>>◌, or_throw, update_state, next_call, when,
}
use protocol_lens.Flow.Base.{event, add_event, message_of}
use protocol_lens.Flow.Random.{
  generate_secure_random, generate_code_verifier, generate_code_challenge,
}
use protocol_lens.Flow.Popup.{await_callback}
use protocol_lens.Flows.Grant.{present, set_present}

pub data HybridType : Type 0 where
  code_id_token code_token code_id_token_token : HybridType

pub record HybridConfig : Type 0 where
  pub config : Config
  pub response_type : HybridType
  pub use_pkce : Option Bool

abbrev pub response_text : HybridType → String
response_text code_id_token = "code id_token"
response_text code_token = "code token"
response_text code_id_token_token = "code id_token token"

-- `usePkce ?? true`
abbrev pub uses_pkce : HybridConfig → Bool
uses_pkce c = elim c.use_pkce [ none ↦ true | some b ↦ b ]

abbrev pub has_text : String → List String → Bool
has_text t [] = false
has_text t (s ∷ ss) = if str_eq s t then true else has_text t ss

abbrev pub with_openid : List String → List String
with_openid scopes = if has_text "openid" scopes then scopes else "openid" ∷ scopes

-- The configuration that the constructor leaves.
abbrev pub config_of : HybridConfig → Config
config_of c = record c.config { scopes = with_openid c.config.scopes }

abbrev listed : Bool → String → List String
listed true name = name ∷ []
listed false name = []

-- `getTokensFromAuthzEndpoint`
unfoldable pub tokens_from_authz_endpoint : HybridType → List String
unfolding includes
tokens_from_authz_endpoint t =
    "code"
    ∷ (listed (includes (response_text t) "id_token") "id_token"
        ++ listed (includes (response_text t) "token") "access_token")

-- `securityParams: { state, nonce }`
abbrev pub fresh_params : String → String → SecurityParams
fresh_params state nonce = record no_params { state = some state; nonce = some nonce }

unfoldable pub set_fresh : Env → String → String → Exec (Unit {0})
unfolding update_state add_event
set_fresh env state nonce = do
  update_state (λ s. record s { security_params = fresh_params state nonce })
  add_event env (
      event EventType.security "Security Parameters Generated"
        "State and nonce for CSRF and replay protection" none
        (("state", str state) ∷ ("nonce", str nonce) ∷ []))

unfoldable pub generate_state : Env → Exec (Unit {0})
unfolding generate_secure_random set_fresh
generate_state env = do
  state ← generate_secure_random env 16
  nonce ← generate_secure_random env 16
  set_fresh env state nonce

unfoldable pub generate_pkce : Env → Exec (Unit {0})
unfolding generate_code_verifier generate_code_challenge update_state add_event
generate_pkce env = do
  verifier ← generate_code_verifier env
  challenge ← generate_code_challenge env verifier
  update_state (λ s. record s {
    security_params = record s.security_params {
      code_verifier = some verifier;
      code_challenge = some challenge;
    };
  })
  add_event env (
      event EventType.crypto "PKCE Parameters Generated" "Additional security for code exchange"
        (some "RFC 7636") (("codeChallenge", str challenge) ∷ []))

unfoldable pub generate_security_params : Env → HybridConfig → Exec (Unit {0})
unfolding generate_state generate_pkce when
generate_security_params env c = do generate_state env; when (uses_pkce c) (generate_pkce env)

-- `undefined` as a URL parameter is the text "undefined".
abbrev param_text : Option String → String
param_text none = "undefined"
param_text (some s) = s

abbrev set_challenge : Bool → Option String → Params → Params
set_challenge false o ps = ps
set_challenge true o ps = elim (present o) [
  | none ↦ ps
  | some challenge ↦
      Params.set "code_challenge_method" "S256" (Params.set "code_challenge" challenge ps)
]

-- The parameters of `buildAuthorizationUrl`.
unfoldable pub authorization_params : HybridConfig → SecurityParams → Params
unfolding Params.set join
authorization_params c p =
    let config = config_of c in
    set_challenge (uses_pkce c) p.code_challenge (
      set_present "redirect_uri" config.redirect_uri (
        ("response_type", response_text c.response_type)
        ∷ ("client_id", config.client_id)
        ∷ ("scope", join " " config.scopes)
        ∷ ("state", param_text p.state)
        ∷ ("nonce", param_text p.nonce)
        ∷ ("response_mode", "fragment")
        ∷ []))

unfoldable pub build_authorization_url : Env → HybridConfig → SecurityParams → String
unfolding authorization_params concat
build_authorization_url env c p =
    concat (c.config.base_url ∷ "/authorize?" ∷ env.encode_params (authorization_params c p) ∷ [])

-- The members of the callback that the flow reads.
pub record Callback : Type 0 where
  pub code : Option String
  pub access_token : Option String
  pub id_token : Option String
  pub state : Value

-- `const { error, error_description, ...tokens } = event.data`
unfoldable pub read_callback : Env → Value → Exec Callback
unfolding get_prop or_else truthy as_string message_of
read_callback env content = do
  code ← or_throw env.type_error (get_prop content "code")
  access ← or_throw env.type_error (get_prop content "access_token")
  id ← or_throw env.type_error (get_prop content "id_token")
  state ← or_throw env.type_error (get_prop content "state")
  error_code ← or_throw env.type_error (get_prop content "error")
  description ← or_throw env.type_error (get_prop content "error_description")
  let callback : Callback = record {
    code = as_string code;
    access_token = as_string access;
    id_token = as_string id;
    state = state;
  }
  if truthy error_code
      then throw (message_of env (or_else description error_code))
      else pure callback

unfoldable pub with_popup : Env → Option (List WindowEvent) → Exec Callback
unfolding add_event await_callback read_callback
with_popup env none = throw "Popup blocked"
with_popup env (some events) = do
  add_event env (
      event EventType.user_action "Authorization Window Opened"
        "User must authenticate and authorize" none [])
  content ← await_callback env "oidc_hybrid_callback" events
  read_callback env content

unfoldable pub open_authorization_popup : Env → String → Exec Callback
unfolding next_call with_popup
open_authorization_popup env url = do n ← next_call; with_popup env (env.popup n url)
