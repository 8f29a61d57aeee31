-- ===== src/Flows/Implicit/Authorize.antt =====
-- The authorization request of flows/implicit.ts and its callback. The callback page posts texts: it
-- reads them from the URL's fragment.
use protocol_lens.Prelude.{
  String, Bool, true, false, ◌||◌, Option, none, some, List, [], ◌∷◌, if◌then◌else◌, join, concat,
}
use protocol_lens.Js.Value.{Value, str, get_prop, truthy, or_else, as_string}
use protocol_lens.Js.Params
use protocol_lens.Js.Params.{Params}
use protocol_lens.Flow.State.{EventType, Config, SecurityParams}
use protocol_lens.Flow.Env.{Env, WindowEvent}
use protocol_lens.Flow.Exec.{
  Exec, pure, throw, ◌>>=◌, ◌>>◌, or_throw, update_state, set_csrf_state, next_call, when,
}
use protocol_lens.Flow.Base.{event, add_event, message_of}
use protocol_lens.Flow.Random.{generate_secure_random}
use protocol_lens.Flow.Popup.{await_callback}
use protocol_lens.Flows.Grant.{set_present}

pub data ResponseType : Type 0 where
  token id_token id_token_token : ResponseType

pub record ImplicitConfig : Type 0 where
  pub config : Config
  pub include_nonce : Bool
  pub response_type : Option ResponseType

-- The constructor's default.
abbrev pub response_type : ImplicitConfig → ResponseType
response_type c = elim c.response_type [ none ↦ token | some t ↦ t ]

abbrev pub response_text : ResponseType → String
response_text token = "token"
response_text id_token = "id_token"
response_text id_token_token = "id_token token"

-- `includeNonce || responseType?.includes('id_token')`
abbrev pub asks_id_token : ResponseType → Bool
asks_id_token token = false
asks_id_token _ = true

abbrev pub needs_nonce : ImplicitConfig → Bool
needs_nonce c = c.include_nonce || asks_id_token (response_type c)

unfoldable pub generate_state : Env → Exec (Unit {0})
generate_state env = do
  state ← generate_secure_random env 16
  set_csrf_state state
  add_event env (
      event EventType.security "State Parameter Generated" "Random value for CSRF protection"
        (some "RFC 6749 Section 10.12") (("state", str state) ∷ []))

unfoldable pub generate_nonce : Env → Exec (Unit {0})
generate_nonce env = do
  nonce ← generate_secure_random env 16
  update_state (λ s. record s { security_params = record s.security_params { nonce = some nonce } })
  add_event env (
      event EventType.security "Nonce Generated (OIDC)"
        "Required when requesting id_token to prevent replay attacks"
        (some "OIDC Core 1.0 Section 3.2.2.1") (("nonce", str nonce) ∷ []))

-- The optional parameter, after the state.
unfoldable pub more_params : Env → ImplicitConfig → Exec (Unit {0})
unfolding generate_nonce generate_secure_random update_state add_event when
more_params env c = when (needs_nonce c) (generate_nonce env)

unfoldable pub generate_security_params : Env → ImplicitConfig → Exec (Unit {0})
unfolding generate_state generate_secure_random set_csrf_state add_event more_params
generate_security_params env c = do generate_state env; more_params env c

abbrev pub param_text : Option String → String
param_text none = "undefined"
param_text (some s) = s

abbrev pub set_extra : Option Params → Params → Params
set_extra none ps = ps
set_extra (some extra) ps = Params.set_all extra ps

-- The parameters of `buildAuthorizationUrl`.
unfoldable pub authorization_params : ImplicitConfig → SecurityParams → Params
unfolding Params.set Params.set_all join
authorization_params c p = set_extra c.config.extra_params (
    set_present "nonce" p.nonce (
      set_present "redirect_uri" c.config.redirect_uri (
        ("response_type", response_text (response_type c))
        ∷ ("client_id", c.config.client_id)
        ∷ ("scope", join " " c.config.scopes)
        ∷ ("state", param_text p.state)
        ∷ [])))

unfoldable pub build_authorization_url : Env → ImplicitConfig → SecurityParams → String
unfolding authorization_params concat
build_authorization_url env c p =
    concat (c.config.base_url ∷ "/authorize?" ∷ env.encode_params (authorization_params c p) ∷ [])

-- The members of the callback that the flow reads.
pub record Fragment : Type 0 where
  pub access_token : Option String
  pub id_token : Option String
  pub token_type : Value
  pub expires_in : Value
  pub state : Value

unfoldable pub deny : Env → Value → Value → Exec Fragment
deny env code description = do
  let message : String = message_of env (or_else description code)
  add_event env
      (event EventType.error "Authorization Denied" message (some "RFC 6749 Section 4.2.2.1") [])
  throw message

unfoldable pub grant : Env → Fragment → Exec Fragment
grant env fragment = do
  add_event env (
      event EventType.rfc "RFC 6749 Section 4.2.2"
        "Access Token Response - Token received in URL fragment" (some "RFC 6749 Section 4.2.2")
        (("location", str "URL fragment (after #)")
          ∷ ("note", str "Fragment is NOT sent to server - only accessible to browser")
          ∷ []))
  pure fragment

-- `const { error, error_description, ...tokens } = event.data`
unfoldable pub read_callback : Env → Value → Exec Fragment
unfolding deny grant get_prop or_else truthy as_string message_of add_event
read_callback env content = do
  access ← or_throw env.type_error (get_prop content "access_token")
  id ← or_throw env.type_error (get_prop content "id_token")
  kind ← or_throw env.type_error (get_prop content "token_type")
  expires ← or_throw env.type_error (get_prop content "expires_in")
  state ← or_throw env.type_error (get_prop content "state")
  error_code ← or_throw env.type_error (get_prop content "error")
  description ← or_throw env.type_error (get_prop content "error_description")
  let fragment : Fragment = record {
    access_token = as_string access;
    id_token = as_string id;
    token_type = kind;
    expires_in = expires;
    state = state;
  }
  if truthy error_code then deny env error_code description else grant env fragment

unfoldable pub with_popup : Env → Option (List WindowEvent) → Exec Fragment
with_popup env none = throw "Popup blocked"
with_popup env (some events) = do
  add_event env (
      event EventType.user_action "Authorization Window Opened"
        "User must authenticate and authorize" none [])
  content ← await_callback env "oauth_implicit_callback" events
  read_callback env content

unfoldable pub open_authorization_popup : Env → String → Exec Fragment
unfolding with_popup next_call await_callback read_callback add_event
open_authorization_popup env url = do n ← next_call; with_popup env (env.popup n url)
