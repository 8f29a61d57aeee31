-- ===== src/Flows/AuthorizationCode/Authorize.antt =====
-- The authorization request of flows/authorization-code.ts and its callback.
use protocol_lens.Prelude.{
  ℕ, ◌-◌, String, Bool, true, false, Option, none, some, List, [], ◌∷◌, if◌then◌else◌, join, concat,
  take_text, drop_text, length, codes,
}
use protocol_lens.Js.Value.{Value, num, str, get_prop, truthy, or_else}
use protocol_lens.Js.Params
use protocol_lens.Js.Params.{Params}
use protocol_lens.Flow.State.{EventType, Config, SecurityParams}
use protocol_lens.Flow.Env.{Env, WindowEvent}
use protocol_lens.Flow.Exec.{
  Exec, pure, throw, ◌>>=◌, ◌>>◌, or_throw, update_state, set_csrf_state, next_call, when,
}
use protocol_lens.Flow.Base.{event, add_event, message_of}
use protocol_lens.Flow.Random.{
  generate_secure_random, generate_code_verifier, generate_code_challenge,
}
use protocol_lens.Flow.Popup.{await_callback}
use protocol_lens.Flows.Grant.{present, set_present}

pub record CodeConfig : Type 0 where
  pub config : Config
  pub use_pkce : Bool
  pub include_nonce : Bool

unfoldable pub generate_state : Env → Exec (Unit {0})
generate_state env = do
  state ← generate_secure_random env 16
  set_csrf_state state
  add_event env (
      event EventType.security "State Parameter Generated"
        "Random value for CSRF protection per RFC 6749 Section 10.12"
        (some "RFC 6749 Section 10.12") (("state", str state) ∷ []))

abbrev pub text_length : String → ℕ
text_length s = length (codes s)

unfoldable pub generate_pkce : Env → Exec (Unit {0})
generate_pkce env = do
  verifier ← generate_code_verifier env
  challenge ← generate_code_challenge env verifier
  update_state (λ s. record s {
    security_params = record s.security_params {
      code_verifier = some verifier;
      code_challenge = some challenge;
    };
  })
  add_event env (
      event EventType.crypto "PKCE Parameters Generated (RFC 7636)"
        "code_verifier (secret) and code_challenge (public hash)" (some "RFC 7636 Section 4.1-4.2")
        ((
          "codeVerifier",
          str (
              concat (
                take_text 8 verifier ∷ "..." ∷ drop_text (text_length verifier - 8) verifier ∷ [])),
        )
          ∷ ("codeVerifierLength", num (text_length verifier))
          ∷ ("codeChallenge", str challenge)
          ∷ ("codeChallengeMethod", str "S256")
          ∷ []))

unfoldable pub generate_nonce : Env → Exec (Unit {0})
generate_nonce env = do
  nonce ← generate_secure_random env 16
  update_state (λ s. record s { security_params = record s.security_params { nonce = some nonce } })
  add_event env (
      event EventType.security "Nonce Generated (OIDC)" "Random value to prevent replay attacks"
        (some "OIDC Core 1.0 Section 3.1.2.1") (("nonce", str nonce) ∷ []))

-- The optional parameters, after the state.
unfoldable pub more_params : Env → CodeConfig → Exec (Unit {0})
unfolding generate_pkce generate_nonce generate_secure_random generate_code_verifier
    generate_code_challenge update_state add_event when take_text drop_text concat
more_params env c = do
  when c.use_pkce (generate_pkce env)
  when c.include_nonce (generate_nonce env)

unfoldable pub generate_security_params : Env → CodeConfig → Exec (Unit {0})
unfolding generate_state generate_secure_random set_csrf_state add_event more_params
generate_security_params env c = do generate_state env; more_params env c

-- `undefined` as a URL parameter is the text "undefined".
abbrev pub param_text : Option String → String
param_text none = "undefined"
param_text (some s) = s

abbrev pub set_challenge : Bool → Option String → Params → Params
set_challenge false o ps = ps
set_challenge true o ps = elim (present o) [
  | none ↦ ps
  | some challenge ↦
      Params.set "code_challenge_method" "S256" (Params.set "code_challenge" challenge ps)
]

abbrev pub set_extra : Option Params → Params → Params
set_extra none ps = ps
set_extra (some extra) ps = Params.set_all extra ps

-- The parameters of `buildAuthorizationUrl`.
unfoldable pub authorization_params : CodeConfig → SecurityParams → Params
unfolding Params.set Params.set_all join
authorization_params c p = set_extra c.config.extra_params (
    set_present "nonce" p.nonce (
      set_challenge c.use_pkce p.code_challenge (
        set_present "redirect_uri" c.config.redirect_uri (
          ("response_type", "code")
          ∷ ("client_id", c.config.client_id)
          ∷ ("scope", join " " c.config.scopes)
          ∷ ("state", param_text p.state)
          ∷ []))))

unfoldable pub build_authorization_url : Env → CodeConfig → SecurityParams → String
unfolding authorization_params concat
build_authorization_url env c p =
    concat (c.config.base_url ∷ "/authorize?" ∷ env.encode_params (authorization_params c p) ∷ [])

-- `const { code, state, error, error_description } = event.data`
unfoldable pub deny : Env → Value → Value → Exec (Value × Value)
deny env code description = do
  let message : String = message_of env (or_else description code)
  add_event env (
      event EventType.error "Authorization Denied" message (some "RFC 6749 Section 4.1.2.1")
        (("error", code) ∷ ("error_description", description) ∷ []))
  throw message

unfoldable pub read_callback : Env → Value → Exec (Value × Value)
unfolding deny get_prop or_else truthy message_of add_event
read_callback env content = do
  code ← or_throw env.type_error (get_prop content "code")
  state ← or_throw env.type_error (get_prop content "state")
  error_code ← or_throw env.type_error (get_prop content "error")
  description ← or_throw env.type_error (get_prop content "error_description")
  if truthy error_code then deny env error_code description else pure (code, state)

unfoldable pub with_popup : Env → String → Option (List WindowEvent) → Exec (Value × Value)
with_popup env url none = throw "Popup blocked - please allow popups for this site"
with_popup env url (some events) = do
  add_event env (
      event EventType.user_action "Authorization Window Opened"
        "User must authenticate and authorize the application" none (("url", str url) ∷ []))
  content ← await_callback env "oauth_callback" events
  read_callback env content

unfoldable pub open_authorization_popup : Env → String → Exec (Value × Value)
unfolding with_popup next_call await_callback read_callback add_event
open_authorization_popup env url = do n ← next_call; with_popup env url (env.popup n url)
