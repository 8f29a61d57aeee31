-- ===== src/Flows/AuthorizationCode/Steps.antt =====
-- `Respects` for the methods of flows/authorization-code.ts.
use protocol_lens.Prelude.{String, Option, none, some, List, ◌≡◌, refl, All}
use protocol_lens.Js.Value.{Value}
use protocol_lens.Flow.Env.{Env, WindowEvent}
use protocol_lens.Flow.Respects.{
  Rel, Law, Respects, Fine, Respects-bind, Respects-throw, Respects-next_call, StateLaw,
  Respects-set_csrf_state,
}
use protocol_lens.Flow.Steps.{
  step_rules, Respects-add_event, Respects-generate_secure_random, Respects-generate_code_verifier,
  Respects-generate_code_challenge, Respects-await_callback,
}
use protocol_lens.Flows.Grant.Steps.{Respects-guarded}
use protocol_lens.Flows.AuthorizationCode.Authorize.{
  CodeConfig, generate_state, generate_pkce, generate_nonce, more_params, generate_security_params,
  deny, read_callback, with_popup, open_authorization_popup,
}
use protocol_lens.Flows.AuthorizationCode.{
  refuse, accept, exchange_code_for_tokens, finish, receive_code, use_callback, authorize,
  after_params, attempt, perform,
}

module _ {env : Env} {R : Rel} (law : Law env R) where
  Respects-generate_pkce : Respects R (generate_pkce env)
  unfolding generate_pkce
  Respects-generate_pkce =
      search (step_rules, Respects-generate_code_verifier, Respects-generate_code_challenge) depth 7

  Respects-generate_nonce : Respects R (generate_nonce env)
  unfolding generate_nonce
  Respects-generate_nonce = search (step_rules, Respects-generate_secure_random)

  pub Respects-more_params : (c : CodeConfig) → Respects R (more_params env c)
  unfolding more_params
  Respects-more_params c = search (step_rules, Respects-generate_pkce, Respects-generate_nonce)

  Respects-deny : (code description : Value) → Respects R (deny env code description)
  unfolding deny
  Respects-deny code description = search step_rules

  Respects-read_callback : (content : Value) → Respects R (read_callback env content)
  unfolding read_callback
  Respects-read_callback content = search (step_rules, Respects-deny) depth 9

  Respects-with_popup :
      (url : String) (o : Option (List WindowEvent))
      → ((events : List WindowEvent) → o ≡ some events → All (Fine env R) events)
      → Respects R (with_popup env url o)
  unfolding with_popup
  Respects-with_popup url none fine = Respects-throw law _
  Respects-with_popup url (some events) fine =
      let waits = Respects-await_callback law "oauth_callback" events (fine events refl) in
      Respects-bind law _ _ (Respects-add_event law _)
        (λ _. Respects-bind law _ _ waits Respects-read_callback)

  Respects-open_authorization_popup : (url : String) → Respects R (open_authorization_popup env url)
  unfolding open_authorization_popup
  Respects-open_authorization_popup url =
      Respects-bind law _ _ (Respects-next_call law)
        (λ n. Respects-with_popup url (env.popup n url) (law.popup n url))

  Respects-refuse : (content : Value) → Respects R (refuse env content)
  unfolding refuse
  Respects-refuse content = search step_rules

  Respects-accept : (content : Value) → Respects R (accept env content)
  unfolding accept
  Respects-accept content = search step_rules

  Respects-exchange_code_for_tokens :
      (c : CodeConfig) (code : String) → Respects R (exchange_code_for_tokens env c code)
  unfolding exchange_code_for_tokens
  Respects-exchange_code_for_tokens c code =
      search (step_rules, Respects-refuse, Respects-accept) depth 9

  Respects-finish : (c : CodeConfig) (code : String) → Respects R (finish env c code)
  unfolding finish
  Respects-finish c code = search (step_rules, Respects-exchange_code_for_tokens) depth 9

  Respects-receive_code :
      (c : CodeConfig) (code state : Value) → Respects R (receive_code env c code state)
  unfolding receive_code
  Respects-receive_code c code state = search (step_rules, Respects-finish) depth 7

  Respects-use_callback :
      (c : CodeConfig) (code state : Value) → Respects R (use_callback env c code state)
  unfolding use_callback
  Respects-use_callback c code state = search (step_rules, Respects-receive_code) depth 7

  pub Respects-after_params : (c : CodeConfig) → Respects R (after_params env c)
  unfolding after_params
  Respects-after_params c = search (step_rules, Respects-open_authorization_popup) depth 9

  module _ (sets : StateLaw R) where
    Respects-generate_state : Respects R (generate_state env)
    unfolding generate_state
    Respects-generate_state =
        search (step_rules, Respects-generate_secure_random, Respects-set_csrf_state)

    Respects-generate_security_params :
        (c : CodeConfig) → Respects R (generate_security_params env c)
    unfolding generate_security_params
    Respects-generate_security_params c =
        search (step_rules, Respects-generate_state, Respects-more_params)

    Respects-authorize : (c : CodeConfig) → Respects R (authorize env c)
    unfolding authorize
    Respects-authorize c =
        search (step_rules, Respects-generate_security_params, Respects-after_params)

    pub Respects-perform : (c : CodeConfig) → Respects R (perform env c)
    unfolding perform attempt
    Respects-perform c =
        search (step_rules, Respects-guarded, Respects-authorize, Respects-use_callback) depth 7
