-- ===== src/Flows/Implicit/Steps.antt =====
-- `Respects` for the methods of flows/implicit.ts.
use protocol_lens.Prelude.{String, Option, none, some, List, ◌≡◌, refl, All}
use protocol_lens.Js.Value.{Value}
use protocol_lens.Flow.Env.{Env, WindowEvent}
use protocol_lens.Flow.Respects.{
  Rel, Law, Respects, Fine, Respects-bind, Respects-throw, Respects-next_call, StateLaw,
  Respects-set_csrf_state,
}
use protocol_lens.Flow.Steps.{
  step_rules, Respects-add_event, Respects-generate_secure_random, Respects-await_callback,
  Respects-decode,
}
use protocol_lens.Flows.Grant.Steps.{Respects-guarded, Respects-complete}
use protocol_lens.Flows.Implicit.Authorize.{
  ImplicitConfig, Fragment, generate_state, generate_nonce, more_params, generate_security_params,
  deny, grant, read_callback, with_popup, open_authorization_popup,
}
use protocol_lens.Flows.Implicit.{
  receive_access, receive_id, process_implicit_tokens, finish, use_callback, authorize,
  after_params, attempt, perform,
}

module _ {env : Env} {R : Rel} (law : Law env R) where
  Respects-generate_nonce : Respects R (generate_nonce env)
  unfolding generate_nonce
  Respects-generate_nonce = search (step_rules, Respects-generate_secure_random)

  pub Respects-more_params : (c : ImplicitConfig) → Respects R (more_params env c)
  unfolding more_params
  Respects-more_params c = search (step_rules, Respects-generate_nonce)

  Respects-deny : (code description : Value) → Respects R (deny env code description)
  unfolding deny
  Respects-deny code description = search step_rules

  Respects-grant : (f : Fragment) → Respects R (grant env f)
  unfolding grant
  Respects-grant f = search step_rules

  Respects-read_callback : (content : Value) → Respects R (read_callback env content)
  unfolding read_callback
  Respects-read_callback content =
      search (step_rules, Respects-deny, Respects-grant) depth 14 fits 20000

  Respects-with_popup :
      (o : Option (List WindowEvent))
      → ((events : List WindowEvent) → o ≡ some events → All (Fine env R) events)
      → Respects R (with_popup env o)
  unfolding with_popup
  Respects-with_popup none fine = Respects-throw law _
  Respects-with_popup (some events) fine =
      let waits = Respects-await_callback law "oauth_implicit_callback" events (fine events refl) in
      Respects-bind law _ _ (Respects-add_event law _)
        (λ _. Respects-bind law _ _ waits Respects-read_callback)

  Respects-open_authorization_popup : (url : String) → Respects R (open_authorization_popup env url)
  unfolding open_authorization_popup
  Respects-open_authorization_popup url =
      Respects-bind law _ _ (Respects-next_call law)
        (λ n. Respects-with_popup (env.popup n url) (law.popup n url))

  Respects-receive_access : (f : Fragment) (o : Option String) → Respects R (receive_access env f o)
  unfolding receive_access
  Respects-receive_access f none = search step_rules
  Respects-receive_access f (some access) = search (step_rules, Respects-decode)

  Respects-receive_id : (o : Option String) → Respects R (receive_id env o)
  unfolding receive_id
  Respects-receive_id none = search step_rules
  Respects-receive_id (some id) = search (step_rules, Respects-decode)

  Respects-process_implicit_tokens : (f : Fragment) → Respects R (process_implicit_tokens env f)
  unfolding process_implicit_tokens
  Respects-process_implicit_tokens f =
      search (step_rules, Respects-receive_access, Respects-receive_id) depth 7

  Respects-finish : (f : Fragment) → Respects R (finish env f)
  unfolding finish
  Respects-finish f = search (step_rules, Respects-process_implicit_tokens, Respects-complete)

  Respects-use_callback : (f : Fragment) → Respects R (use_callback env f)
  unfolding use_callback
  Respects-use_callback f = search (step_rules, Respects-finish)

  pub Respects-after_params : (c : ImplicitConfig) → Respects R (after_params env c)
  unfolding after_params
  Respects-after_params c = search (step_rules, Respects-open_authorization_popup) depth 9

  module _ (sets : StateLaw R) where
    Respects-generate_state : Respects R (generate_state env)
    unfolding generate_state
    Respects-generate_state =
        search (step_rules, Respects-generate_secure_random, Respects-set_csrf_state)

    Respects-generate_security_params :
        (c : ImplicitConfig) → Respects R (generate_security_params env c)
    unfolding generate_security_params
    Respects-generate_security_params c =
        search (step_rules, Respects-generate_state, Respects-more_params)

    Respects-authorize : (c : ImplicitConfig) → Respects R (authorize env c)
    unfolding authorize
    Respects-authorize c =
        search (step_rules, Respects-generate_security_params, Respects-after_params)

    pub Respects-perform : (c : ImplicitConfig) → Respects R (perform env c)
    unfolding perform attempt
    Respects-perform c =
        search (step_rules, Respects-guarded, Respects-authorize, Respects-use_callback) depth 7
