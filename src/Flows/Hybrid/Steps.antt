-- ===== src/Flows/Hybrid/Steps.antt =====
-- `Respects` for the methods of flows/oidc-hybrid.ts.
use protocol_lens.Prelude.{String, Option, none, some, List, ◌≡◌, refl, All}
use protocol_lens.Js.Value.{Value}
use protocol_lens.Flow.Env.{Env, WindowEvent}
use protocol_lens.Flow.Respects.{
  Rel, Law, Respects, Fine, Respects-bind, Respects-throw, Respects-next_call, StateLaw,
  Respects-set_params,
}
use protocol_lens.Flow.Steps.{
  step_rules, Respects-add_event, Respects-generate_secure_random, Respects-await_callback,
  Respects-decode, Respects-generate_code_verifier, Respects-generate_code_challenge,
}
use protocol_lens.Flows.Grant.Steps.{Respects-guarded, Respects-complete}
use protocol_lens.Flows.Hybrid.Authorize.{
  HybridConfig, Callback, fresh_params, set_fresh, generate_state, generate_pkce,
  generate_security_params, read_callback, with_popup, open_authorization_popup,
}
use protocol_lens.Flows.Hybrid.Hashes.{
  HashClaim, compare_hash, check_claim, check_payload, validate_hash,
}
use protocol_lens.Flows.Hybrid.{
  validate_if, receive_id, receive_access, process_authorization_response, accept, refuse,
  exchange_code_for_tokens, exchange_if, finish, use_callback, after_params, authorize, attempt,
  perform,
}

module _ {env : Env} {R : Rel} (law : Law env R) where
  pub Respects-generate_pkce : Respects R (generate_pkce env)
  unfolding generate_pkce
  Respects-generate_pkce =
      search (step_rules, Respects-generate_code_verifier, Respects-generate_code_challenge)

  Respects-read_callback : (content : Value) → Respects R (read_callback env content)
  unfolding read_callback
  Respects-read_callback content = search step_rules depth 14 fits 20000

  Respects-with_popup :
      (o : Option (List WindowEvent))
      → ((events : List WindowEvent) → o ≡ some events → All (Fine env R) events)
      → Respects R (with_popup env o)
  unfolding with_popup
  Respects-with_popup none fine = Respects-throw law _
  Respects-with_popup (some events) fine =
      let waits = Respects-await_callback law "oidc_hybrid_callback" events (fine events refl) in
      Respects-bind law _ _ (Respects-add_event law _)
        (λ _. Respects-bind law _ _ waits Respects-read_callback)

  Respects-open_authorization_popup : (url : String) → Respects R (open_authorization_popup env url)
  unfolding open_authorization_popup
  Respects-open_authorization_popup url =
      Respects-bind law _ _ (Respects-next_call law)
        (λ n. Respects-with_popup (env.popup n url) (law.popup n url))

  Respects-compare_hash :
      (claim : HashClaim) (text : String) (v : Value) → Respects R (compare_hash env claim text v)
  unfolding compare_hash
  Respects-compare_hash claim text v = search step_rules

  Respects-check_claim :
      (claim : HashClaim) (text : String) (v : Value) → Respects R (check_claim env claim text v)
  unfolding check_claim
  Respects-check_claim claim text v = search (step_rules, Respects-compare_hash)

  Respects-check_payload :
      (claim : HashClaim) (text : String) (o : Option Value)
      → Respects R (check_payload env claim text o)
  unfolding check_payload
  Respects-check_payload claim text none = search step_rules
  Respects-check_payload claim text (some v) = search (step_rules, Respects-check_claim)

  Respects-validate_hash :
      (claim : HashClaim) (token text : String) → Respects R (validate_hash env claim token text)
  unfolding validate_hash
  Respects-validate_hash claim token text =
      search (step_rules, Respects-decode, Respects-check_payload)

  pub Respects-validate_if :
      (claim : HashClaim) (token text : Option String)
      → Respects R (validate_if env claim token text)
  unfolding validate_if
  Respects-validate_if claim none text = search step_rules
  Respects-validate_if claim (some token) none = search step_rules
  Respects-validate_if claim (some token) (some text) = search (step_rules, Respects-validate_hash)

  Respects-receive_id : (o : Option String) → Respects R (receive_id env o)
  unfolding receive_id
  Respects-receive_id none = search step_rules
  Respects-receive_id (some id) = search (step_rules, Respects-decode)

  Respects-receive_access : (o : Option String) → Respects R (receive_access env o)
  unfolding receive_access
  Respects-receive_access none = search step_rules
  Respects-receive_access (some access) = search (step_rules, Respects-decode)

  Respects-process_authorization_response :
      (r : Callback) → Respects R (process_authorization_response env r)
  unfolding process_authorization_response
  Respects-process_authorization_response r =
      search (step_rules, Respects-receive_access, Respects-receive_id) depth 7

  Respects-accept : (content : Value) → Respects R (accept env content)
  unfolding accept
  Respects-accept content = search step_rules

  Respects-refuse : (content : Value) → Respects R (refuse env content)
  unfolding refuse
  Respects-refuse content = search step_rules

  module _ (c : HybridConfig) where
    Respects-exchange_code_for_tokens :
        (code : String) → Respects R (exchange_code_for_tokens env c code)
    unfolding exchange_code_for_tokens
    Respects-exchange_code_for_tokens code =
        search (step_rules, Respects-accept, Respects-refuse) depth 8

    Respects-exchange_if : (code : Option String) → Respects R (exchange_if env c code)
    unfolding exchange_if
    Respects-exchange_if none = search step_rules
    Respects-exchange_if (some code) = search (step_rules, Respects-exchange_code_for_tokens)

    Respects-finish : (r : Callback) → Respects R (finish env c r)
    unfolding finish
    Respects-finish r =
        search
          (
            step_rules, Respects-validate_if, Respects-process_authorization_response,
            Respects-exchange_if, Respects-complete,
          )
          depth 9

    Respects-use_callback : (r : Callback) → Respects R (use_callback env c r)
    unfolding use_callback
    Respects-use_callback r = search (step_rules, Respects-finish)

    pub Respects-after_params : Respects R (after_params env c)
    unfolding after_params
    Respects-after_params = search (step_rules, Respects-open_authorization_popup)

  module _ (sets : StateLaw R) where
    Respects-set_fresh : (state nonce : String) → Respects R (set_fresh env state nonce)
    unfolding set_fresh
    Respects-set_fresh state nonce =
        Respects-bind law _ _ (Respects-set_params sets (λ _. fresh_params state nonce))
          (λ _. Respects-add_event law _)

    Respects-generate_state : Respects R (generate_state env)
    unfolding generate_state
    Respects-generate_state =
        search (step_rules, Respects-generate_secure_random, Respects-set_fresh)

    Respects-generate_security_params :
        (c : HybridConfig) → Respects R (generate_security_params env c)
    unfolding generate_security_params
    Respects-generate_security_params c =
        search (step_rules, Respects-generate_state, Respects-generate_pkce)

    Respects-authorize : (c : HybridConfig) → Respects R (authorize env c)
    unfolding authorize
    Respects-authorize c =
        search (step_rules, Respects-generate_security_params, Respects-after_params)

    pub Respects-perform : (c : HybridConfig) → Respects R (perform env c)
    unfolding perform attempt
    Respects-perform c =
        search (step_rules, Respects-guarded, Respects-authorize, Respects-use_callback) depth 7
