-- ===== src/Flow/Steps.antt =====
-- `Respects` for the methods of flows/base.ts.
use protocol_lens.Prelude.{ℕ, String, Option, none, some, List, [], ◌∷◌, All}
use protocol_lens.Js.Value.{Value}
use protocol_lens.Js.Params.{Params}
use protocol_lens.Flow.State.{EventText, HttpRequest, Body, TokenType}
use protocol_lens.Flow.Env.{
  Env, SentRequest, RawResponse, FetchResult, unanswered, failed, responded, WindowEvent, message,
  closed, action, UserAction,
}
use protocol_lens.Flow.Exec.{Exec, World, act}
use protocol_lens.Flow.Base.{
  uuid, clock, add_event, add_exchange, settle, unless_aborted, fetch, read_body, make_request,
  throw_response, fail,
}
use protocol_lens.Flow.Tokens.{
  decode, receive_access, receive_id, receive_refresh, process_token_response,
}
use protocol_lens.Flow.Random.{
  generate_secure_random, generate_code_verifier, generate_code_challenge,
}
use protocol_lens.Flow.Popup.{run_action, await_callback}
use protocol_lens.Flow.Respects.{
  Rel, Law, Respects, Fine, respects_rules, Respects-update_state, Respects-pure, Grows-same,
  Grows-event, Grows-error, Respects-throw, Respects-never, Respects-bind, Respects-if,
  Respects-is_aborted,
}

module _ {env : Env} {R : Rel} (law : Law env R) where
  pub Respects-uuid : Respects R (uuid env)
  unfolding uuid
  Respects-uuid = search respects_rules

  pub Respects-clock : Respects R (clock env)
  unfolding clock
  Respects-clock = search respects_rules

  pub Respects-add_event : (e : EventText) → Respects R (add_event env e)
  unfolding add_event
  Respects-add_event e =
      search (respects_rules, Respects-uuid, Respects-clock, Respects-update_state, Grows-event)

  pub Respects-add_exchange :
      (step : String) (reference : Option String) (request : HttpRequest)
      → Respects R (add_exchange env step reference request)
  unfolding add_exchange
  Respects-add_exchange step reference request =
      search (respects_rules, Respects-uuid, Respects-clock, Respects-update_state, Grows-same)
        depth 7

  Respects-settle : (r : FetchResult) → Respects R (settle r)
  Respects-settle unanswered = Respects-never law
  Respects-settle (failed e) = Respects-throw law e
  Respects-settle (responded r) = Respects-pure law r

  Respects-unless_aborted {ℓ} :
      {A : Type ℓ} (m : Exec A) → Respects R m → Respects R (unless_aborted env m)
  Respects-unless_aborted m h = search respects_rules

  Respects-fetch : (request : SentRequest) → Respects R (fetch env request)
  unfolding fetch
  Respects-fetch request = search (respects_rules, Respects-settle, Respects-unless_aborted) depth 9

  Respects-read_body : (r : RawResponse) → Respects R (read_body env r)
  unfolding read_body
  Respects-read_body r = search (respects_rules, Respects-unless_aborted) depth 9

  pub Respects-make_request :
      (method url : String) (headers : Params) (body : Option Body) (step : String)
      (reference : Option String)
      → Respects R (make_request env method url headers body step reference)
  unfolding make_request
  Respects-make_request method url headers body step reference =
      search
        (
          respects_rules, Respects-add_event, Respects-add_exchange, Respects-clock, Respects-fetch,
          Respects-read_body, Respects-update_state, Grows-same,
        )
        depth 14 fits 60000

  pub Respects-throw_response {ℓ} :
      {A : Type ℓ} (content : Value) (fallback : String)
      → Respects R (throw_response {A = A} env content fallback)
  unfolding throw_response
  Respects-throw_response content fallback = search respects_rules depth 7

  pub Respects-fail : (e : String) → Respects R (fail env e)
  unfolding fail
  Respects-fail e = search (respects_rules, Respects-add_event, Respects-update_state, Grows-error)

  pub Respects-decode : (token : String) (type : TokenType) → Respects R (decode env token type)
  unfolding decode
  Respects-decode token type = search (respects_rules, Respects-clock)

  Respects-receive_access : (o : Option String) → Respects R (receive_access env o)
  unfolding receive_access
  Respects-receive_access none = search respects_rules
  Respects-receive_access (some token) =
      search (respects_rules, Respects-decode, Respects-add_event)

  Respects-receive_id : (o : Option String) → Respects R (receive_id env o)
  unfolding receive_id
  Respects-receive_id none = search respects_rules
  Respects-receive_id (some token) = search (respects_rules, Respects-decode, Respects-add_event)

  Respects-receive_refresh : (o : Option String) → Respects R (receive_refresh env o)
  unfolding receive_refresh
  Respects-receive_refresh none = search respects_rules
  Respects-receive_refresh (some token) =
      search (respects_rules, Respects-decode, Respects-add_event)

  pub Respects-process_token_response :
      (response : Value) → Respects R (process_token_response env response)
  unfolding process_token_response
  Respects-process_token_response response =
      search
        (
          respects_rules, Respects-receive_access, Respects-receive_id, Respects-receive_refresh,
          Respects-update_state, Grows-same,
        )
        depth 14 fits 60000

  pub Respects-generate_secure_random : (n : ℕ) → Respects R (generate_secure_random env n)
  unfolding generate_secure_random
  Respects-generate_secure_random n = search respects_rules

  pub Respects-generate_code_verifier : Respects R (generate_code_verifier env)
  unfolding generate_code_verifier
  Respects-generate_code_verifier = search respects_rules

  pub Respects-generate_code_challenge :
      (verifier : String) → Respects R (generate_code_challenge env verifier)
  unfolding generate_code_challenge
  Respects-generate_code_challenge verifier = search respects_rules

  Respects-run_action :
      (a : UserAction) → ((w : World) → R w (act env a w)) → Respects R (run_action env a)
  unfolding run_action
  Respects-run_action a h = record { at = h }

  pub Respects-await_callback :
      (kind : String) (events : List WindowEvent)
      → All (Fine env R) events
      → Respects R (await_callback env kind events)
  unfolding await_callback
  Respects-await_callback kind [] fine = Respects-never law
  Respects-await_callback kind (message origin content ∷ rest) (_, fine) =
      Respects-if law _ _ _ (Respects-pure law content) (Respects-await_callback kind rest fine)
  Respects-await_callback kind (closed ∷ rest) fine = search respects_rules
  Respects-await_callback kind (action a ∷ rest) (h, fine) =
      Respects-bind law _ _ (Respects-run_action a h) (λ _. Respects-await_callback kind rest fine)

pub ruleset step_rules = (
  respects_rules, Respects-add_event, Respects-make_request, Respects-throw_response,
  Respects-process_token_response, Respects-update_state, Grows-same,
)
