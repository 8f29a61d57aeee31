-- ===== src/Flows/ClientCredentials/Steps.antt =====
-- `Respects` for the methods of flows/client-credentials.ts.
use protocol_lens.Prelude.{String}
use protocol_lens.Js.Value.{Value}
use protocol_lens.Flow.State.{Config}
use protocol_lens.Flow.Env.{Env}
use protocol_lens.Flow.Respects.{Rel, Law, Respects, Grows-error}
use protocol_lens.Flow.Steps.{step_rules}
use protocol_lens.Flows.Grant.Steps.{Respects-guarded, Respects-complete}
use protocol_lens.Flows.ClientCredentials.{
  refuse, accept, request_token, attempt, perform, refuse_config,
}

module _ {env : Env} {R : Rel} (law : Law env R) where
  Respects-refuse : (content : Value) → Respects R (refuse env content)
  unfolding refuse
  Respects-refuse content = search step_rules depth 7

  Respects-accept : (content : Value) → Respects R (accept env content)
  unfolding accept
  Respects-accept content = search step_rules depth 7

  Respects-request_token : (c : Config) (secret : String) → Respects R (request_token env c secret)
  unfolding request_token
  Respects-request_token c secret = search (step_rules, Respects-refuse, Respects-accept) depth 9

  pub Respects-refuse_config : Respects R (refuse_config env)
  unfolding refuse_config
  Respects-refuse_config = search (step_rules, Grows-error)

  pub Respects-perform : (c : Config) (secret : String) → Respects R (perform env c secret)
  unfolding perform attempt
  Respects-perform c secret =
      search (step_rules, Respects-guarded, Respects-request_token, Respects-complete) depth 7
