-- ===== src/Flows/ResourceOwner/Steps.antt =====
-- `Respects` for the methods of flows/resource-owner.ts.
use protocol_lens.Js.Value.{Value}
use protocol_lens.Flow.Env.{Env}
use protocol_lens.Flow.Respects.{Rel, Law, Respects}
use protocol_lens.Flow.Steps.{step_rules}
use protocol_lens.Flows.Grant.Steps.{Respects-guarded, Respects-complete}
use protocol_lens.Flows.ResourceOwner.{OwnerConfig, refuse, accept, request_token, attempt, perform}

module _ {env : Env} {R : Rel} (law : Law env R) where
  Respects-refuse : (content : Value) → Respects R (refuse env content)
  unfolding refuse
  Respects-refuse content = search step_rules depth 7

  Respects-accept : (content : Value) → Respects R (accept env content)
  unfolding accept
  Respects-accept content = search step_rules depth 7

  Respects-request_token : (c : OwnerConfig) → Respects R (request_token env c)
  unfolding request_token
  Respects-request_token c = search (step_rules, Respects-refuse, Respects-accept) depth 9

  pub Respects-perform : (c : OwnerConfig) → Respects R (perform env c)
  unfolding perform attempt
  Respects-perform c =
      search (step_rules, Respects-guarded, Respects-request_token, Respects-complete) depth 7
