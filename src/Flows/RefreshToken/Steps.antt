-- ===== src/Flows/RefreshToken/Steps.antt =====
-- The refresh token flow respects every lawful relation.
use protocol_lens.Prelude.{String, List, [], ◌∷◌}
use protocol_lens.Js.Value.{Value}
use protocol_lens.Flow.Env.{Env}
use protocol_lens.Flow.Respects.{Rel, Law, Respects}
use protocol_lens.Flow.Steps.{step_rules}
use protocol_lens.Flows.Grant.Steps.{Respects-guarded, Respects-complete}
use protocol_lens.Flows.RefreshToken.{
  RefreshConfig, announce_scope, refuse, accept, refresh_access_token, attempt, perform,
}

module _ {env : Env} {R : Rel} (law : Law env R) where
  Respects-announce_scope : (scopes : List String) → Respects R (announce_scope env scopes)
  Respects-announce_scope [] = search step_rules
  Respects-announce_scope (s ∷ ss) = search step_rules

  Respects-refuse : (content : Value) → Respects R (refuse env content)
  unfolding refuse
  Respects-refuse content = search step_rules depth 7

  Respects-accept : (content : Value) → Respects R (accept env content)
  unfolding accept
  Respects-accept content = search step_rules depth 7

  Respects-refresh_access_token : (c : RefreshConfig) → Respects R (refresh_access_token env c)
  unfolding refresh_access_token
  Respects-refresh_access_token c =
      search (step_rules, Respects-announce_scope, Respects-refuse, Respects-accept) depth 9

  pub Respects-perform : (c : RefreshConfig) → Respects R (perform env c)
  unfolding perform attempt
  Respects-perform c =
      search (step_rules, Respects-guarded, Respects-refresh_access_token, Respects-complete) depth
        7
