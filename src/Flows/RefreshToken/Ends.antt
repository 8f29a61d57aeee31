-- ===== src/Flows/RefreshToken/Ends.antt =====
-- How runs of flows/refresh-token.ts end.
use protocol_lens.Prelude.{String, List, [], ◌∷◌}
use protocol_lens.Js.Value.{Value}
use protocol_lens.Flow.Env.{Env}
use protocol_lens.Flow.Outcome.{Settles, Answers, settles_steps}
use protocol_lens.Flows.Grant.{complete}
use protocol_lens.Flows.Endings.{Completes, completes_rules, Ends, ends_rules}
use protocol_lens.Flows.RefreshToken.{
  RefreshConfig, announce_scope, refuse, accept, refresh_access_token, attempt, perform,
}

module _ (env : Env) (answers : Answers env) where
  Settles-refuse : (content : Value) → Settles (refuse env content)
  unfolding refuse
  Settles-refuse content = search settles_steps depth 7

  Settles-accept : (content : Value) → Settles (accept env content)
  unfolding accept
  Settles-accept content = search settles_steps depth 7

  Settles-announce_scope : (scopes : List String) → Settles (announce_scope env scopes)
  Settles-announce_scope [] = search settles_steps
  Settles-announce_scope (s ∷ ss) = search settles_steps

  Settles-refresh_access_token : (c : RefreshConfig) → Settles (refresh_access_token env c)
  unfolding refresh_access_token
  Settles-refresh_access_token c =
      search (settles_steps, Settles-announce_scope, Settles-refuse, Settles-accept) depth 9

  module _ (c : RefreshConfig) where
    Settles-attempt : Settles (attempt env c)
    unfolding attempt complete
    Settles-attempt = search (settles_steps, Settles-refresh_access_token)

    Completes-attempt : Completes (attempt env c)
    unfolding attempt
    Completes-attempt = search completes_rules

    pub Ends-perform : Ends env (attempt env c) (perform env c)
    unfolding perform
    Ends-perform = search (ends_rules, Completes-attempt, Settles-attempt)
