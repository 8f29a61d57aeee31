-- ===== src/Flows/ClientCredentials/Ends.antt =====
-- How runs of flows/client-credentials.ts end.
use protocol_lens.Prelude.{String}
use protocol_lens.Js.Value.{Value}
use protocol_lens.Flow.State.{Config}
use protocol_lens.Flow.Env.{Env}
use protocol_lens.Flow.Outcome.{Settles, Answers, settles_steps}
use protocol_lens.Flows.Grant.{complete}
use protocol_lens.Flows.Endings.{Completes, completes_rules, Ends, ends_rules}
use protocol_lens.Flows.ClientCredentials.{refuse, accept, request_token, attempt, perform}

module _ (env : Env) (answers : Answers env) where
  Settles-refuse : (content : Value) → Settles (refuse env content)
  unfolding refuse
  Settles-refuse content = search settles_steps depth 7

  Settles-accept : (content : Value) → Settles (accept env content)
  unfolding accept
  Settles-accept content = search settles_steps depth 7

  Settles-request_token : (c : Config) (secret : String) → Settles (request_token env c secret)
  unfolding request_token
  Settles-request_token c secret = search (settles_steps, Settles-refuse, Settles-accept) depth 9

  module _ (c : Config) (secret : String) where
    Settles-attempt : Settles (attempt env c secret)
    unfolding attempt complete
    Settles-attempt = search (settles_steps, Settles-request_token)

    Completes-attempt : Completes (attempt env c secret)
    unfolding attempt
    Completes-attempt = search completes_rules

    pub Ends-perform : Ends env (attempt env c secret) (perform env c secret)
    unfolding perform
    Ends-perform = search (ends_rules, Completes-attempt, Settles-attempt)
