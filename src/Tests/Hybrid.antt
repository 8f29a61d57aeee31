-- ===== src/Tests/Hybrid.antt =====
-- A hybrid run in the sample browser.
use protocol_lens.Prelude.{from_codes, ◌≡◌, refl, true, Option, none, some, List, All, subst}
use protocol_lens.Js.Value.{str}
use protocol_lens.Flow.State.{completed}
use protocol_lens.Flow.Env.{Env, WindowEvent}
use protocol_lens.Flow.Exec.{returned, ◌>>=◌, or_throw}
use protocol_lens.Flow.Timeline.{NoReset, IsHarmlessEvent}
use protocol_lens.Flow.Total.{IsReturned}
use protocol_lens.Flows.Answer.{csrf_state, Answered}
use protocol_lens.Flows.Hybrid.Authorize.{has_text, tokens_from_authz_endpoint, code_id_token}
use protocol_lens.Flows.Hybrid.Hashes.{c_hash}
use protocol_lens.Flows.Hybrid.Checks.{hash_check-passes, announces_access_token}
use protocol_lens.Flows.Hybrid.Csrf.{hybrid_completed_needs_state}
use protocol_lens.Flows.Hybrid.{execute, validate_if}
use protocol_lens.Tests.{sample, hybrid_events, hybrid_config, sample_world}

abbrev env : Env
env = sample hybrid_events

abbrev AreHarmless : Option (List WindowEvent) → Type 0
AreHarmless none = Unit
AreHarmless (some events) = All IsHarmlessEvent events

env-NoReset : NoReset env
env-NoReset = record {
  others = λ n. tt;
  popup = λ n url events e. subst AreHarmless e (tt, (tt, tt));
}

hybrid_run : (execute env hybrid_config sample_world).0 ≡ returned tt
unfolding execute ◌>>=◌ or_throw from_codes
hybrid_run = refl

hybrid_completes : (execute env hybrid_config sample_world).1.state.status ≡ completed
unfolding execute ◌>>=◌ or_throw from_codes
hybrid_completes = refl

hybrid_completed_needs_state_example : Answered env "oidc_hybrid_callback" (str (csrf_state env 5))
hybrid_completed_needs_state_example =
    hybrid_completed_needs_state env hybrid_config sample_world env-NoReset hybrid_run
      hybrid_completes

hash_check-passes_example :
    IsReturned
      (validate_if env c_hash (some "e30.e30.c2ln") (some "SplxlOBeZQQYbYS6WxSbIA") sample_world).0
hash_check-passes_example =
    hash_check-passes env c_hash (some "e30.e30.c2ln") (some "SplxlOBeZQQYbYS6WxSbIA") sample_world

announces_access_token_example :
    has_text "access_token" (tokens_from_authz_endpoint code_id_token) ≡ true
announces_access_token_example = announces_access_token code_id_token
