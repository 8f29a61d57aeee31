-- ===== src/Flows/Hybrid/Ends.antt =====
-- How runs of flows/oidc-hybrid.ts end.
use protocol_lens.Flow.Env.{Env}
use protocol_lens.Flows.Endings.{Completes, completes_rules, MayEnd, ends_rules}
use protocol_lens.Flows.Hybrid.Authorize.{HybridConfig, Callback}
use protocol_lens.Flows.Hybrid.{finish, use_callback, attempt, perform}

module _ (env : Env) (c : HybridConfig) where
  Completes-finish : (r : Callback) → Completes (finish env c r)
  unfolding finish
  Completes-finish r = search completes_rules depth 9

  Completes-use_callback : (r : Callback) → Completes (use_callback env c r)
  unfolding use_callback
  Completes-use_callback r = search (completes_rules, Completes-finish)

  Completes-attempt : Completes (attempt env c)
  unfolding attempt
  Completes-attempt = search (completes_rules, Completes-use_callback)

  pub MayEnd-perform : MayEnd env (attempt env c) (perform env c)
  unfolding perform
  MayEnd-perform = search (ends_rules, Completes-attempt)
