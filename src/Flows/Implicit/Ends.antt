-- ===== src/Flows/Implicit/Ends.antt =====
-- How runs of flows/implicit.ts end.
use protocol_lens.Flow.Env.{Env}
use protocol_lens.Flows.Endings.{Completes, completes_rules, MayEnd, ends_rules}
use protocol_lens.Flows.Implicit.Authorize.{ImplicitConfig, Fragment}
use protocol_lens.Flows.Implicit.{finish, use_callback, attempt, perform}

module _ (env : Env) (c : ImplicitConfig) where
  Completes-use_callback : (f : Fragment) → Completes (use_callback env f)
  unfolding use_callback finish
  Completes-use_callback f = search completes_rules depth 9

  Completes-attempt : Completes (attempt env c)
  unfolding attempt
  Completes-attempt = search (completes_rules, Completes-use_callback)

  pub MayEnd-perform : MayEnd env (attempt env c) (perform env c)
  unfolding perform
  MayEnd-perform = search (ends_rules, Completes-attempt)
