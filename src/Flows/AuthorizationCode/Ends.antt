-- ===== src/Flows/AuthorizationCode/Ends.antt =====
-- How runs of flows/authorization-code.ts end.
use protocol_lens.Prelude.{String, refl}
use protocol_lens.Js.Value.{Value}
use protocol_lens.Flow.Env.{Env}
use protocol_lens.Flow.Exec.{◌>>=◌, update_state, get_state}
use protocol_lens.Flow.Base.{add_event}
use protocol_lens.Flows.Endings.{Completes, completes_rules, MayEnd, ends_rules}
use protocol_lens.Flows.AuthorizationCode.Authorize.{CodeConfig}
use protocol_lens.Flows.AuthorizationCode.{
  conclude, finish, receive_code, use_callback, attempt, perform,
}

module _ (env : Env) (c : CodeConfig) where
  Completes-conclude : Completes (conclude env)
  unfolding conclude ◌>>=◌ add_event update_state get_state
  Completes-conclude = record { at = λ w. refl }

  Completes-finish : (code : String) → Completes (finish env c code)
  unfolding finish
  Completes-finish code = search (completes_rules, Completes-conclude)

  Completes-use_callback : (code state : Value) → Completes (use_callback env c code state)
  unfolding use_callback receive_code
  Completes-use_callback code state = search (completes_rules, Completes-finish) depth 9

  Completes-attempt : Completes (attempt env c)
  unfolding attempt
  Completes-attempt = search (completes_rules, Completes-use_callback)

  pub MayEnd-perform : MayEnd env (attempt env c) (perform env c)
  unfolding perform
  MayEnd-perform = search (ends_rules, Completes-attempt)
