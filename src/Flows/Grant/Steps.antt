-- ===== src/Flows/Grant/Steps.antt =====
-- `Respects` for the frame of `execute`.
use protocol_lens.Prelude.{String}
use protocol_lens.Js.Params.{Params}
use protocol_lens.Flow.State.{Config}
use protocol_lens.Flow.Env.{Env}
use protocol_lens.Flow.Exec.{Exec}
use protocol_lens.Flow.Base.{fail}
use protocol_lens.Flow.Respects.{Rel, Law, Respects, Respects-catch}
use protocol_lens.Flow.Steps.{step_rules, Respects-make_request, Respects-fail}
use protocol_lens.Flows.Grant.{post_token, guarded, complete}

module _ {env : Env} {R : Rel} (law : Law env R) where
  pub Respects-post_token :
      (c : Config) (body : Params) (step reference : String)
      → Respects R (post_token env c body step reference)
  unfolding post_token
  Respects-post_token c body step reference = Respects-make_request law _ _ _ _ _ _

  pub Respects-guarded : (m : Exec (Unit {0})) → Respects R m → Respects R (guarded env m)
  unfolding guarded
  Respects-guarded m h = Respects-catch law m (fail env) h (Respects-fail law)

  pub Respects-complete :
      (step title description reference : String)
      → Respects R (complete env step title description reference)
  unfolding complete
  Respects-complete step title description reference = search step_rules
