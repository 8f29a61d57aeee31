-- ===== src/Flows/Runs.antt =====
-- Whole runs of the executors of frontend/src/lookingglass/flows.
use protocol_lens.Prelude.{ℕ, true, subst, sym, String, ◌≡◌, some}
use protocol_lens.Flow.State.{Config, FlowError}
use protocol_lens.Flow.Env.{Env}
use protocol_lens.Flow.Exec.{Exec, World, Outcome, set_state, publish, has}
use protocol_lens.Flow.Base.{begun}
use protocol_lens.Flow.Respects.{Rel, Law, StateLaw, Respects}
use protocol_lens.Flow.Listeners.{
  last_seen, InSync, KeepsInSync-Law, KeepsInSync-StateLaw, begun-InSync,
}
use protocol_lens.Flow.Timeline.{NoReset, Continues, StateContinues-Law, StateContinues-StateLaw}
use protocol_lens.Flow.Outcome.{Answers}
use protocol_lens.Flows.Endings.{Reported, Returned}
use protocol_lens.Flows.RefreshToken
use protocol_lens.Flows.RefreshToken.{RefreshConfig}
use protocol_lens.Flows.ResourceOwner
use protocol_lens.Flows.ResourceOwner.{OwnerConfig}
use protocol_lens.Flows.ClientCredentials
use protocol_lens.Flows.AuthorizationCode
use protocol_lens.Flows.AuthorizationCode.Authorize.{CodeConfig}
use protocol_lens.Flows.Implicit
use protocol_lens.Flows.Implicit.Authorize.{ImplicitConfig}
use protocol_lens.Flows.Hybrid
use protocol_lens.Flows.Hybrid.Authorize.{HybridConfig}
use protocol_lens.Flows.DeviceCode
use protocol_lens.Flows.DeviceCode.Poll.{DeviceConfig}

-- An executor with its configuration; `client` has its secret, `device` the number of timer ticks.
pub data Flow : Type 0 where
  refresh : RefreshConfig → Flow
  owner : OwnerConfig → Flow
  client : Config → String → Flow
  code : CodeConfig → Flow
  implicit : ImplicitConfig → Flow
  device : DeviceConfig → (ticks : ℕ) → Flow
  hybrid : HybridConfig → Flow

abbrev pub execute : Env → Flow → Exec (Unit {0})
execute env (refresh c) = RefreshToken.execute env c
execute env (owner c) = ResourceOwner.execute env c
execute env (client c secret) = ClientCredentials.run env c secret
execute env (code c) = AuthorizationCode.execute env c
execute env (implicit c) = Implicit.execute env c
execute env (device c ticks) = DeviceCode.execute env ticks c
execute env (hybrid c) = Hybrid.execute env c

abbrev perform : Env → Flow → Exec (Unit {0})
perform env (refresh c) = RefreshToken.perform env c
perform env (owner c) = ResourceOwner.perform env c
perform env (client c secret) = ClientCredentials.perform env c secret
perform env (code c) = AuthorizationCode.perform env c
perform env (implicit c) = Implicit.perform env c
perform env (device c ticks) = DeviceCode.perform env ticks c
perform env (hybrid c) = Hybrid.perform env c

abbrev pub first_step : Flow → String
first_step (refresh c) = RefreshToken.first_step
first_step (owner c) = ResourceOwner.first_step
first_step (client c secret) = ClientCredentials.first_step
first_step (code c) = AuthorizationCode.first_step
first_step (implicit c) = Implicit.first_step
first_step (device c ticks) = DeviceCode.first_step
first_step (hybrid c) = Hybrid.first_step

execute_lem :
    (env : Env) (f : Flow) (w : World)
    → execute env f w ≡ perform env f (begun env (first_step f) w)
execute_lem env (refresh c) w = RefreshToken.execute_lem env c w
execute_lem env (owner c) w = ResourceOwner.execute_lem env c w
execute_lem env (client c secret) w = ClientCredentials.run_lem env c secret w
execute_lem env (code c) w = AuthorizationCode.execute_lem env c w
execute_lem env (implicit c) w = Implicit.execute_lem env c w
execute_lem env (device c ticks) w = DeviceCode.execute_lem env ticks c w
execute_lem env (hybrid c) w = Hybrid.execute_lem env c w

Respects-perform :
    {env : Env} {R : Rel} → Law env R → StateLaw R → (f : Flow) → Respects R (perform env f)
Respects-perform law sets (refresh c) = RefreshToken.Steps.Respects-perform law c
Respects-perform law sets (owner c) = ResourceOwner.Steps.Respects-perform law c
Respects-perform law sets (client c secret) = ClientCredentials.Steps.Respects-perform law c secret
Respects-perform law sets (code c) = AuthorizationCode.Steps.Respects-perform law sets c
Respects-perform law sets (implicit c) = Implicit.Steps.Respects-perform law sets c
Respects-perform law sets (device c ticks) = DeviceCode.Steps.Respects-perform law ticks c
Respects-perform law sets (hybrid c) = Hybrid.Steps.Respects-perform law sets c

-- After any run, however it ends and whatever the environment and the users did meanwhile
-- (aborts, resets, listeners that come and go), a subscribed listener was last called with the
-- state that the executor is in. The listeners may have been out of step before.
pub execute-InSync :
    (env : Env) (f : Flow) (w : World) (l : ℕ)
    → has l (execute env f w).1.listeners ≡ true
    → last_seen l (execute env f w).1.delivered ≡ some (execute env f w).1.state
execute-InSync env f w =
    subst (λ (p : Outcome (Unit {0}) × World). InSync p.1) (sym (execute_lem env f w))
      ((Respects-perform (KeepsInSync-Law env) KeepsInSync-StateLaw f).at
        (begun env (first_step f) w) (begun-InSync env (first_step f) w))

execute-Continues :
    (env : Env) (f : Flow) (w : World)
    → NoReset env
    → Continues (begun env (first_step f) w).state (execute env f w).1.state
execute-Continues env f w calm = rw execute_lem (
    (Respects-perform (StateContinues-Law calm) StateContinues-StateLaw f).at
      (begun env (first_step f) w))

-- The `flowType` of each class.
abbrev pub flow_type : Flow → String
flow_type (refresh c) = RefreshToken.flow_type
flow_type (owner c) = ResourceOwner.flow_type
flow_type (client c secret) = ClientCredentials.flow_type
flow_type (code c) = AuthorizationCode.flow_type
flow_type (implicit c) = Implicit.flow_type
flow_type (device c ticks) = DeviceCode.flow_type
flow_type (hybrid c) = Hybrid.flow_type

-- A run that starts on an executor whose last run failed ends with an error in its state, in an
-- environment where nobody resets the executor, even where it ends with the status `completed`:
-- `execute` initialises the state without the `error` key.
pub execute-keeps_stale_error :
    (env : Env) (f : Flow) (w : World) (e : FlowError)
    → NoReset env
    → w.state.error ≡ some e
    → (d : FlowError) × ((execute env f w).1.state.error ≡ some d)
unfolding set_state publish
execute-keeps_stale_error env f w e calm stale = (execute-Continues env f w calm).error_kept e stale

-- Where every request is answered or fails, a run of a flow that only calls the token endpoint
-- returns, whoever aborts or resets it: with the status `completed` if its `try` block returned, and
-- with the status `error` and the message that the block threw otherwise. The block is taken where it
-- starts, after the start of `execute` and some events.
pub token_flows_end :
    (env : Env) (w : World) (r : RefreshConfig) (o : OwnerConfig) (c : Config) (secret : String)
    → Answers env
    → Returned env
        (RefreshToken.attempt env r)
        (begun env RefreshToken.first_step w)
        (RefreshToken.execute env r w)
      × Returned env
          (ResourceOwner.attempt env o)
          (begun env ResourceOwner.first_step w)
          (ResourceOwner.execute env o w)
      × Returned env
          (ClientCredentials.attempt env c secret)
          (begun env ClientCredentials.first_step w)
          (ClientCredentials.run env c secret w)
token_flows_end env w r o c secret answers = (
  rw (RefreshToken.execute_lem env r w) ((RefreshToken.Ends.Ends-perform env answers r).at _),
  rw (ResourceOwner.execute_lem env o w) ((ResourceOwner.Ends.Ends-perform env answers o).at _),
  rw (ClientCredentials.run_lem env c secret w)
      ((ClientCredentials.Ends.Ends-perform env answers c secret).at _),
)

-- A run of a flow that waits for the user, in an authorization window or on another device, never
-- throws: it returns with the status `completed` if its `try` block returned, it returns with the
-- status `error` and the message that the block threw if it threw, and it waits for ever only if the
-- block does. The block is taken where it starts, after the start of `execute` and some events.
pub window_flows_end :
    (env : Env) (w : World) (c : CodeConfig) (i : ImplicitConfig) (h : HybridConfig)
    (d : DeviceConfig) (ticks : ℕ)
    → Reported env
        (AuthorizationCode.attempt env c)
        (begun env AuthorizationCode.first_step w)
        (AuthorizationCode.execute env c w)
      × Reported env
          (Implicit.attempt env i)
          (begun env Implicit.first_step w)
          (Implicit.execute env i w)
      × Reported env (Hybrid.attempt env h) (begun env Hybrid.first_step w) (Hybrid.execute env h w)
      × Reported env
          (DeviceCode.attempt env ticks d)
          (begun env DeviceCode.first_step w)
          (DeviceCode.execute env ticks d w)
window_flows_end env w c i h d ticks = (
  rw (AuthorizationCode.execute_lem env c w) ((AuthorizationCode.Ends.MayEnd-perform env c).at _),
  rw (Implicit.execute_lem env i w) ((Implicit.Ends.MayEnd-perform env i).at _),
  rw (Hybrid.execute_lem env h w) ((Hybrid.Ends.MayEnd-perform env h).at _),
  rw (DeviceCode.execute_lem env ticks d w) ((DeviceCode.Ends.MayEnd-perform env ticks d).at _),
)
