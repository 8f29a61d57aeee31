-- ===== src/Tests/Session.antt =====
-- A session and simulations on sample values.
use mathlib.Core.List.{map}
use protocol_lens.Prelude.{String, true, false, none, some, List, [], ◌∷◌, ◌≡◌, refl}
use protocol_lens.Flow.Env.{Env}
use protocol_lens.Hooks.Session.{initial_session, handle_all}
use protocol_lens.Hooks.Session.Limit.{limited, handle_all-limited}
use protocol_lens.Hooks.Simulation.{
  FlowStep, StepEvent, initial_simulation, start_simulation, fire_timers, fire_next,
}
use protocol_lens.Hooks.Simulation.Order.{simulation-ends}
use protocol_lens.Tests.{sample}

abbrev env : Env
env = sample []

abbrev messages : List String
messages = "{}" ∷ "{}" ∷ "{}" ∷ []

handle_all-limited_example :
    handle_all env "7" (some 2) messages (limited 2 initial_session)
    ≡ limited 2 (handle_all env "7" none messages initial_session)
handle_all-limited_example = handle_all-limited env "7" 2 messages initial_session

abbrev step : FlowStep
step = record {
  id = "1";
  name = "Authorization Request";
  description = "";
  sender = "Client";
  receiver = "Authorization Server";
  type = "request";
}

-- A flow without steps is simulated for ever: there is no timer that could end it.
empty_flow :
    start_simulation 1200 7 (some []) initial_simulation
    ≡ record initial_simulation { is_simulating = true }
unfolding start_simulation
empty_flow = refl

simulation-ends_example :
    let shown =
      fire_timers
        (λ i. 50)
        2
        (start_simulation 1200 7 (some (step ∷ step ∷ [])) initial_simulation) in
    (shown.is_simulating ≡ true)
    × (shown.completed_steps ≡ 0 ∷ 1 ∷ [])
    × (map (λ (e : StepEvent). e.step) shown.events ≡ 1 ∷ 0 ∷ [])
    × (shown.endings ≡ 2907 ∷ [])
    × ((fire_next (λ i. 50) shown).is_simulating ≡ false)
    × ((fire_next (λ i. 50) shown).timeouts ≡ [])
    × ((fire_next (λ i. 50) shown).endings ≡ [])
simulation-ends_example =
    simulation-ends (λ i. 50) 1200 7 step (step ∷ []) initial_simulation refl refl
