-- ===== src/Tests/Runs.antt =====
-- Whole runs in the sample browser.
use protocol_lens.Prelude.{
  String, arith, eq_iff, ◌≢◌, inl, [], ◌∷◌, from_codes, All, subst, ◌≡◌, refl, true, Option, none,
  some, List,
}
use protocol_lens.Js.Value.{Value, get_prop, str, obj, end, field}
use protocol_lens.Flow.State.{completed, FlowError}
use protocol_lens.Flow.Env.{Env, WindowEvent, message, closed}
use protocol_lens.Flow.Exec.{has, returned, ◌>>=◌, or_throw}
use protocol_lens.Flow.Listeners.{last_seen}
use protocol_lens.Flow.Timeline.{NoReset, IsHarmlessEvent}
use protocol_lens.Flow.Window.{await_callback-ignores_foreign}
use protocol_lens.Flow.Popup.{await_callback}
use protocol_lens.Flows.Answer.{csrf_state, Answered}
use protocol_lens.Flows.Endings.{Reported, Returned}
use protocol_lens.Flows.RefreshToken
use protocol_lens.Flows.ResourceOwner
use protocol_lens.Flows.ClientCredentials
use protocol_lens.Flows.AuthorizationCode
use protocol_lens.Flows.AuthorizationCode.Csrf.{completed_needs_state}
use protocol_lens.Flows.Implicit
use protocol_lens.Flows.Implicit.Csrf.{implicit_completed_needs_state}
use protocol_lens.Flows.DeviceCode
use protocol_lens.Flows.Hybrid
use protocol_lens.Flow.Outcome.{Answers}
use protocol_lens.Flow.Base.{begun}
use protocol_lens.Flows.Runs.{
  code, execute, execute-InSync, execute-keeps_stale_error, token_flows_end, window_flows_end,
}
use protocol_lens.Tests.{
  sample, sample_events, implicit_events, sample_config, code_config, implicit_config,
  device_config, hybrid_config, refresh_config, owner_config, sample_world, stale_error,
}

abbrev env : Env
env = sample sample_events

abbrev implicit_env : Env
implicit_env = sample implicit_events

abbrev AreHarmless : Option (List WindowEvent) → Type 0
AreHarmless none = Unit
AreHarmless (some events) = All IsHarmlessEvent events

sample-NoReset : NoReset env
sample-NoReset = record {
  others = λ n. tt;
  popup = λ n url events e. subst AreHarmless e (tt, (tt, (tt, (tt, tt))));
}

implicit-NoReset : NoReset implicit_env
implicit-NoReset = record {
  others = λ n. tt;
  popup = λ n url events e. subst AreHarmless e (tt, (tt, tt));
}

code_run : (AuthorizationCode.execute env code_config sample_world).0 ≡ returned tt
unfolding AuthorizationCode.execute ◌>>=◌ or_throw from_codes
code_run = refl

code_completes : (AuthorizationCode.execute env code_config sample_world).1.state.status ≡ completed
unfolding AuthorizationCode.execute ◌>>=◌ or_throw from_codes
code_completes = refl

implicit_run : (Implicit.execute implicit_env implicit_config sample_world).0 ≡ returned tt
unfolding Implicit.execute ◌>>=◌ or_throw from_codes
implicit_run = refl

implicit_completes :
    (Implicit.execute implicit_env implicit_config sample_world).1.state.status ≡ completed
unfolding Implicit.execute ◌>>=◌ or_throw from_codes
implicit_completes = refl

listener_kept : has 1 (execute env (code code_config) sample_world).1.listeners ≡ true
unfolding AuthorizationCode.execute ◌>>=◌ or_throw from_codes
listener_kept = refl

completed_needs_state_example : Answered env "oauth_callback" (str (csrf_state env 3))
completed_needs_state_example =
    completed_needs_state env code_config sample_world sample-NoReset code_run code_completes

implicit_completed_needs_state_example :
    Answered implicit_env "oauth_implicit_callback" (str (csrf_state implicit_env 5))
implicit_completed_needs_state_example =
    implicit_completed_needs_state implicit_env implicit_config sample_world implicit-NoReset
      implicit_run implicit_completes

execute-InSync_example :
    last_seen 1 (execute env (code code_config) sample_world).1.delivered
    ≡ some (execute env (code code_config) sample_world).1.state
execute-InSync_example = execute-InSync env (code code_config) sample_world 1 listener_kept

execute-keeps_stale_error_example :
    (d : FlowError) × ((execute env (code code_config) sample_world).1.state.error ≡ some d)
execute-keeps_stale_error_example =
    execute-keeps_stale_error env (code code_config) sample_world stale_error sample-NoReset refl

sample-Answers : Answers env
sample-Answers = record { answered = λ n request h. ground arith }

token_flows_end_example :
    Returned env
      (RefreshToken.attempt env refresh_config)
      (begun env RefreshToken.first_step sample_world)
      (RefreshToken.execute env refresh_config sample_world)
    × Returned env
        (ResourceOwner.attempt env owner_config)
        (begun env ResourceOwner.first_step sample_world)
        (ResourceOwner.execute env owner_config sample_world)
    × Returned env
        (ClientCredentials.attempt env sample_config "secret")
        (begun env ClientCredentials.first_step sample_world)
        (ClientCredentials.run env sample_config "secret" sample_world)
token_flows_end_example =
    token_flows_end env sample_world refresh_config owner_config sample_config "secret"
      sample-Answers

window_flows_end_example :
    Reported env
      (AuthorizationCode.attempt env code_config)
      (begun env AuthorizationCode.first_step sample_world)
      (AuthorizationCode.execute env code_config sample_world)
    × Reported env
        (Implicit.attempt env implicit_config)
        (begun env Implicit.first_step sample_world)
        (Implicit.execute env implicit_config sample_world)
    × Reported env
        (Hybrid.attempt env hybrid_config)
        (begun env Hybrid.first_step sample_world)
        (Hybrid.execute env hybrid_config sample_world)
    × Reported env
        (DeviceCode.attempt env 3 device_config)
        (begun env DeviceCode.first_step sample_world)
        (DeviceCode.execute env 3 device_config sample_world)
window_flows_end_example =
    window_flows_end env sample_world code_config implicit_config hybrid_config device_config 3

other_origin : ◌≢◌ {A = String} "https://evil.example" "https://app.example"
other_origin e = ground (arith, (eq_iff "https://evil.example" "https://app.example").1 e)

abbrev foreign_content : Value
foreign_content = obj (field "type" (str "oauth_callback") end)

await_callback-ignores_foreign_example :
    (await_callback env "oauth_callback"
        (closed ∷ message "https://evil.example" foreign_content ∷ sample_events)
        sample_world
      ≡ await_callback env "oauth_callback" (closed ∷ sample_events) sample_world)
    × (await_callback env "oauth_callback"
          (message "https://evil.example" foreign_content
            ∷ message "https://app.example" foreign_content
            ∷ sample_events)
          sample_world
        ≡ (returned foreign_content, sample_world))
unfolding get_prop
await_callback-ignores_foreign_example =
    await_callback-ignores_foreign env "oauth_callback" "https://evil.example" foreign_content
      foreign_content (closed ∷ []) sample_events sample_world (inl other_origin) refl
