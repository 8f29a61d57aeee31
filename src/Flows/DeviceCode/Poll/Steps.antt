-- ===== src/Flows/DeviceCode/Poll/Steps.antt =====
-- `Respects` for the polls of flows/device-code.ts.
use protocol_lens.Prelude.{ℕ, zero, suc}
use protocol_lens.Js.Value.{Value, Number}
use protocol_lens.Flow.State.{Config}
use protocol_lens.Flow.Env.{Env}
use protocol_lens.Flow.Exec.{Exec}
use protocol_lens.Flow.Respects.{
  Rel, Law, Respects, Respects-throw, Respects-never, Respects-pure, Respects-bind,
}
use protocol_lens.Flow.Steps.{step_rules, Respects-clock}
use protocol_lens.Flows.DeviceCode.Poll.{
  DeviceConfig, DeviceAuth, Polled, resolved, rejected, continues, stalled, receive_tokens, succeed,
  pending_answer, slow_down, denied, expired, other_error, dispatch, refused, ask, poll_in_time,
  overtaken, unless_stopped, in_time, poll, tick, after_poll, poll_loop, poll_for_token,
}

module _ {env : Env} {R : Rel} (law : Law env R) where
  Respects-receive_tokens : (content : Value) → Respects R (receive_tokens env content)
  unfolding receive_tokens
  Respects-receive_tokens content = search step_rules

  Respects-succeed : (count : ℕ) (content : Value) → Respects R (succeed env count content)
  unfolding succeed
  Respects-succeed count content = search (step_rules, Respects-receive_tokens)

  Respects-pending_answer : (seconds : Number) → Respects R (pending_answer env seconds)
  unfolding pending_answer
  Respects-pending_answer seconds = search step_rules

  Respects-slow_down : (seconds : Number) → Respects R (slow_down env seconds)
  unfolding slow_down
  Respects-slow_down seconds = search step_rules

  Respects-denied : Respects R (denied env)
  unfolding denied
  Respects-denied = search step_rules

  Respects-expired : Respects R (expired env)
  unfolding expired
  Respects-expired = search step_rules

  Respects-other_error : (content code : Value) → Respects R (other_error env content code)
  unfolding other_error
  Respects-other_error content code = search step_rules

  Respects-dispatch :
      (seconds : Number) (content code : Value) → Respects R (dispatch env seconds content code)
  unfolding dispatch
  Respects-dispatch seconds content code =
      search
        (
          step_rules, Respects-pending_answer, Respects-slow_down, Respects-denied,
          Respects-expired, Respects-other_error,
        )
        depth 9

  Respects-refused : (seconds : Number) (content : Value) → Respects R (refused env seconds content)
  unfolding refused
  Respects-refused seconds content = search (step_rules, Respects-dispatch)

  Respects-overtaken :
      (seconds : Number) (m : Exec Polled) → Respects R m → Respects R (overtaken seconds m)
  unfolding overtaken
  Respects-overtaken seconds m h = record { at = h.at }

  module _ (c : Config) (auth : DeviceAuth) where
    Respects-ask : (seconds : Number) (count : ℕ) → Respects R (ask env c auth seconds count)
    unfolding ask
    Respects-ask seconds count = search (step_rules, Respects-succeed, Respects-refused)

    Respects-poll_in_time :
        (seconds : Number) (count : ℕ) → Respects R (poll_in_time env c auth seconds count)
    unfolding poll_in_time
    Respects-poll_in_time seconds count = search (step_rules, Respects-overtaken, Respects-ask)

    Respects-in_time :
        (seconds : Number) (count : ℕ) → Respects R (in_time env c auth seconds count)
    unfolding in_time unless_stopped
    Respects-in_time seconds count = search (step_rules, Respects-poll_in_time)

    pub Respects-poll :
        (limit : Number) (start : ℕ) (seconds : Number) (count : ℕ)
        → Respects R (poll env c auth limit start seconds count)
    unfolding poll
    Respects-poll limit start seconds count =
        search (step_rules, Respects-clock, Respects-in_time) depth 7

  pub Respects-tick : Respects R (tick env)
  unfolding tick
  Respects-tick = search step_rules depth 7

  Respects-after_poll :
      (p : Polled) (again : Number → Exec (Unit {0}))
      → ((s : Number) → Respects R (again s))
      → Respects R (after_poll p again)
  Respects-after_poll resolved again h = Respects-pure law tt
  Respects-after_poll (rejected e) again h = Respects-throw law e
  Respects-after_poll (continues seconds) again h = h seconds
  Respects-after_poll stalled again h = Respects-never law

  module _ (c : Config) (auth : DeviceAuth) (limit : Number) (start : ℕ) where
    Respects-poll_loop :
        (ticks : ℕ) (seconds : Number) (count : ℕ)
        → Respects R (poll_loop env c auth limit start ticks seconds count)
    unfolding poll_loop
    Respects-poll_loop zero seconds count = search (step_rules, Respects-poll, Respects-after_poll)
    Respects-poll_loop (suc ticks) seconds count =
        Respects-bind law _ _ (Respects-poll c auth limit start seconds count) (λ p.
          Respects-after_poll p _ (λ s.
            Respects-bind law _ _ Respects-tick (λ _. Respects-poll_loop ticks s (suc count))))

  pub Respects-poll_for_token :
      (ticks : ℕ) (c : DeviceConfig) (auth : DeviceAuth)
      → Respects R (poll_for_token env ticks c auth)
  unfolding poll_for_token
  Respects-poll_for_token ticks c auth = search (step_rules, Respects-clock, Respects-poll_loop)
