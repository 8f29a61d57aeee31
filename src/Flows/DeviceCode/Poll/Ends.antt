-- ===== src/Flows/DeviceCode/Poll/Ends.antt =====
-- The polls of flows/device-code.ts, one at a time: each comes to an end, and which of them stall.
use protocol_lens.Prelude.{ℕ}
use protocol_lens.Js.Value.{Value, Number}
use protocol_lens.Flow.State.{Config}
use protocol_lens.Flow.Env.{Env}
use protocol_lens.Prelude.{◌≢◌, arith}
use protocol_lens.Flow.Exec.{Exec, Outcome, returned, thrown, pending, pure}
use protocol_lens.Flow.Outcome.{Settles, settles_steps, Settles-clock}
use protocol_lens.Flow.Yields.{
  Yields, IsYielded, yields_rules, Yields-catch, Yields-if, Yields-bind, Yields-after, HasProps,
  NeverNull, Yields-make_request,
}
use protocol_lens.Flow.Total.{Returns, catch-Returns, Returns-process_token_response, returns_rules}
use protocol_lens.Flows.DeviceCode.Poll.{
  DeviceAuth, Polled, stalled, overtake, overtaken, receive_tokens, succeed, pending_answer,
  slow_down, denied, expired, other_error, dispatch, refused, ask, poll_in_time, unless_stopped,
  in_time, poll,
}

-- The promise is settled, or another poll is to come.
abbrev pub IsLive : Polled → Type 0
IsLive stalled = ⊥
IsLive _ = Unit

module _ (seconds : Number) where
  overtake-settled : (o : Outcome Polled) → overtake seconds o ≢ pending
  overtake-settled (returned p) h = ground arith
  overtake-settled (thrown e) h = ground arith
  overtake-settled pending h = ground arith

  Settles-overtaken : (m : Exec Polled) → Settles (overtaken seconds m)
  unfolding overtaken
  Settles-overtaken m = record { at = λ w. overtake-settled (m w).0 }

  overtake-IsYielded :
      (o : Outcome Polled) → IsYielded IsLive o → IsYielded IsLive (overtake seconds o)
  overtake-IsYielded (returned p) h = h
  overtake-IsYielded (thrown e) h = h
  overtake-IsYielded pending h = tt

  Yields-overtaken : (m : Exec Polled) → Yields IsLive m → Yields IsLive (overtaken seconds m)
  unfolding overtaken
  Yields-overtaken m h = record { at = λ w. overtake-IsYielded (m w).0 (h.at w) }

module _ (env : Env) where
  -- A poll never waits for ever.
  pub Settles-poll :
      (c : Config) (auth : DeviceAuth) (limit : Number) (start : ℕ) (seconds : Number) (count : ℕ)
      → Settles (poll env c auth limit start seconds count)
  unfolding poll in_time unless_stopped poll_in_time
  Settles-poll c auth limit start seconds count =
      search (settles_steps, Settles-clock, Settles-overtaken) depth 12

module _ (env : Env) where
  Returns-receive_tokens :
      (content : Value) → HasProps content → Returns (receive_tokens env content)
  unfolding receive_tokens
  Returns-receive_tokens content h = search (returns_rules, Returns-process_token_response)

  Yields-receive_tokens : (content : Value) → Yields IsLive (receive_tokens env content)
  unfolding receive_tokens
  Yields-receive_tokens content = search yields_rules

  Yields-succeed :
      (count : ℕ) (content : Value) → HasProps content → Yields IsLive (succeed env count content)
  unfolding succeed
  Yields-succeed count content h = Yields-after _ _ (λ _. record {
    at = λ w.
        rw (catch-Returns _ (λ e. pure stalled) w (Returns-receive_tokens content h))
          ((Yields-receive_tokens content).at w);
  })

  Yields-refused :
      (seconds : Number) (content : Value) → Yields IsLive (refused env seconds content)
  unfolding refused dispatch pending_answer slow_down denied expired other_error
  Yields-refused seconds content = search yields_rules depth 9

  module _ (json : NeverNull env) where
    Yields-ask :
        (c : Config) (auth : DeviceAuth) (seconds : Number) (count : ℕ)
        → Yields IsLive (ask env c auth seconds count)
    unfolding ask
    Yields-ask c auth seconds count =
        Yields-bind _ _ (Yields-make_request json _ _ _ _ _ _) (λ answer h.
          Yields-if _ _ _ (Yields-succeed count answer.1 h) (Yields-refused seconds answer.1))

    -- A poll that gets a body other than `null` leaves a promise that can still be settled.
    pub Yields-poll :
        (c : Config) (auth : DeviceAuth) (limit : Number) (start : ℕ) (seconds : Number) (count : ℕ)
        → Yields IsLive (poll env c auth limit start seconds count)
    unfolding poll in_time unless_stopped poll_in_time
    Yields-poll c auth limit start seconds count =
        search (yields_rules, Yields-overtaken, Yields-catch, Yields-ask) depth 12
