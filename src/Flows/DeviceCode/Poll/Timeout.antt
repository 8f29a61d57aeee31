-- ===== src/Flows/DeviceCode/Poll/Timeout.antt =====
-- When the polls of flows/device-code.ts come to an end.
use protocol_lens.Prelude.{
  ℕ, zero, suc, ◌+◌, ◌*◌, ◌<◌, ◌≤◌, ◌≡◌, refl, ◌≢◌, true, false, some, arith, ◌∙◌,
}
use protocol_lens.Js.Value.{Number, nan, whole, minus}
use protocol_lens.Flow.State.{Config}
use protocol_lens.Flow.Env.{to_number, Env}
use protocol_lens.Flow.Exec.{
  Exec, World, Outcome, returned, thrown, pending, pure, throw, continue, ◌>>=◌, ◌>>◌, act_all,
  wait, is_aborted, next_call, update_state, set_state, publish,
}
use protocol_lens.Flow.Yields.{IsYielded, NeverNull}
use protocol_lens.Flow.Watching.{OnlyWatched, Proceeds, Proceeds-Law}
use protocol_lens.Flow.Base.{clock, uuid, add_event}
use protocol_lens.Flows.DeviceCode.Poll.Ends.{IsLive, Settles-poll, Yields-poll}
use protocol_lens.Flows.DeviceCode.Poll.Steps.{Respects-poll}
use protocol_lens.Flows.DeviceCode.Poll.{
  DeviceConfig, DeviceAuth, Polled, resolved, rejected, continues, stalled, exceeds, max_duration,
  max_poll_duration, in_ms, min_seconds, poll, tick, after_poll, poll_loop, poll_for_token,
}

abbrev IsNumber : Number → Type 0
IsNumber nan = ⊥
IsNumber _ = Unit

exceeds-min :
    (n : Number) (b start later : ℕ)
    → IsNumber n
    → start + b * 1000 < later
    → exceeds later start (in_ms (min_seconds n b)) ≡ true
unfolding exceeds
exceeds-min nan b start later h late = absurd h
exceeds-min (minus n) b start later h late = ground arith
exceeds-min (whole a) b start later h late = ground arith

module _ (env : Env) (c : Config) (auth : DeviceAuth) (limit : Number) (start : ℕ) where
  -- From the environment call `last` on, every poll is too late.
  abbrev IsLateFrom : ℕ → Type 0
  IsLateFrom last = (n : ℕ) → last ≤ n → exceeds (env.now n) start limit ≡ true

  late_poll :
      (last : ℕ)
      → IsLateFrom last
      → (seconds : Number) (count : ℕ) (w : World) → last ≤ w.calls
      → (poll env c auth limit start seconds count w).0
        ≡ returned (rejected "Device authorization timeout")
  unfolding poll clock ◌>>=◌ pure next_call
  late_poll last late seconds count w h = rw (late w.calls h) refl

  module _ (calm : OnlyWatched env) (json : NeverNull env) where
    settled :
        (o : Outcome Polled) (again : Number → Exec (Unit {0})) (w : World)
        → o ≢ pending
        → IsYielded IsLive o
        → ((s : Number) → (again s w).0 ≢ pending)
        → (continue o (λ p. after_poll p again) w).0 ≢ pending
    unfolding pure throw
    settled (returned resolved) again w p live h = λ e. ground arith
    settled (returned (rejected e)) again w p live h = λ e'. ground arith
    settled (returned (continues s)) again w p live h = h s
    settled (returned stalled) again w p live h = absurd live
    settled (thrown e) again w p live h = λ e'. ground arith
    settled pending again w p live h = absurd (p refl)

    ticked :
        (m : Exec (Unit {0})) (w : World)
        → w.controller ≡ some false
        → ((v : World) → Proceeds w v → w.calls < v.calls → (m v).0 ≢ pending)
        → ((tick env >> m) w).0 ≢ pending
    unfolding tick wait is_aborted pure ◌>>=◌
    ticked m w live h =
        let law = Proceeds-Law calm in
        let u : World = record w { calls = suc w.calls } in
        let v : World = act_all env (env.others w.calls) u in
        let p : Proceeds u v = law.waited w.calls u in
        let q : Proceeds w v = law.trans (law.call w) p in
        let more = p.later in rw (q.same_controller ∙ live) (h v q (omega arith))

    -- The polls come to an end once the clock is past the limit within the ticks that are left.
    poll_loop-settles :
        (last : ℕ)
        → IsLateFrom last
        → (ticks : ℕ) (seconds : Number) (count : ℕ) (w : World) → w.controller ≡ some false
        → last ≤ w.calls + ticks
        → (poll_loop env c auth limit start ticks seconds count w).0 ≢ pending
    unfolding poll_loop ◌>>=◌
    poll_loop-settles last late zero seconds count w live h =
        let e = late_poll last late seconds count w (omega arith) in rw e (λ q. ground arith)
    poll_loop-settles last late (suc ticks) seconds count w live h =
        let law = Proceeds-Law calm in
        let (o, v) = poll env c auth limit start seconds count w in
        let p = (Respects-poll law c auth limit start seconds count).at w in
        let far = p.later in
        settled o _ v ((Settles-poll env c auth limit start seconds count).at w)
          ((Yields-poll env json c auth limit start seconds count).at w)
          (λ s. ticked _ v (p.same_controller ∙ live) (λ u q less.
            let more = q.later in
            poll_loop-settles last late ticks s (suc count) u
              (q.same_controller ∙ p.same_controller ∙ live) (omega arith)))

-- Where nobody aborts or resets the executor, no body parses to `null` and the server sent a
-- lifetime that is a number, the promise of a polling run is settled if the interval timer fires
-- often enough for the clock to pass the configured maximum: some environment call within the
-- number of ticks reads a time more than the maximum after the start, and so does every later one.
pub poll_for_token-settles :
    (env : Env) (c : DeviceConfig) (auth : DeviceAuth) (ticks last : ℕ) (w : World)
    → OnlyWatched env
    → NeverNull env
    → IsNumber (to_number env auth.expires_in)
    → ((n : ℕ) → last ≤ n → env.now w.calls + max_poll_duration c * 1000 < env.now n)
    → w.controller ≡ some false
    → last ≤ w.calls + ticks
    → (poll_for_token env ticks c auth w).0 ≢ pending
unfolding poll_for_token ◌>>=◌ clock pure next_call max_duration add_event uuid update_state
    set_state publish
poll_for_token-settles env c auth ticks last w calm json number slow live enough =
    poll_loop-settles env c.config auth _ (env.now w.calls) calm json last
      (λ n h.
        exceeds-min (to_number env auth.expires_in) (max_poll_duration c) _ _ number (slow n h))
      ticks _ 1 _ live (omega arith)
