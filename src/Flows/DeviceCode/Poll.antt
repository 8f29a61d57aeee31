-- ===== src/Flows/DeviceCode/Poll.antt =====
-- `pollForToken` of flows/device-code.ts: one poll at once, then one whenever the interval timer
-- fires, until the promise settles.
pub mod Steps
pub mod Ends
pub mod Timeout
use protocol_lens.Prelude.{
  ℕ, zero, suc, ◌+◌, ◌-◌, ◌*◌, String, Bool, true, false, not, ◌&&◌, Option, none, some, List, [],
  ◌∷◌, ltb, leb, concat, str_eq, if◌then◌else◌,
}
use protocol_lens.Js.Value.{
  Value, Number, nan, whole, minus, undefined, null, bool, num, negsuc, str, obj, arr, get_prop,
  or_else, number_value,
}
use protocol_lens.Js.Params.{Params}
use protocol_lens.Flow.State.{EventType, Config, FlowState, form}
use protocol_lens.Flow.Env.{Env, RawResponse, to_number}
use protocol_lens.Flow.Exec.{
  Exec, Outcome, World, returned, pending, pure, throw, never, catch, ◌>>=◌, ◌>>◌, or_throw,
  update_state, wait, is_aborted,
}
use protocol_lens.Flow.Base.{event, clock, add_event, make_request, message_of, is_ok}
use protocol_lens.Flow.Jwt.{is_text}
use protocol_lens.Flow.Tokens.{process_token_response}

pub record DeviceConfig : Type 0 where
  pub config : Config
  pub poll_interval : Option ℕ
  pub max_poll_duration : Option ℕ

-- `n || fallback`
abbrev or_number : Option ℕ → ℕ → ℕ
or_number none fallback = fallback
or_number (some zero) fallback = fallback
or_number (some (suc n)) fallback = suc n

-- The constructor's defaults.
abbrev pub poll_interval : DeviceConfig → Value
poll_interval c = num (or_number c.poll_interval 5)

abbrev pub max_poll_duration : DeviceConfig → ℕ
max_poll_duration c = or_number c.max_poll_duration 300

pub record DeviceAuth : Type 0 where
  pub device_code : Value
  pub user_code : Value
  pub verification_uri : Value
  pub verification_uri_complete : Value
  pub expires_in : Value
  pub interval : Value

-- `Math.min(a, b)`, which is NaN if `a` is.
abbrev pub min_seconds : Number → ℕ → Number
min_seconds nan b = nan
min_seconds (minus n) b = minus n
min_seconds (whole a) b = whole (if leb a b then a else b)

-- `n * 1000`
abbrev pub in_ms : Number → Number
in_ms nan = nan
in_ms (whole n) = whole (n * 1000)
in_ms (minus n) = minus (n * 1000 + 999)

-- `maxDuration`, in seconds
unfoldable pub max_duration : Env → DeviceConfig → DeviceAuth → Number
max_duration env c auth = min_seconds (to_number env auth.expires_in) (max_poll_duration c)

-- `later - earlier > limit`; a comparison with NaN fails.
unfoldable pub exceeds : ℕ → ℕ → Number → Bool
exceeds later earlier nan = false
exceeds later earlier (whole n) = ltb (earlier + n) later
exceeds later earlier (minus n) = ltb earlier (later + suc n)

-- What one poll does to the promise.
pub data Polled : Type 0 where
  resolved : Polled
  rejected : String → Polled
  continues : (seconds : Number) → Polled
  -- the timer is cleared, but the promise is not settled
  stalled : Polled

abbrev add_five : Number → Number
add_five nan = nan
add_five (whole n) = whole (n + 5)
add_five (minus n) = if leb 5 n then minus (n - 5) else whole (4 - n)

receive_tokens : Env → Value → Exec Polled
receive_tokens env content = do process_token_response env content; pure resolved

-- The timer is cleared first: what `processTokenResponse` throws is only logged.
succeed : Env → ℕ → Value → Exec Polled
unfolding receive_tokens catch
succeed env count content = do
  add_event env (
      event EventType.rfc "RFC 8628 Section 3.5"
        "Device Access Token Response - User authorized the device" (some "RFC 8628 Section 3.5")
        (("pollAttempts", num count) ∷ []))
  catch (receive_tokens env content) (λ e. pure stalled)

pending_answer : Env → Number → Exec Polled
pending_answer env seconds = do
  add_event env (
      event EventType.info "Authorization Pending"
        "User has not yet authorized - continuing to poll" (some "RFC 8628 Section 3.5") [])
  pure (continues seconds)

slow_down : Env → Number → Exec Polled
slow_down env seconds = do
  add_event env (
      event EventType.rfc "Slow Down Received"
        (concat (
          "Increasing poll interval to "
          ∷ env.to_text (number_value (add_five seconds))
          ∷ "s"
          ∷ []))
        (some "RFC 8628 Section 3.5") [])
  pure (continues (add_five seconds))

denied : Env → Exec Polled
denied env = do
  add_event env (
      event EventType.error "Access Denied" "User denied the authorization request"
        (some "RFC 8628 Section 3.5") [])
  pure (rejected "User denied authorization")

expired : Env → Exec Polled
expired env = do
  add_event env (
      event EventType.error "Device Code Expired" "The device code has expired - restart the flow"
        (some "RFC 8628 Section 3.5") [])
  pure (rejected "Device code expired")

other_error : Env → Value → Value → Exec Polled
other_error env content code = do
  description ← or_throw env.type_error (get_prop content "error_description")
  pure (rejected (message_of env (or_else description code)))

-- The `switch` on the error of a refused poll.
dispatch : Env → Number → Value → Value → Exec Polled
unfolding pending_answer slow_down denied expired other_error is_text
dispatch env seconds content code =
    if is_text code "authorization_pending"
    then pending_answer env seconds
    else if is_text code "slow_down"
    then slow_down env seconds
    else if is_text code "access_denied"
    then denied env
    else if is_text code "expired_token"
    then expired env
    else other_error env content code

refused : Env → Number → Value → Exec Polled
refused env seconds content = do
  code ← or_throw env.type_error (get_prop content "error")
  dispatch env seconds content code

-- The form of a poll.
unfoldable pub poll_body : Env → Config → DeviceAuth → Params
unfolding message_of
poll_body env c auth =
    ("grant_type", "urn:ietf:params:oauth:grant-type:device_code")
    ∷ ("device_code", message_of env auth.device_code)
    ∷ ("client_id", c.client_id)
    ∷ []

-- The `try` block of a poll.
ask : Env → Config → DeviceAuth → Number → ℕ → Exec Polled
unfolding succeed refused dispatch poll_body make_request concat
ask env c auth seconds count = do
  (response, content) ←
      make_request env "POST" (concat (c.base_url ∷ "/token" ∷ [])) []
        (some (form (poll_body env c auth)))
        (concat ("Token Poll Request #" ∷ env.to_text (num count) ∷ []))
        (some "RFC 8628 Section 3.4")
  if is_ok response then succeed env count content else refused env seconds content

-- The timer does not wait for a poll: one whose request is never answered leaves it running.
abbrev pub overtake : Number → Outcome Polled → Outcome Polled
overtake seconds pending = returned (continues seconds)
overtake seconds o = o

unfoldable pub overtaken : Number → Exec Polled → Exec Polled
overtaken seconds m w = let (o, w') = m w in (overtake seconds o, w')

-- The rest of a poll that is in time and not aborted: an exception in it is only logged.
poll_in_time : Env → Config → DeviceAuth → Number → ℕ → Exec Polled
unfolding ask update_state catch overtaken
poll_in_time env c auth seconds count = do
  update_state (λ s. record s {
    current_step =
        concat ("Polling for authorization (attempt " ∷ env.to_text (num count) ∷ ")..." ∷ []);
  })
  overtaken seconds (catch (ask env c auth seconds count) (λ e. pure (continues seconds)))

unless_stopped : Env → Config → DeviceAuth → Number → ℕ → Bool → Exec Polled
unless_stopped env c auth seconds count stopped =
    if stopped then pure (rejected "Polling aborted") else poll_in_time env c auth seconds count

in_time : Env → Config → DeviceAuth → Number → ℕ → Exec Polled
in_time env c auth seconds count = do
  stopped ← is_aborted
  unless_stopped env c auth seconds count stopped

-- `poll`
unfoldable pub poll :
    Env → Config → DeviceAuth → (limit : Number) → (start : ℕ) → Number → ℕ → Exec Polled
unfolding clock exceeds in_time unless_stopped poll_in_time is_aborted
poll env c auth limit start seconds count = do
  now ← clock env
  if exceeds now start limit
      then pure (rejected "Device authorization timeout")
      else in_time env c auth seconds count

-- The timer fires, unless `abort` has cleared it: the device executor's `abort` clears the timer and
-- then sets the signal, so that the timer is gone where the signal is set. Nothing settles the
-- promise then.
unfoldable pub tick : Env → Exec (Unit {0})
unfolding wait is_aborted never pure
tick env = do wait env; stopped ← is_aborted; if stopped then never else pure tt

-- What a poll leaves to do, `again` being the next tick and its poll.
abbrev pub after_poll : Polled → (Number → Exec (Unit {0})) → Exec (Unit {0})
after_poll resolved again = pure tt
after_poll (rejected e) again = throw e
after_poll (continues seconds) again = again seconds
after_poll stalled again = never

-- The polls of an interval timer that fires `ticks` times more.
unfoldable pub poll_loop :
    Env
    → Config
    → DeviceAuth
    → (limit : Number) → (start : ℕ) → (ticks : ℕ) → Number
    → ℕ
    → Exec (Unit {0})
unfolding poll tick never
poll_loop env c auth limit start zero seconds count =
    poll env c auth limit start seconds count >>= λ p. after_poll p (λ _. never)
poll_loop env c auth limit start (suc ticks) seconds count =
    poll env c auth limit start seconds count >>= λ p.
    after_poll p (λ s. tick env >> poll_loop env c auth limit start ticks s (suc count))

-- `interval`, in seconds
abbrev pub interval_of : Env → DeviceConfig → DeviceAuth → Number
interval_of env c auth = to_number env (or_else auth.interval (poll_interval c))

unfoldable pub poll_for_token : Env → ℕ → DeviceConfig → DeviceAuth → Exec (Unit {0})
unfolding clock add_event poll_loop max_duration
poll_for_token env ticks c auth = do
  start ← clock env
  add_event env (
      event EventType.rfc "RFC 8628 Section 3.4" "Starting to poll token endpoint"
        (some "RFC 8628 Section 3.4")
        (("interval", number_value (interval_of env c auth))
          ∷ ("maxDuration", number_value (max_duration env c auth))
          ∷ ("note", str "Must respect slow_down errors by increasing interval")
          ∷ []))
  poll_loop env c.config auth (in_ms (max_duration env c auth)) start ticks (interval_of env c auth)
      1
