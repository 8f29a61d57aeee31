-- ===== src/Hooks/Session.antt =====
-- `useLookingGlassSession` of hooks.ts: the events that a session keeps.
pub mod Limit
use protocol_lens.Prelude.{
  ℕ, suc, ◌+◌, String, codes, includes, Bool, true, false, Option, none, some, List, [], ◌∷◌, take,
  if◌then◌else◌,
}
use protocol_lens.Js.Value.{
  Value, Number, whole, undefined, null, str, num, get_prop, truthy, or_else,
}
use protocol_lens.Flow.Env.{Env, to_number}
use protocol_lens.Flow.Base.{message_of}
use protocol_lens.Flow.Jwt.{is_text}

pub data EventStatus : Type 0 where
  success pending error warning : EventStatus

-- `timestamp` is the value that the date was made from; `Date.now()` where there is none.
pub record SessionEvent : Type 0 where
  pub id : Value
  pub session_id : String
  pub timestamp : Value
  pub type : Value
  pub title : Value
  pub description : Value
  pub step_id : Value
  pub status : EventStatus
  pub payload : Value
  pub annotations : Value
  pub duration : Value

-- `calls` numbers the calls of the browser; each event has two of them, an id and a time.
pub record Session : Type 0 where
  pub events : List SessionEvent
  pub current_step_index : Number
  pub calls : ℕ

abbrev pub initial_session : Session
initial_session = record { events = []; current_step_index = whole 0; calls = 0 }

-- `inferEventStatus` of the text of the type.
unfoldable pub status_of : String → EventStatus
unfolding includes
status_of type =
    if includes type "error"
    then error
    else if includes type "warning"
    then warning
    else if includes type "pending"
    then pending
    else success

unfoldable pub infer_event_status : Env → Value → EventStatus
unfolding or_else message_of status_of
infer_event_status env type = status_of (message_of env (or_else type (str "")))

-- A member of the parsed message; `undefined` stands for the TypeError that `read_event` excludes.
abbrev member : Value → String → Value
member v key = elim (get_prop v key) [ none ↦ undefined | some x ↦ x ]

abbrev pub has_members : Value → Bool
has_members undefined = false
has_members null = false
has_members _ = true

-- The event of a parsed message that is not `null`.
unfoldable pub read_event : Env → String → ℕ → Value → SessionEvent
unfolding get_prop truthy or_else infer_event_status
read_event env session_id n parsed = record {
  id = or_else (member parsed "id") (str (env.uuid n));
  session_id = session_id;
  timestamp = or_else (member parsed "timestamp") (num (env.now (suc n)));
  type = or_else (member parsed "type") (str "flow.step");
  title = or_else (member parsed "title") (str "Event");
  description = member parsed "description";
  step_id = member parsed "step_id";
  status = infer_event_status env (member parsed "type");
  payload = member parsed "data";
  annotations = member parsed "annotations";
  duration = member parsed "duration";
}

-- `event.data?.step`, `undefined` where there is none.
unfoldable pub step_of : SessionEvent → Value
unfolding get_prop
step_of e = member e.payload "step"

abbrev is_undefined : Value → Bool
is_undefined undefined = true
is_undefined _ = false

-- The index after an event: a step event with a step sets it.
unfoldable pub next_index : Env → SessionEvent → Number → Number
unfolding is_text step_of
next_index env e old =
    if is_text e.type "flow.step"
    then (if is_undefined (step_of e) then old else to_number env (step_of e))
    else old

-- `[event, ...prev].slice(0, maxEvents)`
abbrev cut : Option ℕ → List SessionEvent → List SessionEvent
cut none events = events
cut (some n) events = take n events

abbrev pub add_received : Env → Option ℕ → SessionEvent → Session → Session
add_received env limit e s = record {
  events = cut limit (e ∷ s.events);
  current_step_index = next_index env e s.current_step_index;
  calls = s.calls + 2;
}

abbrev pub receive : Env → String → (limit : Option ℕ) → Option Value → Session → Session
receive env session_id limit none s = s
receive env session_id limit (some parsed) s =
    if has_members parsed
    then add_received env limit (read_event env session_id s.calls parsed) s
    else s

-- `handleMessage` with the limit `maxEvents`; a message that is no JSON, or `null`, is ignored.
-- Without a limit every event is kept.
unfoldable pub handle_message : Env → String → (limit : Option ℕ) → String → Session → Session
unfolding read_event next_index
handle_message env session_id limit text s =
    receive env session_id limit (env.parse_json (codes text)) s

unfoldable pub handle_all : Env → String → Option ℕ → List String → Session → Session
unfolding handle_message
handle_all env session_id limit [] s = s
handle_all env session_id limit (m ∷ ms) s =
    handle_all env session_id limit ms (handle_message env session_id limit m s)

-- `clearEvents`
unfoldable pub clear_events : Session → Session
clear_events s = record s { events = []; current_step_index = whole 0 }
