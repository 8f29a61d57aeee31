-- ===== src/Flow/Base.antt =====
-- The methods of `FlowExecutorBase` (flows/base.ts) that record events and make requests.
use mathlib.Core.List.{map}
use protocol_lens.Prelude.{
  ℕ, suc, ◌-◌, String, codes, includes, concat, Bool, true, false, leb, ltb, ◌&&◌, str_eq, Option,
  none, some, List, [], ◌∷◌, ◌++◌, if◌then◌else◌, ◌≡◌, refl,
}
use protocol_lens.Js.Value.{Value, num, negsuc, str, bool, get_prop, or_else, truthy}
use protocol_lens.Js.Params
use protocol_lens.Js.Params.{Params}
use protocol_lens.Flow.State.{
  Status, EventType, EventText, Event, Exchange, HttpRequest, HttpResponse, Body, form, raw_text,
  FlowState,
}
use protocol_lens.Flow.Env.{
  Env, SentRequest, RawResponse, FetchResult, unanswered, failed, responded,
}
use protocol_lens.Flow.Exec.{
  Exec, pure, throw, ◌>>=◌, ◌>>◌, or_throw, next_call, update_state, wait, is_aborted,
  new_controller, own_flow_type, initial_state, never, World, set_state, returned,
}

abbrev pub event : EventType → String → String → Option String → List (String × Value) → EventText
event type title description reference payload = record {
  type = type;
  title = title;
  description = description;
  rfc_reference = reference;
  payload = payload;
}

abbrev stamp_event : String → ℕ → EventText → Event
stamp_event id time e = record {
  id = id;
  timestamp = time;
  type = e.type;
  title = e.title;
  description = e.description;
  rfc_reference = e.rfc_reference;
  payload = e.payload;
}

unfoldable pub uuid : Env → Exec String
unfolding next_call
uuid env = do n ← next_call; pure (env.uuid n)

-- `Date.now()`
unfoldable pub clock : Env → Exec ℕ
unfolding next_call
clock env = do n ← next_call; pure (env.now n)

unfoldable pub add_event : Env → EventText → Exec (Unit {0})
unfolding uuid clock update_state
add_event env e = do
  id ← uuid env
  time ← clock env
  update_state (λ s. record s { events = s.events ++ (stamp_event id time e ∷ []) })

unfoldable pub add_exchange : Env → String → Option String → HttpRequest → Exec Exchange
unfolding uuid clock update_state
add_exchange env step reference request = do
  id ← uuid env
  time ← clock env
  let full : Exchange = record {
    id = id;
    timestamp = time;
    rfc_reference = reference;
    step = step;
    request = request;
    response = none;
  }
  update_state (λ s. record s { exchanges = s.exchanges ++ (full ∷ []) })
  pure full

abbrev pub settle : FetchResult → Exec RawResponse
settle unanswered = never
settle (failed message) = throw message
settle (responded r) = pure r

-- A request is refused while its signal is aborted, before the call or when it settles.
abbrev pub unless_aborted {ℓ} : {A : Type ℓ} → Env → Exec A → Exec A
unless_aborted env m = do aborted ← is_aborted; if aborted then throw env.abort_message else m

unfoldable pub fetch : Env → SentRequest → Exec RawResponse
unfolding wait is_aborted next_call
fetch env request =
    unless_aborted env
      (do n ← next_call; wait env; unless_aborted env (settle (env.fetch n request)))

abbrev is_json : Option String → Bool
is_json none = false
is_json (some type) = includes type "application/json"

-- `response.json()` for a JSON content type, else `response.text()`.
unfoldable pub read_body : Env → RawResponse → Exec Value
unfolding wait is_aborted includes
read_body env r = do
  wait env
  unless_aborted env (
      if is_json r.content_type
      then or_throw env.syntax_error (env.parse_json (codes r.body))
      else pure (str r.body))

-- `response.ok`
abbrev pub is_ok : RawResponse → Bool
is_ok r = leb 200 r.status && ltb r.status 300

-- `later - earlier`
abbrev pub difference : ℕ → ℕ → Value
difference later earlier =
    if leb earlier later then num (later - earlier) else negsuc (earlier - later - 1)

-- `options.headers`, with a content type for form fields.
abbrev pub request_headers : Params → Option Body → Params
request_headers headers (some (form fields)) =
    Params.set "Content-Type" "application/x-www-form-urlencoded" headers
request_headers headers _ = headers

-- `bodyStr`; an empty text is no body.
abbrev pub encode_body : Env → Option Body → Option String
encode_body env none = none
encode_body env (some (form fields)) = some (env.encode_params fields)
encode_body env (some (raw_text s)) = if str_eq s "" then none else some s

abbrev has_body : Option Body → Bool
has_body none = false
has_body (some (form fields)) = true
has_body (some (raw_text s)) = if str_eq s "" then false else true

-- The exchange with its response takes the place of the exchange of its id.
abbrev pub put_exchange : Exchange → List Exchange → List Exchange
put_exchange exchange = map (λ e. if str_eq e.id exchange.id then exchange else e)

unfoldable pub make_request :
    Env
    → (method url : String) → (headers : Params) → (body : Option Body) → (step : String)
    → (reference : Option String) → Exec (RawResponse × Value)
unfolding add_exchange add_event clock fetch read_body update_state
make_request env method url headers body step reference = do
  let all_headers : Params = request_headers headers body
  exchange ←
      add_exchange env step reference
        (record { method = method; url = url; headers = all_headers; body = body })
  path ← or_throw env.type_error (env.pathname url)
  add_event env (
      event EventType.request (concat (method ∷ " " ∷ path ∷ [])) step reference
        (("method", str method) ∷ ("url", str url) ∷ ("hasBody", bool (has_body body)) ∷ []))
  start ← clock env
  response ←
      fetch env
        (record { method = method; url = url; headers = all_headers; body = encode_body env body })
  finish ← clock env
  content ← read_body env response
  let duration : Value = difference finish start
  let answer : HttpResponse = record {
    status = response.status;
    status_text = response.status_text;
    headers = response.headers;
    body = content;
    duration = duration;
  }
  update_state (λ s. record s {
    exchanges = put_exchange (record exchange { response = some answer }) s.exchanges;
  })
  add_event env (
      event EventType.response
        (concat (env.to_text (num response.status) ∷ " " ∷ response.status_text ∷ []))
        (concat ("Response received in " ∷ env.to_text duration ∷ "ms" ∷ [])) none
        (("status", num response.status)
          ∷ ("duration", duration)
          ∷ ("hasBody", bool (truthy content))
          ∷ []))
  pure (response, content)

-- The message of `new Error(v)`.
unfoldable pub message_of : Env → Value → String
message_of env (str s) = s
message_of env v = env.to_text v

-- `throw new Error(data.error_description || data.error || fallback)`
unfoldable pub throw_response {ℓ} : {A : Type ℓ} → Env → Value → String → Exec A
unfolding message_of or_else get_prop
throw_response env content fallback = do
  description ← or_throw env.type_error (get_prop content "error_description")
  code ← or_throw env.type_error (get_prop content "error")
  throw (message_of env (or_else description (or_else code (str fallback))))

-- The start of every `execute`: a new controller, and the initial state merged into the present one.
-- `createInitialState` has no `error` key, so the old error stays.
abbrev pub restart : (id flow_type step : String) → FlowState → FlowState
restart id flow_type step s =
    let fresh : FlowState = initial_state id (some flow_type) in
    record fresh { status = Status.executing; current_step = step; error = s.error }

unfoldable pub begin : Env → String → Exec (Unit {0})
unfolding new_controller uuid own_flow_type update_state initial_state
begin env step = do
  new_controller
  id ← uuid env
  flow_type ← own_flow_type
  update_state (restart id flow_type step)

-- The world after `begin`.
abbrev pub begun : Env → String → World → World
begun env step w =
    set_state (restart (env.uuid w.calls) w.flow_type step)
      (record w { controller = some false; calls = suc w.calls })

pub begin_lem :
    (env : Env) (step : String) (w : World) → begin env step w ≡ (returned tt, begun env step w)
unfolding begin ◌>>=◌
begin_lem env step w = refl

-- The `catch` block of every `execute`.
unfoldable pub fail : Env → String → Exec (Unit {0})
unfolding update_state add_event
fail env message = do
  update_state (λ s. record s {
    status = Status.error;
    current_step = "Flow failed";
    error = some (record { code = "execution_error"; description = message });
  })
  add_event env (event EventType.error "Flow Execution Failed" message none [])

pub begin-then :
    (env : Env) (step : String) (m : Exec (Unit {0})) (w : World)
    → (begin env step >> m) w ≡ m (begun env step w)
unfolding begin ◌>>=◌
begin-then env step m w = refl
