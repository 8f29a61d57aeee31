-- ===== src/Flow/Popup.antt =====
-- Waiting for the authorization window: the promise of `openAuthorizationPopup`, which the
-- authorization code, the implicit and the hybrid flow share but for the type of their message.
use protocol_lens.Prelude.{
  String, Bool, true, false, Option, none, some, List, [], ◌∷◌, str_eq, ◌&&◌, if◌then◌else◌,
}
use protocol_lens.Js.Value.{Value, undefined, get_prop}
use protocol_lens.Flow.State.{Status, awaiting_user}
use protocol_lens.Flow.Env.{Env, WindowEvent, message, closed, action, UserAction}
use protocol_lens.Flow.Exec.{Exec, pure, throw, never, ◌>>=◌, ◌>>◌, get_state, act}
use protocol_lens.Flow.Jwt.{is_text}

abbrev is_awaiting : Status → Bool
is_awaiting awaiting_user = true
is_awaiting _ = false

abbrev pub has_type : String → Option Value → Bool
has_type kind none = false
has_type kind (some v) = is_text v kind

-- `event.origin === window.location.origin` and `event.data?.type === kind`
unfoldable pub is_callback : Env → (kind origin : String) → Value → Bool
unfolding get_prop is_text
is_callback env kind origin content =
    str_eq origin env.origin && has_type kind (get_prop content "type")

-- A call of one of the executor's methods while it waits.
unfoldable pub run_action : Env → UserAction → Exec (Unit {0})
unfolding act pure
run_action env a w = pure tt (act env a w)

-- Messages that are no callback are skipped; the first callback is handed over and the listener
-- removed. The timer that finds the window closed rejects while the status is `awaiting_user`; at
-- any other status the promise stays unsettled, since listener and timer are gone.
unfoldable pub await_callback : Env → String → List WindowEvent → Exec Value
unfolding is_callback run_action get_state throw never pure
await_callback env kind [] = never
await_callback env kind (message origin content ∷ rest) =
    let later = await_callback env kind rest in
    if is_callback env kind origin content then pure content else later
await_callback env kind (closed ∷ rest) = do
  s ← get_state
  if is_awaiting s.status then throw "User closed authorization window" else never
await_callback env kind (action a ∷ rest) = do run_action env a; await_callback env kind rest

-- `state !== this.state.securityParams.state`, negated
unfoldable pub same_state : Value → Option String → Bool
unfolding is_text
same_state v (some s) = is_text v s
same_state undefined none = true
same_state _ none = false
