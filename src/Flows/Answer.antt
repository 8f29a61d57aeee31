-- ===== src/Flows/Answer.antt =====
-- What a run that waits for a callback relies on: the state it sent, and the callback it got.
use protocol_lens.Prelude.{ℕ, String, from_codes, some, List, ◌≡◌}
use protocol_lens.Js.Value.{Value, get_prop}
use protocol_lens.Flow.Env.{Env, WindowEvent}
use protocol_lens.Flow.Random.{to_hex}
use protocol_lens.Flow.Inversion.{Arrives}

-- The state parameter made of the random bytes of environment call `n`.
abbrev pub csrf_state : Env → ℕ → String
csrf_state env n = from_codes (to_hex (env.random n 16))

-- A callback that reached the window which was opened.
pub record Answered (env : Env) (type : String) (state : Value) : Type 0 where
  pub call : ℕ
  pub url : String
  pub events : List WindowEvent
  pub opened : env.popup call url ≡ some events
  pub content : Value
  pub arrives : Arrives env type content events
  pub carries : get_prop content "state" ≡ some state
