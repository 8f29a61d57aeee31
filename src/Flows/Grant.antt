-- ===== src/Flows/Grant.antt =====
-- What the executors share: optional texts, and the frame of `execute`.
pub mod Steps
pub mod Forms
use protocol_lens.Prelude.{
  String, Bool, true, false, not, Option, none, some, List, [], ◌∷◌, str_eq, if◌then◌else◌, join,
  concat,
}
use protocol_lens.Js.Value.{Value, str, num, get_prop}
use protocol_lens.Js.Params
use protocol_lens.Js.Params.{Params}
use protocol_lens.Flow.State.{EventType, Status, completed, Config, Body, form, FlowState}
use protocol_lens.Flow.Env.{Env, RawResponse}
use protocol_lens.Flow.Exec.{Exec, pure, throw, catch, ◌>>=◌, ◌>>◌, update_state}
use protocol_lens.Flow.Base.{event, add_event, make_request, fail, is_ok}

-- An optional text that is truthy.
abbrev pub present : Option String → Option String
present none = none
present (some s) = if str_eq s "" then none else some s

abbrev pub is_present : Option String → Bool
is_present o = elim (present o) [ none ↦ false | some _ ↦ true ]

-- `if (o) params.set(key, o)`
abbrev pub set_present : String → Option String → Params → Params
set_present k o ps = elim (present o) [ none ↦ ps | some v ↦ Params.set k v ps ]

-- `if (scopes.length > 0) body.scope = scopes.join(' ')`
abbrev pub set_scope : List String → Params → Params
set_scope [] ps = ps
set_scope (s ∷ ss) ps = Params.set "scope" (join " " (s ∷ ss)) ps

-- The POST to the token endpoint of the configured server.
unfoldable pub post_token : Env → Config → Params → String → String → Exec (RawResponse × Value)
unfolding make_request concat
post_token env c body step reference =
    make_request env "POST" (concat (c.base_url ∷ "/token" ∷ [])) [] (some (form body)) step
      (some reference)

-- The `try` block and its `catch`.
unfoldable pub guarded : Env → Exec (Unit {0}) → Exec (Unit {0})
unfolding catch fail
guarded env body = catch body (fail env)

-- `this.updateState({ status: 'completed', currentStep })` and the last event.
unfoldable pub complete : Env → (step title description reference : String) → Exec (Unit {0})
unfolding update_state add_event
complete env step title description reference = do
  update_state (λ s. record s { status = completed; current_step = step })
  add_event env (event EventType.info title description (some reference) [])
