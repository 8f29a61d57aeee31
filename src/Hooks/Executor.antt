-- ===== src/Hooks/Executor.antt =====
-- `useRealFlowExecutor` of hooks.ts: the executor that the hook holds. The copy of its state that
-- the component renders is that of a subscriber.
pub mod Decides
use protocol_lens.Prelude.{
  String, Bool, true, false, Option, none, some, List, [], ◌∷◌, ◌++◌, concat,
}
use protocol_lens.Flow.State.{Status, executing, awaiting_user}
use protocol_lens.Flows.Grant.{present}
use protocol_lens.Factory.Create.{
  FactoryConfig, Executor, create_flow_executor, FlowInfo, get_flow_info, FlowRequirements,
  get_flow_requirements,
}
use protocol_lens.Hooks.FlowIds.{map_flow_id}

pub record Options : Type 0 where
  pub protocol_id : Option String
  pub flow_id : Option String
  pub client_id : String
  pub client_secret : Option String
  pub redirect_uri : String
  pub scopes : List String
  pub refresh_token : Option String
  pub username : Option String
  pub password : Option String
  pub bearer_token : Option String

-- The executor that the hook refers to, those on which it has called `abort`, a call each, and the
-- message for the user.
pub record HookState : Type 0 where
  pub executor : Option Executor
  pub aborted : List Executor
  pub error : Option String

unfoldable pub executor_flow_id : Options → Option String
unfolding map_flow_id
executor_flow_id o = map_flow_id o.protocol_id o.flow_id

-- All protocols are mounted at `/{protocol-id}`.
unfoldable pub factory_config : String → Options → FactoryConfig
unfolding concat
factory_config protocol o = record {
  protocol_base_url = concat ("/" ∷ protocol ∷ []);
  client_id = o.client_id;
  client_secret = o.client_secret;
  redirect_uri = some o.redirect_uri;
  scopes = o.scopes;
  refresh_token = o.refresh_token;
  username = o.username;
  password = o.password;
  bearer_token = o.bearer_token;
}

-- A template text shows a missing id as "null".
abbrev id_text : Option String → String
id_text none = "null"
id_text (some id) = id

unfoldable pub not_supported : Options → String
unfolding concat
not_supported o =
    concat ("Flow \"" ∷ id_text o.flow_id ∷ "\" is not supported for live execution yet" ∷ [])

abbrev pub held : Option Executor → List Executor
held none = []
held (some e) = e ∷ []

-- The cleanup of the effect, which an effect that made an executor has left behind: it aborts it.
unfoldable pub leave : HookState → HookState
leave h = record h { aborted = h.aborted ++ held h.executor }

-- `executorRef.current.abort(); executorRef.current = null; setError(null)`
unfoldable pub clean_up : HookState → HookState
clean_up h = record { executor = none; aborted = h.aborted ++ held h.executor; error = none }

abbrev pub install : Options → Option Executor → HookState → HookState
install o none h = record h { error = some (not_supported o) }
install o (some e) h = record h { executor = some e }

abbrev pub connect : Options → Option String → Option String → HookState → HookState
connect o (some id) (some protocol) h =
    install o (create_flow_executor id (factory_config protocol o)) h
connect o _ _ h = h

-- The effect that runs when the flow or an option changes, after the cleanup of the one before.
unfoldable pub change_flow : Options → HookState → HookState
unfolding leave clean_up executor_flow_id factory_config not_supported create_flow_executor
change_flow o h = connect o (executor_flow_id o) (present o.protocol_id) (clean_up (leave h))

-- `execute` with no executor; otherwise the executor's own `execute` runs.
unfoldable pub execute_missing : HookState → HookState
execute_missing h = elim h.executor [
  | none ↦ record h { error = some "No executor available" }
  | some e ↦ h
]

unfoldable pub is_executing : Option Status → Bool
is_executing (some executing) = true
is_executing (some awaiting_user) = true
is_executing _ = false
