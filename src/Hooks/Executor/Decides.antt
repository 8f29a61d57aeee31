-- ===== src/Hooks/Executor/Decides.antt =====
-- Which executor `useRealFlowExecutor` of hooks.ts ends up with.
use protocol_lens.Prelude.{
  String, Bool, ◌&&◌, Option, none, some, ◌++◌, if◌then◌else◌, ◌≡◌, ◌≢◌, refl, sym, ap, ◌∙◌,
}
use protocol_lens.Flows.Grant.{present}
use protocol_lens.Factory.Create.{
  FactoryConfig, Executor, create_flow_executor, list_supported_flows,
}
use protocol_lens.Factory.Supported.{
  is_some, has_text, checked_requirements_met, create_flow_executor-listed,
}
use protocol_lens.Hooks.Executor.{
  Options, HookState, executor_flow_id, factory_config, not_supported, held, leave, clean_up,
  install, connect, change_flow,
}
use protocol_lens.Hooks.Mapping.{present_full}

-- The flow is listed, and what the constructor of its executor checks is there.
abbrev pub is_offered : String → FactoryConfig → Bool
is_offered id c = has_text id list_supported_flows && checked_requirements_met id c

abbrev Decided : Options → Bool → HookState → HookState → Type 0
Decided o offered before after =
    (is_some after.executor ≡ offered)
    × (after.error ≡ (if offered then none else some (not_supported o)))
    × (after.aborted ≡ (before.aborted ++ held before.executor) ++ held before.executor)

installed :
    (o : Options) (e : Option Executor) (offered : Bool) (h : HookState)
    → is_some e ≡ offered
    → Decided o offered h (install o e (clean_up (leave h)))
unfolding clean_up leave
installed o none offered h k = (k, rw (sym k) refl, refl)
installed o (some e) offered h k = (k, rw (sym k) refl, refl)

connected :
    (o : Options) (h : HookState) (protocol id : String) (a b : Option String)
    → a ≡ some id
    → b ≡ some protocol
    → Decided o (is_offered id (factory_config protocol o)) h (connect o a b (clean_up (leave h)))
connected o h protocol id a b e f =
    rw (e, f)
      (installed o (create_flow_executor id (factory_config protocol o)) _ h
        (create_flow_executor-listed id (factory_config protocol o)))

-- When the flow or an option changes and both ids are given, the hook holds an executor exactly if
-- the mapped flow is listed and what its constructor checks is there (a refresh token for the refresh
-- token flow, a user name and a password for the resource owner flow; a client secret is not
-- checked); otherwise it shows that the flow is not supported, and never both; the executor that it
-- held before has been aborted, by the cleanup and again by the effect.
pub change_flow-decides :
    (o : Options) (h : HookState) (protocol id : String)
    → o.protocol_id ≡ some protocol
    → protocol ≢ ""
    → executor_flow_id o ≡ some id
    → (is_some (change_flow o h).executor ≡ is_offered id (factory_config protocol o))
      × ((change_flow o h).error
          ≡ (if is_offered id (factory_config protocol o) then none else some (not_supported o)))
      × ((change_flow o h).aborted ≡ (h.aborted ++ held h.executor) ++ held h.executor)
unfolding change_flow
change_flow-decides o h protocol id given full mapped =
    connected o h protocol id (executor_flow_id o) (present o.protocol_id) mapped
      (ap present given ∙ present_full protocol full)
