-- ===== src/Flow/Exec.antt =====
-- Methods that read and write the executor, may throw, and wait. The world is the executor object
-- (its state, its listeners and its abort controller), the log of what listeners were called with,
-- and the number of environment calls made so far.
use mathlib.Core.List.{map}
use protocol_lens.Prelude.{
  ℕ, suc, String, Bool, true, false, ◌==◌, Option, none, some, List, [], ◌∷◌, ◌++◌, if◌then◌else◌,
}
use protocol_lens.Flow.State.{FlowState, Status, no_tokens, no_params}
use protocol_lens.Flow.Env.{Env, UserAction, abort, reset, subscribe, unsubscribe}

pub record World : Type 0 where
  -- `this.flowType`, which the class sets
  pub flow_type : String
  pub state : FlowState
  pub listeners : List ℕ
  pub delivered : List (ℕ × FlowState)
  -- `none` for no controller, else whether its signal is aborted
  pub controller : Option Bool
  pub calls : ℕ

-- How a run ends: with a value, with an exception's message, or never.
pub data Outcome {ℓ} (A : Type ℓ) : Type ℓ where
  returned : A → Outcome A
  thrown : String → Outcome A
  pending : Outcome A

abbrev pub Exec {ℓ} : Type ℓ → Type ℓ
Exec A = World → Outcome A × World

module _ {ℓ} {A : Type ℓ} where
  unfoldable pub pure : A → Exec A
  pure a w = (returned a, w)

  unfoldable pub throw : String → Exec A
  throw message w = (thrown message, w)

  unfoldable pub never : Exec A
  never w = (pending, w)

module _ {ℓ κ} {A : Type ℓ} {B : Type κ} where
  abbrev pub continue : Outcome A → (A → Exec B) → Exec B
  continue (returned a) f w = f a w
  continue (thrown message) f w = (thrown message, w)
  continue pending f w = (pending, w)

  infixl 10 ◌>>=◌ ◌>>◌
  unfoldable pub ◌>>=◌ : Exec A → (A → Exec B) → Exec B
  unfolding pure throw never
  ◌>>=◌ m f w = let (o, w') = m w in continue o f w'

  abbrev pub ◌>>◌ : Exec A → Exec B → Exec B
  m >> n = m >>= λ _. n

module _ {ℓ} {A : Type ℓ} where
  abbrev pub handle : Outcome A → (String → Exec A) → Exec A
  handle (returned a) h w = (returned a, w)
  handle (thrown message) h w = h message w
  handle pending h w = (pending, w)

  -- `try { m } catch (error) { h(error.message) }`
  unfoldable pub catch : Exec A → (String → Exec A) → Exec A
  catch m h w = let (o, w') = m w in handle o h w'

  -- `null` or a raised error as an exception
  unfoldable pub or_throw : String → Option A → Exec A
  or_throw message none = throw message
  or_throw message (some a) = pure a

-- `if (b) m`
unfoldable pub when : Bool → Exec (Unit {0}) → Exec (Unit {0})
unfolding pure
when b m = if b then m else pure tt

-- `this.flowType`
unfoldable pub own_flow_type : Exec String
own_flow_type w = (returned w.flow_type, w)

unfoldable pub get_state : Exec FlowState
get_state w = (returned w.state, w)

-- The number of this environment call.
unfoldable pub next_call : Exec ℕ
next_call w = (returned w.calls, record w { calls = suc w.calls })

-- `this.listeners.forEach(listener => listener(this.state))`
unfoldable pub publish : World → World
publish w = record w { delivered = w.delivered ++ map (λ l. (l, w.state)) w.listeners }

-- `updateState`: the new state is set and every listener is called with it.
unfoldable pub set_state : (FlowState → FlowState) → World → World
unfolding publish
set_state f w = publish (record w { state = f w.state })

unfoldable pub update_state : (FlowState → FlowState) → Exec (Unit {0})
unfolding set_state
update_state f w = (returned tt, set_state f w)

-- `securityParams: { ...this.state.securityParams, state }`
unfoldable pub set_csrf_state : String → Exec (Unit {0})
unfolding update_state
set_csrf_state v =
    update_state (λ s. record s { security_params = record s.security_params { state = some v } })

-- `createInitialState`
unfoldable pub initial_state : String → Option String → FlowState
initial_state id flow_type = record {
  execution_id = id;
  flow_type = flow_type;
  status = Status.idle;
  current_step = "Initialized";
  exchanges = [];
  events = [];
  tokens = no_tokens;
  decoded_tokens = [];
  security_params = no_params;
  error = none;
}

-- A new executor, at the environment call `calls`. The base class makes the first state before the
-- class sets its `flowType`.
unfoldable pub new_executor : Env → (flow_type : String) → (calls : ℕ) → World
unfolding initial_state
new_executor env flow_type calls = record {
  flow_type = flow_type;
  state = initial_state (env.uuid calls) none;
  listeners = [];
  delivered = [];
  controller = none;
  calls = suc calls;
}

-- `abort`: the signal of the current controller is set, and the status goes to idle.
unfoldable pub abort_world : World → World
unfolding set_state
abort_world w =
    set_state (λ s. record s { status = Status.idle })
      (record w { controller = elim w.controller [ none ↦ none | some _ ↦ some true ] })

-- `reset`: an abort, then a new state for the listeners.
unfoldable pub reset_world : Env → World → World
unfolding abort_world initial_state publish
reset_world env w =
    let aborted = abort_world w in
    publish (record aborted {
      state = initial_state (env.uuid aborted.calls) (some w.flow_type);
      calls = suc aborted.calls;
    })

abbrev pub has : ℕ → List ℕ → Bool
has l [] = false
has l (k ∷ ks) = if k == l then true else has l ks

-- `this.listeners.add(listener)`, `this.listeners.delete(listener)`
unfoldable pub add_listener : ℕ → List ℕ → List ℕ
add_listener l ls = if has l ls then ls else ls ++ (l ∷ [])

unfoldable pub delete_listener : ℕ → List ℕ → List ℕ
delete_listener l [] = []
delete_listener l (k ∷ ks) = let rest = delete_listener l ks in if k == l then rest else k ∷ rest

unfoldable pub subscribe_world : ℕ → World → World
unfolding add_listener
subscribe_world l w = record w {
  listeners = add_listener l w.listeners;
  delivered = w.delivered ++ ((l, w.state) ∷ []);
}

unfoldable pub unsubscribe_world : ℕ → World → World
unfolding delete_listener
unsubscribe_world l w = record w { listeners = delete_listener l w.listeners }

unfoldable pub act : Env → UserAction → World → World
unfolding abort_world reset_world subscribe_world unsubscribe_world
act env abort w = abort_world w
act env reset w = reset_world env w
act env (subscribe l) w = subscribe_world l w
act env (unsubscribe l) w = unsubscribe_world l w

unfoldable pub act_all : Env → List UserAction → World → World
unfolding act
act_all env [] w = w
act_all env (a ∷ as') w = act_all env as' (act env a w)

-- An `await` of the platform: other calls run before the executor goes on.
unfoldable pub wait : Env → Exec (Unit {0})
unfolding act_all
wait env w = (returned tt, act_all env (env.others w.calls) (record w { calls = suc w.calls }))

-- `this.abortController = new AbortController()`
unfoldable pub new_controller : Exec (Unit {0})
new_controller w = (returned tt, record w { controller = some false })

-- `this.abortController?.signal.aborted`
unfoldable pub is_aborted : Exec Bool
is_aborted w = (returned (elim w.controller [ none ↦ false | some b ↦ b ]), w)
